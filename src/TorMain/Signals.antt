-- ===== src/TorMain/Signals.antt =====
-- app/startup/main.c: the table of signals, their registration, and what each of them does.
pub mod Handled
use tor_onion.Common.{
  ℕ, Bool, true, false, not, ◌&&◌, Option, none, some, List, [], ◌∷◌, ◌++◌, map, if◌then◌else◌,
}
use tor_onion.Common.Int.{ℤ}
use tor_onion.TorMain.Hup.{HupCall, HupAnswers, do_hup, is_negative_int, when_}

-- SIGINT and the others of the table; the last five are the controller's only.
pub data Signal : Type 0 where
  sigint sigterm sigpipe sigusr1 sigusr2 sighup sigxfsz sigchld : Signal
  signewnym sigcleardnscache sigheartbeat sigactive sigdormant : Signal

pub data SignalCall : Type 0 where
  tor_shutdown_event_loop_and_exit : ℕ → SignalCall
  sd_notify_stopping sd_notify_reloading sd_notify_ready : SignalCall
  hibernate_begin_shutdown dumpstats switch_logs_debug : SignalCall
  control_event_signal : Signal → SignalCall
  in_hup : HupCall → SignalCall
  notify_pending_waitpid_callbacks do_signewnym addressmap_clear_transient log_heartbeat :
      SignalCall
  note_user_activity reset_user_activity schedule_rescan_periodic_events : SignalCall
  set_network_participation : Bool → SignalCall

-- Whether Tor is built with systemd, whether it is a server, and what do_hup meets.
pub record World : Type 0 where
  pub have_systemd : Bool
  pub server_mode : Bool
  pub hup : HupAnswers

pub process_hup : World → List SignalCall
unfolding do_hup
process_hup w =
    let (r, calls) = do_hup w.hup in
    when_ w.have_systemd sd_notify_reloading
    ++ (map in_hup calls
        ++ (if is_negative_int r
            then tor_shutdown_event_loop_and_exit 1 ∷ []
            else when_ w.have_systemd sd_notify_ready ++ (control_event_signal sighup ∷ [])))

unfoldable pub process_signal : World → Signal → List SignalCall
unfolding process_hup
process_signal w sigterm = tor_shutdown_event_loop_and_exit 0 ∷ []
process_signal w sigint =
    if not w.server_mode
    then tor_shutdown_event_loop_and_exit 0 ∷ []
    else when_ w.have_systemd sd_notify_stopping ++ (hibernate_begin_shutdown ∷ [])
process_signal w sigpipe = []
process_signal w sigusr1 = dumpstats ∷ control_event_signal sigusr1 ∷ []
process_signal w sigusr2 = switch_logs_debug ∷ control_event_signal sigusr2 ∷ []
process_signal w sighup = process_hup w
process_signal w sigchld = notify_pending_waitpid_callbacks ∷ []
process_signal w signewnym = do_signewnym ∷ []
process_signal w sigcleardnscache =
    addressmap_clear_transient ∷ control_event_signal sigcleardnscache ∷ []
process_signal w sigheartbeat = log_heartbeat ∷ control_event_signal sigheartbeat ∷ []
process_signal w sigactive = note_user_activity ∷ control_event_signal sigactive ∷ []
process_signal w sigdormant =
    reset_user_activity
    ∷ set_network_participation false
    ∷ schedule_rescan_periodic_events
    ∷ control_event_signal sigdormant
    ∷ []
process_signal w sigxfsz = []

-- struct event: one for a signal of the system, or one that is only activated by hand. Its callback
-- is signal_callback with the address of the entry's value.
pub record SignalEvent : Type 0 where
  pub from_system : Bool
  pub signal : Signal

pub record Handler : Type 0 where
  pub signal_value : Signal
  pub try_to_register : Bool
  pub signal_event : Option SignalEvent

-- `unix_only` is UNIX_ONLY.
pub signal_handlers : Bool → List Handler
signal_handlers unix_only =
    map (λ s. record { signal_value = s; try_to_register = unix_only; signal_event = none })
      (sigint ∷ sigterm ∷ sigpipe ∷ sigusr1 ∷ sigusr2 ∷ sighup ∷ sigxfsz ∷ sigchld ∷ [])
    ++ map (λ s. record { signal_value = s; try_to_register = false; signal_event = none })
        (signewnym ∷ sigcleardnscache ∷ sigheartbeat ∷ sigactive ∷ sigdormant ∷ [])

-- `enabled` is that DisableSignalHandlers is not set.
pub handle_signals : Bool → List Handler → List Handler
handle_signals enabled [] = []
handle_signals enabled (h ∷ hs) =
    record h {
      signal_event =
          some (record { from_system = enabled && h.try_to_register; signal = h.signal_value });
    }
    ∷ handle_signals enabled hs

abbrev pub same_signal : Signal → Signal → Bool
same_signal sigint sigint = true
same_signal sigterm sigterm = true
same_signal sigpipe sigpipe = true
same_signal sigusr1 sigusr1 = true
same_signal sigusr2 sigusr2 = true
same_signal sighup sighup = true
same_signal sigxfsz sigxfsz = true
same_signal sigchld sigchld = true
same_signal signewnym signewnym = true
same_signal sigcleardnscache sigcleardnscache = true
same_signal sigheartbeat sigheartbeat = true
same_signal sigactive sigactive = true
same_signal sigdormant sigdormant = true
same_signal _ _ = false

-- The event that is activated, `some none` if its pointer is NULL; `none` if no entry fits.
pub activate_signal : Signal → List Handler → Option (Option SignalEvent)
activate_signal s [] = none
activate_signal s (h ∷ hs) =
    if same_signal h.signal_value s then some h.signal_event else activate_signal s hs

-- signal_callback for an event.
pub signal_callback : World → SignalEvent → List SignalCall
unfolding process_signal
signal_callback w e = process_signal w e.signal
