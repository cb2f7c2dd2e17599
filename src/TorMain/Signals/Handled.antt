-- ===== src/TorMain/Signals/Handled.antt =====
-- What the signals of app/startup/main.c lead to.
use tor_onion.Common.{
  ℕ, ◌≡◌, refl, Bool, true, false, not, ◌&&◌, some, List, [], ◌∷◌, ◌++◌, map, arith, if◌then◌else◌,
}
use tor_onion.TorMain.Hup.{HupCall, do_hup, is_negative_int, when_}
use tor_onion.TorMain.Signals.{
  Signal, sigint, sigterm, sigusr1, sigusr2, sighup, signewnym, sigcleardnscache, sigheartbeat,
  sigactive, sigdormant, SignalCall, tor_shutdown_event_loop_and_exit, sd_notify_ready,
  control_event_signal, in_hup, World, process_hup, process_signal, SignalEvent, signal_handlers,
  handle_signals, activate_signal, signal_callback,
}

-- The codes that Tor is told to exit with.
unfoldable pub exits : List SignalCall → List ℕ
exits [] = []
exits (tor_shutdown_event_loop_and_exit n ∷ cs) = n ∷ exits cs
exits (_ ∷ cs) = exits cs

-- The signals that the controllers are told of.
unfoldable pub reports : List SignalCall → List Signal
reports [] = []
reports (control_event_signal s ∷ cs) = s ∷ reports cs
reports (_ ∷ cs) = reports cs

abbrev pub ends_tor : World → Signal → Bool
ends_tor w sigterm = true
ends_tor w sigint = not w.server_mode
ends_tor w sighup = is_negative_int (do_hup w.hup).0
ends_tor w _ = false

abbrev pub exit_code : Signal → ℕ
exit_code sighup = 1
exit_code _ = 0

abbrev pub is_reported : Signal → Bool
is_reported sigusr1 = true
is_reported sigusr2 = true
is_reported sighup = true
is_reported sigcleardnscache = true
is_reported sigheartbeat = true
is_reported sigactive = true
is_reported sigdormant = true
is_reported _ = false

in_hup-exits : (hs : List HupCall) (cs : List SignalCall) → exits (map in_hup hs ++ cs) ≡ exits cs
unfolding exits
in_hup-exits [] cs = refl
in_hup-exits (h ∷ hs) cs = in_hup-exits hs cs

in_hup-reports :
    (hs : List HupCall) (cs : List SignalCall) → reports (map in_hup hs ++ cs) ≡ reports cs
unfolding reports
in_hup-reports [] cs = refl
in_hup-reports (h ∷ hs) cs = in_hup-reports hs cs

process_hup_lem :
    (w : World)
    → (exits (process_hup w) ≡ (if ends_tor w sighup then 1 ∷ [] else []))
      × (reports (process_hup w) ≡ (if ends_tor w sighup then [] else sighup ∷ []))
unfolding process_hup exits reports
process_hup_lem w = ground (
  arith,
  in_hup-exits (do_hup w.hup).1 (tor_shutdown_event_loop_and_exit 1 ∷ []),
  in_hup-reports (do_hup w.hup).1 (tor_shutdown_event_loop_and_exit 1 ∷ []),
  in_hup-exits (do_hup w.hup).1
      (when_ w.have_systemd sd_notify_ready ++ (control_event_signal sighup ∷ [])),
  in_hup-reports (do_hup w.hup).1
      (when_ w.have_systemd sd_notify_ready ++ (control_event_signal sighup ∷ [])),
)

-- Every signal either makes Tor exit, once, and then the controllers are not told; or it does not,
-- and they are told once, of this signal, if it is one that they are told of. Tor exits on SIGTERM,
-- on SIGINT when it is no server, and, with the code 1, on a SIGHUP whose reload fails.
pub process_signal_outcome :
    (w : World) (s : Signal)
    → (exits (process_signal w s) ≡ (if ends_tor w s then exit_code s ∷ [] else []))
      × (reports (process_signal w s)
          ≡ (if not (ends_tor w s) && is_reported s then s ∷ [] else []))
unfolding process_signal exits reports
process_signal_outcome w sighup = ground (arith, process_hup_lem w)
process_signal_outcome w s = ground arith

abbrev pub is_controllers_only : Signal → Bool
is_controllers_only signewnym = true
is_controllers_only sigcleardnscache = true
is_controllers_only sigheartbeat = true
is_controllers_only sigactive = true
is_controllers_only sigdormant = true
is_controllers_only _ = false

abbrev event_of : Bool → Bool → Signal → SignalEvent
event_of unix_only enabled s = record {
  from_system = if is_controllers_only s then enabled && false else enabled && unix_only;
  signal = s;
}

activated :
    (u b : Bool) (s : Signal)
    → activate_signal s (handle_signals b (signal_handlers u)) ≡ some (some (event_of u b s))
unfolding activate_signal handle_signals signal_handlers
activated u b sigint = refl
activated u b s = refl

event_of_lem :
    (u b : Bool) (s : Signal)
    → (event_of u b s).from_system ≡ (b && u && not (is_controllers_only s))
event_of_lem true true sigint = refl
event_of_lem u b s = ground arith

-- Once handle_signals has run, every signal of the table can be activated: its event runs
-- process_signal for this signal. The system delivers it only if signal handlers are enabled, on
-- Unix, and never one that is the controller's only.
pub activate_signal-handle_signals :
    (w : World) (unix_only enabled : Bool) (s : Signal)
    → (e : SignalEvent) × (activate_signal s (handle_signals enabled (signal_handlers unix_only))
        ≡ some (some e))
      × (signal_callback w e ≡ process_signal w s)
      × (e.from_system ≡ (enabled && unix_only && not (is_controllers_only s)))
unfolding signal_callback
activate_signal-handle_signals w u b s = (event_of u b s, activated u b s, refl, event_of_lem u b s)
