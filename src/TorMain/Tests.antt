-- ===== src/TorMain/Tests.antt =====
-- Runs of app/startup/main.c's functions, and instances of what is shown of them.
use tor_onion.Common.{
  ◌+◌, ◌≡◌, refl, true, false, not, ◌&&◌, Option, none, some, List, [], ◌∷◌, if◌then◌else◌, is_some,
}
use tor_onion.Common.Int.{ℤ, pos, negsuc}
use tor_onion.TorMain.Hup.{Options, do_hup}
use tor_onion.TorMain.Signals.{
  sighup, sigusr1, World, process_signal, SignalEvent, signal_handlers, handle_signals,
  activate_signal, signal_callback,
}
use tor_onion.TorMain.Signals.Handled.{
  exits, reports, ends_tor, exit_code, is_reported, process_signal_outcome, is_controllers_only,
  activate_signal-handle_signals,
}
use tor_onion.TorMain.Lockfile.{locked, refused, Lockfile, try_locking, have_lockfile, says_already}
use tor_onion.TorMain.Lockfile.Held.{given, try_locking_lem}
use tor_onion.TorMain.Commands.{do_dump_config, options_dump_minimal}
use tor_onion.TorMain.Run.{
  RunCall, LoopAnswers, run_tor_main_loop, MainAnswers, cmd_run_tor, tor_run_main, tor_init,
  run_initialized, run_sandboxed, run_from_pubsub,
}
use tor_onion.TorMain.Run.Ended.{
  frees, cleanups, main_loops, can_start, run_tor_main_loop_lem, tor_run_main_ended,
}

abbrev relay : Options
relay = record {
  accounting = false;
  reload_torrc_on_sighup = true;
  truncate_log_file = true;
  authdir_mode = false;
  manual_onion_key_rotation = false;
  server_mode = true;
}

-- A reload that fails.
abbrev bad_config : World
bad_config = record {
  have_systemd = true;
  server_mode = true;
  hup = record {
    options = relay;
    reloaded_options = relay;
    init_rv = negsuc 0;
    net_is_disabled = false;
    new_signing_key = pos 1;
  };
}

process_signal_outcome_example :
    (exits (process_signal bad_config sighup)
      ≡ (if ends_tor bad_config sighup then exit_code sighup ∷ [] else []))
    × (reports (process_signal bad_config sighup)
        ≡ (if not (ends_tor bad_config sighup) && is_reported sighup then sighup ∷ [] else []))
process_signal_outcome_example = process_signal_outcome bad_config sighup

failed_reload_exits : exits (process_signal bad_config sighup) ≡ 1 ∷ []
unfolding process_signal exits do_hup
failed_reload_exits = refl

activate_signal-handle_signals_example :
    (e : SignalEvent) × (activate_signal sigusr1 (handle_signals true (signal_handlers true))
      ≡ some (some e))
    × (signal_callback bad_config e ≡ process_signal bad_config sigusr1)
    × (e.from_system ≡ (true && true && not (is_controllers_only sigusr1)))
activate_signal-handle_signals_example = activate_signal-handle_signals bad_config true true sigusr1

abbrev no_lock : Lockfile
no_lock = record { lockfile = none; asked = 0; slept = 0; unlocked = [] }

-- Another process holds the lock, and has gone after five seconds.
try_locking_lem_example :
    let again = true && says_already (refused true) in
    let (r, s') = try_locking true (refused true) (locked 8) no_lock in
    (r ≡ (if have_lockfile s' then pos 0 else negsuc 0))
    × (s'.lockfile ≡ given (if again then locked 8 else refused true))
    × (s'.asked ≡ no_lock.asked + (if again then 2 else 1))
    × (s'.slept ≡ no_lock.slept + (if again then 5 else 0))
    × (s'.unlocked ≡ no_lock.unlocked)
try_locking_lem_example = try_locking_lem true (refused true) (locked 8) no_lock refl

-- A client whose name servers do not answer.
abbrev no_dns : LoopAnswers
no_dns = record {
  have_systemd = false;
  authdir_mode_v3 = false;
  client_identity_key_is_set = false;
  init_keys_ok = true;
  journal_loaded = false;
  journal_opened = false;
  consensus_reloaded = true;
  router_list_reloaded = true;
  cpuworkers_ok = true;
  shared_random_ok = false;
  dns_ok = false;
  main_loop = pos 0;
}

run_tor_main_loop_lem_example :
    ((run_tor_main_loop no_dns).0 ≡ (if can_start no_dns then no_dns.main_loop else negsuc 0))
    × (main_loops (run_tor_main_loop no_dns).1 ≡ (if can_start no_dns then 1 else 0))
    × (frees (run_tor_main_loop no_dns).1 ≡ 0)
    × (cleanups (run_tor_main_loop no_dns).1 ≡ 0)
run_tor_main_loop_lem_example = run_tor_main_loop_lem no_dns

-- A sandbox that cannot be set up.
abbrev bad_sandbox : MainAnswers
bad_sandbox = record {
  nt_service_result = none;
  init_rv = pos 0;
  sandbox = true;
  sandbox_init_ok = false;
  command = cmd_run_tor;
  command_arg = "";
  loop = no_dns;
  load_ed_keys_failed = false;
  has_command_arg = false;
  key_made = false;
  key_written = false;
  log_cert_expiration = pos 0;
  keys = record {
    server_mode = false;
    nickname = false;
    init_keys_ok = false;
    has_server_identity_key = false;
    fingerprint_ok = false;
    has_master_identity_key = false;
  };
}

abbrev calls_of : Option (ℤ × List RunCall) → List RunCall
calls_of none = []
calls_of (some (r, cs)) = cs

tor_run_main_ended_example :
    (frees (calls_of (tor_run_main bad_sandbox)) ≡ 1)
    × (cleanups (calls_of (tor_run_main bad_sandbox))
        ≡ (if is_some bad_sandbox.nt_service_result then 0 else 1))
tor_run_main_ended_example =
    tor_run_main_ended bad_sandbox (negsuc 0) (calls_of (tor_run_main bad_sandbox))
      (unfold tor_run_main tor_init run_initialized run_sandboxed run_from_pubsub in refl)

dumps_short : do_dump_config "short" ≡ (pos 0, some options_dump_minimal)
unfolding do_dump_config
dumps_short = refl
