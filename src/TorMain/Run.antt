-- ===== src/TorMain/Run.antt =====
-- app/startup/main.c: tor_init, run_tor_main_loop and tor_run_main, from the start of the process to
-- its result.
pub mod Ended
use Prim.Native.String.{String}
use tor_onion.Common.{
  Bool, true, false, not, ◌&&◌, ◌||◌, Option, none, some, List, [], ◌∷◌, ◌++◌, if◌then◌else◌,
}
use tor_onion.Common.Int.{ℤ, pos, negsuc}
use tor_onion.TorMain.Hup.{when_, is_zero, is_negative_int}
use tor_onion.TorMain.Commands.{
  KeyAnswers, do_dump_config, do_list_fingerprint, do_keygen_family, do_keygen_onion_key,
}

pub data RunCall : Type 0 where
  tor_init_connection_lists rep_hist_init bwhist_init addressmap_init hs_init : RunCall
  options_init_from_torrc consensus_params circpad_machines_init hs_dos_init : RunCall
  predicted_ports_init routerparse_init : RunCall
  handle_signals timers_initialize initialize_mainloop_events init_keys : RunCall
  connection_bucket_init keypin_load_journal keypin_open_journal unlink_entries : RunCall
  trusted_dirs_reload_certs router_reload_consensus_networkstatus : RunCall
  router_reload_router_list directory_info_has_arrived cpuworker_init : RunCall
  consdiffmgr_enable_background_compression sr_init dns_init sd_notify do_main_loop : RunCall
  subsystems_init nt_service_parse_options pubsub_install pubsub_connect_events : RunCall
  sandbox_init_filter sandbox_init make_getaddrinfo_cache_active : RunCall
  nt_service_running run_command : RunCall
  tor_free_all tor_cleanup free_argv : RunCall

-- The result of options_init_from_torrc decides.
unfoldable pub tor_init : ℤ → ℤ × List RunCall
tor_init init_rv =
    let start =
      tor_init_connection_lists ∷ rep_hist_init ∷ bwhist_init ∷ addressmap_init ∷ hs_init
      ∷ options_init_from_torrc ∷ [] in
    if is_negative_int init_rv
    then (negsuc 0, start)
    else if not (is_zero init_rv)
    then (pos 1, start)
    else (
      pos 0,
      start
          ++ (consensus_params ∷ circpad_machines_init ∷ hs_dos_init ∷ predicted_ports_init
              ∷ routerparse_init ∷ []),
    )

-- What run_tor_main_loop meets; `ok` is that the call's result is not an error.
pub record LoopAnswers : Type 0 where
  pub have_systemd : Bool
  pub authdir_mode_v3 : Bool
  pub client_identity_key_is_set : Bool
  pub init_keys_ok : Bool
  pub journal_loaded : Bool
  pub journal_opened : Bool
  pub consensus_reloaded : Bool
  pub router_list_reloaded : Bool
  pub cpuworkers_ok : Bool
  pub shared_random_ok : Bool
  pub dns_ok : Bool
  pub main_loop : ℤ

-- `if (!ok) return -1;`
abbrev pub check_call : Bool → RunCall → ℤ × List RunCall → ℤ × List RunCall
check_call ok call rest = if ok then (rest.0, call ∷ rest.1) else (negsuc 0, call ∷ [])

abbrev pub then_calls : List RunCall → ℤ × List RunCall → ℤ × List RunCall
then_calls calls rest = (rest.0, calls ++ rest.1)

-- From trusted_dirs_reload_certs on. A dns_init that fails is logged, and the start goes on.
pub load_directory : LoopAnswers → ℤ × List RunCall
load_directory a = then_calls (trusted_dirs_reload_certs ∷ []) (
    check_call a.consensus_reloaded router_reload_consensus_networkstatus (
      check_call a.router_list_reloaded router_reload_router_list (
        then_calls (directory_info_has_arrived ∷ []) (
          check_call a.cpuworkers_ok cpuworker_init (
            then_calls (consdiffmgr_enable_background_compression ∷ []) (
              let last : ℤ × List RunCall =
                (a.main_loop, dns_init ∷ (when_ a.have_systemd sd_notify ++ (do_main_loop ∷ []))) in
              if a.authdir_mode_v3 then check_call a.shared_random_ok sr_init last else last))))))

-- Both steps of the key-pinning journal are tried before an error of either is returned.
pub load_journal : LoopAnswers → ℤ × List RunCall
unfolding load_directory
load_journal a =
    let rest = then_calls (unlink_entries ∷ []) (load_directory a) in
    if not a.authdir_mode_v3
    then rest
    else if not a.journal_loaded || not a.journal_opened
    then (negsuc 0, keypin_load_journal ∷ keypin_open_journal ∷ [])
    else then_calls (keypin_load_journal ∷ keypin_open_journal ∷ []) rest

pub run_tor_main_loop : LoopAnswers → ℤ × List RunCall
unfolding load_journal
run_tor_main_loop a =
    then_calls (handle_signals ∷ timers_initialize ∷ initialize_mainloop_events ∷ []) (
      let rest = then_calls (connection_bucket_init ∷ []) (load_journal a) in
      if not a.client_identity_key_is_set then check_call a.init_keys_ok init_keys rest else rest)

pub data Command : Type 0 where
  cmd_run_tor cmd_keygen cmd_keygen_family cmd_keygen_onion cmd_key_expiration : Command
  cmd_list_fingerprint cmd_hash_password cmd_verify_config cmd_dump_config : Command
  cmd_run_unittests cmd_immediate : Command

abbrev pub is_run_tor : Command → Bool
is_run_tor cmd_run_tor = true
is_run_tor _ = false

-- What tor_run_main meets: the result of nt_service_parse_options if it has done everything; the
-- result of options_init_from_torrc; the options; and the answers to the commands.
pub record MainAnswers : Type 0 where
  pub nt_service_result : Option ℤ
  pub init_rv : ℤ
  pub sandbox : Bool
  pub sandbox_init_ok : Bool
  pub command : Command
  pub command_arg : String
  pub loop : LoopAnswers
  pub load_ed_keys_failed : Bool
  pub has_command_arg : Bool
  pub key_made : Bool
  pub key_written : Bool
  pub log_cert_expiration : ℤ
  pub keys : KeyAnswers

-- The result of a command; `none` is an assertion that fails. A command that is not one is -1.
pub run_command_result : MainAnswers → Option (ℤ × List RunCall)
unfolding run_tor_main_loop
run_command_result a = elim a.command [
  | cmd_run_tor ↦ some (then_calls (nt_service_running ∷ []) (run_tor_main_loop a.loop))
  | cmd_keygen ↦ some (if a.load_ed_keys_failed then pos 1 else pos 0, run_command ∷ [])
  | cmd_keygen_family ↦
      some ((do_keygen_family a.has_command_arg a.key_made a.key_written).0, run_command ∷ [])
  | cmd_keygen_onion ↦
      some ((do_keygen_onion_key a.has_command_arg a.key_made a.key_written).0, run_command ∷ [])
  | cmd_key_expiration ↦ some (a.log_cert_expiration, init_keys ∷ run_command ∷ [])
  | cmd_list_fingerprint ↦ elim (do_list_fingerprint a.command_arg a.keys) [
    | none ↦ none
    | some (r, printed) ↦ some (r, run_command ∷ [])
  ]
  | cmd_hash_password ↦ some (pos 0, run_command ∷ [])
  | cmd_verify_config ↦ some (pos 0, run_command ∷ [])
  | cmd_dump_config ↦ some ((do_dump_config a.command_arg).0, run_command ∷ [])
  | cmd_run_unittests ↦ some (negsuc 0, [])
  | cmd_immediate ↦ some (negsuc 0, [])
]

abbrev pub finish_run : Option (ℤ × List RunCall) → List RunCall → Option (ℤ × List RunCall)
finish_run none before = none
finish_run (some (r, calls)) before = some (r, before ++ (calls ++ (tor_cleanup ∷ free_argv ∷ [])))

-- With a sandbox.
unfoldable pub run_sandboxed : MainAnswers → List RunCall → Option (ℤ × List RunCall)
unfolding run_command_result
run_sandboxed a before =
    if not a.sandbox_init_ok
    then some
        (negsuc 0, before ++ (sandbox_init_filter ∷ sandbox_init ∷ free_argv ∷ tor_free_all ∷ []))
    else finish_run (run_command_result a)
        (before ++ (sandbox_init_filter ∷ sandbox_init ∷ make_getaddrinfo_cache_active ∷ []))

-- From pubsub_connect on.
unfoldable pub run_initialized : MainAnswers → List RunCall → Option (ℤ × List RunCall)
unfolding run_command_result run_sandboxed
run_initialized a before =
    let before' = before ++ when_ (is_run_tor a.command) pubsub_connect_events in
    if a.sandbox && is_run_tor a.command
    then run_sandboxed a before'
    else finish_run (run_command_result a) before'

-- From pubsub_install on.
unfoldable pub run_from_pubsub : MainAnswers → Option (ℤ × List RunCall)
unfolding tor_init run_initialized
run_from_pubsub a =
    let (init_rv, init_calls) = tor_init a.init_rv in
    let before = subsystems_init ∷ nt_service_parse_options ∷ pubsub_install ∷ init_calls in
    if not (is_zero init_rv)
    then some (
      if is_negative_int init_rv then negsuc 0 else pos 0,
      before ++ (tor_free_all ∷ free_argv ∷ []),
    )
    else run_initialized a before

unfoldable pub tor_run_main : MainAnswers → Option (ℤ × List RunCall)
unfolding run_from_pubsub
tor_run_main a = elim a.nt_service_result [
  | some result ↦ some (result, subsystems_init ∷ nt_service_parse_options ∷ free_argv ∷ [])
  | none ↦ run_from_pubsub a
]
