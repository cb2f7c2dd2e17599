-- ===== src/TorMain/Hup.antt =====
-- do_hup of app/startup/main.c: what is done on a reload signal.
use tor_onion.Common.{zero, Bool, true, false, not, ◌&&◌, List, [], ◌∷◌, ◌++◌, if◌then◌else◌}
use tor_onion.Common.Int.{ℤ, pos, negsuc}

pub record Options : Type 0 where
  pub accounting : Bool
  pub reload_torrc_on_sighup : Bool
  pub truncate_log_file : Bool
  pub authdir_mode : Bool
  pub manual_onion_key_rotation : Bool
  pub server_mode : Bool

pub data HupCall : Type 0 where
  accounting_record_bandwidth_usage router_reset_warnings routerlist_reset_warnings : HupCall
  options_init_from_torrc truncate_logs set_options dirserv_load_fingerprint_file : HupCall
  router_reload_manual_onion_keys circuit_mark_all_dirty_circs_as_unusable : HupCall
  router_reset_status_download_failures router_reset_descriptor_download_failures : HupCall
  update_networkstatus_downloads load_ed_keys : HupCall
  generate_ed_link_cert : Bool → HupCall
  load_family_id_keys cpuworkers_rotate_keyinfo dns_reset : HupCall

-- The options before and after options_init_from_torrc, with its result; whether the network is
-- disabled; the result of load_ed_keys.
pub record HupAnswers : Type 0 where
  pub options : Options
  pub reloaded_options : Options
  pub init_rv : ℤ
  pub net_is_disabled : Bool
  pub new_signing_key : ℤ

abbrev pub when_ {ℓ} : {A : Type ℓ} → Bool → A → List A
when_ b x = if b then x ∷ [] else []

abbrev pub is_zero : ℤ → Bool
is_zero (pos zero) = true
is_zero _ = false

abbrev pub is_negative_int : ℤ → Bool
is_negative_int (pos n) = false
is_negative_int (negsuc n) = true

unfoldable pub hup_server : ℤ → List HupCall
hup_server key =
    load_ed_keys
    ∷ (when_ (not (is_negative_int key))
          (generate_ed_link_cert (not (is_negative_int key) && not (is_zero key)))
        ++ (load_family_id_keys ∷ cpuworkers_rotate_keyinfo ∷ dns_reset ∷ []))

-- From the fingerprint file on.
unfoldable pub hup_rest : HupAnswers → Options → List HupCall
unfolding hup_server
hup_rest w options =
    when_ options.authdir_mode dirserv_load_fingerprint_file
    ++ (when_ options.manual_onion_key_rotation router_reload_manual_onion_keys
        ++ (circuit_mark_all_dirty_circs_as_unusable
            ∷ router_reset_status_download_failures
            ∷ router_reset_descriptor_download_failures
            ∷ (when_ (not w.net_is_disabled) update_networkstatus_downloads
                ++ (if options.server_mode then hup_server w.new_signing_key else []))))

unfoldable pub hup_start : HupAnswers → List HupCall
hup_start w =
    when_ w.options.accounting accounting_record_bandwidth_usage
    ++ (router_reset_warnings ∷ routerlist_reset_warnings ∷ [])

-- The result, and the calls.
unfoldable pub do_hup : HupAnswers → ℤ × List HupCall
unfolding hup_start hup_rest
do_hup w =
    if w.options.reload_torrc_on_sighup
    then if not (is_zero w.init_rv)
      then (negsuc 0, hup_start w ++ (options_init_from_torrc ∷ []))
      else (
        pos 0,
        hup_start w
            ++ (options_init_from_torrc
                ∷ (when_ w.reloaded_options.truncate_log_file truncate_logs
                    ++ hup_rest w w.reloaded_options)),
      )
    else (pos 0, hup_start w ++ (set_options ∷ hup_rest w w.options))
