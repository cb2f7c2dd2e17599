-- ===== src/AutoReloader/Tests.antt =====
-- Runs of NetErrorAutoReloader (muim/error_loader.cpp), and the theorems at concrete states.
use tor_onion.Common.{◌≡◌, refl, true, false, none, some, [], ◌∷◌, ◌==◌}
use tor_onion.AutoReloader.{
  NetErrors, Handle, Reloader, visible, get_next_reload_delay, fire, did_finish_navigation,
  did_start_navigation, construct,
}
use tor_onion.AutoReloader.Invariant.{
  Inv, IsFresh, starts, finishes, Reach, here, next, step, Reach-Inv,
}

abbrev errors : NetErrors
errors = record {
  ok = 0;
  unknown_url_scheme = 302;
  ssl_protocol_error = 107;
  invalid_auth_credentials = 338;
  http_response_code_failure = 379;
  blocked_by_local_network_access_checks = 384;
  network_access_revoked = 385;
  is_certificate_error = λ e. e == 200;
  is_client_certificate_error = λ e. e == 110;
  is_request_blocked_error = λ e. e == 20;
}

-- A committed page for error 106, ERR_INTERNET_DISCONNECTED.
abbrev error_page : Handle
error_page = record {
  id = 1;
  in_primary_main_frame = true;
  has_committed = true;
  is_error_page = true;
  net_error = 106;
  is_post = false;
  url = 4;
  is_http_or_https = true;
  is_secure_network_error = false;
  is_reload = false;
}

abbrev retry : Handle
retry = record error_page { id = 2; has_committed = false; is_reload = true }

abbrev fresh : Reloader
fresh = record {
  has_connection_tracker = false;
  is_online = true;
  visibility = visible;
  next_reload_timer = none;
  num_reloads_for_current_error = 0;
  is_auto_reload_in_progress = false;
  current_error_page = none;
  pending_navigations = [];
  reloads = 0;
}

fresh-IsFresh : IsFresh fresh
fresh-IsFresh = record {
  no_timer = refl;
  no_page = refl;
  no_navigation = refl;
  idle = refl;
  no_reload = refl;
}

-- The error page is shown and the first reload is scheduled.
abbrev failed : Reloader
failed = record fresh {
  has_connection_tracker = true;
  next_reload_timer = some (record { delay = 1; running = true });
  current_error_page = some (record { url = 4; error = 106 });
}

-- One reload has been made, and its navigation is under way.
abbrev retrying : Reloader
retrying = record failed {
  next_reload_timer = none;
  num_reloads_for_current_error = 1;
  is_auto_reload_in_progress = true;
  pending_navigations = (2, false) ∷ [];
  reloads = 1;
}

first_cycle :
    did_start_navigation
      (fire (
        did_finish_navigation errors
          (did_start_navigation (construct fresh (some true)) error_page)
          error_page))
      retry
    ≡ retrying
unfolding did_start_navigation fire did_finish_navigation construct get_next_reload_delay
first_cycle = refl

failed_history : Reach errors (construct fresh (some true)) failed
unfolding step did_start_navigation did_finish_navigation construct get_next_reload_delay
failed_history = next (finishes error_page) (next (starts error_page) here tt) tt

Reach-Inv_example : Inv failed
Reach-Inv_example = Reach-Inv errors (some true) fresh-IsFresh failed_history

abbrev good_page : Handle
good_page = record retry { has_committed = true; is_error_page = false; net_error = 0 }

abbrev failed_again : Handle
failed_again = record retry { has_committed = true }

abbrev failed_again_timer : Reloader
failed_again_timer = record failed {
  next_reload_timer = some (record { delay = get_next_reload_delay 0; running = true });
}
