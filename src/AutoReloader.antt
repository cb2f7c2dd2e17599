-- ===== src/AutoReloader.antt =====
-- muim/error_loader.cpp: NetErrorAutoReloader, which reloads a tab that shows a network error page,
-- again and again with growing delays, while the tab is visible and the machine is online.
-- The web contents' visibility is part of the state; `reloads` counts the calls of Reload() on the
-- main frame. DCHECKs change nothing in a release build; `Admissible` states what they say of the
-- caller.
pub mod Delay
pub mod Invariant
pub mod Behaviour
mod Tests
use tor_onion.Common.{
  ℕ, ◌+◌, ◌-◌, ◌≡◌, ◌≢◌, Bool, true, false, not, ◌&&◌, ◌||◌, Option, none, some, List, [], ◌∷◌, min,
  length, get_or, ◌==◌, if◌then◌else◌, u64, is_empty, is_some,
}

-- net/base/net_errors.h: the codes (by their magnitude, 0 for OK) and the classes of codes.
pub record NetErrors : Type 0 where
  pub ok : ℕ
  pub unknown_url_scheme : ℕ
  pub ssl_protocol_error : ℕ
  pub invalid_auth_credentials : ℕ
  pub http_response_code_failure : ℕ
  pub blocked_by_local_network_access_checks : ℕ
  pub network_access_revoked : ℕ
  pub is_certificate_error : ℕ → Bool
  pub is_client_certificate_error : ℕ → Bool
  pub is_request_blocked_error : ℕ → Bool

-- What a NavigationHandle answers at one event.
pub record Handle : Type 0 where
  pub id : ℕ
  pub in_primary_main_frame : Bool
  pub has_committed : Bool
  pub is_error_page : Bool
  pub net_error : ℕ
  pub is_post : Bool
  pub url : ℕ
  pub is_http_or_https : Bool
  pub is_secure_network_error : Bool
  -- GetReloadType() is not NONE.
  pub is_reload : Bool

pub should_auto_reload : NetErrors → Handle → Bool
should_auto_reload ne h =
    h.is_error_page
    && (not (h.net_error == ne.ok)
        && (not h.is_post
            && (not (h.net_error == ne.unknown_url_scheme)
                && (not (ne.is_certificate_error h.net_error)
                    && (not (ne.is_client_certificate_error h.net_error)
                        && (not (h.net_error == ne.ssl_protocol_error)
                            && (not (ne.is_request_blocked_error h.net_error)
                                && (not (h.net_error == ne.invalid_auth_credentials)
                                    && (h.is_http_or_https
                                        && (not h.is_secure_network_error
                                            && (not (h.net_error == ne.http_response_code_failure)
                                                && (not (
                                                      h.net_error
                                                      == ne.blocked_by_local_network_access_checks)
                                                    && not (
                                                        h.net_error
                                                        == ne.network_access_revoked)))))))))))))

-- `kDelays`, in seconds.
abbrev k_delays : List ℕ
k_delays = 1 ∷ 5 ∷ 30 ∷ 60 ∷ 300 ∷ 600 ∷ 1800 ∷ []

-- The index stays inside the array, so the default of `get_or` is never read.
pub get_next_reload_delay : ℕ → ℕ
get_next_reload_delay reload_count = get_or k_delays (min reload_count (length k_delays - 1)) 0

pub data Visibility : Type 0 where
  hidden occluded visible : Visibility

pub record ErrorPageInfo : Type 0 where
  pub url : ℕ
  pub error : ℕ

-- A one-shot timer; once it has fired the object stays, stopped.
pub record Timer : Type 0 where
  pub delay : ℕ
  pub running : Bool

pub record Reloader : Type 0 where
  pub has_connection_tracker : Bool
  pub is_online : Bool
  pub visibility : Visibility
  pub next_reload_timer : Option Timer
  pub num_reloads_for_current_error : ℕ
  pub is_auto_reload_in_progress : Bool
  pub current_error_page : Option ErrorPageInfo
  -- From a navigation to whether its error page is suppressed.
  pub pending_navigations : List (ℕ × Bool)
  pub reloads : ℕ

abbrev is_visible : Visibility → Bool
is_visible hidden = false
is_visible _ = true

-- The map from navigations: `find`, `emplace`, `erase` and assignment through `[]`.
pub find : ℕ → List (ℕ × Bool) → Option Bool
find k [] = none
find k ((j, v) ∷ m) = if j == k then some v else find k m

pub emplace : ℕ → Bool → List (ℕ × Bool) → List (ℕ × Bool)
unfolding find
emplace k v m = if is_some (find k m) then m else (k, v) ∷ m

pub erase_navigation : ℕ → List (ℕ × Bool) → List (ℕ × Bool)
erase_navigation k [] = []
erase_navigation k ((j, v) ∷ m) =
    let rest = erase_navigation k m in if j == k then rest else (j, v) ∷ rest

pub assign : ℕ → Bool → List (ℕ × Bool) → List (ℕ × Bool)
assign k v [] = (k, v) ∷ []
assign k v ((j, w) ∷ m) = if j == k then (j, v) ∷ m else (j, w) ∷ assign k v m

pub reset : Reloader → Reloader
reset r = record r {
  next_reload_timer = none;
  num_reloads_for_current_error = 0;
  is_auto_reload_in_progress = false;
  current_error_page = none;
}

pub pause_auto_reload_timer : Reloader → Reloader
pause_auto_reload_timer r = record r { next_reload_timer = none }

pub schedule_next_auto_reload : Reloader → Reloader
schedule_next_auto_reload r =
    if not r.is_online || not (is_visible r.visibility) then r else record r {
      next_reload_timer = some (record {
        delay = get_next_reload_delay r.num_reloads_for_current_error;
        running = true;
      });
    }

pub resume_auto_reload : Reloader → Reloader
unfolding schedule_next_auto_reload
resume_auto_reload r =
    if is_some r.current_error_page && not (is_some r.next_reload_timer)
    then schedule_next_auto_reload r
    else r

pub reload_main_frame : Reloader → Reloader
reload_main_frame r = if not r.is_online || not (is_visible r.visibility) then r else record r {
  num_reloads_for_current_error = u64 (r.num_reloads_for_current_error + 1);
  is_auto_reload_in_progress = true;
  reloads = r.reloads + 1;
}

-- The timer runs out: it stops and calls ReloadMainFrame.
pub fire : Reloader → Reloader
unfolding reload_main_frame
fire r = elim r.next_reload_timer [
  | none ↦ r
  | some t ↦
      reload_main_frame (record r { next_reload_timer = some (record t { running = false }) })
]

pub did_start_navigation : Reloader → Handle → Reloader
unfolding pause_auto_reload_timer emplace
did_start_navigation r h =
    if not h.in_primary_main_frame then r else record (pause_auto_reload_timer r) {
      pending_navigations = emplace h.id false r.pending_navigations;
    }

abbrev is_some_true : Option Bool → Bool
is_some_true (some true) = true
is_some_true _ = false

-- The part of DidFinishNavigation for a navigation that did not commit.
pub finish_uncommitted : Reloader → Bool → Reloader
unfolding schedule_next_auto_reload
finish_uncommitted r suppressed =
    if not (is_empty r.pending_navigations) || not (is_some r.current_error_page)
    then r
    else let r' : Reloader = record r { is_auto_reload_in_progress = false } in
      if suppressed then schedule_next_auto_reload r' else r'

-- The error page that is shown differs from the one known, or was not reached by a reload.
pub is_new_error : Handle → Option ErrorPageInfo → Bool
is_new_error h none = true
is_new_error h (some info) = not h.is_reload || not (h.net_error == info.error)

pub note_error : Reloader → Handle → Reloader
unfolding reset is_new_error
note_error r h =
    if is_new_error h r.current_error_page
    then record (reset r) {
      current_error_page = some (record { url = h.url; error = h.net_error });
    }
    else r

-- The part for one that did.
pub finish_committed : NetErrors → Reloader → Handle → Reloader
unfolding should_auto_reload reset note_error schedule_next_auto_reload
finish_committed ne r h =
    if not (should_auto_reload ne h)
    then reset r
    else let r' : Reloader = note_error r h in
      if is_empty r'.pending_navigations then schedule_next_auto_reload r' else r'

pub did_finish_navigation : NetErrors → Reloader → Handle → Reloader
unfolding find erase_navigation finish_uncommitted finish_committed
did_finish_navigation ne r h =
    if not h.in_primary_main_frame
    then r
    else let suppressed : Bool = is_some_true (find h.id r.pending_navigations) in
      let r' : Reloader = record r {
        pending_navigations = erase_navigation h.id r.pending_navigations;
      } in
      if not h.has_committed then finish_uncommitted r' suppressed else finish_committed ne r' h

pub navigation_stopped : Reloader → Reloader
unfolding reset
navigation_stopped r = reset r

-- The common tail of the two observers.
pub pause_or_resume : Reloader → Bool → Reloader
unfolding pause_auto_reload_timer resume_auto_reload
pause_or_resume r active =
    if not active
    then pause_auto_reload_timer r
    else if is_empty r.pending_navigations
    then resume_auto_reload r
    else r

pub on_visibility_changed : Reloader → Visibility → Reloader
unfolding pause_or_resume
on_visibility_changed r v = pause_or_resume (record r { visibility = v }) (is_visible v)

-- `connected` is that the type is not CONNECTION_NONE.
pub on_connection_changed : Reloader → Bool → Reloader
unfolding pause_or_resume
on_connection_changed r connected = pause_or_resume (record r { is_online = connected }) connected

pub set_initial_connection_type : Reloader → Bool → Reloader
unfolding on_connection_changed
set_initial_connection_type r connected =
    if r.has_connection_tracker then on_connection_changed r connected else r

-- The constructor: `r` holds the defaults of the class declaration, `known` the connection if the
-- tracker has it at once.
pub construct : Reloader → Option Bool → Reloader
unfolding set_initial_connection_type
construct r known = elim known [
  | none ↦ record r { has_connection_tracker = true }
  | some c ↦ set_initial_connection_type (record r { has_connection_tracker = true }) c
]

pub disable_connection_change_observation : Reloader → Reloader
disable_connection_change_observation r = record r { has_connection_tracker = false }

abbrev is_page : Option ErrorPageInfo → ℕ → Bool
is_page none url = false
is_page (some info) url = info.url == url

-- MaybeCreateAndAddNavigationThrottle: whether the navigation gets a throttle.
pub maybe_create_and_add : Reloader → Handle → Bool
maybe_create_and_add r h =
    h.in_primary_main_frame && (is_page r.current_error_page h.url && r.is_auto_reload_in_progress)

abbrev is_same_error : Option ErrorPageInfo → Handle → Bool
is_same_error none h = false
is_same_error (some info) h = (info.url == h.url) && (info.error == h.net_error)

pub should_suppress_error_page : Reloader → Handle → Reloader × Bool
unfolding assign
should_suppress_error_page r h =
    if is_same_error r.current_error_page h
    then (record r { pending_navigations = assign h.id true r.pending_navigations }, true)
    else (r, false)

pub data ThrottleAction : Type 0 where
  cancel proceed : ThrottleAction

pub will_fail_request : Reloader → Handle → Reloader × ThrottleAction
unfolding should_suppress_error_page
will_fail_request r h =
    let (r', suppress) = should_suppress_error_page r h in
    (r', if suppress then cancel else proceed)
