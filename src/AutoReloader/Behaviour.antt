-- ===== src/AutoReloader/Behaviour.antt =====
-- What NetErrorAutoReloader (muim/error_loader.cpp) does at each event.
use tor_onion.Common.{
  ℕ, ◌+◌, ◌≡◌, refl, Bool, true, false, ◌&&◌, ◌==◌, Option, Option-cases, inl, inr, none, some,
  List, [], ◌∷◌, arith, is_some, u64, if◌then◌else◌,
}
use tor_onion.AutoReloader.{
  NetErrors, Handle, Timer, Reloader, cancel, is_visible, find, erase_navigation, assign,
  should_auto_reload, get_next_reload_delay, fire, did_finish_navigation, will_fail_request,
  on_connection_changed, on_visibility_changed, reset, is_new_error, ErrorPageInfo, hidden,
}
use tor_onion.AutoReloader.Invariant.{Inv}

-- When a running timer fires, neither guard of ReloadMainFrame stops it: the frame is reloaded once,
-- the count goes up by one, the reload is marked as in progress and the timer has stopped.
pub fire_reloads :
    (r : Reloader) (t : Timer)
    → Inv r
    → r.next_reload_timer ≡ some t
    → fire r ≡ record r {
      next_reload_timer = some (record t { running = false });
      num_reloads_for_current_error = u64 (r.num_reloads_for_current_error + 1);
      is_auto_reload_in_progress = true;
      reloads = r.reloads + 1;
    }
unfolding fire
fire_reloads r t v e = ground arith

-- The navigation is the only one under way.
abbrev pub IsOnly : Handle → Reloader → Type 0
IsOnly h r =
    (is_some (find h.id r.pending_navigations) ≡ true)
    × (erase_navigation h.id r.pending_navigations ≡ [])

erase_navigation-assign :
    (k : ℕ) (v : Bool) (m : List (ℕ × Bool))
    → (erase_navigation k (assign k v m) ≡ erase_navigation k m) × (find k (assign k v m) ≡ some v)
unfolding erase_navigation assign find
erase_navigation-assign k v [] = ground arith
erase_navigation-assign k v ((j, w) ∷ m) = ground (arith, erase_navigation-assign k v m)

-- A reload that fails with the error that is already shown is cancelled, so that the page stays, and
-- when the cancelled navigation then finishes uncommitted as the only one under way, the next
-- reload is scheduled at the delay of the present count, on a visible tab of an online machine.
pub duplicate_error_rescheduled :
    (ne : NetErrors) (r : Reloader) (h : Handle)
    → r.current_error_page ≡ some (record { url = h.url; error = h.net_error })
    → IsOnly h r
    → h.in_primary_main_frame ≡ true
    → h.has_committed ≡ false
    → r.is_online ≡ true
    → is_visible r.visibility ≡ true
    → ((will_fail_request r h).1 ≡ cancel)
      × (did_finish_navigation ne (will_fail_request r h).0 h ≡ record r {
        pending_navigations = [];
        is_auto_reload_in_progress = false;
        next_reload_timer = some (record {
          delay = get_next_reload_delay r.num_reloads_for_current_error;
          running = true;
        });
      })
unfolding will_fail_request did_finish_navigation
duplicate_error_rescheduled ne r h page only main failed online shown =
    ground (arith, erase_navigation-assign h.id true r.pending_navigations)

-- A committed navigation of the primary main frame that shows no error page to be reloaded ends the
-- cycle: no timer, no count, no page, and only the navigation itself leaves the map.
pub other_page_resets :
    (ne : NetErrors) (r : Reloader) (h : Handle)
    → h.in_primary_main_frame ≡ true
    → h.has_committed ≡ true
    → should_auto_reload ne h ≡ false
    → did_finish_navigation ne r h
      ≡ reset (record r { pending_navigations = erase_navigation h.id r.pending_navigations })
unfolding did_finish_navigation
other_page_resets ne r h main done other = ground arith

-- The error that was shown already, met again by a reload.
abbrev pub goes_on : Handle → Option ErrorPageInfo → Bool
goes_on h none = false
goes_on h (some shown) = h.is_reload && (h.net_error == shown.error)

-- A committed page with an error that may be reloaded, the only navigation under way on a visible
-- tab of an online machine, schedules a reload: the error that was shown already, met again by a
-- reload, keeps its page and goes on with its count; any other is noted and starts at the first delay.
pub error_page_schedules :
    (ne : NetErrors) (r : Reloader) (h : Handle)
    → h.in_primary_main_frame ≡ true
    → h.has_committed ≡ true
    → should_auto_reload ne h ≡ true
    → IsOnly h r
    → r.is_online ≡ true
    → is_visible r.visibility ≡ true
    → let same = goes_on h r.current_error_page in
      let count = (if same then r.num_reloads_for_current_error else 0) in
      did_finish_navigation ne r h ≡ record r {
        pending_navigations = [];
        num_reloads_for_current_error = count;
        is_auto_reload_in_progress = if same then r.is_auto_reload_in_progress else false;
        current_error_page =
            if same
            then r.current_error_page
            else some (record { url = h.url; error = h.net_error });
        next_reload_timer = some (record { delay = get_next_reload_delay count; running = true });
      }
unfolding did_finish_navigation is_new_error
error_page_schedules ne r h main done err only online shown =
    elim (Option-cases r.current_error_page) [
      | inl e ↦ rw (e, did_finish_navigation) (ground arith)
      | inr (p, e) ↦ ground arith
    ]

-- Losing the connection, or hiding the tab, stops the timer; when it comes back while an error page
-- is shown and no navigation is under way, the reload is scheduled again with the same count.
pub interruption_resumes :
    (r : Reloader)
    → is_some r.current_error_page ≡ true
    → r.pending_navigations ≡ []
    → r.is_online ≡ true
    → is_visible r.visibility ≡ true
    → let again : Reloader = record r {
      next_reload_timer = some (record {
        delay = get_next_reload_delay r.num_reloads_for_current_error;
        running = true;
      });
    } in
      ((on_connection_changed r false).next_reload_timer ≡ none)
      × (on_connection_changed (on_connection_changed r false) true ≡ again)
      × ((on_visibility_changed r hidden).next_reload_timer ≡ none)
      × (on_visibility_changed (on_visibility_changed r hidden) r.visibility ≡ again)
unfolding on_connection_changed on_visibility_changed
interruption_resumes r page quiet online shown = (refl, ground arith, refl, ground arith)
