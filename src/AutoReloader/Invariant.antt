-- ===== src/AutoReloader/Invariant.antt =====
-- What holds of NetErrorAutoReloader (muim/error_loader.cpp) between two events.
use tor_onion.Common.{
  refl, inl, inr, List, ◌∷◌, Bool-cases, ℕ, ◌≡◌, Bool, true, false, Option, none, some, [], arith,
  is_empty, is_some, not, ◌||◌, ◌==◌,
}
use tor_onion.AutoReloader.{
  erase_navigation, reset, schedule_next_auto_reload, note_error, is_new_error, finish_uncommitted,
  finish_committed, should_auto_reload, NetErrors, Handle, Visibility, Timer, Reloader, is_visible,
  find, get_next_reload_delay, construct, fire, did_start_navigation, did_finish_navigation,
  navigation_stopped, on_visibility_changed, on_connection_changed,
  disable_connection_change_observation, should_suppress_error_page,
}

pub data Event : Type 0 where
  starts finishes fails : Handle → Event
  stops fires disables : Event
  shows : Visibility → Event
  connects : Bool → Event

-- The throttle runs only for a navigation that has started and not finished, and the tracker
-- reports only to an observer.
abbrev pub Admissible : Event → Reloader → Type 0
Admissible (fails h) r = is_some (find h.id r.pending_navigations) ≡ true
Admissible (connects c) r = r.has_connection_tracker ≡ true
Admissible _ r = Unit

module _ (ne : NetErrors) where
  unfoldable pub step : Event → Reloader → Reloader
  step (starts h) r = did_start_navigation r h
  step (finishes h) r = did_finish_navigation ne r h
  step (fails h) r = (should_suppress_error_page r h).0
  step stops r = navigation_stopped r
  step fires r = fire r
  step disables r = disable_connection_change_observation r
  step (shows v) r = on_visibility_changed r v
  step (connects c) r = on_connection_changed r c

-- A timer that runs has the delay `d`.
abbrev pub is_due : Option Timer → ℕ → Bool
is_due none d = true
is_due (some t) d = not t.running || (t.delay == d)

-- A timer is set only for a known error page, online, on a visible tab, with no navigation under
-- way; while it runs its delay is the one for the number of reloads so far.
pub record Inv (r : Reloader) : Type 0 where
  pub timer_page : is_some r.next_reload_timer ≡ true → is_some r.current_error_page ≡ true
  pub timer_online : is_some r.next_reload_timer ≡ true → r.is_online ≡ true
  pub timer_visible : is_some r.next_reload_timer ≡ true → is_visible r.visibility ≡ true
  pub timer_quiet : is_some r.next_reload_timer ≡ true → is_empty r.pending_navigations ≡ true
  pub progress_page : r.is_auto_reload_in_progress ≡ true → is_some r.current_error_page ≡ true
  pub count_page : is_some r.current_error_page ≡ false → r.num_reloads_for_current_error ≡ 0
  pub timer_delay :
      is_due r.next_reload_timer (get_next_reload_delay r.num_reloads_for_current_error) ≡ true

start-Inv : (r : Reloader) (h : Handle) → Inv r → Inv (did_start_navigation r h)
unfolding did_start_navigation
start-Inv r h v = ground arith

is_empty-erase_navigation :
    (k : ℕ) (m : List (ℕ × Bool)) → is_empty m ≡ true → is_empty (erase_navigation k m) ≡ true
unfolding erase_navigation
is_empty-erase_navigation k [] e = refl
is_empty-erase_navigation k (x ∷ m) e = cc

erased-Inv :
    (r : Reloader) (k : ℕ)
    → Inv r
    → Inv (record r { pending_navigations = erase_navigation k r.pending_navigations })
erased-Inv r k v = record {
  timer_page = v.timer_page;
  timer_online = v.timer_online;
  timer_visible = v.timer_visible;
  timer_quiet = λ e. is_empty-erase_navigation k r.pending_navigations (v.timer_quiet e);
  progress_page = v.progress_page;
  count_page = v.count_page;
  timer_delay = v.timer_delay;
}

reset-Inv : (r : Reloader) → Inv (reset r)
unfolding reset
reset-Inv r = ground arith

schedule-Inv :
    (r : Reloader)
    → is_some r.current_error_page ≡ true
    → is_empty r.pending_navigations ≡ true
    → Inv r
    → Inv (schedule_next_auto_reload r)
unfolding schedule_next_auto_reload
schedule-Inv r page quiet v = ground arith

idle-Inv : (r : Reloader) → Inv r → Inv (record r { is_auto_reload_in_progress = false })
idle-Inv r v = ground arith

note_error-Inv : (r : Reloader) (h : Handle) → Inv r → Inv (note_error r h)
unfolding note_error reset
note_error-Inv r h v = ground arith

note_error-page : (r : Reloader) (h : Handle) → is_some (note_error r h).current_error_page ≡ true
unfolding note_error is_new_error
note_error-page r h = ground arith

finish_uncommitted-Inv :
    (r : Reloader) (suppressed : Bool) → Inv r → Inv (finish_uncommitted r suppressed)
unfolding finish_uncommitted
finish_uncommitted-Inv r suppressed v =
    elim (Bool-cases (not (is_empty r.pending_navigations) || not (is_some r.current_error_page))) [
      | inl busy ↦ rw (busy, finish_uncommitted) v
      | inr free ↦
          let r' : Reloader = record r { is_auto_reload_in_progress = false } in
          let v' : Inv r' = idle-Inv r v in
          elim (Bool-cases suppressed) [
            | inl held ↦
                rw (free, finish_uncommitted)
                  (rw (held, finish_uncommitted) (schedule-Inv r' (ground arith) (ground arith) v'))
            | inr free_page ↦ rw (free, finish_uncommitted) (rw (free_page, finish_uncommitted) v')
          ]
    ]

finish_committed-Inv :
    (ne : NetErrors) (r : Reloader) (h : Handle) → Inv r → Inv (finish_committed ne r h)
unfolding finish_committed
finish_committed-Inv ne r h v = elim (Bool-cases (should_auto_reload ne h)) [
  | inr other ↦ rw (other, finish_committed) (reset-Inv r)
  | inl error ↦
      let v' = note_error-Inv r h v in
      elim (Bool-cases (is_empty (note_error r h).pending_navigations)) [
        | inl quiet ↦
            rw (error, finish_committed)
              (rw (quiet, finish_committed)
                (schedule-Inv (note_error r h) (note_error-page r h) quiet v'))
        | inr busy ↦ rw (error, finish_committed) (rw (busy, finish_committed) v')
      ]
]

finish-Inv :
    (ne : NetErrors) (r : Reloader) (h : Handle) → Inv r → Inv (did_finish_navigation ne r h)
unfolding did_finish_navigation
finish-Inv ne r h v =
    let v' = erased-Inv r h.id v in
    elim (Bool-cases h.in_primary_main_frame) [
      | inr sub ↦ rw (sub, did_finish_navigation) v
      | inl main ↦ elim (Bool-cases h.has_committed) [
        | inl done ↦
            rw (main, did_finish_navigation)
              (rw (done, did_finish_navigation) (finish_committed-Inv ne _ h v'))
        | inr failed ↦
            rw (main, did_finish_navigation)
              (rw (failed, did_finish_navigation) (finish_uncommitted-Inv _ _ v'))
      ]
    ]

suppress-Inv :
    (r : Reloader) (h : Handle)
    → is_some (find h.id r.pending_navigations) ≡ true
    → Inv r
    → Inv (should_suppress_error_page r h).0
unfolding should_suppress_error_page find
suppress-Inv r h a v = ground arith

fire-Inv : (r : Reloader) → Inv r → Inv (fire r)
unfolding fire
fire-Inv r v = ground arith

visibility-Inv : (r : Reloader) (w : Visibility) → Inv r → Inv (on_visibility_changed r w)
unfolding on_visibility_changed
visibility-Inv r w v = ground arith

connection-Inv : (r : Reloader) (c : Bool) → Inv r → Inv (on_connection_changed r c)
unfolding on_connection_changed
connection-Inv r c v = ground arith

-- The class declaration's defaults.
pub record IsFresh (r : Reloader) : Type 0 where
  pub no_timer : r.next_reload_timer ≡ none
  pub no_page : r.current_error_page ≡ none
  pub no_navigation : r.pending_navigations ≡ []
  pub idle : r.is_auto_reload_in_progress ≡ false
  pub no_reload : r.num_reloads_for_current_error ≡ 0

pub construct-Inv : (r : Reloader) (known : Option Bool) → IsFresh r → Inv (construct r known)
unfolding construct
construct-Inv r known v = ground arith

module _ (ne : NetErrors) where
  -- Every event keeps the invariant.
  pub step-Inv : (e : Event) (r : Reloader) → Admissible e r → Inv r → Inv (step ne e r)
  unfolding step navigation_stopped disable_connection_change_observation
  step-Inv (starts h) r a v = start-Inv r h v
  step-Inv (finishes h) r a v = finish-Inv ne r h v
  step-Inv (fails h) r a v = suppress-Inv r h a v
  step-Inv stops r a v = ground arith
  step-Inv fires r a v = fire-Inv r v
  step-Inv disables r a v = ground arith
  step-Inv (shows w) r a v = visibility-Inv r w v
  step-Inv (connects c) r a v = connection-Inv r c v

  pub data Reach (r : Reloader) : Reloader → Type 0 where
    here : Reach r r
    next : {s : Reloader} (e : Event) → Reach r s → Admissible e s → Reach r (step ne e s)

  Reach-keep : {r s : Reloader} → Reach r s → Inv r → Inv s
  Reach-keep here v = v
  Reach-keep (next {s = m} e w a) v = step-Inv e m a (Reach-keep w v)

  -- From construction on, whatever happens: a reload timer is set only while an error page that may
  -- be reloaded is shown, the machine is online, the tab is visible and no navigation is under way,
  -- and it runs for the delay that belongs to the number of reloads so far.
  pub Reach-Inv :
      {r s : Reloader} (known : Option Bool) → IsFresh r → Reach (construct r known) s → Inv s
  Reach-Inv {r} known fresh w = Reach-keep w (construct-Inv r known fresh)
