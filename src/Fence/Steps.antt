-- ===== src/Fence/Steps.antt =====
-- The operations of VulkanFenceHelper (app/graphics/vv_helper.cpp) as the steps of a history, and
-- the four ways in which they change the helper.
use tor_onion.Common.{
  ℕ, ◌+◌, ◌^◌, ◌<◌, ◌≡◌, refl, Bool, true, false, Option, none, some, List, [], ◌∷◌, ◌++◌, inl, inr,
  Option-cases, Bool-cases, ◌>>=◌, >>=-eq-some, some_of, is_empty, ◌&&◌, ltb, ◌==◌, ◌⊎◌, subst, ap,
  sym, leb, ◌∙◌, if◌then◌else◌, ltb→lt,
}
use tor_onion.Fence.{
  VkResult, Task, FenceHandle, Header, Driver, Helper, fence_destroyed, enqueue_cleanup_task,
  enqueue_fence, push_entry, perform_immediate_cleanup, process_cleanup_tasks, has_passed,
  finish_wait, wait, generate_cleanup_fence, give_up, after_submit, is_success,
  create_external_callback, external_callback, null_handle, scan, retire, flush, lost_after,
}

-- One call, with the driver's answers to it.
pub data Op : Type 0 where
  submit : Task → Op
  enqueue : ℕ → Op
  generate : Driver → Op
  make_callback : Op
  call_back : Driver → ℕ → Op
  process : Driver → Op
  wait_for : Driver → VkResult → Driver → FenceHandle → Op
  clean_up : Driver → Op

-- An argument of the loop: 0 for the current generation, or a generation of a callback that is due.
abbrev pub IsStart : Helper → ℕ → Type 0
IsStart h g = (g ≡ 0) ⊎ ((h.current_generation < g) × (g < h.next_generation))

-- The tasks that a call hands over.
abbrev pub handed : Op → List Task
handed (submit t) = t ∷ []
handed _ = []

abbrev first {ℓ κ} : {A : Type ℓ} {B : Type κ} → Option (A × B) → Option A
first o = o >>= λ p. some p.0

first-eq-some {ℓ κ} :
    {A : Type ℓ} {B : Type κ} (o : Option (A × B)) {a : A}
    → first o ≡ some a
    → (b : B) × (o ≡ some (a, b))
first-eq-some none e = cc
first-eq-some (some (x, y)) e = (y, ap (λ z. some (z, y)) (some_of e))

module _ (hd : Header) where
  unfoldable pub step : Op → Helper → Option Helper
  step (submit t) h = some (enqueue_cleanup_task h t)
  step (enqueue f) h = some (enqueue_fence h f).0
  step (generate d) h = first (generate_cleanup_fence hd h d)
  step make_callback h = some (create_external_callback hd h).0
  step (call_back d g) h = external_callback hd h d g
  step (process d) h = process_cleanup_tasks hd h d 0
  step (wait_for d r e handle) h = first (wait hd h d r e handle)
  step (clean_up d) h = perform_immediate_cleanup h d

  -- A callback carries a generation that was handed out, and the generations have not run out.
  abbrev pub Admissible : Op → Helper → Type 0
  Admissible (call_back d g) h = g < h.next_generation
  Admissible _ h = h.next_generation + 1 < 2 ^ 64

  pub data Move (h : Helper) : Helper → Type 0 where
    closed : (f : ℕ) → h.next_generation + 1 < 2 ^ 64 → Move h (push_entry h f)
    flushed : (lost : Bool) → Move h (flush h lost)
    retired :
        (status : ℕ → VkResult) (g r : ℕ)
        → IsStart h g
        → scan hd status (if g == 0 then h.current_generation else g) h.cleanup_tasks ≡ some r
        → Move h (retire h r)
    dropped : (f : ℕ) → Move h (record h { log = h.log ++ (fence_destroyed f ∷ []) })

  pub data Moves (h : Helper) : Helper → Type 0 where
    here : Moves h h
    next : {k l : Helper} → Moves h k → Move k l → Moves h l

  pub Moves-trans : {h k l : Helper} → Moves h k → Moves k l → Moves h l
  Moves-trans m here = m
  Moves-trans m (next n x) = next (Moves-trans m n) x

  one : {h k l : Helper} → Move h k → k ≡ l → Moves h l
  one {h} m e = subst (Moves h) e (next here m)

  none_moved : {h k : Helper} → h ≡ k → Moves h k
  none_moved {h} e = subst (Moves h) e here

  immediate-Moves :
      (h : Helper) (d : Driver) {k : Helper} → perform_immediate_cleanup h d ≡ some k → Moves h k
  unfolding perform_immediate_cleanup
  immediate-Moves h d e =
      elim (Bool-cases (is_empty h.cleanup_tasks && is_empty h.tasks_pending_fence)) [
        | inl idle ↦ none_moved (some_of (rw (idle, perform_immediate_cleanup) at e))
        | inr busy ↦
            let (lost, _, f) =
              >>=-eq-some (lost_after d.idle) (λ l. some (flush h l))
                (rw (busy, perform_immediate_cleanup) at e) in
            one (flushed lost) (some_of f)
      ]

  process-Moves :
      (h : Helper) (d : Driver) (g : ℕ) {k : Helper}
      → IsStart h g
      → process_cleanup_tasks hd h d g ≡ some k
      → Moves h k
  unfolding process_cleanup_tasks
  process-Moves h d g issued e =
      elim (Option-cases
        (scan hd d.status (if g == 0 then h.current_generation else g) h.cleanup_tasks)) [
          | inl failed ↦ immediate-Moves h d (rw (failed, process_cleanup_tasks) at e)
          | inr (r, found) ↦
              one (retired d.status g r issued found)
                (some_of (rw (found, process_cleanup_tasks) at e))
        ]

  has_passed-Moves :
      (h : Helper) (d : Driver) (handle : FenceHandle) {k : Helper} {b : Bool}
      → has_passed hd h d handle ≡ some (k, b)
      → Moves h k
  unfolding has_passed
  has_passed-Moves h d handle e =
      let (m, p, f) =
        >>=-eq-some (process_cleanup_tasks hd h d 0)
          (λ m. some (m, leb handle.generation_id m.current_generation)) e in
      process-Moves h d 0 (inl refl) (p ∙ ap some (ap (λ x. x.0) (some_of f)))

  finish_wait-Moves :
      (passed : Bool) (h : Helper) (r : VkResult) (x : Driver) {k : Helper} {b : Bool}
      → finish_wait hd passed h r x ≡ some (k, b)
      → Moves h k
  unfolding finish_wait
  finish_wait-Moves true h r x e = none_moved (ap (λ y. y.0) (some_of e))
  finish_wait-Moves false h r x e =
      let (m, p, f) =
        >>=-eq-some (process_cleanup_tasks hd h x 0) (λ m. some (m, is_success r)) e in
      process-Moves h x 0 (inl refl) (p ∙ ap some (ap (λ y. y.0) (some_of f)))

  wait-Moves :
      (h : Helper) (d : Driver) (r : VkResult) (x : Driver) (handle : FenceHandle) {k : Helper}
      {b : Bool}
      → wait hd h d r x handle ≡ some (k, b)
      → Moves h k
  unfolding wait
  wait-Moves h d r x handle e = elim (Option-cases (has_passed hd h d handle)) [
    | inl failed ↦ cc (rw (failed, wait) at e)
    | inr ((m, b), found) ↦
        Moves-trans (has_passed-Moves h d handle found)
          (finish_wait-Moves b m r x (rw (found, wait) at e))
  ]

  give_up-Moves :
      (h : Helper) (d : Driver) {k : Helper} {handle : FenceHandle}
      → give_up hd h d ≡ some (k, handle)
      → Moves h k
  unfolding give_up
  give_up-Moves h d e =
      let (m, p, f) =
        >>=-eq-some (perform_immediate_cleanup h d) (λ m. some (m, hd.default_handle)) e in
      immediate-Moves h d (p ∙ ap some (ap (λ x. x.0) (some_of f)))

  after_submit-Moves :
      (h : Helper) (d : Driver) {k : Helper} {handle : FenceHandle}
      → h.next_generation + 1 < 2 ^ 64
      → after_submit hd h d ≡ some (k, handle)
      → Moves h k
  unfolding after_submit enqueue_fence
  after_submit-Moves h d room e = elim (Bool-cases (is_success d.submitted)) [
    | inl fine ↦
        one (closed d.new_fence room) (ap (λ x. x.0) (some_of (rw (fine, after_submit) at e)))
    | inr bad ↦
        Moves-trans (next here (dropped d.new_fence))
          (give_up-Moves _ d (rw (bad, after_submit) at e))
  ]

  generate-Moves :
      (h : Helper) (d : Driver) {k : Helper} {handle : FenceHandle}
      → h.next_generation + 1 < 2 ^ 64
      → generate_cleanup_fence hd h d ≡ some (k, handle)
      → Moves h k
  unfolding generate_cleanup_fence
  generate-Moves h d room e = elim (Bool-cases (is_empty h.tasks_pending_fence)) [
    | inl idle ↦ none_moved (ap (λ x. x.0) (some_of (rw (idle, generate_cleanup_fence) at e)))
    | inr busy ↦ elim (Bool-cases (is_success d.created)) [
      | inl fine ↦
          after_submit-Moves h d room
            (rw (fine, generate_cleanup_fence) at (rw (busy, generate_cleanup_fence) at e))
      | inr bad ↦
          give_up-Moves h d
            (rw (bad, generate_cleanup_fence) at (rw (busy, generate_cleanup_fence) at e))
    ]
  ]

  callback-Moves :
      (h : Helper) {k : Helper}
      → h.next_generation + 1 < 2 ^ 64
      → (create_external_callback hd h).0 ≡ k
      → Moves h k
  unfolding create_external_callback
  callback-Moves h room e = elim (Bool-cases (is_empty h.tasks_pending_fence)) [
    | inl idle ↦ none_moved (rw (idle, create_external_callback) at e)
    | inr busy ↦ one (closed null_handle room) (rw (busy, create_external_callback) at e)
  ]

  external_callback-Moves :
      (h : Helper) (d : Driver) (g : ℕ) {k : Helper}
      → g < h.next_generation
      → external_callback hd h d g ≡ some k
      → Moves h k
  unfolding external_callback
  external_callback-Moves h d g issued e = elim (Bool-cases (ltb h.current_generation g)) [
    | inl late ↦
        process-Moves h d g (inr (ltb→lt _ _ late, issued)) (rw (late, external_callback) at e)
    | inr done ↦ none_moved (some_of (rw (done, external_callback) at e))
  ]

  -- Every call but a submission is a sequence of such changes.
  pub step-Moves :
      (o : Op) (h : Helper) {k : Helper}
      → Admissible o h
      → step o h ≡ some k
      → ((t : Task) × (o ≡ submit t) × (k ≡ enqueue_cleanup_task h t))
        ⊎ ((handed o ≡ []) × Moves h k)
  unfolding step
  step-Moves (submit t) h a e = inl (t, refl, sym (some_of e))
  step-Moves (enqueue f) h a e = inr (refl, unfold enqueue_fence in one (closed f a) (some_of e))
  step-Moves (generate d) h a e =
      let (handle, f) = first-eq-some (generate_cleanup_fence hd h d) e in
      inr (refl, generate-Moves h d a f)
  step-Moves make_callback h a e = inr (refl, callback-Moves h a (some_of e))
  step-Moves (call_back d g) h a e = inr (refl, external_callback-Moves h d g a e)
  step-Moves (process d) h a e = inr (refl, process-Moves h d 0 (inl refl) e)
  step-Moves (wait_for d r x handle) h a e =
      let (b, f) = first-eq-some (wait hd h d r x handle) e in
      inr (refl, wait-Moves h d r x handle f)
  step-Moves (clean_up d) h a e = inr (refl, immediate-Moves h d e)
