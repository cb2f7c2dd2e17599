-- ===== src/Fence/Safety.antt =====
-- VulkanFenceHelper (app/graphics/vv_helper.cpp): when a fence counts as passed, and what an
-- immediate cleanup leaves.
use tor_onion.Common.{
  ℕ, ◌+◌, ◌^◌, ◌≤◌, ◌<◌, max, ◌≡◌, refl, sym, subst, ◌∙◌, ◌⊎◌, inl, inr, Bool, true, false, some,
  List, [], ◌∷◌, arith, ◌==◌, if◌then◌else◌, Bool-cases, Option-cases, some_of, All, All-mem, Memᴰ,
  is_empty, is_empty-eq, ◌&&◌, le→leb, append-nil,
}
use tor_onion.Fence.{
  VkResult, success, device_lost, Header, Driver, Helper, TasksForFence, scan, retire, flush,
  tasks_of, lost_after, perform_immediate_cleanup, destroy, process_cleanup_tasks, has_passed,
}
use tor_onion.Fence.Trace.{executed}
use tor_onion.Fence.Order.{account, flush-account}
use tor_onion.Fence.Invariant.{Rising, Rising-lt, Inv}

-- Entries above `r` satisfy whatever is asked of those up to `r`.
Rising-beyond {ℓ} :
    (P : TasksForFence → Type ℓ) (r lo hi : ℕ) (q : List TasksForFence)
    → Rising lo q hi
    → r ≤ lo
    → All (λ t. t.generation_id ≤ r → P t) q
Rising-beyond P r lo hi [] a b = tt
Rising-beyond P r lo hi (t ∷ ts) a b =
    (λ c. absurd (omega arith), Rising-beyond P r t.generation_id hi ts a.1 (omega arith))

module _ (hd : Header) (status : ℕ → VkResult) where
  abbrev Signalled : TasksForFence → Type 0
  Signalled t = hd.using_callback t ≡ false → status t.fence ≡ success

  -- One round of the loop: it passes a callback's entry or a signalled fence, or it stops below.
  scan_round :
      (g r : ℕ) (t : TasksForFence) (ts : List TasksForFence)
      → 0 < t.generation_id
      → t.generation_id < 2 ^ 64
      → scan hd status g (t ∷ ts) ≡ some r
      → ((hd.using_callback t ≡ true) × (scan hd status g ts ≡ some r))
        ⊎ ((status t.fence ≡ success) × (scan hd status (max t.generation_id g) ts ≡ some r))
        ⊎ (r < t.generation_id)
  unfolding scan
  scan_round g r t ts a b e = ground arith

  scan_success :
      (g lo hi r : ℕ) (q : List TasksForFence)
      → Rising lo q hi
      → hi < 2 ^ 64
      → scan hd status g q ≡ some r
      → All (λ t. t.generation_id ≤ r → Signalled t) q
  scan_success g lo hi r [] a b e = tt
  scan_success g lo hi r (t ∷ ts) a b e =
      let below : t.generation_id < hi = Rising-lt t.generation_id hi ts a.1 in
      elim (scan_round g r t ts (omega arith) (omega arith) e) [
        | inl (c, f) ↦ (λ _ d. cc, scan_success g t.generation_id hi r ts a.1 b f)
        | inr (inl (c, f)) ↦
            (λ _ _. c, scan_success (max t.generation_id g) t.generation_id hi r ts a.1 b f)
        | inr (inr c) ↦ (
          λ d. absurd (omega arith),
          Rising-beyond Signalled r t.generation_id hi ts a.1 (omega arith),
        )
      ]

  -- With every fence signalled the loop retires all of them.
  scan_complete :
      (g : ℕ) (q : List TasksForFence)
      → ((f : ℕ) → status f ≡ success)
      → (r : ℕ) × (scan hd status g q ≡ some r)
        × (g ≤ r)
        × All (λ t. hd.using_callback t ≡ false → t.generation_id ≤ r) q
  unfolding scan
  scan_complete g [] h = (g, refl, omega arith, tt)
  scan_complete g (t ∷ ts) h = elim (Bool-cases (hd.using_callback t)) [
    | inl c ↦ let (r, e, a, rest) = scan_complete g ts h in (r, rw (c, scan) e, a, (λ d. cc, rest))
    | inr c ↦
        let (r, e, a, rest) = scan_complete (max t.generation_id g) ts h in
        (r, rw (c, scan) (rw (h t.fence, scan) e), omega arith, (λ d. omega arith, rest))
  ]

module _ (hd : Header) where
  -- When ProcessCleanupTasks does not fall back to the immediate cleanup, each fence of the queue
  -- whose generation it retires was reported signalled by the driver in this very call.
  pub process_only_signalled :
      (h : Helper) (d : Driver) (g : ℕ) {k : Helper} (t : TasksForFence)
      → Inv h
      → process_cleanup_tasks hd h d g ≡ some k
      → Memᴰ t h.cleanup_tasks
      → t.generation_id ≤ k.current_generation
      → hd.using_callback t ≡ false
      → (perform_immediate_cleanup h d ≡ some k) ⊎ (d.status t.fence ≡ success)
  unfolding process_cleanup_tasks retire
  process_only_signalled h d g t v e m below fenced =
      let s = (if g == 0 then h.current_generation else g) in
      elim (Option-cases (scan hd d.status s h.cleanup_tasks)) [
        | inl failed ↦ inl (rw (failed, process_cleanup_tasks) at e)
        | inr (r, found) ↦
            let same = some_of (rw (found, process_cleanup_tasks) at e) in
            inr (
              All-mem (λ x. x.generation_id ≤ r → Signalled hd d.status x)
                (scan_success hd d.status s h.current_generation h.next_generation r h.cleanup_tasks
                  v.rising v.bounded found)
                m (subst (λ x. t.generation_id ≤ x.current_generation) (sym same) below) fenced)
      ]

  process_retires :
      (h : Helper) (d : Driver) (r : ℕ)
      → scan hd d.status h.current_generation h.cleanup_tasks ≡ some r
      → process_cleanup_tasks hd h d 0 ≡ some (retire h r)
  unfolding process_cleanup_tasks
  process_retires h d r e = rw (e, process_cleanup_tasks)

  -- Once the driver reports every fence signalled, HasPassed answers true for the handle of every
  -- fence in the queue.
  pub has_passed_of_signalled :
      (h : Helper) (d : Driver) (t : TasksForFence)
      → ((f : ℕ) → d.status f ≡ success)
      → Memᴰ t h.cleanup_tasks
      → hd.using_callback t ≡ false
      → (k : Helper) × (has_passed hd h d
            (record { fence = t.fence; generation_id = t.generation_id })
          ≡ some (k, true))
  unfolding has_passed retire
  has_passed_of_signalled h d t all m fenced =
      let (r, found, _, below) =
        scan_complete hd d.status h.current_generation h.cleanup_tasks all in
      (
        retire h r,
        rw (process_retires h d r found, has_passed)
            (rw (
              le→leb _ _
                (All-mem (λ x. hd.using_callback x ≡ false → x.generation_id ≤ r) below m fenced))),
      )

-- The idle wait of an immediate cleanup may end in success or with a lost device.
abbrev pub Waited : Driver → Type 0
Waited d = (d.idle ≡ success) ⊎ (d.idle ≡ device_lost)

-- Nothing is queued, all that was handed over has been run, and each generation has passed unless
-- there was nothing to do.
pub record IsClean (h k : Helper) : Type 0 where
  pub queue : k.cleanup_tasks ≡ []
  pub pending : k.tasks_pending_fence ≡ []
  pub all_run : executed k.log ≡ account h
  pub passed : (k ≡ h) ⊎ (k.current_generation + 1 ≡ h.next_generation)

idle-IsClean : (h : Helper) → h.cleanup_tasks ≡ [] → h.tasks_pending_fence ≡ [] → IsClean h h
unfolding tasks_of
idle-IsClean h a b = record {
  queue = a;
  pending = b;
  all_run = rw (a, b) (sym (append-nil _));
  passed = inl refl;
}

flush-IsClean : (h : Helper) (lost : Bool) → Inv h → IsClean h (flush h lost)
unfolding flush tasks_of
flush-IsClean h lost v = record {
  queue = refl;
  pending = refl;
  all_run = sym (append-nil _) ∙ flush-account h lost;
  passed = inr (omega (arith, Rising-lt _ _ h.cleanup_tasks v.rising));
}

some-lost_after : (d : Driver) → Waited d → (lost : Bool) × (lost_after d.idle ≡ some lost)
unfolding lost_after
some-lost_after d (inl e) = (false, rw e)
some-lost_after d (inr e) = (true, rw e)

-- An immediate cleanup, and so Destroy, returns when its wait ends in success or with a lost device.
-- It leaves nothing queued or pending and has run every task ever handed over, in order; unless
-- there was nothing to do, every generation handed out has passed.
pub immediate_cleanup_completes :
    (h : Helper) (d : Driver)
    → Inv h
    → Waited d
    → (k : Helper) × (destroy h d ≡ some k) × IsClean h k
unfolding destroy perform_immediate_cleanup
immediate_cleanup_completes h d v w = elim (Bool-cases (is_empty h.cleanup_tasks)) [
  | inl a ↦ elim (Bool-cases (is_empty h.tasks_pending_fence)) [
    | inl b ↦
        (h, rw (a, destroy) (rw (b, destroy)), idle-IsClean h (is_empty-eq _ a) (is_empty-eq _ b))
    | inr b ↦ busy (rw a (rw b))
  ]
  | inr a ↦ busy (rw a)
]
  where
    busy :
        (is_empty h.cleanup_tasks && is_empty h.tasks_pending_fence) ≡ false
        → (k : Helper) × (destroy h d ≡ some k) × IsClean h k
    busy b =
        let (lost, e) = some-lost_after d w in
        (flush h lost, rw (b, destroy) (rw e), flush-IsClean h lost v)
