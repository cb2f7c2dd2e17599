-- ===== src/Fence/Invariant.antt =====
-- What holds of a VulkanFenceHelper (app/graphics/vv_helper.cpp) between two calls.
use tor_onion.Common.{
  ℕ, ◌+◌, ◌^◌, ◌≤◌, ◌<◌, max, ◌≡◌, refl, some, List, [], ◌∷◌, ◌++◌, arith, ◌==◌, u64, if◌then◌else◌,
}
use tor_onion.Fence.{
  VkResult, Header, Helper, TasksForFence, scan, drain, retire, flush, push_entry,
  enqueue_cleanup_task,
}
use tor_onion.Fence.Steps.{Op, IsStart, Move, closed, flushed, retired, dropped}
use tor_onion.Fence.History.{History, History-keep}

-- The generations rise along the queue, above `lo` and below `hi`.
abbrev pub Rising : ℕ → List TasksForFence → ℕ → Type 0
Rising lo [] hi = lo < hi
Rising lo (t ∷ ts) hi = (lo < t.generation_id) × Rising t.generation_id ts hi

pub record Inv (h : Helper) : Type 0 where
  pub rising : Rising h.current_generation h.cleanup_tasks h.next_generation
  pub bounded : h.next_generation < 2 ^ 64

pub Rising-lt : (lo hi : ℕ) (q : List TasksForFence) → Rising lo q hi → lo < hi
Rising-lt lo hi [] r = r
Rising-lt lo hi (t ∷ ts) r = omega (arith, Rising-lt t.generation_id hi ts r.1)

Rising-append :
    (lo hi : ℕ) (q : List TasksForFence) (e : TasksForFence)
    → Rising lo q hi
    → e.generation_id ≡ hi
    → Rising lo (q ++ (e ∷ [])) (hi + 1)
Rising-append lo hi [] e r same = omega arith
Rising-append lo hi (t ∷ ts) e r same = (r.0, Rising-append t.generation_id hi ts e r.1 same)

-- What `drain` leaves lies above the generation that was retired.
Rising-drain :
    (g lo hi : ℕ) (q : List TasksForFence) → Rising lo q hi → g < hi → Rising g (drain g q).left hi
unfolding drain
Rising-drain g lo hi [] r h = h
Rising-drain g lo hi (t ∷ ts) r h = ground (arith, Rising-drain g t.generation_id hi ts r.1)

-- The generation that the loop settles on is at least the current one and was handed out.
pub scan_bounds :
    (hd : Header) (status : ℕ → VkResult) (lo m g hi r : ℕ) (q : List TasksForFence)
    → Rising m q hi
    → hi < 2 ^ 64
    → lo ≤ m
    → lo ≤ g
    → g < hi
    → scan hd status g q ≡ some r
    → (lo ≤ r) × (r < hi)
unfolding scan
scan_bounds hd status lo m g hi r [] a b c d x e = ground arith
scan_bounds hd status lo m g hi r (t ∷ ts) a b c d x e = ground (
  arith,
  Rising-lt t.generation_id hi ts a.1,
  scan_bounds hd status lo t.generation_id g hi r ts a.1,
  scan_bounds hd status lo t.generation_id (max t.generation_id g) hi r ts a.1,
)

-- The loop starts at the current generation or above it.
start_bounds :
    (h : Helper) (g : ℕ)
    → IsStart h g
    → h.current_generation < h.next_generation
    → let s = (if g == 0 then h.current_generation else g) in
      (h.current_generation ≤ s) × (s < h.next_generation)
start_bounds h g a b = ground arith

module _ (hd : Header) where
  -- The generation that a call of the loop retires.
  pub retired_bounds :
      (h : Helper) (status : ℕ → VkResult) (g r : ℕ)
      → IsStart h g
      → scan hd status (if g == 0 then h.current_generation else g) h.cleanup_tasks ≡ some r
      → Inv h
      → (h.current_generation ≤ r) × (r < h.next_generation)
  retired_bounds h status g r a e v =
      let b = start_bounds h g a (Rising-lt _ _ h.cleanup_tasks v.rising) in
      scan_bounds hd status h.current_generation h.current_generation _ h.next_generation r
        h.cleanup_tasks v.rising v.bounded (omega arith) b.0 b.1 e

  pub Move-Inv : (h k : Helper) → Move hd h k → Inv h → Inv k
  unfolding push_entry flush retire
  Move-Inv h k (closed f room) v = record {
    rising =
        let e : u64 (h.next_generation + 1) ≡ h.next_generation + 1 = omega arith in
        rw e (Rising-append _ _ h.cleanup_tasks _ v.rising refl);
    bounded = omega arith;
  }
  Move-Inv h k (flushed lost) v =
      omega (arith, Rising-lt h.current_generation h.next_generation h.cleanup_tasks v.rising)
  Move-Inv h k (retired status g r a e) v = record {
    rising =
        Rising-drain r h.current_generation h.next_generation h.cleanup_tasks v.rising
          (retired_bounds h status g r a e v).1;
    bounded = v.bounded;
  }
  Move-Inv h k (dropped f) v = record { rising = v.rising; bounded = v.bounded }

  -- Between any two calls the generations rise strictly along the queue, all above the current one
  -- and below the next one, which fits its 64 bits.
  pub History-Inv : {h k : Helper} {os : List Op} → History hd h os k → Inv h → Inv k
  unfolding enqueue_cleanup_task
  History-Inv =
      History-keep hd Inv Move-Inv (λ h t v. record { rising = v.rising; bounded = v.bounded })

  Move-grows : (h k : Helper) → Move hd h k → Inv h → h.current_generation ≤ k.current_generation
  unfolding push_entry flush retire
  Move-grows h k (closed f room) v = omega arith
  Move-grows h k (flushed lost) v =
      omega (arith, Rising-lt h.current_generation h.next_generation h.cleanup_tasks v.rising)
  Move-grows h k (retired status g r a e) v = (retired_bounds h status g r a e v).0
  Move-grows h k (dropped f) v = omega arith

  -- The current generation never falls, so that a handle that has passed stays so.
  pub History-grows :
      {h k : Helper} {os : List Op}
      → History hd h os k
      → Inv h
      → h.current_generation ≤ k.current_generation
  unfolding enqueue_cleanup_task
  History-grows {h} r v =
      (History-keep hd (λ k. Inv k × (h.current_generation ≤ k.current_generation))
        (λ x y m p. (Move-Inv x y m p.0, omega (arith, Move-grows x y m p.0)))
        (λ x t p. (record { rising = p.0.rising; bounded = p.0.bounded }, p.1)) r
        (v, omega arith)).1
