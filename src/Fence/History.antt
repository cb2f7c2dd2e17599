-- ===== src/Fence/History.antt =====
-- Histories of a VulkanFenceHelper (app/graphics/vv_helper.cpp): the states that calls lead to, and
-- the two rules by which a property of them is proved.
use tor_onion.Common.{◌≡◌, inl, inr, some, List, [], ◌∷◌, ◌++◌, subst, sym}
use tor_onion.Fence.{Task, Header, Helper, enqueue_cleanup_task}
use tor_onion.Fence.Steps.{Op, step, Admissible, Move, Moves, here, next, step-Moves}

module _ (hd : Header) where
  -- No call of the history failed a CHECK.
  pub data History (h : Helper) : List Op → Helper → Type 0 where
    start : History h [] h
    call :
        {os : List Op} {k l : Helper} (o : Op)
        → History h os k
        → Admissible hd o k
        → step hd o k ≡ some l
        → History h (os ++ (o ∷ [])) l

  -- What every change keeps, every history keeps.
  pub Moves-keep {ℓ} :
      (P : Helper → Type ℓ)
      → ((h k : Helper) → Move hd h k → P h → P k)
      → {h k : Helper} → Moves hd h k
      → P h
      → P k
  Moves-keep P keep here p = p
  Moves-keep P keep (next m x) p = keep _ _ x (Moves-keep P keep m p)

  pub History-keep {ℓ} :
      (P : Helper → Type ℓ)
      → ((h k : Helper) → Move hd h k → P h → P k)
      → ((h : Helper) (t : Task) → P h → P (enqueue_cleanup_task h t))
      → {h k : Helper} {os : List Op} → History h os k
      → P h
      → P k
  History-keep P keep more start p = p
  History-keep P keep more (call {k = m} o r a e) p = elim (step-Moves hd o m a e) [
    | inl (t, _, same) ↦ subst P (sym same) (more m t (History-keep P keep more r p))
    | inr (_, moves) ↦ Moves-keep P keep moves (History-keep P keep more r p)
  ]
