-- ===== src/MountPoints/Overlap.antt =====
-- The overlap test of z-box/handler-store/external_m.cpp, which looks at two neighbours of a path in
-- the sorted map, beside a comparison against every registered path.
use tor_onion.Common.{
  ◌≡◌, refl, sym, ap, subst, ◌∙◌, inl, inr, Bool, true, false, ◌||◌, some, List, [], ◌∷◌, arith,
  All, All-mem, Memᴰ, Bool-cases, Option-cases,
}
use tor_onion.MountPoints.Lex.{
  Bytes, eqb, le, lt, is_prefix, eqb_iff, le_trans, le_total, le_antisym, is_prefix-le,
  is_prefix_between, is_prefix_refl,
}
use tor_onion.MountPoints.SortedMap.{floor, above, Sorted, floor_mem, above_mem}
use tor_onion.MountPoints.Paths.{PathOps, is_canonical}
use tor_onion.MountPoints.{overlaps_neighbour, has_parent_at, has_child_at}

-- One path lies at or below the other.
abbrev pub related : Bytes → Bytes → Bool
related a b = is_prefix a b || is_prefix b a

module _ {ℓ} {V : Type ℓ} where
  -- No two entries overlap.
  abbrev pub Apart : List (Bytes × V) → Type ℓ
  Apart [] = Unit
  Apart ((j, v) ∷ m) = All (λ e. related j e.0 ≡ false) m × Apart m

  -- An entry at or above `path` is found as the floor.
  pub floor_parent :
      (path : Bytes) (m : List (Bytes × V)) {p : Bytes × V}
      → Sorted m
      → Apart m
      → Memᴰ p m
      → is_prefix p.0 path ≡ true
      → floor path m ≡ some p
  unfolding floor
  floor_parent path [] {p} s a t h = elim t [ ]
  floor_parent path ((j, v) ∷ m) {p} s a (Memᴰ.head e) h =
      let hj : is_prefix j path ≡ true = subst (λ x. is_prefix x.0 path ≡ true) e h in
      elim (Option-cases (floor path m)) [
        | inl last ↦ rw (is_prefix-le j path hj, floor) (rw last (ap some (sym e)))
        | inr (f, found) ↦
            let (t, low) = floor_mem path m found in
            let after = All-mem (λ x. lt j x.0 ≡ true) s.0 t in
            let free = All-mem (λ x. related j x.0 ≡ false) a.0 t in
            ground (arith, le_total f.0 j, is_prefix_between j f.0 path hj)
      ]
  floor_parent path ((j, v) ∷ m) {p} s a (Memᴰ.tail t) h =
      let after = All-mem (λ x. lt j x.0 ≡ true) s.0 t in
      let low : le j path ≡ true =
        ground (arith, le_total p.0 j, is_prefix-le p.0 path h, le_trans j p.0 path) in
      rw (low, floor) (rw (floor_parent path m s.1 a.1 t h) refl)

  -- An entry strictly below `path` shows at the next key.
  pub above_child :
      (path : Bytes) (m : List (Bytes × V)) {c : Bytes × V}
      → Sorted m
      → Memᴰ c m
      → is_prefix path c.0 ≡ true
      → le c.0 path ≡ false
      → (a : Bytes × V) × (above path m ≡ some a) × (is_prefix path a.0 ≡ true)
  unfolding above
  above_child path [] {c} s t h n = elim t [ ]
  above_child path ((j, v) ∷ m) {c} s (Memᴰ.head e) h n =
      let high : le j path ≡ false = subst (λ x. le x.0 path ≡ false) e n in
      ((j, v), rw (high, above), subst (λ x. is_prefix path x.0 ≡ true) e h)
  above_child path ((j, v) ∷ m) {c} s (Memᴰ.tail t) h n = elim (Bool-cases (le j path)) [
    | inl low ↦ let (x, found, q) = above_child path m s.1 t h n in (x, rw (low, above) found, q)
    | inr high ↦
        let after = All-mem (λ x. lt j x.0 ≡ true) s.0 t in
        (
          (j, v),
          rw (high, above),
          ground (arith, le_total j path, le_total c.0 j, is_prefix_between path j c.0 h),
        )
  ]

module _ {ℓ} {V : Type ℓ} where
  -- The reference: `path` against every entry.
  pub overlaps_any : Bytes → List (Bytes × V) → Bool
  overlaps_any path [] = false
  overlaps_any path ((j, v) ∷ m) = related path j || overlaps_any path m

  overlaps_mem :
      (path : Bytes) (m : List (Bytes × V)) {e : Bytes × V}
      → Memᴰ e m
      → related path e.0 ≡ true
      → overlaps_any path m ≡ true
  unfolding overlaps_any
  overlaps_mem path [] t r = elim t [ ]
  overlaps_mem path ((j, v) ∷ m) (Memᴰ.head e) r =
      let q : related path j ≡ true = subst (λ x. related path x.0 ≡ true) e r in ground arith
  overlaps_mem path ((j, v) ∷ m) (Memᴰ.tail t) r = ground (arith, overlaps_mem path m t r)

  overlaps_find :
      (path : Bytes) (m : List (Bytes × V))
      → overlaps_any path m ≡ true
      → (e : Bytes × V) × Memᴰ e m × (related path e.0 ≡ true)
  unfolding overlaps_any
  overlaps_find path [] r = cc
  overlaps_find path ((j, v) ∷ m) r = elim (Bool-cases (related path j)) [
    | inl here ↦ ((j, v), Memᴰ.head refl, here)
    | inr not_here ↦
        let (e, t, q) = overlaps_find path m (rw (not_here, overlaps_any) at r) in
        (e, Memᴰ.tail t, q)
  ]

  -- No overlap, as a fact about each entry.
  pub overlaps_none :
      (path : Bytes) (m : List (Bytes × V))
      → overlaps_any path m ≡ false
      → All (λ e. related path e.0 ≡ false) m
  unfolding overlaps_any
  overlaps_none path [] r = tt
  overlaps_none path ((j, v) ∷ m) r = (ground arith, overlaps_none path m (ground arith))

abbrev pub Canonical {ℓ} : {V : Type ℓ} → List (Bytes × V) → Type 0
Canonical m = All (λ e. is_canonical e.0 ≡ true) m

pub is_prefix_of_eqb : (a b : Bytes) → eqb a b ≡ true → is_prefix a b ≡ true
is_prefix_of_eqb a b e = subst (λ x. is_prefix a x ≡ true) ((eqb_iff a b).0 e) (is_prefix_refl a)

eqb_sym : (a b : Bytes) → eqb a b ≡ eqb b a
eqb_sym a b = ground (arith, eqb_iff a b, eqb_iff b a)

module _ (ops : PathOps) where
  -- Between canonical paths the two tests at a neighbour are prefix tests.
  pub has_parent_at-prefix :
      (path k n : Bytes)
      → is_canonical path ≡ true
      → is_canonical k ≡ true
      → has_parent_at ops path (some (k, n)) ≡ is_prefix k path
  unfolding has_parent_at
  has_parent_at-prefix path k n p q =
      ground (arith, ops.parent_of_canonical k path q p, is_prefix_of_eqb k path)

  has_child_at-prefix :
      (path k n : Bytes)
      → is_canonical path ≡ true
      → is_canonical k ≡ true
      → has_child_at ops path (some (k, n)) ≡ is_prefix path k
  unfolding has_child_at
  has_child_at-prefix path k n p q =
      ground (arith, ops.parent_of_canonical path k p q, is_prefix_of_eqb path k, eqb_sym k path)

  module _ (path : Bytes) (m : List (Bytes × Bytes)) (s : Sorted m) (a : Apart m) (c : Canonical m)
      (p : is_canonical path ≡ true) where
    canonical_mem : {e : Bytes × Bytes} → Memᴰ e m → is_canonical e.0 ≡ true
    canonical_mem t = All-mem (λ e. is_canonical e.0 ≡ true) c t

    found_parent :
        {e : Bytes × Bytes}
        → Memᴰ e m
        → is_prefix e.0 path ≡ true
        → has_parent_at ops path (floor path m) ≡ true
    found_parent {e} t h =
        ap (has_parent_at ops path) (floor_parent path m s a t h)
        ∙ has_parent_at-prefix path e.0 e.1 p (canonical_mem t)
        ∙ h

    found_child :
        {e : Bytes × Bytes}
        → Memᴰ e m
        → is_prefix path e.0 ≡ true
        → le e.0 path ≡ false
        → has_child_at ops path (above path m) ≡ true
    found_child t h n =
        let (x, found, q) = above_child path m s t h n in
        ap (has_child_at ops path) found
        ∙ has_child_at-prefix path x.0 x.1 p (canonical_mem (above_mem path m found).0)
        ∙ q

    neighbour_of_mem :
        {e : Bytes × Bytes}
        → Memᴰ e m
        → related path e.0 ≡ true
        → overlaps_neighbour ops path m ≡ true
    unfolding overlaps_neighbour
    neighbour_of_mem {e} t r = elim (Bool-cases (is_prefix e.0 path)) [
      | inl up ↦ rw (found_parent t up)
      | inr down ↦
          let under : is_prefix path e.0 ≡ true = ground arith in
          elim (Bool-cases (le e.0 path)) [
            | inl low ↦
                let same : e.0 ≡ path = le_antisym e.0 path low (is_prefix-le path e.0 under) in
                rw (found_parent t (subst (λ x. is_prefix e.0 x ≡ true) same (is_prefix_refl e.0)))
            | inr high ↦ ground (arith, found_child t under high)
          ]
    ]

    no_parent :
        All (λ e. related path e.0 ≡ false) m → has_parent_at ops path (floor path m) ≡ false
    no_parent free = elim (Option-cases (floor path m)) [
      | inl missing ↦ rw missing (unfold has_parent_at in refl)
      | inr (f, found) ↦
          let (t, _) = floor_mem path m found in
          let apart = All-mem (λ e. related path e.0 ≡ false) free t in
          ap (has_parent_at ops path) found
          ∙ has_parent_at-prefix path f.0 f.1 p (canonical_mem t)
          ∙ ground arith
    ]

    no_child : All (λ e. related path e.0 ≡ false) m → has_child_at ops path (above path m) ≡ false
    no_child free = elim (Option-cases (above path m)) [
      | inl missing ↦ rw missing (unfold has_child_at in refl)
      | inr (f, found) ↦
          let (t, _) = above_mem path m found in
          let apart = All-mem (λ e. related path e.0 ≡ false) free t in
          ap (has_child_at ops path) found
          ∙ has_child_at-prefix path f.0 f.1 p (canonical_mem t)
          ∙ ground arith
    ]

    -- The two neighbours decide it: on canonical paths, over a map without overlaps, the test of the
    -- code finds an overlap exactly when `path` lies at, above or below some registered path.
    pub overlaps_neighbour-any : overlaps_neighbour ops path m ≡ overlaps_any path m
    unfolding overlaps_neighbour
    overlaps_neighbour-any = elim (Bool-cases (overlaps_any path m)) [
      | inl some_overlap ↦
          let (e, t, r) = overlaps_find path m some_overlap in
          neighbour_of_mem t r ∙ sym some_overlap
      | inr free ↦
          let all = overlaps_none path m free in ground (arith, no_parent all, no_child all)
    ]
