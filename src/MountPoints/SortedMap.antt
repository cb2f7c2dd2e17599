-- ===== src/MountPoints/SortedMap.antt =====
-- std::map with string keys, as z-box/handler-store/external_m.cpp uses it: a sorted list of
-- entries with lookup, assignment, insertion, removal and the search by order.
use tor_onion.Common.{
  ◌≡◌, refl, sym, ap, ◌∙◌, some_of, subst, inl, inr, true, false, not, Option, none, some, List, [],
  ◌∷◌, arith, if◌then◌else◌, is_some, value_or, All, All-mono, Memᴰ, Bool-cases, Option-cases,
}
use tor_onion.MountPoints.Lex.{Bytes, eqb, le, lt, eqb_iff, le_trans, le_antisym}

module _ {ℓ} {V : Type ℓ} where
  unfoldable pub lookup : Bytes → List (Bytes × V) → Option V
  lookup k [] = none
  lookup k ((j, v) ∷ m) = if eqb j k then some v else lookup k m

  -- `m[k] = v`.
  unfoldable pub put : Bytes → V → List (Bytes × V) → List (Bytes × V)
  put k v [] = (k, v) ∷ []
  put k v ((j, w) ∷ m) =
      if eqb j k then (j, v) ∷ m else if le k j then (k, v) ∷ (j, w) ∷ m else (j, w) ∷ put k v m

  -- `m.insert({k, v})`, which leaves an entry for `k` as it is.
  unfoldable pub insert_entry : Bytes → V → List (Bytes × V) → List (Bytes × V)
  unfolding lookup put
  insert_entry k v m = if is_some (lookup k m) then m else put k v m

  unfoldable pub erase_entry : Bytes → List (Bytes × V) → List (Bytes × V)
  erase_entry k [] = []
  erase_entry k ((j, v) ∷ m) = let rest = erase_entry k m in if eqb j k then rest else (j, v) ∷ rest

  -- The entry before `upper_bound(k)`: the last one whose key is not above `k`.
  unfoldable pub floor : Bytes → List (Bytes × V) → Option (Bytes × V)
  floor k [] = none
  floor k ((j, v) ∷ m) =
      let rest = floor k m in if le j k then some (value_or rest (j, v)) else none

  -- `upper_bound(k)`: the first entry whose key is above `k`.
  unfoldable pub above : Bytes → List (Bytes × V) → Option (Bytes × V)
  above k [] = none
  above k ((j, v) ∷ m) = if le j k then above k m else some (j, v)

  abbrev pub Sorted : List (Bytes × V) → Type ℓ
  Sorted [] = Unit
  Sorted ((j, v) ∷ m) = All (λ e. lt j e.0 ≡ true) m × Sorted m

lt_trans_of_le : (a b c : Bytes) → le a b ≡ true → lt b c ≡ true → lt a c ≡ true
lt_trans_of_le a b c e f = ground (arith, le_trans c a b)

module _ {ℓ} {V : Type ℓ} where
  pub lookup-put :
      (k j : Bytes) (v : V) (m : List (Bytes × V))
      → lookup j (put k v m) ≡ (if eqb k j then some v else lookup j m)
  unfolding lookup put
  lookup-put k j v [] = refl
  lookup-put k j v ((i, w) ∷ m) =
      ground (arith, eqb_iff k j, eqb_iff i k, eqb_iff i j, lookup-put k j v m)

  pub lookup-erase_entry :
      (k j : Bytes) (m : List (Bytes × V))
      → lookup j (erase_entry k m) ≡ (if eqb k j then none else lookup j m)
  unfolding lookup erase_entry
  lookup-erase_entry k j [] = ground arith
  lookup-erase_entry k j ((i, w) ∷ m) =
      ground (arith, eqb_iff k j, eqb_iff i k, eqb_iff i j, lookup-erase_entry k j m)

  pub erase_missing : (k : Bytes) (m : List (Bytes × V)) → lookup k m ≡ none → erase_entry k m ≡ m
  unfolding lookup erase_entry
  erase_missing k [] e = refl
  erase_missing k ((j, w) ∷ m) e = ground (arith, erase_missing k m)

  -- Taking out what was put in under a new key.
  pub erase_entry-put :
      (k : Bytes) (v : V) (m : List (Bytes × V)) → lookup k m ≡ none → erase_entry k (put k v m) ≡ m
  unfolding lookup erase_entry put
  erase_entry-put k v [] e = ground (arith, eqb_iff k k)
  erase_entry-put k v ((j, w) ∷ m) e =
      ground (arith, eqb_iff k k, eqb_iff j k, erase_entry-put k v m, erase_missing k m)

  pub All-put {κ} :
      (P : Bytes × V → Type κ) (k : Bytes) (v : V) (m : List (Bytes × V))
      → P (k, v)
      → All P m
      → All P (put k v m)
  unfolding put
  All-put P k v [] p h = (p, tt)
  All-put P k v ((j, w) ∷ m) p h = elim (Bool-cases (eqb j k)) [
    | inl same ↦ rw (same, put) (subst (λ x. P (x, v)) (sym ((eqb_iff j k).0 same)) p, h.1)
    | inr other ↦ elim (Bool-cases (le k j)) [
      | inl before ↦ rw (other, put) (rw before (p, h))
      | inr after ↦ rw (other, put) (rw after (h.0, All-put P k v m p h.1))
    ]
  ]

  pub All-erase_entry {κ} :
      (P : Bytes × V → Type κ) (k : Bytes) (m : List (Bytes × V))
      → All P m
      → All P (erase_entry k m)
  unfolding erase_entry
  All-erase_entry P k [] h = tt
  All-erase_entry P k ((j, w) ∷ m) h = elim (Bool-cases (eqb j k)) [
    | inl same ↦ rw (same, erase_entry) (All-erase_entry P k m h.1)
    | inr other ↦ rw (other, erase_entry) (h.0, All-erase_entry P k m h.1)
  ]

  pub put-Sorted : (k : Bytes) (v : V) (m : List (Bytes × V)) → Sorted m → Sorted (put k v m)
  unfolding put
  put-Sorted k v [] s = (tt, tt)
  put-Sorted k v ((j, w) ∷ m) s = elim (Bool-cases (eqb j k)) [
    | inl same ↦ rw (same, put) s
    | inr other ↦ elim (Bool-cases (le k j)) [
      | inl before ↦
          let below : lt k j ≡ true = ground (arith, le_antisym k j, eqb_iff j k) in
          rw (other, put)
            (rw before ((below, All-mono m (λ e h. lt_trans_of_le k j e.0 before h) s.0), s))
      | inr after ↦
          rw (other, put)
            (rw after
              (All-put (λ e. lt j e.0 ≡ true) k v m (ap not after) s.0, put-Sorted k v m s.1))
    ]
  ]

  pub erase_entry-Sorted : (k : Bytes) (m : List (Bytes × V)) → Sorted m → Sorted (erase_entry k m)
  unfolding erase_entry
  erase_entry-Sorted k [] s = tt
  erase_entry-Sorted k ((j, w) ∷ m) s = elim (Bool-cases (eqb j k)) [
    | inl same ↦ rw (same, erase_entry) (erase_entry-Sorted k m s.1)
    | inr other ↦
        rw (other, erase_entry)
          (All-erase_entry (λ e. lt j e.0 ≡ true) k m s.0, erase_entry-Sorted k m s.1)
  ]

  -- What the two searches return is an entry on its side of `k`.
  pub floor_mem :
      (k : Bytes) (m : List (Bytes × V)) {f : Bytes × V}
      → floor k m ≡ some f
      → Memᴰ f m × (le f.0 k ≡ true)
  unfolding floor
  floor_mem k [] e = cc
  floor_mem k ((j, v) ∷ m) {f} e = elim (Bool-cases (le j k)) [
    | inr high ↦ cc (rw (high, floor) at e)
    | inl low ↦ elim (Option-cases (floor k m)) [
      | inl last ↦
          let is : (j, v) ≡ f = some_of (rw (last, floor) at (rw (low, floor) at e)) in
          (Memᴰ.head (sym is), subst (λ x. le x.0 k ≡ true) is low)
      | inr (g, found) ↦
          let is : g ≡ f = some_of (rw (found, floor) at (rw (low, floor) at e)) in
          let (m', h) = floor_mem k m (found ∙ ap some is) in (Memᴰ.tail m', h)
    ]
  ]

  pub above_mem :
      (k : Bytes) (m : List (Bytes × V)) {f : Bytes × V}
      → above k m ≡ some f
      → Memᴰ f m × (le f.0 k ≡ false)
  unfolding above
  above_mem k [] e = cc
  above_mem k ((j, v) ∷ m) {f} e = elim (Bool-cases (le j k)) [
    | inl low ↦ let (m', h) = above_mem k m (rw (low, above) at e) in (Memᴰ.tail m', h)
    | inr high ↦
        let is : (j, v) ≡ f = some_of (rw (high, above) at e) in
        (Memᴰ.head (sym is), subst (λ x. le x.0 k ≡ false) is high)
  ]

  pub lookup_mem : (k : Bytes) (m : List (Bytes × V)) {v : V} → lookup k m ≡ some v → Memᴰ (k, v) m
  unfolding lookup
  lookup_mem k [] e = cc
  lookup_mem k ((j, w) ∷ m) {v} e = elim (Bool-cases (eqb j k)) [
    | inl same ↦
        let is : w ≡ v = some_of (rw (same, lookup) at e) in
        Memᴰ.head (λ i. (sym ((eqb_iff j k).0 same) i, sym is i))
    | inr other ↦ Memᴰ.tail (lookup_mem k m (rw (other, lookup) at e))
  ]
