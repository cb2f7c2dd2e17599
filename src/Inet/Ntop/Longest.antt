-- ===== src/Inet/Ntop/Longest.antt =====
-- The run of zeros that tor_inet_ntop (networking/add.c) leaves out.
use tor_onion.Common.{
  length-drop, drop-drop, ℕ, zero, suc, ◌+◌, ◌-◌, ◌≤◌, ◌<◌, ◌≡◌, refl, sym, ap, ◌∙◌, true, Option,
  none, some, List, [], ◌∷◌, ltb, leb, ◌==◌, if◌then◌else◌, length, drop, arith, Bool-cases, inl,
  inr, ◌⊎◌,
}
use tor_onion.Inet.Ntop.{zero_run, Gap, longer, search_gap, longest_gap}

-- How many zeros stand from a position on.
abbrev pub run_at : ℕ → List ℕ → ℕ
run_at j ws = zero_run (drop j ws)

zero_run-le : (ws : List ℕ) → zero_run ws ≤ length ws
unfolding zero_run
zero_run-le [] = omega arith
zero_run-le (w ∷ ws) = ground (arith, zero_run-le ws)

run_at-le : (k : ℕ) (ws : List ℕ) → k ≤ zero_run ws → run_at k ws ≤ zero_run ws
unfolding zero_run
run_at-le zero ws h = omega arith
run_at-le (suc k) [] h = omega arith
run_at-le (suc k) (w ∷ ws) h = ground (arith, run_at-le k ws)

drop_all : (n : ℕ) (s : List ℕ) → length s ≤ n → drop n s ≡ []
drop_all zero [] h = refl
drop_all zero (c ∷ s) h = absurd (omega arith)
drop_all (suc n) [] h = refl
drop_all (suc n) (c ∷ s) h = drop_all n s (omega arith)

run_within : (ws : List ℕ) (i j : ℕ) → i ≤ j → j ≤ i + run_at i ws → run_at j ws ≤ run_at i ws
run_within ws i j le inside =
    let place : i + (j - i) ≡ j = omega arith in
    let there : drop (j - i) (drop i ws) ≡ drop j ws =
      drop-drop (j - i) i ws ∙ ap (λ k. drop k ws) place in
    rw (← there) (run_at-le (j - i) (drop i ws) (omega arith))

-- What is known of the longest gap before position `i`, against the run at `j`.
abbrev At : List ℕ → ℕ → ℕ → Option ℕ → Type 0
At ws j len none = len ≡ 0
At ws j len (some p) = (run_at p ws ≡ len) × (j < p → run_at j ws < len)

record Holds (ws : List ℕ) (j : ℕ) (g : Gap) (i : ℕ) : Type 0 where
  bound : j < i → run_at j ws ≤ g.longest_len
  place : At ws j g.longest_len g.longest_pos

lt_of : {a b : ℕ} → ltb a b ≡ true → a < b
lt_of e = ground arith

bound_later : (ws : List ℕ) (j i n : ℕ) → run_at i ws ≡ n → i ≤ j → j < i + n → run_at j ws ≤ n
bound_later ws j i n run le lt = omega (arith, run_within ws i j)

longer_lem :
    (ws : List ℕ) (j i n : ℕ) (g : Gap)
    → Holds ws j g i
    → run_at i ws ≡ n
    → Holds ws j (longer i n g) (i + n)
longer_lem ws j i n g h run = elim (Bool-cases (ltb g.longest_len n)) [
  | inl e ↦ rw e (record {
    bound = λ lt. elim (Bool-cases (ltb j i)) [
      | inl e' ↦
          let b : run_at j ws ≤ g.longest_len = h.bound (lt_of e') in
          let l : g.longest_len < n = lt_of e in let r : run_at j ws ≤ n = omega arith in r
      | inr after ↦ bound_later ws j i n run (ground arith) lt
    ];
    place = (run, λ lt. grind (arith, h.bound lt));
  })
  | inr e ↦ rw e (record {
    bound = λ lt. elim (Bool-cases (ltb j i)) [
      | inl e' ↦ h.bound (lt_of e')
      | inr after ↦
          let b : run_at j ws ≤ n = bound_later ws j i n run (ground arith) lt in ground arith
    ];
    place = h.place;
  })
]

others_lem :
    (ws : List ℕ) (j i : ℕ) (g : Gap) → Holds ws j g i → run_at i ws ≡ 0 → Holds ws j g (i + 1)
others_lem ws j i g h run = record {
  bound = λ lt. elim (Bool-cases (ltb j i)) [
    | inl e' ↦ h.bound (lt_of e')
    | inr after ↦
        let here : j ≡ i = ground arith in
        let b : run_at j ws ≡ 0 = ap (λ k. run_at k ws) here ∙ run in omega arith
  ];
  place = h.place;
}

ended :
    (ws : List ℕ) (j i : ℕ) (g : Gap) → [] ≡ drop i ws → Holds ws j g i → Holds ws j g (length ws)
ended ws j i g e h =
    let all_read : 0 ≡ length ws - i = ap length e ∙ length-drop i ws in
    record { bound = λ lt. h.bound (omega arith); place = h.place }

search_gap_lem :
    (ws : List ℕ) (j fuel i : ℕ) (rest : List ℕ) (g : Gap)
    → rest ≡ drop i ws
    → length rest ≤ fuel
    → Holds ws j g i
    → Holds ws j (search_gap fuel i rest g) (length ws)
unfolding search_gap zero_run
search_gap_lem ws j zero i [] g e room h = ended ws j i g e h
search_gap_lem ws j zero i (w ∷ rest) g e room h = absurd (omega arith)
search_gap_lem ws j (suc fuel) i [] g e room h = ended ws j i g e h
search_gap_lem ws j (suc fuel) i (w ∷ rest) g e room h = elim (Bool-cases (w == 0)) [
  | inl zeros ↦
      let n = zero_run rest in
      let run : run_at i ws ≡ suc n = ap zero_run (sym e) ∙ (rw zeros refl) in
      let next : drop n rest ≡ drop (i + suc n) ws = ap (drop (suc n)) e ∙ drop-drop (suc n) i ws in
      rw zeros (
        search_gap_lem ws j fuel (i + suc n) (drop n rest) _ next
          (omega (arith, length-drop n rest)) (longer_lem ws j i (suc n) g h run))
  | inr other ↦
      let run : run_at i ws ≡ 0 = ap zero_run (sym e) ∙ (rw other refl) in
      let next : rest ≡ drop (i + 1) ws = ap (drop 1) e ∙ drop-drop 1 i ws in
      rw other
        (search_gap_lem ws j fuel (i + 1) rest g next (omega arith) (others_lem ws j i g h run))
]

-- The run of zeros at `j` against the gap that is left out.
abbrev pub IsLongest : List ℕ → ℕ → Option ℕ → Type 0
IsLongest ws j none = run_at j ws ≤ 1
IsLongest ws j (some p) =
    (2 ≤ run_at p ws) × (run_at j ws ≤ run_at p ws) × ((p ≤ j) ⊎ (run_at j ws < run_at p ws))

run_at-outside : (ws : List ℕ) (j : ℕ) → length ws ≤ j → run_at j ws ≡ 0
unfolding zero_run
run_at-outside ws j h = ap zero_run (drop_all j ws h)

chosen :
    (ws : List ℕ) (j len : ℕ) (pos : Option ℕ)
    → run_at j ws ≤ len
    → At ws j len pos
    → IsLongest ws j (if leb len 1 then none else pos)
chosen ws j len pos b place = elim (Bool-cases (leb len 1)) [
  | inl e ↦ rw e (ground arith)
  | inr e ↦ rw e (of (ground arith) pos place)
]
  where
    of : 2 ≤ len → (q : Option ℕ) → At ws j len q → IsLongest ws j q
    of two none z = omega arith
    of two (some p) (run, earlier) = elim (Bool-cases (ltb j p)) [
      | inl before ↦
          let lt : run_at j ws < len = earlier (lt_of before) in
          (omega arith, omega arith, inr (omega arith))
      | inr after ↦ (omega arith, omega arith, inl (ground arith))
    ]

-- The gap that tor_inet_ntop leaves out, against the run of zeros at any position: if there is one, it
-- has at least two words, no run is longer, and every run as long starts at it or after it; if there
-- is none, no run has two words.
pub longest_gap_lem : (ws : List ℕ) (j : ℕ) → IsLongest ws j (longest_gap ws)
unfolding longest_gap
longest_gap_lem ws j =
    let start : Gap = record { longest_len = 0; longest_pos = none } in
    let h =
      search_gap_lem ws j (length ws) 0 ws start refl (omega arith)
        (record { bound = λ lt. omega arith; place = refl }) in
    let g = search_gap (length ws) 0 ws start in
    chosen ws j g.longest_len g.longest_pos
      (elim (Bool-cases (ltb j (length ws))) [
        | inl inside ↦ h.bound (lt_of inside)
        | inr outside ↦ omega (arith, run_at-outside ws j (ground arith))
      ])
      h.place
