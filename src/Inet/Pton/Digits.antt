-- ===== src/Inet/Pton/Digits.antt =====
-- How much strtol takes of a text, in tor_inet_pton (networking/add.c).
use tor_onion.Common.{
  ℕ, zero, suc, ◌+◌, ◌*◌, ◌≤◌, ◌<◌, ◌≡◌, refl, true, false, List, [], ◌∷◌, arith, length, drop,
  Bool-cases, inl, inr,
}
use native.Mathlib.Nat.{mul-le-mul}
use tor_onion.Inet.Pton.{is_xdigit, digit_value, read_digits, has_prefix, strtol16, char_at}

-- What a run of digits takes: it ends before every ':', and its value is bounded by its length.
abbrev pub sixteens : ℕ → ℕ
sixteens zero = 1
sixteens (suc k) = 16 * sixteens k

sixteens_pos : (k : ℕ) → 0 < sixteens k
sixteens_pos zero = omega arith
sixteens_pos (suc k) = omega (arith, sixteens_pos k)

record Taken (s : List ℕ) (r : ℕ) (next : List ℕ) (n : ℕ) : Type 0 where
  pub count : ℕ
  pub rest : next ≡ drop count s
  pub within : count ≤ length s
  pub before_colon : (j : ℕ) → char_at j s ≡ 58 → count ≤ j
  pub bounded : r < (n + 1) * sixteens count

digit_value-lt : (c : ℕ) → is_xdigit c ≡ true → (digit_value c < 16) × (c ≡ 58 → ⊥)
unfolding is_xdigit digit_value
digit_value-lt c e = ground arith

shift_colon :
    (c : ℕ) (cs : List ℕ) (k : ℕ)
    → (c ≡ 58 → ⊥)
    → ((j : ℕ) → char_at j cs ≡ 58 → k ≤ j)
    → (j : ℕ) → char_at j (c ∷ cs) ≡ 58
    → suc k ≤ j
shift_colon c cs k apart h zero e = absurd (apart e)
shift_colon c cs k apart h (suc j) e = omega (arith, h j e)

one_more : (n d p : ℕ) → d < 16 → (n * 16 + d + 1) * p ≤ (n + 1) * (16 * p)
one_more n d p h = grind (arith, mul-le-mul)

read_digits_lem : (n : ℕ) (s : List ℕ) → Taken s (read_digits n s).0 (read_digits n s).1 n
unfolding read_digits
read_digits_lem n [] = record {
  count = 0;
  rest = refl;
  within = omega arith;
  before_colon = λ j e. omega arith;
  bounded = omega arith;
}
read_digits_lem n (c ∷ cs) = elim (Bool-cases (is_xdigit c)) [
  | inl yes_digit ↦
      let ih = read_digits_lem (n * 16 + digit_value c) cs in
      let (small, apart) = digit_value-lt c yes_digit in
      rw yes_digit (record {
        count = suc ih.count;
        rest = ih.rest;
        within = omega (arith, ih.within);
        before_colon = shift_colon c cs ih.count apart ih.before_colon;
        bounded = omega (arith, ih.bounded, one_more n (digit_value c) (sixteens ih.count) small);
      })
  | inr other ↦ rw other (record {
    count = 0;
    rest = refl;
    within = omega arith;
    before_colon = λ j e. omega arith;
    bounded = omega arith;
  })
]

-- What strtol takes: fewer characters than stand before any ':', and a value that is bounded by their
-- count unless a prefix "0x" is taken too.
pub record Read (s : List ℕ) (r : ℕ) (next : List ℕ) : Type 0 where
  pub count : ℕ
  pub rest : next ≡ drop count s
  pub within : count ≤ length s
  pub before_colon : (j : ℕ) → char_at j s ≡ 58 → count ≤ j
  pub bounded : (has_prefix s ≡ false) → r < sixteens count
  pub prefixed : (has_prefix s ≡ true) → (2 ≤ count) × (is_xdigit (char_at 1 s) ≡ false)

prefixed_colon :
    (z x : ℕ) (cs : List ℕ) (k : ℕ)
    → (z ≡ 58 → ⊥)
    → (x ≡ 58 → ⊥)
    → ((j : ℕ) → char_at j cs ≡ 58 → k ≤ j)
    → (j : ℕ) → char_at j (z ∷ x ∷ cs) ≡ 58
    → suc (suc k) ≤ j
prefixed_colon z x cs k p q h j e =
    omega (arith, shift_colon z (x ∷ cs) (suc k) p (shift_colon x cs k q h) j e)

prefix_lem :
    (z x : ℕ) (cs : List ℕ)
    → has_prefix (z ∷ x ∷ cs) ≡ true
    → (is_xdigit x ≡ false) × (z ≡ 58 → ⊥) × (x ≡ 58 → ⊥)
unfolding is_xdigit
prefix_lem z x [] e = cc
prefix_lem z x (d ∷ cs) e = ground arith

strtol16_prefix : (s : List ℕ) → has_prefix s ≡ true → Read s (strtol16 s).0 (strtol16 s).1
unfolding strtol16
strtol16_prefix [] e = cc
strtol16_prefix (z ∷ []) e = cc
strtol16_prefix (z ∷ x ∷ cs) e =
    let t = read_digits_lem 0 cs in
    let (x_other, z_apart, x_apart) = prefix_lem z x cs e in
    rw e (record {
      count = suc (suc t.count);
      rest = t.rest;
      within = omega (arith, t.within);
      before_colon = prefixed_colon z x cs t.count z_apart x_apart t.before_colon;
      bounded = λ f. cc;
      prefixed = λ f. (omega arith, x_other);
    })

pub strtol16_lem : (s : List ℕ) → Read s (strtol16 s).0 (strtol16 s).1
unfolding strtol16
strtol16_lem s = elim (Bool-cases (has_prefix s)) [
  | inr plain ↦
      let t = read_digits_lem 0 s in
      rw plain (record {
        count = t.count;
        rest = t.rest;
        within = t.within;
        before_colon = t.before_colon;
        bounded = λ e. omega (arith, t.bounded);
        prefixed = λ e. cc;
      })
  | inl prefix ↦ strtol16_prefix s prefix
]
