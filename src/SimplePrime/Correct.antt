-- ===== src/SimplePrime/Correct.antt =====
-- isprime of simple_prime.cpp and primality, below the square of 46337.
use tor_onion.Common.{
  ℕ, zero, suc, ◌+◌, ◌*◌, ◌%◌, ◌≤◌, ◌<◌, ◌≡◌, ◌≢◌, ◌↔◌, refl, subst, Bool, true, false, ◌==◌, ltb,
  leb, Bool-cases, inl, inr, arith, ltb→lt, ltb-false→le, ==_iff, leb→le,
}
use native.Mathlib.Nat.{mul-le-mul}
use tor_onion.Common.Int.{pos, int_max}
use tor_onion.SimplePrime.{Outcome, answer, divisor_loop, is_prime}
use tor_onion.SimplePrime.Division.{IsPrime, NoneBelow, even_divisor, three_divisor, root_suffices}

-- The largest `i` of the loop whose square is an int.
abbrev pub last_root : ℕ
last_root = 46337

-- The outcome is an answer, and the right one.
abbrev pub Decides : ℕ → Outcome Bool → Type 0
Decides num r = (b : Bool) × (r ≡ answer b) × ((b ≡ true) ↔ IsPrime num)

-- A proper divisor.
divisor_refutes : (num d : ℕ) → 2 ≤ d → d < num → num % d ≡ 0 → (false ≡ true) ↔ IsPrime num
unfolding IsPrime
divisor_refutes num d low less e = (λ h. cc, λ p. elim (p.1 d low less e) [ ])

-- Of the six numbers only the two that are tried are neither even nor a multiple of 3.
other_tried :
    (i d : ℕ)
    → i % 6 ≡ 5
    → i ≤ d
    → d < i + 6
    → (d % 2 == 0) ≡ false
    → (d % 3 == 0) ≡ false
    → (d == i) ≡ false
    → d ≡ i + 2
other_tried i d wheel above less uneven other differs = ground arith

-- What the six numbers from `i` on need: two are tried, and the others have 2 or 3 as a factor.
wheel_step :
    (num i : ℕ)
    → i % 6 ≡ 5
    → num % 2 ≢ 0
    → num % 3 ≢ 0
    → num % i ≢ 0
    → num % (i + 2) ≢ 0
    → NoneBelow num i
    → NoneBelow num (i + 6)
wheel_step num i wheel odd three at_i at_next free d low less e = elim (Bool-cases (ltb d i)) [
  | inl small ↦ free d low (ltb→lt d i small) e
  | inr large ↦
      let above = ltb-false→le d i large in
      elim (Bool-cases (d % 2 == 0)) [
        | inl even ↦ odd (even_divisor num d ((==_iff (d % 2) 0).0 even) e)
        | inr uneven ↦ elim (Bool-cases (d % 3 == 0)) [
          | inl tripled ↦ three (three_divisor num d ((==_iff (d % 3) 0).0 tripled) e)
          | inr other ↦ elim (Bool-cases (d == i)) [
            | inl same ↦ at_i (subst (λ x. num % x ≡ 0) ((==_iff d i).0 same) e)
            | inr differs ↦
                at_next (
                  subst (λ x. num % x ≡ 0) (other_tried i d wheel above less uneven other differs)
                    e)
          ]
        ]
      ]
]

pub not_zero : (n : ℕ) → (n == 0) ≡ false → n ≢ 0
not_zero n h e = cc (rw e at h)

-- Below the last square the next step of the loop stays in range.
below_root : (i : ℕ) → i % 6 ≡ 5 → i ≤ last_root → i * i < last_root * last_root → i + 6 ≤ last_root
below_root i wheel root square = elim (Bool-cases (ltb i last_root)) [
  | inl small ↦ let less = ltb→lt i last_root small in omega (arith, less)
  | inr large ↦
      let high = ltb-false→le i last_root large in omega (arith, mul-le-mul high high, square)
]

module _ (num : ℕ) (odd : num % 2 ≢ 0) (three : num % 3 ≢ 0) where
  loop-Decides :
      (fuel i : ℕ)
      → 4 ≤ num
      → num < last_root * last_root
      → i ≤ last_root
      → i % 6 ≡ 5
      → 6 * num ≤ i + 6 * fuel
      → i ≤ num + 6
      → NoneBelow num i
      → Decides num (divisor_loop fuel num i)
  unfolding divisor_loop
  loop-Decides zero i big bound root wheel enough near free =
      let bad : zero ≡ suc zero = omega arith in cc bad
  loop-Decides (suc fuel) i big bound root wheel enough near free =
      let five : 5 ≤ i = omega arith in
      let square : i * i ≤ last_root * last_root = mul-le-mul root root in
      let wide : 5 * i ≤ i * i =
        mul-le-mul {n₁ = 5} {m₁ = i} {n₂ = i} {m₂ = i} five (omega arith) in
      let safe : ltb int_max (i * i) ≡ false = ground (arith, square) in
      let fits : ltb int_max (i + 6) ≡ false = ground arith in
      elim (Bool-cases (ltb num (i * i))) [
        | inl past ↦
            rw (safe, past)
              (
                true,
                refl,
                (
                  (λ h. root_suffices num i (omega arith) (ltb→lt num (i * i) past) free),
                  λ p. refl,
                ),
              )
        | inr within ↦
            let room : i * i ≤ num = ltb-false→le num (i * i) within in
            elim (Bool-cases (num % i == 0)) [
              | inl divides ↦
                  rw (safe, within, divides)
                    (
                      false,
                      refl,
                      divisor_refutes num i (omega arith) (omega (arith, wide, room))
                          ((==_iff (num % i) 0).0 divides),
                    )
              | inr no_i ↦ elim (Bool-cases (num % (i + 2) == 0)) [
                | inl divides ↦
                    rw (safe, within, no_i, divides)
                      (
                        false,
                        refl,
                        divisor_refutes num (i + 2) (omega arith) (omega (arith, wide, room))
                            ((==_iff (num % (i + 2)) 0).0 divides),
                      )
                | inr no_next ↦
                    rw (safe, within, no_i, no_next, fits)
                      (loop-Decides fuel (i + 6) big bound
                        (below_root i wheel root (omega (arith, room, bound))) (omega arith)
                        (omega arith) (omega (arith, wide, room))
                        (wheel_step num i wheel odd three (not_zero (num % i) no_i)
                          (not_zero (num % (i + 2)) no_next) free))
              ]
            ]
      ]

over : (n k : ℕ) → leb n k ≡ false → suc k ≤ n
over n k h = ground arith

small_refutes : (num : ℕ) → num ≤ 1 → (false ≡ true) ↔ IsPrime num
unfolding IsPrime
small_refutes num small =
    (λ h. cc, λ p. let two = p.0 in let bad : zero ≡ suc zero = omega (arith, two) in cc bad)

nothing_below_two : (num : ℕ) → NoneBelow num 2
nothing_below_two num d low less e = let bad : zero ≡ suc zero = omega arith in cc bad

nothing_below_five : (num : ℕ) → num % 2 ≢ 0 → num % 3 ≢ 0 → NoneBelow num 5
nothing_below_five num odd three d low less e = elim (Bool-cases (d % 2 == 0)) [
  | inl even ↦ odd (even_divisor num d ((==_iff (d % 2) 0).0 even) e)
  | inr uneven ↦ three (subst (λ x. num % x ≡ 0) (only_three d low less uneven) e)
]
  where
    only_three : (d : ℕ) → 2 ≤ d → d < 5 → (d % 2 == 0) ≡ false → d ≡ 3
    only_three d low less uneven = ground arith

-- For every number below the square of 46337, isprime returns an answer, so without an overflow and
-- within the fuel of the model, and the answer is true exactly for the primes.
pub is_prime_correct : (num : ℕ) → num < last_root * last_root → Decides num (is_prime (pos num))
unfolding is_prime
is_prime_correct num bound = elim (Bool-cases (leb num 1)) [
  | inl tiny ↦ rw tiny (false, refl, small_refutes num (leb→le num 1 tiny))
  | inr above_one ↦ elim (Bool-cases (leb num 3)) [
    | inl small ↦
        rw (above_one, small)
          (
            true,
            refl,
            (
              (λ h.
                  root_suffices num 2 (over num 1 above_one) (omega (arith, leb→le num 3 small))
                    (nothing_below_two num)),
              λ p. refl,
            ),
          )
    | inr large ↦
        let big = over num 3 large in
        elim (Bool-cases (num % 2 == 0)) [
          | inl even ↦
              rw (above_one, large, even)
                (
                  false,
                  refl,
                  divisor_refutes num 2 (omega arith) (omega (arith, big))
                      ((==_iff (num % 2) 0).0 even),
                )
          | inr odd ↦ elim (Bool-cases (num % 3 == 0)) [
            | inl tripled ↦
                rw (above_one, large, odd, tripled)
                  (
                    false,
                    refl,
                    divisor_refutes num 3 (omega arith) (omega (arith, big))
                        ((==_iff (num % 3) 0).0 tripled),
                  )
            | inr other ↦
                let no_two = not_zero (num % 2) odd in
                let no_three = not_zero (num % 3) other in
                rw (above_one, large, odd, other)
                  (loop-Decides num no_two no_three num 5 big bound (omega arith) (omega arith)
                    (omega arith) (omega (arith, big)) (nothing_below_five num no_two no_three))
          ]
        ]
  ]
]
