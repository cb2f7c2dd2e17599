-- ===== src/SimplePrime/Overflow.antt =====
-- isprime of simple_prime.cpp on the ints whose root is above the last square that is an int.
use tor_onion.Common.{
  ℕ, zero, suc, ◌+◌, ◌*◌, ◌%◌, ◌≤◌, ◌≡◌, refl, ◌⊎◌, Bool, true, false, ◌||◌, ◌==◌, ltb, leb,
  Bool-cases, inl, inr, arith, ltb-false→le, ltb→lt,
}
use native.Mathlib.Nat.{mul-le-mul}
use tor_onion.Common.Int.{pos, int_max}
use tor_onion.SimplePrime.{Outcome, answer, overflow, divisor_loop, is_prime}
use tor_onion.SimplePrime.Correct.{last_root}

-- No answer, or the answer that the number is not prime.
abbrev pub NeverTrue : Outcome Bool → Type 0
NeverTrue r = (r ≡ answer false) ⊎ (r ≡ overflow)

module _ (num : ℕ) (large : last_root * last_root ≤ num) where
  loop-NeverTrue :
      (fuel i : ℕ)
      → i ≤ last_root + 6
      → i % 6 ≡ 5
      → 6 * num ≤ i + 6 * fuel
      → NeverTrue (divisor_loop fuel num i)
  unfolding divisor_loop
  loop-NeverTrue zero i root wheel enough = let bad : zero ≡ suc zero = omega arith in cc bad
  loop-NeverTrue (suc fuel) i root wheel enough = elim (Bool-cases (ltb last_root i)) [
    | inl past ↦
        let beyond : 46343 ≤ i = omega (arith, ltb→lt last_root i past) in
        let square : 46343 * 46343 ≤ i * i = mul-le-mul beyond beyond in
        let out : ltb int_max (i * i) ≡ true = ground (arith, square) in inr (rw out refl)
    | inr within ↦
        let low : i ≤ last_root = ltb-false→le last_root i within in
        let square : i * i ≤ last_root * last_root = mul-le-mul low low in
        let safe : ltb int_max (i * i) ≡ false = ground (arith, square) in
        let more : ltb num (i * i) ≡ false = ground (arith, square, large) in
        let fits : ltb int_max (i + 6) ≡ false = ground (arith, low) in
        elim (Bool-cases ((num % i == 0) || (num % (i + 2) == 0))) [
          | inl divides ↦ rw (safe, more, divides) (inl refl)
          | inr goes_on ↦
              rw (safe, more, goes_on, fits)
                (loop-NeverTrue fuel (i + 6) (omega (arith, low)) (omega arith) (omega arith))
        ]
  ]

-- From the square of 46337 on, isprime never answers true: it finds a divisor, or it computes a
-- square that is no int. So no prime in that range of ints is recognised.
pub large_never_prime : (num : ℕ) → last_root * last_root ≤ num → NeverTrue (is_prime (pos num))
unfolding is_prime
large_never_prime num large =
    let above_one : leb num 1 ≡ false = ground arith in
    let above_three : leb num 3 ≡ false = ground arith in
    elim (Bool-cases ((num % 2 == 0) || (num % 3 == 0))) [
      | inl divides ↦ rw (above_one, above_three, divides) (inl refl)
      | inr goes_on ↦
          rw (above_one, above_three, goes_on)
            (loop-NeverTrue num large num 5 (omega arith) (omega arith) (omega arith))
    ]
