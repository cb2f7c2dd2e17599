-- ===== src/SimplePrime/Division.antt =====
-- Divisors of a number (for simple_prime.cpp).
use tor_onion.Common.{
  ℕ, zero, suc, ◌*◌, ◌/◌, ◌%◌, ◌≤◌, ◌<◌, ◌≡◌, ◌≢◌, ap, ltb, Bool-cases, inl, inr, ltb→lt,
  ltb-false→le, arith, ◌∙◌,
}
use native.Mathlib.Nat.{mul-le-mul, div-add-mod, mul-mod_left}

-- `n` is at least 2 and nothing strictly between 1 and `n` divides it.
unfoldable pub IsPrime : ℕ → Type 0
IsPrime n = (2 ≤ n) × ((d : ℕ) → 2 ≤ d → d < n → n % d ≢ 0)

-- Nothing from 2 up to `i`, which is left out, divides `n`.
abbrev pub NoneBelow : ℕ → ℕ → Type 0
NoneBelow n i = (d : ℕ) → 2 ≤ d → d < i → n % d ≢ 0

pub cofactor : (n d : ℕ) → n % d ≡ 0 → n ≡ d * (n / d)
cofactor n d e = omega (arith, div-add-mod n d)

pub even_divisor : (n d : ℕ) → d % 2 ≡ 0 → n % d ≡ 0 → n % 2 ≡ 0
even_divisor n d h e =
    let two : d ≡ 2 * (d / 2) = omega arith in
    let product : n ≡ (2 * (d / 2)) * (n / d) = cofactor n d e ∙ ap (λ x. x * (n / d)) two in
    omega (arith, product)

pub three_divisor : (n d : ℕ) → d % 3 ≡ 0 → n % d ≡ 0 → n % 3 ≡ 0
three_divisor n d h e =
    let three : d ≡ 3 * (d / 3) = omega arith in
    let product : n ≡ (3 * (d / 3)) * (n / d) = cofactor n d e ∙ ap (λ x. x * (n / d)) three in
    omega (arith, product)

-- The cofactor of a proper divisor is one too.
cofactor_divides : (n d : ℕ) → n % d ≡ 0 → n % (n / d) ≡ 0
cofactor_divides n d e = ap (λ x. x % (n / d)) (cofactor n d e) ∙ mul-mod_left d (n / d)

factor_proper : (n d q : ℕ) → 2 ≤ n → d < n → n ≡ d * q → 2 ≤ q
factor_proper n d zero two less e = omega arith
factor_proper n d (suc zero) two less e = omega arith
factor_proper n d (suc (suc q)) two less e = omega arith

cofactor_proper : (n d : ℕ) → 2 ≤ n → d < n → n % d ≡ 0 → 2 ≤ n / d
cofactor_proper n d two less e = factor_proper n d (n / d) two less (cofactor n d e)

-- Without a divisor below a root there is none.
pub root_suffices : (n i : ℕ) → 2 ≤ n → n < i * i → NoneBelow n i → IsPrime n
unfolding IsPrime
root_suffices n i two root free = (two, none_at)
  where
    none_at : (d : ℕ) → 2 ≤ d → d < n → n % d ≢ 0
    none_at d low less e = elim (Bool-cases (ltb d i)) [
      | inl small ↦ free d low (ltb→lt d i small) e
      | inr large ↦
          let above = ltb-false→le d i large in
          elim (Bool-cases (ltb (n / d) i)) [
            | inl small ↦
                free (n / d) (cofactor_proper n d two less e) (ltb→lt (n / d) i small)
                  (cofactor_divides n d e)
            | inr big ↦
                let square = mul-le-mul above (ltb-false→le (n / d) i big) in
                omega (arith, square, cofactor n d e)
          ]
    ]
