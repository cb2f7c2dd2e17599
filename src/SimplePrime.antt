-- ===== src/SimplePrime.antt =====
-- isprime of simple_prime.cpp: trial division by the numbers next to the multiples of six. An int that
-- leaves its 32 bits has overflowed, which C++ leaves undefined.
pub mod Division
pub mod Correct
pub mod Overflow
mod Tests
use tor_onion.Common.{
  ℕ, zero, suc, ◌+◌, ◌-◌, ◌*◌, ◌%◌, ◌^◌, ◌≡◌, Bool, true, false, ◌||◌, ltb, leb, ◌==◌,
  if◌then◌else◌,
}
use tor_onion.Common.Int.{ℤ, pos, negsuc, int_max}

-- How a computation with ints ends. Fuel runs out only in the model.
pub data Outcome {ℓ} (A : Type ℓ) : Type ℓ where
  answer : A → Outcome A
  overflow out_of_fuel : Outcome A

-- The loop from `i` on.
pub divisor_loop : ℕ → ℕ → ℕ → Outcome Bool
divisor_loop zero num i = out_of_fuel
divisor_loop (suc fuel) num i =
    let rest = divisor_loop fuel num (i + 6) in
    if ltb int_max (i * i)
    then overflow
    else if ltb num (i * i)
    then answer true
    else if (num % i == 0) || (num % (i + 2) == 0)
    then answer false
    else if ltb int_max (i + 6)
    then overflow
    else rest

pub is_prime : ℤ → Outcome Bool
unfolding divisor_loop
is_prime (negsuc n) = answer false
is_prime (pos num) =
    if leb num 1
    then answer false
    else if leb num 3
    then answer true
    else if (num % 2 == 0) || (num % 3 == 0)
    then answer false
    else divisor_loop num num 5
