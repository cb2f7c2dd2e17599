-- ===== src/SimplePrime/Tests.antt =====
-- isprime of simple_prime.cpp at small numbers.
use tor_onion.Common.{◌≡◌, refl, true, false, arith}
use tor_onion.Common.Int.{pos, negsuc}
use tor_onion.SimplePrime.{answer, is_prime}
use tor_onion.SimplePrime.Overflow.{NeverTrue, large_never_prime}
use tor_onion.SimplePrime.Correct.{Decides, is_prime_correct}

is_prime_correct_example : Decides 35 (is_prime (pos 35))
is_prime_correct_example = is_prime_correct 35 (omega arith)

negative : is_prime (negsuc 6) ≡ answer false
unfolding is_prime
negative = refl

thirty_five : is_prime (pos 35) ≡ answer false
unfolding is_prime
thirty_five = refl

thirty_seven : is_prime (pos 37) ≡ answer true
unfolding is_prime
thirty_seven = refl

large_never_prime_example : NeverTrue (is_prime (pos 2147483645))
large_never_prime_example = large_never_prime 2147483645 (omega arith)
