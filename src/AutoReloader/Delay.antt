-- ===== src/AutoReloader/Delay.antt =====
-- The table of delays of muim/error_loader.cpp.
use tor_onion.Common.{ℕ, zero, suc, ◌+◌, ◌-◌, ◌≤◌, ◌≡◌, min, arith}
use native.Mathlib.Nat.{add-zero, add-suc}
use tor_onion.AutoReloader.{get_next_reload_delay}

delay_late : (n : ℕ) → 6 ≤ n → get_next_reload_delay n ≡ 1800
unfolding get_next_reload_delay
delay_late n h = let e : min n 6 ≡ 6 = omega arith in rw e

-- One more reload, and the range.
delay_step :
    (n : ℕ)
    → (get_next_reload_delay n ≤ get_next_reload_delay (suc n))
      × (1 ≤ get_next_reload_delay n)
      × (get_next_reload_delay n ≤ 1800)
unfolding get_next_reload_delay
delay_step zero = omega arith
delay_step (suc zero) = omega arith
delay_step (suc (suc zero)) = omega arith
delay_step (suc (suc (suc zero))) = omega arith
delay_step (suc (suc (suc (suc zero)))) = omega arith
delay_step (suc (suc (suc (suc (suc zero))))) = omega arith
delay_step (suc (suc (suc (suc (suc (suc k)))))) =
    let m : ℕ = suc (suc (suc (suc (suc (suc k))))) in
    omega (arith, delay_late m (omega arith), delay_late (suc m) (omega arith))

-- The delay never falls as reloads fail, and always lies between a second and half an hour.
pub delay_grows :
    (m n : ℕ)
    → m ≤ n
    → (get_next_reload_delay m ≤ get_next_reload_delay n)
      × (1 ≤ get_next_reload_delay m)
      × (get_next_reload_delay m ≤ 1800)
delay_grows m n h =
    let go = climb m (n - m) in
    let e : m + (n - m) ≡ n = omega arith in (rw e at go, (delay_step m).1, (delay_step m).2)
  where
    climb : (m k : ℕ) → get_next_reload_delay m ≤ get_next_reload_delay (m + k)
    climb m zero = rw add-zero (omega arith)
    climb m (suc k) = rw add-suc (omega (arith, climb m k, delay_step (m + k)))
