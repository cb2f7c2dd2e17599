-- ===== src/Inet/Pton/Texts.antt =====
-- Positions in the text that tor_inet_pton (networking/add.c) reads.
use tor_onion.Common.{ℕ, zero, suc, ◌+◌, ◌≡◌, List, [], ◌∷◌, arith, drop}
use tor_onion.Inet.Pton.{char_at}

pub char_at-drop : (n i : ℕ) (s : List ℕ) → char_at i (drop n s) ≡ char_at (n + i) s
char_at-drop zero i s = ground arith
char_at-drop (suc n) i [] = ground arith
char_at-drop (suc n) i (c ∷ s) =
    let e : suc n + i ≡ suc (n + i) = omega arith in rw e (char_at-drop n i s)
