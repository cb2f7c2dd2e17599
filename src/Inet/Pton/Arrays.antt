-- ===== src/Inet/Pton/Arrays.antt =====
-- The array of tor_inet_pton's words (networking/add.c), and what moves in it.
use tor_onion.Common.{
  length-drop, ℕ, zero, suc, ◌+◌, ◌-◌, ◌≤◌, ◌<◌, ◌^◌, ◌≡◌, refl, ap, List, [], ◌∷◌, ◌++◌, arith,
  length, length-append, take, drop, All, All-append, min,
}
use tor_onion.Inet.Pton.{replicate, move_words, clear_words, word_array}

length-replicate : (n x : ℕ) → length (replicate n x) ≡ n
unfolding replicate
length-replicate zero x = refl
length-replicate (suc n) x = ap suc (length-replicate n x)

All-replicate : (n x : ℕ) → x < 2 ^ 16 → All (λ w. w < 2 ^ 16) (replicate n x)
unfolding replicate
All-replicate zero x h = tt
All-replicate (suc n) x h = (h, All-replicate n x h)

All-take : (n : ℕ) (ws : List ℕ) → All (λ w. w < 2 ^ 16) ws → All (λ w. w < 2 ^ 16) (take n ws)
All-take zero ws h = tt
All-take (suc n) [] h = tt
All-take (suc n) (w ∷ ws) h = (h.0, All-take n ws h.1)

All-drop : (n : ℕ) (ws : List ℕ) → All (λ w. w < 2 ^ 16) ws → All (λ w. w < 2 ^ 16) (drop n ws)
All-drop zero ws h = h
All-drop (suc n) [] h = tt
All-drop (suc n) (w ∷ ws) h = All-drop n ws h.1

length-take : (n : ℕ) (ws : List ℕ) → length (take n ws) ≡ min n (length ws)
length-take zero ws = omega arith
length-take (suc n) [] = omega arith
length-take (suc n) (w ∷ ws) = omega (arith, length-take n ws)

-- Eight words of 16 bits.
abbrev pub IsAddress : List ℕ → Type 0
IsAddress ws = (length ws ≡ 8) × All (λ w. w < 2 ^ 16) ws

pub word_array-IsAddress :
    (ws dotted : List ℕ)
    → length ws + length dotted ≤ 8
    → All (λ w. w < 2 ^ 16) ws
    → All (λ w. w < 2 ^ 16) dotted
    → IsAddress (word_array ws dotted)
unfolding word_array
word_array-IsAddress ws dotted n h k =
    let junk = replicate (8 - length ws - length dotted) 0xf8f8 in
    (
      omega (
        arith,
        length-append ws (junk ++ dotted),
        length-append junk dotted,
        length-replicate (8 - length ws - length dotted) 0xf8f8,
      ),
      All-append _ ws (junk ++ dotted) h
          (All-append _ junk dotted (All-replicate _ 0xf8f8 (omega arith)) k),
    )

pub move_words-IsAddress :
    (to from n : ℕ) (ws : List ℕ)
    → from ≤ to
    → to + n ≤ 8
    → IsAddress ws
    → IsAddress (move_words to from n ws)
unfolding move_words
move_words-IsAddress to from n ws le inside (len, small) = (
  omega (
    arith,
    length-append (take to ws) (take n (drop from ws) ++ drop (to + n) ws),
    length-append (take n (drop from ws)) (drop (to + n) ws),
    length-take to ws,
    length-take n (drop from ws),
    length-drop from ws,
    length-drop (to + n) ws,
  ),
  All-append _ (take to ws) _ (All-take to ws small) (
      All-append _ (take n (drop from ws)) _ (All-take n _ (All-drop from ws small))
        (All-drop (to + n) ws small)),
)

pub clear_words-IsAddress :
    (from n : ℕ) (ws : List ℕ) → from + n ≤ 8 → IsAddress ws → IsAddress (clear_words from n ws)
unfolding clear_words
clear_words-IsAddress from n ws inside (len, small) = (
  omega (
    arith,
    length-append (take from ws) (replicate n 0 ++ drop (from + n) ws),
    length-append (replicate n 0) (drop (from + n) ws),
    length-take from ws,
    length-replicate n 0,
    length-drop (from + n) ws,
  ),
  All-append _ (take from ws) _ (All-take from ws small) (
      All-append _ (replicate n 0) _ (All-replicate n 0 (omega arith))
        (All-drop (from + n) ws small)),
)
