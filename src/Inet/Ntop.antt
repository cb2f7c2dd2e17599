-- ===== src/Inet/Ntop.antt =====
-- networking/add.c: tor_inet_ntop for AF_INET6. tor_snprintf is not in the repository: `hex` and `dec` are
-- what it prints for "%x" and "%d", and hold no 0.
pub mod Longest
pub mod Room
use tor_onion.Common.{
  ℕ, zero, suc, ◌+◌, ◌*◌, ◌%◌, ◌^◌, Bool, true, false, not, ◌&&◌, ◌||◌, Option, none, some, List,
  [], ◌∷◌, ◌++◌, ltb, leb, ◌==◌, if◌then◌else◌, length, drop,
}

-- words[i], of two bytes each.
unfoldable pub words_of : List ℕ → List ℕ
words_of (a ∷ b ∷ bs) = (a * 256 + b) % 2 ^ 16 ∷ words_of bs
words_of _ = []

-- `while (i < 8 && words[i] == 0) ++i;`: how far it goes.
pub zero_run : List ℕ → ℕ
zero_run [] = 0
zero_run (w ∷ ws) = let n = zero_run ws in if w == 0 then suc n else 0

pub record Gap : Type 0 where
  pub longest_len : ℕ
  pub longest_pos : Option ℕ

-- The gap at `i` of `n` zeros, against the longest one so far.
abbrev pub longer : ℕ → ℕ → Gap → Gap
longer i n g = if ltb g.longest_len n then record { longest_len = n; longest_pos = some i } else g

-- The loop over the words from `i` on, on fuel; each turn takes a word.
pub search_gap : ℕ → ℕ → List ℕ → Gap → Gap
unfolding zero_run
search_gap zero i ws g = g
search_gap (suc fuel) i [] g = g
search_gap (suc fuel) i (w ∷ ws) g =
    let n = zero_run ws in
    let zeros = search_gap fuel (i + suc n) (drop n ws) (longer i (suc n) g) in
    let others = search_gap fuel (i + 1) ws g in if w == 0 then zeros else others

-- longestGapPos after the loop.
pub longest_gap : List ℕ → Option ℕ
unfolding search_gap
longest_gap ws =
    let g = search_gap (length ws) 0 ws (record { longest_len = 0; longest_pos = none }) in
    if leb g.longest_len 1 then none else g.longest_pos

abbrev pub is_pos : ℕ → Option ℕ → Bool
is_pos i none = false
is_pos i (some p) = p == i

-- An address that holds one of 32 bits, in its last two words.
abbrev pub holds_ipv4 : List ℕ → Bool
holds_ipv4 (w0 ∷ w1 ∷ w2 ∷ w3 ∷ w4 ∷ w5 ∷ w6 ∷ w7 ∷ []) =
    (w0 == 0)
    && (w1 == 0)
    && (w2 == 0)
    && (w3 == 0)
    && (w4 == 0)
    && (((w5 == 0) && not (w6 == 0) && not (w7 == 0)) || (w5 == 0xffff))
holds_ipv4 _ = false

-- words[5].
abbrev pub word_5 : List ℕ → ℕ
word_5 (w0 ∷ w1 ∷ w2 ∷ w3 ∷ w4 ∷ w5 ∷ ws) = w5
word_5 _ = 0

module _ (hex : ℕ → List ℕ) where
  -- The loop that prints the words from `i` on, on fuel.
  pub print_words : Option ℕ → ℕ → ℕ → List ℕ → List ℕ
  unfolding zero_run
  print_words gap zero i ws = []
  print_words gap (suc fuel) i [] = []
  print_words gap (suc fuel) i (w ∷ ws) =
      let n = zero_run ws in
      let after_gap = print_words gap fuel (i + suc n) (drop n ws) in
      let after_word = print_words gap fuel (i + 1) ws in
      if (w == 0) && is_pos i gap
      then (if i == 0 then b':' ∷ b':' ∷ [] else b':' ∷ []) ++ after_gap
      else hex w ++ ((if i == 7 then [] else b':' ∷ []) ++ after_word)

module _ (dec : ℕ → List ℕ) where
  -- The last four bytes, with dots between them.
  pub print_dotted : List ℕ → List ℕ
  print_dotted (a ∷ b ∷ c ∷ d ∷ []) = dec a ++ (b'.' ∷ dec b ++ (b'.' ∷ dec c ++ (b'.' ∷ dec d)))
  print_dotted _ = []

module _ (hex dec : ℕ → List ℕ) where
  -- `buf`, of the 16 bytes of an address.
  pub print_address : List ℕ → List ℕ
  unfolding words_of longest_gap print_words print_dotted
  print_address bytes =
      let ws = words_of bytes in
      if holds_ipv4 ws
      then (if word_5 ws == 0
          then b':' ∷ b':' ∷ print_dotted dec (drop 12 bytes)
          else b':' ∷ b':' ∷ hex (word_5 ws) ++ (b':' ∷ print_dotted dec (drop 12 bytes)))
      else print_words hex (longest_gap ws) (length ws) 0 ws

  -- The text in `dst`, which has room for `len` bytes; none is NULL.
  unfoldable pub tor_inet_ntop6 : List ℕ → ℕ → Option (List ℕ)
  unfolding print_address
  tor_inet_ntop6 bytes len =
      let buf = print_address bytes in if ltb len (length buf + 1) then none else some buf
