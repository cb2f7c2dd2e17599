-- ===== src/Inet/Ntop/Room.antt =====
-- How much of its buffer tor_inet_ntop (networking/add.c) writes.
use tor_onion.Common.{
  ℕ, zero, suc, ◌+◌, ◌*◌, ◌^◌, ◌≤◌, ◌<◌, Bool, true, false, ◌&&◌, Option, none, some, List, [], ◌∷◌,
  ◌++◌, ltb, ◌==◌, if◌then◌else◌, length, drop, arith, Bool-cases, inl, inr, All, length-append,
  length-drop,
}
use tor_onion.Inet.Ntop.{
  words_of, zero_run, longest_gap, is_pos, print_words, print_dotted, holds_ipv4, word_5,
  print_address, tor_inet_ntop6,
}

abbrev AllWords : List ℕ → Type 0
AllWords ws = All (λ w. w < 2 ^ 16) ws

AllWords-drop : (n : ℕ) (ws : List ℕ) → AllWords ws → AllWords (drop n ws)
AllWords-drop zero ws h = h
AllWords-drop (suc n) [] h = tt
AllWords-drop (suc n) (w ∷ ws) h = AllWords-drop n ws h.1

words_of-AllWords : (bs : List ℕ) → AllWords (words_of bs)
unfolding words_of
words_of-AllWords [] = tt
words_of-AllWords (a ∷ []) = tt
words_of-AllWords (a ∷ b ∷ bs) = (omega arith, words_of-AllWords bs)

length-words_of : (bs : List ℕ) → 2 * length (words_of bs) ≤ length bs
unfolding words_of
length-words_of [] = omega arith
length-words_of (a ∷ []) = omega arith
length-words_of (a ∷ b ∷ bs) = omega (arith, length-words_of bs)

word_5-lt : (ws : List ℕ) → AllWords ws → word_5 ws < 2 ^ 16
word_5-lt (a ∷ b ∷ c ∷ d ∷ e ∷ f ∷ ws) h = omega arith
word_5-lt (a ∷ b ∷ c ∷ d ∷ e ∷ []) h = omega arith
word_5-lt (a ∷ b ∷ c ∷ d ∷ []) h = omega arith
word_5-lt (a ∷ b ∷ c ∷ []) h = omega arith
word_5-lt (a ∷ b ∷ []) h = omega arith
word_5-lt (a ∷ []) h = omega arith
word_5-lt [] h = omega arith

-- What the caller gets, with room for `len` bytes.
abbrev pub HasRoom : ℕ → Option (List ℕ) → Type 0
HasRoom len none = len < 41
HasRoom len (some text) = (length text + 1 ≤ len) × (length text + 1 ≤ 41)

length-separator : (b : Bool) → length {A = ℕ} (if b then [] else 58 ∷ []) ≤ 1
length-separator true = omega arith
length-separator false = omega arith

length-gap : (b : Bool) → length {A = ℕ} (if b then 58 ∷ 58 ∷ [] else 58 ∷ []) ≤ 2
length-gap true = omega arith
length-gap false = omega arith

module _ (hex : ℕ → List ℕ) (hex_short : (w : ℕ) → w < 2 ^ 16 → length (hex w) ≤ 4) where
  print_words_lem :
      (gap : Option ℕ) (fuel i : ℕ) (ws : List ℕ)
      → AllWords ws
      → length (print_words hex gap fuel i ws) ≤ 5 * length ws
  unfolding print_words
  print_words_lem gap zero i ws h = omega arith
  print_words_lem gap (suc fuel) i [] h = omega arith
  print_words_lem gap (suc fuel) i (w ∷ ws) h = elim (Bool-cases ((w == 0) && is_pos i gap)) [
    | inl e ↦
        let rest = drop (zero_run ws) ws in
        let after = print_words hex gap fuel (i + suc (zero_run ws)) rest in
        rw e (
          omega (
            arith,
            length-append (if i == 0 then 58 ∷ 58 ∷ [] else 58 ∷ []) after,
            length-gap (i == 0),
            print_words_lem gap fuel (i + suc (zero_run ws)) rest
                (AllWords-drop (zero_run ws) ws h.1),
            length-drop (zero_run ws) ws,
          ))
    | inr e ↦
        let after = print_words hex gap fuel (i + 1) ws in
        let separator : List ℕ = if i == 7 then [] else 58 ∷ [] in
        rw e (
          omega (
            arith,
            length-append (hex w) (separator ++ after),
            length-append separator after,
            length-separator (i == 7),
            hex_short w h.0,
            print_words_lem gap fuel (i + 1) ws h.1,
          ))
  ]

module _ (dec : ℕ → List ℕ) (dec_short : (b : ℕ) → b < 256 → length (dec b) ≤ 3) where
  print_dotted_lem : (bs : List ℕ) → All (λ b. b < 256) bs → length (print_dotted dec bs) ≤ 15
  unfolding print_dotted
  print_dotted_lem [] h = omega arith
  print_dotted_lem (a ∷ []) h = omega arith
  print_dotted_lem (a ∷ b ∷ []) h = omega arith
  print_dotted_lem (a ∷ b ∷ c ∷ []) h = omega arith
  print_dotted_lem (a ∷ b ∷ c ∷ d ∷ []) (ha, (hb, (hc, (hd, _)))) = omega (
    arith,
    length-append (dec a) (46 ∷ dec b ++ (46 ∷ dec c ++ (46 ∷ dec d))),
    length-append (dec b) (46 ∷ dec c ++ (46 ∷ dec d)),
    length-append (dec c) (46 ∷ dec d),
    dec_short a ha,
    dec_short b hb,
    dec_short c hc,
    dec_short d hd,
  )
  print_dotted_lem (a ∷ b ∷ c ∷ d ∷ e ∷ bs) h = omega arith

All-drop_bytes : (n : ℕ) (bs : List ℕ) → All (λ b. b < 256) bs → All (λ b. b < 256) (drop n bs)
All-drop_bytes zero bs h = h
All-drop_bytes (suc n) [] h = tt
All-drop_bytes (suc n) (b ∷ bs) h = All-drop_bytes n bs h.1

-- What tor_snprintf prints of a word and of a byte.
module _ (hex dec : ℕ → List ℕ) (hex_short : (w : ℕ) → w < 2 ^ 16 → length (hex w) ≤ 4)
    (dec_short : (b : ℕ) → b < 256 → length (dec b) ≤ 3) where
  print_address_lem :
      (bytes : List ℕ)
      → All (λ b. b < 256) bytes
      → length bytes ≤ 16
      → length (print_address hex dec bytes) ≤ 40
  unfolding print_address
  print_address_lem bytes h short = elim (Bool-cases (holds_ipv4 (words_of bytes))) [
    | inr e ↦
        let ws = words_of bytes in
        rw e (
          omega (
            arith,
            length-words_of bytes,
            print_words_lem hex hex_short (longest_gap ws) (length ws) 0 ws
                (words_of-AllWords bytes),
          ))
    | inl e ↦ elim (Bool-cases (word_5 (words_of bytes) == 0)) [
      | inl f ↦
          rw (e, f)
            (omega
              (arith, print_dotted_lem dec dec_short (drop 12 bytes) (All-drop_bytes 12 bytes h)))
      | inr f ↦
          let w = word_5 (words_of bytes) in
          rw (e, f)
            (omega (
              arith,
              length-append (hex w) (58 ∷ print_dotted dec (drop 12 bytes)),
              hex_short w (word_5-lt (words_of bytes) (words_of-AllWords bytes)),
              print_dotted_lem dec dec_short (drop 12 bytes) (All-drop_bytes 12 bytes h),
            ))
    ]
  ]

  -- tor_inet_ntop for AF_INET6 writes at most 41 of its buffer's 64 bytes, and as many as it writes fit
  -- into what the caller has; the answer is NULL only if the caller has room for less than 41. It is
  -- assumed that tor_snprintf prints a word of 16 bits with at most four digits and a byte with at
  -- most three.
  pub tor_inet_ntop6_room :
      (bytes : List ℕ) (len : ℕ)
      → All (λ b. b < 256) bytes
      → length bytes ≤ 16
      → HasRoom len (tor_inet_ntop6 hex dec bytes len)
  unfolding tor_inet_ntop6
  tor_inet_ntop6_room bytes len h short =
      let bound = print_address_lem bytes h short in
      elim (Bool-cases (ltb len (length (print_address hex dec bytes) + 1))) [
        | inl e ↦ rw e (ground arith)
        | inr e ↦ rw e (ground arith, omega arith)
      ]
