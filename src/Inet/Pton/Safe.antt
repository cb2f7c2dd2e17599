-- ===== src/Inet/Pton/Safe.antt =====
-- The array of words and the assertions of tor_inet_pton (networking/add.c).
use tor_onion.Common.{
  length-drop, ℕ, zero, suc, ◌+◌, ◌-◌, ◌*◌, ◌≤◌, ◌<◌, ◌^◌, ◌≡◌, refl, true, false, ◌&&◌, ◌||◌,
  Option, none, some, List, [], ◌∷◌, arith, length, drop, All, Bool-cases, inl, inr, ltb, ◌==◌,
  if◌then◌else◌,
}
use tor_onion.Inet.Quad.{Quad, too_large}
use tor_onion.Inet.Pton.{
  Outcome6, rejected, fault, accepted, Parsed, parse_rejected, parse_fault, parsed, char_at,
  parse_words, close_gap, finish_words, parse_dotted, parse_after_dot, skip_back, find_dot,
  ends_in_colon, tor_inet_pton6, start_words,
}
use tor_onion.Inet.Pton.Turns.{Colon, IsSafe, Ends, parse_words_lem}
use tor_onion.Inet.Pton.Arrays.{
  IsAddress, word_array-IsAddress, move_words-IsAddress, clear_words-IsAddress,
}

-- What a text is read to: nothing, or an address; never a fault.
abbrev pub Fits : Outcome6 → Type 0
Fits rejected = Unit
Fits fault = ⊥
Fits (accepted ws) = IsAddress ws

close_gap_lem :
    (ws dotted : List ℕ) (gap : ℕ)
    → gap ≤ length ws
    → length ws + length dotted ≤ 8
    → All (λ w. w < 2 ^ 16) ws
    → All (λ w. w < 2 ^ 16) dotted
    → Fits (close_gap ws dotted gap)
unfolding close_gap
close_gap_lem ws dotted gap le room h k =
    let gap_len = 8 - (length ws + length dotted) in
    let inside : (ltb (length ws) gap || ltb 8 (gap + gap_len + (length ws - gap))) ≡ false =
      ground arith in
    rw inside (
      clear_words-IsAddress gap gap_len _ (omega arith) (
        move_words-IsAddress (gap + gap_len) gap (length ws - gap) _ (omega arith) (omega arith)
          (word_array-IsAddress ws dotted room h k)))

finish_words_lem :
    (tail : ℕ) (dotted : List ℕ) (p : Parsed)
    → All (λ w. w < 2 ^ 16) dotted
    → Ends tail p
    → Fits (finish_words dotted p)
unfolding finish_words
finish_words_lem tail dotted parse_rejected k e = tt
finish_words_lem tail dotted parse_fault k e = e
finish_words_lem tail dotted (parsed ws none) k (few, small, w) =
    elim (Bool-cases (
      ltb 8 (length ws + length dotted)
      || ((length ws + length dotted == 8) && false)
      || (ltb (length ws + length dotted) 8 && true))) [
        | inl e ↦ rw e tt
        | inr e ↦ rw e (word_array-IsAddress ws dotted (ground arith) small k)
      ]
finish_words_lem tail dotted (parsed ws (some g)) k (few, small, w) =
    elim (Bool-cases (
      ltb 8 (length ws + length dotted)
      || ((length ws + length dotted == 8) && true)
      || (ltb (length ws + length dotted) 8 && false))) [
        | inl e ↦ rw e tt
        | inr e ↦ rw e (close_gap_lem ws dotted g w (ground arith) small k)
      ]

start_words-IsSafe : (tail : ℕ) (s : List ℕ) → Colon tail s → IsSafe tail (start_words s)
start_words-IsSafe tail s c = record { few = omega arith; small = tt; gap_within = tt; colon = c }

char_at-lt : (i c : ℕ) (s : List ℕ) → char_at i s ≡ suc c → i < length s
char_at-lt i c [] e = absurd (omega arith)
char_at-lt zero c (x ∷ s) e = omega arith
char_at-lt (suc i) c (x ∷ s) e = omega (arith, char_at-lt i c s e)

module _ (scan : List ℕ → Option Quad) where
  parse_dotted_lem :
      (s : List ℕ) (eow : ℕ) → char_at eow s ≡ 58 → Fits (parse_dotted scan s (suc eow))
  unfolding parse_dotted
  parse_dotted_lem s eow colon = go (scan (drop (suc eow) s))
    where
      ended :
          (ws : List ℕ)
          → All (λ w. w < 2 ^ 16) ws
          → Fits (
              finish_words ws
                (parse_words (suc (length s)) (length (drop (suc eow) s)) (start_words s)))
      ended ws small =
          let inside = char_at-lt eow 57 s colon in
          let n = length-drop (suc eow) s in
          let place : length s - length (drop (suc eow) s) - 1 ≡ eow = omega arith in
          finish_words_lem (length (drop (suc eow) s)) ws _ small (
            parse_words_lem (suc (length s)) _ (start_words s)
              (start_words-IsSafe _ s (λ h. inr (rw place colon))) (omega arith))

      go :
          (q : Option Quad)
          → Fits (elim q [
            | none ↦ rejected
            | some q ↦
                if too_large q
                then rejected
                else finish_words
                    ((q.a * 256 + q.b) ∷ (q.c * 256 + q.d) ∷ [])
                    (parse_words (suc (length s)) (length (drop (suc eow) s)) (start_words s))
          ])
      go none = tt
      go (some q) = elim (Bool-cases (too_large q)) [
        | inl e ↦ rw e tt
        | inr e ↦
            rw e (
              ended ((q.a * 256 + q.b) ∷ (q.c * 256 + q.d) ∷ []) (ground arith, (ground arith, tt)))
      ]

  parse_after_dot_lem : (s : List ℕ) (dot : ℕ) → Fits (parse_after_dot scan s dot)
  unfolding parse_after_dot
  parse_after_dot_lem s dot = elim (Bool-cases (dot == 0)) [
    | inl e ↦ rw e tt
    | inr e ↦ elim (Bool-cases (char_at (skip_back (dot - 1) s) s == 58)) [
      | inl colon ↦ rw (e, colon) (parse_dotted_lem s (skip_back (dot - 1) s) (ground arith))
      | inr other ↦ rw (e, other) tt
    ]
  ]

  -- Whatever the text and the answer of tor_sscanf, tor_inet_pton for AF_INET6 never writes outside of
  -- the array of words, none of its assertions fails and its loop ends; a text that it accepts gives
  -- eight words of 16 bits.
  pub tor_inet_pton6_safe : (s : List ℕ) → Fits (tor_inet_pton6 scan s)
  unfolding tor_inet_pton6
  tor_inet_pton6_safe s = elim (Bool-cases (ends_in_colon s)) [
    | inl e ↦ rw e tt
    | inr e ↦ rw e (go (find_dot s))
  ]
    where
      go :
          (dot : Option ℕ)
          → Fits (elim dot [
            | none ↦ finish_words [] (parse_words (suc (length s)) 0 (start_words s))
            | some i ↦ parse_after_dot scan s i
          ])
      go none = finish_words_lem 0 [] _ tt (
          parse_words_lem (suc (length s)) 0 (start_words s)
            (start_words-IsSafe 0 s (λ h. inl refl)) (omega arith))
      go (some i) = parse_after_dot_lem s i
