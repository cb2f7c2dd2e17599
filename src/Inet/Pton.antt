-- ===== src/Inet/Pton.antt =====
-- networking/add.c: tor_inet_pton for AF_INET6, on the bytes of a text that ends before its 0. What
-- would write outside of the array of words, or fail an assertion, is the outcome `fault`.
-- tor_sscanf, which is not in the repository, is the argument `scan`.
mod Texts
mod Digits
mod Turns
pub mod Arrays
pub mod Safe
use tor_onion.Common.{
  ℕ, zero, suc, ◌+◌, ◌-◌, ◌*◌, ◌/◌, ◌%◌, ◌^◌, Bool, true, false, not, ◌&&◌, ◌||◌, Option, none,
  some, List, [], ◌∷◌, ◌++◌, ltb, leb, ◌==◌, if◌then◌else◌, length, take, drop, is_some, min,
  is_empty,
}
use tor_onion.Inet.Quad.{Quad, too_large}

pub data Outcome6 : Type 0 where
  rejected fault : Outcome6
  accepted : List ℕ → Outcome6

-- How the loop over the words ends.
pub data Parsed : Type 0 where
  parse_rejected parse_fault : Parsed
  parsed : List ℕ → Option ℕ → Parsed

-- TOR_ISXDIGIT and the value of a digit.
pub is_xdigit : ℕ → Bool
is_xdigit c = (leb b'0' c && leb c b'9') || (leb b'a' c && leb c b'f') || (leb b'A' c && leb c b'F')

pub digit_value : ℕ → ℕ
digit_value c = if leb c b'9' then c - 48 else if leb c b'F' then c - 55 else c - 87

-- The digits at the start of a text, after a value that has been read: the value, and the rest.
pub read_digits : ℕ → List ℕ → ℕ × List ℕ
unfolding is_xdigit digit_value
read_digits n [] = (n, [])
read_digits n (c ∷ cs) =
    let rest = read_digits (n * 16 + digit_value c) cs in if is_xdigit c then rest else (n, c ∷ cs)

abbrev pub has_prefix : List ℕ → Bool
has_prefix (z ∷ x ∷ d ∷ cs) = (z == b'0') && (x == b'x' || x == b'X') && is_xdigit d
has_prefix _ = false

-- strtol with base 16, on a text that starts with a digit; a value that is too large is LONG_MAX.
pub strtol16 : List ℕ → ℕ × List ℕ
unfolding read_digits
strtol16 s =
    let (r, next) = read_digits 0 (if has_prefix s then drop 2 s else s) in
    (min r (2 ^ 63 - 1), next)

-- A character of the text, 0 past its end.
abbrev pub char_at : ℕ → List ℕ → ℕ
char_at i [] = 0
char_at zero (c ∷ cs) = c
char_at (suc i) (c ∷ cs) = char_at i cs

-- The loop's variables: the text from src on, the words so far, and gapPos.
pub record Words : Type 0 where
  pub src : List ℕ
  pub words : List ℕ
  pub gap_pos : Option ℕ

pub data Turn : Type 0 where
  turn_rejected turn_fault : Turn
  next_turn : Words → Turn

abbrev pub starts_badly : ℕ → List ℕ → Bool
starts_badly len src = ltb 1 len && not (is_xdigit (char_at 1 src))

-- `*src != ':' && src != eow`.
abbrev pub stops_badly : ℕ → List ℕ → Bool
stops_badly tail next = not (char_at 0 next == b':') && not (length next == tail)

-- A word of the value `r` and `len` characters, at `words[i++]`; `next` is the text after it and
-- `tail` the count of the characters from eow on.
pub take_word : ℕ → Words → ℕ → ℕ → List ℕ → Turn
take_word tail s len r next =
    if length next == length s.src
    then turn_rejected
    else if ltb 4 len
    then turn_rejected
    else if starts_badly len s.src
    then turn_rejected
    else if leb (2 ^ 16) r || leb 8 (length s.words)
    then turn_fault
    else if stops_badly tail next
    then turn_rejected
    else next_turn (record s { src = drop 1 next; words = s.words ++ (r ∷ []) })

abbrev pub word_len : ℕ → List ℕ → List ℕ → ℕ
word_len tail src next = if is_empty next then length src - tail else length src - length next

pub word_turn : ℕ → Words → Turn
unfolding strtol16 take_word
word_turn tail s =
    let (r, next) = strtol16 s.src in take_word tail s (word_len tail s.src next) r next

pub gap_turn : ℕ → Words → Turn
gap_turn tail s =
    if (char_at 0 s.src == b':') && ltb 0 (length s.words) && not (is_some s.gap_pos)
    then next_turn (record s { src = drop 1 s.src; gap_pos = some (length s.words) })
    else if (char_at 0 s.src == b':')
        && (length s.words == 0)
        && ltb (tail + 1) (length s.src)
        && (char_at 1 s.src == b':')
        && not (is_some s.gap_pos)
    then next_turn (record s { src = drop 2 s.src; gap_pos = some (length s.words) })
    else turn_rejected

pub turn : ℕ → Words → Turn
unfolding word_turn gap_turn is_xdigit
turn tail s =
    if ltb 7 (length s.words)
    then turn_rejected
    else if is_xdigit (char_at 0 s.src)
    then word_turn tail s
    else gap_turn tail s

-- `while (src < eow)`, on fuel; without fuel it is a fault.
pub parse_words : ℕ → ℕ → Words → Parsed
unfolding turn
parse_words zero tail s = parse_fault
parse_words (suc fuel) tail s = elim (ltb tail (length s.src)) [
  | false ↦ parsed s.words s.gap_pos
  | true ↦ elim (turn tail s) [
    | turn_rejected ↦ parse_rejected
    | turn_fault ↦ parse_fault
    | next_turn s' ↦ parse_words fuel tail s'
  ]
]

pub replicate : ℕ → ℕ → List ℕ
replicate zero x = []
replicate (suc n) x = x ∷ replicate n x

-- memmove(&words[to], &words[from], n), and memset(&words[from], 0, n), inside of the array.
pub move_words : ℕ → ℕ → ℕ → List ℕ → List ℕ
move_words to from n ws = take to ws ++ (take n (drop from ws) ++ drop (to + n) ws)

pub clear_words : ℕ → ℕ → List ℕ → List ℕ
unfolding replicate
clear_words from n ws = take from ws ++ (replicate n 0 ++ drop (from + n) ws)

-- The array: the words that were read, what memset has left (0xf8 in each byte), and the words of the
-- part with dots.
pub word_array : List ℕ → List ℕ → List ℕ
unfolding replicate
word_array ws dotted = ws ++ (replicate (8 - length ws - length dotted) 0xf8f8 ++ dotted)

pub close_gap : List ℕ → List ℕ → ℕ → Outcome6
unfolding word_array move_words clear_words
close_gap ws dotted gap =
    let set_words = length ws + length dotted in
    let gap_len = 8 - set_words in
    if ltb (length ws) gap || ltb 8 (gap + gap_len + (length ws - gap))
    then fault
    else accepted (
        clear_words gap gap_len
          (move_words (gap + gap_len) gap (length ws - gap) (word_array ws dotted)))

pub finish_words : List ℕ → Parsed → Outcome6
unfolding close_gap word_array
finish_words dotted parse_rejected = rejected
finish_words dotted parse_fault = fault
finish_words dotted (parsed ws gap) =
    let set_words = length ws + length dotted in
    if ltb 8 set_words
      || ((set_words == 8) && is_some gap)
      || (ltb set_words 8 && not (is_some gap))
    then rejected
    else elim gap [ none ↦ accepted (word_array ws dotted) | some g ↦ close_gap ws dotted g ]

abbrev pub is_digit : ℕ → Bool
is_digit c = leb b'0' c && leb c b'9'

-- `for (eow = dot-1; eow > src && TOR_ISDIGIT(*eow); --eow);`, from a position on.
pub skip_back : ℕ → List ℕ → ℕ
skip_back zero s = zero
skip_back (suc i) s =
    let rest = skip_back i s in if is_digit (char_at (suc i) s) then rest else suc i

-- strchr(src, '.'): the position of the first dot.
pub find_dot : List ℕ → Option ℕ
find_dot [] = none
find_dot (c ∷ cs) =
    let rest = find_dot cs in
    if c == b'.' then some 0 else elim rest [ none ↦ none | some i ↦ some (suc i) ]

abbrev pub ends_in_colon : List ℕ → Bool
ends_in_colon s =
    let n = length s in ltb 2 n && (char_at (n - 1) s == b':') && not (char_at (n - 2) s == b':')

abbrev pub start_words : List ℕ → Words
start_words s = record { src = s; words = []; gap_pos = none }

module _ (scan : List ℕ → Option Quad) where
  -- The part with dots starts after `n` characters.
  pub parse_dotted : List ℕ → ℕ → Outcome6
  unfolding parse_words finish_words
  parse_dotted s n = elim (scan (drop n s)) [
    | none ↦ rejected
    | some q ↦
        if too_large q
        then rejected
        else finish_words ((q.a * 256 + q.b) ∷ (q.c * 256 + q.d) ∷ [])
            (parse_words (suc (length s)) (length (drop n s)) (start_words s))
  ]

  pub parse_after_dot : List ℕ → ℕ → Outcome6
  unfolding parse_dotted skip_back
  parse_after_dot s dot =
      let eow = skip_back (dot - 1) s in
      if dot == 0
      then rejected
      else if not (char_at eow s == b':')
      then rejected
      else parse_dotted s (suc eow)

  unfoldable pub tor_inet_pton6 : List ℕ → Outcome6
  unfolding parse_after_dot parse_words finish_words find_dot
  tor_inet_pton6 s = if ends_in_colon s then rejected else elim (find_dot s) [
    | none ↦ finish_words [] (parse_words (suc (length s)) 0 (start_words s))
    | some dot ↦ parse_after_dot s dot
  ]
