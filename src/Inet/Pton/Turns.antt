-- ===== src/Inet/Pton/Turns.antt =====
-- The turns of tor_inet_pton's loop (networking/add.c), and the state that they keep.
use tor_onion.Common.{
  length-drop, drop-drop, ℕ, zero, suc, ◌+◌, ◌-◌, ◌≤◌, ◌<◌, ◌^◌, ◌≡◌, refl, sym, ap, subst, ◌∙◌,
  Bool, true, false, not, ◌&&◌, ◌||◌, Option, none, some, List, [], ◌∷◌, ◌++◌, arith, length,
  length-append, drop, All, All-append, Bool-cases, inl, inr, ◌⊎◌, leb, ltb, ◌==◌, is_empty,
  is_some, if◌then◌else◌,
}
use tor_onion.Inet.Pton.{
  Parsed, parse_rejected, parse_fault, parsed, is_xdigit, has_prefix, strtol16, char_at, Words,
  Turn, turn_rejected, turn_fault, next_turn, word_turn, take_word, word_len, starts_badly,
  stops_badly, gap_turn, turn, parse_words,
}
use tor_onion.Inet.Pton.Texts.{char_at-drop}
use tor_onion.Inet.Pton.Digits.{sixteens, Read, strtol16_lem}

-- From eow on there is nothing, or a ':' stands before it.
abbrev pub Colon : ℕ → List ℕ → Type 0
Colon tail src = tail < length src → (tail ≡ 0) ⊎ (char_at (length src - tail - 1) src ≡ 58)

Colon-drop : (k tail : ℕ) (s : List ℕ) → Colon tail s → Colon tail (drop k s)
Colon-drop k tail s c h =
    let n = length-drop k s in
    let inside : tail < length s = omega arith in
    let place : k + (length (drop k s) - tail - 1) ≡ length s - tail - 1 = omega arith in
    elim (c inside) [
      | inl none_left ↦ inl none_left
      | inr colon ↦ inr (rw (char_at-drop k (length (drop k s) - tail - 1) s) (rw place colon))
    ]

abbrev GapWithin : Option ℕ → ℕ → Type 0
GapWithin none n = Unit
GapWithin (some g) n = g ≤ n

-- The invariant of the loop.
pub record IsSafe (tail : ℕ) (s : Words) : Type 0 where
  pub few : length s.words ≤ 8
  pub small : All (λ w. w < 2 ^ 16) s.words
  pub gap_within : GapWithin s.gap_pos (length s.words)
  pub colon : Colon tail s.src

-- A turn does not fail, and goes on with less text.
abbrev Fine : ℕ → Words → Turn → Type 0
Fine tail s turn_rejected = Unit
Fine tail s turn_fault = ⊥
Fine tail s (next_turn s') = IsSafe tail s' × (length s'.src < length s.src)

Fine-if :
    (tail : ℕ) (s : Words) (b : Bool) (t u : Turn)
    → (b ≡ true → Fine tail s t)
    → (b ≡ false → Fine tail s u)
    → Fine tail s (if b then t else u)
Fine-if tail s true t u p q = p refl
Fine-if tail s false t u p q = q refl

sixteens-le : (k : ℕ) → k ≤ 4 → sixteens k ≤ 65536
sixteens-le zero h = omega arith
sixteens-le (suc zero) h = omega arith
sixteens-le (suc (suc zero)) h = omega arith
sixteens-le (suc (suc (suc zero))) h = omega arith
sixteens-le (suc (suc (suc (suc zero)))) h = omega arith
sixteens-le (suc (suc (suc (suc (suc k))))) h = absurd (omega arith)

-- What strtol takes lies before eow, and `len` is its length.
taken_len :
    (tail : ℕ) (src next : List ℕ) (r : ℕ)
    → Colon tail src
    → tail < length src
    → (t : Read src r next) → word_len tail src next ≡ t.count
taken_len tail src next r c h t =
    let n : length next ≡ length src - t.count = ap length t.rest ∙ length-drop t.count src in
    elim (c h) [
      | inl none_left ↦ len_of src next t.count t.within n (λ e. omega arith)
      | inr colon ↦
          len_of src next t.count t.within n
            (λ e. omega (arith, t.before_colon (length src - tail - 1) colon))
    ]
  where
    len_of :
        (xs ys : List ℕ) (k : ℕ)
        → k ≤ length xs
        → length ys ≡ length xs - k
        → (length ys ≡ 0 → length xs - tail ≡ k)
        → (if is_empty ys then length xs - tail else length xs - length ys) ≡ k
    len_of xs [] k p q f = f refl
    len_of xs (y ∷ ys) k p q f = omega arith

-- The value of a word that passes the tests fits into 16 bits.
word_bound :
    (src next : List ℕ) (r : ℕ) (t : Read src r next)
    → t.count ≤ 4
    → starts_badly t.count src ≡ false
    → r < 2 ^ 16
word_bound src next r t short digits = elim (Bool-cases (has_prefix src)) [
  | inl prefix ↦ let (two, other) = t.prefixed prefix in ground arith
  | inr plain ↦ omega (arith, t.bounded plain, sixteens-le t.count short)
]

All-snoc :
    (ws : List ℕ) (r : ℕ)
    → All (λ w. w < 2 ^ 16) ws
    → r < 2 ^ 16
    → All (λ w. w < 2 ^ 16) (ws ++ (r ∷ []))
All-snoc ws r h k = All-append (λ w. w < 2 ^ 16) ws (r ∷ []) h (k, tt)

GapWithin-le : (g : Option ℕ) (m n : ℕ) → m ≤ n → GapWithin g m → GapWithin g n
GapWithin-le none m n h w = tt
GapWithin-le (some g) m n h w = omega arith

Colon-next :
    (k tail : ℕ) (s next : List ℕ) → next ≡ drop k s → Colon tail s → Colon tail (drop 1 next)
Colon-next k tail s next e c =
    subst (λ x. Colon tail x) (sym (ap (drop 1) e ∙ drop-drop 1 k s)) (Colon-drop (k + 1) tail s c)

take_word_lem :
    (tail : ℕ) (s : Words) (len r : ℕ) (next : List ℕ)
    → IsSafe tail s
    → length s.words ≤ 7
    → length next ≤ length s.src
    → Colon tail (drop 1 next)
    → (len ≤ 4 → starts_badly len s.src ≡ false → r < 2 ^ 16)
    → Fine tail s (take_word tail s len r next)
unfolding take_word
take_word_lem tail s len r next v room le colon bound =
    elim (Bool-cases (length next == length s.src)) [
      | inl e ↦ rw e tt
      | inr moved ↦ elim (Bool-cases (ltb 4 len)) [
        | inl e ↦ rw (moved, e) tt
        | inr short ↦ elim (Bool-cases (starts_badly len s.src)) [
          | inl e ↦ rw (moved, short, e) tt
          | inr digits ↦
              let fits : r < 2 ^ 16 = bound (ground arith) digits in
              let inside : (leb (2 ^ 16) r || leb 8 (length s.words)) ≡ false = ground arith in
              elim (Bool-cases (stops_badly tail next)) [
                | inl e ↦ rw (moved, short, digits, inside, e) tt
                | inr closed ↦
                    rw (moved, short, digits, inside, closed)
                      (
                        record {
                          few = omega (arith, length-append s.words (r ∷ []));
                          small = All-snoc s.words r v.small fits;
                          gap_within =
                              GapWithin-le s.gap_pos (length s.words) _
                                (omega (arith, length-append s.words (r ∷ []))) v.gap_within;
                          colon = colon;
                        },
                        ground (arith, length-drop 1 next),
                      )
              ]
        ]
      ]
    ]

word_turn_lem :
    (tail : ℕ) (s : Words)
    → IsSafe tail s
    → tail < length s.src
    → length s.words ≤ 7
    → Fine tail s (word_turn tail s)
unfolding word_turn
word_turn_lem tail s v h room =
    let r = (strtol16 s.src).0 in
    let next = (strtol16 s.src).1 in
    let t = strtol16_lem s.src in
    let len = taken_len tail s.src next r v.colon h t in
    let n : length next ≡ length s.src - t.count = ap length t.rest ∙ length-drop t.count s.src in
    take_word_lem tail s (word_len tail s.src next) r next v room (omega arith)
      (Colon-next t.count tail s.src next t.rest v.colon)
      (λ p q. word_bound s.src next r t (rw (← len) p) (rw (← len) q))

gap_turn_lem :
    (tail : ℕ) (s : Words) → IsSafe tail s → tail < length s.src → Fine tail s (gap_turn tail s)
unfolding gap_turn
gap_turn_lem tail s v h =
    Fine-if tail s ((char_at 0 s.src == 58) && ltb 0 (length s.words) && not (is_some s.gap_pos))
      (next_turn (record s { src = drop 1 s.src; gap_pos = some (length s.words) }))
      (if (char_at 0 s.src == 58)
          && (length s.words == 0)
          && ltb (tail + 1) (length s.src)
          && (char_at 1 s.src == 58)
          && not (is_some s.gap_pos)
        then next_turn (record s { src = drop 2 s.src; gap_pos = some (length s.words) })
        else turn_rejected)
      (λ e. after 1 (omega arith))
      (λ e.
        Fine-if tail s
          ((char_at 0 s.src == 58)
            && (length s.words == 0)
            && ltb (tail + 1) (length s.src)
            && (char_at 1 s.src == 58)
            && not (is_some s.gap_pos))
          (next_turn (record s { src = drop 2 s.src; gap_pos = some (length s.words) }))
          turn_rejected (λ f. after 2 (omega arith)) (λ f. tt))
  where
    after :
        (k : ℕ)
        → 0 < k
        → IsSafe tail (record s { src = drop k s.src; gap_pos = some (length s.words) })
          × (length (drop k s.src) < length s.src)
    after k p = (
      record {
        few = v.few;
        small = v.small;
        gap_within = omega arith;
        colon = Colon-drop k tail s.src v.colon;
      },
      omega (arith, length-drop k s.src),
    )

turn_lem : (tail : ℕ) (s : Words) → IsSafe tail s → tail < length s.src → Fine tail s (turn tail s)
unfolding turn
turn_lem tail s v h =
    Fine-if tail s (ltb 7 (length s.words)) turn_rejected
      (if is_xdigit (char_at 0 s.src) then word_turn tail s else gap_turn tail s) (λ e. tt)
      λ few.
        Fine-if tail s (is_xdigit (char_at 0 s.src)) (word_turn tail s) (gap_turn tail s)
          (λ e. word_turn_lem tail s v h (ground arith)) (λ e. gap_turn_lem tail s v h)

-- The loop ends within the fuel, without a fault.
abbrev pub Ends : ℕ → Parsed → Type 0
Ends tail parse_rejected = Unit
Ends tail parse_fault = ⊥
Ends tail (parsed ws gap) = (length ws ≤ 8) × All (λ w. w < 2 ^ 16) ws × GapWithin gap (length ws)

pub parse_words_lem :
    (fuel tail : ℕ) (s : Words)
    → IsSafe tail s
    → length s.src < fuel
    → Ends tail (parse_words fuel tail s)
unfolding parse_words
parse_words_lem zero tail s v h = absurd (omega arith)
parse_words_lem (suc fuel) tail s v h = elim (Bool-cases (ltb tail (length s.src))) [
  | inr done ↦ rw (done, parse_words, Ends) (v.few, v.small, v.gap_within)
  | inl more ↦
      rw (more, parse_words, Ends)
        (go (turn tail s) (turn_lem tail s v (ground arith))
          (λ s' v' less. parse_words_lem fuel tail s' v' (omega arith)))
]
  where
    go :
        (t : Turn)
        → Fine tail s t
        → ((s' : Words)
            → IsSafe tail s'
            → length s'.src < length s.src
            → Ends tail (parse_words fuel tail s'))
        → Ends tail (elim t [
          | turn_rejected ↦ parse_rejected
          | turn_fault ↦ parse_fault
          | next_turn s' ↦ parse_words fuel tail s'
        ])
    go turn_rejected f ih = tt
    go turn_fault f ih = f
    go (next_turn s') f ih = ih s' f.0 f.1
