-- ===== src/MountPoints/Lex.antt =====
-- Strings as the lists of their bytes, in the lexicographic order of std::string, by which the maps
-- of z-box/handler-store/external_m.cpp are sorted.
use tor_onion.Common.{
  ℕ, ◌≡◌, refl, ◌↔◌, Bool, true, false, not, ◌&&◌, ◌||◌, List, [], ◌∷◌, arith, ltb, ◌==◌,
}

abbrev pub Bytes : Type 0
Bytes = List ℕ

unfoldable pub eqb : Bytes → Bytes → Bool
eqb [] [] = true
eqb [] (y ∷ ys) = false
eqb (x ∷ xs) [] = false
eqb (x ∷ xs) (y ∷ ys) = (x == y) && eqb xs ys

-- a <= b, that is `!(b < a)`.
unfoldable pub le : Bytes → Bytes → Bool
le [] ys = true
le (x ∷ xs) [] = false
le (x ∷ xs) (y ∷ ys) = ltb x y || ((x == y) && le xs ys)

abbrev pub lt : Bytes → Bytes → Bool
lt a b = not (le b a)

unfoldable pub is_prefix : Bytes → Bytes → Bool
is_prefix [] ys = true
is_prefix (x ∷ xs) [] = false
is_prefix (x ∷ xs) (y ∷ ys) = (x == y) && is_prefix xs ys

pub eqb_iff : (a b : Bytes) → (eqb a b ≡ true) ↔ (a ≡ b)
unfolding eqb
eqb_iff [] [] = (λ _. refl, λ _. refl)
eqb_iff [] (y ∷ ys) = (λ e. cc, λ e. cc)
eqb_iff (x ∷ xs) [] = (λ e. cc, λ e. cc)
eqb_iff (x ∷ xs) (y ∷ ys) = ground (arith, eqb_iff xs ys)

pub eqb_refl : (a : Bytes) → eqb a a ≡ true
eqb_refl a = (eqb_iff a a).1 refl

pub le_refl : (a : Bytes) → le a a ≡ true
unfolding le
le_refl [] = refl
le_refl (x ∷ xs) = ground (arith, le_refl xs)

pub le_total : (a b : Bytes) → le a b ≡ false → le b a ≡ true
unfolding le
le_total [] b e = cc
le_total (x ∷ xs) [] e = refl
le_total (x ∷ xs) (y ∷ ys) e = ground (arith, le_total xs ys)

pub le_trans : (a b c : Bytes) → le a b ≡ true → le b c ≡ true → le a c ≡ true
unfolding le
le_trans [] b c e f = refl
le_trans (x ∷ xs) [] c e f = cc
le_trans (x ∷ xs) (y ∷ ys) [] e f = cc
le_trans (x ∷ xs) (y ∷ ys) (z ∷ zs) e f = ground (arith, le_trans xs ys zs)

pub le_antisym : (a b : Bytes) → le a b ≡ true → le b a ≡ true → a ≡ b
unfolding le
le_antisym [] [] e f = refl
le_antisym [] (y ∷ ys) e f = cc
le_antisym (x ∷ xs) [] e f = cc
le_antisym (x ∷ xs) (y ∷ ys) e f = ground (arith, le_antisym xs ys)

-- A prefix sorts first.
pub is_prefix-le : (a b : Bytes) → is_prefix a b ≡ true → le a b ≡ true
unfolding le is_prefix
is_prefix-le [] b e = refl
is_prefix-le (x ∷ xs) [] e = cc
is_prefix-le (x ∷ xs) (y ∷ ys) e = ground (arith, is_prefix-le xs ys)

-- What lies between a string and one that it begins begins with it too.
pub is_prefix_between :
    (a k c : Bytes) → is_prefix a c ≡ true → le a k ≡ true → le k c ≡ true → is_prefix a k ≡ true
unfolding le is_prefix
is_prefix_between [] k c p e f = refl
is_prefix_between (x ∷ xs) [] c p e f = cc
is_prefix_between (x ∷ xs) (y ∷ ys) [] p e f = cc
is_prefix_between (x ∷ xs) (y ∷ ys) (z ∷ zs) p e f = ground (arith, is_prefix_between xs ys zs)

pub is_prefix_refl : (a : Bytes) → is_prefix a a ≡ true
unfolding is_prefix
is_prefix_refl [] = refl
is_prefix_refl (x ∷ xs) = ground (arith, is_prefix_refl xs)
