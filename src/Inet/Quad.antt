-- ===== src/Inet/Quad.antt =====
-- networking/add.c: tor_inet_aton and the bytes that tor_inet_ntoa prints. tor_sscanf,
-- smartlist_split_string and tor_snprintf are not in the repository: `scan` answers for "%3u.%3u.%3u.%3u%c"
-- with the four numbers if it converts these and no more, `octets` are the parts between the dots.
use tor_onion.Common.{
  ℕ, ◌+◌, ◌*◌, ◌/◌, ◌%◌, ◌^◌, ◌<◌, ◌≡◌, Bool, false, ◌||◌, Option, none, some, List, [], ◌∷◌, ltb,
  ◌==◌, if◌then◌else◌, arith,
}

pub record Quad : Type 0 where
  pub a : ℕ
  pub b : ℕ
  pub c : ℕ
  pub d : ℕ

-- An octet of more than one digit that starts with '0'.
pub is_octal : List ℕ → Bool
is_octal [] = false
is_octal (x ∷ []) = false
is_octal (x ∷ y ∷ ys) = x == 48

pub any_octal : List (List ℕ) → Bool
unfolding is_octal
any_octal [] = false
any_octal (o ∷ os) = is_octal o || any_octal os

-- The number in the host's order; the shifts and ors of bytes are sums.
pub address_of : Quad → ℕ
address_of q = q.a * 2 ^ 24 + q.b * 2 ^ 16 + q.c * 2 ^ 8 + q.d

abbrev pub too_large : Quad → Bool
too_large q = ltb 255 q.a || ltb 255 q.b || ltb 255 q.c || ltb 255 q.d

unfoldable pub tor_inet_aton : Option Quad → List (List ℕ) → Option ℕ
unfolding any_octal address_of
tor_inet_aton scan octets = elim scan [
  | none ↦ none
  | some q ↦ if any_octal octets then none else if too_large q then none else some (address_of q)
]

-- The four numbers that tor_inet_ntoa hands to tor_snprintf.
unfoldable pub tor_inet_ntoa : ℕ → Quad
tor_inet_ntoa address = record {
  a = address / 2 ^ 24 % 256;
  b = address / 2 ^ 16 % 256;
  c = address / 2 ^ 8 % 256;
  d = address % 256;
}

-- The bytes that tor_inet_ntoa prints of an address of 32 bits give tor_inet_aton the address back, if
-- they are scanned as printed and no octet has a leading zero.
pub aton-ntoa :
    (address : ℕ) (octets : List (List ℕ))
    → address < 2 ^ 32
    → any_octal octets ≡ false
    → tor_inet_aton (some (tor_inet_ntoa address)) octets ≡ some address
unfolding tor_inet_aton tor_inet_ntoa address_of
aton-ntoa address octets h e = ground arith

-- An address that tor_inet_aton accepts has 32 bits, and tor_inet_ntoa prints of it the four numbers
-- that were scanned.
pub ntoa-aton :
    (q : Quad) (octets : List (List ℕ)) (address : ℕ)
    → tor_inet_aton (some q) octets ≡ some address
    → (tor_inet_ntoa address ≡ q) × (address < 2 ^ 32)
unfolding tor_inet_aton tor_inet_ntoa address_of
ntoa-aton q octets address e = ground arith
