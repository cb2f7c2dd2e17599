-- ===== src/Inet/Family.antt =====
-- networking/add.c: tor_inet_pton and tor_inet_ntop for every family of addresses. An address is its
-- bytes in the order of the network. `split` is smartlist_split_string at the dots, and `print4` is
-- tor_snprintf into the caller's buffer, none if it returns a negative number.
use tor_onion.Common.{
  ℕ, ◌+◌, ◌*◌, ◌/◌, ◌%◌, ◌^◌, ◌<◌, ◌≡◌, refl, Option, none, some, List, [], ◌∷◌, length, arith, All,
}
use tor_onion.Inet.Quad.{Quad, tor_inet_aton, tor_inet_ntoa}
use tor_onion.Inet.Pton.{Outcome6, rejected, fault, accepted, tor_inet_pton6}
use tor_onion.Inet.Pton.Safe.{Fits, tor_inet_pton6_safe}
use tor_onion.Inet.Ntop.{words_of, tor_inet_ntop6}

pub data Family : Type 0 where
  inet inet6 other_family : Family

-- The results 0, -1 and 1, the last with the bytes in `dst`.
pub data Conversion : Type 0 where
  not_converted unknown_family conversion_fault : Conversion
  converted : List ℕ → Conversion

-- s6_addr, of the words.
pub bytes_of : List ℕ → List ℕ
bytes_of [] = []
bytes_of (w ∷ ws) = w / 256 ∷ w % 256 ∷ bytes_of ws

-- The bytes of s_addr, after htonl.
pub htonl_bytes : ℕ → List ℕ
htonl_bytes a = a / 2 ^ 24 % 256 ∷ a / 2 ^ 16 % 256 ∷ a / 2 ^ 8 % 256 ∷ a % 256 ∷ []

-- ntohl of the bytes of s_addr.
pub ntohl_bytes : List ℕ → ℕ
ntohl_bytes (a ∷ b ∷ c ∷ d ∷ []) = a * 2 ^ 24 + b * 2 ^ 16 + c * 2 ^ 8 + d
ntohl_bytes _ = 0

pub of_aton : Option ℕ → Conversion
unfolding htonl_bytes
of_aton none = not_converted
of_aton (some address) = converted (htonl_bytes address)

pub of_words : Outcome6 → Conversion
unfolding bytes_of
of_words rejected = not_converted
of_words fault = conversion_fault
of_words (accepted ws) = converted (bytes_of ws)

module _ (scan : List ℕ → Option Quad) (split : List ℕ → List (List ℕ)) where
  unfoldable pub tor_inet_pton : Family → List ℕ → Conversion
  unfolding of_aton of_words
  tor_inet_pton inet s = of_aton (tor_inet_aton (scan s) (split s))
  tor_inet_pton inet6 s = of_words (tor_inet_pton6 scan s)
  tor_inet_pton other_family s = unknown_family

module _ (hex dec : ℕ → List ℕ) (print4 : Quad → ℕ → Option (List ℕ)) where
  unfoldable pub tor_inet_ntop : Family → List ℕ → ℕ → Option (List ℕ)
  unfolding ntohl_bytes
  tor_inet_ntop inet bytes len = print4 (tor_inet_ntoa (ntohl_bytes bytes)) len
  tor_inet_ntop inet6 bytes len = tor_inet_ntop6 hex dec bytes len
  tor_inet_ntop other_family bytes len = none

abbrev pub address_size : Family → ℕ
address_size inet = 4
address_size inet6 = 16
address_size other_family = 0

-- The bytes of an address of a family.
abbrev pub IsBytes : Family → List ℕ → Type 0
IsBytes af bytes = (length bytes ≡ address_size af) × All (λ b. b < 256) bytes

abbrev pub IsConversion : Family → Conversion → Type 0
IsConversion af not_converted = Unit
IsConversion af unknown_family = af ≡ other_family
IsConversion af conversion_fault = ⊥
IsConversion af (converted bytes) = IsBytes af bytes

length-bytes_of : (ws : List ℕ) → length (bytes_of ws) ≡ 2 * length ws
unfolding bytes_of
length-bytes_of [] = omega arith
length-bytes_of (w ∷ ws) = omega (arith, length-bytes_of ws)

bytes_of-All : (ws : List ℕ) → All (λ w. w < 2 ^ 16) ws → All (λ b. b < 256) (bytes_of ws)
unfolding bytes_of
bytes_of-All [] h = tt
bytes_of-All (w ∷ ws) h = (omega arith, (omega arith, bytes_of-All ws h.1))

-- tor_inet_ntop reads back the words whose bytes tor_inet_pton has written.
pub words_of-bytes_of : (ws : List ℕ) → All (λ w. w < 2 ^ 16) ws → words_of (bytes_of ws) ≡ ws
unfolding words_of bytes_of
words_of-bytes_of [] h = refl
words_of-bytes_of (w ∷ ws) h =
    let e : (w / 256 * 256 + w % 256) % 2 ^ 16 ≡ w = omega arith in
    rw (e, words_of-bytes_of ws h.1) refl

of_aton-IsConversion : (a : Option ℕ) → IsConversion inet (of_aton a)
unfolding of_aton htonl_bytes
of_aton-IsConversion none = tt
of_aton-IsConversion (some a) =
    (omega arith, (omega arith, (omega arith, (omega arith, (omega arith, tt)))))

of_words-IsConversion : (r : Outcome6) → Fits r → IsConversion inet6 (of_words r)
unfolding of_words
of_words-IsConversion rejected h = tt
of_words-IsConversion fault h = h
of_words-IsConversion (accepted ws) h = (omega (arith, length-bytes_of ws), bytes_of-All ws h.1)

-- For every family and every text, and whatever tor_sscanf and smartlist_split_string answer:
-- tor_inet_pton never writes outside of its array, none of its assertions fails and it ends; it returns
-- -1 only for a family that it does not know; and if it returns 1, it has written as many bytes as an
-- address of the family has.
pub tor_inet_pton_safe :
    (scan : List ℕ → Option Quad) (split : List ℕ → List (List ℕ)) (af : Family) (s : List ℕ)
    → IsConversion af (tor_inet_pton scan split af s)
unfolding tor_inet_pton
tor_inet_pton_safe scan split inet s = of_aton-IsConversion (tor_inet_aton (scan s) (split s))
tor_inet_pton_safe scan split inet6 s = of_words-IsConversion _ (tor_inet_pton6_safe scan s)
tor_inet_pton_safe scan split other_family s = refl
