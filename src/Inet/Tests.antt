-- ===== src/Inet/Tests.antt =====
-- Addresses that networking/add.c reads, and instances of what is shown of them.
use tor_onion.Common.{
  ℕ, ◌+◌, ◌/◌, ◌%◌, ◌≡◌, ◌≤◌, ◌<◌, ◌^◌, refl, Option, some, List, [], ◌∷◌, length, ltb,
  if◌then◌else◌, arith,
}
use tor_onion.Inet.Quad.{Quad, tor_inet_aton, tor_inet_ntoa, ntoa-aton}
use tor_onion.Inet.Pton.{rejected, accepted, tor_inet_pton6}
use tor_onion.Inet.Ntop.{longest_gap, tor_inet_ntop6}
use tor_onion.Inet.Ntop.Longest.{IsLongest, longest_gap_lem}
use tor_onion.Inet.Ntop.Room.{HasRoom, tor_inet_ntop6_room}
use tor_onion.Inet.Family.{inet, inet6, converted, tor_inet_pton, IsConversion, tor_inet_pton_safe}

abbrev local : Quad
local = record { a = 127; b = 0; c = 0; d = 1 }

abbrev local_octets : List (List ℕ)
local_octets = (b'1' ∷ b'2' ∷ b'7' ∷ []) ∷ (b'0' ∷ []) ∷ (b'0' ∷ []) ∷ (b'1' ∷ []) ∷ []

-- "127.0.0.1".
abbrev local_text : List ℕ
local_text = b'1' ∷ b'2' ∷ b'7' ∷ b'.' ∷ b'0' ∷ b'.' ∷ b'0' ∷ b'.' ∷ b'1' ∷ []

-- A scanner that finds 127.0.0.1 wherever it looks.
abbrev scan_local : List ℕ → Option Quad
scan_local s = some local

-- "::1", "::ffff:127.0.0.1", "1:2:3:4:5:6:7:8:9" and "0x1::".
abbrev one : List ℕ
one = b':' ∷ b':' ∷ b'1' ∷ []

abbrev mapped : List ℕ
mapped =
    b':' ∷ b':' ∷ b'f' ∷ b'F' ∷ b'f' ∷ b'f' ∷ b':' ∷ b'1' ∷ b'2' ∷ b'7' ∷ b'.' ∷ b'0' ∷ b'.' ∷ b'0'
    ∷ b'.' ∷ b'1' ∷ []

abbrev nine_words : List ℕ
nine_words =
    b'1' ∷ b':' ∷ b'2' ∷ b':' ∷ b'3' ∷ b':' ∷ b'4' ∷ b':' ∷ b'5' ∷ b':' ∷ b'6' ∷ b':' ∷ b'7' ∷ b':'
    ∷ b'8' ∷ b':' ∷ b'9' ∷ []

abbrev hex_prefix : List ℕ
hex_prefix = b'0' ∷ b'x' ∷ b'1' ∷ b':' ∷ b':' ∷ []

reads_one : tor_inet_pton6 scan_local one ≡ accepted (0 ∷ 0 ∷ 0 ∷ 0 ∷ 0 ∷ 0 ∷ 0 ∷ 1 ∷ [])
unfolding tor_inet_pton6
reads_one = refl

reads_mapped :
    tor_inet_pton6 scan_local mapped ≡ accepted (0 ∷ 0 ∷ 0 ∷ 0 ∷ 0 ∷ 0xffff ∷ 0x7f00 ∷ 1 ∷ [])
unfolding tor_inet_pton6
reads_mapped = refl

rejects_nine_words : tor_inet_pton6 scan_local nine_words ≡ rejected
unfolding tor_inet_pton6
rejects_nine_words = refl

rejects_hex_prefix : tor_inet_pton6 scan_local hex_prefix ≡ rejected
unfolding tor_inet_pton6
rejects_hex_prefix = refl

reads_local : tor_inet_aton (some local) local_octets ≡ some 0x7f000001
unfolding tor_inet_aton
reads_local = refl

reads_family :
    tor_inet_pton scan_local (λ s. local_octets) inet local_text ≡ converted (127 ∷ 0 ∷ 0 ∷ 1 ∷ [])
unfolding tor_inet_pton tor_inet_aton
reads_family = refl

tor_inet_pton_safe_example :
    IsConversion inet6 (tor_inet_pton scan_local (λ s. local_octets) inet6 mapped)
tor_inet_pton_safe_example = tor_inet_pton_safe scan_local (λ s. local_octets) inet6 mapped

ntoa-aton_example : (tor_inet_ntoa 0x7f000001 ≡ local) × (0x7f000001 < 2 ^ 32)
ntoa-aton_example = ntoa-aton local local_octets 0x7f000001 reads_local

-- What tor_snprintf prints for "%x" of a word and for "%d" of a byte.
abbrev hex_digit : ℕ → ℕ
hex_digit d = if ltb d 10 then 48 + d else 87 + d

abbrev hex : ℕ → List ℕ
hex w =
    if ltb w 16
    then hex_digit w ∷ []
    else if ltb w 256
    then hex_digit (w / 16) ∷ hex_digit (w % 16) ∷ []
    else if ltb w 4096
    then hex_digit (w / 256) ∷ hex_digit (w / 16 % 16) ∷ hex_digit (w % 16) ∷ []
    else hex_digit (w / 4096)
      ∷ hex_digit (w / 256 % 16)
      ∷ hex_digit (w / 16 % 16)
      ∷ hex_digit (w % 16)
      ∷ []

abbrev dec : ℕ → List ℕ
dec b =
    if ltb b 10
    then (48 + b) ∷ []
    else if ltb b 100
    then (48 + b / 10) ∷ (48 + b % 10) ∷ []
    else (48 + b / 100) ∷ (48 + b / 10 % 10) ∷ (48 + b % 10) ∷ []

hex_short : (w : ℕ) → w < 2 ^ 16 → length (hex w) ≤ 4
hex_short w h = ground arith

dec_short : (b : ℕ) → b < 256 → length (dec b) ≤ 3
dec_short b h = ground arith

-- 1:0:0:2:0:0:0:3, whose longest gap is the second.
abbrev two_gaps : List ℕ
two_gaps = 0 ∷ 1 ∷ 0 ∷ 0 ∷ 0 ∷ 0 ∷ 0 ∷ 2 ∷ 0 ∷ 0 ∷ 0 ∷ 0 ∷ 0 ∷ 0 ∷ 0 ∷ 3 ∷ []

-- "1:0:0:2::3".
abbrev two_gaps_text : List ℕ
two_gaps_text = b'1' ∷ b':' ∷ b'0' ∷ b':' ∷ b'0' ∷ b':' ∷ b'2' ∷ b':' ∷ b':' ∷ b'3' ∷ []

writes_two_gaps : tor_inet_ntop6 hex dec two_gaps 46 ≡ some two_gaps_text
unfolding tor_inet_ntop6
writes_two_gaps = refl

reads_two_gaps :
    tor_inet_pton6 scan_local two_gaps_text ≡ accepted (1 ∷ 0 ∷ 0 ∷ 2 ∷ 0 ∷ 0 ∷ 0 ∷ 3 ∷ [])
unfolding tor_inet_pton6
reads_two_gaps = refl

tor_inet_ntop6_room_example : HasRoom 46 (tor_inet_ntop6 hex dec two_gaps 46)
tor_inet_ntop6_room_example =
    tor_inet_ntop6_room hex dec hex_short dec_short two_gaps 46 (ground arith) (omega arith)

longest_gap_lem_example :
    IsLongest
      (1 ∷ 0 ∷ 0 ∷ 2 ∷ 0 ∷ 0 ∷ 0 ∷ 3 ∷ [])
      1
      (longest_gap (1 ∷ 0 ∷ 0 ∷ 2 ∷ 0 ∷ 0 ∷ 0 ∷ 3 ∷ []))
longest_gap_lem_example = longest_gap_lem (1 ∷ 0 ∷ 0 ∷ 2 ∷ 0 ∷ 0 ∷ 0 ∷ 3 ∷ []) 1
