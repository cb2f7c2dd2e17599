-- ===== src/TorVersion/Tests.antt =====
-- Runs of networking/lib/version.c's functions, and instances of what is shown of them.
use tor_onion.Common.{
  ℕ, ◌≡◌, ◌≤◌, ◌<◌, refl, true, false, Option, none, some, List, [], ◌∷◌, arith, ltb, if◌then◌else◌,
  is_empty, length, value_or,
}
use tor_onion.MountPoints.Lex.{Bytes}
use tor_onion.TorVersion.{
  Version, negative, tor_version_compare, old, unrecommended, empty_list, tor_version_is_obsolete,
  compare_tor_version_str_ptr, Scanner,
}
use tor_onion.TorVersion.Order.{
  IsValid, parts, lex, tor_version_compare-lex, IsOrder, Comparable,
  compare_tor_version_str_ptr-IsOrder, with_revision, tor_version_compare_overflow,
}
use tor_onion.TorVersion.Obsolete.{expected_status, tor_version_is_obsolete-expected}
use tor_onion.TorVersion.Protover.{ProtocolLists, SummaryMap}
use tor_onion.TorVersion.Protover.Transparent.{
  Request, summarize, free_all, run_requests, answers_to, run_requests-answers_to,
}

-- 0.4, the micro number and the patchlevel, with the tag "a".
abbrev version : ℕ → ℕ → Version
version micro patchlevel = record {
  major = 0;
  minor = 4;
  micro = micro;
  status = 2;
  patchlevel = patchlevel;
  status_tag = 97 ∷ [];
  svn_revision = 0;
  git_tag_len = 1;
  git_tag = 7 ∷ [];
}

version-IsValid :
    (micro patchlevel : ℕ) → micro < 100 → patchlevel < 100 → IsValid (version micro patchlevel)
version-IsValid m p h k = record {
  major_int = omega arith;
  minor_int = omega arith;
  micro_int = omega arith;
  status_int = omega arith;
  patchlevel_int = omega arith;
  no_zero = omega arith;
  svn_int = omega arith;
  len_int = omega arith;
}

-- Texts of one byte, the micro number.
one_byte_parse : Bytes → Option Version
one_byte_parse [] = none
one_byte_parse (x ∷ xs) = if ltb x 100 then some (version x 0) else none

tor_version_compare-lex_example :
    tor_version_compare (version 7 3) (version 7 12)
    ≡ lex (parts (version 7 3)) (parts (version 7 12))
tor_version_compare-lex_example =
    tor_version_compare-lex (version 7 3) (version 7 12)
      (version-IsValid 7 3 (omega arith) (omega arith))
      (version-IsValid 7 12 (omega arith) (omega arith))

older_patch : tor_version_compare (version 7 3) (version 7 12) ≡ negative
unfolding tor_version_compare
older_patch = refl

compare_tor_version_str_ptr-IsOrder_example :
    IsOrder {A = Comparable one_byte_parse}
      (λ a b. compare_tor_version_str_ptr one_byte_parse a.text b.text)
compare_tor_version_str_ptr-IsOrder_example = compare_tor_version_str_ptr-IsOrder one_byte_parse

-- A string that is parsed to a valid version, and one that is not parsed.
seventh : Comparable one_byte_parse
unfolding one_byte_parse
seventh = record { text = 7 ∷ []; parsed_valid = version-IsValid 7 0 (omega arith) (omega arith) }

unparsed : Comparable one_byte_parse
unfolding one_byte_parse
unparsed = record { text = 200 ∷ []; parsed_valid = tt }

-- "(r0)" and "(r2147483648)", each before the other.
tor_version_compare_overflow_example :
    (tor_version_compare (with_revision 0 (version 7 3)) (with_revision 2147483648 (version 7 3))
      ≡ negative)
    × (tor_version_compare (with_revision 2147483648 (version 7 3)) (with_revision 0 (version 7 3))
        ≡ negative)
tor_version_compare_overflow_example = tor_version_compare_overflow (version 7 3) 0 (omega arith)

-- The rest of the text after four bytes, and nothing taken for white space.
abbrev no_spaces : Scanner
no_spaces = record { eat_whitespace = λ s. s; find_whitespace = λ s. [] }

-- Every byte is an entry.
split_bytes : Bytes → List Bytes
split_bytes [] = []
split_bytes (x ∷ xs) = (x ∷ []) ∷ split_bytes xs

tor_version_is_obsolete-expected_example :
    tor_version_is_obsolete one_byte_parse split_bytes (7 ∷ []) (6 ∷ 200 ∷ 8 ∷ [])
    ≡ some (
        if is_empty {A = ℕ} (6 ∷ 200 ∷ 8 ∷ [])
        then empty_list
        else expected_status one_byte_parse (version 7 0) (split_bytes (6 ∷ 200 ∷ 8 ∷ [])))
tor_version_is_obsolete-expected_example =
    tor_version_is_obsolete-expected one_byte_parse split_bytes (7 ∷ []) (6 ∷ 200 ∷ 8 ∷ [])
      (version 7 0) (unfold one_byte_parse in refl)

newer_and_older :
    tor_version_is_obsolete one_byte_parse split_bytes (7 ∷ []) (6 ∷ 200 ∷ 8 ∷ [])
    ≡ some unrecommended
unfolding tor_version_is_obsolete one_byte_parse split_bytes
newer_and_older = refl

all_newer : tor_version_is_obsolete one_byte_parse split_bytes (7 ∷ []) (8 ∷ 9 ∷ []) ≡ some old
unfolding tor_version_is_obsolete one_byte_parse split_bytes
all_newer = refl

abbrev relays_only : ProtocolLists
relays_only = record { supports = λ s p c. true; supports_or_later = λ s p c. false }

abbrev three_requests : List Request
three_requests = summarize (some (1 ∷ [])) none ∷ free_all ∷ summarize (some (1 ∷ [])) none ∷ []

run_requests-answers_to_example :
    (m : SummaryMap) × (run_requests relays_only (λ v c. true) three_requests none
      ≡ some (answers_to relays_only (λ v c. true) three_requests, m))
    × (length (value_or m []) ≤ 1024)
run_requests-answers_to_example = run_requests-answers_to relays_only (λ v c. true) three_requests
