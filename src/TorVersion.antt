-- ===== src/TorVersion.antt =====
-- networking/lib/version.c: the order of Tor versions, the status of one among the recommended ones,
-- and the version in a router's platform line. A field that is an `int` is a word of 32 bits.
-- tor_version_parse, whose text in the file is no C (an `else if` after an `if` with two statements),
-- is the argument `parse`; the string functions of lib/string and lib/container, which are not in the
-- repository, are arguments too.
pub mod Order
pub mod Obsolete
pub mod Protover
mod Tests
use tor_onion.Common.{
  ℕ, zero, suc, ◌+◌, ◌-◌, ◌%◌, ◌^◌, Bool, true, false, not, ◌&&◌, ◌||◌, Option, none, some, List,
  [], ◌∷◌, ◌==◌, ltb, leb, if◌then◌else◌, take, drop, length, is_empty,
}
use tor_onion.MountPoints.Lex.{Bytes, is_prefix}

pub record Version : Type 0 where
  pub major : ℕ
  pub minor : ℕ
  pub micro : ℕ
  pub status : ℕ
  pub patchlevel : ℕ
  pub status_tag : Bytes
  pub svn_revision : ℕ
  pub git_tag_len : ℕ
  pub git_tag : Bytes

-- A result of a comparison: negative, 0 or positive.
pub data Sign : Type 0 where
  negative zero_sign positive : Sign

-- CMP: the difference of two words, read as an `int`.
pub cmp : ℕ → ℕ → Sign
cmp a b =
    let result = (a + 2 ^ 32 - b) % 2 ^ 32 in
    if result == 0 then zero_sign else if ltb result (2 ^ 31) then positive else negative

-- strcmp of the C library, on strings without their final 0.
pub strcmp : Bytes → Bytes → Sign
strcmp [] [] = zero_sign
strcmp [] (y ∷ ys) = negative
strcmp (x ∷ xs) [] = positive
strcmp (x ∷ xs) (y ∷ ys) = if x == y then strcmp xs ys else if ltb x y then negative else positive

-- fast_memcmp of `n` bytes.
pub memcmp : ℕ → Bytes → Bytes → Sign
unfolding strcmp
memcmp n a b = strcmp (take n a) (take n b)

-- `if (result) return result;`
abbrev pub or_else : Sign → Sign → Sign
or_else negative s = negative
or_else zero_sign s = s
or_else positive s = positive

pub tor_version_compare : Version → Version → Sign
unfolding cmp strcmp memcmp
tor_version_compare a b = or_else (cmp a.major b.major) (
    or_else (cmp a.minor b.minor) (
      or_else (cmp a.micro b.micro) (
        or_else (cmp a.status b.status) (
          or_else (cmp a.patchlevel b.patchlevel) (
            or_else (strcmp a.status_tag b.status_tag) (
              or_else (cmp a.svn_revision b.svn_revision) (
                or_else (cmp a.git_tag_len b.git_tag_len) (
                  if not (a.git_tag_len == 0)
                  then memcmp a.git_tag_len a.git_tag b.git_tag
                  else zero_sign))))))))

pub tor_version_same_series : Version → Version → Bool
tor_version_same_series a b = (a.major == b.major) && (a.minor == b.minor) && (a.micro == b.micro)

pub data VersionStatus : Type 0 where
  recommended old new new_in_series unrecommended empty_list : VersionStatus

-- The flags of the loop of tor_version_is_obsolete.
pub record Found : Type 0 where
  pub newer : Bool
  pub older : Bool
  pub newer_in_series : Bool
  pub any_in_series : Bool

-- "Tor ".
abbrev pub tor_prefix : Bytes
tor_prefix = 84 ∷ 111 ∷ 114 ∷ 32 ∷ []

abbrev pub skip_tor : Bytes → Bytes
skip_tor cp = if is_prefix tor_prefix cp then drop 4 cp else cp

pub found_none : Found
found_none = record { newer = false; older = false; newer_in_series = false; any_in_series = false }

-- One entry that is not equal to mine.
pub note_version : Sign → Bool → Found → Found
note_version negative same f = record f {
  newer = true;
  newer_in_series = f.newer_in_series || same;
  any_in_series = f.any_in_series || same;
}
note_version zero_sign same f = record f { any_in_series = f.any_in_series || same }
note_version positive same f = record f { older = true; any_in_series = f.any_in_series || same }

abbrev pub is_zero : Sign → Bool
is_zero zero_sign = true
is_zero _ = false

pub status_of : Found → VersionStatus
status_of f =
    if f.any_in_series && not f.newer_in_series && f.newer
    then new_in_series
    else if f.newer && not f.older
    then old
    else if f.older && not f.newer
    then new
    else unrecommended

-- compare_tor_version_str_ptr_, once both strings have been parsed.
pub compare_parsed : Option Version → Option Version → Bytes → Bytes → Sign
unfolding tor_version_compare strcmp
compare_parsed (some va) (some vb) a b = tor_version_compare va vb
compare_parsed (some va) none a b = negative
compare_parsed none (some vb) a b = positive
compare_parsed none none a b = strcmp a b

module _ (parse : Bytes → Option Version) where
  -- The loop over the list; `none` is the jump to `done` with VS_RECOMMENDED.
  pub scan_versions : Version → List Bytes → Found → Option Found
  unfolding tor_version_compare tor_version_same_series note_version is_prefix
  scan_versions mine [] f = some f
  scan_versions mine (cp ∷ rest) f = elim (parse (skip_tor cp)) [
    | none ↦ scan_versions mine rest f
    | some other ↦
        let r = tor_version_compare mine other in
        let later =
          scan_versions mine rest (note_version r (tor_version_same_series mine other) f) in
        if is_zero r then none else later
  ]

  abbrev end_scan : Option Found → VersionStatus
  unfolding status_of
  end_scan none = recommended
  end_scan (some f) = status_of f

  -- `none`: my own version cannot be parsed, and an assertion fails. `split` is
  -- smartlist_split_string at the commas.
  pub tor_version_is_obsolete : (Bytes → List Bytes) → Bytes → Bytes → Option VersionStatus
  unfolding scan_versions found_none status_of
  tor_version_is_obsolete split myversion versionlist = elim (parse myversion) [
    | none ↦ none
    | some mine ↦
        if is_empty versionlist
        then some empty_list
        else some (end_scan (scan_versions mine (split versionlist) found_none))
  ]

  -- Unparseable strings sort after versions, by strcmp.
  pub compare_tor_version_str_ptr : Bytes → Bytes → Sign
  unfolding compare_parsed
  compare_tor_version_str_ptr a b = compare_parsed (parse a) (parse b) a b

-- The result of tor_version_parse_platform: 0, -1, or 1 with the version.
pub data Platform : Type 0 where
  not_tor unparseable : Platform
  router : Version → Platform

-- A word that is negative as an `int`.
abbrev pub is_negative : ℕ → Bool
is_negative n = not (ltb n (2 ^ 31))

-- eat_whitespace and find_whitespace return a suffix of their argument.
pub record Scanner : Type 0 where
  pub eat_whitespace : Bytes → Bytes
  pub find_whitespace : Bytes → Bytes

-- "(r" and "(git-".
abbrev has_revision : Bytes → Bool
has_revision s = is_prefix (40 ∷ 114 ∷ []) s || is_prefix (40 ∷ 103 ∷ 105 ∷ 116 ∷ 45 ∷ []) s

abbrev pub at_least : Sign → Bool
at_least negative = false
at_least _ = true

module _ (parse : Bytes → Option Version) (sc : Scanner) where
  abbrev pub version_end : Bytes → Bytes
  version_end start =
      let s = sc.find_whitespace start in
      let s2 = sc.eat_whitespace s in if has_revision s2 then sc.find_whitespace s2 else s

  abbrev pub has_negative : Version → Bool
  has_negative v =
      is_negative v.major
      || is_negative v.minor
      || is_negative v.micro
      || is_negative v.patchlevel
      || is_negative v.svn_revision

  -- What stands in `tmp`.
  abbrev pub version_text : Bytes → Bytes
  version_text platform =
      let start = sc.eat_whitespace (drop 3 platform) in
      take (length start - length (version_end start)) start

  pub tor_version_parse_platform : Bytes → Bool → Platform
  unfolding is_prefix
  tor_version_parse_platform platform strict =
      if not (is_prefix tor_prefix platform)
      then not_tor
      else let start = sc.eat_whitespace (drop 3 platform) in
        if is_empty start
        then unparseable
        else let n = length start - length (version_end start) in
          if leb 128 (n + 1) then unparseable else elim (parse (version_text platform)) [
            | none ↦ unparseable
            | some v ↦ if strict && has_negative v then unparseable else router v
          ]

  pub tor_version_as_new_as : Bytes → Bytes → Bool
  unfolding tor_version_parse_platform tor_version_compare
  tor_version_as_new_as platform cutoff = elim (parse cutoff) [
    | none ↦ false
    | some c ↦ elim (tor_version_parse_platform platform false) [
      | not_tor ↦ true
      | unparseable ↦ true
      | router v ↦ at_least (tor_version_compare v c)
    ]
  ]
