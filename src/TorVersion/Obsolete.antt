-- ===== src/TorVersion/Obsolete.antt =====
-- tor_version_is_obsolete of networking/lib/version.c beside what its answers mean.
use tor_onion.Common.{
  ◌≡◌, Bool, true, false, not, ◌&&◌, ◌||◌, Option, none, some, List, [], ◌∷◌, if◌then◌else◌, arith,
  is_empty, Option-cases, inl, inr,
}
use tor_onion.MountPoints.Lex.{Bytes}
use tor_onion.TorVersion.{
  Version, Sign, negative, positive, tor_version_compare, tor_version_same_series, VersionStatus,
  recommended, old, new, new_in_series, unrecommended, empty_list, Found, skip_tor, found_none,
  note_version, is_zero, status_of, scan_versions, tor_version_is_obsolete,
}

-- Some entry that can be parsed has the property.
unfoldable pub any_version : (Bytes → Option Version) → (Version → Bool) → List Bytes → Bool
any_version parse p [] = false
any_version parse p (cp ∷ rest) =
    (elim (parse (skip_tor cp)) [ none ↦ false | some v ↦ p v ]) || any_version parse p rest

abbrev pub is_negative_sign : Sign → Bool
is_negative_sign negative = true
is_negative_sign _ = false

abbrev pub is_positive_sign : Sign → Bool
is_positive_sign positive = true
is_positive_sign _ = false

abbrev pub equals : Version → Version → Bool
equals mine v = is_zero (tor_version_compare mine v)

abbrev pub newer : Version → Version → Bool
newer mine v = is_negative_sign (tor_version_compare mine v)

abbrev pub older : Version → Version → Bool
older mine v = is_positive_sign (tor_version_compare mine v)

abbrev pub newer_in_series : Version → Version → Bool
newer_in_series mine v =
    is_negative_sign (tor_version_compare mine v) && tor_version_same_series mine v

module _ (parse : Bytes → Option Version) (mine : Version) where
  -- The status by what the list contains.
  unfoldable pub expected_status : List Bytes → VersionStatus
  unfolding any_version
  expected_status versions =
      if any_version parse (equals mine) versions
      then recommended
      else if any_version parse (tor_version_same_series mine) versions
          && not (any_version parse (newer_in_series mine) versions)
          && any_version parse (newer mine) versions
      then new_in_series
      else if any_version parse (newer mine) versions
          && not (any_version parse (older mine) versions)
      then old
      else if any_version parse (older mine) versions
          && not (any_version parse (newer mine) versions)
      then new
      else unrecommended

  abbrev joined : Found → List Bytes → Found
  joined f versions = record {
    newer = f.newer || any_version parse (newer mine) versions;
    older = f.older || any_version parse (older mine) versions;
    newer_in_series = f.newer_in_series || any_version parse (newer_in_series mine) versions;
    any_in_series = f.any_in_series || any_version parse (tor_version_same_series mine) versions;
  }

  scan_versions_lem :
      (versions : List Bytes) (f : Found)
      → scan_versions parse mine versions f
        ≡ (if any_version parse (equals mine) versions then none else some (joined f versions))
  unfolding scan_versions any_version note_version
  scan_versions_lem [] f = ground arith
  scan_versions_lem (cp ∷ rest) f = elim (Option-cases (parse (skip_tor cp))) [
    | inl e ↦ ground (arith, scan_versions_lem rest f)
    | inr (v, e) ↦
        (ground (
          arith,
          scan_versions_lem rest
              (note_version (tor_version_compare mine v) (tor_version_same_series mine v) f),
        ))
  ]

-- If my own version can be parsed, tor_version_is_obsolete answers by what the list contains, in
-- whatever order: for an empty list VS_EMPTY; VS_RECOMMENDED exactly if some entry is equal to mine;
-- otherwise VS_NEW_IN_SERIES if one is newer and of my series there is one, and none is newer;
-- otherwise VS_OLD or VS_NEW if all are newer, or all older, and there is one; else VS_UNRECOMMENDED.
-- Entries that cannot be parsed do not count.
pub tor_version_is_obsolete-expected :
    (parse : Bytes → Option Version) (split : Bytes → List Bytes) (myversion versionlist : Bytes)
    (mine : Version)
    → parse myversion ≡ some mine
    → tor_version_is_obsolete parse split myversion versionlist
      ≡ some (
          if is_empty versionlist
          then empty_list
          else expected_status parse mine (split versionlist))
unfolding tor_version_is_obsolete expected_status found_none status_of
tor_version_is_obsolete-expected parse split myversion versionlist mine e =
    rw (e, tor_version_is_obsolete)
      (ground (arith, scan_versions_lem parse mine (split versionlist) found_none))
