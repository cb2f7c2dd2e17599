-- ===== src/MountPoints/Tests.antt =====
-- The theorems on ExternalMountPoints (z-box/handler-store/external_m.cpp) on concrete paths.
use tor_onion.Common.{
  ◌≡◌, ◌≢◌, refl, ap, ◌∙◌, Bool, true, false, not, ◌&&◌, ◌||◌, none, some, List, [], ◌∷◌, ◌++◌,
  arith, ◌==◌, if◌then◌else◌, is_empty, ◌>>=◌,
}
use tor_onion.MountPoints.Lex.{Bytes, le, eqb, is_prefix}
use tor_onion.MountPoints.SortedMap.{lookup, floor, above, put, insert_entry}
use tor_onion.MountPoints.Paths.{normalize_file_path, PathOps, separator, ends_in_separator}
use tor_onion.MountPoints.Registry.{Inv}
use tor_onion.MountPoints.Overlap.{overlaps_neighbour-any, overlaps_any}
use tor_onion.MountPoints.Registering.{register-Inv}
use tor_onion.MountPoints.Revoking.{revoke-Inv}
use tor_onion.MountPoints.Restoring.{revoke-register}
use tor_onion.MountPoints.Virtual.{get_virtual_path-containing, containing, virtual_under}
use tor_onion.MountPoints.{
  local, MountPoints, empty, register_file_system, revoke_file_system, overlaps_neighbour,
  get_virtual_path,
}

abbrev strip_all : Bytes → Bytes
strip_all [] = []
strip_all (x ∷ xs) =
    let rest = strip_all xs in if is_empty rest && (x == separator) then [] else x ∷ rest

abbrev strip : Bytes → Bytes
strip [] = []
strip (x ∷ xs) = x ∷ strip_all xs

strip_all-strip_all : (p : Bytes) → strip_all (strip_all p) ≡ strip_all p
strip_all-strip_all [] = refl
strip_all-strip_all (x ∷ xs) = ground (arith, strip_all-strip_all xs)

strip_all-snoc : (p : Bytes) → strip_all (p ++ (separator ∷ [])) ≡ strip_all p
strip_all-snoc [] = refl
strip_all-snoc (x ∷ xs) = ground (arith, strip_all-snoc xs)

abbrev drop_prefix : Bytes → Bytes → Bytes
drop_prefix [] c = c
drop_prefix (x ∷ xs) [] = []
drop_prefix (x ∷ xs) (y ∷ ys) = drop_prefix xs ys

abbrev append_component : Bytes → Bytes → Bytes
append_component p c =
    if is_empty p then c else if ends_in_separator p then p ++ c else p ++ (separator ∷ c)

abbrev is_parent_path : Bytes → Bytes → Bool
is_parent_path p c = is_prefix p c && not (eqb p c)

-- The components of a relative path, `current` being the one that is being read.
abbrev split_at_separators : Bytes → Bytes → List Bytes
split_at_separators current [] = if is_empty current then [] else current ∷ []
split_at_separators current (x ∷ xs) =
    let finished = split_at_separators [] xs in
    let longer = split_at_separators (current ++ (x ∷ [])) xs in
    if x == separator then (if is_empty current then finished else current ∷ finished) else longer

abbrev starts_at_root : Bytes → Bool
starts_at_root [] = false
starts_at_root (x ∷ xs) = x == separator

-- `..` among the components.
abbrev mentions_parent : List Bytes → Bool
mentions_parent [] = false
mentions_parent (c ∷ cs) = eqb c (46 ∷ 46 ∷ []) || mentions_parent cs

strip_again_posix :
    (p : Bytes)
    → is_empty p ≡ false
    → ends_in_separator (strip p) ≡ false
    → strip (strip p ++ (separator ∷ [])) ≡ strip p
strip_again_posix [] n e = cc
strip_again_posix (x ∷ xs) n e =
    ap (λ t. x ∷ t) (strip_all-snoc (strip_all xs) ∙ strip_all-strip_all xs)

strip_stripped_posix : (p : Bytes) → strip (strip p) ≡ strip p
strip_stripped_posix [] = refl
strip_stripped_posix (x ∷ xs) = ap (λ t. x ∷ t) (strip_all-strip_all xs)

strip_empty_posix : (p : Bytes) → is_empty (strip p) ≡ is_empty p
strip_empty_posix [] = refl
strip_empty_posix (x ∷ xs) = refl

append_relative_posix :
    (p c path : Bytes)
    → is_parent_path p c ≡ false
    → (if is_parent_path p c then some (append_component path (drop_prefix p c)) else none) ≡ none
append_relative_posix p c path e = ground arith

no_entry : {V : Type 0} (k : Bytes) {v : V} → lookup k [] ≢ some v
unfolding lookup
no_entry k e = cc

abbrev posix : PathOps
posix = record {
  strip_trailing_separators = strip;
  normalize_path_separators = λ p. p;
  is_parent = is_parent_path;
  is_absolute = starts_at_root;
  references_parent = λ p. mentions_parent (split_at_separators [] p);
  get_components = split_at_separators [];
  append = append_component;
  append_relative_path = λ p c path.
      if is_parent_path p c then some (append_component path (drop_prefix p c)) else none;
  from_utf8 = λ p. p;
  as_utf8 = λ p. p;
  normalize_is_id = λ p. refl;
  strip_again = strip_again_posix;
  strip_stripped = strip_stripped_posix;
  strip_empty = strip_empty_posix;
  parent_of_canonical = λ p c h k. refl;
  append_relative_of_parent = append_relative_posix;
}

empty-Inv : Inv posix empty
empty-Inv = record {
  names_sorted = tt;
  paths_sorted = tt;
  apart = tt;
  canonical = tt;
  owned = λ p n e. elim (no_entry p e) [ ];
  listed = λ n i e. elim (no_entry n e) [ ];
}

-- "do" at "/a/".
abbrev mount_name : Bytes
mount_name = 100 ∷ 111 ∷ []

abbrev mount_path : Bytes
mount_path = 47 ∷ 97 ∷ 47 ∷ []

abbrev inner_path : Bytes
inner_path = 47 ∷ 97 ∷ 47 ∷ 98 ∷ 47 ∷ []

abbrev other_path : Bytes
other_path = 47 ∷ 98 ∷ []

abbrev mounted : MountPoints
mounted = (register_file_system posix empty mount_name local 0 mount_path).0

mounted_shape : mounted ≡ record {
  instance_map = (mount_name, record { type = local; path = 47 ∷ 97 ∷ []; mount_option = 0 }) ∷ [];
  path_to_name_map = (mount_path, mount_name) ∷ [];
}
unfolding register_file_system lookup normalize_file_path eqb floor above put insert_entry
mounted_shape = refl

-- A second mount point below the first one is refused.
inner_refused : register_file_system posix mounted (98 ∷ []) local 0 inner_path ≡ (mounted, false)
unfolding register_file_system lookup normalize_file_path eqb floor above put insert_entry le
    is_prefix
inner_refused = refl

register-Inv_example : Inv posix mounted
unfolding normalize_file_path
register-Inv_example = register-Inv posix empty mount_name local 0 mount_path empty-Inv refl

revoke-Inv_example :
    Inv posix (revoke_file_system posix mounted mount_name).0
    × ((revoke_file_system posix mounted mount_name).1 ≡ true)
    × (lookup mount_name (revoke_file_system posix mounted mount_name).0.instance_map ≡ none)
unfolding register_file_system lookup eqb normalize_file_path floor above put
revoke-Inv_example = revoke-Inv posix mounted mount_name mount_name register-Inv_example

revoke-register_example :
    revoke_file_system posix
      (register_file_system posix mounted (98 ∷ []) local 0 other_path).0
      (98 ∷ [])
    ≡ (mounted, true)
unfolding register_file_system normalize_file_path lookup eqb floor above put insert_entry le
    is_prefix
revoke-register_example =
    revoke-register posix mounted (98 ∷ []) local 0 other_path register-Inv_example refl refl

overlaps_neighbour-any_example :
    overlaps_neighbour posix inner_path ((mount_path, mount_name) ∷ [])
    ≡ overlaps_any inner_path ((mount_path, mount_name) ∷ [])
overlaps_neighbour-any_example =
    overlaps_neighbour-any posix inner_path ((mount_path, mount_name) ∷ []) (tt, tt) (tt, tt)
      (refl, tt) refl

get_virtual_path-containing_example :
    get_virtual_path posix mounted inner_path
    ≡ (containing inner_path mounted.path_to_name_map >>= virtual_under posix inner_path)
unfolding register_file_system normalize_file_path
get_virtual_path-containing_example =
    get_virtual_path-containing posix mounted inner_path register-Inv_example refl
