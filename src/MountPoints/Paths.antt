-- ===== src/MountPoints/Paths.antt =====
-- base::FilePath on a POSIX system, as z-box/handler-store/external_m.cpp uses it, and the file's
-- own NormalizeFilePath.
use tor_onion.Common.{
  refl, is_empty-eq, arith, ℕ, ◌≡◌, Bool, true, false, not, ◌&&◌, ◌||◌, Option, none, List, [], ◌∷◌,
  ◌++◌, ◌==◌, if◌then◌else◌, is_empty,
}
use tor_onion.MountPoints.Lex.{Bytes, eqb, is_prefix}

-- `/`, FilePath::kSeparators[0].
abbrev pub separator : ℕ
separator = 47

-- `back()` of a non-empty string is the separator.
abbrev pub ends_in_separator : Bytes → Bool
ends_in_separator [] = false
ends_in_separator (x ∷ []) = x == separator
ends_in_separator (x ∷ y ∷ ys) = ends_in_separator (y ∷ ys)

-- Two separators in a row.
abbrev pub has_double : Bytes → Bool
has_double [] = false
has_double (x ∷ []) = false
has_double (x ∷ y ∷ ys) = ((x == separator) && (y == separator)) || has_double (y ∷ ys)

-- A path with one separator behind each component.
abbrev pub is_canonical : Bytes → Bool
is_canonical p = ends_in_separator p && not (has_double p)

-- What base/files/file_path.h documents of the calls that this file makes.
pub record PathOps : Type 0 where
  pub strip_trailing_separators : Bytes → Bytes
  pub normalize_path_separators : Bytes → Bytes
  pub is_parent : Bytes → Bytes → Bool
  pub is_absolute : Bytes → Bool
  pub references_parent : Bytes → Bool
  pub get_components : Bytes → List Bytes
  pub append : Bytes → Bytes → Bytes
  -- parent.AppendRelativePath(child, &path): the path given, with the rest of the child appended.
  pub append_relative_path : Bytes → Bytes → Bytes → Option Bytes
  pub from_utf8 : Bytes → Bytes
  pub as_utf8 : Bytes → Bytes
  -- "or do nothing on POSIX systems".
  pub normalize_is_id : (p : Bytes) → normalize_path_separators p ≡ p
  -- "a copy of this FilePath that does not end with a trailing separator".
  pub strip_again :
      (p : Bytes)
      → is_empty p ≡ false
      → ends_in_separator (strip_trailing_separators p) ≡ false
      → strip_trailing_separators (strip_trailing_separators p ++ (separator ∷ []))
        ≡ strip_trailing_separators p
  pub strip_stripped :
      (p : Bytes)
      → strip_trailing_separators (strip_trailing_separators p) ≡ strip_trailing_separators p
  pub strip_empty : (p : Bytes) → is_empty (strip_trailing_separators p) ≡ is_empty p
  -- "Returns true if this FilePath is a parent or ancestor of the child".
  pub parent_of_canonical :
      (p c : Bytes)
      → is_canonical p ≡ true
      → is_canonical c ≡ true
      → is_parent p c ≡ (is_prefix p c && not (eqb p c))
  -- "If IsParent(child) holds, appends to path the relative path to child and returns true".
  pub append_relative_of_parent :
      (p c path : Bytes) → is_parent p c ≡ false → append_relative_path p c path ≡ none

pub ends-snoc : (p : Bytes) → ends_in_separator (p ++ (separator ∷ [])) ≡ true
ends-snoc [] = refl
ends-snoc (x ∷ []) = refl
ends-snoc (x ∷ y ∷ ys) = ends-snoc (y ∷ ys)

is_empty-snoc : (p : Bytes) → is_empty (p ++ (separator ∷ [])) ≡ false
is_empty-snoc [] = refl
is_empty-snoc (x ∷ xs) = refl

module _ (ops : PathOps) where
  open ops use {strip_trailing_separators, normalize_path_separators}

  unfoldable pub normalize_file_path : Bytes → Bytes
  normalize_file_path path =
      if is_empty path
      then path
      else let path_str = strip_trailing_separators path in
        if not (ends_in_separator path_str)
        then normalize_path_separators (path_str ++ (separator ∷ []))
        else normalize_path_separators path_str

  -- Normalising what a registered instance stores gives the key under which it was registered.
  pub normalize-strip :
      (p : Bytes)
      → normalize_file_path (strip_trailing_separators (normalize_file_path p))
        ≡ normalize_file_path p
  unfolding normalize_file_path
  normalize-strip p = ground (
    arith,
    ops.strip_again p,
    ops.strip_stripped p,
    ops.strip_empty p,
    ops.strip_empty (strip_trailing_separators p),
    ops.normalize_is_id (strip_trailing_separators p),
    ops.normalize_is_id (strip_trailing_separators p ++ (separator ∷ [])),
    is_empty-eq p,
    is_empty-eq (strip_trailing_separators p),
  )

  pub is_empty-normalize : (p : Bytes) → is_empty (normalize_file_path p) ≡ is_empty p
  unfolding normalize_file_path
  is_empty-normalize p = ground (
    arith,
    ops.strip_empty p,
    ops.normalize_is_id (strip_trailing_separators p),
    ops.normalize_is_id (strip_trailing_separators p ++ (separator ∷ [])),
    is_empty-snoc (strip_trailing_separators p),
  )
