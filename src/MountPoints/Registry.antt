-- ===== src/MountPoints/Registry.antt =====
-- The two maps of z-box/handler-store/external_m.cpp: what keeps them consistent, and what a valid
-- registration has passed.
use tor_onion.Common.{
  ◌≡◌, sym, ◌∙◌, inl, inr, true, false, ◌||◌, none, some, List, [], ◌∷◌, arith, is_empty, All,
  All-mem, Bool-cases, Option-cases,
}
use tor_onion.MountPoints.Lex.{Bytes, eqb, le, eqb_iff, eqb_refl, is_prefix_refl}
use tor_onion.MountPoints.SortedMap.{
  lookup, put, insert_entry, erase_entry, Sorted, lookup-put, All-put, All-erase_entry, lookup_mem,
}
use tor_onion.MountPoints.Paths.{PathOps, is_canonical, normalize_file_path}
use tor_onion.MountPoints.Overlap.{related, Apart, Canonical, overlaps_none, overlaps_neighbour-any}
use tor_onion.MountPoints.{
  FileSystemType, Instance, MountPoints, is_overlapping_mount_path_forbidden,
  validate_new_mount_point,
}

related_sym : (a b : Bytes) → related a b ≡ related b a
related_sym a b = ground arith

module _ {V : Type 0} where
  pub put-Apart :
      (k : Bytes) (v : V) (m : List (Bytes × V))
      → All (λ e. related k e.0 ≡ false) m
      → Apart m
      → Apart (put k v m)
  unfolding put
  put-Apart k v [] h a = (tt, tt)
  put-Apart k v ((j, w) ∷ m) h a = elim (Bool-cases (eqb j k)) [
    | inl same ↦ rw (same, put) a
    | inr other ↦ elim (Bool-cases (le k j)) [
      | inl before ↦ rw (other, put) (rw before (h, a))
      | inr after ↦
          rw (other, put)
            (rw after (
              All-put (λ e. related j e.0 ≡ false) k v m (related_sym j k ∙ h.0) a.0,
              put-Apart k v m h.1 a.1,
            ))
    ]
  ]

  pub erase_entry-Apart : (k : Bytes) (m : List (Bytes × V)) → Apart m → Apart (erase_entry k m)
  unfolding erase_entry
  erase_entry-Apart k [] a = tt
  erase_entry-Apart k ((j, w) ∷ m) a = elim (Bool-cases (eqb j k)) [
    | inl same ↦ rw (same, erase_entry) (erase_entry-Apart k m a.1)
    | inr other ↦
        rw (other, erase_entry)
          (All-erase_entry (λ e. related j e.0 ≡ false) k m a.0, erase_entry-Apart k m a.1)
  ]

  -- A path that overlaps no key is not a key.
  pub lookup_apart :
      (k : Bytes) (m : List (Bytes × V)) → All (λ e. related k e.0 ≡ false) m → lookup k m ≡ none
  lookup_apart k m h = elim (Option-cases (lookup k m)) [
    | inl e ↦ e
    | inr (v, e) ↦
        let apart = All-mem (λ x. related k x.0 ≡ false) h (lookup_mem k m e) in
        ground (arith, is_prefix_refl k)
  ]

-- An entry stays when a new key is put in, and any entry that stays is one of another key.
pub lookup-put_old {ℓ} :
    {V : Type ℓ} (k j : Bytes) (v : V) {w : V} (m : List (Bytes × V))
    → lookup k m ≡ none
    → lookup j m ≡ some w
    → lookup j (put k v m) ≡ some w
lookup-put_old k j v m new old = ground (arith, lookup-put k j v m, eqb_iff k j)

pub lookup-put_same {ℓ} :
    {V : Type ℓ} (k : Bytes) (v : V) (m : List (Bytes × V)) → lookup k (put k v m) ≡ some v
lookup-put_same k v m = ground (arith, lookup-put k k v m, eqb_refl k)

pub insert_entry-put {ℓ} :
    {V : Type ℓ} (k : Bytes) (v : V) (m : List (Bytes × V))
    → lookup k m ≡ none
    → insert_entry k v m ≡ put k v m
unfolding insert_entry
insert_entry-put k v m e = ground arith

-- What a valid registration has passed.
pub record IsValid (s : MountPoints) (name : Bytes) (type : FileSystemType) (path : Bytes)
    : Type 0 where
  pub named : is_empty name ≡ false
  pub fresh : lookup name s.instance_map ≡ none
  pub free :
      is_empty path ≡ false
      → is_overlapping_mount_path_forbidden type ≡ true
      → All (λ e. related path e.0 ≡ false) s.path_to_name_map

module _ (ops : PathOps) where
  abbrev pub norm : Bytes → Bytes
  norm = normalize_file_path ops

  -- Both maps are sorted, registered paths are canonical and none lies at, above or below another;
  -- a registered path belongs to a mount point that forbids overlap and has it as its path, and each
  -- such mount point with a path has it registered.
  pub record Inv (s : MountPoints) : Type 0 where
    pub names_sorted : Sorted s.instance_map
    pub paths_sorted : Sorted s.path_to_name_map
    pub apart : Apart s.path_to_name_map
    pub canonical : Canonical s.path_to_name_map
    pub owned :
        (p n : Bytes)
        → lookup p s.path_to_name_map ≡ some n
        → (i : Instance) × (lookup n s.instance_map ≡ some i)
          × (is_overlapping_mount_path_forbidden i.type ≡ true)
          × (norm i.path ≡ p)
    pub listed :
        (n : Bytes) (i : Instance)
        → lookup n s.instance_map ≡ some i
        → is_overlapping_mount_path_forbidden i.type ≡ true
        → is_empty i.path ≡ false
        → lookup (norm i.path) s.path_to_name_map ≡ some n

  pub valid :
      (s : MountPoints) (name : Bytes) (type : FileSystemType) (path : Bytes)
      → Inv s
      → (is_empty path || is_canonical path) ≡ true
      → validate_new_mount_point ops s name type path ≡ true
      → IsValid s name type path
  unfolding validate_new_mount_point
  valid s name type path v c e = record {
    named = ground arith;
    fresh = ground arith;
    free = λ ne fb. overlaps_none path s.path_to_name_map (
        sym (
          overlaps_neighbour-any ops path s.path_to_name_map v.paths_sorted v.apart v.canonical
            (ground arith))
        ∙ ground arith);
  }
