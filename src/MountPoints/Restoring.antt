-- ===== src/MountPoints/Restoring.antt =====
-- RevokeFileSystem after RegisterFileSystem (z-box/handler-store/external_m.cpp).
use tor_onion.Common.{
  ℕ, ◌≡◌, inl, inr, true, ◌||◌, none, [], arith, is_empty, All-mem, Bool-cases, Option-cases,
  is_empty-eq,
}
use tor_onion.MountPoints.Lex.{Bytes}
use tor_onion.MountPoints.SortedMap.{lookup, erase_entry-put, erase_missing, lookup_mem}
use tor_onion.MountPoints.Paths.{PathOps, is_canonical, normalize-strip, is_empty-normalize}
use tor_onion.MountPoints.Registry.{Inv, norm, IsValid, valid, lookup-put_same}
use tor_onion.MountPoints.Registering.{paths_added, paths_kept, no_path, new_instance}
use tor_onion.MountPoints.{
  FileSystemType, Instance, MountPoints, is_overlapping_mount_path_forbidden,
  validate_new_mount_point, add_mount_point, register_file_system, remove_mount_point,
  revoke_file_system,
}

-- The empty path is never registered.
lookup_empty : (ops : PathOps) (s : MountPoints) → Inv ops s → lookup [] s.path_to_name_map ≡ none
lookup_empty ops s v = elim (Option-cases (lookup [] s.path_to_name_map)) [
  | inl e ↦ e
  | inr (n, e) ↦
      cc (All-mem (λ x. is_canonical x.0 ≡ true) v.canonical (lookup_mem [] s.path_to_name_map e))
]

module _ (ops : PathOps) (s : MountPoints) (v : Inv ops s) (name : Bytes) (type : FileSystemType)
    (option : ℕ) (path : Bytes) (ok : IsValid s name type path)
    (canon : (is_empty path || is_canonical path) ≡ true)
    (normal : norm ops (ops.strip_trailing_separators path) ≡ path) where
  abbrev added : MountPoints
  added = add_mount_point ops s name type option path

  abbrev instance : Instance
  instance = new_instance ops s v name type option path ok canon normal

  paths_restored :
      (remove_mount_point ops added name instance).path_to_name_map ≡ s.path_to_name_map
  unfolding remove_mount_point
  paths_restored = elim (Bool-cases (is_overlapping_mount_path_forbidden type)) [
    | inr loose ↦
        rw (loose, remove_mount_point)
          (paths_kept ops s v name type option path ok canon normal (ground arith))
    | inl strict ↦ elim (Bool-cases (is_empty path)) [
      | inr filled ↦
          let put_in = paths_added ops s v name type option path ok canon normal (ground arith) in
          let fresh = no_path ops s v name type option path ok canon normal (ground arith) in
          rw (strict, remove_mount_point)
            (rw (put_in, normal) (erase_entry-put path name s.path_to_name_map fresh))
      | inl blank ↦
          let kept = paths_kept ops s v name type option path ok canon normal (ground arith) in
          let missing = lookup_empty ops s v in
          rw (strict, remove_mount_point)
            (rw (kept, normal)
              (rw (is_empty-eq path blank) (erase_missing [] s.path_to_name_map missing)))
    ]
  ]

  names_restored : (remove_mount_point ops added name instance).instance_map ≡ s.instance_map
  unfolding remove_mount_point add_mount_point
  names_restored = erase_entry-put name instance s.instance_map ok.fresh

  pub restored : remove_mount_point ops added name instance ≡ s
  restored = λ i. record { instance_map = names_restored i; path_to_name_map = paths_restored i }

-- A registration that succeeds is undone by revoking its name: both maps are again what they were.
pub revoke-register :
    (ops : PathOps) (s : MountPoints) (name : Bytes) (type : FileSystemType) (option : ℕ)
    (path_in : Bytes)
    → Inv ops s
    → (is_empty path_in || is_canonical (norm ops path_in)) ≡ true
    → (register_file_system ops s name type option path_in).1 ≡ true
    → revoke_file_system ops (register_file_system ops s name type option path_in).0 name
      ≡ (s, true)
unfolding register_file_system revoke_file_system
revoke-register ops s name type option path_in v c done =
    let path = norm ops path_in in
    let canon : (is_empty path || is_canonical path) ≡ true =
      ground (arith, is_empty-normalize ops path_in) in
    elim (Bool-cases (validate_new_mount_point ops s name type path)) [
      | inr bad ↦ cc (rw (bad, register_file_system) at done)
      | inl good ↦
          let ok = valid ops s name type path v canon good in
          let normal = normalize-strip ops path_in in
          let found =
            lookup-put_same name (new_instance ops s v name type option path ok canon normal)
              s.instance_map in
          rw (good, register_file_system)
            (rw (found, revoke_file_system)
              (λ i. (restored ops s v name type option path ok canon normal i, true)))
    ]
