-- ===== src/MountPoints/Registering.antt =====
-- RegisterFileSystem of z-box/handler-store/external_m.cpp.
use tor_onion.Common.{
  ℕ, ◌≡◌, refl, ap, subst, ◌∙◌, inl, inr, Bool, true, false, not, ◌&&◌, ◌||◌, none, some, arith,
  is_empty, Bool-cases,
}
use tor_onion.MountPoints.Lex.{Bytes, eqb, eqb_iff}
use tor_onion.MountPoints.SortedMap.{lookup, put, lookup-put, All-put, put-Sorted}
use tor_onion.MountPoints.Paths.{PathOps, is_canonical, normalize-strip, is_empty-normalize}
use tor_onion.MountPoints.{
  FileSystemType, Instance, MountPoints, is_overlapping_mount_path_forbidden,
  validate_new_mount_point, add_mount_point, register_file_system,
}
use tor_onion.MountPoints.Registry.{
  Inv, norm, IsValid, valid, put-Apart, lookup_apart, lookup-put_old, lookup-put_same,
  insert_entry-put,
}

module _ (ops : PathOps) where
  module _ (s : MountPoints) (v : Inv ops s) (name : Bytes) (type : FileSystemType) (option : ℕ)
      (path : Bytes) (ok : IsValid s name type path)
      (canon : (is_empty path || is_canonical path) ≡ true)
      (normal : norm ops (ops.strip_trailing_separators path) ≡ path) where
    abbrev pub added : MountPoints
    added = add_mount_point ops s name type option path

    abbrev pub new_instance : Instance
    new_instance = record {
      type = type;
      path = ops.strip_trailing_separators path;
      mount_option = option;
    }

    -- Whether the path goes into the second map.
    abbrev pub registers : Bool
    registers = not (is_empty path) && is_overlapping_mount_path_forbidden type

    pub no_path : registers ≡ true → lookup path s.path_to_name_map ≡ none
    no_path e = lookup_apart path s.path_to_name_map (ok.free (ground arith) (ground arith))

    pub names_added : added.instance_map ≡ put name new_instance s.instance_map
    unfolding add_mount_point
    names_added = refl

    pub paths_added : registers ≡ true → added.path_to_name_map ≡ put path name s.path_to_name_map
    unfolding add_mount_point
    paths_added e =
        rw (e, add_mount_point) (insert_entry-put path name s.path_to_name_map (no_path e))

    pub paths_kept : registers ≡ false → added.path_to_name_map ≡ s.path_to_name_map
    unfolding add_mount_point
    paths_kept e = rw (e, add_mount_point)

    owned_added :
        (p n : Bytes)
        → lookup p added.path_to_name_map ≡ some n
        → (i : Instance) × (lookup n added.instance_map ≡ some i)
          × (is_overlapping_mount_path_forbidden i.type ≡ true)
          × (norm ops i.path ≡ p)
    owned_added p n e = elim (Bool-cases registers) [
      | inr kept ↦ old (rw (paths_kept kept) at e)
      | inl put_in ↦
          let e' = rw (paths_added put_in) at e in
          let law = lookup-put path p name s.path_to_name_map in
          elim (Bool-cases (eqb path p)) [
            | inr other ↦ old (ground arith)
            | inl same ↦
                let is : name ≡ n = ground arith in
                (
                  new_instance,
                  rw names_added (
                      subst
                        (λ x. lookup x (put name new_instance s.instance_map) ≡ some new_instance)
                        is (lookup-put_same name new_instance s.instance_map)),
                  ground arith,
                  normal ∙ (eqb_iff path p).0 same,
                )
          ]
    ]
      where
        old :
            lookup p s.path_to_name_map ≡ some n
            → (i : Instance) × (lookup n added.instance_map ≡ some i)
              × (is_overlapping_mount_path_forbidden i.type ≡ true)
              × (norm ops i.path ≡ p)
        old f =
            let (i, l, fb, q) = v.owned p n f in
            (
              i,
              rw names_added (lookup-put_old name n new_instance s.instance_map ok.fresh l),
              fb,
              q,
            )

    new_registers :
        (i : Instance)
        → new_instance ≡ i
        → is_overlapping_mount_path_forbidden i.type ≡ true
        → is_empty i.path ≡ false
        → registers ≡ true
    new_registers i is fb ne = ground (arith, ops.strip_empty path)

    listed_added :
        (n : Bytes) (i : Instance)
        → lookup n added.instance_map ≡ some i
        → is_overlapping_mount_path_forbidden i.type ≡ true
        → is_empty i.path ≡ false
        → lookup (norm ops i.path) added.path_to_name_map ≡ some n
    listed_added n i l fb ne =
        let l' = rw names_added at l in
        let law = lookup-put name n new_instance s.instance_map in
        elim (Bool-cases (eqb name n)) [
          | inl same ↦
              let is : new_instance ≡ i = ground arith in
              subst (λ x. lookup (norm ops x.path) added.path_to_name_map ≡ some n) is
                (rw normal (
                  rw (paths_added (new_registers i is fb ne)) (
                    lookup-put_same path name s.path_to_name_map
                    ∙ ap some ((eqb_iff name n).0 same))))
          | inr other ↦
              let old = v.listed n i (ground arith) fb ne in
              elim (Bool-cases registers) [
                | inr kept ↦ rw (paths_kept kept) old
                | inl put_in ↦ rw (paths_added put_in) (
                    lookup-put_old path (norm ops i.path) name s.path_to_name_map (no_path put_in)
                      old)
              ]
        ]

    pub add-Inv : Inv ops added
    add-Inv = record {
      names_sorted = rw names_added (put-Sorted name new_instance s.instance_map v.names_sorted);
      paths_sorted = elim (Bool-cases registers) [
        | inl e ↦ rw (paths_added e) (put-Sorted path name s.path_to_name_map v.paths_sorted)
        | inr e ↦ rw (paths_kept e) v.paths_sorted
      ];
      apart = elim (Bool-cases registers) [
        | inl e ↦
            rw (paths_added e) (
              put-Apart path name s.path_to_name_map (ok.free (ground arith) (ground arith))
                v.apart)
        | inr e ↦ rw (paths_kept e) v.apart
      ];
      canonical = elim (Bool-cases registers) [
        | inl e ↦ rw (paths_added e) (
            All-put (λ x. is_canonical x.0 ≡ true) path name s.path_to_name_map (ground arith)
              v.canonical)
        | inr e ↦ rw (paths_kept e) v.canonical
      ];
      owned = owned_added;
      listed = listed_added;
    }

  -- A registration of a canonical path, or of none, keeps the maps consistent, whether it succeeds
  -- or not.
  pub register-Inv :
      (s : MountPoints) (name : Bytes) (type : FileSystemType) (option : ℕ) (path_in : Bytes)
      → Inv ops s
      → (is_empty path_in || is_canonical (norm ops path_in)) ≡ true
      → Inv ops (register_file_system ops s name type option path_in).0
  unfolding register_file_system
  register-Inv s name type option path_in v c =
      let path = norm ops path_in in
      let canon : (is_empty path || is_canonical path) ≡ true =
        ground (arith, is_empty-normalize ops path_in) in
      elim (Bool-cases (validate_new_mount_point ops s name type path)) [
        | inr bad ↦ rw (bad, register_file_system) v
        | inl good ↦
            rw (good, register_file_system)
              (add-Inv s v name type option path (valid ops s name type path v canon good) canon
                (normalize-strip ops path_in))
      ]
