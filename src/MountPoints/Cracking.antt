-- ===== src/MountPoints/Cracking.antt =====
-- CrackVirtualPath, CrackFileSystemURL and the callers of z-box/handler-store/external_m.cpp, and
-- how registering and revoking change what they answer.
use tor_onion.Common.{
  ℕ, ◌≡◌, refl, inl, inr, subst, Bool, true, false, not, Option, none, some, List, [], ◌∷◌, arith,
  if◌then◌else◌, is_empty, is_some, Bool-cases, Option-cases, ◌>>=◌,
}
use tor_onion.MountPoints.Lex.{Bytes, eqb, eqb_iff}
use tor_onion.MountPoints.SortedMap.{
  lookup, put, erase_entry, lookup-put, lookup-erase_entry, erase_missing,
}
use tor_onion.MountPoints.Paths.{PathOps, normalize_file_path}
use tor_onion.MountPoints.{
  FileSystemType, external, local_for_platform_app, local, Instance, MountPoints, Cracked,
  crack_components, crack_virtual_path, get_virtual_path, handles_file_system_mount_type,
  validate_new_mount_point, add_mount_point, register_file_system, remove_mount_point,
  revoke_file_system, external_virtual_path,
}

-- A valid FileSystemURL; `none` stands for the invalid FileSystemURL().
pub record FileSystemUrl : Type 0 where
  pub storage_key : ℕ
  pub mount_type : FileSystemType
  pub virtual_path : Bytes
  pub mount_filesystem_id : Bytes
  pub type : FileSystemType
  pub path : Bytes
  pub filesystem_id : Bytes
  pub mount_option : ℕ

-- The constructors of FileSystemURL that parse, which are not in the repository, and the platform.
pub record UrlOps : Type 0 where
  pub is_chromeos : Bool
  pub parse : Bytes → ℕ → Option FileSystemUrl
  pub make : ℕ → FileSystemType → Bytes → FileSystemUrl

module _ (ops : PathOps) (urls : UrlOps) where
  -- The URL that the cracked virtual path gives; the cracked id is always empty.
  pub cracked_url : FileSystemUrl → Cracked → FileSystemUrl
  cracked_url url c = record {
    storage_key = url.storage_key;
    mount_type = url.mount_type;
    virtual_path = url.virtual_path;
    mount_filesystem_id =
        if not (is_empty url.filesystem_id) then url.filesystem_id else c.mount_name;
    type = c.type;
    path = c.path;
    filesystem_id = c.mount_name;
    mount_option = c.mount_option;
  }

  abbrev local_url : FileSystemUrl → FileSystemUrl
  local_url url = record {
    storage_key = url.storage_key;
    mount_type = url.mount_type;
    virtual_path = url.virtual_path;
    mount_filesystem_id = url.mount_filesystem_id;
    type = local;
    path = url.path;
    filesystem_id = url.filesystem_id;
    mount_option = url.mount_option;
  }

  abbrev is_platform_app : FileSystemType → Bool
  is_platform_app local_for_platform_app = true
  is_platform_app _ = false

  abbrev crack_at : MountPoints → FileSystemUrl → Bytes → Option FileSystemUrl
  crack_at s url virtual_path =
      crack_virtual_path ops s virtual_path >>= λ c. some (cracked_url url c)

  pub crack_file_system_url : MountPoints → FileSystemUrl → Option FileSystemUrl
  crack_file_system_url s url =
      if not (handles_file_system_mount_type url.type)
      then none
      else if is_platform_app url.type
      then (if urls.is_chromeos
          then (get_virtual_path ops s url.path >>= crack_at s url)
          else some (local_url url))
      else crack_at s url url.path

  pub crack_url : MountPoints → Bytes → ℕ → Option FileSystemUrl
  unfolding crack_file_system_url
  crack_url s url key = urls.parse url key >>= crack_file_system_url s

  pub create_cracked_file_system_url :
      MountPoints → ℕ → FileSystemType → Bytes → Option FileSystemUrl
  unfolding crack_file_system_url
  create_cracked_file_system_url s key type virtual_path =
      crack_file_system_url s (urls.make key type virtual_path)

  pub create_external_file_system_url : MountPoints → ℕ → Bytes → Bytes → Option FileSystemUrl
  unfolding create_cracked_file_system_url external_virtual_path
  create_external_file_system_url s key name path =
      create_cracked_file_system_url s key external (external_virtual_path ops name path)

abbrev pub unless_named : Bytes → Cracked → Option Cracked
unless_named name c = if eqb name c.mount_name then none else some c

module _ (ops : PathOps) where
  crack_components-erase_entry :
      (s : MountPoints) (name : Bytes) (paths : List (Bytes × Bytes)) (cs : List Bytes)
      → crack_components ops
          (record { instance_map = erase_entry name s.instance_map; path_to_name_map = paths })
          cs
        ≡ (crack_components ops s cs >>= unless_named name)
  unfolding crack_components
  crack_components-erase_entry s name paths [] = refl
  crack_components-erase_entry s name paths (c ∷ cs) =
      let law = lookup-erase_entry name (ops.as_utf8 c) s.instance_map in
      elim (Option-cases (lookup (ops.as_utf8 c) s.instance_map)) [
        | inl missing ↦ rw (law, crack_components) (rw missing (ground arith))
        | inr (i, found) ↦ rw (law, crack_components) (rw found (ground arith))
      ]

  crack_components-missing :
      (s : MountPoints) (name : Bytes) (cs : List Bytes)
      → lookup name s.instance_map ≡ none
      → crack_components ops s cs ≡ (crack_components ops s cs >>= unless_named name)
  crack_components-missing s name cs missing =
      subst
        (λ m.
          crack_components ops (record { instance_map = m; path_to_name_map = s.path_to_name_map })
            cs
          ≡ (crack_components ops s cs >>= unless_named name))
        (erase_missing name s.instance_map missing)
        (crack_components-erase_entry s name s.path_to_name_map cs)

  crack_components-put :
      (s : MountPoints) (name : Bytes) (i : Instance) (paths : List (Bytes × Bytes))
      (cs : List Bytes)
      → lookup name s.instance_map ≡ none
      → is_some (crack_components ops s cs) ≡ true
      → crack_components ops
          (record { instance_map = put name i s.instance_map; path_to_name_map = paths })
          cs
        ≡ crack_components ops s cs
  unfolding crack_components
  crack_components-put s name i paths [] new e = refl
  crack_components-put s name i paths (c ∷ cs) new e =
      let law = lookup-put name (ops.as_utf8 c) i s.instance_map in
      elim (Bool-cases (eqb name (ops.as_utf8 c))) [
        | inr other ↦ rw (law, crack_components) (rw (other, crack_components) refl)
        | inl same ↦
            let is : name ≡ ops.as_utf8 c = (eqb_iff name (ops.as_utf8 c)).0 same in
            let absent : lookup (ops.as_utf8 c) s.instance_map ≡ none =
              subst (λ x. lookup x s.instance_map ≡ none) is new in
            cc (rw (absent, crack_components) at e)
      ]

  -- Once a name is revoked, no virtual path cracks to it; every virtual path of another mount point
  -- cracks as before.
  pub crack_virtual_path-revoke :
      (s : MountPoints) (name virtual_path : Bytes)
      → crack_virtual_path ops (revoke_file_system ops s name).0 virtual_path
        ≡ (crack_virtual_path ops s virtual_path >>= unless_named name)
  unfolding crack_virtual_path revoke_file_system remove_mount_point
  crack_virtual_path-revoke s name vp = elim (Bool-cases (ops.references_parent vp)) [
    | inl bad ↦ rw (bad, crack_virtual_path) refl
    | inr good ↦
        let cs = ops.get_components vp in
        elim (Option-cases (lookup name s.instance_map)) [
          | inl missing ↦
              rw (missing, revoke_file_system)
                (rw (good, crack_virtual_path) (crack_components-missing s name cs missing))
          | inr (i, found) ↦
              rw (found, revoke_file_system)
                (rw (good, crack_virtual_path)
                  (crack_components-erase_entry s name
                    (remove_mount_point ops s name i).path_to_name_map cs))
        ]
  ]

  fresh_of_valid :
      (s : MountPoints) (name : Bytes) (type : FileSystemType) (path : Bytes)
      → validate_new_mount_point ops s name type path ≡ true
      → lookup name s.instance_map ≡ none
  unfolding validate_new_mount_point
  fresh_of_valid s name type path e = ground arith

  -- A registration, successful or not, changes nothing for a virtual path that cracked before it.
  pub crack_virtual_path-register :
      (s : MountPoints) (name : Bytes) (type : FileSystemType) (option : ℕ)
      (path_in virtual_path : Bytes)
      → is_some (crack_virtual_path ops s virtual_path) ≡ true
      → crack_virtual_path ops (register_file_system ops s name type option path_in).0 virtual_path
        ≡ crack_virtual_path ops s virtual_path
  unfolding crack_virtual_path register_file_system add_mount_point
  crack_virtual_path-register s name type option path_in vp cracked =
      let path = normalize_file_path ops path_in in
      elim (Bool-cases (validate_new_mount_point ops s name type path)) [
        | inr bad ↦ rw (bad, register_file_system) refl
        | inl good ↦
            let new = fresh_of_valid s name type path good in
            elim (Bool-cases (ops.references_parent vp)) [
              | inl up ↦ cc (rw (up, crack_virtual_path) at cracked)
              | inr down ↦
                  rw (good, register_file_system)
                    (rw (down, crack_virtual_path)
                      (crack_components-put s name
                        (record {
                          type = type;
                          path = ops.strip_trailing_separators path;
                          mount_option = option;
                        })
                        (add_mount_point ops s name type option path).path_to_name_map
                        (ops.get_components vp) new (rw (down, crack_virtual_path) at cracked)))
            ]
      ]
