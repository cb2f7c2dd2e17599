-- ===== src/MountPoints.antt =====
-- z-box/handler-store/external_m.cpp: ExternalMountPoints, the named mount points of the external
-- file system, each operation under its lock, so as one step. A base::FilePath is its value, a list
-- of bytes, on a POSIX system.
pub mod Lex
pub mod SortedMap
pub mod Paths
pub mod Overlap
pub mod Registry
pub mod Registering
pub mod Revoking
pub mod Restoring
pub mod Virtual
pub mod Cracking
mod Tests
use tor_onion.Common.{
  ℕ, ◌≡◌, Bool, true, false, not, ◌&&◌, ◌||◌, Option, none, some, List, [], ◌∷◌, ◌++◌, map, ◌==◌,
  if◌then◌else◌, is_empty, is_some, ◌>>=◌, foldl,
}
use tor_onion.MountPoints.Lex.{Bytes, eqb}
use tor_onion.MountPoints.SortedMap.{lookup, put, insert_entry, erase_entry, floor, above}
use tor_onion.MountPoints.Paths.{PathOps, separator, normalize_file_path}

-- The file system types that the code tells apart.
pub data FileSystemType : Type 0 where
  external local_for_platform_app local_media device_media local : FileSystemType
  other : ℕ → FileSystemType

abbrev is_overlapping_mount_path_forbidden : FileSystemType → Bool
is_overlapping_mount_path_forbidden local_media = false
is_overlapping_mount_path_forbidden device_media = false
is_overlapping_mount_path_forbidden _ = true

pub record Instance : Type 0 where
  pub type : FileSystemType
  pub path : Bytes
  pub mount_option : ℕ

pub record MountPoints : Type 0 where
  pub instance_map : List (Bytes × Instance)
  pub path_to_name_map : List (Bytes × Bytes)

abbrev empty : MountPoints
empty = record { instance_map = []; path_to_name_map = [] }

pub handles_file_system_mount_type : FileSystemType → Bool
handles_file_system_mount_type external = true
handles_file_system_mount_type local_for_platform_app = true
handles_file_system_mount_type _ = false

pub get_registered_path : MountPoints → Bytes → Option Bytes
get_registered_path s id = lookup id s.instance_map >>= λ i. some i.path

pub revoke_all_file_systems : MountPoints → MountPoints
revoke_all_file_systems s = empty

-- AddMountPointInfosTo: the names and paths in the order of the map (points.cpp is the pair).
pub record MountPointInfo : Type 0 where
  pub name : Bytes
  pub path : Bytes

pub mount_point_infos : MountPoints → List MountPointInfo
mount_point_infos s = map (λ e. record { name = e.0; path = e.1.path }) s.instance_map

-- What CrackVirtualPath fills in.
pub record Cracked : Type 0 where
  pub mount_name : Bytes
  pub type : FileSystemType
  pub path : Bytes
  pub mount_option : ℕ

module _ (ops : PathOps) where
  open ops use {
    strip_trailing_separators, is_parent, is_absolute, references_parent, get_components, append,
    append_relative_path, from_utf8, as_utf8,
  }

  -- The two neighbours of `path` among the registered paths.
  pub has_parent_at : Bytes → Option (Bytes × Bytes) → Bool
  has_parent_at path none = false
  has_parent_at path (some (k, _)) = eqb k path || is_parent k path

  pub has_child_at : Bytes → Option (Bytes × Bytes) → Bool
  has_child_at path none = false
  has_child_at path (some (k, _)) = eqb k path || is_parent path k

  pub overlaps_neighbour : Bytes → List (Bytes × Bytes) → Bool
  unfolding has_parent_at has_child_at
  overlaps_neighbour path m = has_parent_at path (floor path m) || has_child_at path (above path m)

  pub validate_new_mount_point : MountPoints → Bytes → FileSystemType → Bytes → Bool
  unfolding overlaps_neighbour
  validate_new_mount_point s name type path =
      if is_empty name
      then false
      else if is_some (lookup name s.instance_map)
      then false
      else if is_empty path
      then true
      else if references_parent path || not (is_absolute path)
      then false
      else if is_overlapping_mount_path_forbidden type
      then not (overlaps_neighbour path s.path_to_name_map)
      else true

  -- Both maps after a registration that is valid; the instance strips its path.
  pub add_mount_point : MountPoints → Bytes → FileSystemType → ℕ → Bytes → MountPoints
  add_mount_point s name type option path = record {
    instance_map =
        put name
          (record { type = type; path = strip_trailing_separators path; mount_option = option })
          s.instance_map;
    path_to_name_map =
        if not (is_empty path) && is_overlapping_mount_path_forbidden type
        then insert_entry path name s.path_to_name_map
        else s.path_to_name_map;
  }

  pub register_file_system : MountPoints → Bytes → FileSystemType → ℕ → Bytes → MountPoints × Bool
  unfolding validate_new_mount_point add_mount_point
  register_file_system s name type option path_in =
      let path = normalize_file_path ops path_in in
      if validate_new_mount_point s name type path
      then (add_mount_point s name type option path, true)
      else (s, false)

  pub remove_mount_point : MountPoints → Bytes → Instance → MountPoints
  remove_mount_point s name i = record {
    instance_map = erase_entry name s.instance_map;
    path_to_name_map =
        if is_overlapping_mount_path_forbidden i.type
        then erase_entry (normalize_file_path ops i.path) s.path_to_name_map
        else s.path_to_name_map;
  }

  pub revoke_file_system : MountPoints → Bytes → MountPoints × Bool
  unfolding remove_mount_point
  revoke_file_system s name = elim (lookup name s.instance_map) [
    | none ↦ (s, false)
    | some i ↦ (remove_mount_point s name i, true)
  ]

  pub create_virtual_root_path : Bytes → Bytes
  create_virtual_root_path name = append [] (from_utf8 name)

  -- The virtual path of a path, if one is found.
  pub get_virtual_path : MountPoints → Bytes → Option Bytes
  unfolding create_virtual_root_path
  get_virtual_path s path_in =
      let path = normalize_file_path ops path_in in
      floor path s.path_to_name_map >>= λ e.
      if eqb e.0 path
      then some (create_virtual_root_path e.1)
      else append_relative_path e.0 path (create_virtual_root_path e.1)

  pub crack_components : MountPoints → List Bytes → Option Cracked
  crack_components s [] = none
  crack_components s (c ∷ cs) =
      let name = as_utf8 c in
      lookup name s.instance_map >>= λ i. some (record {
        mount_name = name;
        type = i.type;
        path = foldl append i.path cs;
        mount_option = i.mount_option;
      })

  -- The cracked id is left as the caller's, which is empty.
  pub crack_virtual_path : MountPoints → Bytes → Option Cracked
  unfolding crack_components
  crack_virtual_path s virtual_path =
      if references_parent virtual_path
      then none
      else crack_components s (get_components virtual_path)

  -- CreateVirtualRootPath(mount_name).value() + FilePath::kSeparators[0] + path.value()
  pub external_virtual_path : Bytes → Bytes → Bytes
  external_virtual_path name path = create_virtual_root_path name ++ (separator ∷ path)
