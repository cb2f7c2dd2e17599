-- ===== src/MountPoints/Virtual.antt =====
-- GetVirtualPath of z-box/handler-store/external_m.cpp, which takes the mount point of a path from its
-- neighbour in the sorted map, beside a search through all of them.
use tor_onion.Common.{
  ◌≡◌, sym, subst, inl, inr, true, false, Option, none, some, List, [], ◌∷◌, arith, if◌then◌else◌,
  All, All-mem, Memᴰ, Bool-cases, Option-cases, some_of, ◌>>=◌,
}
use tor_onion.MountPoints.Lex.{Bytes, eqb, is_prefix}
use tor_onion.MountPoints.SortedMap.{floor, floor_mem}
use tor_onion.MountPoints.Paths.{PathOps, is_canonical}
use tor_onion.MountPoints.Overlap.{floor_parent, is_prefix_of_eqb}
use tor_onion.MountPoints.Registry.{Inv, norm}
use tor_onion.MountPoints.{MountPoints, get_virtual_path, create_virtual_root_path}

-- The reference: the first registered path that lies at or above `path`.
pub containing : Bytes → List (Bytes × Bytes) → Option (Bytes × Bytes)
containing path [] = none
containing path ((k, n) ∷ m) = if is_prefix k path then some (k, n) else containing path m

containing_mem :
    (path : Bytes) (m : List (Bytes × Bytes)) {e : Bytes × Bytes}
    → containing path m ≡ some e
    → Memᴰ e m × (is_prefix e.0 path ≡ true)
unfolding containing
containing_mem path [] f = cc
containing_mem path ((k, n) ∷ m) {e} f = elim (Bool-cases (is_prefix k path)) [
  | inl here ↦
      let is : (k, n) ≡ e = some_of (rw (here, containing) at f) in
      (Memᴰ.head (sym is), subst (λ x. is_prefix x.0 path ≡ true) is here)
  | inr away ↦ let (t, h) = containing_mem path m (rw (away, containing) at f) in (Memᴰ.tail t, h)
]

none_contain :
    (path : Bytes) (m : List (Bytes × Bytes))
    → containing path m ≡ none
    → All (λ e. is_prefix e.0 path ≡ false) m
unfolding containing
none_contain path [] f = tt
none_contain path ((k, n) ∷ m) f = elim (Bool-cases (is_prefix k path)) [
  | inl here ↦ cc (rw (here, containing) at f)
  | inr away ↦ (away, none_contain path m (rw (away, containing) at f))
]

module _ (ops : PathOps) where
  -- The virtual path of `path` under the mount point `e` that contains it.
  pub virtual_under : Bytes → Bytes × Bytes → Option Bytes
  virtual_under path e =
      let root = create_virtual_root_path ops e.1 in
      if eqb e.0 path then some root else ops.append_relative_path e.0 path root

  -- A path lies in at most one mount point. It is given the virtual path under that one, and none if
  -- there is none, whatever its neighbour in the map.
  pub get_virtual_path-containing :
      (s : MountPoints) (path_in : Bytes)
      → Inv ops s
      → is_canonical (norm ops path_in) ≡ true
      → get_virtual_path ops s path_in
        ≡ (containing (norm ops path_in) s.path_to_name_map >>= virtual_under (norm ops path_in))
  unfolding get_virtual_path virtual_under
  get_virtual_path-containing s path_in v c =
      let path = norm ops path_in in
      let m = s.path_to_name_map in
      elim (Option-cases (containing path m)) [
        | inr (e, found) ↦
            let (t, h) = containing_mem path m found in
            rw (found, floor_parent path m v.paths_sorted v.apart t h)
        | inl missing ↦ elim (Option-cases (floor path m)) [
          | inl low ↦ rw (missing, low)
          | inr (f, at_f) ↦
              let (t, _) = floor_mem path m at_f in
              let out = All-mem (λ e. is_prefix e.0 path ≡ false) (none_contain path m missing) t in
              let canonical = All-mem (λ e. is_canonical e.0 ≡ true) v.canonical t in
              let no_parent : ops.is_parent f.0 path ≡ false =
                ground (arith, ops.parent_of_canonical f.0 path canonical c) in
              let differs : eqb f.0 path ≡ false = ground (arith, is_prefix_of_eqb f.0 path) in
              rw (missing, at_f)
                (rw differs (
                  ops.append_relative_of_parent f.0 path (create_virtual_root_path ops f.1)
                    no_parent))
        ]
      ]
