-- ===== src/MountPoints/Revoking.antt =====
-- RevokeFileSystem of z-box/handler-store/external_m.cpp, alone and after a registration.
use tor_onion.Common.{
  ◌≡◌, refl, sym, ap, subst, ◌∙◌, inl, inr, Bool, true, false, ◌&&◌, none, some, List, arith,
  if◌then◌else◌, is_empty, is_some, Bool-cases, Option-cases, some_of,
}
use tor_onion.MountPoints.Lex.{Bytes, eqb, eqb_iff, eqb_refl}
use tor_onion.MountPoints.SortedMap.{
  lookup, erase_entry, lookup-erase_entry, All-erase_entry, erase_entry-Sorted,
}
use tor_onion.MountPoints.Paths.{PathOps, is_canonical, is_empty-normalize}
use tor_onion.MountPoints.Registry.{Inv, norm, erase_entry-Apart}
use tor_onion.MountPoints.{
  Instance, MountPoints, is_overlapping_mount_path_forbidden, remove_mount_point,
  revoke_file_system,
}

-- An entry that is found after an erasure was there before, under another key.
kept_entry {ℓ} :
    {V : Type ℓ} (k j : Bytes) {w : V} (m : List (Bytes × V))
    → lookup j (erase_entry k m) ≡ some w
    → (lookup j m ≡ some w) × (eqb k j ≡ false)
kept_entry k j m e = ground (arith, lookup-erase_entry k j m)

lookup-erase_other {ℓ} :
    {V : Type ℓ} (k j : Bytes) {w : V} (m : List (Bytes × V))
    → lookup j m ≡ some w
    → eqb k j ≡ false
    → lookup j (erase_entry k m) ≡ some w
lookup-erase_other k j m e f = ground (arith, lookup-erase_entry k j m)

module _ (ops : PathOps) where
  module _ (s : MountPoints) (v : Inv ops s) (name : Bytes) (i : Instance)
      (found : lookup name s.instance_map ≡ some i) where
    abbrev removed : MountPoints
    removed = remove_mount_point ops s name i

    abbrev forbidden : Bool
    forbidden = is_overlapping_mount_path_forbidden i.type

    names_removed : removed.instance_map ≡ erase_entry name s.instance_map
    unfolding remove_mount_point
    names_removed = refl

    paths_removed :
        forbidden ≡ true
        → removed.path_to_name_map ≡ erase_entry (norm ops i.path) s.path_to_name_map
    unfolding remove_mount_point
    paths_removed e = rw (e, remove_mount_point)

    paths_kept : forbidden ≡ false → removed.path_to_name_map ≡ s.path_to_name_map
    unfolding remove_mount_point
    paths_kept e = rw (e, remove_mount_point)

    -- What the path map still holds was there, and under another path than that of the instance.
    path_stays :
        (p n : Bytes)
        → lookup p removed.path_to_name_map ≡ some n
        → (lookup p s.path_to_name_map ≡ some n) × ((forbidden && eqb (norm ops i.path) p) ≡ false)
    path_stays p n e = elim (Bool-cases forbidden) [
      | inl f ↦
          let (old, other) =
            kept_entry (norm ops i.path) p s.path_to_name_map (rw (paths_removed f) at e) in
          (old, rw f other)
      | inr f ↦ (rw (paths_kept f) at e, rw f)
    ]

    owned_removed :
        (p n : Bytes)
        → lookup p removed.path_to_name_map ≡ some n
        → (j : Instance) × (lookup n removed.instance_map ≡ some j)
          × (is_overlapping_mount_path_forbidden j.type ≡ true)
          × (norm ops j.path ≡ p)
    owned_removed p n e =
        let (old, other) = path_stays p n e in
        let (j, l, fb, q) = v.owned p n old in
        elim (Bool-cases (eqb name n)) [
          | inr away ↦
              (j, rw names_removed (lookup-erase_other name n s.instance_map l away), fb, q)
          | inl same ↦
              let is : i ≡ j = some_of (
                sym found
                ∙ subst (λ x. lookup x s.instance_map ≡ some j) (sym ((eqb_iff name n).0 same))
                    l) in
              let here : forbidden ≡ true =
                subst (λ x. is_overlapping_mount_path_forbidden x.type ≡ true) (sym is) fb in
              let at_p : norm ops i.path ≡ p = subst (λ x. norm ops x.path ≡ p) (sym is) q in
              absurd (clash here (rw at_p (eqb_refl p)) other)
        ]
      where
        clash : {a b : Bool} → a ≡ true → b ≡ true → (a && b) ≡ false → ⊥
        clash x y z = ground arith

    listed_removed :
        (n : Bytes) (j : Instance)
        → lookup n removed.instance_map ≡ some j
        → is_overlapping_mount_path_forbidden j.type ≡ true
        → is_empty j.path ≡ false
        → lookup (norm ops j.path) removed.path_to_name_map ≡ some n
    listed_removed n j l fb ne =
        let (l', other) = kept_entry name n s.instance_map (rw names_removed at l) in
        let old = v.listed n j l' fb ne in
        elim (Bool-cases forbidden) [
          | inr f ↦ rw (paths_kept f) old
          | inl f ↦ rw (paths_removed f) (
              lookup-erase_other (norm ops i.path) (norm ops j.path) s.path_to_name_map old
                (distinct f old other))
        ]
      where
        distinct :
            forbidden ≡ true
            → lookup (norm ops j.path) s.path_to_name_map ≡ some n
            → eqb name n ≡ false
            → eqb (norm ops i.path) (norm ops j.path) ≡ false
        distinct f old other = elim (Bool-cases (eqb (norm ops i.path) (norm ops j.path))) [
          | inr fine ↦ fine
          | inl same ↦
              let is = (eqb_iff (norm ops i.path) (norm ops j.path)).0 same in
              let filled : is_empty i.path ≡ false =
                sym (is_empty-normalize ops i.path)
                ∙ ap is_empty is
                ∙ is_empty-normalize ops j.path
                ∙ ne in
              let mine = v.listed name i found f filled in
              let both : name ≡ n =
                some_of (sym mine ∙ ap (λ x. lookup x s.path_to_name_map) is ∙ old) in
              cc (sym ((eqb_iff name n).1 both) ∙ other)
        ]

    remove-Inv : Inv ops removed
    remove-Inv = record {
      names_sorted = rw names_removed (erase_entry-Sorted name s.instance_map v.names_sorted);
      paths_sorted = elim (Bool-cases forbidden) [
        | inl e ↦ rw (paths_removed e) (erase_entry-Sorted _ s.path_to_name_map v.paths_sorted)
        | inr e ↦ rw (paths_kept e) v.paths_sorted
      ];
      apart = elim (Bool-cases forbidden) [
        | inl e ↦ rw (paths_removed e) (erase_entry-Apart _ s.path_to_name_map v.apart)
        | inr e ↦ rw (paths_kept e) v.apart
      ];
      canonical = elim (Bool-cases forbidden) [
        | inl e ↦
            rw (paths_removed e)
              (All-erase_entry (λ x. is_canonical x.0 ≡ true) _ s.path_to_name_map v.canonical)
        | inr e ↦ rw (paths_kept e) v.canonical
      ];
      owned = owned_removed;
      listed = listed_removed;
    }

  -- A revocation keeps the maps consistent, answers whether the name was registered, and takes that
  -- name, and no other, out of the registered ones.
  pub revoke-Inv :
      (s : MountPoints) (name other : Bytes)
      → Inv ops s
      → Inv ops (revoke_file_system ops s name).0
        × ((revoke_file_system ops s name).1 ≡ is_some (lookup name s.instance_map))
        × (lookup other (revoke_file_system ops s name).0.instance_map
            ≡ (if eqb name other then none else lookup other s.instance_map))
  unfolding revoke_file_system remove_mount_point
  revoke-Inv s name other v = elim (Option-cases (lookup name s.instance_map)) [
    | inl e ↦ rw (e, revoke_file_system) (v, refl, ground (arith, eqb_iff name other))
    | inr (i, e) ↦
        rw (e, revoke_file_system)
          (remove-Inv s v name i e, refl, lookup-erase_entry name other s.instance_map)
  ]
