-- ===== src/TorVersion/Order.antt =====
-- tor_version_compare of networking/lib/version.c beside the lexicographic order of lists, and the
-- order by which sort_version_list sorts.
use tor_onion.Common.{
  ℕ, zero, suc, ◌+◌, ◌<◌, ◌^◌, ◌≡◌, refl, subst, Bool, true, false, not, Option, none, some, [],
  ◌∷◌, ◌++◌, ◌==◌, if◌then◌else◌, arith, take, All, Bool-cases, inl, inr, ◌⊎◌,
}
use tor_onion.MountPoints.Lex.{Bytes, eqb, le, eqb_iff, le_trans, le_total, le_antisym, le_refl}
use tor_onion.TorVersion.{
  Version, Sign, negative, zero_sign, positive, cmp, strcmp, memcmp, or_else, tor_version_compare,
  compare_tor_version_str_ptr, compare_parsed, Platform, not_tor, unparseable, router, at_least,
  version_text, Scanner, tor_version_as_new_as, tor_version_parse_platform,
}

-- A version whose numbers are below 2^31, as words of 32 bits, and whose tag has no 0. A revision that
-- tor_version_parse makes negative, by its cast of what strtol reads, is none.
pub record IsValid (v : Version) : Type 0 where
  pub major_int : v.major < 2 ^ 31
  pub minor_int : v.minor < 2 ^ 31
  pub micro_int : v.micro < 2 ^ 31
  pub status_int : v.status < 2 ^ 31
  pub patchlevel_int : v.patchlevel < 2 ^ 31
  pub no_zero : All (λ c. 0 < c) v.status_tag
  pub svn_int : v.svn_revision < 2 ^ 31
  pub len_int : v.git_tag_len < 2 ^ 31

-- A version as the list of its parts, the tag closed by a 0.
abbrev pub parts : Version → Bytes
parts v =
    v.major
    ∷ v.minor
    ∷ v.micro
    ∷ v.status
    ∷ v.patchlevel
    ∷ (v.status_tag ++ (0 ∷ v.svn_revision ∷ v.git_tag_len ∷ take v.git_tag_len v.git_tag))

-- The lexicographic order.
unfoldable pub lex : Bytes → Bytes → Sign
lex a b = if eqb a b then zero_sign else if le a b then negative else positive

cmp-lex :
    (x y : ℕ) (xs ys : Bytes)
    → x < 2 ^ 31
    → y < 2 ^ 31
    → or_else (cmp x y) (lex xs ys) ≡ lex (x ∷ xs) (y ∷ ys)
unfolding cmp lex eqb le
cmp-lex x y xs ys p q = ground arith

strcmp-lex :
    (xs ys us vs : Bytes)
    → All (λ c. 0 < c) xs
    → All (λ c. 0 < c) ys
    → or_else (strcmp xs ys) (lex us vs) ≡ lex (xs ++ (0 ∷ us)) (ys ++ (0 ∷ vs))
unfolding strcmp lex eqb le
strcmp-lex [] [] us vs p q = ground arith
strcmp-lex [] (y ∷ ys) us vs p q = ground arith
strcmp-lex (x ∷ xs) [] us vs p q = ground arith
strcmp-lex (x ∷ xs) (y ∷ ys) us vs p q = ground (arith, strcmp-lex xs ys us vs)

strcmp_order : (xs ys : Bytes) → strcmp xs ys ≡ lex xs ys
unfolding strcmp lex eqb le
strcmp_order [] [] = refl
strcmp_order [] (y ∷ ys) = refl
strcmp_order (x ∷ xs) [] = refl
strcmp_order (x ∷ xs) (y ∷ ys) = ground (arith, strcmp_order xs ys)

digest-lex :
    (m n : ℕ) (g h : Bytes)
    → m < 2 ^ 31
    → n < 2 ^ 31
    → or_else (cmp m n) (if not (m == 0) then memcmp m g h else zero_sign)
      ≡ lex (m ∷ take m g) (n ∷ take n h)
unfolding cmp memcmp lex eqb le
digest-lex zero n g h p q = ground arith
digest-lex (suc m) n g h p q = elim (Bool-cases (suc m == n)) [
  | inl same ↦
      let e : suc m ≡ n = ground arith in
      rw (← e) (ground (arith, strcmp_order (take (suc m) g) (take (suc m) h)))
  | inr apart ↦ ground arith
]

-- On versions whose numbers, the revision among them, are below 2^31, and whose tags have no 0:
-- tor_version_compare is the lexicographic order of their parts, which are major, minor, micro,
-- status, patchlevel, tag, revision, and the digest's length and bytes.
pub tor_version_compare-lex :
    (v w : Version) → IsValid v → IsValid w → tor_version_compare v w ≡ lex (parts v) (parts w)
unfolding tor_version_compare
tor_version_compare-lex v w p q =
    rw (digest-lex v.git_tag_len w.git_tag_len v.git_tag w.git_tag p.len_int q.len_int) (
      rw (cmp-lex v.svn_revision w.svn_revision _ _ p.svn_int q.svn_int) (
        rw (strcmp-lex v.status_tag w.status_tag _ _ p.no_zero q.no_zero) (
          rw (cmp-lex v.patchlevel w.patchlevel _ _ p.patchlevel_int q.patchlevel_int) (
            rw (cmp-lex v.status w.status _ _ p.status_int q.status_int) (
              rw (cmp-lex v.micro w.micro _ _ p.micro_int q.micro_int) (
                rw (cmp-lex v.minor w.minor _ _ p.minor_int q.minor_int)
                  (cmp-lex v.major w.major _ _ p.major_int q.major_int)))))))

abbrev pub opposite : Sign → Sign
opposite negative = positive
opposite zero_sign = zero_sign
opposite positive = negative

-- Not after.
abbrev pub is_upto : Sign → Bool
is_upto positive = false
is_upto _ = true

lex_flip : (a b : Bytes) → lex b a ≡ opposite (lex a b)
unfolding lex
lex_flip a b = ground (arith, eqb_iff a b, eqb_iff b a, le_total a b, le_antisym a b)

lex_trans :
    (a b c : Bytes) → is_upto (lex a b) ≡ true → is_upto (lex b c) ≡ true → is_upto (lex a c) ≡ true
unfolding lex
lex_trans a b c = ground (arith, eqb_iff a b, eqb_iff b c, eqb_iff a c, le_trans a b c, le_refl c)

tor_version_compare_flip :
    (a b : Version)
    → IsValid a
    → IsValid b
    → tor_version_compare b a ≡ opposite (tor_version_compare a b)
tor_version_compare_flip a b p q =
    rw (tor_version_compare-lex a b p q, tor_version_compare-lex b a q p)
      (lex_flip (parts a) (parts b))

pub tor_version_compare_trans :
    (a b c : Version)
    → IsValid a
    → IsValid b
    → IsValid c
    → is_upto (tor_version_compare a b) ≡ true
    → is_upto (tor_version_compare b c) ≡ true
    → is_upto (tor_version_compare a c) ≡ true
tor_version_compare_trans a b c p q r e f = rw (tor_version_compare-lex a c p r) (
    lex_trans (parts a) (parts b) (parts c) (rw (← tor_version_compare-lex a b p q) e)
      (rw (← tor_version_compare-lex b c q r) f))

-- What smartlist_sort asks of a comparison: exchanged arguments give the opposite sign, and it is
-- transitive.
pub record IsOrder {ℓ} {A : Type ℓ} (compare : A → A → Sign) : Type ℓ where
  pub flip : (a b : A) → compare b a ≡ opposite (compare a b)
  pub trans :
      (a b c : A)
      → is_upto (compare a b) ≡ true
      → is_upto (compare b c) ≡ true
      → is_upto (compare a c) ≡ true

abbrev pub AllValid : Option Version → Type 0
AllValid none = Unit
AllValid (some v) = IsValid v

AllValid-some : (o : Option Version) (v : Version) → AllValid o → o ≡ some v → IsValid v
AllValid-some o v h e = subst AllValid e h

compare_parsed_flip :
    (o p : Option Version) (a b : Bytes)
    → AllValid o
    → AllValid p
    → compare_parsed p o b a ≡ opposite (compare_parsed o p a b)
unfolding compare_parsed
compare_parsed_flip (some v) (some w) a b p q = tor_version_compare_flip v w p q
compare_parsed_flip (some v) none a b p q = refl
compare_parsed_flip none (some w) a b p q = refl
compare_parsed_flip none none a b p q = rw (strcmp_order a b, strcmp_order b a) (lex_flip a b)

compare_parsed_trans :
    (o p q : Option Version) (a b c : Bytes)
    → AllValid o
    → AllValid p
    → AllValid q
    → is_upto (compare_parsed o p a b) ≡ true
    → is_upto (compare_parsed p q b c) ≡ true
    → is_upto (compare_parsed o q a c) ≡ true
unfolding compare_parsed
compare_parsed_trans (some u) (some v) (some w) a b c h i j e f =
    tor_version_compare_trans u v w h i j e f
compare_parsed_trans (some u) (some v) none a b c h i j e f = refl
compare_parsed_trans (some u) none (some w) a b c h i j e f = cc
compare_parsed_trans (some u) none none a b c h i j e f = refl
compare_parsed_trans none (some v) q a b c h i j e f = cc
compare_parsed_trans none none (some w) a b c h i j e f = cc
compare_parsed_trans none none none a b c h i j e f =
    rw (strcmp_order a c) (lex_trans a b c (rw (← strcmp_order a b) e) (rw (← strcmp_order b c) f))

-- A string that cannot be parsed, or that is parsed to a valid version.
pub record Comparable (parse : Bytes → Option Version) : Type 0 where
  pub text : Bytes
  pub parsed_valid : AllValid (parse text)

-- Whatever tor_version_parse yields: on the strings that it does not parse, or parses to a version
-- whose numbers are below 2^31 and whose tag has no 0, the comparison by which sort_version_list sorts
-- and removes duplicates is a total order up to ties.
pub compare_tor_version_str_ptr-IsOrder :
    (parse : Bytes → Option Version)
    → IsOrder {A = Comparable parse} (λ a b. compare_tor_version_str_ptr parse a.text b.text)
unfolding compare_tor_version_str_ptr
compare_tor_version_str_ptr-IsOrder parse = record {
  flip = λ a b.
      compare_parsed_flip (parse a.text) (parse b.text) a.text b.text a.parsed_valid b.parsed_valid;
  trans = λ a b c.
      compare_parsed_trans (parse a.text) (parse b.text) (parse c.text) a.text b.text c.text
        a.parsed_valid b.parsed_valid c.parsed_valid;
}

abbrev pub with_revision : ℕ → Version → Version
with_revision r v = record v { svn_revision = r }

cmp_same : (x : ℕ) → cmp x x ≡ zero_sign
unfolding cmp
cmp_same x = ground arith

strcmp_same : (xs : Bytes) → strcmp xs xs ≡ zero_sign
unfolding strcmp
strcmp_same [] = refl
strcmp_same (x ∷ xs) = ground (arith, strcmp_same xs)

revision_decides :
    (v : Version) (r s : ℕ)
    → cmp r s ≡ negative
    → tor_version_compare (with_revision r v) (with_revision s v) ≡ negative
unfolding tor_version_compare
revision_decides v r s e =
    rw
      (
        cmp_same v.major,
        cmp_same v.minor,
        cmp_same v.micro,
        cmp_same v.status,
        cmp_same v.patchlevel,
        strcmp_same v.status_tag,
        e,
      )
      refl

half_apart :
    (r : ℕ) → r < 2 ^ 31 → (cmp r (r + 2 ^ 31) ≡ negative) × (cmp (r + 2 ^ 31) r ≡ negative)
unfolding cmp
half_apart r h = ground arith

-- Of two versions that differ only in their revisions, which as words of 32 bits are 2^31 apart, each
-- is before the other: on such versions tor_version_compare is no order.
pub tor_version_compare_overflow :
    (v : Version) (r : ℕ)
    → r < 2 ^ 31
    → (tor_version_compare (with_revision r v) (with_revision (r + 2 ^ 31) v) ≡ negative)
      × (tor_version_compare (with_revision (r + 2 ^ 31) v) (with_revision r v) ≡ negative)
tor_version_compare_overflow v r h =
    let (up, down) = half_apart r h in
    (revision_decides v r (r + 2 ^ 31) up, revision_decides v (r + 2 ^ 31) r down)

platform-parsed :
    (parse : Bytes → Option Version) (sc : Scanner) (platform : Bytes) (v : Version)
    → tor_version_parse_platform parse sc platform false ≡ router v
    → parse (version_text parse sc platform) ≡ some v
unfolding tor_version_parse_platform
platform-parsed parse sc platform v e = ground arith

Platform-cases :
    (p : Platform) → ((v : Version) × (p ≡ router v)) ⊎ ((p ≡ not_tor) ⊎ (p ≡ unparseable))
Platform-cases not_tor = inr (inl refl)
Platform-cases unparseable = inr (inr refl)
Platform-cases (router v) = inl (v, refl)

-- What is not before a cutoff is not before a lower one.
at_least_trans :
    (v c l : Version)
    → IsValid v
    → IsValid c
    → IsValid l
    → is_upto (tor_version_compare l c) ≡ true
    → at_least (tor_version_compare v c) ≡ true
    → at_least (tor_version_compare v l) ≡ true
at_least_trans v c l p q r below h = ground (
  arith,
  tor_version_compare_flip v c p q,
  tor_version_compare_flip l v r p,
  tor_version_compare_trans l c v r q p,
)

module _ (parse : Bytes → Option Version) (sc : Scanner) (platform : Bytes) where
  -- tor_version_as_new_as, once the cutoff has been parsed.
  reaches : Platform → Version → Bool
  reaches not_tor c = true
  reaches unparseable c = true
  reaches (router v) c = at_least (tor_version_compare v c)

  as_new_as-reaches :
      (cutoff : Bytes) (c : Version)
      → parse cutoff ≡ some c
      → tor_version_as_new_as parse sc platform cutoff
        ≡ reaches (tor_version_parse_platform parse sc platform false) c
  unfolding tor_version_as_new_as reaches
  as_new_as-reaches cutoff c e = ground arith

  -- A router that is as new as a cutoff is as new as every lower cutoff, if both cutoffs are parsed to
  -- valid versions and the router's version, where it is parsed, is valid.
  pub tor_version_as_new_as_lower :
      (cutoff lower : Bytes) (c l : Version)
      → AllValid (parse (version_text parse sc platform))
      → IsValid c
      → IsValid l
      → parse cutoff ≡ some c
      → parse lower ≡ some l
      → is_upto (tor_version_compare l c) ≡ true
      → tor_version_as_new_as parse sc platform cutoff ≡ true
      → tor_version_as_new_as parse sc platform lower ≡ true
  unfolding reaches
  tor_version_as_new_as_lower cutoff lower c l valid vc vl ec el below reached =
      rw (as_new_as-reaches lower l el)
        (elim (Platform-cases (tor_version_parse_platform parse sc platform false)) [
          | inl (v, e) ↦ rw e (
              at_least_trans v c l (AllValid-some _ v valid (platform-parsed parse sc platform v e))
                vc vl below
                (subst (λ x. reaches x c ≡ true) e (rw (← as_new_as-reaches cutoff c ec) reached)))
          | inr (inl e) ↦ rw e refl
          | inr (inr e) ↦ rw e refl
        ])
