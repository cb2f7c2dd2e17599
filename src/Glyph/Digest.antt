-- ===== src/Glyph/Digest.antt =====
-- SkGlyphDigest of app/graphics/glyph/main_gr.cpp: what is to be done with a glyph, one decision for
-- each way to draw it, taken when it is first asked for. The header packs the decisions into cells
-- of `fActions`; here they are a function of the way to draw.
use tor_onion.Common.{
  ℕ, ◌≡◌, refl, ap, sym, Bool, true, false, ◌&&◌, if◌then◌else◌, Bool-cases, inl, inr,
}
use tor_onion.Glyph.{Format, sdf_format, Glyph, GlyphHeader, is_empty_glyph}

pub data GlyphAction : Type 0 where
  unset accept reject drop_glyph : GlyphAction

pub data ActionType : Type 0 where
  direct_mask direct_mask_cpu mask_action sdft path_action drawable_action : ActionType

abbrev pub same_type : ActionType → ActionType → Bool
same_type direct_mask direct_mask = true
same_type direct_mask_cpu direct_mask_cpu = true
same_type mask_action mask_action = true
same_type sdft sdft = true
same_type path_action path_action = true
same_type drawable_action drawable_action = true
same_type _ _ = false

abbrev pub is_unset : GlyphAction → Bool
is_unset unset = true
is_unset _ = false

-- `fits_direct` and `fits_interpolated` are the header's tests of the digest's size.
pub record GlyphDigest : Type 0 where
  pub packed_id : ℕ
  pub index : ℕ
  pub is_empty : Bool
  pub format : Format
  pub actions : ActionType → GlyphAction
  pub left : ℕ
  pub top : ℕ
  pub width : ℕ
  pub height : ℕ

-- StrikeForGPU: each preparation may change the glyph and answers whether it can be drawn so.
pub record Strike : Type 0 where
  pub prepare_for_image : Glyph → Glyph × Bool
  pub prepare_for_path : Glyph → Glyph × Bool
  pub prepare_for_drawable : Glyph → Glyph × Bool
  pub fits_direct : GlyphDigest → Bool
  pub fits_interpolated : GlyphDigest → Bool

abbrev is_sdf : Format → Bool
is_sdf sdf_format = true
is_sdf _ = false

pub init_actions : Bool → ActionType → GlyphAction
init_actions empty t = if empty then drop_glyph else unset

module _ (gh : GlyphHeader) where
  pub make_digest : ℕ → Glyph → GlyphDigest
  unfolding init_actions
  make_digest index g = record {
    packed_id = g.id;
    index = index;
    is_empty = is_empty_glyph gh g;
    format = g.mask_format;
    actions = init_actions (is_empty_glyph gh g);
    left = g.left;
    top = g.top;
    width = g.width;
    height = g.height;
  }

module _ (st : Strike) where
  abbrev accept_if : Bool → GlyphAction
  accept_if ok = if ok then accept else reject

  -- The switch: the glyph after the preparation, and whether it is accepted.
  pub try_action : ActionType → GlyphDigest → Glyph → Glyph × Bool
  try_action direct_mask d g = (g, st.fits_direct d)
  try_action direct_mask_cpu d g = st.prepare_for_image g
  try_action mask_action d g = (g, st.fits_interpolated d)
  try_action sdft d g = (g, st.fits_direct d && is_sdf d.format)
  try_action path_action d g = st.prepare_for_path g
  try_action drawable_action d g = st.prepare_for_drawable g

  pub set_action : GlyphDigest → ActionType → GlyphAction → GlyphDigest
  set_action d t a = record d { actions = λ u. if same_type t u then a else d.actions u }

  pub set_action_for : ActionType → GlyphDigest → Glyph → GlyphDigest × Glyph
  unfolding try_action set_action
  set_action_for t d g =
      if is_unset (d.actions t)
      then (let (g', ok) = try_action t d g in (set_action d t (accept_if ok), g'))
      else (d, g)

same_type_refl : (t : ActionType) → same_type t t ≡ true
same_type_refl direct_mask = refl
same_type_refl direct_mask_cpu = refl
same_type_refl mask_action = refl
same_type_refl sdft = refl
same_type_refl path_action = refl
same_type_refl drawable_action = refl

module _ (st : Strike) where
  already_decided :
      (t : ActionType) (d : GlyphDigest) (g : Glyph)
      → is_unset (d.actions t) ≡ false
      → set_action_for st t d g ≡ (d, g)
  unfolding set_action_for
  already_decided t d g e = rw (e, set_action_for) refl

  decided :
      (t : ActionType) (d : GlyphDigest) (ok : Bool)
      → is_unset ((set_action st d t (accept_if st ok)).actions t) ≡ false
  unfolding set_action
  decided t d true = rw (same_type_refl t) refl
  decided t d false = rw (same_type_refl t) refl

  same_type_eq : (t u : ActionType) → same_type t u ≡ true → t ≡ u
  same_type_eq direct_mask u e =
      elim u as (λ k. same_type direct_mask k ≡ true → direct_mask ≡ k) [
        | direct_mask ↦ λ e. refl
        | _ ↦ λ e. cc
      ]
        e
  same_type_eq direct_mask_cpu u e =
      elim u as (λ k. same_type direct_mask_cpu k ≡ true → direct_mask_cpu ≡ k) [
        | direct_mask_cpu ↦ λ e. refl
        | _ ↦ λ e. cc
      ]
        e
  same_type_eq mask_action u e =
      elim u as (λ k. same_type mask_action k ≡ true → mask_action ≡ k) [
        | mask_action ↦ λ e. refl
        | _ ↦ λ e. cc
      ]
        e
  same_type_eq sdft u e =
      elim u as (λ k. same_type sdft k ≡ true → sdft ≡ k) [ sdft ↦ λ e. refl | _ ↦ λ e. cc ] e
  same_type_eq path_action u e =
      elim u as (λ k. same_type path_action k ≡ true → path_action ≡ k) [
        | path_action ↦ λ e. refl
        | _ ↦ λ e. cc
      ]
        e
  same_type_eq drawable_action u e =
      elim u as (λ k. same_type drawable_action k ≡ true → drawable_action ≡ k) [
        | drawable_action ↦ λ e. refl
        | _ ↦ λ e. cc
      ]
        e

  changed :
      (t u : ActionType) (d : GlyphDigest) (a : GlyphAction)
      → (set_action st d t a).actions u
        ≡ (if same_type t u then (set_action st d t a).actions t else d.actions u)
  unfolding set_action
  changed t u d a = rw (same_type_refl t) refl

  kept :
      (t u : ActionType) (d : GlyphDigest)
      → d.actions u ≡ (if same_type t u then d.actions t else d.actions u)
  kept t u d = elim (Bool-cases (same_type t u)) [
    | inl same ↦ rw same (ap d.actions (sym (same_type_eq t u same)))
    | inr other ↦ rw other refl
  ]

  -- A decision is taken once: afterwards it is taken, a second call asks the strike nothing and
  -- changes neither digest nor glyph, and the other decisions are as before.
  pub set_action_for_once :
      (t u : ActionType) (d : GlyphDigest) (g : Glyph)
      → let (d', g') = set_action_for st t d g in
        (is_unset (d'.actions t) ≡ false)
        × (set_action_for st t d' g' ≡ (d', g'))
        × (d'.actions u ≡ (if same_type t u then d'.actions t else d.actions u))
  unfolding set_action_for
  set_action_for_once t u d g = elim (Bool-cases (is_unset (d.actions t))) [
    | inr taken ↦ rw (taken, set_action_for) (taken, already_decided t d g taken, kept t u d)
    | inl open_still ↦
        let r = try_action st t d g in
        rw (open_still, set_action_for)
          (
            decided t d r.1,
            already_decided t (set_action st d t (accept_if st r.1)) r.0 (decided t d r.1),
            changed t u d (accept_if st r.1),
          )
  ]

-- A digest of an empty glyph drops it however it is drawn, and never asks the strike.
pub make_digest_empty :
    (gh : GlyphHeader) (st : Strike) (index : ℕ) (g : Glyph) (t : ActionType)
    → is_empty_glyph gh g ≡ true
    → ((make_digest gh index g).actions t ≡ drop_glyph)
      × (set_action_for st t (make_digest gh index g) g ≡ (make_digest gh index g, g))
unfolding make_digest set_action_for
make_digest_empty gh st index g t e = rw (e, make_digest) (refl, refl)
