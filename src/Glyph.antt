-- ===== src/Glyph.antt =====
-- app/graphics/glyph/main_gr.cpp: SkGlyph, its metrics and the image, path and drawable that are
-- attached to it once each. Scalars are their 32-bit patterns, a path, a picture and a drawable the
-- numbers that name them; `left` and `top` are the 16-bit patterns of the signed fields. An arena
-- only provides memory. Assertions change nothing in a release build.
pub mod Buffers
pub mod Intercepts
pub mod Digest
pub mod Size
pub mod Once
pub mod Rounding
mod Tests
use tor_onion.Common.{
  ℕ, ◌+◌, ◌*◌, ◌/◌, ◌≡◌, Bool, true, false, not, ◌||◌, Option, none, some, List, [], if◌then◌else◌,
  u64, is_some, take,
}

-- SkMask::Format.
pub data Format : Type 0 where
  bw_format a8_format three_d_format argb32_format lcd16_format sdf_format : Format

-- An interval that a path has been found to leave out, for two horizontal bounds.
pub record Intercept : Type 0 where
  pub upper : ℕ
  pub lower : ℕ
  pub left : ℕ
  pub right : ℕ

-- `path` is meaningful if `has_path`; `intercepts` is the linked list, newest first.
pub record PathData : Type 0 where
  pub path : ℕ
  pub has_path : Bool
  pub is_hairline : Bool
  pub is_modified : Bool
  pub intercepts : List Intercept

-- The drawable, if there is one.
pub record DrawableData : Type 0 where
  pub drawable : Option ℕ

pub record Glyph : Type 0 where
  pub id : ℕ
  pub advance_x : ℕ
  pub advance_y : ℕ
  pub width : ℕ
  pub height : ℕ
  pub left : ℕ
  pub top : ℕ
  pub mask_format : Format
  pub scaler_context_bits : ℕ
  pub image : Option (List ℕ)
  pub path_data : Option PathData
  pub drawable_data : Option DrawableData

-- What SkGlyph.h fixes. Whether a glyph is empty or its image too large depends on its size; a path
-- or a drawable has been set exactly when its data is there, and an image that is there was set.
pub record GlyphHeader : Type 0 where
  pub is_empty_size : ℕ → ℕ → Bool
  pub is_large_size : ℕ → ℕ → Bool
  pub fits_in_atlas_size : ℕ → ℕ → Bool
  pub set_image_has_been_called : Glyph → Bool
  pub image_called : (g : Glyph) → is_some g.image ≡ true → set_image_has_been_called g ≡ true

-- SkMask.
pub record Mask : Type 0 where
  pub image : Option (List ℕ)
  pub x : ℕ
  pub y : ℕ
  pub width : ℕ
  pub height : ℕ
  pub row_bytes : ℕ
  pub format : Format

-- The glyph that `SkGlyph glyph{packedID}` makes.
pub new_glyph : Format → ℕ → Glyph
new_glyph f id = record {
  id = id;
  advance_x = 0;
  advance_y = 0;
  width = 0;
  height = 0;
  left = 0;
  top = 0;
  mask_format = f;
  scaler_context_bits = 0;
  image = none;
  path_data = none;
  drawable_data = none;
}

pub zero_metrics : Glyph → Glyph
zero_metrics g = record g { advance_x = 0; advance_y = 0; width = 0; height = 0; top = 0; left = 0 }

pub bits_to_bytes : ℕ → ℕ
bits_to_bytes bits = (bits + 7) / 8

-- The alignment of the integer that holds a pixel, in bytes.
pub format_alignment : Format → ℕ
format_alignment bw_format = 1
format_alignment a8_format = 1
format_alignment three_d_format = 1
format_alignment sdf_format = 1
format_alignment argb32_format = 4
format_alignment lcd16_format = 2

pub format_row_bytes : ℕ → Format → ℕ
unfolding bits_to_bytes format_alignment
format_row_bytes width bw_format = bits_to_bytes width
format_row_bytes width f = u64 (width * format_alignment f)

pub row_bytes : Glyph → ℕ
unfolding format_row_bytes
row_bytes g = format_row_bytes g.width g.mask_format

pub row_bytes_using_format : Glyph → Format → ℕ
unfolding format_row_bytes
row_bytes_using_format g f = format_row_bytes g.width f

pub mask : Glyph → Mask
unfolding row_bytes
mask g = record {
  image = g.image;
  x = g.left;
  y = g.top;
  width = g.width;
  height = g.height;
  row_bytes = row_bytes g;
  format = g.mask_format;
}

-- A 3D image has three planes.
pub planes : Format → ℕ → ℕ
planes three_d_format size = u64 (size * 3)
planes _ size = size

module _ (gh : GlyphHeader) where
  abbrev pub is_empty_glyph : Glyph → Bool
  is_empty_glyph g = gh.is_empty_size g.width g.height

  pub image_size : Glyph → ℕ
  unfolding row_bytes planes
  image_size g =
      if is_empty_glyph g || gh.is_large_size g.width g.height
      then 0
      else planes g.mask_format (u64 (row_bytes g * g.height))

  -- The image that the scaler context draws for a glyph.
  pub set_image_from_context : (Glyph → List ℕ) → Glyph → Glyph × Bool
  set_image_from_context get_image g =
      if not (gh.set_image_has_been_called g)
      then (record g { image = some (get_image g) }, true)
      else (g, false)

  -- memcpy takes imageSize() bytes.
  pub set_image : Glyph → List ℕ → Glyph × Bool
  unfolding image_size
  set_image g bytes =
      if not (gh.set_image_has_been_called g)
      then (record g { image = some (take (image_size g) bytes) }, true)
      else (g, false)

  abbrev copy_metrics : Glyph → Glyph → Glyph
  copy_metrics g from = record g {
    advance_x = from.advance_x;
    advance_y = from.advance_y;
    width = from.width;
    height = from.height;
    top = from.top;
    left = from.left;
    scaler_context_bits = from.scaler_context_bits;
    mask_format = from.mask_format;
  }

  abbrev copied_image : Glyph → Option (List ℕ) → Glyph × Bool
  copied_image g none = (g, false)
  copied_image g (some bytes) = set_image g bytes

  -- The bytes allocated for the image come second.
  pub set_metrics_and_image : Glyph → Glyph → Glyph × ℕ
  unfolding set_image image_size
  set_metrics_and_image g from =
      if is_some g.image
      then (g, 0)
      else let (g', copied) = copied_image (copy_metrics g from) from.image in
        if copied then (g', image_size g') else (g', 0)

pub make_path_data : Option ℕ → Bool → Bool → PathData
make_path_data none hairline modified = record {
  path = 0;
  has_path = false;
  is_hairline = false;
  is_modified = false;
  intercepts = [];
}
make_path_data (some p) hairline modified = record {
  path = p;
  has_path = true;
  is_hairline = hairline;
  is_modified = modified;
  intercepts = [];
}

pub install_path : Glyph → Option ℕ → Bool → Bool → Glyph
unfolding make_path_data
install_path g p hairline modified = record g {
  path_data = some (make_path_data p hairline modified);
}

abbrev path_of : Option PathData → Option ℕ
path_of none = none
path_of (some d) = if d.has_path then some d.path else none

-- `none` for the null pointer.
pub path : Glyph → Option ℕ
path g = path_of g.path_data

abbrev hairline_of : Option PathData → Bool
hairline_of none = false
hairline_of (some d) = d.is_hairline

abbrev modified_of : Option PathData → Bool
modified_of none = false
modified_of (some d) = d.is_modified

pub path_is_hairline : Glyph → Bool
path_is_hairline g = hairline_of g.path_data

pub path_is_modified : Glyph → Bool
path_is_modified g = modified_of g.path_data

pub set_path : Glyph → Option ℕ → Bool → Bool → Glyph × Bool
unfolding install_path path
set_path g p hairline modified =
    if not (is_some g.path_data)
    then (let g' : Glyph = install_path g p hairline modified in (g', is_some (path g')))
    else (g, false)

-- The scaler context installs the path itself.
pub set_path_from_context : (Glyph → Glyph) → Glyph → Glyph × Bool
unfolding path
set_path_from_context get_path g =
    if not (is_some g.path_data)
    then (let g' : Glyph = get_path g in (g', is_some (path g')))
    else (g, false)

pub install_drawable : Glyph → Option ℕ → Glyph
install_drawable g d = record g { drawable_data = some (record { drawable = d }) }

abbrev drawable_of : Option DrawableData → Option ℕ
drawable_of none = none
drawable_of (some d) = d.drawable

pub drawable : Glyph → Option ℕ
drawable g = drawable_of g.drawable_data

pub set_drawable : Glyph → Option ℕ → Glyph × Bool
unfolding install_drawable drawable
set_drawable g d =
    if not (is_some g.drawable_data)
    then (let g' : Glyph = install_drawable g d in (g', is_some (drawable g')))
    else (g, false)

pub set_drawable_from_context : (Glyph → Option ℕ) → Glyph → Glyph × Bool
unfolding install_drawable drawable
set_drawable_from_context get_drawable g =
    if not (is_some g.drawable_data)
    then (let g' : Glyph = install_drawable g (get_drawable g) in (g', is_some (drawable g')))
    else (g, false)
