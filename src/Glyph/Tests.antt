-- ===== src/Glyph/Tests.antt =====
-- The theorems on glyphs (app/graphics/glyph/main_gr.cpp) at concrete glyphs and buffers.
use tor_onion.Common.{
  ℕ, zero, suc, ◌+◌, ◌*◌, ◌^◌, ◌<◌, ◌≤◌, ◌≡◌, refl, Bool, true, false, not, ◌&&◌, ◌||◌, Option,
  none, some, List, [], ◌∷◌, ◌++◌, arith, ltb, leb, ◌==◌, if◌then◌else◌, is_some, length,
}
use tor_onion.Glyph.{
  Format, bw_format, a8_format, three_d_format, argb32_format, lcd16_format, sdf_format, Glyph,
  GlyphHeader, PathData, image_size, row_bytes, path, path_is_hairline, path_is_modified,
  install_path, set_path, set_image, set_image_from_context,
}
use tor_onion.Glyph.Once.{image_kept}
use tor_onion.Glyph.Size.{image_size-exact, bits_per_pixel, plane_count}
use tor_onion.Glyph.Rounding.{PackedId}
use tor_onion.Glyph.Digest.{
  Strike, GlyphDigest, path_action, drop_glyph, make_digest, set_action_for, make_digest_empty,
}
use tor_onion.Glyph.Buffers.{
  Skia, Item, uint_item, point_item, bool_item, bytes_item, data_item, path_item, flatten_metrics,
  make_from_buffer, flatten_path, add_path_from_buffer,
}
use tor_onion.Glyph.Buffers.RoundTrip.{
  metrics, make_from_buffer-flatten_metrics, add_path_from_buffer-flatten_path, path_memory_of,
}
use tor_onion.Glyph.Intercepts.{find_intercept, Scalars, line_to, ensure_intercepts}
use tor_onion.Glyph.Intercepts.Cache.{ensure_intercepts_again}

image_called_here :
    (g : Glyph)
    → is_some g.image ≡ true
    → (is_some g.image || ((g.width == 0) || (g.height == 0))) ≡ true
image_called_here g e = ground arith

abbrev header : GlyphHeader
header = record {
  is_empty_size = λ w h. (w == 0) || (h == 0);
  is_large_size = λ w h. leb 8192 w;
  fits_in_atlas_size = λ w h. leb w 256 && leb h 256;
  set_image_has_been_called = λ g. is_some g.image || ((g.width == 0) || (g.height == 0));
  image_called = image_called_here;
}

-- A buffer that becomes invalid at the first read of a wrong kind.
abbrev Buffer : Type 0
Buffer = List Item × Bool

abbrev read_uint_here : Buffer → ℕ × Buffer
read_uint_here (uint_item n ∷ is, v) = (n, (is, v))
read_uint_here (_, v) = (0, ([], false))

abbrev read_point_here : Buffer → (ℕ × ℕ) × Buffer
read_point_here (point_item x y ∷ is, v) = ((x, y), (is, v))
read_point_here (_, v) = ((0, 0), ([], false))

abbrev read_bool_here : Buffer → Bool × Buffer
read_bool_here (bool_item b ∷ is, v) = (b, (is, v))
read_bool_here (_, v) = (false, ([], false))

abbrev read_bytes_here : ℕ → Buffer → List ℕ × Buffer
read_bytes_here n (bytes_item b ∷ is, v) = if length b == n then (b, (is, v)) else ([], ([], false))
read_bytes_here n (_, v) = ([], ([], false))

abbrev read_data_here : Buffer → List ℕ × Buffer
read_data_here (data_item b ∷ is, v) = (b, (is, v))
read_data_here (_, v) = ([], ([], false))

abbrev read_path_here : Buffer → Option ℕ × Buffer
read_path_here (path_item p ∷ is, v) = (some p, (is, v))
read_path_here (_, v) = (none, ([], false))

abbrev code : Format → ℕ
code bw_format = 0
code a8_format = 1
code three_d_format = 2
code argb32_format = 3
code lcd16_format = 4
code sdf_format = 5

abbrev decode : ℕ → Option Format
decode zero = some bw_format
decode (suc zero) = some a8_format
decode (suc (suc zero)) = some three_d_format
decode (suc (suc (suc zero))) = some argb32_format
decode (suc (suc (suc (suc zero)))) = some lcd16_format
decode (suc (suc (suc (suc (suc zero))))) = some sdf_format
decode _ = none

decode-code : (f : Format) → decode (code f) ≡ some f
decode-code bw_format = refl
decode-code a8_format = refl
decode-code three_d_format = refl
decode-code argb32_format = refl
decode-code lcd16_format = refl
decode-code sdf_format = refl

code_small : (f : Format) → code f < 2 ^ 32
code_small bw_format = omega arith
code_small a8_format = omega arith
code_small three_d_format = omega arith
code_small argb32_format = omega arith
code_small lcd16_format = omega arith
code_small sdf_format = omega arith

abbrev first_byte : List ℕ → Option ℕ
first_byte [] = none
first_byte (b ∷ bs) = some b

read_bytes_lem :
    (n : ℕ) (bytes : List ℕ) (is : List Item)
    → length bytes ≡ n
    → read_bytes_here n (bytes_item bytes ∷ is, true) ≡ (bytes, (is, true))
read_bytes_lem n bytes is e = ground arith

abbrev skia : Skia
skia = record {
  Reader = Buffer;
  over = λ is. (is, true);
  is_valid = λ r. r.1;
  validate = λ b r. (r.1 && b, (r.0, r.1 && b));
  read_uint = read_uint_here;
  read_point = read_point_here;
  read_bool = read_bool_here;
  read_byte_array = read_bytes_here;
  read_data = read_data_here;
  read_path = read_path_here;
  format_code = code;
  format_of = decode;
  default_format = bw_format;
  approximate_path_bytes = λ p. 64;
  approximate_drawable_bytes = λ d. 128;
  make_picture_snapshot = λ d. d;
  serialize = λ p. p ∷ [];
  picture_of = first_byte;
  picture_drawable = λ p. p;
  over_valid = λ is. refl;
  validate_true = λ is. refl;
  read_uint_over = λ n is h. refl;
  read_point_over = λ x y is. refl;
  read_bool_over = λ b is. refl;
  read_bytes_over = read_bytes_lem;
  read_data_over = λ bytes is. refl;
  read_path_over = λ p is. refl;
  format_of_code = decode-code;
  format_code_small = code_small;
  picture_of_serialize = λ p. refl;
}

-- A glyph of 2 by 1 pixels in ARGB32, one pixel left of its origin.
abbrev glyph : Glyph
glyph = record {
  id = 7;
  advance_x = 3;
  advance_y = 0;
  width = 2;
  height = 1;
  left = 65535;
  top = 4;
  mask_format = argb32_format;
  scaler_context_bits = 0;
  image = none;
  path_data = none;
  drawable_data = none;
}

abbrev pixels : List ℕ
pixels = 1 ∷ 2 ∷ 3 ∷ 4 ∷ 5 ∷ 6 ∷ 7 ∷ 8 ∷ []

abbrev with_path : Glyph
with_path = record glyph {
  path_data = some (record {
    path = 9;
    has_path = true;
    is_hairline = true;
    is_modified = false;
    intercepts = [];
  });
}

make_from_buffer-flatten_metrics_example :
    make_from_buffer header skia (flatten_metrics header skia glyph ++ [], true)
    ≡ (some (metrics header skia glyph), ([], true))
make_from_buffer-flatten_metrics_example =
    make_from_buffer-flatten_metrics header skia glyph [] (record {
      id_fits = omega arith;
      width_fits = omega arith;
      height_fits = omega arith;
      left_fits = omega arith;
      top_fits = omega arith;
    })

add_path_from_buffer-flatten_path_example :
    add_path_from_buffer header skia glyph (flatten_path header skia with_path ++ [], true) ≡ (
      install_path glyph (path with_path) (path_is_hairline with_path) (path_is_modified with_path),
      path_memory_of skia (path with_path),
      ([], true),
    )
add_path_from_buffer-flatten_path_example =
    add_path_from_buffer-flatten_path header skia glyph with_path [] refl

image_stays :
    (set_image header (record glyph { image = some pixels }) (1 ∷ [])
      ≡ (record glyph { image = some pixels }, false))
    × (set_image_from_context header (λ g. 2 ∷ []) (record glyph { image = some pixels })
        ≡ (record glyph { image = some pixels }, false))
image_stays = image_kept header (record glyph { image = some pixels }) (1 ∷ []) (λ g. 2 ∷ []) refl

image_size-exact_example :
    (image_size header glyph ≡ (row_bytes glyph * 1) * plane_count argb32_format)
    × (((2 * bits_per_pixel argb32_format) * 1) * plane_count argb32_format
        ≤ image_size header glyph * 8)
image_size-exact_example = image_size-exact header glyph (omega arith) (omega arith) refl

image_size_here : image_size header glyph ≡ 8
unfolding image_size
image_size_here = refl

abbrev ids : PackedId
ids = record { scalar_half = 5; subpixel_round = 1; field_mask_x = 3; field_mask_y = 12 }

abbrev strike : Strike
strike = record {
  prepare_for_image = λ g. (record g { image = some [] }, true);
  prepare_for_path = λ g. set_path g (some 9) false false;
  prepare_for_drawable = λ g. (g, false);
  fits_direct = λ d. true;
  fits_interpolated = λ d. false;
}

abbrev digest : GlyphDigest
digest = make_digest header 0 glyph

abbrev blank : Glyph
blank = record glyph { width = 0 }

empty_is_dropped :
    ((make_digest header 0 blank).actions path_action ≡ drop_glyph)
    × (set_action_for strike path_action (make_digest header 0 blank) blank
        ≡ (make_digest header 0 blank, blank))
empty_is_dropped = make_digest_empty header strike 0 blank path_action refl

le_not_lt_here : (a b : ℕ) → leb b a ≡ not (ltb a b)
le_not_lt_here a b = ground arith

abbrev scalars : Scalars
scalars = record {
  lt = ltb;
  le = leb;
  same = ◌==◌;
  is_number = λ a. true;
  zero_scalar = 0;
  one_scalar = 1;
  max_scalar = 1000;
  min_scalar = 0;
  add = ◌+◌;
  subtract = λ a b. 0;
  multiply = ◌*◌;
  divide = λ a b. 0;
  segments = λ p. line_to (record { x = 1; y = 2 }) (record { x = 5; y = 6 }) ∷ [];
  bounds_top = λ p. 2;
  bounds_bottom = λ p. 6;
  quad_intersections = λ p q r y. [];
  cubic_intersections = λ p q r s y. [];
  max_is_number = refl;
  min_is_number = refl;
  min_below_max = refl;
  lt_numbers = λ a b e. refl;
  le_not_lt = λ a b e. le_not_lt_here a b;
}

abbrev outline : PathData
outline = record {
  path = 9;
  has_path = true;
  is_hairline = false;
  is_modified = false;
  intercepts = [];
}

ensure_intercepts_again_example :
    (is_some (find_intercept scalars 1 7 (ensure_intercepts scalars 1 7 2 10 outline).0.intercepts)
      ≡ true)
    × (ensure_intercepts scalars 1 7 2 10 (ensure_intercepts scalars 1 7 2 10 outline).0
        ≡ ensure_intercepts scalars 1 7 2 10 outline)
ensure_intercepts_again_example = ensure_intercepts_again scalars 1 7 2 10 outline refl refl

-- The gap from 1 to 5, scaled by 2 and moved by 10.
gap_here : (ensure_intercepts scalars 1 7 2 10 outline).1 ≡ 12 ∷ 20 ∷ []
unfolding ensure_intercepts
gap_here = refl
