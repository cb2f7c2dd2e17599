-- ===== src/Glyph/Buffers/RoundTrip.antt =====
-- Reading back what app/graphics/glyph/main_gr.cpp flattens.
use tor_onion.Common.{
  ℕ, ◌<◌, ◌^◌, ◌≡◌, refl, true, false, Option, none, some, List, ◌∷◌, ◌++◌, arith, length,
  Option-cases, inl, inr, u16, ◌/◌, ◌%◌,
}
use tor_onion.Glyph.{
  Glyph, GlyphHeader, new_glyph, is_empty_glyph, image_size, path, path_is_hairline,
  path_is_modified, install_path,
}
use tor_onion.Glyph.Once.{set_path-new}
use tor_onion.Glyph.Buffers.{
  Skia, Item, bool_item, path_item, flatten_metrics, make_from_buffer, pack_halves, flatten_image,
  add_image_from_buffer, fits_in_atlas, flatten_path, add_path_from_buffer,
}

-- The fields fit their C++ types.
pub record Fits (g : Glyph) : Type 0 where
  pub id_fits : g.id < 2 ^ 32
  pub width_fits : g.width < 2 ^ 16
  pub height_fits : g.height < 2 ^ 16
  pub left_fits : g.left < 2 ^ 16
  pub top_fits : g.top < 2 ^ 16

pack_halves-small : (a b : ℕ) → pack_halves a b < 2 ^ 32
unfolding pack_halves
pack_halves-small a b = omega arith

unpack_high : (a b : ℕ) → a < 2 ^ 16 → b < 2 ^ 16 → u16 (pack_halves a b / 2 ^ 16) ≡ a
unfolding pack_halves
unpack_high a b h k = omega arith

unpack_low : (a b : ℕ) → a < 2 ^ 16 → b < 2 ^ 16 → pack_halves a b % 2 ^ 16 ≡ b
unfolding pack_halves
unpack_low a b h k = omega arith

-- The memory that a path read from a buffer adds.
abbrev pub path_memory_of : Skia → Option ℕ → ℕ
path_memory_of sk none = 0
path_memory_of sk (some p) = sk.approximate_path_bytes p

module _ (gh : GlyphHeader) (sk : Skia) where
  -- The metrics alone: what MakeFromBuffer can know of a glyph.
  abbrev pub metrics : Glyph → Glyph
  metrics g = record (new_glyph g.mask_format g.id) {
    advance_x = g.advance_x;
    advance_y = g.advance_y;
    width = g.width;
    height = g.height;
    left = g.left;
    top = g.top;
  }

  -- MakeFromBuffer reads the metrics that flattenMetrics wrote, signed offsets included, and leaves
  -- the buffer behind them.
  pub make_from_buffer-flatten_metrics :
      (g : Glyph) (rest : List Item)
      → Fits g
      → make_from_buffer gh sk (sk.over (flatten_metrics gh sk g ++ rest))
        ≡ (some (metrics g), sk.over rest)
  unfolding make_from_buffer flatten_metrics new_glyph
  make_from_buffer-flatten_metrics g rest f =
      let dims = pack_halves g.width g.height in
      let corner = pack_halves g.left g.top in
      rw
        (
          sk.read_uint_over g.id _ f.id_fits,
          sk.read_point_over g.advance_x g.advance_y _,
          sk.read_uint_over dims _ (pack_halves-small g.width g.height),
          sk.read_uint_over corner _ (pack_halves-small g.left g.top),
          sk.read_uint_over (sk.format_code g.mask_format) rest
              (sk.format_code_small g.mask_format),
          sk.format_of_code g.mask_format,
          sk.validate_true rest,
        )
        (rw
          (
            unpack_high g.width g.height f.width_fits f.height_fits,
            unpack_low g.width g.height f.width_fits f.height_fits,
            unpack_high g.left g.top f.left_fits f.top_fits,
            unpack_low g.left g.top f.left_fits f.top_fits,
          )
          refl)

  -- The image that flattenImage wrote is the one that addImageFromBuffer installs in a glyph of the
  -- same size and format, for a glyph that is not empty and fits in the atlas.
  pub add_image_from_buffer-flatten_image :
      (g from : Glyph) (bytes : List ℕ) (rest : List Item)
      → from.image ≡ some bytes
      → length bytes ≡ image_size gh g
      → is_empty_glyph gh g ≡ false
      → is_empty_glyph gh from ≡ false
      → fits_in_atlas gh sk g ≡ true
      → fits_in_atlas gh sk from ≡ true
      → add_image_from_buffer gh sk g (sk.over (flatten_image gh sk from ++ rest))
        ≡ (record g { image = some bytes }, image_size gh g, sk.over rest)
  unfolding add_image_from_buffer flatten_image
  add_image_from_buffer-flatten_image g from bytes rest i l e e' a a' =
      rw (e, e', a, a')
        (rw (i, sk.read_bytes_over (image_size gh g) bytes rest l, sk.over_valid rest) refl)

  -- The path that flattenPath wrote, or that there is none, is what addPathFromBuffer installs in a
  -- glyph without path data: it has the same path and, if there is one, the same two marks.
  pub add_path_from_buffer-flatten_path :
      (g from : Glyph) (rest : List Item)
      → g.path_data ≡ none
      → add_path_from_buffer gh sk g (sk.over (flatten_path gh sk from ++ rest)) ≡ (
        install_path g (path from) (path_is_hairline from) (path_is_modified from),
        path_memory_of sk (path from),
        sk.over rest,
      )
  unfolding add_path_from_buffer flatten_path
  add_path_from_buffer-flatten_path g from rest n = elim (Option-cases (path from)) [
    | inl missing ↦
        rw (missing, sk.read_bool_over false rest, sk.over_valid rest)
          (rw (set_path-new g none false false n) refl)
    | inr (p, there) ↦
        let flags = bool_item (path_is_modified from) ∷ path_item p ∷ rest in
        let marks = bool_item (path_is_hairline from) ∷ flags in
        rw there (
          rw
            (
              sk.read_bool_over true marks,
              sk.over_valid marks,
              sk.read_bool_over (path_is_hairline from) flags,
              sk.read_bool_over (path_is_modified from) (path_item p ∷ rest),
              sk.read_path_over p rest,
            )
            (rw (set_path-new g (some p) (path_is_hairline from) (path_is_modified from) n) refl))
  ]
