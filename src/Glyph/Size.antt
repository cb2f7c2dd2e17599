-- ===== src/Glyph/Size.antt =====
-- The size of a glyph's image (app/graphics/glyph/main_gr.cpp).
use tor_onion.Common.{ℕ, ◌+◌, ◌*◌, ◌^◌, ◌≤◌, ◌<◌, ◌≡◌, false, arith, u64, ◌||◌}
use native.Mathlib.Nat.{mul-le-mul, mul-le-mul_right}
use tor_onion.Glyph.{
  Format, bw_format, a8_format, three_d_format, argb32_format, lcd16_format, sdf_format, Glyph,
  GlyphHeader, is_empty_glyph, image_size, row_bytes, format_row_bytes, planes,
}

-- The bits of a pixel in one plane of an image, and the number of planes.
pub bits_per_pixel : Format → ℕ
bits_per_pixel bw_format = 1
bits_per_pixel a8_format = 8
bits_per_pixel three_d_format = 8
bits_per_pixel sdf_format = 8
bits_per_pixel argb32_format = 32
bits_per_pixel lcd16_format = 16

pub plane_count : Format → ℕ
plane_count three_d_format = 3
plane_count _ = 1

-- A row holds its pixels, wastes less than a pixel's worth of alignment, and is short.
row_holds :
    (w : ℕ) (f : Format)
    → w < 2 ^ 16
    → (w * bits_per_pixel f ≤ format_row_bytes w f * 8)
      × (format_row_bytes w f * 8 < w * bits_per_pixel f + 8)
      × (format_row_bytes w f ≤ 2 ^ 18)
unfolding format_row_bytes bits_per_pixel
row_holds w bw_format h = (omega arith, omega arith, omega arith)
row_holds w a8_format h = (omega arith, omega arith, omega arith)
row_holds w three_d_format h = (omega arith, omega arith, omega arith)
row_holds w argb32_format h = (omega arith, omega arith, omega arith)
row_holds w lcd16_format h = (omega arith, omega arith, omega arith)
row_holds w sdf_format h = (omega arith, omega arith, omega arith)

planes_exact : (f : Format) (n : ℕ) → n ≤ 2 ^ 34 → planes f (u64 n) ≡ n * plane_count f
unfolding planes plane_count
planes_exact bw_format n h = omega arith
planes_exact a8_format n h = omega arith
planes_exact three_d_format n h = omega arith
planes_exact argb32_format n h = omega arith
planes_exact lcd16_format n h = omega arith
planes_exact sdf_format n h = omega arith

-- For a glyph of 16-bit sides that is neither empty nor too large, the computation of imageSize
-- does not wrap: it is the number of planes times rows times bytes of a row, at least the bits of
-- all the pixels.
pub image_size-exact :
    (gh : GlyphHeader) (g : Glyph)
    → g.width < 2 ^ 16
    → g.height < 2 ^ 16
    → (is_empty_glyph gh g || gh.is_large_size g.width g.height) ≡ false
    → (image_size gh g ≡ (row_bytes g * g.height) * plane_count g.mask_format)
      × (((g.width * bits_per_pixel g.mask_format) * g.height) * plane_count g.mask_format
          ≤ image_size gh g * 8)
unfolding image_size row_bytes
image_size-exact gh g w h e =
    let (holds, _, short) = row_holds g.width g.mask_format w in
    let fits : row_bytes g * g.height ≤ 2 ^ 34 = omega (
      arith,
      mul-le-mul {n₁ = row_bytes g} {m₁ = g.height} {n₂ = 2 ^ 18} {m₂ = 2 ^ 16} short (omega arith),
    ) in
    let exact = planes_exact g.mask_format (row_bytes g * g.height) fits in
    let bits = mul-le-mul_right (plane_count g.mask_format) (mul-le-mul_right g.height holds) in
    rw (e, image_size) (exact, rw exact (omega (arith, bits)))
