-- ===== src/Glyph/Rounding.antt =====
-- SkGlyphPositionRoundingSpec of app/graphics/glyph/main_gr.cpp. A mask is all ones or all zeros.
use tor_onion.Common.{ℕ, ◌≡◌, ◌-◌, ◌^◌, refl, Bool, true, false, not, ◌||◌, if◌then◌else◌, ◌==◌}

-- SkAxisAlignment.
pub data AxisAlignment : Type 0 where
  align_none align_x align_y : AxisAlignment

abbrev is_x : AxisAlignment → Bool
is_x align_x = true
is_x _ = false

abbrev is_y : AxisAlignment → Bool
is_y align_y = true
is_y _ = false

-- What SkPackedGlyphID fixes: half a sample on a subpixel axis, and the field of a position in an id.
pub record PackedId : Type 0 where
  pub scalar_half : ℕ
  pub subpixel_round : ℕ
  pub field_mask_x : ℕ
  pub field_mask_y : ℕ

-- ~0.
abbrev pub all_ones : ℕ
all_ones = 2 ^ 32 - 1

module _ (pk : PackedId) where
  pub half_axis_sample_freq : Bool → AxisAlignment → ℕ × ℕ
  half_axis_sample_freq false a = (pk.scalar_half, pk.scalar_half)
  half_axis_sample_freq true align_x = (pk.subpixel_round, pk.scalar_half)
  half_axis_sample_freq true align_y = (pk.scalar_half, pk.subpixel_round)
  half_axis_sample_freq true align_none = (pk.subpixel_round, pk.subpixel_round)

  pub ignore_position_mask : Bool → AxisAlignment → ℕ × ℕ
  ignore_position_mask is_subpixel a = (
    (if not is_subpixel || is_y a then 0 else all_ones),
    (if not is_subpixel || is_x a then 0 else all_ones),
  )

  -- `&` with a mask that is all zeros or all ones.
  abbrev and_mask : ℕ → ℕ → ℕ
  and_mask ones field = if ones == 0 then 0 else field

  pub ignore_position_field_mask : Bool → AxisAlignment → ℕ × ℕ
  unfolding ignore_position_mask
  ignore_position_field_mask is_subpixel a =
      let m = ignore_position_mask is_subpixel a in
      (and_mask m.0 pk.field_mask_x, and_mask m.1 pk.field_mask_y)

  abbrev pub on_axis : Bool → ℕ → ℕ → ℕ → ℕ × ℕ × ℕ
  on_axis kept half_freq field full =
      if kept then (half_freq, full, field) else (pk.scalar_half, 0, 0)

  -- The three parts of the spec agree on the axes that keep a subpixel position: on such an axis
  -- the sample is a subpixel's and both masks keep it; on any other the position rounds to a whole
  -- pixel and both masks drop it.
  pub rounding_agrees :
      (is_subpixel : Bool) (a : AxisAlignment)
      → let keeps_x = not (not is_subpixel || is_y a) in
        let keeps_y = not (not is_subpixel || is_x a) in
        ((
          (half_axis_sample_freq is_subpixel a).0,
          (ignore_position_mask is_subpixel a).0,
          (ignore_position_field_mask is_subpixel a).0,
        )
          ≡ on_axis keeps_x pk.subpixel_round pk.field_mask_x all_ones)
        × ((
          (half_axis_sample_freq is_subpixel a).1,
          (ignore_position_mask is_subpixel a).1,
          (ignore_position_field_mask is_subpixel a).1,
        )
            ≡ on_axis keeps_y pk.subpixel_round pk.field_mask_y all_ones)
  unfolding half_axis_sample_freq ignore_position_field_mask
  rounding_agrees false align_none = (refl, refl)
  rounding_agrees false align_x = (refl, refl)
  rounding_agrees false align_y = (refl, refl)
  rounding_agrees true align_none = (refl, refl)
  rounding_agrees true align_x = (refl, refl)
  rounding_agrees true align_y = (refl, refl)
