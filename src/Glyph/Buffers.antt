-- ===== src/Glyph/Buffers.antt =====
-- The flattening of app/graphics/glyph/main_gr.cpp: what is written to an SkWriteBuffer, as the
-- sequence of its write calls, and what is read from an SkReadBuffer.
pub mod RoundTrip
use tor_onion.Common.{
  ℕ, ◌+◌, ◌*◌, ◌/◌, ◌%◌, ◌^◌, ◌<◌, ◌≡◌, Bool, true, false, not, ◌||◌, ◌&&◌, Option, none, some,
  List, [], ◌∷◌, ◌++◌, if◌then◌else◌, u32, u16, is_some, is_empty, length, ltb,
}
use tor_onion.Glyph.{
  Format, Glyph, GlyphHeader, new_glyph, is_empty_glyph, image_size, path, path_is_hairline,
  path_is_modified, set_path, drawable, set_drawable,
}

pub data Item : Type 0 where
  uint_item : ℕ → Item
  point_item : ℕ → ℕ → Item
  bool_item : Bool → Item
  bytes_item : List ℕ → Item
  data_item : List ℕ → Item
  path_item : ℕ → Item

-- SkReadBuffer and the calls of Skia that this file makes on a buffer, a picture or a format. `over`
-- is a valid buffer over what was written. Each read returns what was written there. A picture that
-- was serialized can be read again.
pub record Skia : Type 1 where
  pub Reader : Type 0
  pub over : List Item → Reader
  pub is_valid : Reader → Bool
  pub validate : Bool → Reader → Bool × Reader
  pub read_uint : Reader → ℕ × Reader
  pub read_point : Reader → (ℕ × ℕ) × Reader
  pub read_bool : Reader → Bool × Reader
  pub read_byte_array : ℕ → Reader → List ℕ × Reader
  pub read_data : Reader → List ℕ × Reader
  pub read_path : Reader → Option ℕ × Reader
  pub format_code : Format → ℕ
  pub format_of : ℕ → Option Format
  pub default_format : Format
  pub approximate_path_bytes : ℕ → ℕ
  pub approximate_drawable_bytes : ℕ → ℕ
  pub make_picture_snapshot : ℕ → ℕ
  pub serialize : ℕ → List ℕ
  pub picture_of : List ℕ → Option ℕ
  pub picture_drawable : ℕ → ℕ
  pub over_valid : (is : List Item) → is_valid (over is) ≡ true
  pub validate_true : (is : List Item) → validate true (over is) ≡ (true, over is)
  pub read_uint_over :
      (n : ℕ) (is : List Item) → n < 2 ^ 32 → read_uint (over (uint_item n ∷ is)) ≡ (n, over is)
  pub read_point_over :
      (x y : ℕ) (is : List Item) → read_point (over (point_item x y ∷ is)) ≡ ((x, y), over is)
  pub read_bool_over :
      (b : Bool) (is : List Item) → read_bool (over (bool_item b ∷ is)) ≡ (b, over is)
  pub read_bytes_over :
      (n : ℕ) (bytes : List ℕ) (is : List Item)
      → length bytes ≡ n
      → read_byte_array n (over (bytes_item bytes ∷ is)) ≡ (bytes, over is)
  pub read_data_over :
      (bytes : List ℕ) (is : List Item) → read_data (over (data_item bytes ∷ is)) ≡ (bytes, over is)
  pub read_path_over :
      (p : ℕ) (is : List Item) → read_path (over (path_item p ∷ is)) ≡ (some p, over is)
  pub format_of_code : (f : Format) → format_of (format_code f) ≡ some f
  pub format_code_small : (f : Format) → format_code f < 2 ^ 32
  pub picture_of_serialize : (p : ℕ) → picture_of (serialize p) ≡ some p

-- The two halves of a word are disjoint, so that `|` is `+`.
pub pack_halves : ℕ → ℕ → ℕ
pack_halves high low = u32 (high * 2 ^ 16 + low)

module _ (gh : GlyphHeader) (sk : Skia) where
  pub flatten_metrics : Glyph → List Item
  unfolding pack_halves
  flatten_metrics g =
      uint_item g.id
      ∷ point_item g.advance_x g.advance_y
      ∷ uint_item (pack_halves g.width g.height)
      ∷ uint_item (pack_halves g.left g.top)
      ∷ uint_item (sk.format_code g.mask_format)
      ∷ []

  -- The glyph once the format has been validated.
  pub read_glyph : ℕ → ℕ × ℕ → ℕ → ℕ → Format → Glyph
  unfolding new_glyph
  read_glyph id advance dimensions left_top f = record (new_glyph sk.default_format id) {
    advance_x = advance.0;
    advance_y = advance.1;
    width = u16 (dimensions / 2 ^ 16);
    height = dimensions % 2 ^ 16;
    left = u16 (left_top / 2 ^ 16);
    top = left_top % 2 ^ 16;
    mask_format = f;
  }

  abbrev validated : Bool × sk.Reader → Option Glyph → Option Glyph × sk.Reader
  validated (true, r) g = (g, r)
  validated (false, r) g = (none, r)

  abbrev when_valid : Option Format → (Format → Glyph) → Option Glyph
  when_valid none f = none
  when_valid (some x) f = some (f x)

  pub make_from_buffer : sk.Reader → Option Glyph × sk.Reader
  unfolding read_glyph
  make_from_buffer r =
      let (id, r1) = sk.read_uint r in
      let (advance, r2) = sk.read_point r1 in
      let (dimensions, r3) = sk.read_uint r2 in
      let (left_top, r4) = sk.read_uint r3 in
      let (code, r5) = sk.read_uint r4 in
      validated (sk.validate (is_some (sk.format_of code)) r5)
        (when_valid (sk.format_of code) (read_glyph id advance dimensions left_top))

  abbrev image_bytes : Option (List ℕ) → List ℕ
  image_bytes none = []
  image_bytes (some bytes) = bytes

  unfoldable pub fits_in_atlas : Glyph → Bool
  fits_in_atlas g = gh.fits_in_atlas_size g.width g.height

  pub flatten_image : Glyph → List Item
  unfolding fits_in_atlas
  flatten_image g =
      if not (is_empty_glyph gh g) && fits_in_atlas g
      then bytes_item (image_bytes g.image) ∷ []
      else []

  pub add_image_from_buffer : Glyph → sk.Reader → Glyph × ℕ × sk.Reader
  unfolding fits_in_atlas
  add_image_from_buffer g r =
      if is_empty_glyph gh g || not (fits_in_atlas g)
      then (g, 0, r)
      else let (bytes, r1) = sk.read_byte_array (image_size gh g) r in
        if sk.is_valid r1
        then (record g { image = some bytes }, image_size gh g, r1)
        else (g, 0, r1)

  abbrev flat_path : Option ℕ → Bool → Bool → List Item
  flat_path none hairline modified = bool_item false ∷ []
  flat_path (some p) hairline modified =
      bool_item true ∷ bool_item hairline ∷ bool_item modified ∷ path_item p ∷ []

  pub flatten_path : Glyph → List Item
  unfolding path path_is_hairline path_is_modified
  flatten_path g = flat_path (path g) (path_is_hairline g) (path_is_modified g)

  abbrev path_memory : Glyph × Bool → ℕ → ℕ
  path_memory (g, true) p = sk.approximate_path_bytes p
  path_memory (g, false) p = 0

  abbrev add_read_path : Glyph → Bool → Bool → Option ℕ × sk.Reader → Glyph × ℕ × sk.Reader
  add_read_path g hairline modified (none, r) = (g, 0, r)
  add_read_path g hairline modified (some p, r) =
      let set = set_path g (some p) hairline modified in (set.0, path_memory set p, r)

  pub add_path_from_buffer : Glyph → sk.Reader → Glyph × ℕ × sk.Reader
  unfolding set_path
  add_path_from_buffer g r =
      let (has_path, r1) = sk.read_bool r in
      if not (sk.is_valid r1)
      then (g, 0, r1)
      else if has_path
      then (let (hairline, r2) = sk.read_bool r1 in
          let (modified, r3) = sk.read_bool r2 in
          add_read_path g hairline modified (sk.read_path r3))
      else ((set_path g none false false).0, 0, r1)

  -- SkPictureBackedGlyphDrawable::FlattenDrawable; an empty array stands for no drawable.
  pub flatten_picture : Option ℕ → List Item
  flatten_picture none = data_item [] ∷ []
  flatten_picture (some d) =
      let bytes = sk.serialize (sk.make_picture_snapshot d) in
      if not (ltb (length bytes) (2 ^ 32)) || is_empty bytes
      then data_item [] ∷ []
      else data_item bytes ∷ []

  abbrev checked_picture : Bool × sk.Reader → Option ℕ → Option ℕ × sk.Reader
  checked_picture (true, r) (some p) = (some (sk.picture_drawable p), r)
  checked_picture (true, r) none = (none, r)
  checked_picture (false, r) p = (none, r)

  -- SkPictureBackedGlyphDrawable::MakeFromBuffer.
  pub make_drawable_from_buffer : sk.Reader → Option ℕ × sk.Reader
  make_drawable_from_buffer r =
      let (bytes, r1) = sk.read_data r in
      if not (sk.is_valid r1) || is_empty bytes
      then (none, r1)
      else checked_picture (sk.validate (is_some (sk.picture_of bytes)) r1) (sk.picture_of bytes)

  pub flatten_drawable : Glyph → List Item
  unfolding flatten_picture drawable
  flatten_drawable g =
      if is_empty_glyph gh g || not (is_some (drawable g))
      then flatten_picture none
      else flatten_picture (drawable g)

  abbrev drawable_memory : Glyph × Bool → Option ℕ → ℕ
  drawable_memory (g, true) (some d) = sk.approximate_drawable_bytes d
  drawable_memory (g, true) none = 0
  drawable_memory (g, false) d = 0

  pub add_drawable_from_buffer : Glyph → sk.Reader → Glyph × ℕ × sk.Reader
  unfolding make_drawable_from_buffer set_drawable drawable
  add_drawable_from_buffer g r =
      let (d, r1) = make_drawable_from_buffer r in
      if not (sk.is_valid r1)
      then (g, 0, r1)
      else let set = set_drawable g d in (set.0, drawable_memory set (drawable set.0), r1)
