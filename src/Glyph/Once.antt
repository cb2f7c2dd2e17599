-- ===== src/Glyph/Once.antt =====
-- A second set of the image, the path and the drawable of a glyph
-- (app/graphics/glyph/main_gr.cpp).
use tor_onion.Common.{ℕ, ◌≡◌, refl, Bool, true, false, Option, none, some, List, arith, is_some}
use tor_onion.Glyph.{
  Glyph, GlyphHeader, set_image, set_image_from_context, set_path, set_drawable, install_path, path,
  drawable, install_drawable,
}

pub set_path-new :
    (g : Glyph) (p : Option ℕ) (hairline modified : Bool)
    → g.path_data ≡ none
    → set_path g p hairline modified ≡ (install_path g p hairline modified, is_some p)
unfolding set_path
set_path-new g none hairline modified n = rw (n, set_path) refl
set_path-new g (some p) hairline modified n = rw (n, set_path) refl

pub set_drawable-new :
    (g : Glyph) (d : Option ℕ)
    → g.drawable_data ≡ none
    → set_drawable g d ≡ (install_drawable g d, is_some d)
unfolding set_drawable
set_drawable-new g d n = rw (n, set_drawable) refl

-- The first call of setPath on a glyph without path data decides: it answers whether there is a
-- path, and any later call, whatever it brings, answers false and changes nothing. The same holds
-- of setDrawable.
pub set_once :
    (g : Glyph) (p q : Option ℕ) (h m h' m' : Bool) (d e : Option ℕ)
    → g.path_data ≡ none
    → g.drawable_data ≡ none
    → (path (set_path g p h m).0 ≡ p)
      × ((set_path g p h m).1 ≡ is_some p)
      × (set_path (set_path g p h m).0 q h' m' ≡ ((set_path g p h m).0, false))
      × (drawable (set_drawable g d).0 ≡ d)
      × ((set_drawable g d).1 ≡ is_some d)
      × (set_drawable (set_drawable g d).0 e ≡ ((set_drawable g d).0, false))
unfolding set_path set_drawable
set_once g none q h m h' m' d e n k = ground arith
set_once g (some p) q h m h' m' d e n k = ground arith

-- Once an image is there, neither form of setImage replaces it.
pub image_kept :
    (gh : GlyphHeader) (g : Glyph) (bytes : List ℕ) (get_image : Glyph → List ℕ)
    → is_some g.image ≡ true
    → (set_image gh g bytes ≡ (g, false)) × (set_image_from_context gh get_image g ≡ (g, false))
unfolding set_image set_image_from_context
image_kept gh g bytes get_image i = ground (arith, gh.image_called g i)
