-- ===== src/Glyph/Intercepts.antt =====
-- calculate_path_gap and SkGlyph::ensureIntercepts of app/graphics/glyph/main_gr.cpp: the gap that a
-- path leaves between two horizontal bounds, kept with the path once it has been computed.
pub mod Gap
pub mod Cache
use tor_onion.Common.{
  ℕ, ◌+◌, ◌≡◌, ◌≢◌, Bool, true, false, not, ◌&&◌, ◌||◌, Option, none, some, List, [], ◌∷◌, ◌++◌,
  if◌then◌else◌, foldl,
}
use tor_onion.Glyph.{Glyph, PathData, Intercept}

pub record Point : Type 0 where
  pub x : ℕ
  pub y : ℕ

-- A verb of a path with its points.
pub data Segment : Type 0 where
  move_to close_path conic_to : Segment
  line_to : Point → Point → Segment
  quad_to : Point → Point → Point → Segment
  cubic_to : Point → Point → Point → Point → Segment

-- Arithmetic on scalars, the paths' segments and bounds, and Skia's intersections of a curve with a
-- horizontal line. Comparisons are those of floating point: false if a side is no number.
pub record Scalars : Type 0 where
  pub lt : ℕ → ℕ → Bool
  pub le : ℕ → ℕ → Bool
  pub same : ℕ → ℕ → Bool
  pub is_number : ℕ → Bool
  pub zero_scalar : ℕ
  pub one_scalar : ℕ
  pub max_scalar : ℕ
  pub min_scalar : ℕ
  pub add : ℕ → ℕ → ℕ
  pub subtract : ℕ → ℕ → ℕ
  pub multiply : ℕ → ℕ → ℕ
  pub divide : ℕ → ℕ → ℕ
  pub segments : ℕ → List Segment
  pub bounds_top : ℕ → ℕ
  pub bounds_bottom : ℕ → ℕ
  pub quad_intersections : Point → Point → Point → ℕ → List ℕ
  pub cubic_intersections : Point → Point → Point → Point → ℕ → List ℕ
  pub max_is_number : is_number max_scalar ≡ true
  pub min_is_number : is_number min_scalar ≡ true
  pub min_below_max : lt max_scalar min_scalar ≡ false
  pub lt_numbers : (a b : ℕ) → lt a b ≡ true → (is_number a && is_number b) ≡ true
  pub le_not_lt : (a b : ℕ) → (is_number a && is_number b) ≡ true → le b a ≡ not (lt a b)

module _ (sc : Scalars) where
  abbrev pub lower_of : ℕ → ℕ → ℕ
  lower_of a v = if sc.lt v a then v else a

  abbrev pub higher_of : ℕ → ℕ → ℕ
  higher_of a v = if sc.lt a v then v else a

  pub expand_gap : ℕ × ℕ → ℕ → ℕ × ℕ
  expand_gap gap v = (lower_of gap.0 v, higher_of gap.1 v)

  pub add_line : ℕ × ℕ → Point → Point → ℕ → ℕ × ℕ
  unfolding expand_gap
  add_line gap p q offset =
      let t = sc.divide (sc.subtract offset p.y) (sc.subtract q.y p.y) in
      if sc.le sc.zero_scalar t && sc.lt t sc.one_scalar
      then expand_gap gap (sc.add p.x (sc.multiply t (sc.subtract q.x p.x)))
      else gap

  -- addQuad and addCubic, given the intersections.
  pub add_curve : ℕ × ℕ → List ℕ → ℕ × ℕ
  unfolding expand_gap
  add_curve gap vs = foldl expand_gap gap vs

  pub add_points : ℕ → ℕ → ℕ × ℕ → List Point → ℕ × ℕ
  unfolding expand_gap
  add_points top bottom gap [] = gap
  add_points top bottom gap (p ∷ ps) =
      add_points top bottom (if sc.lt top p.y && sc.lt p.y bottom then expand_gap gap p.x else gap)
        ps

  -- std::minmax of the points' heights.
  pub extent : ℕ → List Point → ℕ × ℕ
  extent y [] = (y, y)
  extent y (p ∷ ps) = let rest = extent y ps in (lower_of rest.0 p.y, higher_of rest.1 p.y)

  abbrev crosses : ℕ → ℕ → ℕ × ℕ → Bool
  crosses top bottom e = sc.le top e.1 && sc.le e.0 bottom

  pub visit : ℕ → ℕ → ℕ × ℕ → Segment → ℕ × ℕ
  unfolding add_line add_curve add_points extent
  visit top bottom gap move_to = gap
  visit top bottom gap close_path = gap
  visit top bottom gap conic_to = gap
  visit top bottom gap (line_to p q) =
      if crosses top bottom (extent p.y (q ∷ []))
      then add_points top bottom (add_line (add_line gap p q top) p q bottom) (p ∷ q ∷ [])
      else gap
  visit top bottom gap (quad_to p q r) =
      if crosses top bottom (extent p.y (q ∷ r ∷ []))
      then add_points top bottom
          (add_curve (add_curve gap (sc.quad_intersections p q r top))
            (sc.quad_intersections p q r bottom))
          (p ∷ q ∷ r ∷ [])
      else gap
  visit top bottom gap (cubic_to p q r s) =
      if crosses top bottom (extent p.y (q ∷ r ∷ s ∷ []))
      then add_points top bottom
          (add_curve (add_curve gap (sc.cubic_intersections p q r s top))
            (sc.cubic_intersections p q r s bottom))
          (p ∷ q ∷ r ∷ s ∷ [])
      else gap

  pub calculate_path_gap : ℕ → ℕ → ℕ → ℕ × ℕ
  unfolding visit
  calculate_path_gap top bottom path =
      foldl (visit top bottom) (sc.max_scalar, sc.min_scalar) (sc.segments path)

  -- The first entry of the list for these bounds.
  pub find_intercept : ℕ → ℕ → List Intercept → Option Intercept
  find_intercept top bottom [] = none
  find_intercept top bottom (i ∷ is) =
      if sc.same top i.upper && sc.same bottom i.lower then some i else find_intercept top bottom is

  -- What offsetResults appends to the array: the two ends, scaled and moved.
  pub offset_results : ℕ → ℕ → Intercept → List ℕ
  offset_results scale x_pos i =
      sc.add (sc.multiply i.left scale) x_pos ∷ sc.add (sc.multiply i.right scale) x_pos ∷ []

  abbrev empty_intercept : ℕ → ℕ → Intercept
  empty_intercept top bottom = record {
    upper = top;
    lower = bottom;
    left = sc.max_scalar;
    right = sc.min_scalar;
  }

  -- The new entry, and what is appended to the array for it.
  pub new_intercept : ℕ → ℕ → ℕ → ℕ → ℕ → Intercept × List ℕ
  unfolding calculate_path_gap offset_results
  new_intercept top bottom scale x_pos path =
      let gap = calculate_path_gap top bottom path in
      let found : Intercept = record { upper = top; lower = bottom; left = gap.0; right = gap.1 } in
      if sc.lt (sc.bounds_bottom path) top || sc.lt bottom (sc.bounds_top path)
      then (empty_intercept top bottom, [])
      else if sc.le gap.1 gap.0
      then (empty_intercept top bottom, [])
      else (found, offset_results scale x_pos found)

  abbrev matched : ℕ → ℕ → Intercept → List ℕ
  matched scale x_pos i = if sc.lt i.left i.right then offset_results scale x_pos i else []

  -- The path data afterwards and what is appended to the array.
  unfoldable pub ensure_intercepts : ℕ → ℕ → ℕ → ℕ → PathData → PathData × List ℕ
  unfolding find_intercept new_intercept offset_results
  ensure_intercepts top bottom scale x_pos d = elim (find_intercept top bottom d.intercepts) [
    | some i ↦ (d, matched scale x_pos i)
    | none ↦
        let made = new_intercept top bottom scale x_pos d.path in
        (record d { intercepts = made.0 ∷ d.intercepts }, made.1)
  ]
