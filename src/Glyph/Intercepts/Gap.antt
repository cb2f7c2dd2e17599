-- ===== src/Glyph/Intercepts/Gap.antt =====
-- The ends of the gap that calculate_path_gap (app/graphics/glyph/main_gr.cpp) computes.
use tor_onion.Common.{ℕ, ◌≡◌, true, ◌&&◌, List, [], ◌∷◌, foldl, arith, Bool-cases, inl, inr}
use tor_onion.Glyph.Intercepts.{
  Point, Segment, move_to, close_path, conic_to, line_to, quad_to, cubic_to, Scalars, expand_gap,
  add_line, add_curve, add_points, extent, crosses, visit, calculate_path_gap,
}

module _ (sc : Scalars) where
  abbrev pub AreNumbers : ℕ × ℕ → Type 0
  AreNumbers gap = (sc.is_number gap.0 && sc.is_number gap.1) ≡ true

  expand-AreNumbers : (gap : ℕ × ℕ) (v : ℕ) → AreNumbers gap → AreNumbers (expand_gap sc gap v)
  unfolding expand_gap
  expand-AreNumbers gap v n = ground (arith, sc.lt_numbers v gap.0, sc.lt_numbers gap.1 v)

  line-AreNumbers :
      (gap : ℕ × ℕ) (p q : Point) (offset : ℕ)
      → AreNumbers gap
      → AreNumbers (add_line sc gap p q offset)
  unfolding add_line
  line-AreNumbers gap p q offset n =
      let t = sc.divide (sc.subtract offset p.y) (sc.subtract q.y p.y) in
      elim (Bool-cases (sc.le sc.zero_scalar t && sc.lt t sc.one_scalar)) [
        | inl inside ↦ rw (inside, add_line) (expand-AreNumbers gap _ n)
        | inr outside ↦ rw (outside, add_line) n
      ]

  curve-AreNumbers :
      (gap : ℕ × ℕ) (vs : List ℕ) → AreNumbers gap → AreNumbers (foldl (expand_gap sc) gap vs)
  curve-AreNumbers gap [] n = n
  curve-AreNumbers gap (v ∷ vs) n =
      curve-AreNumbers (expand_gap sc gap v) vs (expand-AreNumbers gap v n)

  curves-AreNumbers :
      (gap : ℕ × ℕ) (vs ws : List ℕ)
      → AreNumbers gap
      → AreNumbers (add_curve sc (add_curve sc gap vs) ws)
  unfolding add_curve
  curves-AreNumbers gap vs ws n = curve-AreNumbers _ ws (curve-AreNumbers gap vs n)

  points-AreNumbers :
      (top bottom : ℕ) (gap : ℕ × ℕ) (ps : List Point)
      → AreNumbers gap
      → AreNumbers (add_points sc top bottom gap ps)
  unfolding add_points
  points-AreNumbers top bottom gap [] n = n
  points-AreNumbers top bottom gap (p ∷ ps) n =
      elim (Bool-cases (sc.lt top p.y && sc.lt p.y bottom)) [
        | inl inside ↦
            rw (inside, add_points)
              (points-AreNumbers top bottom (expand_gap sc gap p.x) ps
                (expand-AreNumbers gap p.x n))
        | inr outside ↦ rw (outside, add_points) (points-AreNumbers top bottom gap ps n)
      ]

  visit-AreNumbers :
      (top bottom : ℕ) (gap : ℕ × ℕ) (s : Segment)
      → AreNumbers gap
      → AreNumbers (visit sc top bottom gap s)
  unfolding visit
  visit-AreNumbers top bottom gap move_to n = n
  visit-AreNumbers top bottom gap close_path n = n
  visit-AreNumbers top bottom gap conic_to n = n
  visit-AreNumbers top bottom gap (line_to p q) n =
      elim (Bool-cases (crosses sc top bottom (extent sc p.y (q ∷ [])))) [
        | inr outside ↦ rw (outside, visit) n
        | inl inside ↦
            rw (inside, visit)
              (points-AreNumbers top bottom _ (p ∷ q ∷ [])
                (line-AreNumbers _ p q bottom (line-AreNumbers gap p q top n)))
      ]
  visit-AreNumbers top bottom gap (quad_to p q r) n =
      elim (Bool-cases (crosses sc top bottom (extent sc p.y (q ∷ r ∷ [])))) [
        | inr outside ↦ rw (outside, visit) n
        | inl inside ↦
            rw (inside, visit)
              (points-AreNumbers top bottom _ (p ∷ q ∷ r ∷ []) (
                curves-AreNumbers gap (sc.quad_intersections p q r top)
                  (sc.quad_intersections p q r bottom) n))
      ]
  visit-AreNumbers top bottom gap (cubic_to p q r s) n =
      elim (Bool-cases (crosses sc top bottom (extent sc p.y (q ∷ r ∷ s ∷ [])))) [
        | inr outside ↦ rw (outside, visit) n
        | inl inside ↦
            rw (inside, visit)
              (points-AreNumbers top bottom _ (p ∷ q ∷ r ∷ s ∷ []) (
                curves-AreNumbers gap (sc.cubic_intersections p q r s top)
                  (sc.cubic_intersections p q r s bottom) n))
      ]

  visits-AreNumbers :
      (top bottom : ℕ) (gap : ℕ × ℕ) (ss : List Segment)
      → AreNumbers gap
      → AreNumbers (foldl (visit sc top bottom) gap ss)
  visits-AreNumbers top bottom gap [] n = n
  visits-AreNumbers top bottom gap (s ∷ ss) n =
      visits-AreNumbers top bottom (visit sc top bottom gap s) ss
        (visit-AreNumbers top bottom gap s n)

  pub gap-AreNumbers : (top bottom path : ℕ) → AreNumbers (calculate_path_gap sc top bottom path)
  unfolding calculate_path_gap
  gap-AreNumbers top bottom path =
      visits-AreNumbers top bottom (sc.max_scalar, sc.min_scalar) (sc.segments path)
        (ground (arith, sc.max_is_number, sc.min_is_number))
