-- ===== src/Glyph/Intercepts/Cache.antt =====
-- The list of intercepts that SkGlyph::ensureIntercepts (app/graphics/glyph/main_gr.cpp) keeps.
use tor_onion.Common.{ℕ, ◌≡◌, refl, true, some, List, ◌∷◌, arith, is_some, Option-cases, inl, inr}
use tor_onion.Glyph.{PathData, Intercept}
use tor_onion.Glyph.Intercepts.{
  Scalars, find_intercept, new_intercept, matched, ensure_intercepts, calculate_path_gap,
}
use tor_onion.Glyph.Intercepts.Gap.{gap-AreNumbers}

module _ (sc : Scalars) where
  -- A new entry is found for its bounds, and found again it gives what it gave when it was made.
  new_intercept-found :
      (top bottom scale x_pos path : ℕ) (is : List Intercept)
      → sc.same top top ≡ true
      → sc.same bottom bottom ≡ true
      → let made = new_intercept sc top bottom scale x_pos path in
        (find_intercept sc top bottom (made.0 ∷ is) ≡ some made.0)
        × (matched sc scale x_pos made.0 ≡ made.1)
  unfolding new_intercept find_intercept
  new_intercept-found top bottom scale x_pos path is t b =
      let gap = calculate_path_gap sc top bottom path in
      let numbers = gap-AreNumbers sc top bottom path in
      ground (arith, sc.min_below_max, sc.le_not_lt gap.0 gap.1)

  -- A call for bounds that equal themselves leaves an entry for them in the list, so that the same call
  -- again finds it: the list stays, and what is appended to the array is the same.
  pub ensure_intercepts_again :
      (top bottom scale x_pos : ℕ) (d : PathData)
      → sc.same top top ≡ true
      → sc.same bottom bottom ≡ true
      → let (d', out) = ensure_intercepts sc top bottom scale x_pos d in
        (is_some (find_intercept sc top bottom d'.intercepts) ≡ true)
        × (ensure_intercepts sc top bottom scale x_pos d' ≡ (d', out))
  unfolding ensure_intercepts
  ensure_intercepts_again top bottom scale x_pos d t b =
      elim (Option-cases (find_intercept sc top bottom d.intercepts)) [
        | inr (i, hit) ↦ (
          rw (hit, ensure_intercepts) (rw hit refl),
          rw (hit, ensure_intercepts)
              (rw (hit, ensure_intercepts) (rw (hit, ensure_intercepts) refl)),
        )
        | inl missing ↦
            let (found, same) =
              new_intercept-found top bottom scale x_pos d.path d.intercepts t b in
            (
              rw (missing, ensure_intercepts) (rw found refl),
              rw (missing, ensure_intercepts)
                  (rw (found, ensure_intercepts)
                    (rw (same, ensure_intercepts) (rw (missing, ensure_intercepts) refl))),
            )
      ]
