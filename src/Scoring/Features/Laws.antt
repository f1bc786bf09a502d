-- ===== src/Scoring/Features/Laws.antt =====
-- What the features promise their callers.
use marketengine.Prelude.{ℕ, ◌≤◌, ◌<◌, ◌^◌, ◌≡◌, refl, some, List, [], ◌∷◌, arith, length, false}
use marketengine.Float.{Float}
use marketengine.Float.Laws.{InUnit, IsNumber, IsRounded}
use marketengine.Scoring.Features.{count_below, percentile_rank, z_score_latest}

module _ {F : Type 0} ⦃f : Float F⦄ where
  count_below-le : (x : F) (vs : List F) → count_below x vs ≤ length vs
  unfolding count_below
  count_below-le x [] = omega arith
  count_below-le x (v ∷ vs) = ground (arith, count_below-le x vs)

  -- The percentile rank of a value among fewer than 2^53 observations, at least one, is between 0
  -- and 1.
  pub percentile_rank_unit :
      IsRounded F
      → (x v : F) (vs : List F) → length (v ∷ vs) < 2 ^ 53
      → (r : F) × (percentile_rank x (v ∷ vs) ≡ some r) × InUnit r
  unfolding percentile_rank
  percentile_rank_unit laws x v vs h = (
    _,
    refl,
    laws.div_counts (count_below x (v ∷ vs)) (length (v ∷ vs)) (count_below-le x (v ∷ vs))
        (omega arith) h,
  )

  -- A latest z-score that is reported is a number, not infinite, and stands on at least the
  -- required number of observations.
  pub z_score_latest_usable :
      (series : List F) (min_obs : ℕ) (z : F)
      → z_score_latest series min_obs ≡ some z
      → IsNumber z × (f.is_inf z ≡ false) × (min_obs ≤ length series)
  unfolding z_score_latest
  z_score_latest_usable series min_obs z h = ground arith
