-- ===== src/Regime/Stats/Bounds.antt =====
-- Ranges of `clip` and `sigmoid`.
use marketengine.Prelude.{◌≡◌, inl, inr, true, arith, Bool-cases}
use marketengine.Float.{Float}
use marketengine.Float.Laws.{IsNumber, InUnit, ◌≼◌, IsOrdered, IsRounded}
use marketengine.Float.Order.{Within, le_of_not_lt, nan-lt, lt-nan}
use marketengine.Regime.Stats.{clip, sigmoid}

module _ {F : Type 0} ⦃f : Float F⦄ where
  module _ (laws : IsOrdered F) where
    -- A clipped number lies in the range.
    pub clip_bounds :
        (x lo hi : F) → lo ≼ hi → IsNumber x → (lo ≼ clip x lo hi) × (clip x lo hi ≼ hi)
    unfolding clip
    clip_bounds x lo hi b num =
        let n = laws.le_number lo hi b in
        ground (
          arith,
          laws.le_refl lo n.0,
          laws.le_refl hi n.1,
          le_of_not_lt laws lo x n.0,
          le_of_not_lt laws x hi,
        )

    -- A clipped value is NaN or lies in the range.
    pub clip-Within : (x lo hi : F) → lo ≼ hi → Within lo hi (clip x lo hi)
    unfolding clip
    clip-Within x lo hi b = elim (Bool-cases (f.is_nan x)) [
      | inl nan ↦ inl (ground (arith, nan-lt laws x lo nan, lt-nan laws hi x nan))
      | inr num ↦ inr (clip_bounds x lo hi b num)
    ]

    -- Clipping leaves NaN.
    pub clip_nan : (x lo hi : F) → f.is_nan x ≡ true → clip x lo hi ≡ x
    unfolding clip
    clip_nan x lo hi h = ground (arith, nan-lt laws x lo h, lt-nan laws hi x h)

    pub clip-IsNumber : (x lo hi : F) → lo ≼ hi → IsNumber x → IsNumber (clip x lo hi)
    unfolding clip
    clip-IsNumber x lo hi b h = let n = laws.le_number lo hi b in ground arith

  -- The sigmoid of a number is between 0 and 1.
  pub sigmoid_unit : IsRounded F → (x : F) → IsNumber x → InUnit (sigmoid x)
  unfolding sigmoid
  sigmoid_unit laws x h =
      laws.recip_unit _ (laws.one-add _ (laws.exp_nonneg _ (laws.minus_number x h)))
