-- ===== src/Domain/Validation.antt =====
-- What the checks of internal/domain accept.
use marketengine.Prelude.{◌≡◌, ◌≢◌, ◌⊎◌, ◌↔◌, true, false, arith, eq_iff}
use marketengine.Float.{Float}
use marketengine.Float.Laws.{IsOrdered}
use marketengine.Float.Order.{Within, out_of_range_iff, minus-le-decimal}
use marketengine.Errors.{ok}
use marketengine.Domain.{
  Asset, validate_asset, is_tradeable, asset_btc, asset_eth, asset_global, RegimeState,
  validate_state, check_probabilities, score_out_of_range, probability_out_of_range,
}

pub validate_asset_ok :
    (a : Asset) → (validate_asset a ≡ ok tt) ↔ ((is_tradeable a ≡ true) ⊎ (a ≡ asset_global))
unfolding validate_asset is_tradeable
validate_asset_ok a = ground (arith, eq_iff a asset_btc, eq_iff a asset_eth, eq_iff a asset_global)

module _ {F : Type 0} ⦃f : Float F⦄ (laws : IsOrdered F) where
  -- NaN, or at most 1.0001 in size.
  abbrev pub IsScore : F → Type 0
  IsScore = Within (f.minus (f.decimal 10_001 4)) (f.decimal 10_001 4)

  -- NaN, or between -0.0001 and 1.0001.
  abbrev pub IsProbability : F → Type 0
  IsProbability = Within (f.minus (f.decimal 1 4)) (f.decimal 10_001 4)

  pub IsScore-iff : (x : F) → (score_out_of_range x ≡ false) ↔ IsScore x
  IsScore-iff x =
      out_of_range_iff laws _ _ x
        (minus-le-decimal laws 10_001 10_001 4 (omega arith) (omega arith) (omega arith))

  IsProbability-iff : (x : F) → (probability_out_of_range x ≡ false) ↔ IsProbability x
  IsProbability-iff x =
      out_of_range_iff laws _ _ x
        (minus-le-decimal laws 1 10_001 4 (omega arith) (omega arith) (omega arith))

  -- What `validate_state` demands.
  pub record IsValidState (s : RegimeState F) : Type 0 where
    pub asset_known : (is_tradeable s.asset ≡ true) ⊎ (s.asset ≡ asset_global)
    pub dated : s.value_date ≢ 0
    pub versioned : s.model_version ≢ ""
    pub indicator_score : IsScore s.regime_indicator
    pub risk_on_bounds : IsProbability s.risk_on_probability
    pub risk_off_bounds : IsProbability s.risk_off_probability
    pub transition_bounds : IsProbability s.transition_risk

  -- `validate_state` accepts a state exactly if its asset is one of the three, it has a date and a
  -- model version, its indicator is NaN or at most 1.0001 in size, and each of its three
  -- probabilities is NaN or between -0.0001 and 1.0001.
  pub validate_state_iff : (s : RegimeState F) → (validate_state s ≡ ok tt) ↔ IsValidState s
  unfolding validate_state check_probabilities
  validate_state_iff s = (
    (λ h. record {
      asset_known = (validate_asset_ok s.asset).0 (ground arith);
      dated = ground arith;
      versioned = ground (arith, eq_iff s.model_version "");
      indicator_score = (IsScore-iff s.regime_indicator).0 (ground arith);
      risk_on_bounds = (IsProbability-iff s.risk_on_probability).0 (ground arith);
      risk_off_bounds = (IsProbability-iff s.risk_off_probability).0 (ground arith);
      transition_bounds = (IsProbability-iff s.transition_risk).0 (ground arith);
    }),
    (λ v. ground (
      arith,
      (validate_asset_ok s.asset).1 v.asset_known,
      v.dated,
      v.versioned,
      eq_iff s.model_version "",
      (IsScore-iff s.regime_indicator).1 v.indicator_score,
      (IsProbability-iff s.risk_on_probability).1 v.risk_on_bounds,
      (IsProbability-iff s.risk_off_probability).1 v.risk_off_bounds,
      (IsProbability-iff s.transition_risk).1 v.transition_bounds,
    )),
  )
