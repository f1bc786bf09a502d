-- ===== src/Scoring/Validity.antt =====
-- The score of each domain passes the check that every writer of scores applies
-- (`DomainScore.Validate` of internal/domain/domain_score.go).
use marketengine.Prelude.{◌≡◌, refl, false, ◌==◌, ◌∙◌, inl, inr, arith, Bool-cases}
use marketengine.Float.{Float, of_ℕ}
use marketengine.Float.Laws.{IsOrdered, ◌≼◌}
use marketengine.Float.Order.{
  Within, le_of_not_lt, nan-lt, lt-nan, minus-le-decimal, out_of_range_iff,
}
use marketengine.Time.{is_zero}
use marketengine.Errors.{ok}
use marketengine.Domain.{
  DomainScore, validate_asset, validate_domain, validate_score, score_out_of_range,
}
use marketengine.Scoring.{clamp_score}
use marketengine.Scoring.Liquidity
use marketengine.Scoring.Leverage
use marketengine.Scoring.Volatility
use marketengine.Scoring.MarketStress
use marketengine.Scoring.CapitalFlows

module _ {F : Type 0} ⦃f : Float F⦄ (laws : IsOrdered F) where
  minus_one-le-one : f.minus (of_ℕ 1) ≼ of_ℕ 1
  minus_one-le-one = minus-le-decimal laws 1 1 0 (omega arith) (omega arith) (omega arith)

  -- A clamped score is NaN or lies between -1 and 1.
  pub clamp_score-Within : (x : F) → Within (f.minus (of_ℕ 1)) (of_ℕ 1) (clamp_score x)
  unfolding clamp_score
  clamp_score-Within x =
      let n = laws.le_number _ _ minus_one-le-one in
      elim (Bool-cases (f.is_nan x)) [
        | inl nan ↦
            inl (ground (arith, nan-lt laws x (f.minus (of_ℕ 1)) nan, lt-nan laws (of_ℕ 1) x nan))
        | inr num ↦ inr (
            ground (
              arith,
              minus_one-le-one,
              laws.le_refl _ n.0,
              laws.le_refl _ n.1,
              le_of_not_lt laws (f.minus (of_ℕ 1)) x n.0 num,
              le_of_not_lt laws x (of_ℕ 1) num n.1,
            ))
      ]

  ten_thousandths : f.decimal 10_000 4 ≡ of_ℕ 1
  ten_thousandths =
      laws.decimal_rescale 1_000 3 (omega arith) (omega arith)
      ∙ laws.decimal_rescale 100 2 (omega arith) (omega arith)
      ∙ laws.decimal_rescale 10 1 (omega arith) (omega arith)
      ∙ laws.decimal_rescale 1 0 (omega arith) (omega arith)

  one-le-bound : of_ℕ 1 ≼ f.decimal 10_001 4
  one-le-bound =
      rw (← ten_thousandths)
        (laws.decimal_le 10_000 10_001 4 (omega arith) (omega arith) (omega arith))

  -- A clamped score passes the range check.
  clamp_in_range : (x : F) → score_out_of_range (clamp_score x) ≡ false
  clamp_in_range x =
      let range =
        out_of_range_iff laws _ _ (clamp_score x)
          (minus-le-decimal laws 10_001 10_001 4 (omega arith) (omega arith) (omega arith)) in
      let up = one-le-bound in
      let down = laws.minus_le _ _ up in
      elim (clamp_score-Within x) [
        | inl nan ↦ range.1 (inl nan)
        | inr b ↦ range.1 (inr (laws.le_trans _ _ _ down b.0, laws.le_trans _ _ _ b.1 up))
      ]

  clamped_valid :
      (s : DomainScore F) (x : F)
      → s.score ≡ clamp_score x
      → validate_asset s.asset ≡ ok tt
      → validate_domain s.domain ≡ ok tt
      → is_zero s.value_date ≡ false
      → (s.model_version == "") ≡ false
      → validate_score s ≡ ok tt
  unfolding validate_score
  clamped_valid s x e asset domain dated versioned = let range = clamp_in_range x in ground arith

  -- Whatever the readings and the weights, the liquidity score of a known asset on a dated day under
  -- a named model version passes `DomainScore.Validate`.
  pub liquidity_score_valid :
      (inp : Liquidity.ScoreInputs F) (cfg : Liquidity.Config F)
      → validate_asset inp.asset ≡ ok tt
      → is_zero inp.value_date ≡ false
      → (cfg.model_version == "") ≡ false
      → validate_score (Liquidity.compute_score inp cfg) ≡ ok tt
  unfolding Liquidity.compute_score Liquidity.score_with Liquidity.defaults validate_domain
  liquidity_score_valid inp cfg asset dated versioned =
      clamped_valid (Liquidity.compute_score inp cfg) _ refl asset refl dated versioned

  -- Whatever the readings and the weights, the leverage score of a known asset on a dated day under
  -- a named model version passes `DomainScore.Validate`.
  pub leverage_score_valid :
      (inp : Leverage.ScoreInputs F) (cfg : Leverage.Config F)
      → validate_asset inp.asset ≡ ok tt
      → is_zero inp.value_date ≡ false
      → (cfg.model_version == "") ≡ false
      → validate_score (Leverage.compute_score inp cfg) ≡ ok tt
  unfolding Leverage.compute_score Leverage.score_with Leverage.defaults validate_domain
  leverage_score_valid inp cfg asset dated versioned =
      clamped_valid (Leverage.compute_score inp cfg) _ refl asset refl dated versioned

  -- Whatever the readings and the weights, the volatility score of a known asset on a dated day under
  -- a named model version passes `DomainScore.Validate`.
  pub volatility_score_valid :
      (inp : Volatility.ScoreInputs F) (cfg : Volatility.Config F)
      → validate_asset inp.asset ≡ ok tt
      → is_zero inp.value_date ≡ false
      → (cfg.model_version == "") ≡ false
      → validate_score (Volatility.compute_score inp cfg) ≡ ok tt
  unfolding Volatility.compute_score Volatility.score_with Volatility.defaults validate_domain
  volatility_score_valid inp cfg asset dated versioned =
      clamped_valid (Volatility.compute_score inp cfg) _ refl asset refl dated versioned

  -- Whatever the readings and the weights, the market stress score of a known asset on a dated day under
  -- a named model version passes `DomainScore.Validate`.
  pub market_stress_score_valid :
      (inp : MarketStress.ScoreInputs F) (cfg : MarketStress.Config F)
      → validate_asset inp.asset ≡ ok tt
      → is_zero inp.value_date ≡ false
      → (cfg.model_version == "") ≡ false
      → validate_score (MarketStress.compute_score inp cfg) ≡ ok tt
  unfolding MarketStress.compute_score MarketStress.score_with MarketStress.defaults validate_domain
  market_stress_score_valid inp cfg asset dated versioned =
      clamped_valid (MarketStress.compute_score inp cfg) _ refl asset refl dated versioned

  -- Whatever the readings and the weights, the capital flows score of a known asset on a dated day under
  -- a named model version passes `DomainScore.Validate`.
  pub capital_flows_score_valid :
      (inp : CapitalFlows.ScoreInputs F) (cfg : CapitalFlows.Config F)
      → validate_asset inp.asset ≡ ok tt
      → is_zero inp.value_date ≡ false
      → (cfg.model_version == "") ≡ false
      → validate_score (CapitalFlows.compute_score inp cfg) ≡ ok tt
  unfolding CapitalFlows.compute_score CapitalFlows.score_with CapitalFlows.defaults validate_domain
  capital_flows_score_valid inp cfg asset dated versioned =
      clamped_valid (CapitalFlows.compute_score inp cfg) _ refl asset refl dated versioned
