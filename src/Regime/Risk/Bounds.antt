-- ===== src/Regime/Risk/Bounds.antt =====
-- Ranges of the transition risk and of the probabilities.
use marketengine.Prelude.{◌≡◌, inl, inr, true, false, arith, Bool-cases}
use marketengine.Float.{Float, ◌⊗◌, ◌⊖◌, of_ℕ}
use marketengine.Float.Laws.{IsNumber, InUnit, ◌≼◌, IsRounded}
use marketengine.Float.Order.{Within, within_number, not_lt_of_le}
use marketengine.Regime.Stats.{clip, sigmoid}
use marketengine.Regime.Stats.Bounds.{clip-Within, clip_nan, sigmoid_unit}
use marketengine.Regime.Config.{Config}
use marketengine.Regime.Risk.{
  TransitionRiskInputs, compute_transition_risk, raw_risk, above_baseline, consistency_discount,
  final_probabilities,
}

module _ {F : Type 0} ⦃f : Float F⦄ (laws : IsRounded F) where
  open laws use {decimal_le, decimal_rescale, mul_unit, one_mul, one-sub_unit, le_number}

  pub zero-le-one : ◌≼◌ {F = F} (of_ℕ 0) (of_ℕ 1)
  zero-le-one = decimal_le 0 1 0 (omega arith) (omega arith) (omega arith)

  -- The transition risk is NaN or between 0 and 1, whatever the configuration and the inputs.
  pub transition_risk_unit :
      (inp : TransitionRiskInputs F) (cfg : Config F)
      → Within (of_ℕ 0) (of_ℕ 1) (compute_transition_risk inp cfg)
  unfolding compute_transition_risk
  transition_risk_unit inp cfg = clip-Within laws.ordered _ (of_ℕ 0) (of_ℕ 1) zero-le-one

  pub clip_unit : (x : F) → InUnit x → clip x (of_ℕ 0) (of_ℕ 1) ≡ x
  unfolding clip
  clip_unit x h =
      ground
        (arith, not_lt_of_le laws.ordered (of_ℕ 0) x h.0, not_lt_of_le laws.ordered x (of_ℕ 1) h.1)

  seven_tenths : InUnit (f.decimal 7 1)
  seven_tenths = (
    rw (← decimal_rescale 0 0 (omega arith) (omega arith))
        (decimal_le 0 7 1 (omega arith) (omega arith) (omega arith)),
    rw (← decimal_rescale 1 0 (omega arith) (omega arith))
        (decimal_le 7 10 1 (omega arith) (omega arith) (omega arith)),
  )

  -- Damping by 0.7 what was cut to the unit interval.
  damped-le :
      (x one : F)
      → one ≡ of_ℕ 1
      → let c = clip x (of_ℕ 0) (of_ℕ 1) in
        IsNumber (clip (one ⊗ c) (of_ℕ 0) (of_ℕ 1))
        → clip (f.decimal 7 1 ⊗ c) (of_ℕ 0) (of_ℕ 1) ≼ clip (one ⊗ c) (of_ℕ 0) (of_ℕ 1)
  damped-le x one e num =
      let c = clip x (of_ℕ 0) (of_ℕ 1) in
      let same : one ⊗ c ≡ c = rw e (one_mul c) in
      elim (Bool-cases (f.is_nan c)) [
        | inl nan ↦
            let n : f.is_nan (clip (one ⊗ c) (of_ℕ 0) (of_ℕ 1)) ≡ true =
              rw same (rw (clip_nan laws.ordered c (of_ℕ 0) (of_ℕ 1) nan) nan) in
            cc
        | inr number ↦
            let unit =
              within_number _ _ c (clip-Within laws.ordered x (of_ℕ 0) (of_ℕ 1) zero-le-one)
                number in
            let (low, high) = mul_unit (f.decimal 7 1) c seven_tenths unit in
            rw same (
              rw (clip_unit c unit)
                (rw (clip_unit (f.decimal 7 1 ⊗ c) (low, laws.le_trans _ _ _ high unit.1)) high))
      ]

  -- The inputs with the mark that every present domain was checked and moved in one direction, and
  -- with the mark that they did not.
  abbrev pub together : TransitionRiskInputs F → TransitionRiskInputs F
  together inp = record inp { momentum_checked = true; momentum_same_direction = true }

  abbrev pub apart : TransitionRiskInputs F → TransitionRiskInputs F
  apart inp = record inp { momentum_same_direction = false }

  -- Where the transition risk is a number for inputs whose domains did not move together, it is no
  -- higher for the same inputs with the mark that they did.
  pub momentum_lowers_risk :
      (inp : TransitionRiskInputs F) (cfg : Config F)
      → IsNumber (compute_transition_risk (apart inp) cfg)
      → compute_transition_risk (together inp) cfg ≼ compute_transition_risk (apart inp) cfg
  unfolding compute_transition_risk
  momentum_lowers_risk inp cfg num =
      damped-le (above_baseline (raw_risk inp cfg) cfg.transition_baseline)
        (consistency_discount (apart inp)) (ground arith) num

  scaled_unit : (x y : F) → InUnit x → InUnit y → InUnit (x ⊗ y) × (x ⊗ y ≼ x)
  scaled_unit x y h k =
      let (low, high) = mul_unit x y h k in
      ((low, laws.le_trans _ _ _ high k.1), rw (laws.mul_comm x y) (mul_unit y x k h).1)

  -- With a transition risk between 0 and 1 and a numeric exponent, both probabilities are between 0
  -- and 1, and neither exceeds what the transition risk leaves.
  pub final_probabilities_unit :
      (indicator risk k : F)
      → InUnit risk
      → IsNumber (k ⊗ indicator)
      → let (on, off) = final_probabilities indicator risk k in
        InUnit on × InUnit off × (on ≼ of_ℕ 1 ⊖ risk) × (off ≼ of_ℕ 1 ⊖ risk)
  unfolding final_probabilities
  final_probabilities_unit indicator risk k h num =
      let rest = one-sub_unit risk h in
      let on = sigmoid_unit laws (k ⊗ indicator) num in
      let off = one-sub_unit (sigmoid (k ⊗ indicator)) on in
      let (a, b) = scaled_unit _ _ rest on in let (c, d) = scaled_unit _ _ rest off in (a, c, b, d)
