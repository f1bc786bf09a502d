-- ===== src/Backtest/Classifier/Stability.antt =====
-- Hysteresis keeps a label steady.
use marketengine.Prelude.{◌≡◌, ◌≢◌, ◌⊎◌, inl, inr, false, arith, Bool-cases}
use marketengine.Float.{Float}
use marketengine.Float.Laws.{◌≺◌, ◌≼◌, IsOrdered}
use marketengine.Float.Order.{not_lt_of_le, le_of_lt, lt-le_trans, le-lt_trans}
use marketengine.Errors.{ok}
use marketengine.Domain.{Label, risk_on, risk_off, transition}
use marketengine.Backtest.Classifier.{HysteresisConfig, validate, classify_hysteresis}

module _ {F : Type 0} ⦃f : Float F⦄ (laws : IsOrdered F) where
  not_le_of_lt : (x y : F) → x ≺ y → f.le y x ≡ false
  not_le_of_lt x y h = elim (Bool-cases (f.le y x)) [
    | inl k ↦ let n = not_lt_of_le laws y x k in cc
    | inr k ↦ k
  ]

  lt_trans : (x y z : F) → x ≺ y → y ≺ z → x ≺ z
  lt_trans x y z h k = lt-le_trans laws x y z h (le_of_lt laws y z k)

  -- Under a configuration that `Validate` accepts, classifying the same day again from the label that
  -- it got gives that label, whatever the label before it.
  pub hysteresis_stable :
      (cfg : HysteresisConfig F) (prev : Label) (indicator risk : F)
      → validate cfg ≡ ok tt
      → let label = classify_hysteresis cfg prev indicator risk in
        classify_hysteresis cfg label indicator risk ≡ label
  unfolding classify_hysteresis validate
  hysteresis_stable cfg prev indicator risk v =
      let t : cfg.transition_exit ≺ cfg.transition_enter = ground arith in
      let on : cfg.risk_on_exit ≺ cfg.risk_on_enter = ground arith in
      let off : cfg.risk_off_enter ≺ cfg.risk_off_exit = ground arith in
      ground (
        arith,
        not_le_of_lt cfg.risk_on_exit indicator,
        lt_trans cfg.risk_on_exit cfg.risk_on_enter indicator on,
        not_le_of_lt indicator cfg.risk_off_exit,
        lt_trans indicator cfg.risk_off_enter cfg.risk_off_exit,
        not_lt_of_le laws cfg.risk_off_exit indicator,
        le-lt_trans laws indicator cfg.risk_on_exit cfg.risk_on_enter,
        not_lt_of_le laws indicator cfg.risk_on_enter,
        le_of_lt laws indicator cfg.risk_on_enter,
        lt-le_trans laws cfg.risk_off_enter cfg.risk_off_exit indicator off,
        not_lt_of_le laws cfg.risk_off_enter indicator,
        le_of_lt laws cfg.risk_off_enter indicator,
      )

  -- A day gets another label than the one before it only beyond a threshold: `risk_on` and `risk_off`
  -- only beyond their entry thresholds; `transition` only at a transition risk of its entry threshold
  -- or more, or with the indicator back at the exit threshold of the label before. `transition` is left
  -- only while the transition risk is below its exit threshold.
  pub label_change_crosses :
      (cfg : HysteresisConfig F) (prev : Label) (indicator risk : F)
      → classify_hysteresis cfg prev indicator risk ≢ prev
      → let label = classify_hysteresis cfg prev indicator risk in
        (((label ≡ transition)
            × ((cfg.transition_enter ≼ risk)
                ⊎ ((prev ≡ risk_on) × (indicator ≼ cfg.risk_on_exit))
                ⊎ ((prev ≡ risk_off) × (cfg.risk_off_exit ≼ indicator))))
          ⊎ ((label ≡ risk_on) × (cfg.risk_on_enter ≺ indicator))
          ⊎ ((label ≡ risk_off) × (indicator ≺ cfg.risk_off_enter)))
        × ((prev ≢ transition) ⊎ (risk ≺ cfg.transition_exit))
  unfolding classify_hysteresis
  label_change_crosses cfg prev indicator risk h = ground arith
