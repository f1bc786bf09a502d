-- ===== src/Backtest/Classifier.antt =====
-- internal/backtest/classifier.go. Its labels are those of package domain.
pub mod Stability
use marketengine.Prelude.{Bool, not, List, [], ◌∷◌, if◌then◌else◌}
use marketengine.Float.{Float, ◌<?◌, ◌≤?◌}
use marketengine.Errors.{message, Result, ◌>>=◌, ◌>>◌, check}
use marketengine.Domain.{Label, risk_on, risk_off, transition}

pub record ClassifierConfig (F : Type 0) : Type 0 where
  pub transition_risk_high : F
  pub risk_on_floor : F
  pub risk_off_ceiling : F

pub record HysteresisConfig (F : Type 0) : Type 0 where
  pub transition_enter : F
  pub transition_exit : F
  pub risk_on_enter : F
  pub risk_on_exit : F
  pub risk_off_enter : F
  pub risk_off_exit : F

module _ {F : Type 0} ⦃f : Float F⦄ where
  abbrev pub default_classifier : ClassifierConfig F
  default_classifier = record {
    transition_risk_high = f.decimal 65 2;
    risk_on_floor = f.decimal 30 2;
    risk_off_ceiling = f.minus (f.decimal 30 2);
  }

  unfoldable pub classify : ClassifierConfig F → F → F → Label
  classify cfg indicator risk =
      if cfg.transition_risk_high ≤? risk
      then transition
      else if cfg.risk_on_floor <? indicator
      then risk_on
      else if indicator <? cfg.risk_off_ceiling
      then risk_off
      else transition

  abbrev pub default_hysteresis : HysteresisConfig F
  default_hysteresis = record {
    transition_enter = f.decimal 86 2;
    transition_exit = f.decimal 80 2;
    risk_on_enter = f.decimal 20 2;
    risk_on_exit = f.decimal 5 2;
    risk_off_enter = f.minus (f.decimal 20 2);
    risk_off_exit = f.minus (f.decimal 5 2);
  }

  unfoldable pub validate : HysteresisConfig F → Result (Unit {0})
  validate c = do
    check (c.transition_exit <? c.transition_enter) (message "hysteresis: TransitionEnter")
    check (c.risk_on_exit <? c.risk_on_enter) (message "hysteresis: RiskOnEnter")
    check (c.risk_off_enter <? c.risk_off_exit) (message "hysteresis: RiskOffEnter")

  -- the `switch` on the previous label
  by_previous : HysteresisConfig F → Label → F → F → Label
  by_previous cfg risk_on indicator risk =
      if indicator ≤? cfg.risk_on_exit
      then (if indicator <? cfg.risk_off_enter then risk_off else transition)
      else risk_on
  by_previous cfg risk_off indicator risk =
      if cfg.risk_off_exit ≤? indicator
      then (if cfg.risk_on_enter <? indicator then risk_on else transition)
      else risk_off
  by_previous cfg transition indicator risk =
      if risk <? cfg.transition_exit
      then (if cfg.risk_on_enter <? indicator
          then risk_on
          else if indicator <? cfg.risk_off_enter
          then risk_off
          else transition)
      else transition

  unfoldable pub classify_hysteresis : HysteresisConfig F → Label → F → F → Label
  unfolding by_previous
  classify_hysteresis cfg prev indicator risk =
      if cfg.transition_enter ≤? risk then transition else by_previous cfg prev indicator risk
