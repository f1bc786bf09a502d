-- ===== src/Regime/Ports.antt =====
-- internal/regime/port.go: the interfaces that the service calls, and what it writes.
use marketengine.Prelude.{ℕ, String, Option, List}
use marketengine.Time.{Time}
use marketengine.Errors.{Result}
use marketengine.GoMap.{Map}
use marketengine.Domain.{Asset, DomainCode, IndicatorPoint, RegimeState}

pub record SmoothingTrailingPoint (F : Type 0) : Type 0 where
  pub value_date : Time
  pub regime_indicator : F
  pub transition_risk : F

-- the event "regime.state.completed.v1"; its aggregate id is the asset and the date
pub record StateEvent (F : Type 0) : Type 0 where
  pub asset : Asset
  pub value_date : Time
  pub regime_indicator : F
  pub risk_on : F
  pub risk_off : F
  pub transition_risk : F
  pub model_version : String
  pub config_version : String

-- What the service writes: rows of the repository, and events.
pub data Action (F : Type 0) : Type 0 where
  saved : RegimeState F → Action F
  published : StateEvent F → Action F

-- The interfaces RegimeRepo, DomainScoreReader, Publisher and Clock; each answer may depend on what
-- was written before.
pub record Ports (F : Type 0) : Type 0 where
  pub get_latest_all : Asset → Time → Time → List (Action F) → Result (Map F)
  pub get_by_date : Asset → DomainCode → Time → Time → List (Action F) → Result (Option F)
  pub get_history : Asset → DomainCode → ℕ → List (Action F) → Result (List F)
  pub get_indicator_raw_series :
      Asset → Time → Time → List (Action F) → Result (List (IndicatorPoint F))
  pub get_smoothing_trailing :
      Asset → Time → Time → Time → List (Action F) → Result (List (SmoothingTrailingPoint F))
  pub save : RegimeState F → List (Action F) → Result (Unit {0})
  pub publish : StateEvent F → List (Action F) → Result (Unit {0})
  pub now : List (Action F) → Result Time
