-- ===== src/Backtest/Ports.antt =====
-- internal/backtest/config.go and port.go: the settings of a backtest, its records and the interfaces
-- that it calls. `SnapshotHash` of pipeline.go, SHA-256 over printed numbers, is the field
-- `snapshot_hash`. The offset of the publication is not negative.
use marketengine.Prelude.{ℕ, String, ◌==◌, Option, List, eqb, if◌then◌else◌}
use marketengine.Time.{Time}
use marketengine.Errors.{Result}
use marketengine.GoMap.{Map}
use marketengine.Domain.{Asset, DomainCode, IndicatorPoint, RegimeState}

pub record Config : Type 0 where
  pub sla_offset_minutes : ℕ
  pub harness_version : String
  pub code_sha : String

-- The classifier of the settings is not read by the service.
unfoldable pub defaults : Config → Config
defaults c = record c {
  sla_offset_minutes = if eqb c.sla_offset_minutes 0 then 60 else c.sla_offset_minutes;
  harness_version = if c.harness_version == "" then "harness_v1.0.0" else c.harness_version;
}

pub record BacktestRun : Type 0 where
  pub mode : String
  pub period_start : Time
  pub period_end : Time
  pub model_version : String
  pub config_version : String
  pub config_yaml : String
  pub code_sha : String
  pub data_snapshot_hash : String
  pub sla_offset_minutes : ℕ
  pub parent_run_id : Option String
  pub harness_version : String
  pub status : String
  pub started_at : Time

-- What the service writes: runs, their states, and the status of a run.
pub data Action (F : Type 0) : Type 0 where
  run_saved : String → BacktestRun → Action F
  state_saved : String → RegimeState F → Action F
  status_updated : String → String → Time → Action F

abbrev pub Snapshot : Type 0 → Type 0
Snapshot F = List ((Asset × Time) × Map F)

-- The interfaces RunRepo, RegimeStateRepo, DomainScoreReader, IndicatorRawReader and Clock.
pub record Ports (F : Type 0) : Type 0 where
  pub save_run : BacktestRun → List (Action F) → Result String
  pub update_status : String → String → Time → List (Action F) → Result (Unit {0})
  pub save_state : String → RegimeState F → List (Action F) → Result (Unit {0})
  pub get_by_date : Asset → DomainCode → Time → Time → List (Action F) → Result (Option F)
  pub get_latest_all : Asset → Time → Time → List (Action F) → Result (Map F)
  pub get_history : Asset → DomainCode → ℕ → List (Action F) → Result (List F)
  pub get_indicator_raw_series :
      Asset → Time → Time → Time → List (Action F) → Result (List (IndicatorPoint F))
  pub now : List (Action F) → Time
  pub snapshot_hash : Snapshot F → String
