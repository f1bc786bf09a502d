-- ===== src/Backtest/Service.antt =====
-- internal/backtest/service.go: `Replay`, and the labels of the replayed days. `computeOne` is in
-- `Backtest.State`.
pub mod Replay
pub mod Writes
pub mod Trace
use marketengine.Prelude.{
  ℕ, ◌+◌, ◌*◌, String, Bool, true, false, ◌&&◌, ◌==◌, Option, none, some, List, [], ◌∷◌, ◌++◌, eqb,
  if◌then◌else◌,
}
use marketengine.Prelude.Int.{ℤ, pos, ltb_ℤ}
use marketengine.Float.{Float, ◌⊖◌, ◌⊘◌, ◌<?◌, ◌=?◌, of_ℕ}
use marketengine.Time.{Time, minute, utc_day, sub_days, after, days_between}
use marketengine.Errors.{Result, ok, err, insufficient_coverage, message, wrap}
use marketengine.Effects.{
  Eff, pure, raise, query, context, ◌>>=◌, ◌>>◌, perform, fail_if, skip_error,
}
use marketengine.GoMap.{Map, insert}
use marketengine.Domain.{
  Asset, assets_tradeable, DomainCode, all_domains, IndicatorPoint, Label, transition, RegimeState,
}
use marketengine.Regime.Config as Engine
use marketengine.Regime.Stats.{signf}
use marketengine.Regime.Aggregate.{
  present_set, is_present, at, coverage_fraction, redistribute_weights, normalize_scores,
  weighted_sum_raw, weighted_sum_normalized,
}
use marketengine.Regime.Risk.{
  TransitionRiskInputs, compute_historical_roc_div, compute_transition_risk, final_probabilities,
}
use marketengine.Regime.Smoothing.{ema_smooth}
use marketengine.Regime.Drivers.{build_top_drivers}
use marketengine.Backtest.Classifier.{default_hysteresis, classify_hysteresis}
use marketengine.Backtest.Ports.{
  Config, defaults, BacktestRun, Action, run_saved, state_saved, status_updated, Snapshot, Ports,
}
use marketengine.Backtest.State.{compute_one}

module _ {F : Type 0} ⦃f : Float F⦄ (ports : Ports F) where
  abbrev run_recorded :
      BacktestRun → Result String → List (Action F) → Result String × List (Action F)
  run_recorded run (ok id) h = (ok id, h ++ run_saved id run ∷ [])
  run_recorded run (err e) h = (err e, h)

  -- s.runs.Save(ctx, run)
  unfoldable pub save_run : BacktestRun → Eff (Action F) String
  save_run run h = run_recorded run (ports.save_run run h) h

  -- the loops of `collectSnapshot`
  snapshot_day : Config → List Asset → Time → Snapshot F → Eff (Action F) (Snapshot F)
  snapshot_day cfg [] d out = pure out
  snapshot_day cfg (a ∷ as') d out = do
    scores ← query (ports.get_latest_all a d (d + cfg.sla_offset_minutes * minute))
    snapshot_day cfg as' d (with_scores a d scores out)
    where
      with_scores : Asset → Time → Map F → Snapshot F → Snapshot F
      with_scores a d [] out = out
      with_scores a d (x ∷ m) out = out ++ ((a, d), x ∷ m) ∷ []

  collect_snapshot : Config → List Asset → List Time → Snapshot F → Eff (Action F) (Snapshot F)
  collect_snapshot cfg assets [] out = pure out
  collect_snapshot cfg assets (d ∷ ds) out = do
    more ← snapshot_day cfg assets d out
    collect_snapshot cfg assets ds more

  -- one round of the inner loop of `Replay`; errors are logged, and the round ends
  unfoldable pub replay_one :
      Config → Engine.Config F → String → Asset → Time → Eff (Action F) (Unit {0})
  replay_one cfg engine id a d = do
    s ← compute_one ports cfg engine a d
    perform (ports.save_state id s) (state_saved id s)

  unfoldable pub replay_day :
      Config → Engine.Config F → String → List Asset → Time → Eff (Action F) (Unit {0})
  replay_day cfg engine id [] d = pure tt
  replay_day cfg engine id (a ∷ as') d = do
    skip_error (replay_one cfg engine id a d)
    replay_day cfg engine id as' d

  unfoldable pub replay_days :
      Config → Engine.Config F → String → List Asset → List Time → Eff (Action F) (Unit {0})
  replay_days cfg engine id assets [] = pure tt
  replay_days cfg engine id assets (d ∷ ds) = do
    replay_day cfg engine id assets d
    replay_days cfg engine id assets ds

  unfoldable pub replay :
      Config
      → Engine.Config F
      → String
      → List Asset
      → Time
      → Time
      → Option String
      → String
      → Eff (Action F) String
  unfolding collect_snapshot snapshot_day
  replay cfg engine yaml assets from to parent mode =
      if after (utc_day from) (utc_day to)
      then raise (message "replay: periodStart after periodEnd")
      else (do
        let days = days_between (utc_day from) (utc_day to)
        snapshot ← context "replay snapshot" (collect_snapshot cfg assets days [])
        started ← query (λ h. ok (ports.now h))
        id ← context "save run" (
            save_run (record {
              mode = if mode == "" then "replay" else mode;
              period_start = utc_day from;
              period_end = utc_day to;
              model_version = engine.model_version;
              config_version = engine.config_version;
              config_yaml = yaml;
              code_sha = cfg.code_sha;
              data_snapshot_hash = ports.snapshot_hash snapshot;
              sla_offset_minutes = cfg.sla_offset_minutes;
              parent_run_id = parent;
              harness_version = cfg.harness_version;
              status = "running";
              started_at = started;
            }))
        replay_days cfg engine id assets days
        done ← query (λ h. ok (ports.now h))
        skip_error
            (perform (ports.update_status id "completed" done) (status_updated id "completed" done))
        pure id)

pub record RegimeDay (F : Type 0) : Type 0 where
  pub value_date : Time
  pub regime_indicator : F
  pub risk_on_prob : F
  pub risk_off_prob : F
  pub transition_risk : F
  pub label : Label

module _ {F : Type 0} ⦃f : Float F⦄ where
  -- the loop of `toRegimeDays` after the label `prev`
  unfoldable pub regime_days_from : Label → List (RegimeState F) → List (RegimeDay F)
  regime_days_from prev [] = []
  regime_days_from prev (s ∷ ss) =
      let lbl = classify_hysteresis default_hysteresis prev s.regime_indicator s.transition_risk in
      record {
        value_date = s.value_date;
        regime_indicator = s.regime_indicator;
        risk_on_prob = s.risk_on_probability;
        risk_off_prob = s.risk_off_probability;
        transition_risk = s.transition_risk;
        label = lbl;
      }
      ∷ regime_days_from lbl ss

  unfoldable pub to_regime_days : List (RegimeState F) → List (RegimeDay F)
  to_regime_days states = regime_days_from transition states

abbrev or_tradeable : List Asset → List Asset
or_tradeable [] = assets_tradeable
or_tradeable (a ∷ as') = a ∷ as'

-- `NewService`: the settings and the assets that the methods run with.
unfoldable pub new_service :
    {F : Type 0} ⦃f : Float F⦄
    → Config
    → Engine.Config F
    → List Asset
    → Config × Engine.Config F × List Asset
unfolding defaults Engine.defaults
new_service cfg engine assets = (defaults cfg, Engine.defaults engine, or_tradeable assets)
