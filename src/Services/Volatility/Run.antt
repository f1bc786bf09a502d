-- ===== src/Services/Volatility/Run.antt =====
-- Runs of the volatility service keep the promise of `Pipeline.Schedule`.
use marketengine.Prelude.{◌≡◌, refl, false, ◌==◌, List, All}
use marketengine.Float.{Float}
use marketengine.Float.Laws.{IsOrdered}
use marketengine.Time.Days.{not_after-dated}
use marketengine.Time.{Time, utc_day, after, days_between}
use marketengine.Effects.Rules.{Returns, Returns-pure, Returns-bind_any, Returns-context}
use marketengine.Domain.{Asset}
use marketengine.Scoring.Volatility.{Config, ScoreInputs, compute_score, score_with}
use marketengine.Scoring.Validity.{volatility_score_valid}
use marketengine.Pipeline.Traces.{
  flat_map, Traces-raise, Traces-unless, Traces-context, Traces-Returns,
}
use marketengine.Pipeline.Schedule.{
  Emits, IsDay, IsKnown, asset_outputs, schedule, Emits-compute_assets, Emits-compute_range,
  Emits-for_each-All,
}
use marketengine.Pipeline.Steps.{
  IsQuiet, and_then, if_present-Quiet, ◌⨾◌, clock_now-Quiet, complete-Emits, quiet_steps,
}
use marketengine.Services.Volatility.{
  gather_score_inputs, compute_asset_day, compute_day, run_once, run_backfill,
}
use marketengine.Services.Volatility.Interfaces.{Ports}
use marketengine.Services.Volatility.Ingest.{
  ingest_dvol, ingest_options_snapshot, ingest_coinglass_options, ingest_deribit_options_chain,
  store, z_score,
}
use marketengine.Services.Volatility.Features.{
  compute_gex_net_dealer, compute_dvol_features, compute_options_features,
}

-- The settings name a version of the features and of the model.
pub record IsVersioned {F : Type 0} (cfg : Config F) : Type 0 where
  pub model : (cfg.model_version == "") ≡ false
  pub intermediate : (cfg.intermediate_version == "") ≡ false
  pub final : (cfg.final_version == "") ≡ false

module _ {F : Type 0} ⦃f : Float F⦄ (ports : Ports F) (cfg : Config F) (assets : List Asset) where
  ingest_dvol-Quiet : (from to : Time) → IsQuiet (ingest_dvol ports cfg assets from to)
  unfolding ingest_dvol
  ingest_dvol-Quiet from to = search quiet_steps depth 24 fits 4000

  ingest_coinglass_options-Quiet :
      (d : Time) → IsQuiet (ingest_coinglass_options ports cfg assets d)
  unfolding ingest_coinglass_options
  ingest_coinglass_options-Quiet d = search quiet_steps depth 24 fits 4000

  ingest_deribit_options_chain-Quiet :
      (d : Time) → IsQuiet (ingest_deribit_options_chain ports cfg assets d)
  unfolding ingest_deribit_options_chain
  ingest_deribit_options_chain-Quiet d = search quiet_steps depth 24 fits 4000

  module _ (v : IsVersioned cfg) where
    ingest_options_snapshot-Quiet :
        (d : Time)
        → All IsKnown assets
        → IsDay d
        → IsQuiet (ingest_options_snapshot ports cfg assets d)
    unfolding ingest_options_snapshot store
    ingest_options_snapshot-Quiet d known dated =
        if_present-Quiet
          (λ fetch.
            Emits-for_each-All assets known
              (λ a q. search (quiet_steps, v.intermediate) depth 40 fits 6000))
          _

    compute_dvol_features-Quiet :
        (asset : Asset) (d cutoff : Time)
        → IsKnown asset
        → IsDay d
        → IsQuiet (compute_dvol_features ports cfg assets asset d cutoff)
    unfolding compute_dvol_features store z_score
    compute_dvol_features-Quiet asset d cutoff known dated =
        search (quiet_steps, v.intermediate, v.final) depth 40 fits 6000

    compute_options_features-Quiet :
        (asset : Asset) (d cutoff : Time)
        → IsKnown asset
        → IsDay d
        → IsQuiet (compute_options_features ports cfg assets asset d cutoff)
    unfolding compute_options_features store z_score compute_gex_net_dealer
    compute_options_features-Quiet asset d cutoff known dated =
        search (quiet_steps, v.intermediate, v.final) depth 40 fits 6000

  gather_score_inputs-Quiet :
      (asset : Asset) (d cutoff : Time)
      → IsQuiet (gather_score_inputs ports cfg assets asset d cutoff)
  unfolding gather_score_inputs
  gather_score_inputs-Quiet asset d cutoff = search quiet_steps depth 24

  -- The inputs are of the asset and the day that were asked for.
  abbrev IsFor : Asset → Time → ScoreInputs F → Type 0
  IsFor asset d inp = (inp.asset ≡ asset) × (inp.value_date ≡ d)

  gather_score_inputs-Returns :
      (asset : Asset) (d cutoff : Time)
      → Returns (IsFor asset d) (gather_score_inputs ports cfg assets asset d cutoff)
  unfolding gather_score_inputs
  gather_score_inputs-Returns asset d cutoff = search (Returns-bind_any, Returns-pure) depth 24

  module _ (laws : IsOrdered F) (v : IsVersioned cfg) where
    compute_asset_day-Emits :
        (asset : Asset) (d cutoff : Time)
        → IsKnown asset
        → IsDay d
        → Emits (asset_outputs d asset) (compute_asset_day ports cfg assets asset d cutoff)
    unfolding compute_asset_day compute_score score_with
    compute_asset_day-Emits asset d cutoff known dated =
        compute_dvol_features-Quiet v asset d cutoff known dated
        ⨾ compute_options_features-Quiet v asset d cutoff known dated
        ⨾ Traces-Returns (Traces-context _ (gather_score_inputs-Quiet asset d cutoff))
            (Returns-context _ _ _ (gather_score_inputs-Returns asset d cutoff))
            (λ inp (a, t).
              complete-Emits ports.base (compute_score inp cfg) _ asset d a t refl refl
                (volatility_score_valid laws inp cfg (rw a known) (rw t dated) v.model))

    compute_day-Emits :
        (d cutoff : Time)
        → All IsKnown assets
        → IsDay d
        → Emits (flat_map (asset_outputs d) assets) (compute_day ports cfg assets d cutoff)
    unfolding compute_day
    compute_day-Emits d cutoff known dated =
        Emits-compute_assets (compute_asset_day ports cfg assets) assets d cutoff known
          (λ a q. compute_asset_day-Emits a d cutoff q dated)

    run_once-Emits :
        (value_date : Time)
        → All IsKnown assets
        → IsDay (utc_day value_date)
        → Emits
            (schedule (days_between (utc_day value_date) (utc_day value_date)) assets)
            (run_once ports cfg assets value_date)
    unfolding run_once
    run_once-Emits value_date known dated =
        Traces-context _ (ingest_dvol-Quiet _ _)
        ⨾ Traces-context _ (ingest_options_snapshot-Quiet v _ known dated)
        ⨾ Traces-context _ (ingest_coinglass_options-Quiet _)
        ⨾ Traces-context _ (ingest_deribit_options_chain-Quiet _)
        ⨾ and_then (clock_now-Quiet ports.base) (λ cutoff.
          Emits-compute_range (compute_day ports cfg assets) assets _ _ cutoff dated
            (λ d q. compute_day-Emits d cutoff known q))

    run_backfill-Emits :
        (from to : Time)
        → All IsKnown assets
        → IsDay (utc_day from)
        → Emits
            (schedule (days_between (utc_day from) (utc_day to)) assets)
            (run_backfill ports cfg assets from to)
    unfolding run_backfill
    run_backfill-Emits from to known dated =
        Traces-unless (after (utc_day from) (utc_day to)) (Traces-raise _ _) (λ ordered.
          Traces-context _ (ingest_dvol-Quiet _ _)
          ⨾ Traces-context _
              (ingest_options_snapshot-Quiet v _ known (not_after-dated _ _ dated ordered))
          ⨾ Traces-context _ (ingest_coinglass_options-Quiet _)
          ⨾ and_then (clock_now-Quiet ports.base) (λ now.
            Emits-compute_range (compute_day ports cfg assets) assets _ _ _ dated
              (λ d q. compute_day-Emits d _ known q)))

    -- The runs of the volatility service, of one day and of the days from `from` to `to`, over known assets,
    -- on dated days and under settings that name their versions, whatever the providers and the
    -- repositories answer: every feature that a run stores is finite and passes `Feature.Validate`,
    -- every score that it stores passes `DomainScore.Validate`, and its scores and completion events
    -- are those of the schedule (day by day, asset by asset, the score before its event), all of them
    -- if the run succeeds and the first of them if it fails.
    pub volatility_runs-Emit :
        (value_date from to : Time)
        → All IsKnown assets
        → IsDay (utc_day value_date)
        → IsDay (utc_day from)
        → Emits
            (schedule (days_between (utc_day value_date) (utc_day value_date)) assets)
            (run_once ports cfg assets value_date)
          × Emits
              (schedule (days_between (utc_day from) (utc_day to)) assets)
              (run_backfill ports cfg assets from to)
    volatility_runs-Emit value_date from to known dated started =
        (run_once-Emits value_date known dated, run_backfill-Emits from to known started)
