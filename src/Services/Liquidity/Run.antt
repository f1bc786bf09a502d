-- ===== src/Services/Liquidity/Run.antt =====
-- Runs of the liquidity service keep the promise of `Pipeline.Schedule`.
use marketengine.Prelude.{◌≡◌, refl, false, ◌==◌, List, All}
use marketengine.Float.{Float}
use marketengine.Float.Laws.{IsOrdered}
use marketengine.Time.{Time, utc_day, after, days_between}
use marketengine.Effects.Rules.{Returns, Returns-pure, Returns-bind_any, Returns-context}
use marketengine.Domain.{Asset, validate_asset}
use marketengine.Scoring.Liquidity.{Config, ScoreInputs, compute_score, score_with}
use marketengine.Scoring.Validity.{liquidity_score_valid}
use marketengine.Pipeline.Traces.{flat_map, Traces-raise, Traces-if, Traces-context, Traces-Returns}
use marketengine.Pipeline.Schedule.{
  Emits, IsDay, IsKnown, asset_outputs, schedule, Emits-compute_assets, Emits-compute_range,
}
use marketengine.Pipeline.Steps.{
  IsQuiet, and_then, ◌⨾◌, clock_now-Quiet, complete-Emits, quiet_steps,
}
use marketengine.Services.Liquidity.{
  compute_global_features, compute_asset_features, gather_score_inputs, compute_asset_day,
  compute_day, run_once, run_backfill, store,
}
use marketengine.Services.Liquidity.Interfaces.{Ports}
use marketengine.Services.Liquidity.Ingest.{
  ingest_stablecoin_supply, ingest_per_stablecoin_supply, ingest_chain_tvl, ingest_market_cap,
  ingest_exchange_netflow, ingest_all,
}

-- The settings name a version of each feature and of the model.
pub record IsVersioned {F : Type 0} (cfg : Config F) : Type 0 where
  pub model : (cfg.model_version == "") ≡ false
  pub supply : (cfg.supply_feature_version == "") ≡ false
  pub growth : (cfg.growth_feature_version == "") ≡ false
  pub z_score : (cfg.z_score_feature_version == "") ≡ false
  pub netflow_7d : (cfg.netflow_7d_feature_version == "") ≡ false
  pub netflow_z : (cfg.netflow_z_score_feature_version == "") ≡ false
  pub tvl : (cfg.tvl_feature_version == "") ≡ false
  pub tvl_growth : (cfg.tvl_growth_feature_version == "") ≡ false
  pub tvl_z : (cfg.tvl_z_score_feature_version == "") ≡ false
  pub major : (cfg.supply_major_feature_version == "") ≡ false
  pub ssr : (cfg.ssr_feature_version == "") ≡ false
  pub ssr_percentile : (cfg.ssr_percentile_feature_version == "") ≡ false

module _ {F : Type 0} ⦃f : Float F⦄ (ports : Ports F) (cfg : Config F) (assets : List Asset) where
  ingest_all-Quiet : (from to : Time) → IsQuiet (ingest_all ports cfg assets from to)
  unfolding ingest_all ingest_stablecoin_supply ingest_per_stablecoin_supply ingest_chain_tvl
      ingest_market_cap ingest_exchange_netflow
  ingest_all-Quiet from to = search quiet_steps depth 12

  module _ (v : IsVersioned cfg) where
    compute_global_features-Quiet :
        (d cutoff : Time) → IsDay d → IsQuiet (compute_global_features ports cfg assets d cutoff)
    unfolding compute_global_features store validate_asset
    compute_global_features-Quiet d cutoff dated =
        search (quiet_steps, v.supply, v.growth, v.z_score, v.tvl, v.tvl_growth, v.tvl_z, v.major)
          depth 24 fits 4000

    compute_asset_features-Quiet :
        (asset : Asset) (d cutoff : Time)
        → IsKnown asset
        → IsDay d
        → IsQuiet (compute_asset_features ports cfg assets asset d cutoff)
    unfolding compute_asset_features store
    compute_asset_features-Quiet asset d cutoff known dated =
        search (quiet_steps, v.netflow_7d, v.netflow_z, v.ssr, v.ssr_percentile) depth 24 fits 4000

  gather_score_inputs-Quiet :
      (asset : Asset) (d cutoff : Time)
      → IsQuiet (gather_score_inputs ports cfg assets asset d cutoff)
  unfolding gather_score_inputs
  gather_score_inputs-Quiet asset d cutoff = search quiet_steps depth 12

  -- The inputs are of the asset and the day that were asked for.
  abbrev pub IsFor : Asset → Time → ScoreInputs F → Type 0
  IsFor asset d inp = (inp.asset ≡ asset) × (inp.value_date ≡ d)

  pub gather_score_inputs-Returns :
      (asset : Asset) (d cutoff : Time)
      → Returns (IsFor asset d) (gather_score_inputs ports cfg assets asset d cutoff)
  unfolding gather_score_inputs
  gather_score_inputs-Returns asset d cutoff = search (Returns-bind_any, Returns-pure) depth 12

  module _ (laws : IsOrdered F) (v : IsVersioned cfg) where
    compute_asset_day-Emits :
        (asset : Asset) (d cutoff : Time)
        → IsKnown asset
        → IsDay d
        → Emits (asset_outputs d asset) (compute_asset_day ports cfg assets asset d cutoff)
    unfolding compute_asset_day compute_score score_with
    compute_asset_day-Emits asset d cutoff known dated =
        compute_asset_features-Quiet v asset d cutoff known dated
        ⨾ Traces-Returns (Traces-context _ (gather_score_inputs-Quiet asset d cutoff))
            (Returns-context _ _ _ (gather_score_inputs-Returns asset d cutoff))
            (λ inp (a, t).
              complete-Emits ports.base (compute_score inp cfg) _ asset d a t refl refl
                (liquidity_score_valid laws inp cfg (rw a known) (rw t dated) v.model))

    compute_day-Emits :
        (d cutoff : Time)
        → All IsKnown assets
        → IsDay d
        → Emits (flat_map (asset_outputs d) assets) (compute_day ports cfg assets d cutoff)
    unfolding compute_day
    compute_day-Emits d cutoff known dated =
        Traces-context _ (compute_global_features-Quiet v d cutoff dated)
        ⨾ Emits-compute_assets (compute_asset_day ports cfg assets) assets d cutoff known
            (λ a q. compute_asset_day-Emits a d cutoff q dated)

    run_once-Emits :
        (value_date : Time)
        → All IsKnown assets
        → IsDay (utc_day value_date)
        → Emits
            (schedule (days_between (utc_day value_date) (utc_day value_date)) assets)
            (run_once ports cfg assets value_date)
    unfolding run_once
    run_once-Emits value_date known dated =
        ingest_all-Quiet _ _
        ⨾ and_then (clock_now-Quiet ports.base) (λ cutoff.
          Emits-compute_range (compute_day ports cfg assets) assets _ _ cutoff dated
            (λ d q. compute_day-Emits d cutoff known q))

    run_backfill-Emits :
        (from to : Time)
        → All IsKnown assets
        → IsDay (utc_day from)
        → Emits
            (schedule (days_between (utc_day from) (utc_day to)) assets)
            (run_backfill ports cfg assets from to)
    unfolding run_backfill
    run_backfill-Emits from to known dated =
        Traces-if (after (utc_day from) (utc_day to)) (Traces-raise _ _) (
          ingest_all-Quiet _ _
          ⨾ and_then (clock_now-Quiet ports.base) (λ now.
            Emits-compute_range (compute_day ports cfg assets) assets _ _ _ dated
              (λ d q. compute_day-Emits d _ known q)))

    -- The runs of the liquidity service, of one day and of the days from `from` to `to`, over known assets,
    -- on dated days and under settings that name their versions, whatever the providers and the
    -- repositories answer: every feature that a run stores is finite and passes `Feature.Validate`,
    -- every score that it stores passes `DomainScore.Validate`, and its scores and completion events
    -- are those of the schedule (day by day, asset by asset, the score before its event), all of them
    -- if the run succeeds and the first of them if it fails.
    pub liquidity_runs-Emit :
        (value_date from to : Time)
        → All IsKnown assets
        → IsDay (utc_day value_date)
        → IsDay (utc_day from)
        → Emits
            (schedule (days_between (utc_day value_date) (utc_day value_date)) assets)
            (run_once ports cfg assets value_date)
          × Emits
              (schedule (days_between (utc_day from) (utc_day to)) assets)
              (run_backfill ports cfg assets from to)
    liquidity_runs-Emit value_date from to known dated started =
        (run_once-Emits value_date known dated, run_backfill-Emits from to known started)
