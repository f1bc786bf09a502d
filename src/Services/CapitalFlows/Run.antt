-- ===== src/Services/CapitalFlows/Run.antt =====
-- Runs of the capital flows service keep the promise of `Pipeline.Schedule`.
use marketengine.Prelude.{
  Bool, ◌≡◌, refl, false, ◌==◌, Option, none, some, List, [], ◌∷◌, All, String,
}
use marketengine.Float.{Float}
use marketengine.Float.Laws.{IsOrdered}
use marketengine.Time.{Time, utc_day, after, days_between}
use marketengine.Errors.{Result, ok, err}
use marketengine.Effects.Rules.{Returns, Returns-pure, Returns-bind_any, Returns-context}
use marketengine.Domain.{Asset, validate_asset}
use marketengine.Scoring.CapitalFlows.{Config, ScoreInputs, compute_score, score_with}
use marketengine.Scoring.Validity.{capital_flows_score_valid}
use marketengine.Pipeline.Traces.{
  flat_map, Traces-pure, Traces-raise, Traces-unless, Traces-query, Traces-attempt, Traces-context,
  Traces-Returns,
}
use marketengine.Pipeline.Schedule.{
  Emits, IsDay, IsKnown, asset_outputs, schedule, Emits-compute_assets, Emits-compute_range,
}
use marketengine.Pipeline.Steps.{
  IsQuiet, and_then, ◌⨾◌, clock_now-Quiet, complete-Emits, quiet_steps,
}
use marketengine.Services.CapitalFlows.Interfaces.{Ports, History}
use marketengine.Services.CapitalFlows.Ingest.{
  ingest_all, ingest_etf_flows, write_etf_flows, ingest_lth_supply, ingest_btc_market_cap,
  ingest_liquidity_flow, ingest_balances, ingest_margins, ingest_institutional,
  ingest_aum_histories, ingest_max_pains,
}
use marketengine.Services.CapitalFlows.Features.{
  store, z_score, compute_etf_and_lth, compute_liquidity_flow, sum_changes, compute_dry_powder,
  compute_dry_powders_and_margin, store_aum_total, compute_institutional, compute_features,
}
use marketengine.Services.CapitalFlows.{
  gather_score_inputs, score_asset, compute_day, run_once, run_backfill,
}

-- The settings name a version of the features and of the model.
pub record IsVersioned {F : Type 0} (cfg : Config F) : Type 0 where
  pub model : (cfg.model_version == "") ≡ false
  pub intermediate : (cfg.intermediate_version == "") ≡ false
  pub final : (cfg.final_version == "") ≡ false

module _ {F : Type 0} ⦃f : Float F⦄ (ports : Ports F) (cfg : Config F) (assets : List Asset) where
  ingest_all-Quiet : IsQuiet (ingest_all ports)
  unfolding ingest_all ingest_etf_flows write_etf_flows ingest_lth_supply ingest_btc_market_cap
      ingest_liquidity_flow ingest_balances ingest_margins ingest_institutional ingest_aum_histories
      ingest_max_pains
  ingest_all-Quiet = search quiet_steps depth 24 fits 4000

  sum_changes-Quiet :
      (change : String → History F → Result (Option F)) (syms : List String) (acc : F × Bool)
      → IsQuiet (sum_changes ports cfg change syms acc)
  unfolding sum_changes
  sum_changes-Quiet change [] acc = Traces-pure acc
  sum_changes-Quiet change (sym ∷ syms) acc =
      and_then (Traces-attempt (Traces-query _)) (λ r. sum_changes-Quiet change syms _)

  module _ (v : IsVersioned cfg) (d cutoff : Time) (dated : IsDay d) where
    compute_etf_and_lth-Quiet : IsQuiet (compute_etf_and_lth ports cfg d cutoff)
    unfolding compute_etf_and_lth store z_score validate_asset
    compute_etf_and_lth-Quiet = search (quiet_steps, v.intermediate, v.final) depth 40 fits 6000

    compute_liquidity_flow-Quiet : IsQuiet (compute_liquidity_flow ports cfg d cutoff)
    unfolding compute_liquidity_flow store z_score validate_asset
    compute_liquidity_flow-Quiet = search (quiet_steps, v.intermediate, v.final) depth 40 fits 6000

    compute_dry_powders_and_margin-Quiet :
        IsQuiet (compute_dry_powders_and_margin ports cfg d cutoff)
    unfolding compute_dry_powders_and_margin compute_dry_powder store z_score validate_asset
    compute_dry_powders_and_margin-Quiet =
        search (quiet_steps, sum_changes-Quiet, v.intermediate, v.final) depth 40 fits 6000

    store_aum_total-Quiet : (r : Result (Option F)) → IsQuiet (store_aum_total ports cfg r d cutoff)
    unfolding store_aum_total store validate_asset
    store_aum_total-Quiet (ok (some x)) = search (quiet_steps, v.intermediate) depth 24
    store_aum_total-Quiet (ok none) = search (quiet_steps, v.intermediate) depth 24
    store_aum_total-Quiet (err e) = search (quiet_steps, v.intermediate) depth 24

    compute_institutional-Quiet : IsQuiet (compute_institutional ports cfg d cutoff)
    unfolding compute_institutional store z_score validate_asset
    compute_institutional-Quiet =
        search (quiet_steps, store_aum_total-Quiet, v.intermediate, v.final) depth 40 fits 6000

    compute_features-Quiet : IsQuiet (compute_features ports cfg d cutoff)
    unfolding compute_features
    compute_features-Quiet =
        compute_etf_and_lth-Quiet ⨾ compute_liquidity_flow-Quiet
        ⨾ compute_dry_powders_and_margin-Quiet ⨾ compute_institutional-Quiet

  gather_score_inputs-Quiet :
      (asset : Asset) (d cutoff : Time)
      → IsQuiet (gather_score_inputs ports cfg assets asset d cutoff)
  unfolding gather_score_inputs
  gather_score_inputs-Quiet asset d cutoff = search quiet_steps depth 24

  -- The inputs are of the asset and the day that were asked for.
  abbrev IsFor : Asset → Time → ScoreInputs F → Type 0
  IsFor asset d inp = (inp.asset ≡ asset) × (inp.value_date ≡ d)

  gather_score_inputs-Returns :
      (asset : Asset) (d cutoff : Time)
      → Returns (IsFor asset d) (gather_score_inputs ports cfg assets asset d cutoff)
  unfolding gather_score_inputs
  gather_score_inputs-Returns asset d cutoff = search (Returns-bind_any, Returns-pure) depth 24

  module _ (laws : IsOrdered F) (v : IsVersioned cfg) where
    score_asset-Emits :
        (asset : Asset) (d cutoff : Time)
        → IsKnown asset
        → IsDay d
        → Emits (asset_outputs d asset) (score_asset ports cfg assets asset d cutoff)
    unfolding score_asset compute_score score_with
    score_asset-Emits asset d cutoff known dated =
        Traces-Returns (Traces-context _ (gather_score_inputs-Quiet asset d cutoff))
          (Returns-context _ _ _ (gather_score_inputs-Returns asset d cutoff))
          (λ inp (a, t).
            complete-Emits ports.base (compute_score inp cfg) _ asset d a t refl refl
              (capital_flows_score_valid laws inp cfg (rw a known) (rw t dated) v.model))

    compute_day-Emits :
        (d cutoff : Time)
        → All IsKnown assets
        → IsDay d
        → Emits (flat_map (asset_outputs d) assets) (compute_day ports cfg assets d cutoff)
    unfolding compute_day
    compute_day-Emits d cutoff known dated =
        Traces-context _ (compute_features-Quiet v d cutoff dated)
        ⨾ Emits-compute_assets (score_asset ports cfg assets) assets d cutoff known
            (λ a q. score_asset-Emits a d cutoff q dated)

    run_once-Emits :
        (value_date : Time)
        → All IsKnown assets
        → IsDay (utc_day value_date)
        → Emits
            (schedule (days_between (utc_day value_date) (utc_day value_date)) assets)
            (run_once ports cfg assets value_date)
    unfolding run_once
    run_once-Emits value_date known dated =
        ingest_all-Quiet
        ⨾ and_then (clock_now-Quiet ports.base) (λ cutoff.
          Emits-compute_range (compute_day ports cfg assets) assets _ _ cutoff dated
            (λ d q. compute_day-Emits d cutoff known q))

    run_backfill-Emits :
        (from to : Time)
        → All IsKnown assets
        → IsDay (utc_day from)
        → Emits
            (schedule (days_between (utc_day from) (utc_day to)) assets)
            (run_backfill ports cfg assets from to)
    unfolding run_backfill
    run_backfill-Emits from to known dated =
        Traces-unless (after (utc_day from) (utc_day to)) (Traces-raise _ _) (λ ordered.
          ingest_all-Quiet
          ⨾ and_then (clock_now-Quiet ports.base) (λ now.
            Emits-compute_range (compute_day ports cfg assets) assets _ _ _ dated
              (λ d q. compute_day-Emits d _ known q)))

    -- The runs of the capital flows service, of one day and of the days from `from` to `to`, over known assets,
    -- on dated days and under settings that name their versions, whatever the providers and the
    -- repositories answer: every feature that a run stores is finite and passes `Feature.Validate`,
    -- every score that it stores passes `DomainScore.Validate`, and its scores and completion events
    -- are those of the schedule (day by day, asset by asset, the score before its event), all of them
    -- if the run succeeds and the first of them if it fails.
    pub capital_flows_runs-Emit :
        (value_date from to : Time)
        → All IsKnown assets
        → IsDay (utc_day value_date)
        → IsDay (utc_day from)
        → Emits
            (schedule (days_between (utc_day value_date) (utc_day value_date)) assets)
            (run_once ports cfg assets value_date)
          × Emits
              (schedule (days_between (utc_day from) (utc_day to)) assets)
              (run_backfill ports cfg assets from to)
    capital_flows_runs-Emit value_date from to known dated started =
        (run_once-Emits value_date known dated, run_backfill-Emits from to known started)
