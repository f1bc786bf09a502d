-- ===== src/Services/MarketStress/Run.antt =====
-- Runs of the market stress service keep the promise of `Pipeline.Schedule`.
use marketengine.Prelude.{◌≡◌, refl, false, ◌==◌, Option, none, some, List, [], ◌∷◌, All, String}
use marketengine.Float.{Float}
use marketengine.Float.Laws.{IsOrdered}
use marketengine.Time.{Time, utc_day, after, days_between}
use marketengine.Effects.Rules.{Returns, Returns-pure, Returns-bind_any, Returns-context}
use marketengine.Domain.{Asset, validate_asset}
use marketengine.Scoring.MarketStress.{Config, ScoreInputs, compute_score, score_with}
use marketengine.Scoring.Validity.{market_stress_score_valid}
use marketengine.Pipeline.Traces.{
  flat_map, Traces-pure, Traces-raise, Traces-unless, Traces-query, Traces-attempt, Traces-context,
  Traces-Returns,
}
use marketengine.Pipeline.Schedule.{
  Emits, IsDay, IsKnown, asset_outputs, schedule, Emits-compute_assets, Emits-compute_range,
}
use marketengine.Pipeline.Steps.{
  IsQuiet, and_then, none_if_missing-Quiet, ◌⨾◌, clock_now-Quiet, complete-Emits, quiet_steps,
}
use marketengine.Services.MarketStress.{
  gather_score_inputs, compute_asset_day, compute_day, run_once, run_backfill,
}
use marketengine.Services.MarketStress.Interfaces.{Ports}
use marketengine.Services.MarketStress.Ingest.{
  ingest_klines, ingest_kraken_ohlc, ingest_coinbase_candles, ingest_coinbase_premium,
  ingest_coinglass_micro, ingest_all,
}
use marketengine.Services.MarketStress.Features.{
  close_or_none, read_alts, compute_btc_alt_correlation, premium_from, depth_from,
  compute_peg_deviation, compute_coinbase_premium_abs, compute_basis_inversion_depth, store,
  z_score, compute_global_features, compute_asset_features,
}

-- The settings name a version of the features and of the model.
pub record IsVersioned {F : Type 0} (cfg : Config F) : Type 0 where
  pub model : (cfg.model_version == "") ≡ false
  pub intermediate : (cfg.intermediate_version == "") ≡ false
  pub final : (cfg.final_version == "") ≡ false

module _ {F : Type 0} ⦃f : Float F⦄ (ports : Ports F) (cfg : Config F) (assets : List Asset) where
  close_or_none-Quiet : (answer : _) → IsQuiet (close_or_none ports cfg assets answer)
  unfolding close_or_none
  close_or_none-Quiet answer =
      and_then (Traces-attempt (Traces-query _)) (none_if_missing-Quiet ports.base)

  read_alts-Quiet :
      (from d cutoff : Time) (syms : List String) (lists : List (List F))
      → IsQuiet (read_alts ports cfg assets from d cutoff syms lists)
  unfolding read_alts
  read_alts-Quiet from d cutoff [] lists = Traces-pure _
  read_alts-Quiet from d cutoff (sym ∷ syms) lists =
      and_then (Traces-attempt (Traces-query _)) (λ r. read_alts-Quiet from d cutoff syms _)

  premium_from-Quiet :
      (d cutoff : Time) (rate : Option F) → IsQuiet (premium_from ports cfg assets d cutoff rate)
  premium_from-Quiet d cutoff (some rate) = Traces-pure _
  premium_from-Quiet d cutoff none =
      and_then (close_or_none-Quiet _)
        (λ cb. and_then (close_or_none-Quiet _) (λ bin. Traces-pure _))

  depth_from-Quiet :
      (get : Option _) (asset : Asset) (d cutoff : Time)
      → IsQuiet (depth_from ports cfg assets get asset d cutoff)
  depth_from-Quiet none asset d cutoff = Traces-pure _
  depth_from-Quiet (some get) asset d cutoff =
      and_then (close_or_none-Quiet _) (λ basis. Traces-pure _)

  ingest_klines-Quiet : (from to : Time) → IsQuiet (ingest_klines ports cfg assets from to)
  unfolding ingest_klines
  ingest_klines-Quiet from to = search quiet_steps depth 24 fits 4000

  ingest_all-Quiet : (from to : Time) → IsQuiet (ingest_all ports cfg assets from to)
  unfolding ingest_all ingest_kraken_ohlc ingest_coinbase_candles ingest_coinbase_premium
      ingest_coinglass_micro ingest_klines
  ingest_all-Quiet from to = search quiet_steps depth 24 fits 4000

  module _ (v : IsVersioned cfg) where
    compute_global_features-Quiet :
        (d cutoff : Time) → IsDay d → IsQuiet (compute_global_features ports cfg assets d cutoff)
    unfolding compute_global_features store z_score compute_btc_alt_correlation
        compute_peg_deviation compute_coinbase_premium_abs validate_asset
    compute_global_features-Quiet d cutoff dated =
        search
          (
            quiet_steps, v.intermediate, v.final, close_or_none-Quiet, read_alts-Quiet,
            premium_from-Quiet,
          )
          depth 40 fits 6000

    compute_asset_features-Quiet :
        (asset : Asset) (d cutoff : Time)
        → IsKnown asset
        → IsDay d
        → IsQuiet (compute_asset_features ports cfg assets asset d cutoff)
    unfolding compute_asset_features store z_score compute_basis_inversion_depth
    compute_asset_features-Quiet asset d cutoff known dated =
        search (quiet_steps, v.intermediate, v.final, depth_from-Quiet) depth 40 fits 6000

  gather_score_inputs-Quiet :
      (asset : Asset) (d cutoff : Time)
      → IsQuiet (gather_score_inputs ports cfg assets asset d cutoff)
  unfolding gather_score_inputs
  gather_score_inputs-Quiet asset d cutoff = search quiet_steps depth 24

  -- The inputs are of the asset and the day that were asked for.
  abbrev IsFor : Asset → Time → ScoreInputs F → Type 0
  IsFor asset d inp = (inp.asset ≡ asset) × (inp.value_date ≡ d)

  gather_score_inputs-Returns :
      (asset : Asset) (d cutoff : Time)
      → Returns (IsFor asset d) (gather_score_inputs ports cfg assets asset d cutoff)
  unfolding gather_score_inputs
  gather_score_inputs-Returns asset d cutoff = search (Returns-bind_any, Returns-pure) depth 24

  module _ (laws : IsOrdered F) (v : IsVersioned cfg) where
    compute_asset_day-Emits :
        (asset : Asset) (d cutoff : Time)
        → IsKnown asset
        → IsDay d
        → Emits (asset_outputs d asset) (compute_asset_day ports cfg assets asset d cutoff)
    unfolding compute_asset_day compute_score score_with
    compute_asset_day-Emits asset d cutoff known dated =
        compute_asset_features-Quiet v asset d cutoff known dated
        ⨾ Traces-Returns (Traces-context _ (gather_score_inputs-Quiet asset d cutoff))
            (Returns-context _ _ _ (gather_score_inputs-Returns asset d cutoff))
            (λ inp (a, t).
              complete-Emits ports.base (compute_score inp cfg) _ asset d a t refl refl
                (market_stress_score_valid laws inp cfg (rw a known) (rw t dated) v.model))

    compute_day-Emits :
        (d cutoff : Time)
        → All IsKnown assets
        → IsDay d
        → Emits (flat_map (asset_outputs d) assets) (compute_day ports cfg assets d cutoff)
    unfolding compute_day
    compute_day-Emits d cutoff known dated =
        Traces-context _ (compute_global_features-Quiet v d cutoff dated)
        ⨾ Emits-compute_assets (compute_asset_day ports cfg assets) assets d cutoff known
            (λ a q. compute_asset_day-Emits a d cutoff q dated)

    run_once-Emits :
        (value_date : Time)
        → All IsKnown assets
        → IsDay (utc_day value_date)
        → Emits
            (schedule (days_between (utc_day value_date) (utc_day value_date)) assets)
            (run_once ports cfg assets value_date)
    unfolding run_once
    run_once-Emits value_date known dated =
        ingest_all-Quiet _ _
        ⨾ and_then (clock_now-Quiet ports.base) (λ cutoff.
          Emits-compute_range (compute_day ports cfg assets) assets _ _ cutoff dated
            (λ d q. compute_day-Emits d cutoff known q))

    run_backfill-Emits :
        (from to : Time)
        → All IsKnown assets
        → IsDay (utc_day from)
        → Emits
            (schedule (days_between (utc_day from) (utc_day to)) assets)
            (run_backfill ports cfg assets from to)
    unfolding run_backfill
    run_backfill-Emits from to known dated =
        Traces-unless (after (utc_day from) (utc_day to)) (Traces-raise _ _) (λ ordered.
          ingest_all-Quiet _ _
          ⨾ and_then (clock_now-Quiet ports.base) (λ now.
            Emits-compute_range (compute_day ports cfg assets) assets _ _ _ dated
              (λ d q. compute_day-Emits d _ known q)))

    -- The runs of the market stress service, of one day and of the days from `from` to `to`, over known assets,
    -- on dated days and under settings that name their versions, whatever the providers and the
    -- repositories answer: every feature that a run stores is finite and passes `Feature.Validate`,
    -- every score that it stores passes `DomainScore.Validate`, and its scores and completion events
    -- are those of the schedule (day by day, asset by asset, the score before its event), all of them
    -- if the run succeeds and the first of them if it fails.
    pub market_stress_runs-Emit :
        (value_date from to : Time)
        → All IsKnown assets
        → IsDay (utc_day value_date)
        → IsDay (utc_day from)
        → Emits
            (schedule (days_between (utc_day value_date) (utc_day value_date)) assets)
            (run_once ports cfg assets value_date)
          × Emits
              (schedule (days_between (utc_day from) (utc_day to)) assets)
              (run_backfill ports cfg assets from to)
    market_stress_runs-Emit value_date from to known dated started =
        (run_once-Emits value_date known dated, run_backfill-Emits from to known started)
