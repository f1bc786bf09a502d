-- ===== src/Services/Leverage/Run.antt =====
-- Runs of the leverage service keep the promise of `Pipeline.Schedule`.
use marketengine.Prelude.{
  ℕ, zero, suc, ◌≡◌, refl, false, ◌==◌, Option, none, some, List, [], ◌∷◌, All,
}
use marketengine.Float.{Float}
use marketengine.Float.Laws.{IsOrdered}
use marketengine.Time.{Time, utc_day, after, days_between}
use marketengine.Errors.{Result, ok, err}
use marketengine.Effects.Rules.{Returns, Returns-pure, Returns-bind_any, Returns-context}
use marketengine.Domain.{Asset}
use marketengine.Scoring.Leverage.{Config, ScoreInputs, compute_score, score_with}
use marketengine.Scoring.Validity.{leverage_score_valid}
use marketengine.Pipeline.Traces.{
  flat_map, Traces-pure, Traces-raise, Traces-if, Traces-unless, Traces-context, Traces-Returns,
}
use marketengine.Pipeline.Schedule.{
  Emits, IsDay, IsKnown, asset_outputs, schedule, Emits-compute_assets, Emits-compute_range,
}
use marketengine.Pipeline.Steps.{
  IsQuiet, and_then, ◌⨾◌, clock_now-Quiet, complete-Emits, quiet_steps,
}
use marketengine.Services.Leverage.Interfaces.{Ports}
use marketengine.Services.Leverage.Pages.{
  coinglass_agg_max_pages, after_page, pages, backfill_aggregated,
}
use marketengine.Services.Leverage.Ingest.{
  ingest_exchange_oi, ingest_exchange_funding, ingest_deribit_basis, ingest_exchange_histories,
  backfill_aggregated_oi, ingest_coinglass_oi, ingest_coinglass_basis,
  ingest_coinglass_liquidations, ingest_ratios, ingest_taker_volume, ingest_borrow_rates,
  ingest_coinglass_crowd, ingest_all,
}
use marketengine.Services.Leverage.Features.{
  store, z_score, oi_from, store_oi_mcap_ratio, estimated, basis_from, store_basis, store_log,
  liquidations_from, store_oi_change, series_or_nil, percentile_from, compute_oi_percentile,
  gather_crowd_inputs, compute_crowd_features, compute_asset_features,
}
use marketengine.Pipeline.Steps.{series_of-Quiet}
use marketengine.Pipeline.{is_not_found, Action}
use marketengine.Effects.{Eff}
use marketengine.Services.Leverage.Rows.{Row}
use marketengine.Services.Leverage.{
  gather_score_inputs, compute_asset_day, compute_day, run_once, run_backfill,
}

-- The settings name a version of the features and of the model.
pub record IsVersioned {F : Type 0} (cfg : Config F) : Type 0 where
  pub model : (cfg.model_version == "") ≡ false
  pub intermediate : (cfg.intermediate_version == "") ≡ false
  pub final : (cfg.final_version == "") ≡ false

module _ {F : Type 0} ⦃f : Float F⦄ (ports : Ports F) (cfg : Config F) (assets : List Asset) where
  module _ {P : Type 0} (date_of : P → Time) (fetch : Time → Eff (Action F (Row F)) (List P))
      (q : (end : Time) → IsQuiet (fetch end)) where
    after_page-Quiet :
        (next : List (ℕ × P) → Time → Time → Eff (Action F (Row F)) (List (ℕ × P)))
        (all : List (ℕ × P)) (prev : Time) (pts : List P)
        → ((merged : List (ℕ × P)) (end oldest : Time) → IsQuiet (next merged end oldest))
        → IsQuiet (after_page date_of fetch next all prev pts)
    unfolding after_page
    after_page-Quiet next all prev [] r = Traces-pure _
    after_page-Quiet next all prev (p ∷ ps) r = search (Traces-if, Traces-pure, r)

    pages-Quiet :
        (n : ℕ) (all : List (ℕ × P)) (end prev : Time)
        → IsQuiet (pages date_of fetch n all end prev)
    unfolding pages
    pages-Quiet zero all end prev = Traces-pure _
    pages-Quiet (suc n) all end prev =
        and_then (q end) (λ pts. after_page-Quiet _ all prev pts (pages-Quiet n))

    backfill_aggregated-Quiet : IsQuiet (backfill_aggregated date_of fetch)
    unfolding backfill_aggregated
    backfill_aggregated-Quiet =
        and_then (pages-Quiet coinglass_agg_max_pages [] 0 0) (λ all. Traces-pure _)

  ingest_all-Quiet : (from to : Time) → IsQuiet (ingest_all ports assets from to)
  unfolding ingest_all ingest_exchange_oi ingest_exchange_funding ingest_deribit_basis
      ingest_exchange_histories backfill_aggregated_oi ingest_coinglass_oi ingest_coinglass_basis
      ingest_coinglass_liquidations ingest_ratios ingest_taker_volume ingest_borrow_rates
      ingest_coinglass_crowd
  ingest_all-Quiet from to = search (quiet_steps, backfill_aggregated-Quiet) depth 30 fits 6000

  series_or_nil-Quiet : (r : Result (List F)) → IsQuiet (series_or_nil ports cfg r)
  series_or_nil-Quiet (ok xs) = Traces-pure _
  series_or_nil-Quiet (err e) = Traces-if (is_not_found e) (Traces-pure _) (Traces-raise [] e)

  percentile_from-Quiet :
      (pct oi : Option F) (asset : Asset) (d cutoff : Time)
      → IsQuiet (percentile_from ports cfg pct oi asset d cutoff)
  percentile_from-Quiet (some pct) oi asset d cutoff = Traces-pure _
  percentile_from-Quiet none none asset d cutoff = Traces-pure _
  percentile_from-Quiet none (some oi) asset d cutoff =
      and_then (series_of-Quiet _ _ asset d cutoff 365)
        (λ r. and_then (series_or_nil-Quiet r) (λ raw. Traces-pure _))

  module _ (v : IsVersioned cfg) (asset : Asset) (d cutoff : Time) (known : IsKnown asset)
      (dated : IsDay d) where
    oi_from-Quiet : (o : Option F) → IsQuiet (oi_from ports cfg o asset d cutoff)
    unfolding oi_from store
    oi_from-Quiet (some x) = search (quiet_steps, v.intermediate) depth 24
    oi_from-Quiet none = search (quiet_steps, v.intermediate) depth 24

    estimated-Quiet : (funding o : Option F) → IsQuiet (estimated ports cfg funding asset d o)
    unfolding estimated store
    estimated-Quiet funding (some x) = search (quiet_steps, v.intermediate) depth 24
    estimated-Quiet funding none = search (quiet_steps, v.intermediate) depth 24

    basis_from-Quiet :
        (funding o : Option F) → IsQuiet (basis_from ports cfg funding o asset d cutoff)
    unfolding basis_from store
    basis_from-Quiet funding (some x) = search (quiet_steps, v.intermediate) depth 24
    basis_from-Quiet funding none = search (quiet_steps, estimated-Quiet) depth 24

    liquidations_from-Quiet :
        (o : Option F) → IsQuiet (liquidations_from ports cfg o asset d cutoff)
    unfolding liquidations_from store_log store
    liquidations_from-Quiet (some x) = search (quiet_steps, v.intermediate) depth 24
    liquidations_from-Quiet none = search (quiet_steps, v.intermediate) depth 24

    compute_oi_percentile-Quiet :
        (oi : Option F) → IsQuiet (compute_oi_percentile ports cfg oi asset d cutoff)
    unfolding compute_oi_percentile
    compute_oi_percentile-Quiet oi =
        search (quiet_steps, series_of-Quiet, series_or_nil-Quiet, percentile_from-Quiet) depth 24

    compute_crowd_features-Quiet : IsQuiet (compute_crowd_features ports cfg asset d cutoff)
    unfolding compute_crowd_features gather_crowd_inputs store z_score
    compute_crowd_features-Quiet = search (quiet_steps, v.intermediate, v.final) depth 40 fits 6000

    compute_asset_features-Quiet : IsQuiet (compute_asset_features ports cfg asset d cutoff)
    unfolding compute_asset_features store z_score store_oi_mcap_ratio store_basis store_oi_change
    compute_asset_features-Quiet =
        search
          (
            quiet_steps, oi_from-Quiet, basis_from-Quiet, liquidations_from-Quiet,
            compute_oi_percentile-Quiet, compute_crowd_features-Quiet, v.intermediate, v.final,
          )
          depth 40 fits 6000

  gather_score_inputs-Quiet :
      (asset : Asset) (d cutoff : Time)
      → IsQuiet (gather_score_inputs ports cfg assets asset d cutoff)
  unfolding gather_score_inputs
  gather_score_inputs-Quiet asset d cutoff = search quiet_steps depth 24

  -- The inputs are of the asset and the day that were asked for.
  abbrev IsFor : Asset → Time → ScoreInputs F → Type 0
  IsFor asset d inp = (inp.asset ≡ asset) × (inp.value_date ≡ d)

  gather_score_inputs-Returns :
      (asset : Asset) (d cutoff : Time)
      → Returns (IsFor asset d) (gather_score_inputs ports cfg assets asset d cutoff)
  unfolding gather_score_inputs
  gather_score_inputs-Returns asset d cutoff = search (Returns-bind_any, Returns-pure) depth 24

  module _ (laws : IsOrdered F) (v : IsVersioned cfg) where
    compute_asset_day-Emits :
        (asset : Asset) (d cutoff : Time)
        → IsKnown asset
        → IsDay d
        → Emits (asset_outputs d asset) (compute_asset_day ports cfg assets asset d cutoff)
    unfolding compute_asset_day compute_score score_with
    compute_asset_day-Emits asset d cutoff known dated =
        compute_asset_features-Quiet v asset d cutoff known dated
        ⨾ Traces-Returns (Traces-context _ (gather_score_inputs-Quiet asset d cutoff))
            (Returns-context _ _ _ (gather_score_inputs-Returns asset d cutoff))
            (λ inp (a, t).
              complete-Emits ports.base (compute_score inp cfg) _ asset d a t refl refl
                (leverage_score_valid laws inp cfg (rw a known) (rw t dated) v.model))

    compute_day-Emits :
        (d cutoff : Time)
        → All IsKnown assets
        → IsDay d
        → Emits (flat_map (asset_outputs d) assets) (compute_day ports cfg assets d cutoff)
    unfolding compute_day
    compute_day-Emits d cutoff known dated =
        Emits-compute_assets (compute_asset_day ports cfg assets) assets d cutoff known
          (λ a q. compute_asset_day-Emits a d cutoff q dated)

    run_once-Emits :
        (value_date : Time)
        → All IsKnown assets
        → IsDay (utc_day value_date)
        → Emits
            (schedule (days_between (utc_day value_date) (utc_day value_date)) assets)
            (run_once ports cfg assets value_date)
    unfolding run_once
    run_once-Emits value_date known dated =
        ingest_all-Quiet _ _
        ⨾ and_then (clock_now-Quiet ports.base) (λ cutoff.
          Emits-compute_range (compute_day ports cfg assets) assets _ _ cutoff dated
            (λ d q. compute_day-Emits d cutoff known q))

    run_backfill-Emits :
        (from to : Time)
        → All IsKnown assets
        → IsDay (utc_day from)
        → Emits
            (schedule (days_between (utc_day from) (utc_day to)) assets)
            (run_backfill ports cfg assets from to)
    unfolding run_backfill
    run_backfill-Emits from to known dated =
        Traces-unless (after (utc_day from) (utc_day to)) (Traces-raise _ _) (λ ordered.
          ingest_all-Quiet _ _
          ⨾ and_then (clock_now-Quiet ports.base) (λ now.
            Emits-compute_range (compute_day ports cfg assets) assets _ _ _ dated
              (λ d q. compute_day-Emits d _ known q)))

    -- The runs of the leverage service, of one day and of the days from `from` to `to`, over known assets,
    -- on dated days and under settings that name their versions, whatever the providers and the
    -- repositories answer: every feature that a run stores is finite and passes `Feature.Validate`,
    -- every score that it stores passes `DomainScore.Validate`, and its scores and completion events
    -- are those of the schedule (day by day, asset by asset, the score before its event), all of them
    -- if the run succeeds and the first of them if it fails.
    pub leverage_runs-Emit :
        (value_date from to : Time)
        → All IsKnown assets
        → IsDay (utc_day value_date)
        → IsDay (utc_day from)
        → Emits
            (schedule (days_between (utc_day value_date) (utc_day value_date)) assets)
            (run_once ports cfg assets value_date)
          × Emits
              (schedule (days_between (utc_day from) (utc_day to)) assets)
              (run_backfill ports cfg assets from to)
    leverage_runs-Emit value_date from to known dated started =
        (run_once-Emits value_date known dated, run_backfill-Emits from to known started)
