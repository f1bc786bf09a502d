-- ===== src/Examples/Domains.antt =====
-- Concrete inputs: the runs of the domain services.
use marketengine.Prelude.{ℕ, ◌*◌, refl, String, List, [], ◌∷◌, eqb, if◌then◌else◌}
use marketengine.Float.Fixed.{fixed_float, Fixed-IsOrdered}
use marketengine.Time.{Time, day, utc_day, days_between}
use marketengine.Domain.{asset_global, validate_asset}
use marketengine.Pipeline.{is_not_found}
use marketengine.Pipeline.Schedule.{Emits, schedule}
use marketengine.Services.Liquidity
use marketengine.Services.Liquidity.Run.{liquidity_runs-Emit}
use marketengine.Services.Liquidity.Success.{liquidity_runs-Succeed}
use marketengine.Services.Leverage
use marketengine.Services.Leverage.Run.{leverage_runs-Emit}
use marketengine.Services.CapitalFlows
use marketengine.Services.CapitalFlows.Run.{capital_flows_runs-Emit}
use marketengine.Services.MarketStress
use marketengine.Services.MarketStress.Run.{market_stress_runs-Emit}
use marketengine.Services.Volatility
use marketengine.Services.Volatility.Run.{volatility_runs-Emit}
use marketengine.Orchestrator.Domains.{default_assets}
use marketengine.Examples.Scores.{
  liquidity_config as liquidity_cfg, leverage_config as leverage_cfg, stress_config,
  volatility_config as volatility_cfg,
}
use marketengine.Examples.Flows.{config as flows_config}
use marketengine.Services.Leverage.Pages.{backfill_aggregated}
use marketengine.Services.Leverage.Pages.Walk.{Walk, page, Collected, backfill_aggregated_lem}
use marketengine.Effects.{Eff, query}
use marketengine.Effects.Rules.{Succeeds, ReadsOnly-query}
use marketengine.Errors.{Result, ok}
use marketengine.Examples.Ports.{
  liquidity_ports, leverage_ports, flows_ports, stress_ports, volatility_ports,
}

liquidity_runs-Emit_example :
    Emits
      (schedule (days_between (utc_day (98 * day)) (utc_day (98 * day))) default_assets)
      (Liquidity.run_once liquidity_ports liquidity_cfg default_assets (98 * day))
    × Emits
        (schedule (days_between (utc_day (90 * day)) (utc_day (98 * day))) default_assets)
        (Liquidity.run_backfill liquidity_ports liquidity_cfg default_assets (90 * day) (98 * day))
unfolding validate_asset utc_day
liquidity_runs-Emit_example =
    liquidity_runs-Emit liquidity_ports liquidity_cfg default_assets Fixed-IsOrdered
      (record {
        model = refl;
        supply = refl;
        growth = refl;
        z_score = refl;
        netflow_7d = refl;
        netflow_z = refl;
        tvl = refl;
        tvl_growth = refl;
        tvl_z = refl;
        major = refl;
        ssr = refl;
        ssr_percentile = refl;
      })
      (98 * day) (90 * day) (98 * day) (refl, (refl, tt)) refl refl

leverage_runs-Emit_example :
    Emits
      (schedule (days_between (utc_day (98 * day)) (utc_day (98 * day))) default_assets)
      (Leverage.run_once leverage_ports leverage_cfg default_assets (98 * day))
    × Emits
        (schedule (days_between (utc_day (90 * day)) (utc_day (98 * day))) default_assets)
        (Leverage.run_backfill leverage_ports leverage_cfg default_assets (90 * day) (98 * day))
unfolding validate_asset utc_day
leverage_runs-Emit_example =
    leverage_runs-Emit leverage_ports leverage_cfg default_assets Fixed-IsOrdered
      (record { model = refl; intermediate = refl; final = refl }) (98 * day) (90 * day) (98 * day)
      (refl, (refl, tt)) refl refl

capital_flows_runs-Emit_example :
    Emits
      (schedule (days_between (utc_day (98 * day)) (utc_day (98 * day))) (asset_global ∷ []))
      (CapitalFlows.run_once flows_ports flows_config (asset_global ∷ []) (98 * day))
    × Emits
        (schedule (days_between (utc_day (90 * day)) (utc_day (98 * day))) (asset_global ∷ []))
        (CapitalFlows.run_backfill flows_ports flows_config
          (asset_global ∷ [])
          (90 * day)
          (98 * day))
unfolding validate_asset utc_day
capital_flows_runs-Emit_example =
    capital_flows_runs-Emit flows_ports flows_config (asset_global ∷ []) Fixed-IsOrdered
      (record { model = refl; intermediate = refl; final = refl }) (98 * day) (90 * day) (98 * day)
      (refl, tt) refl refl

market_stress_runs-Emit_example :
    Emits
      (schedule (days_between (utc_day (98 * day)) (utc_day (98 * day))) default_assets)
      (MarketStress.run_once stress_ports stress_config default_assets (98 * day))
    × Emits
        (schedule (days_between (utc_day (90 * day)) (utc_day (98 * day))) default_assets)
        (MarketStress.run_backfill stress_ports stress_config default_assets (90 * day) (98 * day))
unfolding validate_asset utc_day
market_stress_runs-Emit_example =
    market_stress_runs-Emit stress_ports stress_config default_assets Fixed-IsOrdered
      (record { model = refl; intermediate = refl; final = refl }) (98 * day) (90 * day) (98 * day)
      (refl, (refl, tt)) refl refl

volatility_runs-Emit_example :
    Emits
      (schedule (days_between (utc_day (98 * day)) (utc_day (98 * day))) default_assets)
      (Volatility.run_once volatility_ports volatility_cfg default_assets (98 * day))
    × Emits (schedule (days_between (utc_day (90 * day)) (utc_day (98 * day))) default_assets) (
        Volatility.run_backfill volatility_ports volatility_cfg default_assets
          (90 * day)
          (98 * day))
unfolding validate_asset utc_day
volatility_runs-Emit_example =
    volatility_runs-Emit volatility_ports volatility_cfg default_assets Fixed-IsOrdered
      (record { model = refl; intermediate = refl; final = refl }) (98 * day) (90 * day) (98 * day)
      (refl, (refl, tt)) refl refl

-- the page up to `end`: the latest one has two points, the one up to the day before them one, and no
-- other has any
abbrev page_up_to : Time → List (Time × ℕ)
page_up_to end =
    if eqb end 0
    then (800_000 * day, 1) ∷ (799_999 * day, 2) ∷ []
    else if eqb end (799_998 * day)
    then (799_998 * day, 3) ∷ []
    else []

abbrev fetch : Time → Eff String (List (Time × ℕ))
fetch end = query (λ h. ok (page_up_to end))

backfill_aggregated_lem_example :
    (r : Result (List (Time × ℕ))) × Walk
      (λ p. p.0)
      (page (λ p. p.0) fetch (λ t. ReadsOnly-query _) [])
      10
      0
      0
      r
    × Collected
        (λ p. p.0)
        fetch
        (λ t. ReadsOnly-query _)
        []
        r
        (backfill_aggregated (λ p. p.0) fetch [])
backfill_aggregated_lem_example =
    backfill_aggregated_lem (λ p. p.0) fetch (λ t. ReadsOnly-query _) []

liquidity_runs-Succeed_example :
    Succeeds (Liquidity.run_once liquidity_ports liquidity_cfg default_assets (98 * day))
    × Succeeds
        (Liquidity.run_backfill liquidity_ports liquidity_cfg default_assets (90 * day) (98 * day))
unfolding utc_day is_not_found validate_asset
liquidity_runs-Succeed_example =
    liquidity_runs-Succeed liquidity_ports liquidity_cfg default_assets
      (record {
        base = record {
          rows = λ r h. refl;
          scores = λ s h v. rw v refl;
          events = λ e h. refl;
          features = λ k a d c h. tt;
        };
        supply = tt;
        per_coin = tt;
        tvl = λ chain h. (_, refl);
        netflow = tt;
        stored_supply = λ s d c h. tt;
        stored_major = λ s d c h. (_, refl);
        stored_tvl = λ s d c h. refl;
        stored_netflow = λ a d c h. (_, refl);
      })
      Fixed-IsOrdered refl (refl, (refl, tt)) (98 * day) (90 * day) (98 * day) refl refl refl
