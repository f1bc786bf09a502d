-- ===== src/Orchestrator/Domains/Promise.antt =====
-- The five domain steps, as the orchestrator sets them up, keep the promise of `Pipeline.Schedule`.
use mathlib.Core.Path.{subst}
use marketengine.Prelude.{
  ◌≡◌, refl, false, ◌==◌, eqb, String, List, [], ◌∷◌, arith, Bool-cases, inl, inr,
}
use marketengine.Float.{Float}
use marketengine.Float.Laws.{IsOrdered}
use marketengine.Time.{Time, utc_day, days_between}
use marketengine.Errors.{Result, ok}
use marketengine.Effects.{Eff, query}
use marketengine.Effects.Rules.{Returns}
use marketengine.GoMap.{Map}
use marketengine.Domain.{Asset, asset_global, validate_asset}
use marketengine.Scoring.Liquidity as LiquidityScore
use marketengine.Scoring.Leverage as LeverageScore
use marketengine.Scoring.CapitalFlows as CapitalFlowsScore
use marketengine.Scoring.MarketStress as MarketStressScore
use marketengine.Scoring.Volatility as VolatilityScore
use marketengine.Pipeline.{Action}
use marketengine.Pipeline.Traces.{Traces-query, Traces-Returns}
use marketengine.Pipeline.Schedule.{Emits, Output, IsDay, schedule}
use marketengine.Services.Liquidity
use marketengine.Services.Liquidity.Interfaces as LiquidityInterfaces
use marketengine.Services.Liquidity.Rows as LiquidityRows
use marketengine.Services.Liquidity.Run as LiquidityRun
use marketengine.Services.Leverage
use marketengine.Services.Leverage.Interfaces as LeverageInterfaces
use marketengine.Services.Leverage.Run as LeverageRun
use marketengine.Services.CapitalFlows
use marketengine.Services.CapitalFlows.Interfaces as CapitalFlowsInterfaces
use marketengine.Services.CapitalFlows.Run as CapitalFlowsRun
use marketengine.Services.MarketStress
use marketengine.Services.MarketStress.Interfaces as MarketStressInterfaces
use marketengine.Services.MarketStress.Run as MarketStressRun
use marketengine.Services.Volatility
use marketengine.Services.Volatility.Interfaces as VolatilityInterfaces
use marketengine.Services.Volatility.Run as VolatilityRun
use marketengine.Orchestrator.Settings.{
  OrchDomainFeats, OrchDomainStress, FeatureConfig, load_liquidity_feature_versions,
  liquidity_config, leverage_config, capital_flows_config, market_stress_config, volatility_config,
}
use marketengine.Orchestrator.Domains.{
  default_assets, once_or_backfill, run_liquidity_with, run_liquidity, run_leverage,
  run_capital_flows, run_market_stress, run_volatility,
}

-- The three versions of a domain are named.
pub record IsNamed (c : OrchDomainFeats) : Type 0 where
  pub model : (c.model_version == "") ≡ false
  pub intermediate : (c.intermediate_version == "") ≡ false
  pub final : (c.final_version == "") ≡ false

pub record IsNamedStress (c : OrchDomainStress) : Type 0 where
  pub model : (c.model_version == "") ≡ false
  pub intermediate : (c.intermediate_version == "") ≡ false
  pub final : (c.final_version == "") ≡ false

-- the scores and events of the days from `from` to `to`
abbrev pub scheduled : Time → Time → List Asset → List Output
scheduled from to assets = schedule (days_between (utc_day from) (utc_day to)) assets

module _ {F Row : Type 0} ⦃f : Float F⦄ where
  once_or_backfill-Emits :
      (once : Time → Eff (Action F Row) (Unit {0}))
      (backfill : Time → Time → Eff (Action F Row) (Unit {0})) (from to : Time)
      (assets : List Asset)
      → Emits (scheduled from from assets) (once from)
        × Emits (scheduled from to assets) (backfill from to)
      → Emits (scheduled from to assets) (once_or_backfill once backfill from to)
  once_or_backfill-Emits once backfill from to assets (r, s) = elim (Bool-cases (eqb from to)) [
    | inl same ↦
        rw same (subst (λ t. Emits (scheduled from t assets) (once from)) (ground (arith, same)) r)
    | inr other ↦ rw other s
  ]

module _ {F : Type 0} ⦃f : Float F⦄ (laws : IsOrdered F) (config_version git_sha : String) where
  module _ (from to : Time) (dated : IsDay (utc_day from)) where
    run_leverage-Emits :
        (ports : LeverageInterfaces.Ports F) (c : OrchDomainFeats)
        → IsNamed c
        → Emits
            (scheduled from to default_assets)
            (run_leverage config_version git_sha ports c from to)
    unfolding run_leverage Leverage.new_service leverage_config LeverageScore.defaults
        validate_asset
    run_leverage-Emits ports c n =
        let cfg = LeverageScore.defaults (leverage_config config_version git_sha c) in
        once_or_backfill-Emits (Leverage.run_once ports cfg default_assets)
          (Leverage.run_backfill ports cfg default_assets) from to default_assets
          (LeverageRun.leverage_runs-Emit ports cfg default_assets laws
            (record { model = n.model; intermediate = n.intermediate; final = n.final }) from from
            to (refl, (refl, tt)) dated dated)

    run_capital_flows-Emits :
        (ports : CapitalFlowsInterfaces.Ports F) (c : OrchDomainFeats)
        → IsNamed c
        → Emits
            (scheduled from to (asset_global ∷ []))
            (run_capital_flows config_version git_sha ports c from to)
    unfolding run_capital_flows CapitalFlows.new_service capital_flows_config
        CapitalFlowsScore.defaults validate_asset
    run_capital_flows-Emits ports c n =
        let cfg = CapitalFlowsScore.defaults (capital_flows_config config_version git_sha c) in
        once_or_backfill-Emits (CapitalFlows.run_once ports cfg (asset_global ∷ []))
          (CapitalFlows.run_backfill ports cfg (asset_global ∷ [])) from to (asset_global ∷ [])
          (CapitalFlowsRun.capital_flows_runs-Emit ports cfg (asset_global ∷ []) laws
            (record { model = n.model; intermediate = n.intermediate; final = n.final }) from from
            to (refl, tt) dated dated)

    run_market_stress-Emits :
        (ports : MarketStressInterfaces.Ports F) (c : OrchDomainStress)
        → IsNamedStress c
        → Emits
            (scheduled from to default_assets)
            (run_market_stress config_version git_sha ports c from to)
    unfolding run_market_stress MarketStress.new_service market_stress_config
        MarketStressScore.defaults validate_asset
    run_market_stress-Emits ports c n =
        let cfg = MarketStressScore.defaults (market_stress_config config_version git_sha c) in
        once_or_backfill-Emits (MarketStress.run_once ports cfg default_assets)
          (MarketStress.run_backfill ports cfg default_assets) from to default_assets
          (MarketStressRun.market_stress_runs-Emit ports cfg default_assets laws
            (record { model = n.model; intermediate = n.intermediate; final = n.final }) from from
            to (refl, (refl, tt)) dated dated)

    run_volatility-Emits :
        (ports : VolatilityInterfaces.Ports F) (c : OrchDomainFeats)
        → IsNamed c
        → Emits
            (scheduled from to default_assets)
            (run_volatility config_version git_sha ports c from to)
    unfolding run_volatility Volatility.new_service volatility_config VolatilityScore.defaults
        validate_asset
    run_volatility-Emits ports c n =
        let cfg = VolatilityScore.defaults (volatility_config config_version git_sha c) in
        once_or_backfill-Emits (Volatility.run_once ports cfg default_assets)
          (Volatility.run_backfill ports cfg default_assets) from to default_assets
          (VolatilityRun.volatility_runs-Emit ports cfg default_assets laws
            (record { model = n.model; intermediate = n.intermediate; final = n.final }) from from
            to (refl, (refl, tt)) dated dated)

    load-Returns :
        (load : String → Result (List FeatureConfig)) (path : String) (P : Map String → Type 0)
        → ((fv : Map String) → load_liquidity_feature_versions load path ≡ ok fv → P fv)
        → Returns {Act = Action F (LiquidityRows.Row F)} P
            (query (λ h. load_liquidity_feature_versions load path))
    unfolding query
    load-Returns load path P p = record { holds = λ h fv e. p fv e }

    run_liquidity-Emits :
        (load : String → Result (List FeatureConfig)) (ports : LiquidityInterfaces.Ports F)
        (path model_version : String)
        → ((fv : Map String)
            → load_liquidity_feature_versions load path ≡ ok fv
            → LiquidityRun.IsVersioned
                (liquidity_config {F = F} config_version git_sha model_version fv))
        → Emits
            (scheduled from to default_assets)
            (run_liquidity config_version git_sha load ports path model_version from to)
    unfolding run_liquidity run_liquidity_with Liquidity.new_service LiquidityScore.defaults
        validate_asset
    run_liquidity-Emits load ports path model_version named =
        Traces-Returns (Traces-query _) (load-Returns load path _ named) (λ fv v.
          let cfg =
            LiquidityScore.defaults (liquidity_config config_version git_sha model_version fv) in
          once_or_backfill-Emits (Liquidity.run_once ports cfg default_assets)
            (Liquidity.run_backfill ports cfg default_assets) from to default_assets
            (LiquidityRun.liquidity_runs-Emit ports cfg default_assets laws (versioned fv v) from
              from to (refl, (refl, tt)) dated dated))
      where
        versioned :
            (fv : Map String)
            → LiquidityRun.IsVersioned
                (liquidity_config {F = F} config_version git_sha model_version fv)
            → LiquidityRun.IsVersioned (
                LiquidityScore.defaults
                  (liquidity_config {F = F} config_version git_sha model_version fv))
        versioned fv v = record {
          model = v.model;
          supply = v.supply;
          growth = v.growth;
          z_score = v.z_score;
          netflow_7d = v.netflow_7d;
          netflow_z = v.netflow_z;
          tvl = v.tvl;
          tvl_growth = v.tvl_growth;
          tvl_z = v.tvl_z;
          major = v.major;
          ssr = v.ssr;
          ssr_percentile = v.ssr_percentile;
        }

    -- The five domain steps as the orchestrator sets them up, from a dated day on, with the versions
    -- that the settings name: whatever the providers and the repositories answer, each step stores
    -- only finite features and scores that pass their checks, and writes the scores and completion
    -- events of its schedule, all of them if it succeeds and the first of them if it fails. The
    -- schedule has each day from `from` to `to`, for capital flows with the global asset, and for the
    -- other domains with BTC and ETH.
    pub domain_steps-Emit :
        (load : String → Result (List FeatureConfig)) (liq_ports : LiquidityInterfaces.Ports F)
        (path liq_model : String) (lev_ports : LeverageInterfaces.Ports F) (lev : OrchDomainFeats)
        (flow_ports : CapitalFlowsInterfaces.Ports F) (flow : OrchDomainFeats)
        (stress_ports : MarketStressInterfaces.Ports F) (stress : OrchDomainStress)
        (vol_ports : VolatilityInterfaces.Ports F) (vol : OrchDomainFeats)
        → ((fv : Map String)
            → load_liquidity_feature_versions load path ≡ ok fv
            → LiquidityRun.IsVersioned
                (liquidity_config {F = F} config_version git_sha liq_model fv))
        → IsNamed lev
        → IsNamed flow
        → IsNamedStress stress
        → IsNamed vol
        → Emits
            (scheduled from to default_assets)
            (run_liquidity config_version git_sha load liq_ports path liq_model from to)
          × Emits
              (scheduled from to default_assets)
              (run_leverage config_version git_sha lev_ports lev from to)
          × Emits
              (scheduled from to (asset_global ∷ []))
              (run_capital_flows config_version git_sha flow_ports flow from to)
          × Emits
              (scheduled from to default_assets)
              (run_market_stress config_version git_sha stress_ports stress from to)
          × Emits
              (scheduled from to default_assets)
              (run_volatility config_version git_sha vol_ports vol from to)
    domain_steps-Emit load liq_ports path liq_model lev_ports lev flow_ports flow stress_ports
          stress vol_ports vol n1 n2 n3 n4 n5 =
        (
          run_liquidity-Emits load liq_ports path liq_model n1,
          run_leverage-Emits lev_ports lev n2,
          run_capital_flows-Emits flow_ports flow n3,
          run_market_stress-Emits stress_ports stress n4,
          run_volatility-Emits vol_ports vol n5,
        )
