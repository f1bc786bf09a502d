-- ===== src/Orchestrator/Domains.antt =====
-- `runLiquidity`, `runLeverage`, `runCapitalFlows`, `runMarketStress`, `runVolatility` and
-- `runRegimeEngine` of cmd/orchestrator/main.go. The repositories and the clients that they open are the ports of the
-- services.

pub mod Promise
use marketengine.Prelude.{String, eqb, List, [], ◌∷◌, if◌then◌else◌}
use marketengine.Float.{Float}
use marketengine.Time.{Time}
use marketengine.Errors.{Result}
use marketengine.Effects.{Eff, query, ◌>>=◌}
use marketengine.GoMap.{Map}
use marketengine.Domain.{Asset, asset_global}
use marketengine.Pipeline.{Action}
use marketengine.Services.Liquidity
use marketengine.Services.Liquidity.Interfaces as LiquidityInterfaces
use marketengine.Services.Liquidity.Rows as LiquidityRows
use marketengine.Services.Leverage
use marketengine.Services.Leverage.Rows as LeverageRows
use marketengine.Services.Leverage.Interfaces as LeverageInterfaces
use marketengine.Services.CapitalFlows
use marketengine.Services.CapitalFlows.Rows as CapitalFlowsRows
use marketengine.Services.CapitalFlows.Interfaces as CapitalFlowsInterfaces
use marketengine.Services.MarketStress
use marketengine.Services.MarketStress.Interfaces as MarketStressInterfaces
use marketengine.Services.MarketStress.Rows as MarketStressRows
use marketengine.Services.Volatility
use marketengine.Services.Volatility.Interfaces as VolatilityInterfaces
use marketengine.Services.Volatility.Rows as VolatilityRows
use marketengine.Regime.Ports as RegimePorts
use marketengine.Regime.Service as Regime
use marketengine.Orchestrator.Settings.{
  OrchDomainFeats, OrchDomainStress, OrchDomainEngine, FeatureConfig, regime_config,
  load_liquidity_feature_versions, liquidity_config, leverage_config, capital_flows_config,
  market_stress_config, volatility_config,
}

abbrev pub default_assets : List Asset
default_assets = "BTC" ∷ "ETH" ∷ []

-- if from.Equal(to) { return svc.RunOnce(…) }; return svc.RunBackfill(…)
abbrev pub once_or_backfill :
    {Act : Type 0}
    → (Time → Eff Act (Unit {0}))
    → (Time → Time → Eff Act (Unit {0}))
    → Time
    → Time
    → Eff Act (Unit {0})
once_or_backfill once backfill from to = if eqb from to then once from else backfill from to

module _ {F : Type 0} ⦃f : Float F⦄ (config_version git_sha : String) where
  unfoldable pub run_liquidity_with :
      LiquidityInterfaces.Ports F
      → String
      → Map String
      → Time
      → Time
      → Eff (Action F (LiquidityRows.Row F)) (Unit {0})
  unfolding Liquidity.new_service Liquidity.run_once Liquidity.run_backfill liquidity_config
  run_liquidity_with ports model_version fv =
      let svc =
        Liquidity.new_service (liquidity_config config_version git_sha model_version fv)
          default_assets in
      once_or_backfill (Liquidity.run_once ports svc.0 svc.1)
        (Liquidity.run_backfill ports svc.0 svc.1)

  unfoldable pub run_liquidity :
      (String → Result (List FeatureConfig))
      → LiquidityInterfaces.Ports F
      → String
      → String
      → Time
      → Time
      → Eff (Action F (LiquidityRows.Row F)) (Unit {0})
  unfolding run_liquidity_with load_liquidity_feature_versions
  run_liquidity load ports path model_version from to = do
    fv ← query (λ h. load_liquidity_feature_versions load path)
    run_liquidity_with ports model_version fv from to

  unfoldable pub run_leverage :
      LeverageInterfaces.Ports F
      → OrchDomainFeats
      → Time
      → Time
      → Eff (Action F (LeverageRows.Row F)) (Unit {0})
  unfolding Leverage.new_service Leverage.run_once Leverage.run_backfill leverage_config
  run_leverage ports c =
      let svc = Leverage.new_service (leverage_config config_version git_sha c) default_assets in
      once_or_backfill (Leverage.run_once ports svc.0 svc.1)
        (Leverage.run_backfill ports svc.0 svc.1)

  unfoldable pub run_capital_flows :
      CapitalFlowsInterfaces.Ports F
      → OrchDomainFeats
      → Time
      → Time
      → Eff (Action F (CapitalFlowsRows.Row F)) (Unit {0})
  unfolding CapitalFlows.new_service CapitalFlows.run_once CapitalFlows.run_backfill
      capital_flows_config
  run_capital_flows ports c =
      let svc =
        CapitalFlows.new_service (capital_flows_config config_version git_sha c)
          (asset_global ∷ []) in
      once_or_backfill (CapitalFlows.run_once ports svc.0 svc.1)
        (CapitalFlows.run_backfill ports svc.0 svc.1)

  unfoldable pub run_market_stress :
      MarketStressInterfaces.Ports F
      → OrchDomainStress
      → Time
      → Time
      → Eff (Action F (MarketStressRows.Row F)) (Unit {0})
  unfolding MarketStress.new_service MarketStress.run_once MarketStress.run_backfill
      market_stress_config
  run_market_stress ports c =
      let svc =
        MarketStress.new_service (market_stress_config config_version git_sha c) default_assets in
      once_or_backfill (MarketStress.run_once ports svc.0 svc.1)
        (MarketStress.run_backfill ports svc.0 svc.1)

  unfoldable pub run_volatility :
      VolatilityInterfaces.Ports F
      → OrchDomainFeats
      → Time
      → Time
      → Eff (Action F (VolatilityRows.Row F)) (Unit {0})
  unfolding Volatility.new_service Volatility.run_once Volatility.run_backfill volatility_config
  run_volatility ports c =
      let svc =
        Volatility.new_service (volatility_config config_version git_sha c) default_assets in
      once_or_backfill (Volatility.run_once ports svc.0 svc.1)
        (Volatility.run_backfill ports svc.0 svc.1)

  unfoldable pub run_regime_engine :
      RegimePorts.Ports F → OrchDomainEngine F → Time → Time → Eff (RegimePorts.Action F) (Unit {0})
  unfolding regime_config
  run_regime_engine ports e =
      let svc = Regime.new_service (regime_config config_version git_sha e) default_assets in
      once_or_backfill (Regime.run_once ports svc.0 svc.1) (Regime.run_backfill ports svc.0 svc.1)
