-- ===== src/Orchestrator/Settings.antt =====
-- The settings that cmd/orchestrator/main.go hands to the services, from internal/config/config.go and
-- the environment.
use marketengine.Prelude.{ℕ, String, ◌==◌, eqb, Option, none, some, List, [], ◌∷◌, if◌then◌else◌}
use marketengine.Prelude.Int.{ℤ, pos, pos_part, ltb_ℤ}
use marketengine.Float.{Float, ◌<?◌, of_ℕ}
use marketengine.Errors.{Result, ok, context, ◌>>=◌}
use marketengine.GoMap.{Map, lookup, insert}
use marketengine.Scoring.Liquidity
use marketengine.Scoring.Leverage
use marketengine.Scoring.Volatility
use marketengine.Scoring.MarketStress
use marketengine.Scoring.CapitalFlows
use marketengine.Regime.Config

pub record OrchDomainFeats : Type 0 where
  pub model_version : String
  pub intermediate_version : String
  pub final_version : String

pub record OrchDomainStress : Type 0 where
  pub model_version : String
  pub intermediate_version : String
  pub final_version : String
  pub leverage_basis_version : String

-- `OrchDomainEngine` with `RegimeTransitionConfig`, `OrchNormalization` and `RegimeSmoothingConfig`
pub record OrchDomainEngine (F : Type 0) : Type 0 where
  pub model_version : String
  pub weights : Map F
  pub sigmoid_slope_k : F
  pub roc_window_days : ℤ
  pub roc_weight : F
  pub divergence_weight : F
  pub baseline : F
  pub lookback_days : ℤ
  pub min_samples : ℤ
  pub span_days : ℤ

pub record FeatureConfig : Type 0 where
  pub name : String
  pub version : String

-- m[f.Name] = f.Version
unfoldable pub feature_versions : List FeatureConfig → Map String → Map String
unfolding insert
feature_versions [] m = m
feature_versions (c ∷ cs) m = feature_versions cs (insert c.name c.version m)

-- `load` is `config.Load[config.LiquidityConfig]`
unfoldable pub load_liquidity_feature_versions :
    (String → Result (List FeatureConfig)) → String → Result (Map String)
unfolding feature_versions
load_liquidity_feature_versions load path = do
  features ←
      context "load liquidity config" (load (if path == "" then "configs/liquidity.yaml" else path))
  ok (feature_versions features [])

-- `env` is the variable COINGLASS_API_KEY
unfoldable pub coinglass_api_key : String → String → String
coinglass_api_key env configured = if env == "" then configured else env

-- the timeout of a client of Coinglass, in seconds
unfoldable pub coinglass_timeout : ℕ → ℕ
coinglass_timeout seconds = if eqb seconds 0 then 30 else seconds

abbrev or_empty : Option String → String
or_empty none = ""
or_empty (some v) = v

-- fv[name]: a missing key reads as ""
abbrev version_of : Map String → String → String
version_of fv name = or_empty (lookup name fv)

-- if n > 0 { ec.N = n }
abbrev if_positive_int : ℤ → ℕ → ℕ
if_positive_int n d = if ltb_ℤ (pos 0) n then pos_part n else d

module _ {F : Type 0} ⦃f : Float F⦄ (config_version git_sha : String) where
  -- the fields that a literal leaves out are zero, and the services replace them by their defaults
  unfoldable pub liquidity_config : String → Map String → Liquidity.Config F
  unfolding lookup
  liquidity_config model_version fv = record {
    model_version = model_version;
    config_version = config_version;
    code_sha = git_sha;
    supply_feature_version = version_of fv "stablecoin_supply_total";
    growth_feature_version = version_of fv "stablecoin_growth_30d";
    z_score_feature_version = version_of fv "stablecoin_growth_zscore_90d";
    netflow_7d_feature_version = version_of fv "exchange_netflow_7d";
    netflow_z_score_feature_version = version_of fv "exchange_netflow_zscore_180d";
    tvl_feature_version = version_of fv "defi_tvl_usd";
    tvl_growth_feature_version = version_of fv "defi_tvl_growth_30d";
    tvl_z_score_feature_version = version_of fv "defi_tvl_growth_zscore_180d";
    supply_major_feature_version = version_of fv "stablecoin_supply_usdt_usdc_dai";
    ssr_feature_version = version_of fv "ssr";
    ssr_percentile_feature_version = version_of fv "ssr_percentile_rank_365d";
    weight_stablecoin_capital = of_ℕ 0;
    weight_exchange_netflow = of_ℕ 0;
    weight_defi_capital = of_ℕ 0;
    tanh_scale = of_ℕ 0;
  }

  unfoldable pub leverage_config : OrchDomainFeats → Leverage.Config F
  leverage_config c = record {
    model_version = c.model_version;
    config_version = config_version;
    code_sha = git_sha;
    intermediate_version = c.intermediate_version;
    final_version = c.final_version;
    weight_size = of_ℕ 0;
    weight_funding = of_ℕ 0;
    weight_basis = of_ℕ 0;
    weight_liq = of_ℕ 0;
    weight_momentum = of_ℕ 0;
    weight_crowd_positioning = of_ℕ 0;
    tanh_scale = of_ℕ 0;
  }

  unfoldable pub capital_flows_config : OrchDomainFeats → CapitalFlows.Config F
  capital_flows_config c = record {
    model_version = c.model_version;
    config_version = config_version;
    code_sha = git_sha;
    intermediate_version = c.intermediate_version;
    final_version = c.final_version;
    weight_etf = of_ℕ 0;
    weight_lth = of_ℕ 0;
    weight_miner = of_ℕ 0;
    weight_liquidity_flow = of_ℕ 0;
    weight_lth_pre = of_ℕ 0;
    weight_miner_pre = of_ℕ 0;
    tanh_scale = of_ℕ 0;
  }

  unfoldable pub market_stress_config : OrchDomainStress → MarketStress.Config F
  market_stress_config c = record {
    model_version = c.model_version;
    config_version = config_version;
    code_sha = git_sha;
    intermediate_version = c.intermediate_version;
    final_version = c.final_version;
    leverage_basis_version = c.leverage_basis_version;
    weight_correlation = of_ℕ 0;
    weight_peg = of_ℕ 0;
    weight_coinbase = of_ℕ 0;
    weight_basis_inversion = of_ℕ 0;
    weight_microstructure = of_ℕ 0;
    tanh_scale = of_ℕ 0;
  }

  unfoldable pub volatility_config : OrchDomainFeats → Volatility.Config F
  volatility_config c = record {
    model_version = c.model_version;
    config_version = config_version;
    code_sha = git_sha;
    intermediate_version = c.intermediate_version;
    final_version = c.final_version;
    weight_fear_premium = of_ℕ 0;
    weight_tail_risk = of_ℕ 0;
    weight_vov = of_ℕ 0;
    weight_fear_premium4 = of_ℕ 0;
    weight_term_structure4 = of_ℕ 0;
    weight_tail_risk4 = of_ℕ 0;
    weight_vov4 = of_ℕ 0;
    weight_options_cross_source = of_ℕ 0;
    tanh_scale = of_ℕ 0;
  }

  -- if x > 0 { ec.Y = x }
  abbrev if_positive : F → F → F
  if_positive x d = if of_ℕ 0 <? x then x else d

  abbrev weights_or : Map F → Option (Map F) → Option (Map F)
  weights_or [] d = d
  weights_or (w ∷ ws) d = some (w ∷ ws)

  -- `regime.DefaultConfig`
  abbrev default_config : Config.Config F
  default_config = Config.defaults (record {
    model_version = "";
    config_version = "";
    code_sha = "";
    weights = none;
    sigmoid_k = of_ℕ 0;
    roc_window_days = 0;
    roc_weight = of_ℕ 0;
    divergence_weight = of_ℕ 0;
    transition_baseline = of_ℕ 0;
    min_coverage = of_ℕ 0;
    norm_lookback_days = 0;
    norm_min_samples = 0;
    smoothing_span_days = pos 0;
  })

  -- the overlay of `runRegimeEngine`
  unfoldable pub regime_config : OrchDomainEngine F → Config.Config F
  unfolding Config.defaults
  regime_config e = record default_config {
    model_version = e.model_version;
    config_version = config_version;
    code_sha = git_sha;
    weights = weights_or e.weights default_config.weights;
    sigmoid_k = if_positive e.sigmoid_slope_k default_config.sigmoid_k;
    roc_window_days = if_positive_int e.roc_window_days default_config.roc_window_days;
    roc_weight = if_positive e.roc_weight default_config.roc_weight;
    divergence_weight = if_positive e.divergence_weight default_config.divergence_weight;
    transition_baseline = if_positive e.baseline default_config.transition_baseline;
    norm_lookback_days = if_positive_int e.lookback_days default_config.norm_lookback_days;
    norm_min_samples = if_positive_int e.min_samples default_config.norm_min_samples;
    smoothing_span_days = e.span_days;
  }
