-- ===== src/Examples/Scores.antt =====
-- Concrete inputs: the scores of the domains and their features.
use marketengine.Prelude.{◌≡◌, some, [], ◌∷◌, arith}
use marketengine.Float.Laws.{InUnit}
use marketengine.Float.Fixed.{Fixed, fixed, fixed_float, Fixed-IsRounded}
use marketengine.Scoring.Features.{percentile_rank}
use marketengine.Scoring.Features.Laws.{percentile_rank_unit}
use marketengine.Scoring.Liquidity
use marketengine.Scoring.Leverage
use marketengine.Scoring.Volatility
use marketengine.Scoring.MarketStress

abbrev pub liquidity_config : Liquidity.Config Fixed
liquidity_config = record {
  model_version = "liq_v1";
  config_version = "c1";
  code_sha = "abc";
  supply_feature_version = "v1";
  growth_feature_version = "v1";
  z_score_feature_version = "v1";
  netflow_7d_feature_version = "v1";
  netflow_z_score_feature_version = "v1";
  tvl_feature_version = "v1";
  tvl_growth_feature_version = "v1";
  tvl_z_score_feature_version = "v1";
  supply_major_feature_version = "v1";
  ssr_feature_version = "v1";
  ssr_percentile_feature_version = "v1";
  weight_stablecoin_capital = fixed 0;
  weight_exchange_netflow = fixed 0;
  weight_defi_capital = fixed 0;
  tanh_scale = fixed 0;
}

abbrev pub leverage_config : Leverage.Config Fixed
leverage_config = record {
  model_version = "lev_v1";
  config_version = "c1";
  code_sha = "abc";
  intermediate_version = "v1";
  final_version = "v1";
  weight_size = fixed 0;
  weight_funding = fixed 0;
  weight_basis = fixed 0;
  weight_liq = fixed 0;
  weight_momentum = fixed 0;
  weight_crowd_positioning = fixed 0;
  tanh_scale = fixed 0;
}

abbrev pub volatility_config : Volatility.Config Fixed
volatility_config = record {
  model_version = "vol_v1";
  config_version = "c1";
  code_sha = "abc";
  intermediate_version = "v1";
  final_version = "v1";
  weight_fear_premium = fixed 0;
  weight_tail_risk = fixed 0;
  weight_vov = fixed 0;
  weight_fear_premium4 = fixed 0;
  weight_term_structure4 = fixed 0;
  weight_tail_risk4 = fixed 0;
  weight_vov4 = fixed 0;
  weight_options_cross_source = fixed 0;
  tanh_scale = fixed 0;
}

abbrev pub stress_config : MarketStress.Config Fixed
stress_config = record {
  model_version = "stress_v1";
  config_version = "c1";
  code_sha = "abc";
  intermediate_version = "v1";
  final_version = "v1";
  leverage_basis_version = "lev_v1";
  weight_correlation = fixed 0;
  weight_peg = fixed 0;
  weight_coinbase = fixed 0;
  weight_basis_inversion = fixed 0;
  weight_microstructure = fixed 0;
  tanh_scale = fixed 0;
}

percentile_rank_unit_example :
    (r : Fixed) × (percentile_rank (fixed 200) (fixed 100 ∷ fixed 300 ∷ []) ≡ some r) × InUnit r
percentile_rank_unit_example =
    percentile_rank_unit Fixed-IsRounded (fixed 200) (fixed 100) (fixed 300 ∷ []) (omega arith)
