-- ===== src/Examples/Ports.antt =====
-- Concrete ports of the domain services: repositories that answer from fixed values, and few providers.
use marketengine.Prelude.{◌*◌, Option, none, some, List, [], ◌∷◌}
use marketengine.Float.Fixed.{Fixed, fixed, fixed_float}
use marketengine.Time.{day}
use marketengine.Domain.{validate_score}
use marketengine.Errors.{context, Result, ok, err, not_found, message}
use marketengine.Pipeline
use marketengine.Pipeline.{Action}
use marketengine.Services.Liquidity.Interfaces as LiquidityInterfaces
use marketengine.Services.Leverage.Interfaces as LeverageInterfaces
use marketengine.Services.CapitalFlows.Interfaces as CapitalFlowsInterfaces
use marketengine.Services.MarketStress.Interfaces as MarketStressInterfaces
use marketengine.Services.Volatility.Interfaces as VolatilityInterfaces

abbrev series : List Fixed
series = fixed 10000 ∷ fixed 20000 ∷ fixed 30000 ∷ []

-- the check of the repository refuses some scores, every other write succeeds, and one value is stored
-- for each feature and day
abbrev base : {Row : Type 0} → Pipeline.Ports Fixed Row
base = record {
  save_rows = λ r h. ok tt;
  save_feature = λ x h. ok tt;
  get_latest = λ k a d c h. ok (fixed 12000);
  get_series = λ k a s d c h. ok series;
  save_score = λ s h. context "invalid score" (validate_score s);
  publish = λ e h. ok tt;
  now = λ h. 100 * day;
}

abbrev found : Result (Option Fixed)
found = ok (some (fixed 15000))

abbrev pub liquidity_ports : LiquidityInterfaces.Ports Fixed
liquidity_ports = record {
  base = base;
  stable = none;
  tvl =
      some
        (λ chain h. ok (record { date = 98 * day; tvl_usd = fixed 900; payload_hash = "h" } ∷ []));
  netflow = none;
  mcap = some (λ coin h. err (message "no answer"));
  get_stablecoin_supply_as_of = λ s d c h. ok (fixed 20000);
  sum_stablecoin_supply_as_of = λ s d c h. ok (fixed 40000, 3);
  get_chain_tvl_as_of = λ s d c h. err not_found;
  sum_7d_netflow = λ a d c h. found;
  get_market_cap_as_of = λ s d c h. ok (fixed 80000);
}

abbrev pub leverage_ports : LeverageInterfaces.Ports Fixed
leverage_ports = record {
  base = base;
  oi_providers = ("binance", λ a s d h. err (message "no answer")) ∷ [];
  funding_prov = [];
  basis_prov = none;
  cg_oi = none;
  cg_basis = none;
  cg_liq = none;
  cg_crowd = none;
  aggregated_oi_as_of = λ a d c h. found;
  coinglass_aggregated_oi_as_of = λ a d c h. ok none;
  daily_avg_funding_as_of = λ a d c h. found;
  daily_total_liquidations_as_of = λ a d c h. found;
  coinglass_aggregated_liquidations_as_of = λ a d c h. ok none;
  get_coinglass_futures_basis_as_of = λ s e d c h. found;
  get_deribit_basis_as_of = λ a d c h. found;
  get_market_cap_as_of = λ s d c h. ok (fixed 80000);
  coinglass_ls_ratio_avg_as_of = λ k s d c h. found;
  coinglass_taker_volume_as_of = λ s d c h. ok (some (fixed 10000, fixed 20000));
}

abbrev pub flows_ports : CapitalFlowsInterfaces.Ports Fixed
flows_ports = record {
  base = base;
  etf = none;
  lth = some (λ h. ok []);
  mcap = none;
  liquidity = none;
  inst = none;
  combined_etf_flow_as_of = λ d c h. found;
  get_lth_supply_as_of = λ a d c h. err not_found;
  get_stablecoin_mcap_as_of = λ d c h. found;
  get_exchange_balance_change_7d_sum_as_of = λ s d c h. found;
  get_exchange_balance_change_30d_sum_as_of = λ s d c h. ok none;
  get_bitfinex_margin_as_of = λ s d c h. ok none;
  get_etf_list_aum_total_as_of = λ d c h. found;
  get_etf_list_concentration_hhi_as_of = λ d c h. found;
  get_etf_aum_history_total_as_of = λ d c h. found;
  get_options_dealer_skew_proxy_as_of = λ s e d c h. found;
}

abbrev pub stress_ports : MarketStressInterfaces.Ports Fixed
stress_ports = record {
  base = base;
  binance = none;
  kraken = none;
  coinbase = none;
  coinglass = none;
  cg_micro = none;
  get_basis_3m_daily_any_version = some (λ a d c h. ok (fixed 500));
  get_binance_kline_close_series = λ s x d c h. ok series;
  get_binance_kline_close_as_of = λ s d c h. ok (fixed 10000);
  get_kraken_close_as_of = λ s d c h. err not_found;
  get_coinbase_close_as_of = λ s d c h. ok (fixed 11000);
  get_coinglass_coinbase_premium_rate_as_of = λ d c h. err not_found;
  get_orderbook_imbalance_as_of = λ s d c h. found;
  get_futures_spot_ratio_as_of = λ s d c h. ok none;
}

abbrev pub volatility_ports : VolatilityInterfaces.Ports Fixed
volatility_ports = record {
  base = base;
  dvol = none;
  options = some (λ a h. err (message "no answer"));
  cg_options = none;
  chain = none;
  get_dvol_close_as_of = λ a d c h. ok (fixed 50000);
  realized_vol_30d = λ a d c h. found;
  get_coinglass_options_aggregated_oi_as_of = λ s d c h. found;
  get_coinglass_options_put_call_ratio_as_of = λ s d c h. ok none;
  get_coinglass_options_max_pain_nearest_as_of = λ s e d c h. found;
  spot_close_as_of = λ s d c h. found;
  get_deribit_options_chain_as_of = λ a d c h. ok [];
}
