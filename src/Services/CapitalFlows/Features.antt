-- ===== src/Services/CapitalFlows/Features.antt =====
-- `computeFeatures` of internal/capitalflows/service.go, in the four parts in which it stands there,
-- and its helpers. All features but the supply of long term holders are global.
use marketengine.Prelude.{
  ℕ, String, Bool, true, false, Option, none, some, List, [], ◌∷◌, if◌then◌else◌,
}
use marketengine.Float.{Float, ◌⊕◌, of_ℕ}
use marketengine.Time.{Time, sub_days}
use marketengine.Errors.{Result, ok, err}
use marketengine.Effects.{pure, query, attempt, ◌>>=◌, ◌>>◌}
use marketengine.Domain.{Asset, asset_global, asset_btc, FeatureKey}
use marketengine.Scoring.CapitalFlows.{Config}
use marketengine.Scoring.Features.{velocity_30d, etf_aum_velocity_30d, bitfinex_margin_skew}
use marketengine.Pipeline.{
  if_found, if_some, on_success, on_found, get_latest, save_feature, save_z_score,
  try_compute_growth,
}
use marketengine.Services.CapitalFlows.Interfaces.{Ports, History}
use marketengine.Services.CapitalFlows.Ingest.{Step}

module _ {F : Type 0} ⦃f : Float F⦄ (ports : Ports F) (cfg : Config F) where
  abbrev pub int_key : String → FeatureKey
  int_key name = record { name = name; version = cfg.intermediate_version }

  abbrev pub fin_key : String → FeatureKey
  fin_key name = record { name = name; version = cfg.final_version }

  -- `saveFeature` with a source in version "coinglass_v4"
  unfoldable pub store : FeatureKey → Asset → Time → String → F → Step ports (Unit {0})
  store k asset d src v = save_feature ports.base cfg.code_sha k asset d v src "coinglass_v4"

  unfoldable pub z_score :
      String → String → Asset → Time → Time → ℕ → ℕ → String → Step ports (Unit {0})
  z_score from to asset d cutoff window min_obs src =
      save_z_score ports.base cfg.code_sha (int_key from) (fin_key to) asset d cutoff window min_obs
        src "coinglass_v4"

  unfoldable pub compute_etf_and_lth : Time → Time → Step ports (Unit {0})
  unfolding store z_score
  compute_etf_and_lth d cutoff = do
    sum ← query (ports.combined_etf_flow_as_of d cutoff)
    if_some sum (store (int_key "etf_netflow_daily") asset_global d "coinglass_etf_flows")
    z_score "etf_netflow_daily" "etf_netflow_zscore_90d" asset_global d cutoff 90 30
        "coinglass_etf_flows"
    supply ← attempt (query (ports.get_lth_supply_as_of asset_btc d cutoff))
    if_found supply (store (int_key "lth_supply_daily") asset_btc d "lth_supply")
    change ← try_compute_growth ports.base (int_key "lth_supply_daily") asset_btc d cutoff 30
    if_some change (store (int_key "lth_supply_change_30d") asset_btc d "lth_supply")
    z_score "lth_supply_change_30d" "lth_supply_change_zscore_180d" asset_btc d cutoff 180 60
        "lth_supply"

  unfoldable pub compute_liquidity_flow : Time → Time → Step ports (Unit {0})
  unfolding store z_score
  compute_liquidity_flow d cutoff = do
    now ← attempt (query (ports.get_stablecoin_mcap_as_of d cutoff))
    on_found now (λ x. do
      past ← attempt (query (ports.get_stablecoin_mcap_as_of (sub_days d 30) cutoff))
      on_found past (λ y. if_some (velocity_30d x y) (
          store (int_key "stablecoin_mcap_velocity_30d") asset_global d
            "coinglass_stablecoin_mcap")))
    z_score "stablecoin_mcap_velocity_30d" "stablecoin_mcap_velocity_zscore_90d" asset_global d
        cutoff 90 30 "coinglass_stablecoin_mcap"
    balance ← attempt (query (ports.get_exchange_balance_change_7d_sum_as_of "BTC" d cutoff))
    on_found balance
        (store (int_key "exchange_balance_change_7d") asset_global d "coinglass_exchange_balance")
    z_score "exchange_balance_change_7d" "exchange_balance_change_zscore_90d" asset_global d cutoff
        90 30 "coinglass_exchange_balance"

  abbrev add_change : Result (Option F) → F × Bool → F × Bool
  add_change (ok (some v)) (sum, any) = (sum ⊕ v, true)
  add_change (ok none) acc = acc
  add_change (err e) acc = acc

  -- the loop over the stablecoins: their sum, and whether one was there
  unfoldable pub sum_changes :
      (String → History F → Result (Option F)) → List String → F × Bool → Step ports (F × Bool)
  sum_changes change [] acc = pure acc
  sum_changes change (sym ∷ syms) acc = do
    r ← attempt (query (change sym))
    sum_changes change syms (add_change r acc)

  -- a round of the loop over the two windows
  unfoldable pub compute_dry_powder :
      String
      → String
      → (String → Time → Time → History F → Result (Option F))
      → Time
      → Time
      → Step ports (Unit {0})
  unfolding store z_score sum_changes
  compute_dry_powder daily z change d cutoff = do
    total ← sum_changes (λ sym. change sym d cutoff) ("USDT(ETH)" ∷ "USDC" ∷ []) (of_ℕ 0, false)
    if total.1
        then store (int_key daily) asset_global d "coinglass_exchange_balance" total.0
        else pure tt
    z_score daily z asset_global d cutoff 90 30 "coinglass_exchange_balance"

  unfoldable pub compute_dry_powders_and_margin : Time → Time → Step ports (Unit {0})
  unfolding store z_score compute_dry_powder
  compute_dry_powders_and_margin d cutoff = do
    compute_dry_powder "stablecoin_dry_powder_change_7d"
        "stablecoin_dry_powder_change_7d_zscore_90d" ports.get_exchange_balance_change_7d_sum_as_of
        d cutoff
    compute_dry_powder "stablecoin_dry_powder_change_30d"
        "stablecoin_dry_powder_change_30d_zscore_90d"
        ports.get_exchange_balance_change_30d_sum_as_of d cutoff
    margin ← attempt (query (ports.get_bitfinex_margin_as_of "BTC" d cutoff))
    on_found margin (λ m.
        if_some (bitfinex_margin_skew m.0 m.1)
          (store (int_key "bitfinex_margin_skew_daily") asset_global d "coinglass_bitfinex_margin"))
    z_score "bitfinex_margin_skew_daily" "bitfinex_margin_skew_zscore_90d" asset_global d cutoff 90
        30 "coinglass_bitfinex_margin"

  -- the total of the list of funds, and else that of their histories
  unfoldable pub store_aum_total : Result (Option F) → Time → Time → Step ports (Unit {0})
  unfolding store
  store_aum_total (ok (some v)) d cutoff =
      store (int_key "etf_aum_total_daily") asset_global d "coinglass_etf_list" v
  store_aum_total r d cutoff = do
    total ← attempt (query (ports.get_etf_aum_history_total_as_of d cutoff))
    on_found total
        (store (int_key "etf_aum_total_daily") asset_global d "coinglass_etf_aum_history")

  unfoldable pub compute_institutional : Time → Time → Step ports (Unit {0})
  unfolding store z_score store_aum_total
  compute_institutional d cutoff = do
    list ← attempt (query (ports.get_etf_list_aum_total_as_of d cutoff))
    store_aum_total list d cutoff
    now ← attempt (get_latest ports.base (int_key "etf_aum_total_daily") asset_global d cutoff)
    on_success now (λ x. do
      past ← attempt (
          get_latest ports.base (int_key "etf_aum_total_daily") asset_global (sub_days d 30) cutoff)
      on_success past (λ y.
          if_some (etf_aum_velocity_30d x y)
            (store (int_key "etf_aum_velocity_30d") asset_global d "coinglass_etf_aum_history")))
    z_score "etf_aum_velocity_30d" "etf_aum_velocity_zscore_90d" asset_global d cutoff 90 30
        "coinglass_etf_aum_history"
    hhi ← attempt (query (ports.get_etf_list_concentration_hhi_as_of d cutoff))
    on_found hhi (store (int_key "etf_concentration_hhi_daily") asset_global d "coinglass_etf_list")
    z_score "etf_concentration_hhi_daily" "etf_concentration_hhi_zscore_90d" asset_global d cutoff
        90 30 "coinglass_etf_list"
    dealer ← attempt (query (ports.get_options_dealer_skew_proxy_as_of "BTC" "Deribit" d cutoff))
    on_found dealer (
        store (int_key "options_dealer_skew_proxy_daily") asset_global d
          "coinglass_options_max_pain")
    z_score "options_dealer_skew_proxy_daily" "options_dealer_skew_proxy_zscore_90d" asset_global d
        cutoff 90 30 "coinglass_options_max_pain"

  unfoldable pub compute_features : Time → Time → Step ports (Unit {0})
  unfolding compute_etf_and_lth compute_liquidity_flow compute_dry_powders_and_margin
      compute_institutional
  compute_features d cutoff = do
    compute_etf_and_lth d cutoff
    compute_liquidity_flow d cutoff
    compute_dry_powders_and_margin d cutoff
    compute_institutional d cutoff
