-- ===== src/Services/Volatility/Features.antt =====
-- The features of a day in internal/volatility/service.go.
use marketengine.Prelude.{
  ◌-◌, ◌/◌, String, Bool, true, false, ◌||◌, ◌==◌, Option, none, some, List, [], ◌∷◌, eqb,
  if◌then◌else◌,
}
use marketengine.Float.{Float, ◌⊕◌, ◌⊗◌, ◌⊘◌, ◌≤?◌, of_ℕ}
use marketengine.Time.{Time, day, sub_days}
use marketengine.Errors.{Result, ok, err}
use marketengine.Effects.{Eff, pure, query, attempt, ◌>>=◌, ◌>>◌}
use marketengine.Domain.{Asset}
use marketengine.Scoring.Volatility.{Config}
use marketengine.Scoring.Features.{diff, velocity_30d, max_pain_distance}
use marketengine.OptionPricing.{bs_gamma}
use marketengine.Pipeline.{
  Action, on_success, if_found, if_some, on_found, get_latest, try_compute_std_dev,
}
use marketengine.Services.Volatility.Rows.{DeribitOptionsChainSnapshot, Row}
use marketengine.Services.Volatility.Interfaces.{Ports}
use marketengine.Services.Volatility.Ingest.{int_key, fin_key, store, z_score}

unfoldable asset_to_binance_symbol : String → String
asset_to_binance_symbol asset =
    if asset == "BTC" then "BTCUSDT" else if asset == "ETH" then "ETHUSDT" else ""

-- `computeGEXNetDealer` after the read of the chain
module _ {F : Type 0} ⦃f : Float F⦄ where
  abbrev signed_interest : DeribitOptionsChainSnapshot F → F
  signed_interest c = if c.is_put then f.minus c.open_interest else c.open_interest

  -- one round of the loop: the total, and whether an option counted
  unfoldable add_gamma : Time → DeribitOptionsChainSnapshot F → F × Bool → F × Bool
  unfolding bs_gamma
  add_gamma d c (total, any) =
      let dte = (c.expiry_date - d) / day in
      let spot = c.underlying_price_usd in
      let gamma = bs_gamma spot c.strike_price c.mark_iv_pct dte (of_ℕ 0) in
      if c.mark_iv_pct ≤? of_ℕ 0 || spot ≤? of_ℕ 0 || eqb dte 0 || gamma ≤? of_ℕ 0
      then (total, any)
      else (total ⊕ signed_interest c ⊗ gamma ⊗ spot ⊗ spot, true)

  total_gamma : Time → F × Bool → List (DeribitOptionsChainSnapshot F) → F × Bool
  unfolding add_gamma
  total_gamma d acc [] = acc
  total_gamma d acc (c ∷ cs) = total_gamma d (add_gamma d c acc) cs

  unfoldable net_gamma : Time → Result (List (DeribitOptionsChainSnapshot F)) → Option F
  unfolding total_gamma
  net_gamma d (err e) = none
  net_gamma d (ok chain) =
      let t = total_gamma d (of_ℕ 0, false) chain in
      if t.1 then some (t.0 ⊘ of_ℕ 1_000_000) else none

module _ {F : Type 0} ⦃f : Float F⦄ (ports : Ports F) (cfg : Config F) (assets : List Asset) where
  abbrev pub Step : Type 0 → Type 0
  Step A = Eff (Action F (Row F)) A

  unfoldable pub compute_gex_net_dealer : Asset → Time → Time → Step (Option F)
  unfolding net_gamma
  compute_gex_net_dealer asset d cutoff = do
    chain ← attempt (query (ports.get_deribit_options_chain_as_of asset d cutoff))
    pure (net_gamma d chain)

  -- the features of `computeAssetDay`: those of Deribit and the klines
  unfoldable pub compute_dvol_features : Asset → Time → Time → Step (Unit {0})
  unfolding store z_score
  compute_dvol_features asset d cutoff = do
    close ← attempt (query (ports.get_dvol_close_as_of asset d cutoff))
    if_found close
        (store ports cfg assets (int_key ports cfg assets "dvol_daily") asset d "deribit_dvol")
    vol ← query (ports.realized_vol_30d asset d cutoff)
    if_some vol (
        store ports cfg assets (int_key ports cfg assets "realized_vol_30d") asset d
          "binance_klines")
    iv ← attempt (get_latest ports.base (int_key ports cfg assets "dvol_daily") asset d cutoff)
    if_found iv (λ x. do
      rv ←
          attempt
            (get_latest ports.base (int_key ports cfg assets "realized_vol_30d") asset d cutoff)
      if_found rv (λ y. if_some (diff x y) (
          store ports cfg assets (int_key ports cfg assets "iv_rv_spread_daily") asset d
            "deribit_dvol")))
    sd ← try_compute_std_dev ports.base (int_key ports cfg assets "dvol_daily") asset d cutoff 30 20
    if_some sd (
        store ports cfg assets (int_key ports cfg assets "dvol_of_dvol_30d") asset d "deribit_dvol")
    z_score ports cfg assets (int_key ports cfg assets "iv_rv_spread_daily")
        (fin_key ports cfg assets "iv_rv_spread_zscore_90d") asset d cutoff 90 30 "deribit_dvol"
    z_score ports cfg assets (int_key ports cfg assets "dvol_daily")
        (fin_key ports cfg assets "iv_skew_proxy_zscore_90d") asset d cutoff 90 30 "deribit_dvol"
    z_score ports cfg assets (int_key ports cfg assets "dvol_of_dvol_30d")
        (fin_key ports cfg assets "dvol_of_dvol_zscore_180d") asset d cutoff 180 60 "deribit_dvol"
    z_score ports cfg assets (int_key ports cfg assets "iv_term_slope_daily")
        (fin_key ports cfg assets "iv_term_slope_zscore_90d") asset d cutoff 90 30 "deribit_options"
    z_score ports cfg assets (int_key ports cfg assets "iv_skew_daily")
        (fin_key ports cfg assets "iv_skew_real_zscore_90d") asset d cutoff 90 30 "deribit_options"

  -- those of Coinglass, and the dealers' gamma
  unfoldable pub compute_options_features : Asset → Time → Time → Step (Unit {0})
  unfolding store z_score compute_gex_net_dealer asset_to_binance_symbol
  compute_options_features asset d cutoff = do
    oi ← query (ports.get_coinglass_options_aggregated_oi_as_of asset d cutoff)
    if_some oi (
        store ports cfg assets (int_key ports cfg assets "cg_options_agg_oi_daily") asset d
          "coinglass_options_oi")
    now ←
        attempt (
          get_latest ports.base (int_key ports cfg assets "cg_options_agg_oi_daily") asset d cutoff)
    on_success now (λ x. do
      past ← attempt (
          get_latest ports.base (int_key ports cfg assets "cg_options_agg_oi_daily") asset
            (sub_days d 30) cutoff)
      on_success past (λ y. if_some (velocity_30d x y) (
          store ports cfg assets (int_key ports cfg assets "cg_options_oi_velocity_30d") asset d
            "coinglass_options_oi")))
    z_score ports cfg assets (int_key ports cfg assets "cg_options_oi_velocity_30d")
        (fin_key ports cfg assets "cg_options_oi_velocity_zscore_90d") asset d cutoff 90 30
        "coinglass_options_oi"
    pcr ← query (ports.get_coinglass_options_put_call_ratio_as_of asset d cutoff)
    if_some pcr (
        store ports cfg assets (int_key ports cfg assets "cg_put_call_ratio_daily") asset d
          "coinglass_options_info")
    z_score ports cfg assets (int_key ports cfg assets "cg_put_call_ratio_daily")
        (fin_key ports cfg assets "cg_put_call_ratio_zscore_90d") asset d cutoff 90 30
        "coinglass_options_info"
    max_pain ← query (ports.get_coinglass_options_max_pain_nearest_as_of asset "Deribit" d cutoff)
    if_some max_pain (λ pain. if asset_to_binance_symbol asset == "" then pure tt else do
      spot ← attempt (query (ports.spot_close_as_of (asset_to_binance_symbol asset) d cutoff))
      on_found spot (λ s. if_some (max_pain_distance s pain) (
          store ports cfg assets (int_key ports cfg assets "cg_max_pain_distance_pct_daily") asset d
            "coinglass_options_max_pain")))
    z_score ports cfg assets (int_key ports cfg assets "cg_max_pain_distance_pct_daily")
        (fin_key ports cfg assets "cg_max_pain_distance_pct_zscore_90d") asset d cutoff 90 30
        "coinglass_options_max_pain"
    gex ← compute_gex_net_dealer asset d cutoff
    if_some gex (
        store ports cfg assets (int_key ports cfg assets "gex_net_dealer_daily") asset d
          "deribit_options_chain")
    z_score ports cfg assets (int_key ports cfg assets "gex_net_dealer_daily")
        (fin_key ports cfg assets "gex_net_dealer_zscore_90d") asset d cutoff 90 30
        "deribit_options_chain"
