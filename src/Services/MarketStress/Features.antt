-- ===== src/Services/MarketStress/Features.antt =====
-- The features of a day in internal/marketstress/service.go.
use marketengine.Prelude.{
  ℕ, String, Option, none, some, List, [], ◌∷◌, ◌++◌, ltb, length, if◌then◌else◌,
}
use marketengine.Float.{Float}
use marketengine.Time.{Time, sub_days}
use marketengine.Errors.{Result, ok, err}
use marketengine.Effects.{Eff, pure, query, attempt, ◌>>=◌, ◌>>◌}
use marketengine.Domain.{Asset, asset_global, FeatureKey}
use marketengine.Scoring.MarketStress.{Config}
use marketengine.Scoring.Features.{
  log_returns, avg_btc_alt_correlation, peg_deviation_scaled, coinbase_premium_abs,
  basis_inversion_depth,
}
use marketengine.Pipeline.{Action, none_if_missing, if_some, save_feature, save_z_score}
use marketengine.Services.MarketStress.Rows.{Row}
use marketengine.Services.MarketStress.Interfaces.{
  History, Ports, alt_symbols, spot_source, kraken_source, coinglass_source, book_source,
  futures_source,
}

module _ {F : Type 0} ⦃f : Float F⦄ (ports : Ports F) (cfg : Config F) (assets : List Asset) where
  abbrev pub Step : Type 0 → Type 0
  Step A = Eff (Action F (Row F)) A

  -- `getBinanceClose`, `getKrakenClose` and `getCoinbaseClose`
  unfoldable pub close_or_none : (History F → Result F) → Step (Option F)
  close_or_none answer = do r ← attempt (query answer); none_if_missing r

  abbrev add_returns : Result (List F) → List (List F) → List (List F)
  add_returns (ok prices) lists = lists ++ log_returns prices ∷ []
  add_returns (err e) lists = lists

  -- the loop over the symbols: a symbol whose series fails is left out
  unfoldable pub read_alts : Time → Time → Time → List String → List (List F) → Step (List (List F))
  read_alts from d cutoff [] lists = pure lists
  read_alts from d cutoff (sym ∷ syms) lists = do
    r ← attempt (query (ports.get_binance_kline_close_series sym from d cutoff))
    read_alts from d cutoff syms (add_returns r lists)

  unfoldable pub compute_btc_alt_correlation : Time → Time → Step (Option F)
  unfolding read_alts
  compute_btc_alt_correlation d cutoff = do
    let from = sub_days d 30
    btc ← query (ports.get_binance_kline_close_series "BTCUSDT" from d cutoff)
    if ltb (length btc) 20 then pure none else do
      alts ← read_alts from d cutoff alt_symbols []
      pure (avg_btc_alt_correlation (log_returns btc) alts)

  unfoldable pub compute_peg_deviation : Time → Time → Step (Option F)
  unfolding close_or_none
  compute_peg_deviation d cutoff = do
    usdt ← close_or_none (ports.get_kraken_close_as_of "USDTUSD" d cutoff)
    usdc ← close_or_none (ports.get_kraken_close_as_of "USDCUSD" d cutoff)
    pure (peg_deviation_scaled usdt usdc)

  abbrev premium_of : Option F → Option F → Option F
  premium_of (some cb) (some bin) = coinbase_premium_abs cb bin
  premium_of none bin = none
  premium_of (some cb) none = none

  -- after the rate of Coinglass
  abbrev pub premium_from : Time → Time → Option F → Step (Option F)
  premium_from d cutoff (some rate) = pure (some (f.abs rate))
  premium_from d cutoff none = do
    cb ← close_or_none (ports.get_coinbase_close_as_of "BTC-USD" d cutoff)
    bin ← close_or_none (ports.get_binance_kline_close_as_of "BTCUSDT" d cutoff)
    pure (premium_of cb bin)

  unfoldable pub compute_coinbase_premium_abs : Time → Time → Step (Option F)
  unfolding close_or_none
  compute_coinbase_premium_abs d cutoff = do
    rate ← close_or_none (ports.get_coinglass_coinbase_premium_rate_as_of d cutoff)
    premium_from d cutoff rate

  abbrev depth_of : Option F → Option F
  depth_of none = none
  depth_of (some basis) = some (basis_inversion_depth basis)

  abbrev pub depth_from :
      Option (Asset → Time → Time → History F → Result F) → Asset → Time → Time → Step (Option F)
  depth_from none asset d cutoff = pure none
  depth_from (some get) asset d cutoff = do
    basis ← close_or_none (get asset d cutoff)
    pure (depth_of basis)

  unfoldable pub compute_basis_inversion_depth : Asset → Time → Time → Step (Option F)
  unfolding close_or_none
  compute_basis_inversion_depth asset d cutoff =
      depth_from ports.get_basis_3m_daily_any_version asset d cutoff

  abbrev basis_source : String × String
  basis_source = ("leverage_basis", cfg.leverage_basis_version)

  abbrev int_key : String → FeatureKey
  int_key name = record { name = name; version = cfg.intermediate_version }

  abbrev pub fin_key : String → FeatureKey
  fin_key name = record { name = name; version = cfg.final_version }

  -- `saveFeature`; `saveGlobalFeature` gives `sourceVersionFor(srcName)`, which is `srcName`
  unfoldable pub store : FeatureKey → Asset → Time → String × String → F → Step (Unit {0})
  store k asset d src v = save_feature ports.base cfg.code_sha k asset d v src.0 src.1

  unfoldable pub z_score :
      FeatureKey → FeatureKey → Asset → Time → Time → ℕ → ℕ → String × String → Step (Unit {0})
  z_score from to asset d cutoff window min_obs src =
      save_z_score ports.base cfg.code_sha from to asset d cutoff window min_obs src.0 src.1

  unfoldable pub compute_global_features : Time → Time → Step (Unit {0})
  unfolding store z_score compute_btc_alt_correlation compute_peg_deviation
      compute_coinbase_premium_abs
  compute_global_features d cutoff = do
    corr ← compute_btc_alt_correlation d cutoff
    if_some corr (store (int_key "btc_alt_correlation_30d") asset_global d spot_source)
    peg ← compute_peg_deviation d cutoff
    if_some peg (store (int_key "peg_deviation_daily") asset_global d kraken_source)
    prem ← compute_coinbase_premium_abs d cutoff
    if_some prem (store (int_key "coinbase_premium_abs_daily") asset_global d coinglass_source)
    z_score (int_key "btc_alt_correlation_30d") (fin_key "btc_alt_correlation_zscore_180d")
        asset_global d cutoff 180 30 spot_source
    z_score (int_key "peg_deviation_daily") (fin_key "stablecoin_peg_stress_score") asset_global d
        cutoff 180 30 kraken_source
    z_score (int_key "coinbase_premium_abs_daily") (fin_key "coinbase_premium_abs_zscore_90d")
        asset_global d cutoff 90 30 coinglass_source

  -- the features of `computeAssetDay`
  unfoldable pub compute_asset_features : Asset → Time → Time → Step (Unit {0})
  unfolding store z_score compute_basis_inversion_depth
  compute_asset_features asset d cutoff = do
    depth ← compute_basis_inversion_depth asset d cutoff
    if_some depth (store (int_key "basis_inversion_depth_daily") asset d basis_source)
    z_score (int_key "basis_inversion_depth_daily") (fin_key "basis_inversion_depth_zscore_180d")
        asset d cutoff 180 30 basis_source
    imbalance ← query (ports.get_orderbook_imbalance_as_of asset d cutoff)
    if_some imbalance (store (int_key "book_imbalance_daily") asset d book_source)
    z_score (int_key "book_imbalance_daily") (fin_key "book_imbalance_zscore_90d") asset d cutoff 90
        30 book_source
    ratio ← query (ports.get_futures_spot_ratio_as_of asset d cutoff)
    if_some ratio (store (int_key "futures_spot_ratio_daily") asset d futures_source)
    z_score (int_key "futures_spot_ratio_daily") (fin_key "futures_spot_ratio_zscore_90d") asset d
        cutoff 90 30 futures_source
