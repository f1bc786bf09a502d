-- ===== src/Services/MarketStress.antt =====
-- internal/marketstress/service.go. A provider that may be `nil` is an `Option`; Kraken gets the start
-- of its range in Unix seconds, which is the same instant.
pub mod Rows
pub mod Run
pub mod Interfaces
pub mod Ingest
pub mod Features
use marketengine.Prelude.{
  ℕ, ◌+◌, String, ◌==◌, Option, none, some, List, [], ◌∷◌, ◌++◌, ltb, length, map, if◌then◌else◌,
}
use marketengine.Float.{Float}
use marketengine.Time.{Time, day, utc_day, sub_days, after}
use marketengine.Errors.{Result, ok, err, message}
use marketengine.Effects.{Eff, pure, raise, query, context, attempt, ◌>>=◌, ◌>>◌}
use marketengine.Domain.{Asset, asset_global, assets_tradeable, FeatureKey, DomainScore}
use marketengine.Scoring.MarketStress.{Config, ScoreInputs, defaults, compute_score}
use marketengine.Scoring.Features.{
  log_returns, avg_btc_alt_correlation, peg_deviation_scaled, coinbase_premium_abs,
  basis_inversion_depth,
}
use marketengine.Pipeline
use marketengine.Pipeline.{
  Action, Part, str, count, or_assets, key_string, is_not_found, none_if_missing, if_present,
  with_last, on_success, if_some, for_each, compute_assets, compute_range, save_rows, announce,
  complete, clock_now, save_feature, save_z_score, latest_number,
}
use marketengine.Services.MarketStress.Rows.{
  BinanceKlinePoint, KrakenOhlcPoint, CoinbaseCandlePoint, CoinbasePremiumPoint,
  CoinglassOrderbookPoint, CoinglassFuturesSpotVolRatioPoint, Row, binance_klines, kraken_ohlc,
  coinbase_candles, coinglass_coinbase_premium, coinglass_orderbook_aggregated,
  coinglass_futures_spot_vol_ratio, binance_kline_row, kraken_ohlc_row, coinbase_candle_row,
  coinglass_coinbase_premium_row, coinglass_orderbook_row, coinglass_futures_spot_vol_ratio_row,
}
use Interfaces.{Ports}
use Ingest.{ingest_klines, ingest_all}
use Features.{fin_key, compute_global_features, compute_asset_features}

module _ {F : Type 0} ⦃f : Float F⦄ (ports : Ports F) (cfg : Config F) (assets : List Asset) where
  abbrev pub Step : Type 0 → Type 0
  Step A = Eff (Action F (Row F)) A

  unfoldable pub gather_score_inputs : Asset → Time → Time → Step (ScoreInputs F)
  unfolding key_string
  gather_score_inputs asset d cutoff = do
    corr ←
        latest_number ports.base (fin_key ports cfg assets "btc_alt_correlation_zscore_180d")
          asset_global d cutoff
    peg ←
        latest_number ports.base (fin_key ports cfg assets "stablecoin_peg_stress_score")
          asset_global d cutoff
    cb ←
        latest_number ports.base (fin_key ports cfg assets "coinbase_premium_abs_zscore_90d")
          asset_global d cutoff
    basis ←
        latest_number ports.base (fin_key ports cfg assets "basis_inversion_depth_zscore_180d")
          asset d cutoff
    book ←
        latest_number ports.base (fin_key ports cfg assets "book_imbalance_zscore_90d") asset d
          cutoff
    fs ←
        latest_number ports.base (fin_key ports cfg assets "futures_spot_ratio_zscore_90d") asset d
          cutoff
    pure (record {
      asset = asset;
      value_date = d;
      z_correlation = corr;
      z_peg = peg;
      z_coinbase = cb;
      z_basis = basis;
      z_book_imbalance = book;
      z_futures_spot_ratio = fs;
      feature_codes_used =
          key_string (fin_key ports cfg assets "btc_alt_correlation_zscore_180d")
          ∷ key_string (fin_key ports cfg assets "stablecoin_peg_stress_score")
          ∷ key_string (fin_key ports cfg assets "coinbase_premium_abs_zscore_90d")
          ∷ key_string (fin_key ports cfg assets "basis_inversion_depth_zscore_180d")
          ∷ key_string (fin_key ports cfg assets "book_imbalance_zscore_90d")
          ∷ key_string (fin_key ports cfg assets "futures_spot_ratio_zscore_90d")
          ∷ [];
    })

  abbrev pub completion : Asset → Time → DomainScore F → Pipeline.ScoreEvent F
  completion asset d score = record {
    topic = "scores.market_stress.completed.v1";
    asset = asset;
    value_date = d;
    score = score.score;
    post_etf = none;
    model_version = cfg.model_version;
    config_version = cfg.config_version;
  }

  unfoldable pub compute_asset_day : Asset → Time → Time → Step (Unit {0})
  unfolding compute_asset_features gather_score_inputs
  compute_asset_day asset d cutoff = do
    compute_asset_features ports cfg assets asset d cutoff
    inp ← context "gather score inputs" (gather_score_inputs asset d cutoff)
    let score = compute_score inp cfg
    complete ports.base score (completion asset d score)

  unfoldable pub compute_day : Time → Time → Step (Unit {0})
  unfolding compute_global_features compute_asset_day compute_assets
  compute_day d cutoff = do
    context "global features" (compute_global_features ports cfg assets d cutoff)
    compute_assets compute_asset_day assets d cutoff

  unfoldable pub run_once : Time → Step (Unit {0})
  unfolding ingest_all compute_day compute_range clock_now
  run_once value_date = do
    let d = utc_day value_date
    ingest_all ports cfg assets (sub_days d 210) d
    cutoff ← clock_now ports.base
    compute_range compute_day d d cutoff

  unfoldable pub run_backfill : Time → Time → Step (Unit {0})
  unfolding ingest_all compute_day compute_range clock_now
  run_backfill from to =
      if after (utc_day from) (utc_day to) then raise (message "backfill from after to") else do
        ingest_all ports cfg assets (sub_days (utc_day from) 210) (utc_day to)
        now ← clock_now ports.base
        compute_range compute_day (utc_day from) (utc_day to) (now + day)

  unfoldable pub backfill_klines : Time → Time → Step (Unit {0})
  unfolding ingest_klines
  backfill_klines from to =
      if after (utc_day from) (utc_day to)
      then raise (message "backfill klines from after to")
      else ingest_klines ports cfg assets (utc_day from) (utc_day to)

unfoldable pub new_service :
    {F : Type 0} ⦃f : Float F⦄ → Config F → List Asset → Config F × List Asset
unfolding defaults
new_service cfg assets = (defaults cfg, or_assets assets assets_tradeable)
