-- ===== src/Services/MarketStress/Interfaces.antt =====
-- The providers and the repository of internal/marketstress/port.go. A provider that may be `nil` is an `Option`.
use marketengine.Prelude.{ℕ, String, Option, List, [], ◌∷◌}
use marketengine.Time.{Time}
use marketengine.Errors.{Result}
use marketengine.Domain.{Asset}
use marketengine.Pipeline
use marketengine.Pipeline.{
  Action, Part, str, count, or_assets, key_string, is_not_found, none_if_missing, if_present,
  with_last, on_success, if_some, for_each, compute_assets, compute_range, save_rows, announce,
  complete, clock_now, save_feature, save_z_score, latest_number,
}
use marketengine.Services.MarketStress.Rows.{
  BinanceKlinePoint, KrakenOhlcPoint, CoinbaseCandlePoint, CoinbasePremiumPoint,
  CoinglassOrderbookPoint, CoinglassFuturesSpotVolRatioPoint, Row,
}

abbrev pub History : Type 0 → Type 0
History F = List (Action F (Row F))

pub record CoinglassMicroProvider (F : Type 0) : Type 0 where
  pub fetch_orderbook_bid_ask :
      String → ℕ → Time → Time → History F → Result (List (CoinglassOrderbookPoint F))
  pub fetch_futures_spot_vol_ratio :
      String → ℕ → Time → Time → History F → Result (List (CoinglassFuturesSpotVolRatioPoint F))

-- the interfaces of port.go; `base` has those that all services share
pub record Ports (F : Type 0) : Type 0 where
  pub base : Pipeline.Ports F (Row F)
  pub binance :
      Option (String → String → Time → Time → History F → Result (List (BinanceKlinePoint F)))
  pub kraken : Option (String → ℕ → Time → History F → Result (List (KrakenOhlcPoint F)))
  pub coinbase :
      Option (String → Time → Time → ℕ → History F → Result (List (CoinbaseCandlePoint F)))
  pub coinglass : Option (ℕ → History F → Result (List (CoinbasePremiumPoint F)))
  pub cg_micro : Option (CoinglassMicroProvider F)
  pub get_basis_3m_daily_any_version : Option (Asset → Time → Time → History F → Result F)
  pub get_binance_kline_close_series : String → Time → Time → Time → History F → Result (List F)
  pub get_binance_kline_close_as_of : String → Time → Time → History F → Result F
  pub get_kraken_close_as_of : String → Time → Time → History F → Result F
  pub get_coinbase_close_as_of : String → Time → Time → History F → Result F
  pub get_coinglass_coinbase_premium_rate_as_of : Time → Time → History F → Result F
  pub get_orderbook_imbalance_as_of : String → Time → Time → History F → Result (Option F)
  pub get_futures_spot_ratio_as_of : String → Time → Time → History F → Result (Option F)

abbrev pub kline_symbols : List String
kline_symbols =
    "BTCUSDT" ∷ "ETHUSDT" ∷ "SOLUSDT" ∷ "BNBUSDT" ∷ "XRPUSDT" ∷ "ADAUSDT" ∷ "DOGEUSDT" ∷ []

abbrev pub kraken_pairs : List String
kraken_pairs = "USDTUSD" ∷ "USDCUSD" ∷ []

abbrev pub alt_symbols : List String
alt_symbols = "ETHUSDT" ∷ "SOLUSDT" ∷ "BNBUSDT" ∷ "XRPUSDT" ∷ "ADAUSDT" ∷ "DOGEUSDT" ∷ []

-- the sources of the features
abbrev pub spot_source : String × String
spot_source = ("binance_spot_v1", "binance_spot_v1")

abbrev pub kraken_source : String × String
kraken_source = ("kraken_v1", "kraken_v1")

abbrev pub coinglass_source : String × String
coinglass_source = ("coinglass_v4", "coinglass_v4")

abbrev pub book_source : String × String
book_source = ("coinglass_orderbook", "coinglass_v4")

abbrev pub futures_source : String × String
futures_source = ("coinglass_futures_spot", "coinglass_v4")
