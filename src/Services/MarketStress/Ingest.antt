-- ===== src/Services/MarketStress/Ingest.antt =====
-- The `ingest…` methods of internal/marketstress/service.go.
use marketengine.Prelude.{List, [], ◌∷◌, length, map}
use marketengine.Float.{Float}
use marketengine.Time.{Time}
use marketengine.Effects.{Eff, query, context, attempt, ◌>>=◌, ◌>>◌}
use marketengine.Domain.{Asset}
use marketengine.Scoring.MarketStress.{Config}
use marketengine.Pipeline.{
  Action, str, count, if_present, with_last, on_success, for_each, save_rows, announce,
}
use marketengine.Services.MarketStress.Rows.{
  Row, binance_klines, kraken_ohlc, coinbase_candles, coinglass_coinbase_premium,
  coinglass_orderbook_aggregated, coinglass_futures_spot_vol_ratio, binance_kline_row,
  kraken_ohlc_row, coinbase_candle_row, coinglass_coinbase_premium_row, coinglass_orderbook_row,
  coinglass_futures_spot_vol_ratio_row,
}
use marketengine.Services.MarketStress.Interfaces.{Ports, kline_symbols, kraken_pairs}

module _ {F : Type 0} ⦃f : Float F⦄ (ports : Ports F) (cfg : Config F) (assets : List Asset) where
  abbrev pub Step : Type 0 → Type 0
  Step A = Eff (Action F (Row F)) A

  unfoldable pub ingest_klines : Time → Time → Step (Unit {0})
  ingest_klines from to = if_present ports.binance (λ fetch. for_each kline_symbols (λ sym. do
    pts ← context "binance klines" (query (fetch sym "1d" from to))
    with_last pts (λ _. do
      save_rows ports.base (binance_klines (map (binance_kline_row sym) pts))
      announce ports.base (str "raw.market_stress.klines.ingested.v1" ∷ [])
          (str "binance:" ∷ str sym ∷ [])
          (("rows", count (length pts)) ∷ ("symbol", str sym) ∷ []))))

  unfoldable pub ingest_kraken_ohlc : Time → Step (Unit {0})
  ingest_kraken_ohlc from = if_present ports.kraken (λ fetch. for_each kraken_pairs (λ pair. do
    pts ← context "kraken OHLC" (query (fetch pair 1_440 from))
    with_last pts (λ _. do
      save_rows ports.base (kraken_ohlc (map (kraken_ohlc_row pair) pts))
      announce ports.base (str "raw.market_stress.kraken.ingested.v1" ∷ [])
          (str "kraken:" ∷ str pair ∷ [])
          (("rows", count (length pts)) ∷ ("pair", str pair) ∷ []))))

  unfoldable pub ingest_coinbase_candles : Time → Time → Step (Unit {0})
  ingest_coinbase_candles from to = if_present ports.coinbase (λ fetch. do
    pts ← context "coinbase candles" (query (fetch "BTC-USD" from to 86_400))
    with_last pts (λ _. do
      save_rows ports.base (coinbase_candles (map coinbase_candle_row pts))
      announce ports.base (str "raw.market_stress.coinbase.ingested.v1" ∷ [])
          (str "coinbase:BTC-USD" ∷ []) (("rows", count (length pts)) ∷ [])))

  unfoldable pub ingest_coinbase_premium : Step (Unit {0})
  ingest_coinbase_premium = if_present ports.coinglass (λ fetch. do
    pts ← context "coinglass coinbase premium" (query (fetch 1_000))
    with_last pts (λ _. do
      save_rows ports.base (coinglass_coinbase_premium (map coinglass_coinbase_premium_row pts))
      announce ports.base (str "raw.market_stress.coinglass_coinbase_premium.ingested.v1" ∷ [])
          (str "coinglass:coinbase_premium" ∷ []) (("rows", count (length pts)) ∷ [])))

  unfoldable pub ingest_coinglass_micro : Step (Unit {0})
  ingest_coinglass_micro = if_present ports.cg_micro (λ cg. for_each assets (λ sym. do
    book ← attempt (query (cg.fetch_orderbook_bid_ask sym 1_000 0 0))
    on_success book (λ pts. with_last pts (λ _. do
      context "save orderbook" (
          save_rows ports.base
            (coinglass_orderbook_aggregated (map (coinglass_orderbook_row sym) pts)))
      announce ports.base (str "raw.market_stress.orderbook.coinglass.ingested.v1" ∷ [])
          (str sym ∷ str ":orderbook" ∷ [])
          (("rows", count (length pts)) ∷ ("asset", str sym) ∷ [])))
    ratio ← attempt (query (cg.fetch_futures_spot_vol_ratio sym 1_000 0 0))
    on_success ratio (λ pts. with_last pts (λ _. do
      context "save futures/spot ratio" (
          save_rows ports.base
            (coinglass_futures_spot_vol_ratio (map (coinglass_futures_spot_vol_ratio_row sym) pts)))
      announce ports.base (str "raw.market_stress.futures_spot_ratio.coinglass.ingested.v1" ∷ [])
          (str sym ∷ str ":futures_spot_ratio" ∷ [])
          (("rows", count (length pts)) ∷ ("asset", str sym) ∷ [])))))

  unfoldable pub ingest_all : Time → Time → Step (Unit {0})
  unfolding ingest_klines ingest_kraken_ohlc ingest_coinbase_candles ingest_coinbase_premium
      ingest_coinglass_micro
  ingest_all from to = do
    context "ingest klines" (ingest_klines from to)
    context "ingest kraken" (ingest_kraken_ohlc from)
    context "ingest coinbase" (ingest_coinbase_candles from to)
    context "ingest coinglass coinbase premium" ingest_coinbase_premium
    context "ingest coinglass micro" ingest_coinglass_micro
