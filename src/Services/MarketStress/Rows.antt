-- ===== src/Services/MarketStress/Rows.antt =====
-- internal/marketstress/port.go: what the providers return and what the repository stores; and the literals
-- of internal/marketstress/service.go that make the second of the first.
use marketengine.Prelude.{List, String}
use marketengine.Float.{Float, of_ℕ}
use marketengine.Time.{Time}

pub record BinanceKlineRow (F : Type 0) : Type 0 where
  pub value_date : Time
  pub symbol : String
  pub close : F
  pub volume : F
  pub source_version : String
  pub payload_hash : String

pub record BinanceKlinePoint (F : Type 0) : Type 0 where
  pub open_time : Time
  pub close : F
  pub payload_hash : String

pub record KrakenOhlcRow (F : Type 0) : Type 0 where
  pub value_date : Time
  pub pair : String
  pub open_price : F
  pub high : F
  pub low : F
  pub close : F
  pub volume : F
  pub source_version : String
  pub payload_hash : String

pub record KrakenOhlcPoint (F : Type 0) : Type 0 where
  pub date : Time
  pub open_price : F
  pub high : F
  pub low : F
  pub close : F
  pub volume : F
  pub payload_hash : String

pub record CoinbaseCandleRow (F : Type 0) : Type 0 where
  pub value_date : Time
  pub product_id : String
  pub close : F
  pub volume : F
  pub source_version : String
  pub payload_hash : String

pub record CoinbaseCandlePoint (F : Type 0) : Type 0 where
  pub date : Time
  pub product_id : String
  pub close : F
  pub volume : F
  pub payload_hash : String

pub record CoinglassCoinbasePremiumRow (F : Type 0) : Type 0 where
  pub value_date : Time
  pub premium_usd : F
  pub premium_rate : F
  pub coinbase_price : F
  pub source_version : String
  pub payload_hash : String

pub record CoinbasePremiumPoint (F : Type 0) : Type 0 where
  pub date : Time
  pub premium_usd : F
  pub premium_rate : F
  pub coinbase_price : F
  pub payload_hash : String

pub record CoinglassOrderbookPoint (F : Type 0) : Type 0 where
  pub date : Time
  pub symbol : String
  pub bids_usd : F
  pub bids_qty : F
  pub asks_usd : F
  pub asks_qty : F
  pub payload_hash : String

pub record CoinglassOrderbookRow (F : Type 0) : Type 0 where
  pub value_date : Time
  pub symbol : String
  pub range_pct : String
  pub bids_usd : F
  pub bids_qty : F
  pub asks_usd : F
  pub asks_qty : F
  pub source_version : String
  pub payload_hash : String

pub record CoinglassFuturesSpotVolRatioPoint (F : Type 0) : Type 0 where
  pub date : Time
  pub symbol : String
  pub futures_spot_ratio : F
  pub futures_vol_usd : F
  pub spot_vol_usd : F
  pub payload_hash : String

pub record CoinglassFuturesSpotVolRatioRow (F : Type 0) : Type 0 where
  pub value_date : Time
  pub symbol : String
  pub futures_spot_ratio : F
  pub futures_vol_usd : F
  pub spot_vol_usd : F
  pub source_version : String
  pub payload_hash : String

-- the batches that the `Save…` methods of RawRepo take
pub data Row (F : Type 0) : Type 0 where
  binance_klines : List (BinanceKlineRow F) → Row F
  kraken_ohlc : List (KrakenOhlcRow F) → Row F
  coinbase_candles : List (CoinbaseCandleRow F) → Row F
  coinglass_coinbase_premium : List (CoinglassCoinbasePremiumRow F) → Row F
  coinglass_orderbook_aggregated : List (CoinglassOrderbookRow F) → Row F
  coinglass_futures_spot_vol_ratio : List (CoinglassFuturesSpotVolRatioRow F) → Row F

-- the rows that the service makes of what the providers return
module _ {F : Type 0} ⦃f : Float F⦄ where
  abbrev pub coinglass_orderbook_row : String → CoinglassOrderbookPoint F → CoinglassOrderbookRow F
  coinglass_orderbook_row symbol p = record {
    value_date = p.date;
    symbol = symbol;
    range_pct = "1";
    bids_usd = p.bids_usd;
    bids_qty = p.bids_qty;
    asks_usd = p.asks_usd;
    asks_qty = p.asks_qty;
    source_version = "coinglass_v4";
    payload_hash = p.payload_hash;
  }

  abbrev pub coinglass_futures_spot_vol_ratio_row :
      String → CoinglassFuturesSpotVolRatioPoint F → CoinglassFuturesSpotVolRatioRow F
  coinglass_futures_spot_vol_ratio_row symbol p = record {
    value_date = p.date;
    symbol = symbol;
    futures_spot_ratio = p.futures_spot_ratio;
    futures_vol_usd = p.futures_vol_usd;
    spot_vol_usd = p.spot_vol_usd;
    source_version = "coinglass_v4";
    payload_hash = p.payload_hash;
  }

  abbrev pub binance_kline_row : String → BinanceKlinePoint F → BinanceKlineRow F
  binance_kline_row symbol p = record {
    value_date = p.open_time;
    symbol = symbol;
    close = p.close;
    volume = of_ℕ 0;
    source_version = "binance_spot_v1";
    payload_hash = p.payload_hash;
  }

  abbrev pub kraken_ohlc_row : String → KrakenOhlcPoint F → KrakenOhlcRow F
  kraken_ohlc_row pair p = record {
    value_date = p.date;
    pair = pair;
    open_price = p.open_price;
    high = p.high;
    low = p.low;
    close = p.close;
    volume = p.volume;
    source_version = "kraken_v1";
    payload_hash = p.payload_hash;
  }

  abbrev pub coinbase_candle_row : CoinbaseCandlePoint F → CoinbaseCandleRow F
  coinbase_candle_row p = record {
    value_date = p.date;
    product_id = p.product_id;
    close = p.close;
    volume = p.volume;
    source_version = "coinbase_v1";
    payload_hash = p.payload_hash;
  }

  abbrev pub coinglass_coinbase_premium_row : CoinbasePremiumPoint F → CoinglassCoinbasePremiumRow F
  coinglass_coinbase_premium_row p = record {
    value_date = p.date;
    premium_usd = p.premium_usd;
    premium_rate = p.premium_rate;
    coinbase_price = p.coinbase_price;
    source_version = "coinglass_v4";
    payload_hash = p.payload_hash;
  }
