-- ===== src/Services/Leverage/Rows.antt =====
-- internal/leverage/port.go: what the providers return and what the repository stores; and the literals
-- of internal/leverage/service.go that make the second of the first.
use marketengine.Prelude.{List, String}
use marketengine.Prelude.Int.{ℤ}
use marketengine.Float.{Float}
use marketengine.Time.{Time}
use marketengine.Domain.{Asset}

pub record ExchangeOiRow (F : Type 0) : Type 0 where
  pub value_date : Time
  pub asset : Asset
  pub exchange : String
  pub oi_usd : F
  pub source_version : String
  pub payload_hash : String

pub record ExchangeFundingRow (F : Type 0) : Type 0 where
  pub funding_time : Time
  pub asset : Asset
  pub exchange : String
  pub rate : F
  pub source_version : String
  pub payload_hash : String

pub record CoinglassFuturesBasisRow (F : Type 0) : Type 0 where
  pub value_date : Time
  pub symbol : String
  pub exchange : String
  pub annualized_basis_pct : F
  pub close_basis : F
  pub source_version : String
  pub payload_hash : String

pub record DeribitBasisRow (F : Type 0) : Type 0 where
  pub value_date : Time
  pub asset : Asset
  pub instrument_name : String
  pub futures_price : F
  pub spot_price : F
  pub annualized_basis : F
  pub days_to_expiry : ℤ
  pub source_version : String
  pub payload_hash : String

pub record ExchangeLiquidationsRow (F : Type 0) : Type 0 where
  pub value_date : Time
  pub asset : Asset
  pub exchange : String
  pub long_liqs_usd : F
  pub short_liqs_usd : F
  pub source_version : String
  pub payload_hash : String

pub record OiPoint (F : Type 0) : Type 0 where
  pub date : Time
  pub asset : Asset
  pub oi_usd : F
  pub payload_hash : String

pub record FundingPoint (F : Type 0) : Type 0 where
  pub timestamp : Time
  pub asset : Asset
  pub rate : F
  pub payload_hash : String

pub record BasisSnapshotPoint (F : Type 0) : Type 0 where
  pub date : Time
  pub asset : Asset
  pub instrument_name : String
  pub futures_price : F
  pub spot_price : F
  pub annualized_basis : F
  pub days_to_expiry : ℤ
  pub payload_hash : String

pub record CoinglassOiPoint (F : Type 0) : Type 0 where
  pub date : Time
  pub asset : Asset
  pub exchange : String
  pub oi_usd : F
  pub payload_hash : String

pub record CoinglassBasisPoint (F : Type 0) : Type 0 where
  pub date : Time
  pub asset : Asset
  pub symbol : String
  pub exchange : String
  pub annualized_basis_pct : F
  pub close_basis : F
  pub payload_hash : String

pub record CoinglassLiqPoint (F : Type 0) : Type 0 where
  pub date : Time
  pub asset : Asset
  pub long_liqs_usd : F
  pub short_liqs_usd : F
  pub payload_hash : String

pub record CoinglassLsRatioPoint (F : Type 0) : Type 0 where
  pub date : Time
  pub asset : Asset
  pub exchange : String
  pub long_percent : F
  pub short_percent : F
  pub ratio : F
  pub payload_hash : String

pub record CoinglassLsRatioRow (F : Type 0) : Type 0 where
  pub value_date : Time
  pub symbol : String
  pub exchange : String
  pub long_percent : F
  pub short_percent : F
  pub ratio : F
  pub source_version : String
  pub payload_hash : String

pub record CoinglassTakerVolumePoint (F : Type 0) : Type 0 where
  pub date : Time
  pub asset : Asset
  pub buy_volume_usd : F
  pub sell_volume_usd : F
  pub payload_hash : String

pub record CoinglassTakerVolumeRow (F : Type 0) : Type 0 where
  pub value_date : Time
  pub symbol : String
  pub buy_volume_usd : F
  pub sell_volume_usd : F
  pub source_version : String
  pub payload_hash : String

pub record CoinglassBorrowRatePoint (F : Type 0) : Type 0 where
  pub date : Time
  pub symbol : String
  pub exchange : String
  pub interest_rate : F
  pub payload_hash : String

pub record CoinglassBorrowRateRow (F : Type 0) : Type 0 where
  pub value_date : Time
  pub symbol : String
  pub exchange : String
  pub interest_rate : F
  pub source_version : String
  pub payload_hash : String

-- `LSRatioKind`
pub data LsRatioKind : Type 0 where
  ls_global ls_top_account ls_top_position : LsRatioKind

-- the batches that the `Save…` methods of RawRepo take
pub data Row (F : Type 0) : Type 0 where
  exchange_oi : List (ExchangeOiRow F) → Row F
  exchange_funding : List (ExchangeFundingRow F) → Row F
  coinglass_futures_basis : List (CoinglassFuturesBasisRow F) → Row F
  deribit_basis : DeribitBasisRow F → Row F
  exchange_liquidations : List (ExchangeLiquidationsRow F) → Row F
  coinglass_ls_ratio : LsRatioKind → List (CoinglassLsRatioRow F) → Row F
  coinglass_taker_volume : List (CoinglassTakerVolumeRow F) → Row F
  coinglass_borrow_rate : List (CoinglassBorrowRateRow F) → Row F

-- the rows that the service makes of what the providers return
module _ {F : Type 0} ⦃f : Float F⦄ where
  abbrev pub coinglass_ls_ratio_row : Asset → CoinglassLsRatioPoint F → CoinglassLsRatioRow F
  coinglass_ls_ratio_row asset p = record {
    value_date = p.date;
    symbol = asset;
    exchange = p.exchange;
    long_percent = p.long_percent;
    short_percent = p.short_percent;
    ratio = p.ratio;
    source_version = "coinglass_v4";
    payload_hash = p.payload_hash;
  }

  abbrev pub coinglass_taker_volume_row :
      Asset → CoinglassTakerVolumePoint F → CoinglassTakerVolumeRow F
  coinglass_taker_volume_row asset p = record {
    value_date = p.date;
    symbol = asset;
    buy_volume_usd = p.buy_volume_usd;
    sell_volume_usd = p.sell_volume_usd;
    source_version = "coinglass_v4";
    payload_hash = p.payload_hash;
  }

  abbrev pub coinglass_borrow_rate_row : CoinglassBorrowRatePoint F → CoinglassBorrowRateRow F
  coinglass_borrow_rate_row p = record {
    value_date = p.date;
    symbol = p.symbol;
    exchange = p.exchange;
    interest_rate = p.interest_rate;
    source_version = "coinglass_v4";
    payload_hash = p.payload_hash;
  }

  abbrev pub exchange_oi_row : Asset → String → OiPoint F → ExchangeOiRow F
  exchange_oi_row asset name p = record {
    value_date = p.date;
    asset = asset;
    exchange = name;
    oi_usd = p.oi_usd;
    source_version = "exchange_v1";
    payload_hash = p.payload_hash;
  }

  abbrev pub exchange_funding_row : Asset → String → FundingPoint F → ExchangeFundingRow F
  exchange_funding_row asset name p = record {
    funding_time = p.timestamp;
    asset = asset;
    exchange = name;
    rate = p.rate;
    source_version = "exchange_v1";
    payload_hash = p.payload_hash;
  }

  abbrev pub coinglass_oi_row : Asset → String → CoinglassOiPoint F → ExchangeOiRow F
  coinglass_oi_row asset exch_key p = record {
    value_date = p.date;
    asset = asset;
    exchange = exch_key;
    oi_usd = p.oi_usd;
    source_version = "coinglass_v4";
    payload_hash = p.payload_hash;
  }

  abbrev pub aggregated_oi_row : Asset → CoinglassOiPoint F → ExchangeOiRow F
  aggregated_oi_row asset p = record {
    value_date = p.date;
    asset = asset;
    exchange = "coinglass_aggregated";
    oi_usd = p.oi_usd;
    source_version = "coinglass_v4";
    payload_hash = p.payload_hash;
  }

  abbrev pub coinglass_basis_row : CoinglassBasisPoint F → CoinglassFuturesBasisRow F
  coinglass_basis_row p = record {
    value_date = p.date;
    symbol = p.symbol;
    exchange = p.exchange;
    annualized_basis_pct = p.annualized_basis_pct;
    close_basis = p.close_basis;
    source_version = "coinglass_v4";
    payload_hash = p.payload_hash;
  }

  abbrev pub exchange_liquidations_row :
      Asset → String → CoinglassLiqPoint F → ExchangeLiquidationsRow F
  exchange_liquidations_row asset agg_exchange p = record {
    value_date = p.date;
    asset = asset;
    exchange = agg_exchange;
    long_liqs_usd = p.long_liqs_usd;
    short_liqs_usd = p.short_liqs_usd;
    source_version = "coinglass_v4";
    payload_hash = p.payload_hash;
  }

  abbrev pub deribit_basis_row : Asset → BasisSnapshotPoint F → DeribitBasisRow F
  deribit_basis_row asset snap = record {
    value_date = snap.date;
    asset = asset;
    instrument_name = snap.instrument_name;
    futures_price = snap.futures_price;
    spot_price = snap.spot_price;
    annualized_basis = snap.annualized_basis;
    days_to_expiry = snap.days_to_expiry;
    source_version = "deribit_v1";
    payload_hash = snap.payload_hash;
  }
