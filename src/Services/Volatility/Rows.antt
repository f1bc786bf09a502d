-- ===== src/Services/Volatility/Rows.antt =====
-- internal/volatility/port.go: what the providers return and what the repository stores; and the literals
-- of internal/volatility/service.go that make the second of the first.
use marketengine.Prelude.{List, String, Bool}
use marketengine.Prelude.Int.{ℤ}
use marketengine.Float.{Float}
use marketengine.Time.{Time}
use marketengine.Domain.{Asset}

pub record DvolRow (F : Type 0) : Type 0 where
  pub value_date : Time
  pub asset : Asset
  pub dvol_close : F
  pub source_version : String
  pub payload_hash : String

pub record DvolPoint (F : Type 0) : Type 0 where
  pub date : Time
  pub asset : Asset
  pub close : F
  pub payload_hash : String

pub record OptionsSnapshot (F : Type 0) : Type 0 where
  pub asset : Asset
  pub term_slope : F
  pub has_term_slope : Bool
  pub skew : F
  pub has_skew : Bool
  pub num_options : ℤ

pub record CoinglassOptionsInfoPoint (F : Type 0) : Type 0 where
  pub exchange : String
  pub symbol : String
  pub open_interest : F
  pub oi_market_share : F
  pub oi_change_24h : F
  pub open_interest_usd : F
  pub volume_usd_24h : F
  pub volume_change_pct : F
  pub call_open_interest : F
  pub put_open_interest : F
  pub payload_hash : String

pub record CoinglassOptionsInfoRow (F : Type 0) : Type 0 where
  pub value_date : Time
  pub symbol : String
  pub exchange : String
  pub open_interest : F
  pub oi_market_share : F
  pub oi_change_24h : F
  pub open_interest_usd : F
  pub volume_usd_24h : F
  pub volume_change_pct : F
  pub call_open_interest : F
  pub put_open_interest : F
  pub source_version : String
  pub payload_hash : String

pub record CoinglassOptionsOiHistoryPoint (F : Type 0) : Type 0 where
  pub date : Time
  pub exchange : String
  pub symbol : String
  pub open_interest : F
  pub payload_hash : String

pub record CoinglassOptionsOiHistoryRow (F : Type 0) : Type 0 where
  pub value_date : Time
  pub symbol : String
  pub exchange : String
  pub open_interest : F
  pub source_version : String
  pub payload_hash : String

pub record CoinglassOptionsMaxPainPoint (F : Type 0) : Type 0 where
  pub date : Time
  pub symbol : String
  pub exchange : String
  pub max_pain_price : F
  pub call_oi_contracts : F
  pub put_oi_contracts : F
  pub call_oi_notional_usd : F
  pub put_oi_notional_usd : F
  pub call_market_value : F
  pub put_market_value : F
  pub payload_hash : String

pub record CoinglassOptionsMaxPainRow (F : Type 0) : Type 0 where
  pub value_date : Time
  pub expiry_date : Time
  pub symbol : String
  pub exchange : String
  pub max_pain_price : F
  pub call_oi_contracts : F
  pub put_oi_contracts : F
  pub call_oi_notional_usd : F
  pub put_oi_notional_usd : F
  pub call_market_value : F
  pub put_market_value : F
  pub source_version : String
  pub payload_hash : String

pub record DeribitOptionsChainSnapshot (F : Type 0) : Type 0 where
  pub instrument_name : String
  pub expiry_date : Time
  pub strike_price : F
  pub is_put : Bool
  pub open_interest : F
  pub mark_iv_pct : F
  pub underlying_price_usd : F
  pub payload_hash : String

pub record DeribitOptionsChainRow (F : Type 0) : Type 0 where
  pub value_date : Time
  pub asset : Asset
  pub instrument_name : String
  pub expiry_date : Time
  pub strike_price : F
  pub is_put : Bool
  pub open_interest : F
  pub mark_iv_pct : F
  pub underlying_price_usd : F
  pub source_version : String
  pub payload_hash : String

-- the batches that the `Save…` methods of RawRepo take
pub data Row (F : Type 0) : Type 0 where
  dvol : List (DvolRow F) → Row F
  coinglass_options_info : List (CoinglassOptionsInfoRow F) → Row F
  coinglass_options_oi_history : List (CoinglassOptionsOiHistoryRow F) → Row F
  coinglass_options_max_pain : List (CoinglassOptionsMaxPainRow F) → Row F
  deribit_options_chain : List (DeribitOptionsChainRow F) → Row F

-- the rows that the service makes of what the providers return
module _ {F : Type 0} ⦃f : Float F⦄ where
  abbrev pub dvol_row : Asset → DvolPoint F → DvolRow F
  dvol_row asset p = record {
    value_date = p.date;
    asset = asset;
    dvol_close = p.close;
    source_version = "deribit_dvol_v1";
    payload_hash = p.payload_hash;
  }

  abbrev pub coinglass_options_info_row :
      Time → String → CoinglassOptionsInfoPoint F → CoinglassOptionsInfoRow F
  coinglass_options_info_row value_date symbol p = record {
    value_date = value_date;
    symbol = symbol;
    exchange = p.exchange;
    open_interest = p.open_interest;
    oi_market_share = p.oi_market_share;
    oi_change_24h = p.oi_change_24h;
    open_interest_usd = p.open_interest_usd;
    volume_usd_24h = p.volume_usd_24h;
    volume_change_pct = p.volume_change_pct;
    call_open_interest = p.call_open_interest;
    put_open_interest = p.put_open_interest;
    source_version = "coinglass_v4";
    payload_hash = p.payload_hash;
  }

  abbrev pub coinglass_options_oi_history_row :
      String → CoinglassOptionsOiHistoryPoint F → CoinglassOptionsOiHistoryRow F
  coinglass_options_oi_history_row symbol p = record {
    value_date = p.date;
    symbol = symbol;
    exchange = p.exchange;
    open_interest = p.open_interest;
    source_version = "coinglass_v4";
    payload_hash = p.payload_hash;
  }

  abbrev pub coinglass_options_max_pain_row :
      Time → String → CoinglassOptionsMaxPainPoint F → CoinglassOptionsMaxPainRow F
  coinglass_options_max_pain_row value_date symbol p = record {
    value_date = value_date;
    expiry_date = p.date;
    symbol = symbol;
    exchange = p.exchange;
    max_pain_price = p.max_pain_price;
    call_oi_contracts = p.call_oi_contracts;
    put_oi_contracts = p.put_oi_contracts;
    call_oi_notional_usd = p.call_oi_notional_usd;
    put_oi_notional_usd = p.put_oi_notional_usd;
    call_market_value = p.call_market_value;
    put_market_value = p.put_market_value;
    source_version = "coinglass_v4";
    payload_hash = p.payload_hash;
  }

  abbrev pub deribit_options_chain_row :
      Time → Asset → DeribitOptionsChainSnapshot F → DeribitOptionsChainRow F
  deribit_options_chain_row value_date asset p = record {
    value_date = value_date;
    asset = asset;
    instrument_name = p.instrument_name;
    expiry_date = p.expiry_date;
    strike_price = p.strike_price;
    is_put = p.is_put;
    open_interest = p.open_interest;
    mark_iv_pct = p.mark_iv_pct;
    underlying_price_usd = p.underlying_price_usd;
    source_version = "deribit_v1";
    payload_hash = p.payload_hash;
  }
