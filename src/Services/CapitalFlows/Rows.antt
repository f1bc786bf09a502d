-- ===== src/Services/CapitalFlows/Rows.antt =====
-- internal/capitalflows/port.go: what the providers return and what the repository stores; and the literals
-- of internal/capitalflows/service.go that make the second of the first.
use marketengine.Prelude.{List, String}
use marketengine.Float.{Float}
use marketengine.Time.{Time}
use marketengine.Domain.{Asset, asset_btc}

pub record EtfFlowRow (F : Type 0) : Type 0 where
  pub value_date : Time
  pub flow_type : String
  pub total_flow_usd : F
  pub price_usd : F
  pub source_version : String
  pub payload_hash : String

pub record EtfFlowPoint (F : Type 0) : Type 0 where
  pub date : Time
  pub total_flow_usd : F
  pub price_usd : F
  pub payload_hash : String

pub record LthSupplyRow (F : Type 0) : Type 0 where
  pub value_date : Time
  pub asset : Asset
  pub lth_supply : F
  pub source_version : String
  pub payload_hash : String

pub record LthSupplyPoint (F : Type 0) : Type 0 where
  pub date : Time
  pub lth_supply : F
  pub price_usd : F
  pub payload_hash : String

pub record MarketCapRow (F : Type 0) : Type 0 where
  pub value_date : Time
  pub coin_id : String
  pub market_cap_usd : F
  pub price_usd : F
  pub source_version : String
  pub payload_hash : String

pub record MarketCapPoint (F : Type 0) : Type 0 where
  pub date : Time
  pub market_cap_usd : F
  pub price_usd : F
  pub payload_hash : String

pub record StablecoinMcapPoint (F : Type 0) : Type 0 where
  pub date : Time
  pub market_cap : F
  pub price_usd : F
  pub payload_hash : String

pub record StablecoinMcapRow (F : Type 0) : Type 0 where
  pub value_date : Time
  pub market_cap : F
  pub price_usd : F
  pub source_version : String
  pub payload_hash : String

pub record ExchangeBalanceSnapshot (F : Type 0) : Type 0 where
  pub exchange : String
  pub symbol : String
  pub total_balance : F
  pub balance_change_1d : F
  pub balance_change_7d : F
  pub balance_change_30d : F
  pub balance_change_pct_1d : F
  pub balance_change_pct_7d : F
  pub balance_change_pct_30d : F
  pub payload_hash : String

pub record ExchangeBalanceRow (F : Type 0) : Type 0 where
  pub value_date : Time
  pub symbol : String
  pub exchange : String
  pub total_balance : F
  pub balance_change_1d : F
  pub balance_change_7d : F
  pub balance_change_30d : F
  pub balance_change_pct_1d : F
  pub balance_change_pct_7d : F
  pub balance_change_pct_30d : F
  pub source_version : String
  pub payload_hash : String

pub record BitfinexMarginPoint (F : Type 0) : Type 0 where
  pub time : Time
  pub symbol : String
  pub long_qty : F
  pub short_qty : F
  pub payload_hash : String

pub record BitfinexMarginRow (F : Type 0) : Type 0 where
  pub value_date : Time
  pub symbol : String
  pub long_qty : F
  pub short_qty : F
  pub source_version : String
  pub payload_hash : String

pub record EtfListItemPoint (F : Type 0) : Type 0 where
  pub ticker : String
  pub fund_name : String
  pub region : String
  pub market_status : String
  pub primary_exchange : String
  pub fund_type : String
  pub shares_outstanding : F
  pub aum_usd : F
  pub management_fee_pct : F
  pub volume_usd : F
  pub price_change_pct : F
  pub net_asset_value_usd : F
  pub premium_discount_pct : F
  pub holding_quantity : F
  pub change_pct_24h : F
  pub change_qty_24h : F
  pub change_pct_7d : F
  pub change_qty_7d : F
  pub update_date : String
  pub payload_hash : String

pub record EtfListItemRow (F : Type 0) : Type 0 where
  pub value_date : Time
  pub ticker : String
  pub fund_name : String
  pub region : String
  pub market_status : String
  pub primary_exchange : String
  pub fund_type : String
  pub shares_outstanding : F
  pub aum_usd : F
  pub management_fee_pct : F
  pub volume_usd : F
  pub price_change_pct : F
  pub net_asset_value_usd : F
  pub premium_discount_pct : F
  pub holding_quantity : F
  pub change_pct_24h : F
  pub change_qty_24h : F
  pub change_pct_7d : F
  pub change_qty_7d : F
  pub source_version : String
  pub payload_hash : String

pub record EtfAumHistoryPoint (F : Type 0) : Type 0 where
  pub date : Time
  pub ticker : String
  pub aum_usd : F
  pub payload_hash : String

pub record EtfAumHistoryRow (F : Type 0) : Type 0 where
  pub value_date : Time
  pub ticker : String
  pub aum_usd : F
  pub source_version : String
  pub payload_hash : String

pub record OptionsMaxPainNearestPoint (F : Type 0) : Type 0 where
  pub expiry_date : Time
  pub symbol : String
  pub exchange : String
  pub max_pain_price : F
  pub call_oi_contracts : F
  pub put_oi_contracts : F
  pub call_oi_notional_usd : F
  pub put_oi_notional_usd : F
  pub call_market_value_usd : F
  pub put_market_value_usd : F
  pub payload_hash : String

pub record OptionsMaxPainRow (F : Type 0) : Type 0 where
  pub value_date : Time
  pub expiry_date : Time
  pub symbol : String
  pub exchange : String
  pub max_pain_price : F
  pub call_oi_contracts : F
  pub put_oi_contracts : F
  pub call_oi_notional_usd : F
  pub put_oi_notional_usd : F
  pub call_market_value_usd : F
  pub put_market_value_usd : F
  pub source_version : String
  pub payload_hash : String

-- the batches that the `Save…` methods of RawRepo take
pub data Row (F : Type 0) : Type 0 where
  etf_flows : List (EtfFlowRow F) → Row F
  lth_supply : List (LthSupplyRow F) → Row F
  btc_market_cap : List (MarketCapRow F) → Row F
  stablecoin_mcap : List (StablecoinMcapRow F) → Row F
  exchange_balance : List (ExchangeBalanceRow F) → Row F
  bitfinex_margin : List (BitfinexMarginRow F) → Row F
  etf_list_snapshot : List (EtfListItemRow F) → Row F
  etf_aum_history : List (EtfAumHistoryRow F) → Row F
  options_max_pain_nearest : List (OptionsMaxPainRow F) → Row F

-- the rows that the service makes of what the providers return
module _ {F : Type 0} ⦃f : Float F⦄ where
  abbrev pub etf_list_item_row : Time → EtfListItemPoint F → EtfListItemRow F
  etf_list_item_row today p = record {
    value_date = today;
    ticker = p.ticker;
    fund_name = p.fund_name;
    region = p.region;
    market_status = p.market_status;
    primary_exchange = p.primary_exchange;
    fund_type = p.fund_type;
    shares_outstanding = p.shares_outstanding;
    aum_usd = p.aum_usd;
    management_fee_pct = p.management_fee_pct;
    volume_usd = p.volume_usd;
    price_change_pct = p.price_change_pct;
    net_asset_value_usd = p.net_asset_value_usd;
    premium_discount_pct = p.premium_discount_pct;
    holding_quantity = p.holding_quantity;
    change_pct_24h = p.change_pct_24h;
    change_qty_24h = p.change_qty_24h;
    change_pct_7d = p.change_pct_7d;
    change_qty_7d = p.change_qty_7d;
    source_version = "coinglass_v4";
    payload_hash = p.payload_hash;
  }

  abbrev pub etf_aum_history_row : String → EtfAumHistoryPoint F → EtfAumHistoryRow F
  etf_aum_history_row ticker p = record {
    value_date = p.date;
    ticker = ticker;
    aum_usd = p.aum_usd;
    source_version = "coinglass_v4";
    payload_hash = p.payload_hash;
  }

  abbrev pub options_max_pain_row : Time → OptionsMaxPainNearestPoint F → OptionsMaxPainRow F
  options_max_pain_row today p = record {
    value_date = today;
    expiry_date = p.expiry_date;
    symbol = p.symbol;
    exchange = p.exchange;
    max_pain_price = p.max_pain_price;
    call_oi_contracts = p.call_oi_contracts;
    put_oi_contracts = p.put_oi_contracts;
    call_oi_notional_usd = p.call_oi_notional_usd;
    put_oi_notional_usd = p.put_oi_notional_usd;
    call_market_value_usd = p.call_market_value_usd;
    put_market_value_usd = p.put_market_value_usd;
    source_version = "coinglass_v4";
    payload_hash = p.payload_hash;
  }

  abbrev pub stablecoin_mcap_row : StablecoinMcapPoint F → StablecoinMcapRow F
  stablecoin_mcap_row p = record {
    value_date = p.date;
    market_cap = p.market_cap;
    price_usd = p.price_usd;
    source_version = "coinglass_v4";
    payload_hash = p.payload_hash;
  }

  abbrev pub exchange_balance_row : Time → String → ExchangeBalanceSnapshot F → ExchangeBalanceRow F
  exchange_balance_row today symbol p = record {
    value_date = today;
    symbol = symbol;
    exchange = p.exchange;
    total_balance = p.total_balance;
    balance_change_1d = p.balance_change_1d;
    balance_change_7d = p.balance_change_7d;
    balance_change_30d = p.balance_change_30d;
    balance_change_pct_1d = p.balance_change_pct_1d;
    balance_change_pct_7d = p.balance_change_pct_7d;
    balance_change_pct_30d = p.balance_change_pct_30d;
    source_version = "coinglass_v4";
    payload_hash = p.payload_hash;
  }

  abbrev pub bitfinex_margin_row : String → BitfinexMarginPoint F → BitfinexMarginRow F
  bitfinex_margin_row symbol p = record {
    value_date = p.time;
    symbol = symbol;
    long_qty = p.long_qty;
    short_qty = p.short_qty;
    source_version = "coinglass_v4";
    payload_hash = p.payload_hash;
  }

  abbrev pub etf_flow_row : String → EtfFlowPoint F → EtfFlowRow F
  etf_flow_row flow_type p = record {
    value_date = p.date;
    flow_type = flow_type;
    total_flow_usd = p.total_flow_usd;
    price_usd = p.price_usd;
    source_version = "coinglass_v4";
    payload_hash = p.payload_hash;
  }

  abbrev pub lth_supply_row : LthSupplyPoint F → LthSupplyRow F
  lth_supply_row p = record {
    value_date = p.date;
    asset = asset_btc;
    lth_supply = p.lth_supply;
    source_version = "coinglass_v4";
    payload_hash = p.payload_hash;
  }

  abbrev pub market_cap_row : MarketCapPoint F → MarketCapRow F
  market_cap_row p = record {
    value_date = p.date;
    coin_id = "bitcoin";
    market_cap_usd = p.market_cap_usd;
    price_usd = p.price_usd;
    source_version = "coinglass_v4";
    payload_hash = p.payload_hash;
  }
