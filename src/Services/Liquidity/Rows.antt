-- ===== src/Services/Liquidity/Rows.antt =====
-- internal/liquidity/port.go: what the providers return and what the repository stores; and the literals
-- of internal/liquidity/service.go that make the second of the first.
use marketengine.Prelude.{List, String, Option}
use marketengine.Float.{Float}
use marketengine.Time.{Time}
use marketengine.Domain.{Asset}

pub record StablecoinSupplyRow (F : Type 0) : Type 0 where
  pub value_date : Time
  pub stablecoin : String
  pub metric : String
  pub value : F
  pub source_version : String
  pub payload_hash : String

pub record StablecoinSupplyPoint (F : Type 0) : Type 0 where
  pub date : Time
  pub symbol : String
  pub circulating_usd : F
  pub payload_hash : String

pub record ChainTvlRow (F : Type 0) : Type 0 where
  pub value_date : Time
  pub chain : String
  pub tvl_usd : F
  pub source_version : String
  pub payload_hash : String

pub record ChainTvlPoint (F : Type 0) : Type 0 where
  pub date : Time
  pub tvl_usd : F
  pub payload_hash : String

pub record ExchangeNetflowRow (F : Type 0) : Type 0 where
  pub value_date : Time
  pub asset : Asset
  pub inflow_usd : Option F
  pub outflow_usd : Option F
  pub netflow_usd : Option F
  pub source_version : String
  pub payload_hash : String

pub record ExchangeNetflowPoint (F : Type 0) : Type 0 where
  pub date : Time
  pub asset : Asset
  pub inflow_usd : Option F
  pub outflow_usd : Option F
  pub netflow_usd : Option F
  pub payload_hash : String

pub record MarketCapRow (F : Type 0) : Type 0 where
  pub value_date : Time
  pub coin_id : String
  pub market_cap_usd : F
  pub price_usd : F
  pub source_version : String
  pub payload_hash : String

pub record MarketCapPoint (F : Type 0) : Type 0 where
  pub date : Time
  pub coin_id : String
  pub market_cap_usd : F
  pub price_usd : F
  pub payload_hash : String

-- the batches that the `Save…` methods of RawRepo take
pub data Row (F : Type 0) : Type 0 where
  stablecoin_supply : List (StablecoinSupplyRow F) → Row F
  chain_tvl : List (ChainTvlRow F) → Row F
  exchange_netflow : List (ExchangeNetflowRow F) → Row F
  market_cap : List (MarketCapRow F) → Row F

-- the rows that the service makes of what the providers return
module _ {F : Type 0} ⦃f : Float F⦄ where
  abbrev pub aggregate_supply_row : StablecoinSupplyPoint F → StablecoinSupplyRow F
  aggregate_supply_row p = record {
    value_date = p.date;
    stablecoin = "AGGREGATE";
    metric = "circulating_supply_usd";
    value = p.circulating_usd;
    source_version = "defillama_v1";
    payload_hash = p.payload_hash;
  }

  abbrev pub stablecoin_supply_row : StablecoinSupplyPoint F → StablecoinSupplyRow F
  stablecoin_supply_row p = record {
    value_date = p.date;
    stablecoin = p.symbol;
    metric = "circulating_supply_usd";
    value = p.circulating_usd;
    source_version = "defillama_v1";
    payload_hash = p.payload_hash;
  }

  abbrev pub chain_tvl_row : ChainTvlPoint F → ChainTvlRow F
  chain_tvl_row p = record {
    value_date = p.date;
    chain = "Ethereum";
    tvl_usd = p.tvl_usd;
    source_version = "defillama_v1";
    payload_hash = p.payload_hash;
  }

  abbrev pub market_cap_row : MarketCapPoint F → MarketCapRow F
  market_cap_row p = record {
    value_date = p.date;
    coin_id = p.coin_id;
    market_cap_usd = p.market_cap_usd;
    price_usd = p.price_usd;
    source_version = "coingecko_v1";
    payload_hash = p.payload_hash;
  }

  abbrev pub exchange_netflow_row : ExchangeNetflowPoint F → ExchangeNetflowRow F
  exchange_netflow_row p = record {
    value_date = p.date;
    asset = p.asset;
    inflow_usd = p.inflow_usd;
    outflow_usd = p.outflow_usd;
    netflow_usd = p.netflow_usd;
    source_version = "coinmetrics_v1";
    payload_hash = p.payload_hash;
  }
