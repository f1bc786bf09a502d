-- ===== src/Services/Liquidity/Interfaces.antt =====
-- The providers and the repository of internal/liquidity/port.go. A provider that may be `nil` is an `Option`.
use marketengine.Prelude.{ℕ, String, Option, List}
use marketengine.Time.{Time}
use marketengine.Errors.{Result}
use marketengine.Domain.{Asset}
use marketengine.Pipeline
use marketengine.Pipeline.{
  Action, Part, str, date, count, score_event, score_saved, or_assets, key_string, if_present,
  with_last, on_success, if_found, if_some, for_each, compute_assets, compute_range, save_rows,
  announce, complete, clock_now, get_latest, save_feature, save_z_score, try_compute_growth,
  try_compute_percentile_rank, latest, latest_number,
}
use marketengine.Services.Liquidity.Rows.{
  StablecoinSupplyPoint, ChainTvlPoint, ExchangeNetflowPoint, MarketCapPoint, Row,
}

abbrev pub History : Type 0 → Type 0
History F = List (Action F (Row F))

pub record StablecoinProvider (F : Type 0) : Type 0 where
  pub fetch_all_stablecoins_chart : History F → Result (List (StablecoinSupplyPoint F))
  pub fetch_per_stablecoin_supply : History F → Result (List (StablecoinSupplyPoint F))

-- the interfaces of port.go; `base` has those that all services share
pub record Ports (F : Type 0) : Type 0 where
  pub base : Pipeline.Ports F (Row F)
  pub stable : Option (StablecoinProvider F)
  pub tvl : Option (String → History F → Result (List (ChainTvlPoint F)))
  pub netflow :
      Option (List Asset → Time → Time → History F → Result (List (ExchangeNetflowPoint F)))
  pub mcap : Option (String → History F → Result (List (MarketCapPoint F)))
  pub get_stablecoin_supply_as_of : String → Time → Time → History F → Result F
  pub sum_stablecoin_supply_as_of : List String → Time → Time → History F → Result (F × ℕ)
  pub get_chain_tvl_as_of : String → Time → Time → History F → Result F
  pub sum_7d_netflow : Asset → Time → Time → History F → Result (Option F)
  pub get_market_cap_as_of : String → Time → Time → History F → Result F
