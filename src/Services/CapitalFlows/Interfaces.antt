-- ===== src/Services/CapitalFlows/Interfaces.antt =====
-- internal/capitalflows/port.go: the interfaces. A provider that may be `nil` is an `Option`.
use marketengine.Prelude.{ℕ, String, Option, List}
use marketengine.Time.{Time}
use marketengine.Errors.{Result}
use marketengine.Domain.{Asset}
use marketengine.Pipeline
use marketengine.Pipeline.{Action}
use marketengine.Services.CapitalFlows.Rows.{
  EtfFlowPoint, LthSupplyPoint, MarketCapPoint, StablecoinMcapPoint, ExchangeBalanceSnapshot,
  BitfinexMarginPoint, EtfListItemPoint, EtfAumHistoryPoint, OptionsMaxPainNearestPoint, Row,
}

abbrev pub History : Type 0 → Type 0
History F = List (Action F (Row F))

pub record EtfFlowProvider (F : Type 0) : Type 0 where
  pub fetch_btc_etf_flows : History F → Result (List (EtfFlowPoint F))
  pub fetch_eth_etf_flows : History F → Result (List (EtfFlowPoint F))

pub record LiquidityFlowProvider (F : Type 0) : Type 0 where
  pub fetch_stablecoin_mcap_history : History F → Result (List (StablecoinMcapPoint F))
  pub fetch_exchange_balance_list : String → History F → Result (List (ExchangeBalanceSnapshot F))
  pub fetch_bitfinex_margin : String → ℕ → History F → Result (List (BitfinexMarginPoint F))

pub record InstitutionalProvider (F : Type 0) : Type 0 where
  pub fetch_etf_list : History F → Result (List (EtfListItemPoint F))
  pub fetch_etf_aum_history : String → History F → Result (List (EtfAumHistoryPoint F))
  pub fetch_options_max_pain :
      String → String → History F → Result (List (OptionsMaxPainNearestPoint F))

-- `base` has the interfaces that all services share
pub record Ports (F : Type 0) : Type 0 where
  pub base : Pipeline.Ports F (Row F)
  pub etf : Option (EtfFlowProvider F)
  pub lth : Option (History F → Result (List (LthSupplyPoint F)))
  pub mcap : Option (History F → Result (List (MarketCapPoint F)))
  pub liquidity : Option (LiquidityFlowProvider F)
  pub inst : Option (InstitutionalProvider F)
  pub combined_etf_flow_as_of : Time → Time → History F → Result (Option F)
  pub get_lth_supply_as_of : Asset → Time → Time → History F → Result F
  pub get_stablecoin_mcap_as_of : Time → Time → History F → Result (Option F)
  pub get_exchange_balance_change_7d_sum_as_of :
      String → Time → Time → History F → Result (Option F)
  pub get_exchange_balance_change_30d_sum_as_of :
      String → Time → Time → History F → Result (Option F)
  pub get_bitfinex_margin_as_of : String → Time → Time → History F → Result (Option (F × F))
  pub get_etf_list_aum_total_as_of : Time → Time → History F → Result (Option F)
  pub get_etf_list_concentration_hhi_as_of : Time → Time → History F → Result (Option F)
  pub get_etf_aum_history_total_as_of : Time → Time → History F → Result (Option F)
  pub get_options_dealer_skew_proxy_as_of :
      String → String → Time → Time → History F → Result (Option F)
