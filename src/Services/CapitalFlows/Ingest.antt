-- ===== src/Services/CapitalFlows/Ingest.antt =====
-- The `ingest…` methods of internal/capitalflows/service.go.
use marketengine.Prelude.{ℕ, zero, suc, String, List, [], ◌∷◌, length, map, if◌then◌else◌}
use marketengine.Float.{Float, ◌≤?◌, of_ℕ}
use marketengine.Time.{Time, utc_day}
use marketengine.Effects.{Eff, query, context, attempt, ◌>>=◌, ◌>>◌}
use marketengine.Pipeline.{
  Action, str, date, count, if_present, with_last, on_success, for_each, save_rows, announce,
  clock_now,
}
use marketengine.Services.CapitalFlows.Rows.{
  EtfFlowPoint, EtfListItemPoint, EtfAumHistoryPoint, Row, etf_flows, lth_supply, btc_market_cap,
  stablecoin_mcap, exchange_balance, bitfinex_margin, etf_list_snapshot, etf_aum_history,
  options_max_pain_nearest, etf_list_item_row, etf_aum_history_row, options_max_pain_row,
  stablecoin_mcap_row, exchange_balance_row, bitfinex_margin_row, etf_flow_row, lth_supply_row,
  market_cap_row,
}
use marketengine.Services.CapitalFlows.Interfaces.{
  Ports, LiquidityFlowProvider, InstitutionalProvider,
}

-- the first `n` of a list
abbrev pub first {ℓ} : {A : Type ℓ} → ℕ → List A → List A
first zero xs = []
first (suc n) [] = []
first (suc n) (x ∷ xs) = x ∷ first n xs

module _ {F : Type 0} ⦃f : Float F⦄ where
  -- if p.AUMUSD <= 0 { continue }
  unfoldable pub positive_aum : List (EtfAumHistoryPoint F) → List (EtfAumHistoryPoint F)
  positive_aum [] = []
  positive_aum (p ∷ ps) =
      let rest = positive_aum ps in if p.aum_usd ≤? of_ℕ 0 then rest else p ∷ rest

module _ {F : Type 0} ⦃f : Float F⦄ (ports : Ports F) where
  abbrev pub Step : Type 0 → Type 0
  Step A = Eff (Action F (Row F)) A

  -- `writeETFFlows`
  unfoldable pub write_etf_flows : String → List (EtfFlowPoint F) → Step (Unit {0})
  write_etf_flows flow_type pts = with_last pts (λ p. do
    save_rows ports.base (etf_flows (map (etf_flow_row flow_type) pts))
    announce ports.base (str "raw.capital_flows.etf_" ∷ str flow_type ∷ str ".ingested.v1" ∷ [])
        (str "coinglass_etf:" ∷ str flow_type ∷ str ":" ∷ date p.date ∷ [])
        (("rows_touched", count (length pts)) ∷ ("flow_type", str flow_type) ∷ []))

  unfoldable pub ingest_etf_flows : Step (Unit {0})
  unfolding write_etf_flows
  ingest_etf_flows = if_present ports.etf (λ etf. do
    btc ← context "fetch BTC ETF flows" (query etf.fetch_btc_etf_flows)
    write_etf_flows "BTC" btc
    eth ← context "fetch ETH ETF flows" (query etf.fetch_eth_etf_flows)
    write_etf_flows "ETH" eth)

  unfoldable pub ingest_lth_supply : Step (Unit {0})
  ingest_lth_supply = if_present ports.lth (λ fetch. do
    pts ← context "fetch LTH supply" (query fetch)
    with_last pts (λ p. do
      save_rows ports.base (lth_supply (map lth_supply_row pts))
      announce ports.base (str "raw.capital_flows.lth_supply.ingested.v1" ∷ [])
          (str "coinglass_lth:BTC:" ∷ date p.date ∷ [])
          (("rows_touched", count (length pts)) ∷ [])))

  unfoldable pub ingest_btc_market_cap : Step (Unit {0})
  ingest_btc_market_cap = if_present ports.mcap (λ fetch. do
    fetched ← attempt (query fetch)
    on_success fetched (λ pts. with_last pts (λ p. do
      save_rows ports.base (btc_market_cap (map market_cap_row pts))
      announce ports.base (str "raw.capital_flows.btc_market_cap.ingested.v1" ∷ [])
          (str "coinglass_mcap:bitcoin:" ∷ date p.date ∷ [])
          (("rows_touched", count (length pts)) ∷ []))))

  -- the loops of `ingestLiquidityFlow`
  unfoldable pub ingest_balances : LiquidityFlowProvider F → Time → Step (Unit {0})
  ingest_balances flow today = for_each ("BTC" ∷ "ETH" ∷ "USDT(ETH)" ∷ "USDC" ∷ []) (λ sym. do
    fetched ← attempt (query (flow.fetch_exchange_balance_list sym))
    on_success fetched (λ snaps. with_last snaps (λ _. do
      context "save exchange balance"
          (save_rows ports.base (exchange_balance (map (exchange_balance_row today sym) snaps)))
      announce ports.base (str "raw.capital_flows.exchange_balance.ingested.v1" ∷ [])
          (str sym ∷ str ":exchange_balance" ∷ [])
          (("rows", count (length snaps)) ∷ ("symbol", str sym) ∷ []))))

  unfoldable pub ingest_margins : LiquidityFlowProvider F → Step (Unit {0})
  ingest_margins flow = for_each ("BTC" ∷ "ETH" ∷ []) (λ sym. do
    fetched ← attempt (query (flow.fetch_bitfinex_margin sym 1_000))
    on_success fetched (λ pts. with_last pts (λ _. do
      context "save bitfinex margin"
          (save_rows ports.base (bitfinex_margin (map (bitfinex_margin_row sym) pts)))
      announce ports.base (str "raw.capital_flows.bitfinex_margin.ingested.v1" ∷ [])
          (str sym ∷ str ":bitfinex_margin" ∷ [])
          (("rows", count (length pts)) ∷ ("symbol", str sym) ∷ []))))

  unfoldable pub ingest_liquidity_flow : Step (Unit {0})
  unfolding ingest_balances ingest_margins
  ingest_liquidity_flow = if_present ports.liquidity (λ flow. do
    mcaps ← attempt (query flow.fetch_stablecoin_mcap_history)
    on_success mcaps (λ pts. with_last pts (λ _. do
      context "save stablecoin mcap"
          (save_rows ports.base (stablecoin_mcap (map stablecoin_mcap_row pts)))
      announce ports.base (str "raw.capital_flows.stablecoin_mcap.ingested.v1" ∷ [])
          (str "GLOBAL:stablecoin_mcap" ∷ []) (("rows", count (length pts)) ∷ [])))
    now ← clock_now ports.base
    ingest_balances flow (utc_day now)
    ingest_margins flow)

  -- the loops of `ingestInstitutional`: over the first five tickers, and over the symbols
  unfoldable pub ingest_aum_histories :
      InstitutionalProvider F → List (EtfListItemPoint F) → Step (Unit {0})
  unfolding positive_aum
  ingest_aum_histories inst items = for_each (map (λ p. p.ticker) (first 5 items)) (λ ticker. do
    fetched ← attempt (query (inst.fetch_etf_aum_history ticker))
    on_success fetched (λ pts. with_last pts (λ _. context "save etf aum history" (
        save_rows ports.base
          (etf_aum_history (map (etf_aum_history_row ticker) (positive_aum pts)))))))

  unfoldable pub ingest_max_pains : InstitutionalProvider F → Time → Step (Unit {0})
  ingest_max_pains inst today = for_each ("BTC" ∷ "ETH" ∷ []) (λ sym. do
    fetched ← attempt (query (inst.fetch_options_max_pain sym "Deribit"))
    on_success fetched (λ pts. with_last pts (λ _.
        context "save max pain" (
          save_rows ports.base (options_max_pain_nearest (map (options_max_pain_row today) pts))))))

  unfoldable pub ingest_institutional : Step (Unit {0})
  unfolding ingest_aum_histories ingest_max_pains
  ingest_institutional = if_present ports.inst (λ inst. do
    now ← clock_now ports.base
    list ← attempt (query inst.fetch_etf_list)
    on_success list (λ items. with_last items (λ _. do
      context "save etf list"
          (save_rows ports.base (etf_list_snapshot (map (etf_list_item_row (utc_day now)) items)))
      announce ports.base (str "raw.capital_flows.etf_list.ingested.v1" ∷ [])
          (str "GLOBAL:etf_list" ∷ []) (("rows", count (length items)) ∷ [])
      ingest_aum_histories inst items))
    ingest_max_pains inst (utc_day now))

  unfoldable pub ingest_all : Step (Unit {0})
  unfolding ingest_etf_flows ingest_lth_supply ingest_btc_market_cap ingest_liquidity_flow
      ingest_institutional
  ingest_all = do
    context "ingest etf flows" ingest_etf_flows
    context "ingest lth supply" ingest_lth_supply
    context "ingest btc market cap" ingest_btc_market_cap
    context "ingest liquidity flow" ingest_liquidity_flow
    context "ingest institutional" ingest_institutional
