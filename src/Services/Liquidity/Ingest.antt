-- ===== src/Services/Liquidity/Ingest.antt =====
-- The `ingest…` methods of internal/liquidity/service.go.
use marketengine.Prelude.{String, List, [], ◌∷◌, length, map}
use marketengine.Float.{Float}
use marketengine.Time.{Time}
use marketengine.Effects.{Eff, query, context, attempt, ◌>>=◌, ◌>>◌}
use marketengine.Domain.{Asset}
use marketengine.Scoring.Liquidity.{Config}
use marketengine.Pipeline.{
  Action, str, date, count, if_present, with_last, on_success, for_each, save_rows, announce,
}
use marketengine.Services.Liquidity.Rows.{
  Row, stablecoin_supply, chain_tvl, exchange_netflow, market_cap, aggregate_supply_row,
  stablecoin_supply_row, chain_tvl_row, exchange_netflow_row, market_cap_row,
}
use marketengine.Services.Liquidity.Interfaces.{Ports}

module _ {F : Type 0} ⦃f : Float F⦄ (ports : Ports F) (cfg : Config F) (assets : List Asset) where
  abbrev pub Step : Type 0 → Type 0
  Step A = Eff (Action F (Row F)) A

  unfoldable pub ingest_stablecoin_supply : Step (Unit {0})
  ingest_stablecoin_supply = if_present ports.stable (λ stable. do
    pts ← query stable.fetch_all_stablecoins_chart
    with_last pts (λ p. do
      save_rows ports.base (stablecoin_supply (map aggregate_supply_row pts))
      announce ports.base (str "raw.liquidity.stablecoin_supply.ingested.v1" ∷ [])
          (str "defillama:" ∷ date p.date ∷ []) (("rows_touched", count (length pts)) ∷ [])))

  unfoldable pub ingest_per_stablecoin_supply : Step (Unit {0})
  ingest_per_stablecoin_supply = if_present ports.stable (λ stable. do
    pts ← query stable.fetch_per_stablecoin_supply
    with_last pts (λ p. do
      save_rows ports.base (stablecoin_supply (map stablecoin_supply_row pts))
      announce ports.base (str "raw.liquidity.per_stablecoin_supply.ingested.v1" ∷ [])
          (str "defillama_per_stablecoin:" ∷ date p.date ∷ [])
          (("rows_touched", count (length pts)) ∷ [])))

  unfoldable pub ingest_chain_tvl : Step (Unit {0})
  ingest_chain_tvl = if_present ports.tvl (λ fetch. do
    pts ← query (fetch "Ethereum")
    with_last pts (λ p. do
      save_rows ports.base (chain_tvl (map chain_tvl_row pts))
      announce ports.base (str "raw.liquidity.tvl.ingested.v1" ∷ [])
          (str "defillama_tvl:" ∷ date p.date ∷ [])
          (("rows_touched", count (length pts)) ∷ ("chain", str "Ethereum") ∷ [])))

  -- an error of the provider is logged and the coin skipped
  unfoldable pub ingest_market_cap : List String → Step (Unit {0})
  ingest_market_cap coin_ids = if_present ports.mcap (λ fetch. for_each coin_ids (λ coin_id. do
    fetched ← attempt (query (fetch coin_id))
    on_success fetched (λ pts. with_last pts (λ p. do
      save_rows ports.base (market_cap (map market_cap_row pts))
      announce ports.base (str "raw.liquidity.market_cap.ingested.v1" ∷ [])
          (str "coingecko:" ∷ str coin_id ∷ str ":" ∷ date p.date ∷ [])
          (("rows_touched", count (length pts)) ∷ ("coin_id", str coin_id) ∷ [])))))

  unfoldable pub ingest_exchange_netflow : Time → Time → Step (Unit {0})
  ingest_exchange_netflow start end = if_present ports.netflow (λ fetch. do
    pts ← query (fetch assets start end)
    with_last pts (λ p. do
      save_rows ports.base (exchange_netflow (map exchange_netflow_row pts))
      announce ports.base (str "raw.liquidity.exchange_netflow.ingested.v1" ∷ [])
          (str "coinmetrics:" ∷ date p.date ∷ []) (("rows_touched", count (length pts)) ∷ [])))

  unfoldable pub ingest_all : Time → Time → Step (Unit {0})
  ingest_all from to = do
    context "ingest supply" ingest_stablecoin_supply
    context "ingest per-stablecoin supply" ingest_per_stablecoin_supply
    context "ingest tvl" ingest_chain_tvl
    context "ingest market_cap" (ingest_market_cap ("ethereum" ∷ []))
    context "ingest netflow" (ingest_exchange_netflow from to)
