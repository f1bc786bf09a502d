-- ===== src/Services/Leverage/Ingest.antt =====
-- The `ingest…` methods of internal/leverage/service.go.
use marketengine.Prelude.{◌||◌, String, List, [], ◌∷◌, length, map, ltb, if◌then◌else◌}
use Prim.Native.String.{◌++◌ as concat}
use marketengine.Float.{Float}
use marketengine.Time.{Time, utc_day, after}
use marketengine.Effects.{Eff, query, context, attempt, ◌>>=◌, ◌>>◌}
use marketengine.Domain.{Asset}
use marketengine.Pipeline.{
  Action, str, count, if_present, with_last, on_success, for_each, save_rows, announce,
}
use marketengine.Services.Leverage.Rows.{
  CoinglassOiPoint, LsRatioKind, ls_global, ls_top_account, ls_top_position, Row, exchange_oi,
  exchange_funding, coinglass_futures_basis, deribit_basis, exchange_liquidations,
  coinglass_ls_ratio, coinglass_taker_volume, coinglass_borrow_rate, coinglass_ls_ratio_row,
  coinglass_taker_volume_row, coinglass_borrow_rate_row, exchange_oi_row, exchange_funding_row,
  coinglass_oi_row, aggregated_oi_row, coinglass_basis_row, exchange_liquidations_row,
  deribit_basis_row,
}
use marketengine.Services.Leverage.Interfaces.{Ports, CoinglassOiProvider, CoinglassCrowdProvider}
use marketengine.Services.Leverage.Pages.{backfill_aggregated}

abbrev crowd_exchanges : List String
crowd_exchanges = "Binance" ∷ "OKX" ∷ "Bybit" ∷ []

abbrev kind_string : LsRatioKind → String
kind_string ls_global = "global"
kind_string ls_top_account = "top_account"
kind_string ls_top_position = "top_position"

module _ {F : Type 0} where
  -- if p.Date.Before(fromDay) || p.Date.After(toDay) { continue }
  unfoldable pub in_range : Time → Time → List (CoinglassOiPoint F) → List (CoinglassOiPoint F)
  in_range from to [] = []
  in_range from to (p ∷ ps) =
      let rest = in_range from to ps in
      if ltb p.date from || after p.date to then rest else p ∷ rest

module _ {F : Type 0} ⦃f : Float F⦄ (ports : Ports F) (assets : List Asset) where
  abbrev pub Step : Type 0 → Type 0
  Step A = Eff (Action F (Row F)) A

  unfoldable pub ingest_exchange_oi : Time → Time → Step (Unit {0})
  ingest_exchange_oi from to = for_each ports.oi_providers (λ (name, fetch).
      for_each assets (λ asset. do
        pts ← context "OI" (query (fetch asset from to))
        with_last pts (λ _. do
          context "save OI"
              (save_rows ports.base (exchange_oi (map (exchange_oi_row asset name) pts)))
          announce ports.base (str "raw.leverage.oi." ∷ str name ∷ str ".ingested.v1" ∷ [])
              (str asset ∷ str ":" ∷ str name ∷ [])
              (("rows", count (length pts)) ∷ ("asset", str asset) ∷ []))))

  unfoldable pub ingest_exchange_funding : Time → Time → Step (Unit {0})
  ingest_exchange_funding from to = for_each ports.funding_prov (λ (name, fetch).
      for_each assets (λ asset. do
        pts ← context "funding" (query (fetch asset from to))
        with_last pts (λ _. do
          context "save funding"
              (save_rows ports.base (exchange_funding (map (exchange_funding_row asset name) pts)))
          announce ports.base (str "raw.leverage.funding." ∷ str name ∷ str ".ingested.v1" ∷ [])
              (str asset ∷ str ":" ∷ str name ∷ [])
              (("rows", count (length pts)) ∷ ("asset", str asset) ∷ []))))

  unfoldable pub ingest_deribit_basis : Step (Unit {0})
  ingest_deribit_basis = if_present ports.basis_prov (λ fetch. for_each assets (λ asset. do
    fetched ← attempt (query (fetch asset))
    on_success fetched (λ snap.
        context "save deribit basis"
          (save_rows ports.base (deribit_basis (deribit_basis_row asset snap))))))

  -- the loop of `ingestCoinglassOI` over the exchanges
  unfoldable pub ingest_exchange_histories :
      CoinglassOiProvider F → Time → Time → Asset → Step (Unit {0})
  unfolding in_range
  ingest_exchange_histories cg from to asset = for_each ("Binance" ∷ "Bybit" ∷ "OKX" ∷ []) (λ exch.
      do
        fetched ← attempt (query (cg.fetch_oi_history asset exch 2_000))
        on_success fetched (λ pts.
            let rows =
              map (coinglass_oi_row asset (concat "coinglass_" exch)) (in_range from to pts) in
            with_last rows (λ _. do
              context "save coinglass OI" (save_rows ports.base (exchange_oi rows))
              announce ports.base
                  (str "raw.leverage.oi.coinglass_" ∷ str exch ∷ str ".ingested.v1" ∷ [])
                  (str asset ∷ str ":coinglass_" ∷ str exch ∷ [])
                  (("rows", count (length rows))
                    ∷ ("asset", str asset)
                    ∷ ("exchange", str exch)
                    ∷ []))))

  unfoldable pub backfill_aggregated_oi :
      CoinglassOiProvider F → Asset → Step (List (CoinglassOiPoint F))
  unfolding backfill_aggregated
  backfill_aggregated_oi cg asset =
      backfill_aggregated (λ p. p.date)
        (λ end. query (cg.fetch_aggregated_oi_history_range asset 0 end 1_000))

  unfoldable pub ingest_coinglass_oi : Time → Time → Step (Unit {0})
  unfolding ingest_exchange_histories backfill_aggregated_oi
  ingest_coinglass_oi from to = if_present ports.cg_oi (λ cg. for_each assets (λ asset. do
    ingest_exchange_histories cg (utc_day from) (utc_day to) asset
    aggregated ← attempt (backfill_aggregated_oi cg asset)
    on_success aggregated (λ pts. with_last pts (λ _. do
      context "save coinglass aggregated OI"
          (save_rows ports.base (exchange_oi (map (aggregated_oi_row asset) pts)))
      announce ports.base (str "raw.leverage.oi.coinglass_aggregated.ingested.v1" ∷ [])
          (str asset ∷ str ":coinglass_aggregated" ∷ [])
          (("rows", count (length pts)) ∷ ("asset", str asset) ∷ [])))))

  unfoldable pub ingest_coinglass_basis : Step (Unit {0})
  ingest_coinglass_basis = if_present ports.cg_basis (λ fetch. for_each assets (λ asset. do
    fetched ← attempt (query (fetch asset "Binance" 1_000))
    on_success fetched (λ pts. with_last pts (λ _. do
      context "save coinglass basis"
          (save_rows ports.base (coinglass_futures_basis (map coinglass_basis_row pts)))
      announce ports.base (str "raw.leverage.coinglass_futures_basis.ingested.v1" ∷ [])
          (str asset ∷ str ":coinglass_basis" ∷ [])
          (("rows", count (length pts)) ∷ ("asset", str asset) ∷ [])))))

  -- a fetch that fails ends the run here; no exchanges (`nil`) means all
  unfoldable pub ingest_coinglass_liquidations : Step (Unit {0})
  unfolding backfill_aggregated
  ingest_coinglass_liquidations = if_present ports.cg_liq (λ fetch. for_each assets (λ asset. do
    pts ←
        context "coinglass aggregated liquidations"
          (backfill_aggregated (λ p. p.date) (λ end. query (fetch asset [] 0 end 1_000)))
    with_last pts (λ _. do
      context "save coinglass liquidations" (
          save_rows ports.base (
            exchange_liquidations
              (map (exchange_liquidations_row asset "coinglass_aggregated") pts)))
      announce ports.base (str "raw.leverage.liquidations.coinglass_aggregated.ingested.v1" ∷ [])
          (str asset ∷ str ":coinglass_aggregated" ∷ [])
          (("rows", count (length pts)) ∷ ("asset", str asset) ∷ []))))

  -- the three parts of the loop of `ingestCoinglassCrowd`
  unfoldable pub ingest_ratios : CoinglassCrowdProvider F → Asset → Step (Unit {0})
  ingest_ratios cg asset = for_each (ls_global ∷ ls_top_account ∷ ls_top_position ∷ []) (λ kind.
      for_each crowd_exchanges (λ exch. do
        fetched ← attempt (query (cg.fetch_ls_ratio kind asset exch 1_000))
        on_success fetched (λ pts. with_last pts (λ _. do
          context "save L/S" (
              save_rows ports.base
                (coinglass_ls_ratio kind (map (coinglass_ls_ratio_row asset) pts)))
          announce ports.base
              (str "raw.leverage.long_short."
                ∷ str (kind_string kind)
                ∷ str ".coinglass_"
                ∷ str exch
                ∷ str ".ingested.v1"
                ∷ [])
              (str asset ∷ str ":" ∷ str (kind_string kind) ∷ str ":" ∷ str exch ∷ [])
              (("rows", count (length pts)) ∷ ("asset", str asset) ∷ [])))))

  unfoldable pub ingest_taker_volume : CoinglassCrowdProvider F → Asset → Step (Unit {0})
  ingest_taker_volume cg asset = do
    fetched ← attempt (query (cg.fetch_aggregated_taker_volume asset [] 1_000))
    on_success fetched (λ pts. with_last pts (λ _. do
      context "save taker volume" (
          save_rows ports.base
            (coinglass_taker_volume (map (coinglass_taker_volume_row asset) pts)))
      announce ports.base (str "raw.leverage.taker_volume.coinglass_aggregated.ingested.v1" ∷ [])
          (str asset ∷ str ":taker_volume" ∷ [])
          (("rows", count (length pts)) ∷ ("asset", str asset) ∷ [])))

  unfoldable pub ingest_borrow_rates : CoinglassCrowdProvider F → Step (Unit {0})
  ingest_borrow_rates cg = for_each crowd_exchanges (λ exch. do
    fetched ← attempt (query (cg.fetch_borrow_rate "USDT" exch 1_000))
    on_success fetched (λ pts. with_last pts (λ _.
        context "save borrow rate USDT"
          (save_rows ports.base (coinglass_borrow_rate (map coinglass_borrow_rate_row pts))))))

  unfoldable pub ingest_coinglass_crowd : Step (Unit {0})
  unfolding ingest_ratios ingest_taker_volume ingest_borrow_rates
  ingest_coinglass_crowd = if_present ports.cg_crowd (λ cg.
      for_each assets
        (λ asset. do ingest_ratios cg asset; ingest_taker_volume cg asset; ingest_borrow_rates cg))

  unfoldable pub ingest_all : Time → Time → Step (Unit {0})
  unfolding ingest_exchange_oi ingest_exchange_funding ingest_deribit_basis ingest_coinglass_oi
      ingest_coinglass_basis ingest_coinglass_liquidations ingest_coinglass_crowd
  ingest_all from to = do
    context "ingest oi" (ingest_exchange_oi from to)
    context "ingest funding" (ingest_exchange_funding from to)
    context "ingest deribit basis" ingest_deribit_basis
    context "ingest coinglass oi" (ingest_coinglass_oi from to)
    context "ingest coinglass basis" ingest_coinglass_basis
    context "ingest coinglass liquidations" ingest_coinglass_liquidations
    context "ingest coinglass crowd" ingest_coinglass_crowd
