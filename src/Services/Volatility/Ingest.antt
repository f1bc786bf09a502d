-- ===== src/Services/Volatility/Ingest.antt =====
-- The `ingest…` methods of internal/volatility/service.go.
use marketengine.Prelude.{
  ℕ, ◌+◌, String, not, ◌&&◌, ◌==◌, List, [], ◌∷◌, length, map, if◌then◌else◌,
}
use marketengine.Float.{Float}
use marketengine.Time.{Time, day}
use marketengine.Effects.{Eff, pure, query, context, attempt, ◌>>=◌, ◌>>◌}
use marketengine.Domain.{Asset, FeatureKey}
use marketengine.Scoring.Volatility.{Config}
use marketengine.Pipeline.{
  Action, str, date, count, integer, truth, if_present, with_last, on_success, for_each, save_rows,
  announce, save_feature, save_z_score,
}
use marketengine.Services.Volatility.Rows.{
  Row, dvol, coinglass_options_info, coinglass_options_oi_history, coinglass_options_max_pain,
  deribit_options_chain, dvol_row, coinglass_options_info_row, coinglass_options_oi_history_row,
  coinglass_options_max_pain_row, deribit_options_chain_row,
}
use marketengine.Services.Volatility.Interfaces.{Ports}

unfoldable source_version : String → String
source_version src =
    if src == "deribit_dvol"
    then "deribit_dvol_v1"
    else if src == "deribit_options"
    then "deribit_options_v1"
    else if src == "binance_klines"
    then "binance_spot_v1"
    else ""

module _ {F : Type 0} ⦃f : Float F⦄ (ports : Ports F) (cfg : Config F) (assets : List Asset) where
  abbrev pub Step : Type 0 → Type 0
  Step A = Eff (Action F (Row F)) A

  unfoldable pub ingest_dvol : Time → Time → Step (Unit {0})
  ingest_dvol from to = if_present ports.dvol (λ fetch. for_each assets (λ asset. do
    fetched ← attempt (query (fetch asset from (to + day)))
    on_success fetched (λ pts. with_last pts (λ p. do
      context "save dvol" (save_rows ports.base (dvol (map (dvol_row asset) pts)))
      announce ports.base (str "raw.volatility.dvol.ingested.v1" ∷ [])
          (str asset ∷ str ":dvol:" ∷ date p.date ∷ [])
          (("rows", count (length pts)) ∷ ("asset", str asset) ∷ [])))))

  abbrev pub int_key : String → FeatureKey
  int_key name = record { name = name; version = cfg.intermediate_version }

  abbrev pub fin_key : String → FeatureKey
  fin_key name = record { name = name; version = cfg.final_version }

  -- `saveFeature`
  unfoldable pub store : FeatureKey → Asset → Time → String → F → Step (Unit {0})
  unfolding source_version
  store k asset d src v = save_feature ports.base cfg.code_sha k asset d v src (source_version src)

  unfoldable pub z_score :
      FeatureKey → FeatureKey → Asset → Time → Time → ℕ → ℕ → String → Step (Unit {0})
  unfolding source_version
  z_score from to asset d cutoff window min_obs src =
      save_z_score ports.base cfg.code_sha from to asset d cutoff window min_obs src
        (source_version src)

  unfoldable pub ingest_options_snapshot : Time → Step (Unit {0})
  unfolding store
  ingest_options_snapshot d = if_present ports.options (λ fetch. for_each assets (λ asset. do
    fetched ← attempt (query (fetch asset))
    on_success fetched (λ snap. if not snap.has_term_slope && not snap.has_skew then pure tt else do
      if snap.has_term_slope
          then store (int_key "iv_term_slope_daily") asset d "deribit_options" snap.term_slope
          else pure tt
      if snap.has_skew
          then store (int_key "iv_skew_daily") asset d "deribit_options" snap.skew
          else pure tt
      announce ports.base (str "raw.volatility.options.ingested.v1" ∷ [])
          (str asset ∷ str ":options:" ∷ date d ∷ [])
          (("asset", str asset)
            ∷ ("value_date", date d)
            ∷ ("num_options", integer snap.num_options)
            ∷ ("term_slope", truth snap.has_term_slope)
            ∷ ("skew", truth snap.has_skew)
            ∷ []))))

  -- the three parts of the loop of `ingestCoinglassOptions`
  unfoldable pub ingest_coinglass_options : Time → Step (Unit {0})
  ingest_coinglass_options d = if_present ports.cg_options (λ cg. for_each assets (λ sym. do
    info ← attempt (query (cg.fetch_options_info sym))
    on_success info (λ pts. with_last pts (λ _. context "save options info" (
        save_rows ports.base
          (coinglass_options_info (map (coinglass_options_info_row d sym) pts)))))
    oi ← attempt (query (cg.fetch_options_oi_history sym))
    on_success oi (λ pts. with_last pts (λ _. context "save options OI history" (
        save_rows ports.base
          (coinglass_options_oi_history (map (coinglass_options_oi_history_row sym) pts)))))
    max_pain ← attempt (query (cg.fetch_options_max_pain sym "Deribit"))
    on_success max_pain (λ pts. with_last pts (λ _. context "save max pain" (
        save_rows ports.base
          (coinglass_options_max_pain (map (coinglass_options_max_pain_row d sym) pts)))))))

  unfoldable pub ingest_deribit_options_chain : Time → Step (Unit {0})
  ingest_deribit_options_chain d = if_present ports.chain (λ fetch. for_each assets (λ asset. do
    fetched ← attempt (query (fetch asset))
    on_success fetched (λ snaps. with_last snaps (λ _. do
      context "save options chain" (
          save_rows ports.base
            (deribit_options_chain (map (deribit_options_chain_row d asset) snaps)))
      announce ports.base (str "raw.volatility.deribit_options_chain.ingested.v1" ∷ [])
          (str asset ∷ str ":options_chain:" ∷ date d ∷ [])
          (("rows", count (length snaps)) ∷ ("asset", str asset) ∷ [])))))
