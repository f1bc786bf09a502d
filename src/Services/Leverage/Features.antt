-- ===== src/Services/Leverage/Features.antt =====
-- The features of `computeAssetDay` of internal/leverage/service.go, in the order in which they stand
-- there. A pair `oiRaw float64` and `oiRawAvail bool`, and the like, is an `Option`.
use marketengine.Prelude.{
  ℕ, ◌-◌, String, Bool, true, false, ◌==◌, ◌||◌, Option, none, some, List, [], ◌∷◌, ◌++◌, ltb,
  length, get_or, if◌then◌else◌,
}
use marketengine.Float.{Float, ◌<?◌, of_ℕ}
use marketengine.Time.{Time, sub_days}
use marketengine.Errors.{Result, ok, err}
use marketengine.Effects.{Eff, pure, raise, query, attempt, ◌>>=◌, ◌>>◌}
use marketengine.Domain.{Asset, FeatureKey}
use marketengine.Scoring.Leverage.{Config}
use marketengine.Scoring.Features.{
  CrowdPositioningInputs, ratio, pct_change, percentile_rank, annualized_basis_from_funding,
  perp_symbol_for_asset, log_1p, top_traders_position_skew, crowd_vs_smart_divergence,
  taker_aggression,
}
use marketengine.Pipeline.{
  Action, is_not_found, if_found, if_some, get_latest, save_feature, save_z_score, series_of,
}
use marketengine.Services.Leverage.Rows.{Row, ls_global, ls_top_account, ls_top_position}
use marketengine.Services.Leverage.Interfaces.{Ports}

module _ {F : Type 0} ⦃f : Float F⦄ (ports : Ports F) (cfg : Config F) where
  abbrev Step : Type 0 → Type 0
  Step A = Eff (Action F (Row F)) A

  abbrev pub int_key : String → FeatureKey
  int_key name = record { name = name; version = cfg.intermediate_version }

  abbrev pub fin_key : String → FeatureKey
  fin_key name = record { name = name; version = cfg.final_version }

  -- `saveFeature` of an intermediate feature
  unfoldable pub store : String → Asset → Time → String → String → F → Step (Unit {0})
  store name asset d src ver v =
      save_feature ports.base cfg.code_sha (int_key name) asset d v src ver

  unfoldable pub z_score :
      String → String → Asset → Time → Time → ℕ → ℕ → String → String → Step (Unit {0})
  z_score from to asset d cutoff window min_obs src ver =
      save_z_score ports.base cfg.code_sha (int_key from) (fin_key to) asset d cutoff window min_obs
        src ver

  -- the open interest: of Coinglass, and else of the exchanges
  unfoldable pub oi_from : Option F → Asset → Time → Time → Step (Option F)
  unfolding store
  oi_from (some v) asset d cutoff = do
    store "oi_usd_raw" asset d "exchange_oi" "coinglass_v4" v
    pure (some v)
  oi_from none asset d cutoff = do
    val ← query (ports.aggregated_oi_as_of asset d cutoff)
    if_some val (store "oi_usd_raw" asset d "exchange_oi" "exchange_v1")
    pure val

  -- the market capitalisation is that of bitcoin for every asset
  unfoldable pub store_oi_mcap_ratio : Option F → Asset → Time → Time → Step (Unit {0})
  unfolding store
  store_oi_mcap_ratio oi asset d cutoff = if_some oi (λ v. do
    mcap ← attempt (query (ports.get_market_cap_as_of "bitcoin" d cutoff))
    if_found mcap (λ m.
        if of_ℕ 0 <? m
        then if_some (ratio v m)
            (store "oi_mcap_ratio" asset d "coingecko_market_cap" "coingecko_v1")
        else pure tt))

  unfoldable pub estimated : Option F → Asset → Time → Option F → Step (Unit {0})
  unfolding store
  estimated funding asset d (some v) = store "basis_3m_daily" asset d "deribit_basis" "deribit_v1" v
  estimated funding asset d none = if_some funding (λ rate.
      store "basis_3m_daily" asset d "exchange_funding" "exchange_v1"
        (annualized_basis_from_funding rate))

  -- the basis: of Coinglass, else of Deribit, else estimated from the funding rate
  unfoldable pub basis_from : Option F → Option F → Asset → Time → Time → Step (Unit {0})
  unfolding store estimated
  basis_from funding (some v) asset d cutoff =
      store "basis_3m_daily" asset d "coinglass_basis" "coinglass_v4" v
  basis_from funding none asset d cutoff = do
    deribit ← query (ports.get_deribit_basis_as_of asset d cutoff)
    estimated funding asset d deribit

  unfoldable pub store_basis : Option F → Asset → Time → Time → Step (Unit {0})
  unfolding basis_from perp_symbol_for_asset
  store_basis funding asset d cutoff =
      let sym = perp_symbol_for_asset asset in
      if sym == "" then pure tt else do
        v ← query (ports.get_coinglass_futures_basis_as_of sym "Binance" d cutoff)
        basis_from funding v asset d cutoff

  -- if !math.IsNaN(l) { … }
  unfoldable pub store_log : Asset → Time → String → F → Step (Unit {0})
  unfolding store log_1p
  store_log asset d ver val =
      let l = log_1p val in
      if f.is_nan l then pure tt else store "liquidations_daily_log" asset d "exchange_liqs" ver l

  unfoldable pub liquidations_from : Option F → Asset → Time → Time → Step (Unit {0})
  unfolding store_log
  liquidations_from (some v) asset d cutoff = store_log asset d "coinglass_v4" v
  liquidations_from none asset d cutoff = do
    val ← query (ports.daily_total_liquidations_as_of asset d cutoff)
    if_some val (store_log asset d "exchange_v1")

  unfoldable pub store_oi_change : Option F → Asset → Time → Time → Step (Unit {0})
  unfolding store
  store_oi_change oi asset d cutoff = if_some oi (λ v. do
    earlier ← attempt (get_latest ports.base (int_key "oi_usd_raw") asset (sub_days d 30) cutoff)
    if_found earlier
        (λ e. if_some (pct_change v e) (store "oi_change_30d" asset d "exchange_oi" "exchange_v1")))

  -- if err != nil && !errors.Is(err, domain.ErrNotFound) { return 0, false, err }; a series that is
  -- not found is empty
  abbrev pub series_or_nil : Result (List F) → Step (List F)
  series_or_nil (ok xs) = pure xs
  series_or_nil (err e) = if is_not_found e then pure [] else raise e

  abbrev ratio_percentile : List F → Option F
  ratio_percentile xs =
      if ltb (length xs) 30 then none else percentile_rank (get_or xs (length xs - 1) (of_ℕ 0)) xs

  abbrev raw_percentile : F → List F → Option F
  raw_percentile oi xs = if ltb (length xs) 30 then none else percentile_rank oi xs

  -- the second half of `computeOIPercentile`: without a percentile of the ratios, that of the raw
  -- open interest
  abbrev pub percentile_from : Option F → Option F → Asset → Time → Time → Step (Option F)
  percentile_from (some pct) oi asset d cutoff = pure (some pct)
  percentile_from none none asset d cutoff = pure none
  percentile_from none (some oi) asset d cutoff = do
    r ← series_of ports.base (int_key "oi_usd_raw") asset d cutoff 365
    raw ← series_or_nil r
    pure (raw_percentile oi (raw ++ oi ∷ []))

  unfoldable pub compute_oi_percentile : Option F → Asset → Time → Time → Step (Option F)
  unfolding series_of
  compute_oi_percentile oi asset d cutoff = do
    r ← series_of ports.base (int_key "oi_mcap_ratio") asset d cutoff 365
    ratios ← series_or_nil r
    percentile_from (ratio_percentile ratios) oi asset d cutoff

  -- `err == nil && ok`
  abbrev found : {A : Type 0} → Result (Option A) → Option A
  found (ok o) = o
  found (err e) = none

  abbrev or_zero : Option F → F
  or_zero none = of_ℕ 0
  or_zero (some v) = v

  abbrev taker : Option (F × F) → F × F
  taker none = (of_ℕ 0, of_ℕ 0)
  taker (some p) = p

  abbrev there : {A : Type 0} → Option A → Bool
  there none = false
  there (some a) = true

  abbrev crowd_of :
      Option F → Option F → Option F → Option (F × F) → Option (CrowdPositioningInputs F)
  crowd_of global top position volume =
      if there global || there top || there position || there volume
      then some (record {
        global_account_ratio = or_zero global;
        top_account_ratio = or_zero top;
        top_position_ratio = or_zero position;
        taker_buy_usd = (taker volume).0;
        taker_sell_usd = (taker volume).1;
      })
      else none

  unfoldable pub gather_crowd_inputs :
      Asset → Time → Time → Step (Option (CrowdPositioningInputs F))
  gather_crowd_inputs asset d cutoff = do
    global ← attempt (query (ports.coinglass_ls_ratio_avg_as_of ls_global asset d cutoff))
    top ← attempt (query (ports.coinglass_ls_ratio_avg_as_of ls_top_account asset d cutoff))
    position ← attempt (query (ports.coinglass_ls_ratio_avg_as_of ls_top_position asset d cutoff))
    volume ← attempt (query (ports.coinglass_taker_volume_as_of asset d cutoff))
    pure (crowd_of (found global) (found top) (found position) (found volume))

  unfoldable pub compute_crowd_features : Asset → Time → Time → Step (Unit {0})
  unfolding store z_score gather_crowd_inputs
  compute_crowd_features asset d cutoff = do
    crowd ← gather_crowd_inputs asset d cutoff
    if_some crowd (λ c. do
      if_some (top_traders_position_skew c)
          (store "top_traders_position_skew_daily" asset d "coinglass_long_short" "coinglass_v4")
      if_some (crowd_vs_smart_divergence c)
          (store "crowd_vs_smart_divergence_daily" asset d "coinglass_long_short" "coinglass_v4")
      if_some (taker_aggression c)
          (store "taker_aggression_daily" asset d "coinglass_taker_volume" "coinglass_v4"))
    z_score "top_traders_position_skew_daily" "top_traders_position_skew_zscore_90d" asset d cutoff
        90 30 "coinglass_long_short" "coinglass_v4"
    z_score "crowd_vs_smart_divergence_daily" "crowd_vs_smart_divergence_zscore_90d" asset d cutoff
        90 30 "coinglass_long_short" "coinglass_v4"
    z_score "taker_aggression_daily" "taker_aggression_zscore_90d" asset d cutoff 90 30
        "coinglass_taker_volume" "coinglass_v4"

  unfoldable pub compute_asset_features : Asset → Time → Time → Step (Unit {0})
  unfolding store z_score oi_from store_oi_mcap_ratio store_basis liquidations_from store_oi_change
      compute_oi_percentile compute_crowd_features
  compute_asset_features asset d cutoff = do
    coinglass ← query (ports.coinglass_aggregated_oi_as_of asset d cutoff)
    oi ← oi_from coinglass asset d cutoff
    store_oi_mcap_ratio oi asset d cutoff
    funding ← query (ports.daily_avg_funding_as_of asset d cutoff)
    if_some funding (store "funding_rate_daily" asset d "exchange_funding" "exchange_v1")
    if_some funding (λ rate.
        store "basis_from_funding_approx" asset d "exchange_funding" "exchange_v1"
          (annualized_basis_from_funding rate))
    store_basis funding asset d cutoff
    liqs ← query (ports.coinglass_aggregated_liquidations_as_of asset d cutoff)
    liquidations_from liqs asset d cutoff
    store_oi_change oi asset d cutoff
    pct ← compute_oi_percentile oi asset d cutoff
    if_some pct (λ v.
        save_feature ports.base cfg.code_sha (fin_key "oi_mcap_percentile_365d") asset d v
          "exchange_oi" "exchange_v1")
    z_score "funding_rate_daily" "funding_rate_zscore_90d" asset d cutoff 90 30 "exchange_funding"
        "exchange_v1"
    z_score "basis_3m_daily" "basis_3m_zscore_90d" asset d cutoff 90 30 "coinglass_basis"
        "coinglass_v4"
    z_score "liquidations_daily_log" "liquidations_stress_60d" asset d cutoff 60 20 "exchange_liqs"
        "exchange_v1"
    z_score "oi_change_30d" "oi_change_zscore_30d_180d" asset d cutoff 180 60 "exchange_oi"
        "exchange_v1"
    compute_crowd_features asset d cutoff
