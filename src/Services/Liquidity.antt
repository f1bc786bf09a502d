-- ===== src/Services/Liquidity.antt =====
-- internal/liquidity/service.go. A provider that may be `nil` is an `Option`.
pub mod Rows
pub mod Run
pub mod Success
pub mod Interfaces
pub mod Ingest
use marketengine.Prelude.{
  ℕ, ◌+◌, String, Option, none, List, [], ◌∷◌, ltb, length, map, if◌then◌else◌,
}
use marketengine.Float.{Float, ◌⊘◌, ◌<?◌, of_ℕ}
use marketengine.Time.{Time, day, utc_day, sub_days, add_days, after}
use marketengine.Errors.{Result, message}
use marketengine.Effects.{Eff, pure, raise, query, context, attempt, ◌>>=◌, ◌>>◌, perform}
use marketengine.Domain.{Asset, asset_global, assets_tradeable, FeatureKey, DomainScore}
use marketengine.Scoring.Liquidity.{Config, ScoreInputs, defaults, compute_score}
use marketengine.Scoring.Features.{coin_id_for_asset}
use marketengine.Pipeline
use marketengine.Pipeline.{
  Action, Part, str, date, count, score_event, score_saved, or_assets, key_string, if_present,
  with_last, on_success, if_found, if_some, for_each, compute_assets, compute_range, save_rows,
  announce, complete, clock_now, get_latest, save_feature, save_z_score, try_compute_growth,
  try_compute_percentile_rank, latest, latest_number,
}
use marketengine.Services.Liquidity.Rows.{
  StablecoinSupplyPoint, ChainTvlPoint, ExchangeNetflowPoint, MarketCapPoint, Row,
  stablecoin_supply, chain_tvl, exchange_netflow, market_cap, aggregate_supply_row,
  stablecoin_supply_row, chain_tvl_row, exchange_netflow_row, market_cap_row,
}
use Interfaces.{Ports}
use Ingest.{ingest_all}

module _ {F : Type 0} ⦃f : Float F⦄ (ports : Ports F) (cfg : Config F) (assets : List Asset) where
  abbrev pub Step : Type 0 → Type 0
  Step A = Eff (Action F (Row F)) A

  abbrev key : String → String → FeatureKey
  key name version = record { name = name; version = version }

  abbrev pub supply_key : FeatureKey
  supply_key = key "stablecoin_supply_total" cfg.supply_feature_version

  abbrev pub growth_key : FeatureKey
  growth_key = key "stablecoin_growth_30d" cfg.growth_feature_version

  abbrev pub z_score_key : FeatureKey
  z_score_key = key "stablecoin_growth_zscore_90d" cfg.z_score_feature_version

  abbrev pub tvl_key : FeatureKey
  tvl_key = key "defi_tvl_usd" cfg.tvl_feature_version

  abbrev pub tvl_growth_key : FeatureKey
  tvl_growth_key = key "defi_tvl_growth_30d" cfg.tvl_growth_feature_version

  abbrev pub tvl_z_key : FeatureKey
  tvl_z_key = key "defi_tvl_growth_zscore_180d" cfg.tvl_z_score_feature_version

  abbrev pub netflow_7_key : FeatureKey
  netflow_7_key = key "exchange_netflow_7d" cfg.netflow_7d_feature_version

  abbrev pub netflow_z_key : FeatureKey
  netflow_z_key = key "exchange_netflow_zscore_180d" cfg.netflow_z_score_feature_version

  abbrev pub ssr_key : FeatureKey
  ssr_key = key "ssr" cfg.ssr_feature_version

  abbrev pub ssr_percentile_key : FeatureKey
  ssr_percentile_key = key "ssr_percentile_rank_365d" cfg.ssr_percentile_feature_version

  abbrev pub major_key : FeatureKey
  major_key = key "stablecoin_supply_usdt_usdc_dai" cfg.supply_major_feature_version

  abbrev supply_source : String × String
  supply_source = ("defillama_stablecoin_supply", "defillama_v1")

  -- `saveGlobalFeature` and `saveFeature`
  unfoldable pub store : FeatureKey → Asset → Time → String × String → F → Step (Unit {0})
  store k asset value_date src v =
      save_feature ports.base cfg.code_sha k asset value_date v src.0 src.1

  unfoldable pub compute_global_features : Time → Time → Step (Unit {0})
  unfolding store
  compute_global_features d cutoff = do
    supply ← attempt (query (ports.get_stablecoin_supply_as_of "AGGREGATE" d cutoff))
    if_found supply (store supply_key asset_global d supply_source)
    major ← query (ports.sum_stablecoin_supply_as_of ("USDT" ∷ "USDC" ∷ "DAI" ∷ []) d cutoff)
    if ltb 0 major.1 then store major_key asset_global d supply_source major.0 else pure tt
    growth ← try_compute_growth ports.base supply_key asset_global d cutoff 30
    if_some growth (store growth_key asset_global d supply_source)
    save_z_score ports.base cfg.code_sha growth_key z_score_key asset_global d cutoff 90 30
        "defillama_stablecoin_supply" "defillama_v1"
    tvl ← attempt (query (ports.get_chain_tvl_as_of "Ethereum" d cutoff))
    if_found tvl (store tvl_key asset_global d ("defillama_tvl", "defillama_v1"))
    tvl_growth ← try_compute_growth ports.base tvl_key asset_global d cutoff 30
    if_some tvl_growth (store tvl_growth_key asset_global d ("defillama_tvl", "defillama_v1"))
    save_z_score ports.base cfg.code_sha tvl_growth_key tvl_z_key asset_global d cutoff 180 60
        "defillama_tvl" "defillama_v1"

  unfoldable pub gather_score_inputs : Asset → Time → Time → Step (ScoreInputs F)
  unfolding key_string
  gather_score_inputs asset d cutoff = do
    stable ← latest ports.base z_score_key asset_global d cutoff
    ssr ← latest_number ports.base ssr_percentile_key asset d cutoff
    netflow ← latest ports.base netflow_z_key asset d cutoff
    tvl ← latest ports.base tvl_z_key asset_global d cutoff
    pure (record {
      asset = asset;
      value_date = d;
      z_stable = stable;
      ssr_percentile = ssr;
      z_netflow = netflow;
      z_tvl = tvl;
      feature_codes_used =
          key_string z_score_key
          ∷ key_string ssr_percentile_key
          ∷ key_string netflow_z_key
          ∷ key_string tvl_z_key
          ∷ [];
    })

  -- the features of `computeAssetDay`
  unfoldable pub compute_asset_features : Asset → Time → Time → Step (Unit {0})
  unfolding store
  compute_asset_features asset d cutoff = do
    sum ← query (ports.sum_7d_netflow asset d cutoff)
    if_some sum (store netflow_7_key asset d ("coinmetrics_exchange_netflow", "coinmetrics_v1"))
    save_z_score ports.base cfg.code_sha netflow_7_key netflow_z_key asset d cutoff 180 60
        "coinmetrics_exchange_netflow" "coinmetrics_v1"
    mcap ← attempt (query (ports.get_market_cap_as_of (coin_id_for_asset asset) d cutoff))
    on_success mcap (λ m.
        if of_ℕ 0 <? m
        then (do
          supply ← attempt (get_latest ports.base supply_key asset_global d cutoff)
          on_success supply (λ s.
              if of_ℕ 0 <? s
              then store ssr_key asset d ("coingecko_market_cap", "coingecko_v1") (m ⊘ s)
              else pure tt))
        else pure tt)
    pct ← try_compute_percentile_rank ports.base ssr_key asset d cutoff 365 30
    if_some pct (store ssr_percentile_key asset d ("coingecko_market_cap", "coingecko_v1"))

  abbrev pub completion : Asset → Time → DomainScore F → Pipeline.ScoreEvent F
  completion asset d score = record {
    topic = "scores.liquidity.completed.v1";
    asset = asset;
    value_date = d;
    score = score.score;
    post_etf = none;
    model_version = cfg.model_version;
    config_version = cfg.config_version;
  }

  unfoldable pub compute_asset_day : Asset → Time → Time → Step (Unit {0})
  unfolding compute_asset_features gather_score_inputs
  compute_asset_day asset d cutoff = do
    compute_asset_features asset d cutoff
    inp ← context "gather score inputs" (gather_score_inputs asset d cutoff)
    let score = compute_score inp cfg
    complete ports.base score (completion asset d score)

  unfoldable pub compute_day : Time → Time → Step (Unit {0})
  unfolding compute_global_features compute_asset_day compute_assets
  compute_day d cutoff = do
    context "global features" (compute_global_features d cutoff)
    compute_assets compute_asset_day assets d cutoff

  unfoldable pub run_once : Time → Step (Unit {0})
  unfolding ingest_all compute_day compute_range clock_now
  run_once value_date = do
    let d = utc_day value_date
    ingest_all ports cfg assets (sub_days d 210) d
    cutoff ← clock_now ports.base
    compute_range compute_day d d cutoff

  unfoldable pub run_backfill : Time → Time → Step (Unit {0})
  unfolding ingest_all compute_day compute_range clock_now
  run_backfill from to =
      if after (utc_day from) (utc_day to) then raise (message "backfill from after to") else do
        ingest_all ports cfg assets (utc_day from) (utc_day to)
        now ← clock_now ports.base
        compute_range compute_day (utc_day from) (utc_day to) (now + day)

unfoldable pub new_service :
    {F : Type 0} ⦃f : Float F⦄ → Config F → List Asset → Config F × List Asset
unfolding defaults
new_service cfg assets = (defaults cfg, or_assets assets assets_tradeable)
