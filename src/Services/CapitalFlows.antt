-- ===== src/Services/CapitalFlows.antt =====
-- internal/capitalflows/service.go: the runs and the scores.
pub mod Rows
pub mod Interfaces
pub mod Ingest
pub mod Features
pub mod Run
use marketengine.Prelude.{◌+◌, String, some, List, [], ◌∷◌, if◌then◌else◌}
use marketengine.Float.{Float}
use marketengine.Time.{Time, day, utc_day, after}
use marketengine.Errors.{message}
use marketengine.Effects.{Eff, pure, raise, context, ◌>>=◌, ◌>>◌}
use marketengine.Domain.{Asset, asset_global, asset_btc, FeatureKey, DomainScore}
use marketengine.Scoring.CapitalFlows.{Config, ScoreInputs, defaults, compute_score, post_etf}
use marketengine.Pipeline
use marketengine.Pipeline.{
  or_assets, key_string, missing_reading, compute_assets, compute_range, complete, clock_now,
  latest, latest_number,
}
use Interfaces.{Ports}
use Ingest.{Step, ingest_all}
use Features.{fin_key, compute_features}

module _ {F : Type 0} ⦃f : Float F⦄ (ports : Ports F) (cfg : Config F) (assets : List Asset) where
  abbrev key : String → FeatureKey
  key name = fin_key ports cfg name

  abbrev key_names : List String
  key_names =
      "etf_netflow_zscore_90d" ∷ "lth_supply_change_zscore_180d" ∷ "miner_netflow_zscore_180d"
      ∷ "stablecoin_mcap_velocity_zscore_90d" ∷ "exchange_balance_change_zscore_90d"
      ∷ "bitfinex_margin_skew_zscore_90d" ∷ "stablecoin_dry_powder_change_7d_zscore_90d"
      ∷ "stablecoin_dry_powder_change_30d_zscore_90d" ∷ "etf_aum_velocity_zscore_90d"
      ∷ "etf_concentration_hhi_zscore_90d" ∷ "options_dealer_skew_proxy_zscore_90d" ∷ []

  unfoldable pub codes : List String → List String
  unfolding key_string
  codes [] = []
  codes (n ∷ ns) = key_string (key n) ∷ codes ns

  -- the netflow of miners has a key and is never read
  unfoldable pub gather_score_inputs : Asset → Time → Time → Step ports (ScoreInputs F)
  unfolding codes
  gather_score_inputs asset d cutoff = do
    etf ← latest ports.base (key "etf_netflow_zscore_90d") asset_global d cutoff
    lth ← latest ports.base (key "lth_supply_change_zscore_180d") asset_btc d cutoff
    stable ←
        latest_number ports.base (key "stablecoin_mcap_velocity_zscore_90d") asset_global d cutoff
    balance ←
        latest_number ports.base (key "exchange_balance_change_zscore_90d") asset_global d cutoff
    margin ← latest_number ports.base (key "bitfinex_margin_skew_zscore_90d") asset_global d cutoff
    powder_7 ←
        latest_number ports.base (key "stablecoin_dry_powder_change_7d_zscore_90d") asset_global d
          cutoff
    powder_30 ←
        latest_number ports.base (key "stablecoin_dry_powder_change_30d_zscore_90d") asset_global d
          cutoff
    aum ← latest_number ports.base (key "etf_aum_velocity_zscore_90d") asset_global d cutoff
    hhi ← latest_number ports.base (key "etf_concentration_hhi_zscore_90d") asset_global d cutoff
    dealer ←
        latest_number ports.base (key "options_dealer_skew_proxy_zscore_90d") asset_global d cutoff
    pure (record {
      asset = asset;
      value_date = d;
      z_etf = etf;
      z_lth = lth;
      z_miner = missing_reading ports.base;
      z_stablecoin_velocity = stable;
      z_exchange_balance = balance;
      z_bitfinex_margin = margin;
      z_dry_powder_7d = powder_7;
      z_dry_powder_30d = powder_30;
      z_etf_aum_velocity = aum;
      z_etf_concentration_hhi = hhi;
      z_options_dealer_skew = dealer;
      feature_codes_used = codes key_names;
    })

  abbrev pub completion : Asset → Time → DomainScore F → Pipeline.ScoreEvent F
  completion asset d score = record {
    topic = "scores.capital_flows.completed.v1";
    asset = asset;
    value_date = d;
    score = score.score;
    post_etf = some (post_etf d);
    model_version = cfg.model_version;
    config_version = cfg.config_version;
  }

  unfoldable pub score_asset : Asset → Time → Time → Step ports (Unit {0})
  unfolding gather_score_inputs
  score_asset asset d cutoff = do
    inp ← context "gather score inputs" (gather_score_inputs asset d cutoff)
    let score = compute_score inp cfg
    complete ports.base score (completion asset d score)

  unfoldable pub compute_day : Time → Time → Step ports (Unit {0})
  unfolding score_asset compute_assets
  compute_day d cutoff = do
    context "features" (compute_features ports cfg d cutoff)
    compute_assets score_asset assets d cutoff

  unfoldable pub run_once : Time → Step ports (Unit {0})
  unfolding compute_day compute_range clock_now
  run_once value_date = do
    ingest_all ports
    cutoff ← clock_now ports.base
    compute_range compute_day (utc_day value_date) (utc_day value_date) cutoff

  unfoldable pub run_backfill : Time → Time → Step ports (Unit {0})
  unfolding compute_day compute_range clock_now
  run_backfill from to =
      if after (utc_day from) (utc_day to) then raise (message "backfill from after to") else do
        ingest_all ports
        now ← clock_now ports.base
        compute_range compute_day (utc_day from) (utc_day to) (now + day)

unfoldable pub new_service :
    {F : Type 0} ⦃f : Float F⦄ → Config F → List Asset → Config F × List Asset
unfolding defaults
new_service cfg assets = (defaults cfg, or_assets assets (asset_global ∷ []))
