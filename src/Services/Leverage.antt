-- ===== src/Services/Leverage.antt =====
-- internal/leverage/service.go: the runs and the scores.
pub mod Rows
pub mod Interfaces
pub mod Pages
pub mod Ingest
pub mod Features
pub mod Run
use marketengine.Prelude.{◌+◌, String, Option, none, some, List, [], ◌∷◌, if◌then◌else◌}
use marketengine.Float.{Float}
use marketengine.Time.{Time, day, utc_day, sub_days, after}
use marketengine.Errors.{message}
use marketengine.Effects.{Eff, pure, raise, context, ◌>>=◌, ◌>>◌}
use marketengine.Domain.{Asset, assets_tradeable, FeatureKey, DomainScore}
use marketengine.Scoring.Leverage.{Config, ScoreInputs, defaults, compute_score}
use marketengine.Pipeline
use marketengine.Pipeline.{
  Action, or_assets, key_string, compute_assets, compute_range, complete, clock_now, latest_number,
}
use Rows.{Row}
use Interfaces.{Ports}
use Ingest.{ingest_all}
use Features.{fin_key, compute_asset_features}

module _ {F : Type 0} ⦃f : Float F⦄ (ports : Ports F) (cfg : Config F) (assets : List Asset) where
  abbrev Step : Type 0 → Type 0
  Step A = Eff (Action F (Row F)) A

  abbrev key : String → FeatureKey
  key name = fin_key ports cfg name

  unfoldable pub gather_score_inputs : Asset → Time → Time → Step (ScoreInputs F)
  unfolding key_string
  gather_score_inputs asset d cutoff = do
    oi ← latest_number ports.base (key "oi_mcap_percentile_365d") asset d cutoff
    fund ← latest_number ports.base (key "funding_rate_zscore_90d") asset d cutoff
    basis ← latest_number ports.base (key "basis_3m_zscore_90d") asset d cutoff
    liq ← latest_number ports.base (key "liquidations_stress_60d") asset d cutoff
    oi_change ← latest_number ports.base (key "oi_change_zscore_30d_180d") asset d cutoff
    pos ← latest_number ports.base (key "top_traders_position_skew_zscore_90d") asset d cutoff
    div ← latest_number ports.base (key "crowd_vs_smart_divergence_zscore_90d") asset d cutoff
    tak ← latest_number ports.base (key "taker_aggression_zscore_90d") asset d cutoff
    pure (record {
      asset = asset;
      value_date = d;
      oi_percentile = oi;
      funding_z = fund;
      basis_z = basis;
      liq_z = liq;
      oi_change_z = oi_change;
      position_skew_z = pos;
      crowd_divergence_z = div;
      taker_aggression_z = tak;
      feature_codes_used =
          key_string (key "oi_mcap_percentile_365d")
          ∷ key_string (key "funding_rate_zscore_90d")
          ∷ key_string (key "basis_3m_zscore_90d")
          ∷ key_string (key "liquidations_stress_60d")
          ∷ key_string (key "oi_change_zscore_30d_180d")
          ∷ key_string (key "top_traders_position_skew_zscore_90d")
          ∷ key_string (key "crowd_vs_smart_divergence_zscore_90d")
          ∷ key_string (key "taker_aggression_zscore_90d")
          ∷ [];
    })

  abbrev pub completion : Asset → Time → DomainScore F → Pipeline.ScoreEvent F
  completion asset d score = record {
    topic = "scores.leverage.completed.v1";
    asset = asset;
    value_date = d;
    score = score.score;
    post_etf = none;
    model_version = cfg.model_version;
    config_version = cfg.config_version;
  }

  unfoldable pub compute_asset_day : Asset → Time → Time → Step (Unit {0})
  unfolding gather_score_inputs
  compute_asset_day asset d cutoff = do
    compute_asset_features ports cfg asset d cutoff
    inp ← context "gather score inputs" (gather_score_inputs asset d cutoff)
    let score = compute_score inp cfg
    complete ports.base score (completion asset d score)

  unfoldable pub compute_day : Time → Time → Step (Unit {0})
  unfolding compute_asset_day compute_assets
  compute_day d cutoff = compute_assets compute_asset_day assets d cutoff

  unfoldable pub run_once : Time → Step (Unit {0})
  unfolding compute_day compute_range clock_now
  run_once value_date = do
    ingest_all ports assets (sub_days (utc_day value_date) 7) (utc_day value_date)
    cutoff ← clock_now ports.base
    compute_range compute_day (utc_day value_date) (utc_day value_date) cutoff

  unfoldable pub run_backfill : Time → Time → Step (Unit {0})
  unfolding compute_day compute_range clock_now
  run_backfill from to =
      if after (utc_day from) (utc_day to) then raise (message "backfill from after to") else do
        ingest_all ports assets (utc_day from) (utc_day to)
        now ← clock_now ports.base
        compute_range compute_day (utc_day from) (utc_day to) (now + day)

-- if p == nil { continue }: the providers of a map that are there
unfoldable pub present {ℓ} : {P : Type ℓ} → List (String × Option P) → List (String × P)
present [] = []
present ((name, some p) ∷ ps) = (name, p) ∷ present ps
present ((name, none) ∷ ps) = present ps

unfoldable pub new_service :
    {F : Type 0} ⦃f : Float F⦄ → Config F → List Asset → Config F × List Asset
unfolding defaults
new_service cfg assets = (defaults cfg, or_assets assets assets_tradeable)
