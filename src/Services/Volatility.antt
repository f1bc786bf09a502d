-- ===== src/Services/Volatility.antt =====
-- internal/volatility/service.go. A provider that may be `nil` is an `Option`. The expiry of an option
-- is counted in whole days from the value date.
pub mod Rows
pub mod Run
pub mod Interfaces
pub mod Ingest
pub mod Features
use marketengine.Prelude.{
  ℕ, ◌+◌, ◌-◌, ◌/◌, String, Bool, true, false, not, ◌&&◌, ◌||◌, ◌==◌, Option, none, some, List, [],
  ◌∷◌, ◌++◌, eqb, length, map, if◌then◌else◌,
}
use marketengine.Float.{Float, ◌⊕◌, ◌⊗◌, ◌⊘◌, ◌≤?◌, of_ℕ}
use marketengine.Time.{Time, day, utc_day, sub_days, add_days, after}
use marketengine.Errors.{Result, ok, err, message}
use marketengine.Effects.{Eff, pure, raise, query, context, attempt, ◌>>=◌, ◌>>◌}
use marketengine.Domain.{Asset, assets_tradeable, FeatureKey, DomainScore}
use marketengine.Scoring.{Reading}
use marketengine.Scoring.Volatility.{Config, ScoreInputs, defaults, compute_score}
use marketengine.Scoring.Features.{diff, velocity_30d, max_pain_distance}
use marketengine.OptionPricing.{bs_gamma}
use marketengine.Pipeline
use marketengine.Pipeline.{
  Action, Part, str, date, count, integer, truth, or_assets, key_string, if_present, with_last,
  on_success, if_found, if_some, on_found, for_each, compute_assets, compute_range, save_rows,
  announce, complete, clock_now, get_latest, save_feature, save_z_score, try_compute_std_dev,
  latest, latest_number,
}
use marketengine.Services.Volatility.Rows.{
  DvolPoint, OptionsSnapshot, CoinglassOptionsInfoPoint, CoinglassOptionsOiHistoryPoint,
  CoinglassOptionsMaxPainPoint, DeribitOptionsChainSnapshot, Row, dvol, coinglass_options_info,
  coinglass_options_oi_history, coinglass_options_max_pain, deribit_options_chain, dvol_row,
  coinglass_options_info_row, coinglass_options_oi_history_row, coinglass_options_max_pain_row,
  deribit_options_chain_row,
}
use Interfaces.{Ports}
use Ingest.{
  ingest_dvol, fin_key, ingest_options_snapshot, ingest_coinglass_options,
  ingest_deribit_options_chain,
}
use Features.{compute_dvol_features, compute_options_features}

module _ {F : Type 0} ⦃f : Float F⦄ (ports : Ports F) (cfg : Config F) (assets : List Asset) where
  abbrev pub Step : Type 0 → Type 0
  Step A = Eff (Action F (Row F)) A

  -- if in.XAvailable { in.FeatureCodesUsed = append(in.FeatureCodesUsed, key.String()) }
  abbrev code_if : Reading F → FeatureKey → List String → List String
  code_if r key rest = if r.available then key_string key ∷ rest else rest

  -- in the order in which the keys are appended
  unfoldable pub codes_used :
      Reading F
      → Reading F
      → Reading F
      → Reading F
      → Reading F
      → Reading F
      → Reading F
      → List String
  unfolding key_string
  codes_used skew_real skew_proxy slope oi pcr pain gex =
      let rest = code_if slope (fin_key ports cfg assets "iv_term_slope_zscore_90d") (
        code_if oi (fin_key ports cfg assets "cg_options_oi_velocity_zscore_90d") (
          code_if pcr (fin_key ports cfg assets "cg_put_call_ratio_zscore_90d") (
            code_if pain (fin_key ports cfg assets "cg_max_pain_distance_pct_zscore_90d")
              (code_if gex (fin_key ports cfg assets "gex_net_dealer_zscore_90d") [])))) in
      key_string (fin_key ports cfg assets "iv_rv_spread_zscore_90d")
      ∷ key_string (fin_key ports cfg assets "dvol_of_dvol_zscore_180d")
      ∷ (if skew_real.available
          then key_string (fin_key ports cfg assets "iv_skew_real_zscore_90d") ∷ rest
          else code_if skew_proxy (fin_key ports cfg assets "iv_skew_proxy_zscore_90d") rest)

  unfoldable pub gather_score_inputs : Asset → Time → Time → Step (ScoreInputs F)
  unfolding codes_used
  gather_score_inputs asset d cutoff = do
    spread ← latest ports.base (fin_key ports cfg assets "iv_rv_spread_zscore_90d") asset d cutoff
    skew_real ←
        latest ports.base (fin_key ports cfg assets "iv_skew_real_zscore_90d") asset d cutoff
    skew_proxy ←
        latest ports.base (fin_key ports cfg assets "iv_skew_proxy_zscore_90d") asset d cutoff
    vov ← latest ports.base (fin_key ports cfg assets "dvol_of_dvol_zscore_180d") asset d cutoff
    slope ← latest ports.base (fin_key ports cfg assets "iv_term_slope_zscore_90d") asset d cutoff
    oi ←
        latest_number ports.base (fin_key ports cfg assets "cg_options_oi_velocity_zscore_90d")
          asset d cutoff
    pcr ←
        latest_number ports.base (fin_key ports cfg assets "cg_put_call_ratio_zscore_90d") asset d
          cutoff
    pain ←
        latest_number ports.base (fin_key ports cfg assets "cg_max_pain_distance_pct_zscore_90d")
          asset d cutoff
    gex ←
        latest_number ports.base (fin_key ports cfg assets "gex_net_dealer_zscore_90d") asset d
          cutoff
    pure (record {
      asset = asset;
      value_date = d;
      z_spread = spread;
      z_skew_real = skew_real;
      z_skew_proxy = skew_proxy;
      z_vov = vov;
      z_term_slope = slope;
      z_options_oi_velocity = oi;
      z_put_call_ratio = pcr;
      z_max_pain_distance = pain;
      z_gex_net_dealer = gex;
      feature_codes_used = codes_used skew_real skew_proxy slope oi pcr pain gex;
    })

  abbrev pub completion : Asset → Time → DomainScore F → Pipeline.ScoreEvent F
  completion asset d score = record {
    topic = "scores.volatility.completed.v1";
    asset = asset;
    value_date = d;
    score = score.score;
    post_etf = none;
    model_version = cfg.model_version;
    config_version = cfg.config_version;
  }

  unfoldable pub compute_asset_day : Asset → Time → Time → Step (Unit {0})
  unfolding compute_dvol_features compute_options_features gather_score_inputs
  compute_asset_day asset d cutoff = do
    compute_dvol_features ports cfg assets asset d cutoff
    compute_options_features ports cfg assets asset d cutoff
    inp ← context "gather score inputs" (gather_score_inputs asset d cutoff)
    let score = compute_score inp cfg
    complete ports.base score (completion asset d score)

  unfoldable pub compute_day : Time → Time → Step (Unit {0})
  unfolding compute_asset_day compute_assets
  compute_day d cutoff = compute_assets compute_asset_day assets d cutoff

  unfoldable pub run_once : Time → Step (Unit {0})
  unfolding ingest_dvol ingest_options_snapshot ingest_coinglass_options
      ingest_deribit_options_chain compute_day compute_range clock_now
  run_once value_date = do
    let d = utc_day value_date
    context "ingest dvol" (ingest_dvol ports cfg assets (sub_days d 7) d)
    context "ingest options" (ingest_options_snapshot ports cfg assets d)
    context "ingest coinglass options" (ingest_coinglass_options ports cfg assets d)
    context "ingest deribit chain" (ingest_deribit_options_chain ports cfg assets d)
    cutoff ← clock_now ports.base
    compute_range compute_day d d cutoff

  -- the chain of options is not read here
  unfoldable pub run_backfill : Time → Time → Step (Unit {0})
  unfolding ingest_dvol ingest_options_snapshot ingest_coinglass_options compute_day compute_range
      clock_now
  run_backfill from to =
      if after (utc_day from) (utc_day to) then raise (message "backfill from after to") else do
        context "ingest dvol" (ingest_dvol ports cfg assets (utc_day from) (utc_day to))
        context "ingest options" (ingest_options_snapshot ports cfg assets (utc_day to))
        context "ingest coinglass options" (ingest_coinglass_options ports cfg assets (utc_day to))
        now ← clock_now ports.base
        compute_range compute_day (utc_day from) (utc_day to) (now + day)

unfoldable pub new_service :
    {F : Type 0} ⦃f : Float F⦄ → Config F → List Asset → Config F × List Asset
unfolding defaults
new_service cfg assets = (defaults cfg, or_assets assets assets_tradeable)
