-- ===== src/Scoring/Liquidity.antt =====
-- internal/liquidity/pipeline.go and config.go: the score of the liquidity domain. A field of
-- `ScoreInputs` and the `Available` field beside it are one `Reading`.
use marketengine.Prelude.{String, ◌||◌, not, List, [], ◌∷◌, if◌then◌else◌}
use marketengine.Float.{Float, ◌⊕◌, ◌⊖◌, ◌⊗◌, ◌⊘◌, of_ℕ}
use marketengine.Time.{Time}
use marketengine.Domain.{Asset, DomainScore, flag, liquidity}
use marketengine.Scoring.{Reading, usable, or_default, tanh_squash, signal, opposed, clamp_score}

pub record ScoreInputs (F : Type 0) : Type 0 where
  pub asset : Asset
  pub value_date : Time
  pub z_stable : Reading F
  pub ssr_percentile : Reading F
  pub z_netflow : Reading F
  pub z_tvl : Reading F
  pub feature_codes_used : List String

pub record Config (F : Type 0) : Type 0 where
  pub model_version : String
  pub config_version : String
  pub code_sha : String
  pub supply_feature_version : String
  pub growth_feature_version : String
  pub z_score_feature_version : String
  pub netflow_7d_feature_version : String
  pub netflow_z_score_feature_version : String
  pub tvl_feature_version : String
  pub tvl_growth_feature_version : String
  pub tvl_z_score_feature_version : String
  pub supply_major_feature_version : String
  pub ssr_feature_version : String
  pub ssr_percentile_feature_version : String
  pub weight_stablecoin_capital : F
  pub weight_exchange_netflow : F
  pub weight_defi_capital : F
  pub tanh_scale : F

module _ {F : Type 0} ⦃f : Float F⦄ where
  unfoldable pub defaults : Config F → Config F
  defaults c = record c {
    weight_stablecoin_capital = or_default c.weight_stablecoin_capital (f.decimal 40 2);
    weight_exchange_netflow = or_default c.weight_exchange_netflow (f.decimal 35 2);
    weight_defi_capital = or_default c.weight_defi_capital (f.decimal 25 2);
    tanh_scale = or_default c.tanh_scale (of_ℕ 2);
  }

  -- the stablecoin component: the SSR percentile is not tested for NaN
  unfoldable stablecoin_capital : Config F → ScoreInputs F → F
  unfolding tanh_squash
  stablecoin_capital cfg inp =
      let stable = tanh_squash inp.z_stable.value cfg.tanh_scale in
      let ssr =
        f.minus
          (tanh_squash ((inp.ssr_percentile.value ⊖ f.decimal 5 1) ⊗ of_ℕ 4) cfg.tanh_scale) in
      if usable inp.z_stable
      then (if inp.ssr_percentile.available then (stable ⊕ ssr) ⊘ of_ℕ 2 else stable)
      else of_ℕ 0

  unfoldable weighted : Config F → ScoreInputs F → F
  unfolding stablecoin_capital signal opposed
  weighted cfg inp =
      cfg.weight_stablecoin_capital ⊗ stablecoin_capital cfg inp
      ⊕ cfg.weight_exchange_netflow ⊗ opposed cfg.tanh_scale inp.z_netflow
      ⊕ cfg.weight_defi_capital ⊗ signal cfg.tanh_scale inp.z_tvl

  components : Config F → ScoreInputs F → List (String × F)
  unfolding stablecoin_capital signal opposed
  components cfg inp =
      ("component_stablecoin_capital", stablecoin_capital cfg inp)
      ∷ ("component_exchange_netflow", opposed cfg.tanh_scale inp.z_netflow)
      ∷ ("component_defi_capital", signal cfg.tanh_scale inp.z_tvl)
      ∷ []

  -- `computeScore` after `cfg.Defaults()`
  unfoldable pub score_with : ScoreInputs F → Config F → DomainScore F
  unfolding components weighted
  score_with inp cfg = record {
    asset = inp.asset;
    domain = liquidity;
    value_date = inp.value_date;
    score = clamp_score (weighted cfg inp);
    components = components cfg inp;
    feature_codes_used = inp.feature_codes_used;
    model_version = cfg.model_version;
    config_version = cfg.config_version;
    code_sha = cfg.code_sha;
    source_raw_versions =
        ("defillama_stablecoin_supply", "defillama_v1")
        ∷ ("coinmetrics_exchange_netflow", "coinmetrics_v1")
        ∷ ("defillama_tvl", "defillama_v1")
        ∷ ("coingecko_market_cap", "coingecko_v1")
        ∷ [];
    data_quality =
        (
          "partial_coverage",
          flag (
              not inp.z_stable.available || not inp.z_netflow.available || not inp.z_tvl.available),
        )
        ∷ ("stablecoin_zscore_available", flag inp.z_stable.available)
        ∷ ("ssr_percentile_available", flag inp.ssr_percentile.available)
        ∷ ("netflow_zscore_available", flag inp.z_netflow.available)
        ∷ ("tvl_zscore_available", flag inp.z_tvl.available)
        ∷ [];
  }

  unfoldable pub compute_score : ScoreInputs F → Config F → DomainScore F
  unfolding defaults score_with
  compute_score inp cfg = score_with inp (defaults cfg)
