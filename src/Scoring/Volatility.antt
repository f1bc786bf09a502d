-- ===== src/Scoring/Volatility.antt =====
-- internal/volatility/pipeline.go and config.go: the score of the volatility domain. A field of
-- `ScoreInputs` and the `Available` field beside it are one `Reading`.
use marketengine.Prelude.{String, ◌&&◌, ◌||◌, not, List, [], ◌∷◌, if◌then◌else◌}
use marketengine.Float.{Float, ◌⊕◌, ◌⊖◌, ◌⊗◌, ◌<?◌, of_ℕ}
use marketengine.Time.{Time}
use marketengine.Domain.{Asset, DomainScore, flag, number, volatility}
use marketengine.Scoring.{
  Reading, usable, or_default, opposed, add_opposed, nothing_yet, average, clamp_score,
}

pub record ScoreInputs (F : Type 0) : Type 0 where
  pub asset : Asset
  pub value_date : Time
  pub z_spread : Reading F
  pub z_skew_real : Reading F
  pub z_skew_proxy : Reading F
  pub z_vov : Reading F
  pub z_term_slope : Reading F
  pub z_options_oi_velocity : Reading F
  pub z_put_call_ratio : Reading F
  pub z_max_pain_distance : Reading F
  pub z_gex_net_dealer : Reading F
  pub feature_codes_used : List String

pub record Config (F : Type 0) : Type 0 where
  pub model_version : String
  pub config_version : String
  pub code_sha : String
  pub intermediate_version : String
  pub final_version : String
  pub weight_fear_premium : F
  pub weight_tail_risk : F
  pub weight_vov : F
  pub weight_fear_premium4 : F
  pub weight_term_structure4 : F
  pub weight_tail_risk4 : F
  pub weight_vov4 : F
  pub weight_options_cross_source : F
  pub tanh_scale : F

module _ {F : Type 0} ⦃f : Float F⦄ where
  unfoldable pub defaults : Config F → Config F
  defaults c = record c {
    weight_fear_premium = or_default c.weight_fear_premium (f.decimal 40 2);
    weight_tail_risk = or_default c.weight_tail_risk (f.decimal 35 2);
    weight_vov = or_default c.weight_vov (f.decimal 25 2);
    weight_fear_premium4 = or_default c.weight_fear_premium4 (f.decimal 30 2);
    weight_term_structure4 = or_default c.weight_term_structure4 (f.decimal 30 2);
    weight_tail_risk4 = or_default c.weight_tail_risk4 (f.decimal 25 2);
    weight_vov4 = or_default c.weight_vov4 (f.decimal 15 2);
    weight_options_cross_source = or_default c.weight_options_cross_source (f.decimal 20 2);
    tanh_scale = or_default c.tanh_scale (of_ℕ 2);
  }

  -- the skew of options if it is usable, else its proxy
  unfoldable pub tail_risk : Config F → ScoreInputs F → F
  unfolding opposed
  tail_risk cfg inp =
      if usable inp.z_skew_real
      then opposed cfg.tanh_scale inp.z_skew_real
      else opposed cfg.tanh_scale inp.z_skew_proxy

  -- `componentOptionsCross` before the division, and `optionsCrossN`
  unfoldable pub options_sum : Config F → ScoreInputs F → F × F
  unfolding add_opposed
  options_sum cfg inp = add_opposed cfg.tanh_scale inp.z_gex_net_dealer (
      add_opposed cfg.tanh_scale inp.z_max_pain_distance (
        add_opposed cfg.tanh_scale inp.z_put_call_ratio
          (add_opposed cfg.tanh_scale inp.z_options_oi_velocity nothing_yet)))

  unfoldable pub options_cross : Config F → ScoreInputs F → F
  unfolding average options_sum
  options_cross cfg inp = average (options_sum cfg inp)

  unfoldable pub base_score : Config F → ScoreInputs F → F
  unfolding tail_risk opposed
  base_score cfg inp =
      let fear = opposed cfg.tanh_scale inp.z_spread in
      let vov = opposed cfg.tanh_scale inp.z_vov in
      if usable inp.z_term_slope
      then cfg.weight_fear_premium4 ⊗ fear
        ⊕ cfg.weight_term_structure4 ⊗ opposed cfg.tanh_scale inp.z_term_slope
        ⊕ cfg.weight_tail_risk4 ⊗ tail_risk cfg inp
        ⊕ cfg.weight_vov4 ⊗ vov
      else cfg.weight_fear_premium ⊗ fear
        ⊕ cfg.weight_tail_risk ⊗ tail_risk cfg inp
        ⊕ cfg.weight_vov ⊗ vov

  unfoldable pub weighted : Config F → ScoreInputs F → F
  unfolding base_score options_cross options_sum
  weighted cfg inp =
      let w = cfg.weight_options_cross_source in
      if (of_ℕ 0 <? (options_sum cfg inp).1) && (of_ℕ 0 <? w)
      then (of_ℕ 1 ⊖ w) ⊗ base_score cfg inp ⊕ w ⊗ options_cross cfg inp
      else base_score cfg inp

  unfoldable pub components : Config F → ScoreInputs F → List (String × F)
  unfolding tail_risk options_cross opposed
  components cfg inp =
      ("component_fear_premium", opposed cfg.tanh_scale inp.z_spread)
      ∷ ("component_term_structure", opposed cfg.tanh_scale inp.z_term_slope)
      ∷ ("component_tail_risk", tail_risk cfg inp)
      ∷ ("component_vov", opposed cfg.tanh_scale inp.z_vov)
      ∷ ("component_options_cross_source", options_cross cfg inp)
      ∷ []

  -- `computeScore` after `cfg.Defaults()`
  unfoldable pub score_with : ScoreInputs F → Config F → DomainScore F
  unfolding components weighted options_sum
  score_with inp cfg = record {
    asset = inp.asset;
    domain = volatility;
    value_date = inp.value_date;
    score = clamp_score (weighted cfg inp);
    components = components cfg inp;
    feature_codes_used = inp.feature_codes_used;
    model_version = cfg.model_version;
    config_version = cfg.config_version;
    code_sha = cfg.code_sha;
    source_raw_versions =
        ("deribit_dvol", "deribit_dvol_v1")
        ∷ ("deribit_options", "deribit_options_v1")
        ∷ ("binance_klines", "binance_spot_v1")
        ∷ [];
    data_quality =
        ("spread_available", flag inp.z_spread.available)
        ∷ ("skew_real_available", flag inp.z_skew_real.available)
        ∷ ("skew_proxy_available", flag inp.z_skew_proxy.available)
        ∷ ("vov_available", flag inp.z_vov.available)
        ∷ ("term_structure_available", flag inp.z_term_slope.available)
        ∷ ("cg_options_oi_velocity_available", flag inp.z_options_oi_velocity.available)
        ∷ ("cg_put_call_ratio_available", flag inp.z_put_call_ratio.available)
        ∷ ("cg_max_pain_distance_available", flag inp.z_max_pain_distance.available)
        ∷ ("gex_net_dealer_available", flag inp.z_gex_net_dealer.available)
        ∷ ("options_cross_source_n", number (options_sum cfg inp).1)
        ∷ ("using_4_component", flag (usable inp.z_term_slope))
        ∷ ("using_options_cross_source", flag (of_ℕ 0 <? (options_sum cfg inp).1))
        ∷ (
          "partial_coverage",
          flag (
              not (
                inp.z_spread.available
                && inp.z_vov.available
                && (inp.z_skew_real.available || inp.z_skew_proxy.available))),
        )
        ∷ [];
  }

  unfoldable pub compute_score : ScoreInputs F → Config F → DomainScore F
  unfolding defaults score_with
  compute_score inp cfg = score_with inp (defaults cfg)
