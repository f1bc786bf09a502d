-- ===== src/Scoring/Leverage.antt =====
-- internal/leverage/pipeline.go and config.go: the score of the leverage domain. A field of
-- `ScoreInputs` and the `Available` field beside it are one `Reading`.
use marketengine.Prelude.{String, ◌&&◌, ◌||◌, not, List, [], ◌∷◌, if◌then◌else◌}
use marketengine.Float.{Float, ◌⊕◌, ◌⊖◌, ◌⊗◌, of_ℕ}
use marketengine.Time.{Time}
use marketengine.Domain.{Asset, DomainScore, flag, number, leverage}
use marketengine.Scoring.{
  Reading, usable, or_default, tanh_squash, signal, opposed, add_signal, add_opposed, nothing_yet,
  average, clamp_score,
}

pub record ScoreInputs (F : Type 0) : Type 0 where
  pub asset : Asset
  pub value_date : Time
  pub oi_percentile : Reading F
  pub funding_z : Reading F
  pub basis_z : Reading F
  pub liq_z : Reading F
  pub oi_change_z : Reading F
  pub position_skew_z : Reading F
  pub crowd_divergence_z : Reading F
  pub taker_aggression_z : Reading F
  pub feature_codes_used : List String

pub record Config (F : Type 0) : Type 0 where
  pub model_version : String
  pub config_version : String
  pub code_sha : String
  pub intermediate_version : String
  pub final_version : String
  pub weight_size : F
  pub weight_funding : F
  pub weight_basis : F
  pub weight_liq : F
  pub weight_momentum : F
  pub weight_crowd_positioning : F
  pub tanh_scale : F

module _ {F : Type 0} ⦃f : Float F⦄ where
  unfoldable pub defaults : Config F → Config F
  defaults c = record c {
    weight_size = or_default c.weight_size (f.decimal 255 3);
    weight_funding = or_default c.weight_funding (f.decimal 1_275 4);
    weight_basis = or_default c.weight_basis (f.decimal 17 2);
    weight_liq = or_default c.weight_liq (f.decimal 17 2);
    weight_momentum = or_default c.weight_momentum (f.decimal 1_275 4);
    weight_crowd_positioning = or_default c.weight_crowd_positioning (f.decimal 15 2);
    tanh_scale = or_default c.tanh_scale (of_ℕ 2);
  }

  unfoldable size : Config F → ScoreInputs F → F
  unfolding tanh_squash
  size cfg inp =
      if usable inp.oi_percentile
      then f.minus (tanh_squash ((inp.oi_percentile.value ⊖ f.decimal 5 1) ⊗ of_ℕ 4) cfg.tanh_scale)
      else of_ℕ 0

  -- `compCrowd` before the division, and `crowdN`
  unfoldable crowd_sum : Config F → ScoreInputs F → F × F
  unfolding add_signal add_opposed
  crowd_sum cfg inp = add_signal cfg.tanh_scale inp.taker_aggression_z (
      add_signal cfg.tanh_scale inp.crowd_divergence_z
        (add_opposed cfg.tanh_scale inp.position_skew_z nothing_yet))

  unfoldable crowd : Config F → ScoreInputs F → F
  unfolding average crowd_sum
  crowd cfg inp = average (crowd_sum cfg inp)

  unfoldable weighted : Config F → ScoreInputs F → F
  unfolding size crowd signal opposed
  weighted cfg inp =
      cfg.weight_size ⊗ size cfg inp
      ⊕ cfg.weight_funding ⊗ signal cfg.tanh_scale inp.funding_z
      ⊕ cfg.weight_basis ⊗ signal cfg.tanh_scale inp.basis_z
      ⊕ cfg.weight_liq ⊗ opposed cfg.tanh_scale inp.liq_z
      ⊕ cfg.weight_momentum ⊗ opposed cfg.tanh_scale inp.oi_change_z
      ⊕ cfg.weight_crowd_positioning ⊗ crowd cfg inp

  components : Config F → ScoreInputs F → List (String × F)
  unfolding size crowd signal opposed
  components cfg inp =
      ("component_size", size cfg inp)
      ∷ ("component_funding", signal cfg.tanh_scale inp.funding_z)
      ∷ ("component_basis", signal cfg.tanh_scale inp.basis_z)
      ∷ ("component_liq", opposed cfg.tanh_scale inp.liq_z)
      ∷ ("component_momentum", opposed cfg.tanh_scale inp.oi_change_z)
      ∷ ("component_crowd_positioning", crowd cfg inp)
      ∷ []

  -- `computeScore` after `cfg.Defaults()`
  unfoldable pub score_with : ScoreInputs F → Config F → DomainScore F
  unfolding components weighted crowd_sum
  score_with inp cfg = record {
    asset = inp.asset;
    domain = leverage;
    value_date = inp.value_date;
    score = clamp_score (weighted cfg inp);
    components = components cfg inp;
    feature_codes_used = inp.feature_codes_used;
    model_version = cfg.model_version;
    config_version = cfg.config_version;
    code_sha = cfg.code_sha;
    source_raw_versions =
        ("exchange_oi", "exchange_v1")
        ∷ ("exchange_funding", "exchange_v1")
        ∷ ("exchange_liqs", "exchange_v1")
        ∷ ("deribit_basis", "deribit_v1")
        ∷ ("coinglass_basis", "coinglass_v4")
        ∷ [];
    data_quality =
        ("oi_available", flag inp.oi_percentile.available)
        ∷ ("funding_available", flag inp.funding_z.available)
        ∷ ("basis_available", flag inp.basis_z.available)
        ∷ ("liq_available", flag inp.liq_z.available)
        ∷ ("momentum_available", flag inp.oi_change_z.available)
        ∷ ("position_skew_available", flag inp.position_skew_z.available)
        ∷ ("crowd_divergence_available", flag inp.crowd_divergence_z.available)
        ∷ ("taker_aggression_available", flag inp.taker_aggression_z.available)
        ∷ ("crowd_positioning_n", number (crowd_sum cfg inp).1)
        ∷ (
          "partial_coverage",
          flag (
              not (
                inp.oi_percentile.available
                && inp.funding_z.available
                && inp.basis_z.available
                && inp.liq_z.available
                && inp.oi_change_z.available
                && (inp.position_skew_z.available || inp.crowd_divergence_z.available
                    || inp.taker_aggression_z.available))),
        )
        ∷ [];
  }

  unfoldable pub compute_score : ScoreInputs F → Config F → DomainScore F
  unfolding defaults score_with
  compute_score inp cfg = score_with inp (defaults cfg)
