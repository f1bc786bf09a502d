-- ===== src/Scoring/MarketStress.antt =====
-- internal/marketstress/pipeline.go and config.go: the score of the market stress domain. A field of
-- `ScoreInputs` and the `Available` field beside it are one `Reading`.
use marketengine.Prelude.{String, ◌||◌, not, List, [], ◌∷◌}
use marketengine.Float.{Float, ◌⊕◌, ◌⊗◌, of_ℕ}
use marketengine.Time.{Time}
use marketengine.Domain.{Asset, DomainScore, flag, number, market_stress}
use marketengine.Scoring.{
  Reading, or_default, signal, add_signal, add_opposed, nothing_yet, average, clamp_score,
}

pub record ScoreInputs (F : Type 0) : Type 0 where
  pub asset : Asset
  pub value_date : Time
  pub z_correlation : Reading F
  pub z_peg : Reading F
  pub z_coinbase : Reading F
  pub z_basis : Reading F
  pub z_book_imbalance : Reading F
  pub z_futures_spot_ratio : Reading F
  pub feature_codes_used : List String

pub record Config (F : Type 0) : Type 0 where
  pub model_version : String
  pub config_version : String
  pub code_sha : String
  pub intermediate_version : String
  pub final_version : String
  pub leverage_basis_version : String
  pub weight_correlation : F
  pub weight_peg : F
  pub weight_coinbase : F
  pub weight_basis_inversion : F
  pub weight_microstructure : F
  pub tanh_scale : F

module _ {F : Type 0} ⦃f : Float F⦄ where
  unfoldable pub defaults : Config F → Config F
  defaults c = record c {
    weight_correlation = or_default c.weight_correlation (f.decimal 24 2);
    weight_peg = or_default c.weight_peg (f.decimal 20 2);
    weight_coinbase = or_default c.weight_coinbase (f.decimal 12 2);
    weight_basis_inversion = or_default c.weight_basis_inversion (f.decimal 24 2);
    weight_microstructure = or_default c.weight_microstructure (f.decimal 20 2);
    tanh_scale = or_default c.tanh_scale (of_ℕ 2);
  }

  -- `compMicro` before the division, and `microN`
  unfoldable micro_sum : Config F → ScoreInputs F → F × F
  unfolding add_signal add_opposed
  micro_sum cfg inp =
      add_signal cfg.tanh_scale inp.z_futures_spot_ratio
        (add_opposed cfg.tanh_scale inp.z_book_imbalance nothing_yet)

  unfoldable micro : Config F → ScoreInputs F → F
  unfolding average micro_sum
  micro cfg inp = average (micro_sum cfg inp)

  unfoldable weighted : Config F → ScoreInputs F → F
  unfolding micro signal
  weighted cfg inp = f.minus (
      cfg.weight_correlation ⊗ signal cfg.tanh_scale inp.z_correlation
      ⊕ cfg.weight_peg ⊗ signal cfg.tanh_scale inp.z_peg
      ⊕ cfg.weight_coinbase ⊗ signal cfg.tanh_scale inp.z_coinbase
      ⊕ cfg.weight_basis_inversion ⊗ signal cfg.tanh_scale inp.z_basis
      ⊕ cfg.weight_microstructure ⊗ micro cfg inp)

  components : Config F → ScoreInputs F → List (String × F)
  unfolding micro signal
  components cfg inp =
      ("component_correlation", signal cfg.tanh_scale inp.z_correlation)
      ∷ ("component_peg", signal cfg.tanh_scale inp.z_peg)
      ∷ ("component_coinbase", signal cfg.tanh_scale inp.z_coinbase)
      ∷ ("component_basis_inversion", signal cfg.tanh_scale inp.z_basis)
      ∷ ("component_microstructure", micro cfg inp)
      ∷ []

  -- `computeScore` after `cfg.Defaults()`
  unfoldable pub score_with : ScoreInputs F → Config F → DomainScore F
  unfolding components weighted micro_sum
  score_with inp cfg = record {
    asset = inp.asset;
    domain = market_stress;
    value_date = inp.value_date;
    score = clamp_score (weighted cfg inp);
    components = components cfg inp;
    feature_codes_used = inp.feature_codes_used;
    model_version = cfg.model_version;
    config_version = cfg.config_version;
    code_sha = cfg.code_sha;
    source_raw_versions =
        ("binance_klines", "binance_spot_v1")
        ∷ ("kraken_ohlc", "kraken_v1")
        ∷ ("coinbase_candles", "coinbase_v1")
        ∷ ("leverage_basis", cfg.leverage_basis_version)
        ∷ [];
    data_quality =
        (
          "partial_coverage",
          flag (
              not inp.z_correlation.available
              || not inp.z_peg.available
              || not inp.z_coinbase.available
              || not inp.z_basis.available),
        )
        ∷ ("correlation_available", flag inp.z_correlation.available)
        ∷ ("peg_available", flag inp.z_peg.available)
        ∷ ("coinbase_available", flag inp.z_coinbase.available)
        ∷ ("basis_available", flag inp.z_basis.available)
        ∷ ("book_imbalance_available", flag inp.z_book_imbalance.available)
        ∷ ("futures_spot_ratio_available", flag inp.z_futures_spot_ratio.available)
        ∷ ("microstructure_n", number (micro_sum cfg inp).1)
        ∷ [];
  }

  unfoldable pub compute_score : ScoreInputs F → Config F → DomainScore F
  unfolding defaults score_with
  compute_score inp cfg = score_with inp (defaults cfg)
