-- ===== src/Regime/Config.antt =====
-- internal/regime/config.go. The windows and sample counts are not negative; the smoothing span is
-- an `int`, since a negative one switches the smoothing off.
use marketengine.Prelude.{ℕ, String, Option, none, some, [], ◌∷◌, eqb, if◌then◌else◌}
use marketengine.Prelude.Int.{ℤ, pos}
use marketengine.Float.{Float, ◌=?◌, of_ℕ}
use marketengine.GoMap.{Map}
use marketengine.Domain.{liquidity, leverage, market_stress, capital_flows, volatility}

pub record Config (F : Type 0) : Type 0 where
  pub model_version : String
  pub config_version : String
  pub code_sha : String
  -- `none` is the nil map
  pub weights : Option (Map F)
  pub sigmoid_k : F
  pub roc_window_days : ℕ
  pub roc_weight : F
  pub divergence_weight : F
  pub transition_baseline : F
  pub min_coverage : F
  pub norm_lookback_days : ℕ
  pub norm_min_samples : ℕ
  pub smoothing_span_days : ℤ

-- A `range` over the nil map runs no round.
abbrev pub entries : {F : Type 0} → Option (Map F) → Map F
entries none = []
entries (some m) = m

default_nat : ℕ → ℕ → ℕ
default_nat n d = if eqb n 0 then d else n

default_int : ℤ → ℤ → ℤ
default_int (pos n) d = if eqb n 0 then d else pos n
default_int n d = n

module _ {F : Type 0} ⦃f : Float F⦄ where
  default_float : F → F → F
  default_float x d = if x =? of_ℕ 0 then d else x

  default_weights : Option (Map F) → Option (Map F)
  default_weights none = some (
      (liquidity, f.decimal 25 2)
      ∷ (leverage, f.decimal 20 2)
      ∷ (market_stress, f.decimal 20 2)
      ∷ (capital_flows, f.decimal 20 2)
      ∷ (volatility, f.decimal 15 2)
      ∷ [])
  default_weights (some m) = some m

  unfoldable pub defaults : Config F → Config F
  unfolding default_nat default_int default_float default_weights
  defaults c = record c {
    weights = default_weights c.weights;
    sigmoid_k = default_float c.sigmoid_k (f.decimal 15 1);
    roc_window_days = default_nat c.roc_window_days 14;
    roc_weight = default_float c.roc_weight (f.decimal 7 1);
    divergence_weight = default_float c.divergence_weight (f.decimal 3 1);
    transition_baseline = default_float c.transition_baseline (f.decimal 30 2);
    min_coverage = default_float c.min_coverage (f.decimal 6 1);
    norm_lookback_days = default_nat c.norm_lookback_days 365;
    norm_min_samples = default_nat c.norm_min_samples 60;
    smoothing_span_days = default_int c.smoothing_span_days (pos 21);
  }
