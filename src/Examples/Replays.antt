-- ===== src/Examples/Replays.antt =====
-- Concrete inputs: labels, and a replay over ports that answer from fixed tables.
use marketengine.Prelude.{
  ℕ, List, length, map, arith, ◌*◌, ◌≡◌, ◌≢◌, if◌then◌else◌, ◌⊎◌, refl, none, some, [], ◌∷◌,
}
use marketengine.Prelude.Int.{pos}
use marketengine.Float.Laws.{◌≺◌, ◌≼◌, InUnit}
use marketengine.Float.Fixed.{
  Fixed, fixed, fixed_neg, fixed_float, Fixed-IsOrdered, Fixed-IsRounded,
}
use marketengine.Time.{day, utc_day, after}
use marketengine.Errors.{ok, err, message}
use marketengine.Domain.{
  Label, asset_btc, liquidity, leverage, volatility, risk_on, risk_off, transition,
}
use marketengine.Regime.Config as Engine
use marketengine.Backtest.Classifier.{default_hysteresis, validate, classify_hysteresis}
use marketengine.Backtest.Classifier.Stability.{hysteresis_stable, label_change_crosses}
use marketengine.Backtest.Ports.{Config, Ports}
use marketengine.Backtest.Service.{RegimeDay, replay}
use marketengine.Backtest.Persistence.{runs_of, persistence_metrics}
use marketengine.Backtest.Persistence.Cover.{labels_of, labels_of-runs_of, flip_flop_rate_unit}
use marketengine.Backtest.Service.Replay.{replay-with_span}
use marketengine.Backtest.Service.Trace.{Replayed, replay-Replayed}

hysteresis_stable_example :
    let label = classify_hysteresis default_hysteresis transition (fixed 3000) (fixed 1000) in
    classify_hysteresis default_hysteresis label (fixed 3000) (fixed 1000) ≡ label
unfolding validate
hysteresis_stable_example =
    hysteresis_stable Fixed-IsOrdered default_hysteresis transition (fixed 3000) (fixed 1000) refl

label_change_crosses_example :
    let label = classify_hysteresis default_hysteresis transition (fixed 3000) (fixed 1000) in
    (((label ≡ transition)
        × ((fixed 8600 ≼ fixed 1000)
            ⊎ ((transition ≡ risk_on) × (fixed 3000 ≼ fixed 500))
            ⊎ ((transition ≡ risk_off) × (fixed_neg 500 ≼ fixed 3000))))
      ⊎ ((label ≡ risk_on) × (fixed 2000 ≺ fixed 3000))
      ⊎ ((label ≡ risk_off) × (fixed 3000 ≺ fixed_neg 2000)))
    × ((transition ≢ transition) ⊎ (fixed 1000 ≺ fixed 8000))
unfolding classify_hysteresis
label_change_crosses_example =
    label_change_crosses Fixed-IsOrdered default_hysteresis transition (fixed 3000) (fixed 1000)
      (λ e. cc)

abbrev settings : Config
settings = record { sla_offset_minutes = 60; harness_version = "harness_v1.0.0"; code_sha = "abc" }

abbrev engine : Engine.Config Fixed
engine = record {
  model_version = "engine_v1";
  config_version = "c1";
  code_sha = "abc";
  weights = some ((liquidity, fixed 4000) ∷ (leverage, fixed 3000) ∷ (volatility, fixed 3000) ∷ []);
  sigmoid_k = fixed 15000;
  roc_window_days = 14;
  roc_weight = fixed 7000;
  divergence_weight = fixed 3000;
  transition_baseline = fixed 3000;
  min_coverage = fixed 6000;
  norm_lookback_days = 365;
  norm_min_samples = 60;
  smoothing_span_days = pos 21;
}

abbrev ports : Ports Fixed
ports = record {
  save_run = λ run h. ok "run-1";
  update_status = λ id status t h. ok tt;
  save_state = λ id s h. ok tt;
  get_by_date = λ a x d c h. ok none;
  get_latest_all = λ a d c h.
      ok ((liquidity, fixed 5000) ∷ (leverage, fixed 200) ∷ (volatility, fixed 100) ∷ []);
  get_history = λ a x n h. ok [];
  get_indicator_raw_series = λ a from to c h. ok [];
  now = λ h. 200 * day;
  snapshot_hash = λ s. "sha256:0";
}

replay-with_span_example :
    replay ports settings
      (record engine { smoothing_span_days = pos 5 })
      ""
      (asset_btc ∷ [])
      (90 * day)
      (92 * day)
      none
      "replay"
    ≡ replay ports settings engine "" (asset_btc ∷ []) (90 * day) (92 * day) none "replay"
replay-with_span_example =
    replay-with_span ports settings engine (pos 5) "" (asset_btc ∷ []) (90 * day) (92 * day) none
      "replay"

replay-Replayed_example :
    let x =
      replay ports settings engine "" (asset_btc ∷ []) (90 * day) (92 * day) none "replay" [] in
    if after (utc_day (90 * day)) (utc_day (92 * day))
    then (x.0 ≡ err (message "replay: periodStart after periodEnd")) × (x.1 ≡ [])
    else Replayed ports (utc_day (90 * day)) (utc_day (92 * day)) [] x
replay-Replayed_example =
    replay-Replayed ports settings engine "" (asset_btc ∷ []) (90 * day) (92 * day) none "replay" []

abbrev on_day : ℕ → Label → RegimeDay Fixed
on_day n label = record {
  value_date = n * day;
  regime_indicator = fixed 0;
  risk_on_prob = fixed 0;
  risk_off_prob = fixed 0;
  transition_risk = fixed 0;
  label = label;
}

-- a day is missing between the last two
abbrev days : List (RegimeDay Fixed)
days = on_day 90 risk_on ∷ on_day 91 risk_off ∷ on_day 92 risk_on ∷ on_day 94 risk_on ∷ []

four_runs : length (runs_of days) ≡ 4
unfolding runs_of
four_runs = refl

labels_of-runs_of_example : labels_of (runs_of days) ≡ map (λ d. d.label) days
labels_of-runs_of_example = labels_of-runs_of days

flip_flop_rate_unit_example : InUnit (persistence_metrics days).flip_flop_rate
flip_flop_rate_unit_example = flip_flop_rate_unit Fixed-IsRounded days (omega arith)
