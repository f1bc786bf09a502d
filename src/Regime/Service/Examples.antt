-- ===== src/Regime/Service/Examples.antt =====
-- Concrete inputs: the engine's service over ports that answer from fixed tables.
use marketengine.Prelude.{◌*◌, ◌≡◌, refl, none, some, List, [], ◌∷◌, if◌then◌else◌}
use marketengine.Prelude.Int.{pos}
use marketengine.Float.Fixed.{Fixed, fixed, fixed_neg, fixed_float, Fixed-IsRounded}
use marketengine.Time.{day, utc_day, days_between, add_days, after}
use marketengine.Errors.{Err, Result, ok, err, message}
use marketengine.Effects.{pure, query, context, fail_if, ◌>>=◌}
use marketengine.GoMap.{Map, lookup, insert, collect}
use marketengine.Domain.{
  asset_btc, asset_eth, liquidity, leverage, market_stress, capital_flows, volatility, RegimeState,
  validate_state,
}
use marketengine.Regime.Config.{Config}
use marketengine.Regime.Aggregate.{
  coverage_fraction, present_set, weighted_sum_normalized, redistribute_weights, normalize_scores,
  sum_present,
}
use marketengine.Regime.Stats.{mean, stddev, sum_from, clip}
use marketengine.Regime.Smoothing.{ema_smooth}
use marketengine.Regime.Ports.{Action, Ports}
use marketengine.Regime.Service.{
  read_histories, read_rocs, read_momentum, gather_transition_risk_inputs, smooth, make_state,
  state_from_scores, compute_state, compute_one, run_once, run_backfill,
}
use marketengine.Regime.Service.Outcome.{IsFor, Outcome, compute_one-Outcome}
use marketengine.Regime.Service.Runs.{Trace, Log, rounds_of, run_once-Trace, run_backfill-Log}
use marketengine.Regime.Service.Success.{Answers, Ending, compute_one_checked}
use marketengine.Regime.Store.{save}
use marketengine.Regime.Store.Laws.{large_indicator_unsaved}

abbrev config : Config Fixed
config = record {
  model_version = "engine_v1";
  config_version = "c1";
  code_sha = "abc";
  weights = some (
      (liquidity, fixed 2500)
      ∷ (leverage, fixed 2000)
      ∷ (market_stress, fixed 2000)
      ∷ (capital_flows, fixed 2000)
      ∷ (volatility, fixed 1500)
      ∷ []);
  sigmoid_k = fixed 15000;
  roc_window_days = 14;
  roc_weight = fixed 7000;
  divergence_weight = fixed 3000;
  transition_baseline = fixed 3000;
  min_coverage = fixed 6000;
  norm_lookback_days = 365;
  norm_min_samples = 2;
  smoothing_span_days = pos 21;
}

abbrev scores : Map Fixed
scores =
    (liquidity, fixed 4000)
    ∷ (leverage, fixed_neg 1000)
    ∷ (market_stress, fixed_neg 2500)
    ∷ (volatility, fixed 500)
    ∷ []

abbrev steady : List (Action Fixed) → Result (Unit {0})
steady h = ok tt

abbrev ports : Ports Fixed
ports = record {
  get_latest_all = λ a d c h. ok scores;
  get_by_date = λ a x d c h. ok (some (fixed 1000));
  get_history = λ a x n h. ok [];
  get_indicator_raw_series = λ a from to h. ok [];
  get_smoothing_trailing = λ a from to c h. ok [];
  save = λ s h. ok tt;
  publish = λ e h. ok tt;
  now = λ h. ok (100 * day);
}

compute_one-Outcome_example :
    Outcome ports config asset_btc
      (90 * day)
      (100 * day)
      []
      (compute_one ports config asset_btc (90 * day) (100 * day) [])
compute_one-Outcome_example =
    compute_one-Outcome ports config Fixed-IsRounded asset_btc (90 * day) (100 * day) []

run_once-Trace_example :
    Trace ports config
      (utc_day (90 * day))
      (100 * day)
      (asset_btc ∷ asset_eth ∷ [])
      []
      (run_once ports config (asset_btc ∷ asset_eth ∷ []) (90 * day) [])
run_once-Trace_example =
    run_once-Trace ports config Fixed-IsRounded (asset_btc ∷ asset_eth ∷ []) (90 * day) []
      (100 * day) refl

run_backfill-Log_example :
    let (r, h') = run_backfill ports config (asset_btc ∷ []) (88 * day) (90 * day) [] in
    if after (utc_day (88 * day)) (utc_day (90 * day))
    then (r ≡ err (message "backfill from after to")) × (h' ≡ [])
    else (r ≡ ok tt)
      × Log ports config
          (add_days (100 * day) 1)
          (rounds_of ports config
            (days_between (utc_day (88 * day)) (utc_day (90 * day)))
            (asset_btc ∷ []))
          []
          h'
run_backfill-Log_example =
    run_backfill-Log ports config Fixed-IsRounded (asset_btc ∷ []) (88 * day) (90 * day) []
      (100 * day) refl

-- Ports whose repository is the one of internal/infra/postgres, with the same steep history for
-- each domain and no score of an earlier date.
abbrev accepts : List (Action Fixed) → RegimeState Fixed → Result (Unit {0})
accepts h s = ok tt

abbrev checked_ports : Ports Fixed
checked_ports = record ports {
  get_by_date = λ a x d c h. ok none;
  get_history = λ a x n h. ok (fixed 100 ∷ fixed 200 ∷ fixed 300 ∷ []);
  save = λ s h. save (accepts h) s;
}

-- the same repository, without a history
abbrev calm_ports : Ports Fixed
calm_ports = record ports { save = λ s h. save (accepts h) s }

abbrev answers : Answers calm_ports accepts
answers = record {
  scores = λ a d c h. (scores, refl);
  dated = λ a x d c h. (some (fixed 1000), refl);
  histories = λ a x n h. ([], refl);
  series = λ a d c h. ([], refl);
  trail = λ a d e c h. ([], refl);
  saves = λ s h. refl;
  inserts = λ s h. refl;
  publishes = λ e h. refl;
}

compute_one_checked_example :
    (s : RegimeState Fixed) × ((compute_state calm_ports config asset_btc
        (90 * day)
        (100 * day)
        []).0
      ≡ ok s)
    × IsFor calm_ports config asset_btc (90 * day) s
    × (compute_one calm_ports config asset_btc (90 * day) (100 * day) []
        ≡ Ending calm_ports config s [] (validate_state s))
unfolding coverage_fraction
compute_one_checked_example =
    compute_one_checked calm_ports config accepts answers Fixed-IsRounded asset_btc (90 * day)
      (100 * day) [] scores refl refl

abbrev state_of : Result (RegimeState Fixed) → RegimeState Fixed → RegimeState Fixed
state_of (ok s) d = s
state_of (err e) d = d

abbrev blank : RegimeState Fixed
blank = record {
  asset = asset_btc;
  value_date = 0;
  regime_indicator = fixed 0;
  regime_indicator_raw = fixed 0;
  risk_on_probability = fixed 0;
  risk_off_probability = fixed 0;
  transition_risk = fixed 0;
  model_version = "";
  config_version = "";
  code_sha = "";
  domain_contributions = [];
  top_drivers = [];
  effective_weights = [];
  feature_coverage_flag = [];
  interaction_flags = [];
}

abbrev large : RegimeState Fixed
large = state_of (compute_state checked_ports config asset_btc (90 * day) (100 * day) []).0 blank

large_indicator_unsaved_example :
    let (r, h') = compute_one checked_ports config asset_btc (90 * day) (100 * day) [] in
    ((e : Err) × (r ≡ err e)) × (h' ≡ [])
unfolding compute_state state_from_scores read_histories read_rocs read_momentum
    gather_transition_risk_inputs smooth make_state pure query context fail_if ◌>>=◌
    coverage_fraction lookup present_set insert weighted_sum_normalized redistribute_weights
    normalize_scores collect mean stddev sum_from clip sum_present ema_smooth
large_indicator_unsaved_example =
    large_indicator_unsaved checked_ports config accepts Fixed-IsRounded (λ s h. refl) asset_btc
      (90 * day) (100 * day) [] large refl refl
