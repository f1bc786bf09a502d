-- ===== src/Examples/Engine.antt =====
-- Concrete inputs: the numeric pipeline of the engine, its checks and its store.
use mathlib.Core.List.{Perm}
use marketengine.Prelude.{
  String, Bool, ◌*◌, ◌+◌, ◌≡◌, ◌↔◌, refl, true, ◌==◌, if◌then◌else◌, none, some, List, [], ◌∷◌,
  ◌++◌, map, get_elem?, leb, IsOrderedBy, arith,
}
use marketengine.Prelude.Int.{pos, leb_ℤ}
use marketengine.Float.{◌⊕◌, ◌⊖◌, ◌⊗◌, ◌=?◌, of_ℕ}
use marketengine.Float.Laws.{InUnit, ◌≼◌}
use marketengine.Float.Fixed.{
  Fixed, fixed, fixed_neg, fixed_float, Fixed-IsOrdered, Fixed-IsRounded,
}
use marketengine.Time.{day, days_between, days_between-get_elem?}
use marketengine.Errors.{Result, ok}
use marketengine.GoMap.{Map, lookup, insert, collect}
use marketengine.Domain.{
  asset_btc, liquidity, leverage, volatility, capital_flows, IndicatorPoint, RegimeState,
  validate_state,
}
use marketengine.Domain.Validation.{IsValidState, validate_state_iff}
use marketengine.Regime.Config.{Config}
use marketengine.Regime.Stats.{sum_from, mean, stddev, clip}
use marketengine.Regime.Aggregate.{
  redistribute_weights, normalize_scores, weighted_sum_normalized, is_present, at, or_nil,
}
use marketengine.Regime.Aggregate.Weights.{
  present_weights, scaled, standardised, weighted, lookup-redistribute_weights,
  lookup-normalize_scores, lookup-contributions,
}
use marketengine.Regime.Risk.{
  TransitionRiskInputs, compute_historical_roc_div, compute_transition_risk, final_probabilities,
}
use marketengine.Regime.Risk.Bounds.{
  together, apart, momentum_lowers_risk, final_probabilities_unit,
}
use marketengine.Regime.Risk.History.{later_points-rocs, later_points-divs}
use marketengine.Regime.Smoothing.{alpha_from_span, ema_smooth, ema_smooth-append}
use marketengine.Regime.Drivers.{build_top_drivers}
use marketengine.Regime.Drivers.Ranking.{unrank, contributes_more, drivers_perm, drivers_ranked}
use marketengine.Regime.Store.{get_latest_all}
use marketengine.Regime.Store.Laws.{lookup-get_latest_all}

abbrev nominal : Map Fixed
nominal = (liquidity, fixed 5000) ∷ (leverage, fixed 3000) ∷ (volatility, fixed 2000) ∷ []

abbrev present : Map Bool
present = (liquidity, true) ∷ (volatility, true) ∷ []

abbrev scores : Map Fixed
scores = (liquidity, fixed 4000) ∷ (volatility, fixed_neg 2500) ∷ []

abbrev histories : Map (List Fixed)
histories = (liquidity, fixed 1000 ∷ fixed 3000 ∷ fixed 5000 ∷ []) ∷ []

abbrev config : Config Fixed
config = record {
  model_version = "engine_v1";
  config_version = "c1";
  code_sha = "abc";
  weights = some nominal;
  sigmoid_k = fixed 15000;
  roc_window_days = 14;
  roc_weight = fixed 7000;
  divergence_weight = fixed 3000;
  transition_baseline = fixed 3000;
  min_coverage = fixed 4000;
  norm_lookback_days = 365;
  norm_min_samples = 2;
  smoothing_span_days = pos 21;
}

abbrev quiet : TransitionRiskInputs Fixed
quiet = record {
  normalized_scores = [];
  roc_per_domain = [];
  historical_rocs = [];
  historical_divs = [];
  momentum_same_direction = true;
  momentum_checked = true;
}

abbrev inputs : TransitionRiskInputs Fixed
inputs = record {
  normalized_scores = scores;
  roc_per_domain = fixed 2000 ∷ fixed 4000 ∷ [];
  historical_rocs = [];
  historical_divs = [];
  momentum_same_direction = true;
  momentum_checked = true;
}

lookup-redistribute_weights_example : lookup liquidity (redistribute_weights nominal present) ≡ (
    if sum_from (of_ℕ 0) (present_weights present nominal) =? of_ℕ 0
    then lookup liquidity nominal
    else if is_present present liquidity
    then scaled (sum_from (of_ℕ 0) (present_weights present nominal)) (lookup liquidity nominal)
    else none)
unfolding lookup
lookup-redistribute_weights_example =
    lookup-redistribute_weights nominal present liquidity (refl, (refl, (refl, tt)))

lookup-normalize_scores_example :
    lookup liquidity (normalize_scores scores histories 2)
    ≡ standardised (or_nil (lookup liquidity histories)) 2 (lookup liquidity scores)
unfolding lookup
lookup-normalize_scores_example =
    lookup-normalize_scores scores histories 2 liquidity (refl, (refl, tt))

lookup-contributions_example :
    lookup leverage (weighted_sum_normalized scores nominal).0
    ≡ weighted (at scores leverage) (lookup leverage nominal)
unfolding lookup
lookup-contributions_example =
    lookup-contributions scores nominal leverage (refl, (refl, (refl, tt)))

momentum_lowers_risk_example :
    compute_transition_risk (together Fixed-IsRounded quiet) config
    ≼ compute_transition_risk (apart Fixed-IsRounded quiet) config
unfolding compute_transition_risk clip stddev mean sum_from lookup
momentum_lowers_risk_example = momentum_lowers_risk Fixed-IsRounded quiet config refl

final_probabilities_unit_example :
    let (on, off) = final_probabilities (fixed 5000) (fixed 2500) (fixed 15000) in
    InUnit on × InUnit off × (on ≼ of_ℕ 1 ⊖ fixed 2500) × (off ≼ of_ℕ 1 ⊖ fixed 2500)
final_probabilities_unit_example =
    final_probabilities_unit Fixed-IsRounded (fixed 5000) (fixed 2500) (fixed 15000) (refl, refl)
      refl

abbrev observed : List (IndicatorPoint Fixed)
observed =
    record { value_date = 90 * day; regime_indicator = fixed 2000 }
    ∷ record { value_date = 85 * day; regime_indicator = fixed 1000 }
    ∷ []

abbrev observed_later : List (IndicatorPoint Fixed)
observed_later = record { value_date = 120 * day; regime_indicator = fixed 9000 } ∷ []

later_points-rocs_example :
    (compute_historical_roc_div (observed ++ observed_later) (100 * day) 5 30).0
    ≡ (compute_historical_roc_div observed (100 * day) 5 30).0
later_points-rocs_example =
    later_points-rocs observed observed_later (100 * day) 5 30 (omega arith) (omega arith, tt)

later_points-divs_example :
    (compute_historical_roc_div (observed ++ observed_later) (100 * day) 5 30).1
    ≡ (compute_historical_roc_div observed (100 * day) 5 30).1
later_points-divs_example =
    later_points-divs observed observed_later (100 * day) 5 30 (omega arith) (omega arith, tt)

ema_smooth-append_example : ema_smooth (fixed 5000) (fixed 1000 ∷ fixed 2000 ∷ []) (pos 3) ≡ (
    if leb_ℤ (pos 3) (pos 1)
    then fixed 5000
    else alpha_from_span (pos 3) ⊗ fixed 5000
      ⊕ (of_ℕ 1 ⊖ alpha_from_span (pos 3)) ⊗ ema_smooth (fixed 2000) (fixed 1000 ∷ []) (pos 3))
ema_smooth-append_example = ema_smooth-append (fixed 5000) (fixed 2000) (fixed 1000 ∷ []) (pos 3)

drivers_perm_example : Perm (map unrank (build_top_drivers scores)) scores
drivers_perm_example = drivers_perm scores

drivers_ranked_example : IsOrderedBy contributes_more (build_top_drivers scores)
drivers_ranked_example = drivers_ranked Fixed-IsOrdered scores (refl, (refl, tt))

days_between-get_elem?_example :
    get_elem? (days_between (3 * day) (5 * day)) 1
    ≡ (if leb (3 * day + 1 * day) (5 * day) then some (3 * day + 1 * day) else none)
days_between-get_elem?_example = days_between-get_elem? (3 * day) (5 * day) 1

abbrev state : RegimeState Fixed
state = record {
  asset = asset_btc;
  value_date = 5 * day;
  regime_indicator = fixed 4000;
  regime_indicator_raw = fixed 3000;
  risk_on_probability = fixed 5000;
  risk_off_probability = fixed 2500;
  transition_risk = fixed 2500;
  model_version = "engine_v1";
  config_version = "c1";
  code_sha = "abc";
  domain_contributions = scores;
  top_drivers = [];
  effective_weights = nominal;
  feature_coverage_flag = present;
  interaction_flags = [];
}

validate_state_iff_example : (validate_state state ≡ ok tt) ↔ IsValidState Fixed-IsOrdered state
validate_state_iff_example = validate_state_iff Fixed-IsOrdered state

abbrev stored : String → Result (Map Fixed)
stored a = if a == "GLOBAL" then ok ((capital_flows, fixed 700) ∷ []) else ok scores

lookup-get_latest_all_example : lookup capital_flows (scores ++ (capital_flows, fixed 700) ∷ []) ≡ (
    if capital_flows == capital_flows
    then lookup capital_flows ((capital_flows, fixed 700) ∷ [])
    else lookup capital_flows scores)
unfolding get_latest_all lookup insert collect
lookup-get_latest_all_example =
    lookup-get_latest_all stored asset_btc scores ((capital_flows, fixed 700) ∷ [])
      (scores ++ (capital_flows, fixed 700) ∷ []) capital_flows refl refl refl (refl, (refl, tt))
