-- ===== src/Regime/Service.antt =====
-- internal/regime/service.go over the interfaces of port.go. `compute_state` is `computeOne` up to
-- the state, and `compute_one` goes on with its last two calls.
mod Reads
pub mod Outcome
pub mod Runs
pub mod Success
mod Examples
use marketengine.Prelude.{
  ℕ, ◌+◌, ◌*◌, String, Bool, true, false, ◌&&◌, not, Option, none, some, List, [], ◌∷◌, ◌++◌, map,
  if◌then◌else◌,
}
use marketengine.Prelude.Int.{ℤ, pos, pos_part, ltb_ℤ}
use marketengine.Float.{Float, ◌⊖◌, ◌⊘◌, ◌<?◌, ◌=?◌, of_ℕ}
use marketengine.Time.{Time, day, utc_day, add_days, sub_days, after, days_between}
use marketengine.Errors.{Result, insufficient_coverage, message, wrap}
use marketengine.Effects.{
  Eff, pure, raise, query, context, ◌>>=◌, ◌>>◌, perform, fail_if, skip_error,
}
use marketengine.GoMap.{Map, insert, lookup}
use marketengine.Domain.{
  Asset, assets_tradeable, DomainCode, all_domains, IndicatorPoint, RegimeState,
}
use marketengine.Regime.Config.{Config, defaults, entries}
use marketengine.Regime.Ports.{SmoothingTrailingPoint, StateEvent, Action, saved, published, Ports}
use marketengine.Regime.Stats.{clip, signf}
use marketengine.Regime.Aggregate.{
  present_set, is_present, at, coverage_fraction, redistribute_weights, normalize_scores,
  weighted_sum_raw, weighted_sum_normalized,
}
use marketengine.Regime.Risk.{
  TransitionRiskInputs, compute_historical_roc_div, compute_transition_risk, final_probabilities,
}
use marketengine.Regime.Smoothing.{ema_smooth}
use marketengine.Regime.Drivers.{build_top_drivers}

module _ {F : Type 0} ⦃f : Float F⦄ (ports : Ports F) (cfg : Config F) where
  -- for d := range scores, of the domains `ds`
  pub read_histories : Asset → Map F → Map (List F) → Eff (Action F) (Map (List F))
  read_histories asset [] out = pure out
  read_histories asset ((d, s) ∷ m) out = do
    h ← context "domain history" (query (ports.get_history asset d cfg.norm_lookback_days))
    read_histories asset m (insert d h out)

  abbrev add_roc : F → Option F → List F → List F
  add_roc today none rocs = rocs
  add_roc today (some past) rocs = rocs ++ (f.abs (today ⊖ past) ⊘ of_ℕ cfg.roc_window_days) ∷ []

  -- the first loop of `gatherTransitionRiskInputs`
  pub read_rocs :
      Asset → Time → Time → Map F → Map Bool → List DomainCode → List F → Eff (Action F) (List F)
  read_rocs asset ref_date cutoff scores present [] rocs = pure rocs
  read_rocs asset ref_date cutoff scores present (d ∷ ds) rocs =
      let next = read_rocs asset ref_date cutoff scores present ds in
      if is_present present d
      then (do
        past ← context "domain score" (query (ports.get_by_date asset d ref_date cutoff))
        next (add_roc (at scores d) past rocs))
      else next rocs

  -- whether today's normalised score has the sign of the score three days ago
  abbrev same_direction : F → Option F → Bool
  same_direction today none = false
  same_direction today (some past) = signf today =? signf past

  -- the second loop: the marks `checkedAny` and `allSameDir`
  pub read_momentum :
      Asset → Time → Time → Map F → Map Bool → List DomainCode → Bool → Eff (Action F) (Bool × Bool)
  read_momentum asset past_date cutoff normalized present [] checked = pure (checked, true)
  read_momentum asset past_date cutoff normalized present (d ∷ ds) checked =
      let next = read_momentum asset past_date cutoff normalized present ds in
      if is_present present d
      then (do
        past ← context "momentum lookup" (query (ports.get_by_date asset d past_date cutoff))
        if same_direction (at normalized d) past then next true else pure (checked, false))
      else next checked

  pub gather_transition_risk_inputs :
      Asset → Time → Time → Map F → Map F → Map Bool → Eff (Action F) (TransitionRiskInputs F)
  gather_transition_risk_inputs asset value_date cutoff scores normalized present = do
    let ref_date = sub_days value_date cfg.roc_window_days
    rocs ← read_rocs asset ref_date cutoff scores present all_domains []
    let from = sub_days value_date (90 + cfg.roc_window_days)
    let to = sub_days value_date 1
    series ← context "indicator raw series" (query (ports.get_indicator_raw_series asset from to))
    let history = compute_historical_roc_div series value_date cfg.roc_window_days 90
    momentum ←
        read_momentum asset (sub_days value_date 3) cutoff normalized present all_domains false
    pure (record {
      normalized_scores = normalized;
      roc_per_domain = rocs;
      historical_rocs = history.0;
      historical_divs = history.1;
      momentum_same_direction = momentum.0 && momentum.1;
      momentum_checked = momentum.0;
    })

  -- `indicator` and `transRisk` after the smoothing
  pub smooth : Asset → Time → Time → F → F → Eff (Action F) (F × F)
  smooth asset value_date cutoff indicator risk =
      let span = cfg.smoothing_span_days in
      if ltb_ℤ (pos 1) span
      then (do
        let from = sub_days value_date (2 * pos_part span)
        let to = sub_days value_date 1
        trail ←
            context "smoothing trailing" (query (ports.get_smoothing_trailing asset from to cutoff))
        let prev_ri = map (λ p. p.regime_indicator) trail
        let prev_tr = map (λ p. p.transition_risk) trail
        pure (
          ema_smooth indicator prev_ri span,
          clip (ema_smooth risk prev_tr span) (of_ℕ 0) (of_ℕ 1),
        ))
      else pure (indicator, risk)

  coverage_flags : Map Bool → List DomainCode → Map Bool → Map Bool
  coverage_flags present [] out = out
  coverage_flags present (d ∷ ds) out =
      coverage_flags present ds (insert d (is_present present d) out)

  -- the literal `domain.RegimeState{…}`
  pub make_state : Asset → Time → Map F → Map F → Map Bool → Map F → F → F → RegimeState F
  unfolding coverage_flags
  make_state asset value_date scores weights present contributions indicator risk =
      let (on, off) = final_probabilities indicator risk cfg.sigmoid_k in
      record {
        asset = asset;
        value_date = value_date;
        regime_indicator = indicator;
        regime_indicator_raw = weighted_sum_raw scores weights;
        risk_on_probability = on;
        risk_off_probability = off;
        transition_risk = risk;
        model_version = cfg.model_version;
        config_version = cfg.config_version;
        code_sha = cfg.code_sha;
        domain_contributions = contributions;
        top_drivers = build_top_drivers contributions;
        effective_weights = weights;
        feature_coverage_flag = coverage_flags present all_domains [];
        interaction_flags = [];
      }

  -- what follows the coverage test
  pub state_from_scores : Asset → Time → Time → Map F → Eff (Action F) (RegimeState F)
  state_from_scores asset value_date cutoff scores = do
    let present = present_set scores
    let weights = redistribute_weights (entries cfg.weights) present
    histories ← read_histories asset scores []
    let normalized = normalize_scores scores histories cfg.norm_min_samples
    let sums = weighted_sum_normalized normalized weights
    inputs ←
        context "transition risk inputs"
          (gather_transition_risk_inputs asset value_date cutoff scores normalized present)
    let risk = compute_transition_risk inputs cfg
    smoothed ← smooth asset value_date cutoff sums.1 risk
    pure (make_state asset value_date scores weights present sums.0 smoothed.0 smoothed.1)

  pub compute_state : Asset → Time → Time → Eff (Action F) (RegimeState F)
  compute_state asset value_date cutoff = do
    scores ← context "read domain scores" (query (ports.get_latest_all asset value_date cutoff))
    fail_if (coverage_fraction scores <? cfg.min_coverage) (wrap "coverage" insufficient_coverage)
    state_from_scores asset value_date cutoff scores

  abbrev pub completed : RegimeState F → StateEvent F
  completed s = record {
    asset = s.asset;
    value_date = s.value_date;
    regime_indicator = s.regime_indicator;
    risk_on = s.risk_on_probability;
    risk_off = s.risk_off_probability;
    transition_risk = s.transition_risk;
    model_version = cfg.model_version;
    config_version = cfg.config_version;
  }

  pub compute_one : Asset → Time → Time → Eff (Action F) (Unit {0})
  compute_one asset value_date cutoff = do
    s ← compute_state asset value_date cutoff
    context "save regime state" (perform (ports.save s) (saved s))
    perform (ports.publish (completed s)) (published (completed s))

  -- the loop of `RunOnce`
  pub compute_assets : List Asset → Time → Time → Eff (Action F) (Unit {0})
  compute_assets [] value_date cutoff = pure tt
  compute_assets (a ∷ as') value_date cutoff = do
    context "regime" (compute_one a value_date cutoff)
    compute_assets as' value_date cutoff

  pub run_once : List Asset → Time → Eff (Action F) (Unit {0})
  run_once assets value_date = do
    cutoff ← query ports.now
    compute_assets assets (utc_day value_date) cutoff

  -- the loops of `RunBackfill`: over the assets of one day, and over the days
  pub backfill_day : List Asset → Time → Time → Eff (Action F) (Unit {0})
  backfill_day [] d cutoff = pure tt
  backfill_day (a ∷ as') d cutoff = do
    skip_error (compute_one a d cutoff)
    backfill_day as' d cutoff

  pub backfill_days : List Asset → List Time → Time → Eff (Action F) (Unit {0})
  backfill_days assets [] cutoff = pure tt
  backfill_days assets (d ∷ ds) cutoff = do
    backfill_day assets d cutoff
    backfill_days assets ds cutoff

  pub run_backfill : List Asset → Time → Time → Eff (Action F) (Unit {0})
  run_backfill assets from to =
      if after (utc_day from) (utc_day to) then raise (message "backfill from after to") else do
        now ← query ports.now
        backfill_days assets (days_between (utc_day from) (utc_day to)) (add_days now 1)

  pub compute : Asset → Time → Eff (Action F) (Unit {0})
  compute asset value_date = do
    cutoff ← query ports.now
    compute_one asset (utc_day value_date) cutoff

-- `NewService`: the settings and the assets that the methods run with.
abbrev or_tradeable : List Asset → List Asset
or_tradeable [] = assets_tradeable
or_tradeable (a ∷ as') = a ∷ as'

pub new_service : {F : Type 0} ⦃f : Float F⦄ → Config F → List Asset → Config F × List Asset
new_service cfg assets = (defaults cfg, or_tradeable assets)
