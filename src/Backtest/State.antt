-- ===== src/Backtest/State.antt =====
-- `computeOne` of internal/backtest/service.go, with what it calls.
pub mod Reads
use marketengine.Prelude.{
  ℕ, ◌+◌, ◌*◌, String, Bool, true, false, ◌&&◌, ◌==◌, Option, none, some, List, [], ◌∷◌, ◌++◌, eqb,
  if◌then◌else◌,
}
use marketengine.Prelude.Int.{ℤ, pos, ltb_ℤ}
use marketengine.Float.{Float, ◌⊖◌, ◌⊘◌, ◌<?◌, ◌=?◌, of_ℕ}
use marketengine.Time.{Time, minute, utc_day, sub_days, after, days_between}
use marketengine.Errors.{Result, ok, err, insufficient_coverage, message, wrap}
use marketengine.Effects.{
  Eff, pure, raise, query, context, ◌>>=◌, ◌>>◌, perform, fail_if, skip_error,
}
use marketengine.GoMap.{Map, insert}
use marketengine.Domain.{
  Asset, assets_tradeable, DomainCode, all_domains, IndicatorPoint, Label, transition, RegimeState,
}
use marketengine.Regime.Config as Engine
use marketengine.Regime.Stats.{signf}
use marketengine.Regime.Aggregate.{
  present_set, is_present, at, coverage_fraction, redistribute_weights, normalize_scores,
  weighted_sum_raw, weighted_sum_normalized,
}
use marketengine.Regime.Risk.{
  TransitionRiskInputs, compute_historical_roc_div, compute_transition_risk, final_probabilities,
}
use marketengine.Regime.Smoothing.{ema_smooth}
use marketengine.Regime.Drivers.{build_top_drivers}
use marketengine.Backtest.Classifier.{default_hysteresis, classify_hysteresis}
use marketengine.Backtest.Ports.{
  Config, defaults, BacktestRun, Action, run_saved, state_saved, status_updated, Snapshot, Ports,
}

coverage_flags : Map Bool → List DomainCode → Map Bool → Map Bool
coverage_flags present [] out = out
coverage_flags present (d ∷ ds) out =
    coverage_flags present ds (insert d (is_present present d) out)

module _ {F : Type 0} ⦃f : Float F⦄ where
  -- the published indicator: the trail is the nil slice
  unfoldable pub smoothed : Engine.Config F → F → F
  smoothed engine indicator =
      if ltb_ℤ (pos 1) engine.smoothing_span_days
      then ema_smooth indicator [] engine.smoothing_span_days
      else indicator

  -- the literal `domain.RegimeState{…}`
  unfoldable pub make_state :
      Engine.Config F → Asset → Time → Map F → Map F → Map Bool → Map F → F → F → RegimeState F
  unfolding coverage_flags
  make_state engine asset value_date scores weights present contributions indicator risk =
      let (on, off) = final_probabilities indicator risk engine.sigmoid_k in
      record {
        asset = asset;
        value_date = value_date;
        regime_indicator = indicator;
        regime_indicator_raw = weighted_sum_raw scores weights;
        risk_on_probability = on;
        risk_off_probability = off;
        transition_risk = risk;
        model_version = engine.model_version;
        config_version = engine.config_version;
        code_sha = engine.code_sha;
        domain_contributions = contributions;
        top_drivers = build_top_drivers contributions;
        effective_weights = weights;
        feature_coverage_flag = coverage_flags present all_domains [];
        interaction_flags = [];
      }

module _ {F : Type 0} ⦃f : Float F⦄ (ports : Ports F) where
  unfoldable read_histories : ℕ → Asset → Map F → Map (List F) → Eff (Action F) (Map (List F))
  read_histories lookback asset [] out = pure out
  read_histories lookback asset ((d, s) ∷ m) out = do
    h ← context "domain history" (query (ports.get_history asset d lookback))
    read_histories lookback asset m (insert d h out)

  abbrev add_roc : ℕ → F → Option F → List F → List F
  add_roc window today none rocs = rocs
  add_roc window today (some past) rocs = rocs ++ (f.abs (today ⊖ past) ⊘ of_ℕ window) ∷ []

  -- the first loop of `gatherTransitionRiskInputs`
  read_rocs :
      ℕ
      → Asset
      → Time
      → Time
      → Map F
      → Map Bool
      → List DomainCode
      → List F
      → Eff (Action F) (List F)
  read_rocs window asset ref_date cutoff scores present [] rocs = pure rocs
  read_rocs window asset ref_date cutoff scores present (d ∷ ds) rocs =
      let next = read_rocs window asset ref_date cutoff scores present ds in
      if is_present present d
      then (do
        past ← context "domain score" (query (ports.get_by_date asset d ref_date cutoff))
        next (add_roc window (at scores d) past rocs))
      else next rocs

  abbrev same_direction : F → Option F → Bool
  same_direction today none = false
  same_direction today (some past) = signf today =? signf past

  -- the second loop: the marks `checkedAny` and `allSameDir`
  read_momentum :
      Asset → Time → Time → Map F → Map Bool → List DomainCode → Bool → Eff (Action F) (Bool × Bool)
  read_momentum asset past_date cutoff normalized present [] checked = pure (checked, true)
  read_momentum asset past_date cutoff normalized present (d ∷ ds) checked =
      let next = read_momentum asset past_date cutoff normalized present ds in
      if is_present present d
      then (do
        past ← context "momentum lookup" (query (ports.get_by_date asset d past_date cutoff))
        if same_direction (at normalized d) past then next true else pure (checked, false))
      else next checked

  unfoldable gather_transition_risk_inputs :
      ℕ → Asset → Time → Time → Map F → Map F → Map Bool → Eff (Action F) (TransitionRiskInputs F)
  unfolding read_rocs read_momentum
  gather_transition_risk_inputs window asset value_date cutoff scores normalized present = do
    rocs ← read_rocs window asset (sub_days value_date window) cutoff scores present all_domains []
    let from = sub_days value_date (90 + window)
    let to = sub_days value_date 1
    series ←
        context "indicator raw series" (query (ports.get_indicator_raw_series asset from to cutoff))
    let history = compute_historical_roc_div series value_date window 90
    momentum ←
        read_momentum asset (sub_days value_date 3) cutoff normalized present all_domains false
    pure (record {
      normalized_scores = normalized;
      roc_per_domain = rocs;
      historical_rocs = history.0;
      historical_divs = history.1;
      momentum_same_direction = momentum.0 && momentum.1;
      momentum_checked = momentum.0;
    })

  unfoldable pub compute_one :
      Config → Engine.Config F → Asset → Time → Eff (Action F) (RegimeState F)
  unfolding gather_transition_risk_inputs read_histories
  compute_one cfg engine asset value_date = do
    let cutoff = value_date + cfg.sla_offset_minutes * minute
    scores ← context "read domain scores" (query (ports.get_latest_all asset value_date cutoff))
    fail_if (coverage_fraction scores <? engine.min_coverage)
        (wrap "coverage" insufficient_coverage)
    let present = present_set scores
    let weights = redistribute_weights (Engine.entries engine.weights) present
    histories ← read_histories engine.norm_lookback_days asset scores []
    let normalized = normalize_scores scores histories engine.norm_min_samples
    let sums = weighted_sum_normalized normalized weights
    inputs ← context "transition risk inputs" (
        gather_transition_risk_inputs engine.roc_window_days asset value_date cutoff scores
          normalized present)
    let risk = compute_transition_risk inputs engine
    pure (
        make_state engine asset value_date scores weights present sums.0 (smoothed engine sums.1)
          risk)
