-- ===== src/Regime/Service/Success.antt =====
-- When a computation comes to its end, with the repository of internal/infra/postgres/regime.
use marketengine.Prelude.{ℕ, ◌≡◌, refl, List, [], ◌∷◌, ◌++◌, Bool, true, false, Option}
use marketengine.Prelude.Int.{pos, ltb_ℤ}
use marketengine.Float.{Float, ◌<?◌}
use marketengine.Time.{Time}
use marketengine.Errors.{Result, ok, err, wrap}
use marketengine.Effects.{query, context, ◌>>=◌, fail_if, continue, perform}
use marketengine.Effects.Rules.{
  ok_injective, Succeeds, Succeeds-pure, Succeeds-query, Succeeds-context, Succeeds-if,
  Succeeds-bind,
}
use marketengine.GoMap.{Map, insert}
use marketengine.Domain.{Asset, DomainCode, RegimeState, IndicatorPoint, validate_state}
use marketengine.Regime.Config.{Config}
use marketengine.Regime.Aggregate.{coverage_fraction, is_present}
use marketengine.Regime.Ports.{Action, Ports, StateEvent, SmoothingTrailingPoint}
use marketengine.Regime.Store.{save}
use marketengine.Float.Laws.{IsRounded}
use mathlib.Core.Path.{subst, sym, ap}
use mathlib.Core.List.{append_assoc}
use marketengine.Regime.Service.Reads.{compute_state-ReadsOnly}
use marketengine.Regime.Service.Outcome.{IsFor, commit, compute_state-Returns}
use marketengine.Regime.Service.{
  read_histories, read_rocs, read_momentum, gather_transition_risk_inputs, smooth,
  state_from_scores, compute_state, compute_one, completed,
}

module _ {F : Type 0} ⦃f : Float F⦄ where
  -- The reader, the queries and the publisher answer, and `Save` is that of the repository, whose check
  -- stays: only its insertion into the database, `write`, succeeds for every state.
  pub record Answers (ports : Ports F) (write : List (Action F) → RegimeState F → Result (Unit {0}))
      : Type 0 where
    pub scores :
        (a : Asset) (d c : Time) (h : List (Action F))
        → (m : Map F) × (ports.get_latest_all a d c h ≡ ok m)
    pub dated :
        (a : Asset) (x : DomainCode) (d c : Time) (h : List (Action F))
        → (o : Option F) × (ports.get_by_date a x d c h ≡ ok o)
    pub histories :
        (a : Asset) (x : DomainCode) (n : ℕ) (h : List (Action F))
        → (l : List F) × (ports.get_history a x n h ≡ ok l)
    pub series :
        (a : Asset) (d c : Time) (h : List (Action F))
        → (l : List (IndicatorPoint F)) × (ports.get_indicator_raw_series a d c h ≡ ok l)
    pub trail :
        (a : Asset) (d e c : Time) (h : List (Action F))
        → (l : List (SmoothingTrailingPoint F)) × (ports.get_smoothing_trailing a d e c h ≡ ok l)
    pub saves : (s : RegimeState F) (h : List (Action F)) → ports.save s h ≡ save (write h) s
    pub inserts : (s : RegimeState F) (h : List (Action F)) → write h s ≡ ok tt
    pub publishes : (e : StateEvent F) (h : List (Action F)) → ports.publish e h ≡ ok tt

module _ {F : Type 0} ⦃f : Float F⦄ (ports : Ports F) (cfg : Config F) where
  -- How the computation of a state ends, by the answer of the check of the state.
  abbrev pub Ending :
      RegimeState F → List (Action F) → Result (Unit {0}) → Result (Unit {0}) × List (Action F)
  Ending s h (ok _) = (ok tt, h ++ Action.saved s ∷ Action.published (completed ports cfg s) ∷ [])
  Ending s h (err e) = (err (wrap "save regime state" (wrap "invalid regime state" e)), h)

module _ {F : Type 0} ⦃f : Float F⦄ (ports : Ports F) (cfg : Config F)
    (write : List (Action F) → RegimeState F → Result (Unit {0})) (up : Answers ports write) where
  read_histories-Succeeds :
      (asset : Asset) (m : Map F) (out : Map (List F))
      → Succeeds (read_histories ports cfg asset m out)
  unfolding read_histories
  read_histories-Succeeds asset [] out = Succeeds-pure out
  read_histories-Succeeds asset ((d, s) ∷ m) out =
      Succeeds-bind _ _
        (Succeeds-context _ _ (Succeeds-query _ (up.histories asset d cfg.norm_lookback_days)))
        λ h. read_histories-Succeeds asset m (insert d h out)

  read_rocs-Succeeds :
      (asset : Asset) (ref_date cutoff : Time) (scores : Map F) (present : Map Bool)
      (ds : List DomainCode) (rocs : List F)
      → Succeeds (read_rocs ports cfg asset ref_date cutoff scores present ds rocs)
  unfolding read_rocs
  read_rocs-Succeeds asset ref_date cutoff scores present [] rocs = Succeeds-pure rocs
  read_rocs-Succeeds asset ref_date cutoff scores present (d ∷ ds) rocs =
      let next = read_rocs-Succeeds asset ref_date cutoff scores present ds in
      Succeeds-if (is_present present d) _ _
        (Succeeds-bind _ _
          (Succeeds-context _ _ (Succeeds-query _ (up.dated asset d ref_date cutoff)))
          λ past. next _)
        (next rocs)

  read_momentum-Succeeds :
      (asset : Asset) (past_date cutoff : Time) (normalized : Map F) (present : Map Bool)
      (ds : List DomainCode) (checked : Bool)
      → Succeeds (read_momentum ports cfg asset past_date cutoff normalized present ds checked)
  unfolding read_momentum
  read_momentum-Succeeds asset past_date cutoff normalized present [] checked = Succeeds-pure _
  read_momentum-Succeeds asset past_date cutoff normalized present (d ∷ ds) checked =
      let next = read_momentum-Succeeds asset past_date cutoff normalized present ds in
      Succeeds-if (is_present present d) _ _
        (Succeeds-bind _ _
          (Succeeds-context _ _ (Succeeds-query _ (up.dated asset d past_date cutoff)))
          λ past. Succeeds-if _ _ _ (next true) (Succeeds-pure _))
        (next checked)

  gather-Succeeds :
      (asset : Asset) (value_date cutoff : Time) (scores normalized : Map F) (present : Map Bool)
      → Succeeds (
          gather_transition_risk_inputs ports cfg asset value_date cutoff scores normalized present)
  unfolding gather_transition_risk_inputs
  gather-Succeeds asset value_date cutoff scores normalized present =
      Succeeds-bind _ _ (read_rocs-Succeeds asset _ cutoff scores present _ _) λ rocs.
        Succeeds-bind _ _ (Succeeds-context _ _ (Succeeds-query _ (up.series asset _ _))) λ series.
          Succeeds-bind _ _ (read_momentum-Succeeds asset _ cutoff normalized present _ _)
            λ momentum. Succeeds-pure _

  smooth-Succeeds :
      (asset : Asset) (value_date cutoff : Time) (indicator risk : F)
      → Succeeds (smooth ports cfg asset value_date cutoff indicator risk)
  unfolding smooth
  smooth-Succeeds asset value_date cutoff indicator risk =
      Succeeds-if (ltb_ℤ (pos 1) cfg.smoothing_span_days) _ _
        (Succeeds-bind _ _ (Succeeds-context _ _ (Succeeds-query _ (up.trail asset _ _ cutoff)))
          λ trail. Succeeds-pure _)
        (Succeeds-pure _)

  state_from_scores-Succeeds :
      (asset : Asset) (value_date cutoff : Time) (scores : Map F)
      → Succeeds (state_from_scores ports cfg asset value_date cutoff scores)
  unfolding state_from_scores
  state_from_scores-Succeeds asset value_date cutoff scores =
      Succeeds-bind _ _ (read_histories-Succeeds asset scores []) λ histories.
        Succeeds-bind _ _
          (Succeeds-context _ _ (gather-Succeeds asset value_date cutoff scores _ _))
          λ inputs.
            Succeeds-bind _ _ (smooth-Succeeds asset value_date cutoff _ _)
              λ smoothed. Succeeds-pure _

  commit_at :
      (s : RegimeState F) (h : List (Action F)) (r : Result (Unit {0}))
      → validate_state s ≡ r
      → commit ports cfg s h ≡ Ending ports cfg s h r
  unfolding commit save context perform ◌>>=◌
  commit_at s h (ok _) e =
      rw
        (
          up.saves s h,
          e,
          up.inserts s h,
          up.publishes (completed ports cfg s) (h ++ Action.saved s ∷ []),
        )
        (ap (λ l. (ok tt, l)) (append_assoc h (Action.saved s ∷ []) _))
  commit_at s h (err x) e = rw (up.saves s h, e) refl

  commit_after :
      (x : Result (RegimeState F) × List (Action F)) (s : RegimeState F) (h : List (Action F))
      → x.0 ≡ ok s
      → x.1 ≡ h
      → continue x (commit ports cfg) ≡ Ending ports cfg s h (validate_state s)
  commit_after (ok s', h') s h e k =
      let same : s' ≡ s = ok_injective e in
      subst (λ t. commit ports cfg t h' ≡ Ending ports cfg s h (validate_state s)) (sym same)
        (subst (λ l. commit ports cfg s l ≡ Ending ports cfg s h (validate_state s)) (sym k)
          (commit_at s h (validate_state s) refl))
  commit_after (err x, h') s h e k = absurd (cc)

  state_computed :
      (asset : Asset) (value_date cutoff : Time) (h : List (Action F)) (scores : Map F)
      (s : RegimeState F)
      → ports.get_latest_all asset value_date cutoff h ≡ ok scores
      → (coverage_fraction scores <? cfg.min_coverage) ≡ false
      → (state_from_scores ports cfg asset value_date cutoff scores h).0 ≡ ok s
      → (compute_state ports cfg asset value_date cutoff h).0 ≡ ok s
  unfolding compute_state ◌>>=◌ context query fail_if
  state_computed asset value_date cutoff h scores s e enough done = rw (e, enough) done

  -- With the repository of internal/infra/postgres/regime, where the scores cover the configured share
  -- of the domains and every read, insertion and publication succeeds: the computation always comes to
  -- a state, for the asset and the date, and only `RegimeState.Validate` decides how it ends. A state
  -- that it accepts is saved, its event is published after that, and the computation succeeds; for
  -- any other the computation fails with the error of the check and writes nothing.
  pub compute_one_checked :
      IsRounded F
      → (asset : Asset) (value_date cutoff : Time) (h : List (Action F)) (scores : Map F)
      → ports.get_latest_all asset value_date cutoff h ≡ ok scores
      → (coverage_fraction scores <? cfg.min_coverage) ≡ false
      → (s : RegimeState F) × ((compute_state ports cfg asset value_date cutoff h).0 ≡ ok s)
        × IsFor ports cfg asset value_date s
        × (compute_one ports cfg asset value_date cutoff h
            ≡ Ending ports cfg s h (validate_state s))
  unfolding compute_one ◌>>=◌ commit
  compute_one_checked laws asset value_date cutoff h scores e enough =
      let (s, done) = (state_from_scores-Succeeds asset value_date cutoff scores).value h in
      let computed = state_computed asset value_date cutoff h scores s e enough done in
      (
        s,
        computed,
        (compute_state-Returns ports cfg laws asset value_date cutoff).holds h s computed,
        commit_after (compute_state ports cfg asset value_date cutoff h) s h computed
            ((compute_state-ReadsOnly ports cfg asset value_date cutoff).keeps h),
      )
