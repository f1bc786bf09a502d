-- ===== src/Regime/Service/Outcome.antt =====
-- What one computation of `compute_one` writes.
use mathlib.Core.Path.{subst}
use mathlib.Core.List.{append_assoc}
use marketengine.Prelude.{
  ◌≡◌, refl, sym, ◌⊎◌, inl, inr, true, Bool-cases, Bool, List, [], ◌∷◌, ◌++◌,
}
use marketengine.Prelude.Int.{pos, ltb_ℤ}
use marketengine.Float.{Float, ◌⊖◌, ◌⊗◌, of_ℕ}
use marketengine.Float.Laws.{InUnit, ◌≼◌, IsRounded}
use marketengine.Float.Order.{Within}
use marketengine.Time.{Time}
use marketengine.Errors.{wrap, Err, Result, ok, err}
use marketengine.Effects.{Eff, context, continue, ◌>>=◌, ◌>>◌, perform, recorded, wrapped}
use marketengine.Effects.Rules.{Returns, Returns-pure, Returns-bind, Returns-bind_any, Returns-if}
use marketengine.GoMap.{Map}
use marketengine.Domain.{Asset, RegimeState}
use marketengine.Regime.Stats.Bounds.{clip-Within}
use marketengine.Regime.Risk.Bounds.{zero-le-one, transition_risk_unit, final_probabilities_unit}
use marketengine.Regime.Risk.{final_probabilities}
use marketengine.Regime.Config.{Config}
use marketengine.Regime.Service.Reads.{compute_state-ReadsOnly}
use marketengine.Regime.Ports.{Action, saved, published, Ports}
use marketengine.Regime.Service.{
  smooth, make_state, state_from_scores, compute_state, completed, compute_one,
}

module _ {F : Type 0} ⦃f : Float F⦄ (ports : Ports F) (cfg : Config F) where
  -- The numbers of a state that belong together: the transition risk is NaN or between 0 and 1; and it
  -- is NaN, or the exponent of the sigmoid is, or both probabilities are between 0 and 1 and neither
  -- exceeds 1 less the transition risk.
  abbrev pub IsConsistent : RegimeState F → Type 0
  IsConsistent s =
      Within (of_ℕ 0) (of_ℕ 1) s.transition_risk
      × ((f.is_nan s.transition_risk ≡ true)
          ⊎ (f.is_nan (cfg.sigmoid_k ⊗ s.regime_indicator) ≡ true)
          ⊎ (InUnit s.risk_on_probability
              × InUnit s.risk_off_probability
              × (s.risk_on_probability ≼ of_ℕ 1 ⊖ s.transition_risk)
              × (s.risk_off_probability ≼ of_ℕ 1 ⊖ s.transition_risk)))

  -- A state for the asset and the date.
  abbrev pub IsFor : Asset → Time → RegimeState F → Type 0
  IsFor asset value_date s = (s.asset ≡ asset) × (s.value_date ≡ value_date) × IsConsistent s

  module _ (laws : IsRounded F) where
    smooth-Returns :
        (asset : Asset) (value_date cutoff : Time) (indicator risk : F)
        → Within (of_ℕ 0) (of_ℕ 1) risk
        → Returns
            (λ p. Within (of_ℕ 0) (of_ℕ 1) p.1)
            (smooth ports cfg asset value_date cutoff indicator risk)
    unfolding smooth
    smooth-Returns asset value_date cutoff indicator risk h =
        Returns-if _ (ltb_ℤ (pos 1) cfg.smoothing_span_days) _ _
          (Returns-bind_any _ _ _ λ trail.
            Returns-pure _ _ (clip-Within laws.ordered _ (of_ℕ 0) (of_ℕ 1) (zero-le-one laws)))
          (Returns-pure _ _ h)

    probabilities :
        (indicator risk : F)
        → Within (of_ℕ 0) (of_ℕ 1) risk
        → let (on, off) = final_probabilities indicator risk cfg.sigmoid_k in
          (f.is_nan risk ≡ true)
          ⊎ (f.is_nan (cfg.sigmoid_k ⊗ indicator) ≡ true)
          ⊎ (InUnit on × InUnit off × (on ≼ of_ℕ 1 ⊖ risk) × (off ≼ of_ℕ 1 ⊖ risk))
    probabilities indicator risk (inl nan) = inl nan
    probabilities indicator risk (inr h) =
        elim (Bool-cases (f.is_nan (cfg.sigmoid_k ⊗ indicator))) [
          | inl nan ↦ inr (inl nan)
          | inr num ↦ inr (inr (final_probabilities_unit laws indicator risk cfg.sigmoid_k h num))
        ]

    make_state-IsFor :
        (asset : Asset) (value_date : Time) (scores weights : Map F) (present : Map Bool)
        (contributions : Map F) (indicator risk : F)
        → Within (of_ℕ 0) (of_ℕ 1) risk
        → IsFor asset value_date (
            make_state ports cfg asset value_date scores weights present contributions indicator
              risk)
    unfolding make_state
    make_state-IsFor asset value_date scores weights present contributions indicator risk h =
        (refl, refl, (h, probabilities indicator risk h))

    state_from_scores-Returns :
        (asset : Asset) (value_date cutoff : Time) (scores : Map F)
        → Returns
            (IsFor asset value_date)
            (state_from_scores ports cfg asset value_date cutoff scores)
    unfolding state_from_scores
    state_from_scores-Returns asset value_date cutoff scores = Returns-bind_any _ _ _ λ histories.
        Returns-bind_any _ _ _ λ inputs.
          Returns-bind (λ p. Within (of_ℕ 0) (of_ℕ 1) p.1) _ _ _
            (smooth-Returns asset value_date cutoff _ _ (transition_risk_unit laws inputs cfg))
            λ smoothed h. Returns-pure _ _ (make_state-IsFor asset value_date scores _ _ _ _ _ h)

    pub compute_state-Returns :
        (asset : Asset) (value_date cutoff : Time)
        → Returns (IsFor asset value_date) (compute_state ports cfg asset value_date cutoff)
    unfolding compute_state
    compute_state-Returns asset value_date cutoff = Returns-bind_any _ _ _ λ scores.
        Returns-bind_any _ _ _ λ _. state_from_scores-Returns asset value_date cutoff scores

  -- The ways in which a computation ends, by what the reads, the save and the publication answer: the
  -- state cannot be computed and nothing is written; it is computed and not saved; it is saved and not
  -- published; or it is saved, its event is published after that, and the computation succeeds.
  abbrev pub Outcome :
      Asset → Time → Time → List (Action F) → Result (Unit {0}) × List (Action F) → Type 0
  Outcome asset value_date cutoff h (r, h') =
      let computed = (compute_state ports cfg asset value_date cutoff h).0 in
      ((e : Err) × (computed ≡ err e) × (r ≡ err e) × (h' ≡ h))
      ⊎ ((s : RegimeState F) × (computed ≡ ok s)
          × IsFor asset value_date s
          × (((e : Err) × (ports.save s h ≡ err e)
                × (r ≡ err (wrap "save regime state" e))
                × (h' ≡ h))
              ⊎ ((ports.save s h ≡ ok tt)
                  × (((e : Err) × (ports.publish (completed ports cfg s) (h ++ saved s ∷ [])
                          ≡ err e)
                        × (r ≡ err e)
                        × (h' ≡ h ++ saved s ∷ []))
                      ⊎ ((r ≡ ok tt)
                          × (h' ≡ h ++ saved s ∷ published (completed ports cfg s) ∷ []))))))

  commit_published :
      (s : RegimeState F) (h : List (Action F)) (r : Result (Unit {0}))
      → ports.publish (completed ports cfg s) (h ++ saved s ∷ []) ≡ r
      → let (r', h') = recorded r (published (completed ports cfg s)) (h ++ saved s ∷ []) in
        ((e : Err) × (ports.publish (completed ports cfg s) (h ++ saved s ∷ []) ≡ err e)
          × (r' ≡ err e)
          × (h' ≡ h ++ saved s ∷ []))
        ⊎ ((r' ≡ ok tt) × (h' ≡ h ++ saved s ∷ published (completed ports cfg s) ∷ []))
  commit_published s h (ok _) q = inr (refl, append_assoc h (saved s ∷ []) _)
  commit_published s h (err e) q = inl (e, q, refl, refl)

  commit_saved :
      (s : RegimeState F) (h : List (Action F)) (r : Result (Unit {0}))
      → ports.save s h ≡ r
      → let (r', h') = continue (wrapped "save regime state" (recorded r (saved s) h)) λ _ h₁.
        recorded
          (ports.publish (completed ports cfg s) h₁)
          (published (completed ports cfg s))
          h₁ in
        ((e : Err) × (ports.save s h ≡ err e) × (r' ≡ err (wrap "save regime state" e)) × (h' ≡ h))
        ⊎ ((ports.save s h ≡ ok tt)
            × (((e : Err) × (ports.publish (completed ports cfg s) (h ++ saved s ∷ []) ≡ err e)
                  × (r' ≡ err e)
                  × (h' ≡ h ++ saved s ∷ []))
                ⊎ ((r' ≡ ok tt) × (h' ≡ h ++ saved s ∷ published (completed ports cfg s) ∷ []))))
  commit_saved s h (ok _) q =
      inr (q, commit_published s h (ports.publish (completed ports cfg s) (h ++ saved s ∷ [])) refl)
  commit_saved s h (err e) q = inl (e, q, refl, refl)

  -- what follows the computation of the state
  unfoldable pub commit : (s : RegimeState F) → Eff (Action F) (Unit {0})
  unfolding ◌>>=◌
  commit s = do
    context "save regime state" (perform (ports.save s) (saved s))
    perform (ports.publish (completed ports cfg s)) (published (completed ports cfg s))

  continue-commit :
      (asset : Asset) (value_date cutoff : Time) (h : List (Action F))
      (x : Result (RegimeState F) × List (Action F))
      → (compute_state ports cfg asset value_date cutoff h).0 ≡ x.0
      → x.1 ≡ h
      → ((s : RegimeState F) → x.0 ≡ ok s → IsFor asset value_date s)
      → Outcome asset value_date cutoff h (continue x commit)
  unfolding commit context perform
  continue-commit asset value_date cutoff h (ok s, h') c e p =
      subst (λ l. Outcome asset value_date cutoff h (commit s l)) (sym e)
        (inr (s, c, p s refl, commit_saved s h (ports.save s h) refl))
  continue-commit asset value_date cutoff h (err x, h') c e p = inl (x, c, refl, e)

  -- `Outcome`, under the laws of rounding: if the state cannot be computed, the computation returns that
  -- error and writes nothing; if the save fails, it returns that error, wrapped, and writes nothing; if
  -- the publication fails, it returns that error with the state saved; otherwise it succeeds with the
  -- state saved and then its event published. A computed state is for the asset and the date, its
  -- transition risk is NaN or between 0 and 1, and, unless that or the exponent of the sigmoid is NaN,
  -- both probabilities are between 0 and 1 and within what the transition risk leaves.
  pub compute_one-Outcome :
      IsRounded F
      → (asset : Asset) (value_date cutoff : Time) (h : List (Action F))
      → Outcome asset value_date cutoff h (compute_one ports cfg asset value_date cutoff h)
  unfolding compute_one ◌>>=◌ commit
  compute_one-Outcome laws asset value_date cutoff h =
      continue-commit asset value_date cutoff h (compute_state ports cfg asset value_date cutoff h)
        refl ((compute_state-ReadsOnly ports cfg asset value_date cutoff).keeps h)
        ((compute_state-Returns laws asset value_date cutoff).holds h)
