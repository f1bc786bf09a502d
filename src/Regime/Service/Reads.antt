-- ===== src/Regime/Service/Reads.antt =====
-- `computeOne` only reads until it saves.
use marketengine.Prelude.{Bool, true, List, [], ◌∷◌}
use marketengine.Prelude.Int.{pos, ltb_ℤ}
use marketengine.Float.{Float}
use marketengine.Time.{Time}
use marketengine.Effects.Rules.{
  ReadsOnly, ReadsOnly-bind, ReadsOnly-context, ReadsOnly-query, ReadsOnly-pure, ReadsOnly-if,
  ReadsOnly-fail_if,
}
use marketengine.GoMap.{Map, insert}
use marketengine.Domain.{Asset, DomainCode}
use marketengine.Regime.Config.{Config}
use marketengine.Regime.Aggregate.{is_present}
use marketengine.Regime.Ports.{Ports}
use marketengine.Regime.Service.{
  read_histories, read_rocs, read_momentum, gather_transition_risk_inputs, smooth,
  state_from_scores, compute_state,
}

module _ {F : Type 0} ⦃f : Float F⦄ (ports : Ports F) (cfg : Config F) where
  read_histories-ReadsOnly :
      (asset : Asset) (m : Map F) (out : Map (List F))
      → ReadsOnly (read_histories ports cfg asset m out)
  unfolding read_histories
  read_histories-ReadsOnly asset [] out = ReadsOnly-pure out
  read_histories-ReadsOnly asset ((d, s) ∷ m) out =
      ReadsOnly-bind _ _ (ReadsOnly-context _ _ (ReadsOnly-query _))
        (λ h. read_histories-ReadsOnly asset m (insert d h out))

  read_rocs-ReadsOnly :
      (asset : Asset) (ref_date cutoff : Time) (scores : Map F) (present : Map Bool)
      (ds : List DomainCode) (rocs : List F)
      → ReadsOnly (read_rocs ports cfg asset ref_date cutoff scores present ds rocs)
  unfolding read_rocs
  read_rocs-ReadsOnly asset ref_date cutoff scores present [] rocs = ReadsOnly-pure rocs
  read_rocs-ReadsOnly asset ref_date cutoff scores present (d ∷ ds) rocs =
      let next = read_rocs-ReadsOnly asset ref_date cutoff scores present ds in
      ReadsOnly-if (is_present present d) _ _
        (ReadsOnly-bind _ _ (ReadsOnly-context _ _ (ReadsOnly-query _)) (λ past. next _))
        (next rocs)

  read_momentum-ReadsOnly :
      (asset : Asset) (past_date cutoff : Time) (normalized : Map F) (present : Map Bool)
      (ds : List DomainCode) (checked : Bool)
      → ReadsOnly (read_momentum ports cfg asset past_date cutoff normalized present ds checked)
  unfolding read_momentum
  read_momentum-ReadsOnly asset past_date cutoff normalized present [] checked = ReadsOnly-pure _
  read_momentum-ReadsOnly asset past_date cutoff normalized present (d ∷ ds) checked =
      let next = read_momentum-ReadsOnly asset past_date cutoff normalized present ds in
      ReadsOnly-if (is_present present d) _ _
        (ReadsOnly-bind _ _ (ReadsOnly-context _ _ (ReadsOnly-query _))
          (λ past. ReadsOnly-if _ _ _ (next true) (ReadsOnly-pure _)))
        (next checked)

  gather-ReadsOnly :
      (asset : Asset) (value_date cutoff : Time) (scores normalized : Map F) (present : Map Bool)
      → ReadsOnly (
          gather_transition_risk_inputs ports cfg asset value_date cutoff scores normalized present)
  unfolding gather_transition_risk_inputs
  gather-ReadsOnly asset value_date cutoff scores normalized present =
      ReadsOnly-bind _ _ (read_rocs-ReadsOnly asset _ cutoff scores present _ _) (λ rocs.
        ReadsOnly-bind _ _ (ReadsOnly-context _ _ (ReadsOnly-query _)) (λ series.
          ReadsOnly-bind _ _ (read_momentum-ReadsOnly asset _ cutoff normalized present _ _)
            (λ momentum. ReadsOnly-pure _)))

  smooth-ReadsOnly :
      (asset : Asset) (value_date cutoff : Time) (indicator risk : F)
      → ReadsOnly (smooth ports cfg asset value_date cutoff indicator risk)
  unfolding smooth
  smooth-ReadsOnly asset value_date cutoff indicator risk =
      ReadsOnly-if (ltb_ℤ (pos 1) cfg.smoothing_span_days) _ _
        (ReadsOnly-bind _ _ (ReadsOnly-context _ _ (ReadsOnly-query _)) (λ trail. ReadsOnly-pure _))
        (ReadsOnly-pure _)

  state_from_scores-ReadsOnly :
      (asset : Asset) (value_date cutoff : Time) (scores : Map F)
      → ReadsOnly (state_from_scores ports cfg asset value_date cutoff scores)
  unfolding state_from_scores
  state_from_scores-ReadsOnly asset value_date cutoff scores =
      ReadsOnly-bind _ _ (read_histories-ReadsOnly asset scores []) (λ histories.
        ReadsOnly-bind _ _
          (ReadsOnly-context _ _ (gather-ReadsOnly asset value_date cutoff scores _ _))
          (λ inputs.
            ReadsOnly-bind _ _ (smooth-ReadsOnly asset value_date cutoff _ _)
              (λ smoothed. ReadsOnly-pure _)))

  pub compute_state-ReadsOnly :
      (asset : Asset) (value_date cutoff : Time)
      → ReadsOnly (compute_state ports cfg asset value_date cutoff)
  unfolding compute_state
  compute_state-ReadsOnly asset value_date cutoff =
      ReadsOnly-bind _ _ (ReadsOnly-context _ _ (ReadsOnly-query _)) (λ scores.
        ReadsOnly-bind _ _ (ReadsOnly-fail_if _ _)
          (λ _. state_from_scores-ReadsOnly asset value_date cutoff scores))
