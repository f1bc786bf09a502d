-- ===== src/Backtest/State/Reads.antt =====
-- The computation of a state only reads.
use marketengine.Prelude.{ℕ, Bool, true, false, List, [], ◌∷◌}
use marketengine.Float.{Float}
use marketengine.Time.{Time, sub_days}
use marketengine.Effects.Rules.{
  ReadsOnly, ReadsOnly-bind, ReadsOnly-context, ReadsOnly-query, ReadsOnly-pure, ReadsOnly-if,
  ReadsOnly-fail_if,
}
use marketengine.GoMap.{Map, insert}
use marketengine.Domain.{Asset, DomainCode, all_domains}
use marketengine.Regime.Config as Engine
use marketengine.Regime.Aggregate.{is_present}
use marketengine.Backtest.Ports.{Config, Ports}
use marketengine.Backtest.State.{
  read_histories, read_rocs, read_momentum, gather_transition_risk_inputs, compute_one,
}

module _ {F : Type 0} ⦃f : Float F⦄ (ports : Ports F) where
  read_histories-ReadsOnly :
      (lookback : ℕ) (asset : Asset) (m : Map F) (out : Map (List F))
      → ReadsOnly (read_histories ports lookback asset m out)
  unfolding read_histories
  read_histories-ReadsOnly lookback asset [] out = ReadsOnly-pure out
  read_histories-ReadsOnly lookback asset ((d, s) ∷ m) out =
      ReadsOnly-bind _ _ (ReadsOnly-context _ _ (ReadsOnly-query _))
        (λ h. read_histories-ReadsOnly lookback asset m (insert d h out))

  read_rocs-ReadsOnly :
      (window : ℕ) (asset : Asset) (ref_date cutoff : Time) (scores : Map F) (present : Map Bool)
      (ds : List DomainCode) (rocs : List F)
      → ReadsOnly (read_rocs ports window asset ref_date cutoff scores present ds rocs)
  unfolding read_rocs
  read_rocs-ReadsOnly window asset ref_date cutoff scores present [] rocs = ReadsOnly-pure rocs
  read_rocs-ReadsOnly window asset ref_date cutoff scores present (d ∷ ds) rocs =
      let next = read_rocs-ReadsOnly window asset ref_date cutoff scores present ds in
      ReadsOnly-if (is_present present d) _ _
        (ReadsOnly-bind _ _ (ReadsOnly-context _ _ (ReadsOnly-query _)) (λ past. next _))
        (next rocs)

  read_momentum-ReadsOnly :
      (asset : Asset) (past_date cutoff : Time) (normalized : Map F) (present : Map Bool)
      (ds : List DomainCode) (checked : Bool)
      → ReadsOnly (read_momentum ports asset past_date cutoff normalized present ds checked)
  unfolding read_momentum
  read_momentum-ReadsOnly asset past_date cutoff normalized present [] checked = ReadsOnly-pure _
  read_momentum-ReadsOnly asset past_date cutoff normalized present (d ∷ ds) checked =
      let next = read_momentum-ReadsOnly asset past_date cutoff normalized present ds in
      ReadsOnly-if (is_present present d) _ _
        (ReadsOnly-bind _ _ (ReadsOnly-context _ _ (ReadsOnly-query _))
          (λ past. ReadsOnly-if _ _ _ (next true) (ReadsOnly-pure _)))
        (next checked)

  gather-ReadsOnly :
      (window : ℕ) (asset : Asset) (value_date cutoff : Time) (scores normalized : Map F)
      (present : Map Bool)
      → ReadsOnly (
          gather_transition_risk_inputs ports window asset value_date cutoff scores normalized
            present)
  unfolding gather_transition_risk_inputs
  gather-ReadsOnly window asset value_date cutoff scores normalized present =
      ReadsOnly-bind _ _
        (read_rocs-ReadsOnly window asset (sub_days value_date window) cutoff scores present
          all_domains [])
        (λ rocs. ReadsOnly-bind _ _ (ReadsOnly-context _ _ (ReadsOnly-query _)) (λ series.
          ReadsOnly-bind _ _
            (read_momentum-ReadsOnly asset (sub_days value_date 3) cutoff normalized present
              all_domains false)
            (λ momentum. ReadsOnly-pure _)))

  pub compute_one-ReadsOnly :
      (cfg : Config) (engine : Engine.Config F) (asset : Asset) (d : Time)
      → ReadsOnly (compute_one ports cfg engine asset d)
  unfolding compute_one
  compute_one-ReadsOnly cfg engine asset d =
      ReadsOnly-bind _ _ (ReadsOnly-context _ _ (ReadsOnly-query _)) (λ scores.
        ReadsOnly-bind _ _ (ReadsOnly-fail_if _ _) (λ _.
          ReadsOnly-bind _ _ (read_histories-ReadsOnly _ asset scores []) (λ histories.
            ReadsOnly-bind _ _ (ReadsOnly-context _ _ (gather-ReadsOnly _ asset d _ scores _ _))
              (λ inputs. ReadsOnly-pure _))))
