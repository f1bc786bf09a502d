-- ===== src/Regime/Risk.antt =====
-- The transition risk of internal/regime/pipeline.go: rates of change and divergence against their
-- history, and the final probabilities.
pub mod Bounds
pub mod History
use marketengine.Prelude.{
  ℕ, zero, suc, ◌+◌, ◌/◌, Bool, ◌&&◌, ◌||◌, Option, none, some, List, [], ◌∷◌, ◌++◌, ltb, leb, eqb,
  length, if◌then◌else◌,
}
use marketengine.Prelude.Int.{ℤ, pos, negsuc}
use marketengine.Float.{Float, ◌⊕◌, ◌⊖◌, ◌⊗◌, ◌⊘◌, ◌<?◌, ◌≤?◌, of_ℕ}
use marketengine.Time.{Time, day, add_days, sub_days}
use marketengine.GoMap.{Map, lookup}
use marketengine.Domain.{DomainCode, all_domains, IndicatorPoint}
use marketengine.Regime.Config.{Config}
use marketengine.Regime.Stats.{mean, stddev, clip, sigmoid}

pub record TransitionRiskInputs (F : Type 0) : Type 0 where
  pub normalized_scores : Map F
  pub roc_per_domain : List F
  pub historical_rocs : List F
  pub historical_divs : List F
  pub momentum_same_direction : Bool
  pub momentum_checked : Bool

-- t.AddDate(0, 0, j)
abbrev pub shift : Time → ℤ → Time
shift t (pos n) = add_days t n
shift t (negsuc n) = sub_days t (suc n)

-- Format("2006-01-02"): equal for two times exactly if they fall on one day
abbrev pub date_key : Time → ℕ
date_key t = t / day

abbrev window_offsets : List ℤ
window_offsets = negsuc 2 ∷ negsuc 1 ∷ negsuc 0 ∷ pos 0 ∷ pos 1 ∷ pos 2 ∷ pos 3 ∷ []

module _ {F : Type 0} where
  -- the map `indByDate`, which is never ranged over
  unfoldable pub index_points : (ℕ → Option F) → List (IndicatorPoint F) → ℕ → Option F
  index_points m [] = m
  index_points m (p ∷ ps) =
      index_points (λ k. if eqb k (date_key p.value_date) then some p.regime_indicator else m k) ps

  abbrev pub cons? : Option F → List F → List F
  cons? none xs = xs
  cons? (some x) xs = x ∷ xs

  unfoldable pub window_values : (ℕ → Option F) → Time → List ℤ → List F
  window_values ind d [] = []
  window_values ind d (j ∷ js) = cons? (ind (date_key (shift d j))) (window_values ind d js)

  norm_values : Map F → List DomainCode → List F
  norm_values scores [] = []
  norm_values scores (d ∷ ds) = cons? (lookup d scores) (norm_values scores ds)

module _ {F : Type 0} ⦃f : Float F⦄ where
  abbrev roc : ℕ → Option F → Option F → List F
  roc window (some curr) (some prev) = f.abs (curr ⊖ prev) ⊘ of_ℕ window ∷ []
  roc window _ _ = []

  unfoldable pub rocs_on : (ℕ → Option F) → ℕ → Time → List F
  rocs_on ind window d = roc window (ind (date_key d)) (ind (date_key (sub_days d window)))

  unfoldable pub divs_on : (ℕ → Option F) → Time → List F
  unfolding window_values
  divs_on ind d =
      let window = window_values ind d window_offsets in
      if leb 2 (length window) then stddev window ∷ [] else []

  -- the rounds `i`, `i + 1`, ... of the loop over the days before `value_date`
  unfoldable pub history_from :
      (ℕ → Option F) → Time → ℕ → ℕ → ℕ → List F × List F → List F × List F
  history_from ind value_date window zero i out = out
  history_from ind value_date window (suc rounds) i (rocs, divs) =
      let d = sub_days value_date (i + 1) in
      history_from ind value_date window rounds (i + 1)
        (rocs ++ rocs_on ind window d, divs ++ divs_on ind d)

  unfoldable pub compute_historical_roc_div :
      List (IndicatorPoint F) → Time → ℕ → ℕ → List F × List F
  compute_historical_roc_div series value_date window lookback =
      history_from (index_points (λ _. none) series) value_date window lookback 0 ([], [])

  -- the distance of `x` from its history in standard deviations, 0 where those are not positive, and
  -- `short` where the history has fewer than 10 values
  unfoldable pub against : List F → F → F → F
  against history x short =
      let sd = stddev history in
      let z = if of_ℕ 0 <? sd then (x ⊖ mean history) ⊘ sd else of_ℕ 0 in
      if leb 10 (length history) then z else short

  unfoldable pub mean_roc : List F → F
  mean_roc [] = of_ℕ 0
  mean_roc (x ∷ xs) = mean (x ∷ xs)

  unfoldable pub divergence : Map F → F
  unfolding norm_values
  divergence scores =
      let vals = norm_values scores all_domains in
      if leb 2 (length vals) then stddev vals else of_ℕ 0

  -- the weighted sum of the two squashed distances
  unfoldable pub raw_risk : TransitionRiskInputs F → Config F → F
  unfolding against mean_roc divergence
  raw_risk inp cfg =
      let roc = mean_roc inp.roc_per_domain in
      let div = divergence inp.normalized_scores in
      let roc_z = against inp.historical_rocs roc (roc ⊗ of_ℕ 10) in
      let div_z = against inp.historical_divs div div in
      cfg.roc_weight ⊗ f.tanh (f.abs roc_z ⊘ of_ℕ 2)
      ⊕ cfg.divergence_weight ⊗ f.tanh (f.abs div_z ⊘ of_ℕ 2)

  unfoldable pub above_baseline : F → F → F
  above_baseline raw configured =
      let baseline = if configured <? of_ℕ 0 || of_ℕ 1 ≤? configured then of_ℕ 0 else configured in
      if of_ℕ 0 <? baseline then (raw ⊖ baseline) ⊘ (of_ℕ 1 ⊖ baseline) else raw

  abbrev pub consistency_discount : TransitionRiskInputs F → F
  consistency_discount inp =
      if inp.momentum_checked && inp.momentum_same_direction then f.decimal 7 1 else of_ℕ 1

  unfoldable pub compute_transition_risk : TransitionRiskInputs F → Config F → F
  unfolding raw_risk above_baseline
  compute_transition_risk inp cfg =
      let shifted = above_baseline (raw_risk inp cfg) cfg.transition_baseline in
      clip (consistency_discount inp ⊗ clip shifted (of_ℕ 0) (of_ℕ 1)) (of_ℕ 0) (of_ℕ 1)

  -- the probabilities of risk-on and risk-off
  unfoldable pub final_probabilities : F → F → F → F × F
  final_probabilities indicator risk k =
      let on = sigmoid (k ⊗ indicator) in ((of_ℕ 1 ⊖ risk) ⊗ on, (of_ℕ 1 ⊖ risk) ⊗ (of_ℕ 1 ⊖ on))
