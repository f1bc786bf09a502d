-- ===== src/Regime/Risk/History.antt =====
-- Which observations the historical rates of change and divergences rest on.
use marketengine.Prelude.{
  ℕ, zero, suc, ◌+◌, ◌≤◌, ◌<◌, ◌≡◌, refl, ap, ◌∙◌, Option, none, some, List, [], ◌∷◌, ◌++◌, arith,
  eqb, length, All, Bool, true, false, if◌then◌else◌, length-append,
}
use marketengine.Prelude.Int.{pos, negsuc}
use marketengine.Float.{Float}
use marketengine.Time.{Time, sub_days}
use marketengine.Domain.{IndicatorPoint}
use marketengine.Regime.Risk.{
  date_key, index_points, rocs_on, divs_on, history_from, compute_historical_roc_div, shift,
}

key_mono : (d n : ℕ) → date_key (sub_days d n) ≤ date_key d
key_mono d n = omega arith

key_before : (t i : ℕ) → 0 < date_key t → date_key (sub_days t (i + 1)) < date_key t
key_before t i h = omega arith

module _ {F : Type 0} ⦃f : Float F⦄ where
  -- Two indexes that agree before day number `n`.
  abbrev pub AgreeBefore : ℕ → (ℕ → Option F) → (ℕ → Option F) → Type 0
  AgreeBefore n ind ind' = (k : ℕ) → k < n → ind k ≡ ind' k

  rocs_on-eq :
      (n : ℕ) (ind ind' : ℕ → Option F) (window : ℕ) (d : Time)
      → date_key d < n
      → AgreeBefore n ind ind'
      → rocs_on ind window d ≡ rocs_on ind' window d
  unfolding rocs_on
  rocs_on-eq n ind ind' window d b agree =
      let c : date_key (sub_days d window) < n = omega (arith, key_mono d window) in
      rw (agree (date_key d) b) (rw (agree (date_key (sub_days d window)) c))

  divs_on-eq :
      (n : ℕ) (ind ind' : ℕ → Option F) (d : Time)
      → date_key d + 3 < n
      → AgreeBefore n ind ind'
      → divs_on ind d ≡ divs_on ind' d
  unfolding divs_on
  divs_on-eq n ind ind' d b agree = simp (
    agree (date_key (shift d (negsuc 2))) (omega arith),
    agree (date_key (shift d (negsuc 1))) (omega arith),
    agree (date_key (shift d (negsuc 0))) (omega arith),
    agree (date_key (shift d (pos 0))) (omega arith),
    agree (date_key (shift d (pos 1))) (omega arith),
    agree (date_key (shift d (pos 2))) (omega arith),
    agree (date_key (shift d (pos 3))) (omega arith),
  )

  length-rocs_on : (ind : ℕ → Option F) (window : ℕ) (d : Time) → length (rocs_on ind window d) ≤ 1
  unfolding rocs_on
  length-rocs_on ind window d = ground arith

  at_most_one : (b : Bool) (x : F) → length (if b then x ∷ [] else []) ≤ 1
  at_most_one true x = omega arith
  at_most_one false x = omega arith

  length-divs_on : (ind : ℕ → Option F) (d : Time) → length (divs_on ind d) ≤ 1
  unfolding divs_on
  length-divs_on ind d = at_most_one _ _

  length-history_from :
      (ind : ℕ → Option F) (value_date : Time) (window rounds i : ℕ) (rocs divs : List F)
      → let (rocs', divs') = history_from ind value_date window rounds i (rocs, divs) in
        (length rocs' ≤ length rocs + rounds) × (length divs' ≤ length divs + rounds)
  unfolding history_from
  length-history_from ind value_date window zero i rocs divs = (omega arith, omega arith)
  length-history_from ind value_date window (suc rounds) i rocs divs =
      let d = sub_days value_date (i + 1) in
      let r = rocs_on ind window d in
      let v = divs_on ind d in
      let rest = length-history_from ind value_date window rounds (i + 1) (rocs ++ r) (divs ++ v) in
      let a = length-append rocs r in
      let b = length-append divs v in
      let c = length-rocs_on ind window d in
      let e = length-divs_on ind d in (omega arith, omega arith)

  -- There is at most one rate of change and one divergence for each day of the lookback.
  length-compute_historical_roc_div :
      (series : List (IndicatorPoint F)) (value_date : Time) (window lookback : ℕ)
      → let (rocs, divs) = compute_historical_roc_div series value_date window lookback in
        (length rocs ≤ lookback) × (length divs ≤ lookback)
  unfolding compute_historical_roc_div
  length-compute_historical_roc_div series value_date window lookback =
      let bounds =
        length-history_from (index_points (λ _. none) series) value_date window lookback 0 [] [] in
      (omega arith, omega arith)

  history_from-rocs :
      (ind ind' : ℕ → Option F) (value_date : Time) (window rounds i : ℕ) (rocs divs divs' : List F)
      → 0 < date_key value_date
      → AgreeBefore (date_key value_date) ind ind'
      → (history_from ind value_date window rounds i (rocs, divs)).0
        ≡ (history_from ind' value_date window rounds i (rocs, divs')).0
  unfolding history_from
  history_from-rocs ind ind' value_date window zero i rocs divs divs' h agree = refl
  history_from-rocs ind ind' value_date window (suc rounds) i rocs divs divs' h agree =
      let d = sub_days value_date (i + 1) in
      ap
        (λ r.
          (history_from ind value_date window rounds (i + 1) (rocs ++ r, divs ++ divs_on ind d)).0)
        (rocs_on-eq (date_key value_date) ind ind' window d (key_before value_date i h) agree)
      ∙ history_from-rocs ind ind' value_date window rounds (i + 1) (rocs ++ rocs_on ind' window d)
          (divs ++ divs_on ind d) (divs' ++ divs_on ind' d) h agree

  history_from-divs :
      (ind ind' : ℕ → Option F) (value_date : Time) (window rounds i : ℕ) (rocs rocs' divs : List F)
      → 0 < date_key value_date
      → AgreeBefore (date_key value_date + 3) ind ind'
      → (history_from ind value_date window rounds i (rocs, divs)).1
        ≡ (history_from ind' value_date window rounds i (rocs', divs)).1
  unfolding history_from
  history_from-divs ind ind' value_date window zero i rocs rocs' divs h agree = refl
  history_from-divs ind ind' value_date window (suc rounds) i rocs rocs' divs h agree =
      let d = sub_days value_date (i + 1) in
      let b : date_key d + 3 < date_key value_date + 3 = omega (arith, key_before value_date i h) in
      ap
        (λ v.
          (history_from ind value_date window rounds (i + 1)
            (rocs ++ rocs_on ind window d, divs ++ v)).1)
        (divs_on-eq (date_key value_date + 3) ind ind' d b agree)
      ∙ history_from-divs ind ind' value_date window rounds (i + 1) (rocs ++ rocs_on ind window d)
          (rocs' ++ rocs_on ind' window d) (divs ++ divs_on ind' d) h agree

  abbrev pub DatedFrom : ℕ → IndicatorPoint F → Type 0
  DatedFrom n p = n ≤ date_key p.value_date

  index_points-later :
      (n : ℕ) (m m' : ℕ → Option F) (later : List (IndicatorPoint F))
      → All (DatedFrom n) later
      → AgreeBefore n m m'
      → AgreeBefore n (index_points m later) m'
  unfolding index_points
  index_points-later n m m' [] _ agree = agree
  index_points-later n m m' (p ∷ ps) (h, hs) agree =
      index_points-later n
        (λ k. if eqb k (date_key p.value_date) then some p.regime_indicator else m k) m' ps hs
        λ k b. ground (arith, agree k b)

  index_points-append :
      (n : ℕ) (m : ℕ → Option F) (series later : List (IndicatorPoint F))
      → All (DatedFrom n) later
      → AgreeBefore n (index_points m (series ++ later)) (index_points m series)
  unfolding index_points
  index_points-append n m [] later h = index_points-later n m m later h (λ k b. refl)
  index_points-append n m (p ∷ ps) later h =
      index_points-append n
        (λ k. if eqb k (date_key p.value_date) then some p.regime_indicator else m k) ps later h

  -- Further observations dated on or after the value date leave the historical rates of change as they
  -- are.
  pub later_points-rocs :
      (series later : List (IndicatorPoint F)) (value_date : Time) (window lookback : ℕ)
      → 0 < date_key value_date
      → All (DatedFrom (date_key value_date)) later
      → (compute_historical_roc_div (series ++ later) value_date window lookback).0
        ≡ (compute_historical_roc_div series value_date window lookback).0
  unfolding compute_historical_roc_div
  later_points-rocs series later value_date window lookback h dated =
      history_from-rocs _ _ value_date window lookback 0 [] [] [] h
        (index_points-append (date_key value_date) (λ _. none) series later dated)

  -- Further observations dated three days or more after the value date leave the historical
  -- divergences as they are.
  pub later_points-divs :
      (series later : List (IndicatorPoint F)) (value_date : Time) (window lookback : ℕ)
      → 0 < date_key value_date
      → All (DatedFrom (date_key value_date + 3)) later
      → (compute_historical_roc_div (series ++ later) value_date window lookback).1
        ≡ (compute_historical_roc_div series value_date window lookback).1
  unfolding compute_historical_roc_div
  later_points-divs series later value_date window lookback h dated =
      history_from-divs _ _ value_date window lookback 0 [] [] [] h
        (index_points-append (date_key value_date + 3) (λ _. none) series later dated)
