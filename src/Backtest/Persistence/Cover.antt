-- ===== src/Backtest/Persistence/Cover.antt =====
-- The runs cover the days, and the flip-flop rate is a rate.
use marketengine.Prelude.{
  ℕ, zero, suc, ◌+◌, ◌-◌, ◌*◌, ◌<◌, ◌≤◌, ◌^◌, ◌≡◌, refl, sym, ap, ◌∙◌, inl, inr, true, not, ◌||◌,
  List, [], ◌∷◌, ◌++◌, map, arith, ltb, length, Bool-cases,
}
use marketengine.Float.{Float, of_ℕ}
use marketengine.Float.Laws.{InUnit, IsRounded}
use marketengine.Time.{Time}
use marketengine.Domain.{Label, risk_on, risk_off, transition}
use marketengine.Backtest.Service.{RegimeDay}
use marketengine.Backtest.Persistence.{
  hour, same_label, Run, duration, runs_from, runs_of, flip_flops, flip_flops_of, flip_flop_rate_of,
  persistence_metrics,
}

replicate : {A : Type 0} → ℕ → A → List A
replicate zero x = []
replicate (suc n) x = x ∷ replicate n x

-- The labels that a list of runs stands for, day by day.
unfoldable pub labels_of : List Run → List Label
unfolding replicate
labels_of [] = []
labels_of (r ∷ rs) = replicate (duration r) r.label ++ labels_of rs

replicate-snoc :
    (n : ℕ) (x : Label) (ys : List Label) → replicate (suc n) x ++ ys ≡ replicate n x ++ x ∷ ys
unfolding replicate
replicate-snoc zero x ys = refl
replicate-snoc (suc n) x ys = ap (λ zs. x ∷ zs) (replicate-snoc n x ys)

same_label-eq : (a b : Label) → same_label a b ≡ true → a ≡ b
same_label-eq risk_on risk_on h = refl
same_label-eq risk_off risk_off h = refl
same_label-eq transition transition h = refl
same_label-eq a b h = cc

module _ {F : Type 0} where
  labels_of-runs_from :
      (i : ℕ) (prev : Time) (cur : Run) (ds : List (RegimeDay F))
      → cur.start < i
      → labels_of (runs_from i prev cur ds)
        ≡ replicate (i - cur.start) cur.label ++ map (λ d. d.label) ds
  unfolding labels_of runs_from
  labels_of-runs_from i prev cur [] h =
      let n : i - 1 - cur.start + 1 ≡ i - cur.start = omega arith in
      ap (λ k. replicate k cur.label ++ []) n
  labels_of-runs_from i prev cur (d ∷ ds) h =
      elim (Bool-cases
        (not (same_label d.label cur.label) || ltb (36 * hour) (d.value_date - prev))) [
          | inl new ↦
              let n : i - 1 - cur.start + 1 ≡ i - cur.start = omega arith in
              let one : i + 1 - i ≡ 1 = omega arith in
              rw (new, n)
                (ap (λ ls. replicate (i - cur.start) cur.label ++ ls)
                  (labels_of-runs_from (i + 1) d.value_date
                      (record { label = d.label; start = i; stop = i }) ds (omega arith)
                    ∙ ap (λ k. replicate k d.label ++ map (λ x. x.label) ds) one))
          | inr same ↦
              let n : i + 1 - cur.start ≡ suc (i - cur.start) = omega arith in
              let l : d.label ≡ cur.label = same_label-eq d.label cur.label (ground arith) in
              rw same (
                labels_of-runs_from (i + 1) d.value_date cur ds (omega arith)
                ∙ ap (λ k. replicate k cur.label ++ map (λ x. x.label) ds) n
                ∙ replicate-snoc (i - cur.start) cur.label (map (λ x. x.label) ds)
                ∙ ap (λ a. replicate (i - cur.start) cur.label ++ a ∷ map (λ x. x.label) ds)
                    (sym l))
        ]

  -- The runs cover the days: writing out the label of each run once for each day of its duration gives
  -- the labels of all days in order.
  pub labels_of-runs_of :
      (days : List (RegimeDay F)) → labels_of (runs_of days) ≡ map (λ d. d.label) days
  unfolding labels_of runs_of runs_from
  labels_of-runs_of [] = refl
  labels_of-runs_of (d ∷ ds) =
      labels_of-runs_from 1 d.value_date (record { label = d.label; start = 0; stop = 0 }) ds
        (omega arith)

flip_flops-le : (r : Run) (rs : List Run) → flip_flops r rs ≤ length rs
unfolding flip_flops
flip_flops-le r [] = omega arith
flip_flops-le r (s ∷ []) = omega arith
flip_flops-le r (s ∷ t ∷ rs) = ground (arith, flip_flops-le s (t ∷ rs))

module _ {F : Type 0} where
  length-runs_from :
      (i : ℕ) (prev : Time) (cur : Run) (ds : List (RegimeDay F))
      → length (runs_from i prev cur ds) ≤ suc (length ds)
  unfolding runs_from
  length-runs_from i prev cur [] = omega arith
  length-runs_from i prev cur (d ∷ ds) =
      elim (Bool-cases
        (not (same_label d.label cur.label) || ltb (36 * hour) (d.value_date - prev))) [
          | inl new ↦
              let n =
                length-runs_from (i + 1) d.value_date
                  (record { label = d.label; start = i; stop = i }) ds in
              rw new (omega arith)
          | inr same ↦ let n = length-runs_from (i + 1) d.value_date cur ds in rw same (omega arith)
        ]

module _ {F : Type 0} ⦃f : Float F⦄ where
  zero-InUnit : IsRounded F → InUnit {F = F} (of_ℕ 0)
  zero-InUnit laws = (
    laws.decimal_le 0 0 0 (omega arith) (omega arith) (omega arith),
    laws.decimal_le 0 1 0 (omega arith) (omega arith) (omega arith),
  )

  flip_flop_rate_of-InUnit :
      IsRounded F
      → (r : Run) (rs : List Run) → length rs < 2 ^ 53
      → InUnit {F = F} (flip_flop_rate_of (r ∷ rs))
  unfolding flip_flop_rate_of flip_flops_of
  flip_flop_rate_of-InUnit laws r rs h =
      let n : suc (length rs) - 1 ≡ length rs = omega arith in
      rw n (elim (Bool-cases (ltb 0 (length rs))) [
        | inl changes ↦
            rw changes
              (laws.div_counts (flip_flops r rs) (length rs) (flip_flops-le r rs) (ground arith) h)
        | inr steady ↦ rw steady (zero-InUnit laws)
      ])

  -- Over fewer than 2^53 days the flip-flop rate is between 0 and 1.
  pub flip_flop_rate_unit :
      IsRounded F
      → (days : List (RegimeDay F)) → length days < 2 ^ 53
      → InUnit (persistence_metrics days).flip_flop_rate
  unfolding persistence_metrics runs_of
  flip_flop_rate_unit laws [] h = zero-InUnit laws
  flip_flop_rate_unit laws (d ∷ ds) h =
      go (runs_from 1 d.value_date (record { label = d.label; start = 0; stop = 0 }) ds)
        (length-runs_from 1 d.value_date (record { label = d.label; start = 0; stop = 0 }) ds)
    where
      go : (rs : List Run) → length rs ≤ suc (length ds) → InUnit {F = F} (flip_flop_rate_of rs)
      go [] b = zero-InUnit laws
      go (r ∷ rs) b = flip_flop_rate_of-InUnit laws r rs (omega arith)
