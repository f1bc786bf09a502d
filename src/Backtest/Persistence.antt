-- ===== src/Backtest/Persistence.antt =====
-- `PersistenceMetrics` of internal/backtest/metrics.go. The maps by label are functions of the label,
-- `none` where the map has no entry.
pub mod Cover
use marketengine.Prelude.{
  ℕ, suc, ◌+◌, ◌-◌, ◌*◌, ◌/◌, ◌%◌, Bool, true, false, not, ◌&&◌, ◌||◌, Option, none, some, List, [],
  ◌∷◌, ltb, leb, eqb, length, get_or, last, sum, sort_by, if◌then◌else◌,
}
use marketengine.Float.{Float, ◌⊕◌, ◌⊗◌, ◌⊘◌, ◌<?◌, of_ℕ}
use marketengine.Time.{Time}
use marketengine.Domain.{Label, risk_on, risk_off, transition}
use marketengine.Backtest.Service.{RegimeDay}

abbrev pub hour : ℕ
hour = 3_600_000_000_000

abbrev pub same_label : Label → Label → Bool
same_label risk_on risk_on = true
same_label risk_off risk_off = true
same_label transition transition = true
same_label a b = false

-- a stretch of days from index `start` to index `stop`
pub record Run : Type 0 where
  pub label : Label
  pub start : ℕ
  pub stop : ℕ

abbrev pub duration : Run → ℕ
duration r = r.stop - r.start + 1

module _ {F : Type 0} where
  -- the rounds `i`, `i + 1`, ... of the loop over the days, after a day on `prev`, and the last `append`
  unfoldable pub runs_from : ℕ → Time → Run → List (RegimeDay F) → List Run
  runs_from i prev cur [] = record cur { stop = i - 1 } ∷ []
  runs_from i prev cur (d ∷ ds) =
      let breaks = not (same_label d.label cur.label) || ltb (36 * hour) (d.value_date - prev) in
      let next = if breaks then record { label = d.label; start = i; stop = i } else cur in
      let rest = runs_from (i + 1) d.value_date next ds in
      if breaks then record cur { stop = i - 1 } ∷ rest else rest

  unfoldable pub runs_of : List (RegimeDay F) → List Run
  unfolding runs_from
  runs_of [] = []
  runs_of (d ∷ ds) = runs_from 1 d.value_date (record { label = d.label; start = 0; stop = 0 }) ds

-- durByLabel[lbl]
unfoldable pub durations_of : Label → List Run → List ℕ
durations_of lbl [] = []
durations_of lbl (r ∷ rs) =
    let rest = durations_of lbl rs in if same_label r.label lbl then duration r ∷ rest else rest

-- the loop that counts short runs between two of one label, from the run before `r` on
unfoldable pub flip_flops : Run → List Run → ℕ
flip_flops prev [] = 0
flip_flops prev (r ∷ []) = 0
flip_flops prev (r ∷ after ∷ rs) =
    let rest = flip_flops r (after ∷ rs) in
    if leb (duration r) 7 && same_label after.label prev.label then suc rest else rest

unfoldable pub flip_flops_of : List Run → ℕ
unfolding flip_flops
flip_flops_of [] = 0
flip_flops_of (r ∷ rs) = flip_flops r rs

pub record PersistenceStats (F : Type 0) : Type 0 where
  pub mean_duration_days : Label → Option F
  pub median_duration_days : Label → Option F
  pub transitions : ℕ
  pub transitions_per_year : F
  pub flip_flop_rate : F
  pub total_days : ℕ

module _ {F : Type 0} ⦃f : Float F⦄ where
  mean_days : List ℕ → Option F
  mean_days [] = none
  mean_days (d ∷ ds) = some (of_ℕ (sum (d ∷ ds)) ⊘ of_ℕ (length (d ∷ ds)))

  -- the median of a sorted list
  middle : List ℕ → F
  middle sorted =
      let n = length sorted in
      if eqb (n % 2) 1
      then of_ℕ (get_or sorted (n / 2) 0)
      else of_ℕ (get_or sorted (n / 2 - 1) 0 + get_or sorted (n / 2) 0) ⊘ of_ℕ 2

  median_days : List ℕ → Option F
  unfolding middle
  median_days [] = none
  median_days (d ∷ ds) = some (middle (sort_by ltb (d ∷ ds)))

  -- `Hours() / 24` of a duration
  days_of : ℕ → F
  days_of t = (of_ℕ (t / hour) ⊕ of_ℕ (t % hour) ⊘ of_ℕ hour) ⊘ of_ℕ 24

  per_year : ℕ → Time → Time → F
  unfolding days_of
  per_year transitions from to =
      let span = days_of (to - from) in
      if of_ℕ 0 <? span then of_ℕ transitions ⊗ of_ℕ 365 ⊘ span else of_ℕ 0

  unfoldable pub flip_flop_rate_of : List Run → F
  unfolding flip_flops_of
  flip_flop_rate_of runs =
      let transitions = length runs - 1 in
      if ltb 0 transitions then of_ℕ (flip_flops_of runs) ⊘ of_ℕ transitions else of_ℕ 0

  unfoldable pub persistence_metrics : List (RegimeDay F) → PersistenceStats F
  unfolding mean_days median_days per_year flip_flop_rate_of runs_of durations_of
  persistence_metrics [] = record {
    mean_duration_days = λ lbl. none;
    median_duration_days = λ lbl. none;
    transitions = 0;
    transitions_per_year = of_ℕ 0;
    flip_flop_rate = of_ℕ 0;
    total_days = 0;
  }
  persistence_metrics (d ∷ ds) =
      let runs = runs_of (d ∷ ds) in
      record {
        mean_duration_days = λ lbl. mean_days (durations_of lbl runs);
        median_duration_days = λ lbl. median_days (durations_of lbl runs);
        transitions = length runs - 1;
        transitions_per_year = per_year (length runs - 1) d.value_date (last d ds).value_date;
        flip_flop_rate = flip_flop_rate_of runs;
        total_days = length (d ∷ ds);
      }
