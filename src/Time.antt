-- ===== src/Time.antt =====
-- Go's `time.Time` as the program uses it, in UTC: the nanoseconds since the zero time, the start of
-- the year 1. A shift back stops at the zero time, which `IsZero` marks (internal/domain/time.go).
pub mod Days
use marketengine.Prelude.{
  ℕ, zero, suc, ◌+◌, ◌-◌, ◌*◌, ◌/◌, ◌%◌, ◌<◌, ◌≡◌, Bool, List, [], ◌∷◌, none, some, arith, ltb, leb,
  eqb, get_elem?, if◌then◌else◌,
}

abbrev pub Time : Type 0
Time = ℕ

-- 24 * time.Hour
abbrev pub day : ℕ
day = 86_400_000_000_000

abbrev pub minute : ℕ
minute = 60_000_000_000

abbrev pub is_zero : Time → Bool
is_zero t = eqb t 0

-- t.Truncate(24 * time.Hour) counts from the zero time
unfoldable pub utc_day : Time → Time
utc_day t = t - t % day

-- t.AddDate(0, 0, n) and t.AddDate(0, 0, -n); a day has 24 hours in UTC
abbrev pub add_days : Time → ℕ → Time
add_days t n = t + n * day

abbrev pub sub_days : Time → ℕ → Time
sub_days t n = t - n * day

abbrev pub after : Time → Time → Bool
after a b = ltb b a

-- for d := from; !d.After(to); d = d.AddDate(0, 0, 1), with a number of rounds that is not used up
unfoldable days_up_to : ℕ → Time → Time → List Time
days_up_to zero d to = []
days_up_to (suc rounds) d to =
    let rest = days_up_to rounds (add_days d 1) to in if after d to then [] else d ∷ rest

unfoldable pub days_between : Time → Time → List Time
unfolding days_up_to
days_between from to = days_up_to (to / day + 1) from to

days_up_to-get_elem? :
    (rounds : ℕ) (d to : Time) (i : ℕ)
    → to < d + rounds * day
    → get_elem? (days_up_to rounds d to) i
      ≡ (if leb (d + i * day) to then some (d + i * day) else none)
unfolding days_up_to
days_up_to-get_elem? zero d to i h = ground arith
days_up_to-get_elem? (suc rounds) d to zero h = ground arith
days_up_to-get_elem? (suc rounds) d to (suc i) h =
    ground (arith, days_up_to-get_elem? rounds (add_days d 1) to i)

-- The loop visits `from`, a day later, two days later and so on, and no day past `to`.
pub days_between-get_elem? :
    (from to : Time) (i : ℕ)
    → get_elem? (days_between from to) i
      ≡ (if leb (from + i * day) to then some (from + i * day) else none)
unfolding days_between
days_between-get_elem? from to i = days_up_to-get_elem? (to / day + 1) from to i (omega arith)

pub utc_day_idem : (t : Time) → utc_day (utc_day t) ≡ utc_day t
unfolding utc_day
utc_day_idem t = omega arith
