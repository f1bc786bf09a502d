-- ===== src/Time/Days.antt =====
-- The days that the loops visit have a date.
use marketengine.Prelude.{ℕ, zero, suc, ◌+◌, ◌/◌, ◌≡◌, false, List, All, arith, if◌then◌else◌}
use marketengine.Prelude.{Bool, true}
use marketengine.Time.{Time, is_zero, days_up_to, days_between, add_days, after, day}

days_up_to-All :
    (rounds : ℕ) (d to : Time)
    → is_zero d ≡ false
    → All (λ t. is_zero t ≡ false) (days_up_to rounds d to)
unfolding days_up_to
days_up_to-All zero d to h = tt
days_up_to-All (suc rounds) d to h =
    let next = days_up_to-All rounds (add_days d 1) to (ground (arith, h)) in
    All-if (after d to) _ _ tt (h, next)
  where
    All-if :
        (b : Bool) (xs ys : List Time)
        → All (λ t. is_zero t ≡ false) xs
        → All (λ t. is_zero t ≡ false) ys
        → All (λ t. is_zero t ≡ false) (if b then xs else ys)
    All-if true xs ys p q = p
    All-if false xs ys p q = q

pub days_between-All :
    (from to : Time) → is_zero from ≡ false → All (λ t. is_zero t ≡ false) (days_between from to)
unfolding days_between
days_between-All from to h = days_up_to-All (to / day + 1) from to h

pub not_after-dated : (a b : Time) → is_zero a ≡ false → after a b ≡ false → is_zero b ≡ false
not_after-dated a b h k = ground (arith, h, k)
