-- ===== src/Orchestrator/Laws.antt =====
-- What a run and the daemon do, whichever steps fail.
use marketengine.Prelude.{
  ◌-◌, ◌%◌, ◌≡◌, ◌≢◌, refl, String, Bool, true, false, if◌then◌else◌, List, [], ◌∷◌, map, arith,
  eq_iff,
}
use marketengine.Time.{Time, utc_day}
use marketengine.Errors.{Err, Result, ok, err, steps_failed}
use marketengine.Effects.{pure, query, attempt, ◌>>=◌}
use marketengine.Orchestrator.{
  Step, resolve_value_date, add_failed, run_steps, verdict, run_once, date_or_zero, tick, ticks,
  daemon,
}

abbrev pub is_ok : Result (Unit {0}) → Bool
is_ok (ok _) = true
is_ok (err e) = false

-- Success if no step failed, and else the error that names those that did.
abbrev pub Concludes : List String → Result (Unit {0}) → Type 0
Concludes [] r = r ≡ ok tt
Concludes (n ∷ ns) r = r ≡ err (steps_failed (n ∷ ns))

module _ {Act : Type 0} where
  -- The history after each step has run in turn, whatever the steps before it returned.
  abbrev pub after_steps : List (Step Act) → Time → Time → List Act → List Act
  after_steps [] from to h = h
  after_steps (s ∷ ss) from to h = after_steps ss from to (s.fn from to h).1

  -- The names of the steps that fail when they are run so.
  abbrev pub failures : List (Step Act) → Time → Time → List Act → List String
  failures [] from to h = []
  failures (s ∷ ss) from to h =
      let rest = failures ss from to (s.fn from to h).1 in
      if is_ok (s.fn from to h).0 then rest else s.name ∷ rest

  add_failed_lem :
      (steps : List (Step Act)) (name : String) (r : Result (Unit {0})) (names : List String)
      → add_failed steps name r names ≡ (if is_ok r then names else name ∷ names)
  add_failed_lem steps name (ok _) names = refl
  add_failed_lem steps name (err e) names = refl

  verdict-Concludes :
      (steps : List (Step Act)) (names : List String) → Concludes names (verdict steps names)
  verdict-Concludes steps [] = refl
  verdict-Concludes steps (n ∷ ns) = refl

  module _ (steps : List (Step Act)) where
    run_steps_lem :
        (ss : List (Step Act)) (from to : Time) (h : List Act)
        → run_steps steps ss from to h ≡ (ok (failures ss from to h), after_steps ss from to h)
    unfolding run_steps attempt pure ◌>>=◌
    run_steps_lem [] from to h = refl
    run_steps_lem (s ∷ ss) from to h =
        rw
          (
            run_steps_lem ss from to (s.fn from to h).1,
            add_failed_lem steps s.name (s.fn from to h).0 (failures ss from to (s.fn from to h).1),
          )
          refl

    run_once_at :
        (from to : Time) (h : List Act)
        → run_once steps from to h
          ≡ (verdict steps (failures steps from to h), after_steps steps from to h)
    unfolding run_once query ◌>>=◌
    run_once_at from to h = rw (run_steps_lem steps from to h) refl

    -- A run calls every step, in order, whichever of them fail: what is written is what all steps
    -- write in turn, and the result is success if none failed, and else the error that names the
    -- steps that failed, in order.
    pub run_once_lem :
        (from to : Time) (h : List Act)
        → Concludes (failures steps from to h) (run_once steps from to h).0
          × ((run_once steps from to h).1 ≡ after_steps steps from to h)
    run_once_lem from to h =
        rw (run_once_at from to h) (verdict-Concludes steps (failures steps from to h), refl)

    module _ (parse : String → Result Time) where
      -- The history after a run for each day in turn.
      abbrev pub after_days : List Time → List Act → List Act
      after_days [] h = h
      after_days (d ∷ ds) h = after_days ds (after_steps steps d d h)

      -- The start of the UTC day of a time.
      abbrev pub midnight : Time → Time
      midnight t = t - t % 86_400_000_000_000

      -- The day of the first tick, by the flag `-value-date`: the day of the clock without one, the
      -- given date, or the zero time, the start of the year 1, if it is no date.
      pub data FirstDay (flag : String) (now : Time) : Time → Type 0 where
        of_clock : flag ≡ "" → FirstDay flag now (midnight now)
        given : {d : Time} → flag ≢ "" → parse flag ≡ ok d → FirstDay flag now d
        malformed : {e : Err} → flag ≢ "" → parse flag ≡ err e → FirstDay flag now 0

      first_day_lem :
          {flag : String} {now d : Time}
          → FirstDay flag now d
          → date_or_zero steps parse (resolve_value_date parse flag now) ≡ d
      unfolding resolve_value_date utc_day
      first_day_lem {flag} (of_clock e) = ground (arith, eq_iff flag "")
      first_day_lem {flag} (given n e) = ground (arith, eq_iff flag "")
      first_day_lem {flag} (malformed n e) = ground (arith, eq_iff flag "")

      tick_lem :
          {flag : String} {now d : Time} (h : List Act)
          → FirstDay flag now d
          → tick steps parse flag now h ≡ (ok tt, after_steps steps d d h)
      unfolding tick attempt pure ◌>>=◌
      tick_lem h first = rw (first_day_lem first, run_once_at _ _ h) refl

      ticks_lem :
          (nows : List Time) (h : List Act)
          → ticks steps parse nows h ≡ (ok tt, after_days (map midnight nows) h)
      unfolding ticks pure ◌>>=◌
      ticks_lem [] h = refl
      ticks_lem (now ∷ nows) h = rw (tick_lem {now = now} h (of_clock refl)) (ticks_lem nows _)

      -- No failure of a step ends the daemon: having run all steps for the day of each tick in turn, it
      -- returns without an error. The first day is that of the flag (`FirstDay`), also the zero time
      -- where the flag is no date; each later one starts at the midnight before its tick.
      pub daemon_lem :
          {flag : String} {now d : Time} (nows : List Time) (h : List Act)
          → FirstDay flag now d
          → daemon steps parse flag now nows h ≡ (ok tt, after_days (d ∷ map midnight nows) h)
      unfolding daemon ◌>>=◌
      daemon_lem nows h first = rw (tick_lem h first) (ticks_lem nows _)
