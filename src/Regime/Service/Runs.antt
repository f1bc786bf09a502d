-- ===== src/Regime/Service/Runs.antt =====
-- What the runs over assets and days write.
use marketengine.Prelude.{
  ◌≡◌, Bool-cases, refl, sym, ◌⊎◌, inl, inr, List, [], ◌∷◌, ◌++◌, if◌then◌else◌,
}
use mathlib.Core.Path.{subst}
use marketengine.Float.{Float}
use marketengine.Float.Laws.{IsRounded}
use marketengine.Time.{Time, after, utc_day, add_days, days_between}
use marketengine.Errors.{Err, Result, ok, err, wrap, message}
use marketengine.Effects.{pure, raise, query, context, continue, ◌>>=◌, wrapped, skip_error}
use marketengine.Domain.{Asset, RegimeState}
use marketengine.Regime.Config.{Config}
use marketengine.Regime.Ports.{Action, saved, published, Ports}
use marketengine.Regime.Service.{
  completed, compute_one, compute_assets, run_once, backfill_day, backfill_days, run_backfill,
}
use marketengine.Regime.Service.Outcome.{IsFor, Outcome, compute_one-Outcome}

module _ {F : Type 0} ⦃f : Float F⦄ (ports : Ports F) (cfg : Config F) where
  -- What one computation for the asset and the day adds to the history: nothing, a saved state, or a
  -- saved state and its event.
  abbrev pub Adds : Asset → Time → List (Action F) → List (Action F) → Type 0
  Adds a d h h' =
      (h' ≡ h)
      ⊎ ((s : RegimeState F) × IsFor ports cfg a d s
          × ((h' ≡ h ++ saved s ∷ [])
              ⊎ (h' ≡ h ++ saved s ∷ published (completed ports cfg s) ∷ [])))

  -- A run over assets that stops at the first failure: the first asset fails, and the run fails with
  -- its error and writes what it wrote; or it succeeds with its state saved and published, and the run
  -- goes on from there.
  abbrev pub Trace :
      Time → Time → List Asset → List (Action F) → Result (Unit {0}) × List (Action F) → Type 0
  Trace d cutoff [] h (r, h') = (r ≡ ok tt) × (h' ≡ h)
  Trace d cutoff (a ∷ as') h (r, h') =
      let (r₁, h₁) = compute_one ports cfg a d cutoff h in
      ((e : Err) × (r₁ ≡ err e) × (r ≡ err (wrap "regime" e)) × (h' ≡ h₁) × Adds a d h h₁)
      ⊎ ((s : RegimeState F) × IsFor ports cfg a d s
          × (r₁ ≡ ok tt)
          × (h₁ ≡ h ++ saved s ∷ published (completed ports cfg s) ∷ [])
          × Trace d cutoff as' h₁ (r, h'))

  -- A run over days and assets that no failure stops: each round starts from what the rounds before
  -- it wrote.
  abbrev pub Log : Time → List (Time × Asset) → List (Action F) → List (Action F) → Type 0
  Log cutoff [] h h' = h' ≡ h
  Log cutoff ((d, a) ∷ rounds) h h' =
      let h₁ = (compute_one ports cfg a d cutoff h).1 in Adds a d h h₁ × Log cutoff rounds h₁ h'

  abbrev pub rounds_of_day : Time → List Asset → List (Time × Asset)
  rounds_of_day d [] = []
  rounds_of_day d (a ∷ as') = (d, a) ∷ rounds_of_day d as'

  abbrev pub rounds_of : List Time → List Asset → List (Time × Asset)
  rounds_of [] assets = []
  rounds_of (d ∷ ds) assets = rounds_of_day d assets ++ rounds_of ds assets

  module _ (laws : IsRounded F) where
    Adds-Outcome :
        (a : Asset) (d cutoff : Time) (h : List (Action F))
        (x : Result (Unit {0}) × List (Action F))
        → Outcome ports cfg a d cutoff h x
        → Adds a d h x.1
    Adds-Outcome a d cutoff h x (inl (e, c, q, w)) = inl w
    Adds-Outcome a d cutoff h x (inr (s, c, p, inl (e, t, q, w))) = inl w
    Adds-Outcome a d cutoff h x (inr (s, c, p, inr (t, inl (e, u, q, w)))) = inr (s, p, inl w)
    Adds-Outcome a d cutoff h x (inr (s, c, p, inr (t, inr (q, w)))) = inr (s, p, inr w)

    compute_one-Adds :
        (a : Asset) (d cutoff : Time) (h : List (Action F))
        → Adds a d h (compute_one ports cfg a d cutoff h).1
    compute_one-Adds a d cutoff h =
        Adds-Outcome a d cutoff h _ (compute_one-Outcome ports cfg laws a d cutoff h)

    -- What an asset that succeeds has written.
    compute_one_done :
        (a : Asset) (d cutoff : Time) (h : List (Action F))
        (x : Result (Unit {0}) × List (Action F))
        → Outcome ports cfg a d cutoff h x
        → x.0 ≡ ok tt
        → (s : RegimeState F) × IsFor ports cfg a d s
          × (x.1 ≡ h ++ saved s ∷ published (completed ports cfg s) ∷ [])
    compute_one_done a d cutoff h x (inl (e, c, q, w)) done = cc
    compute_one_done a d cutoff h x (inr (s, c, p, inl (e, t, q, w))) done = cc
    compute_one_done a d cutoff h x (inr (s, c, p, inr (t, inl (e, u, q, w)))) done = cc
    compute_one_done a d cutoff h x (inr (s, c, p, inr (t, inr (q, w)))) done = (s, p, w)

    continue_trace :
        (a : Asset) (d cutoff : Time) (h : List (Action F))
        (x : Result (Unit {0}) × List (Action F))
        (k : List (Action F) → Result (Unit {0}) × List (Action F))
        → Outcome ports cfg a d cutoff h x
        → let y = continue (wrapped "regime" x) (λ _. k) in
          ((e : Err) × (x.0 ≡ err e) × (y.0 ≡ err (wrap "regime" e)) × (y.1 ≡ x.1) × Adds a d h x.1)
          ⊎ ((s : RegimeState F) × IsFor ports cfg a d s
              × (x.0 ≡ ok tt)
              × (x.1 ≡ h ++ saved s ∷ published (completed ports cfg s) ∷ [])
              × (y ≡ k x.1))
    continue_trace a d cutoff h (ok _, h₁) k o =
        let (s, p, w) = compute_one_done a d cutoff h (ok tt, h₁) o refl in
        inr (s, p, refl, w, refl)
    continue_trace a d cutoff h (err e, h₁) k o =
        inl (e, refl, refl, refl, Adds-Outcome a d cutoff h (err e, h₁) o)

    compute_assets-Trace :
        (assets : List Asset) (d cutoff : Time) (h : List (Action F))
        → Trace d cutoff assets h (compute_assets ports cfg assets d cutoff h)
    unfolding compute_assets ◌>>=◌ context pure
    compute_assets-Trace [] d cutoff h = (refl, refl)
    compute_assets-Trace (a ∷ as') d cutoff h =
        elim (continue_trace a d cutoff h (compute_one ports cfg a d cutoff h)
          (compute_assets ports cfg as' d cutoff)
          (compute_one-Outcome ports cfg laws a d cutoff h)) [
            | inl failed ↦ inl failed
            | inr (s, p, q, w, same) ↦
                let h₁ = (compute_one ports cfg a d cutoff h).1 in
                inr (
                  s,
                  p,
                  q,
                  w,
                  subst (λ y. Trace d cutoff as' h₁ y) (sym same)
                      (compute_assets-Trace as' d cutoff h₁),
                )
          ]

    -- `Trace`, where the clock answers: `RunOnce` takes its time as the cutoff and computes the assets in
    -- their order, for the UTC day of the date. The first asset that fails ends the run with its error,
    -- wrapped; each asset before it has its state saved and its event published, and so have all of
    -- them in a run that succeeds.
    pub run_once-Trace :
        (assets : List Asset) (value_date : Time) (h : List (Action F)) (now : Time)
        → ports.now h ≡ ok now
        → Trace (utc_day value_date) now assets h (run_once ports cfg assets value_date h)
    unfolding run_once ◌>>=◌ query
    run_once-Trace assets value_date h now e =
        rw e (compute_assets-Trace assets (utc_day value_date) now h)

    backfill_day-Log :
        (d cutoff : Time) (assets : List Asset) (rest : List (Time × Asset))
        (h h' : List (Action F))
        → Log cutoff rest (backfill_day ports cfg assets d cutoff h).1 h'
        → Log cutoff (rounds_of_day d assets ++ rest) h h'
    unfolding backfill_day ◌>>=◌ skip_error pure
    backfill_day-Log d cutoff [] rest h h' l = l
    backfill_day-Log d cutoff (a ∷ as') rest h h' l = (
      compute_one-Adds a d cutoff h,
      backfill_day-Log d cutoff as' rest (compute_one ports cfg a d cutoff h).1 h' l,
    )

    backfill_day_ok :
        (d cutoff : Time) (assets : List Asset) (h : List (Action F))
        → (backfill_day ports cfg assets d cutoff h).0 ≡ ok tt
    unfolding backfill_day ◌>>=◌ skip_error pure
    backfill_day_ok d cutoff [] h = refl
    backfill_day_ok d cutoff (a ∷ as') h =
        backfill_day_ok d cutoff as' (compute_one ports cfg a d cutoff h).1

    continue_ok :
        (x : Result (Unit {0}) × List (Action F))
        (k : List (Action F) → Result (Unit {0}) × List (Action F))
        → x.0 ≡ ok tt
        → continue x (λ _. k) ≡ k x.1
    continue_ok (ok _, h) k e = refl
    continue_ok (err x, h) k e = cc

    backfill_days-Log :
        (assets : List Asset) (days : List Time) (cutoff : Time) (h : List (Action F))
        → let (r, h') = backfill_days ports cfg assets days cutoff h in
          (r ≡ ok tt) × Log cutoff (rounds_of days assets) h h'
    unfolding backfill_days ◌>>=◌ pure
    backfill_days-Log assets [] cutoff h = (refl, refl)
    backfill_days-Log assets (d ∷ ds) cutoff h =
        let x = backfill_day ports cfg assets d cutoff h in
        let (done, log) = backfill_days-Log assets ds cutoff x.1 in
        subst (λ y. (y.0 ≡ ok tt) × Log cutoff (rounds_of (d ∷ ds) assets) h y.1)
          (sym (
            continue_ok x (backfill_days ports cfg assets ds cutoff)
              (backfill_day_ok d cutoff assets h)))
          (done, backfill_day-Log d cutoff assets (rounds_of ds assets) h _ log)

    -- `RunBackfill` from a later UTC day to an earlier one fails and writes nothing. Otherwise, with
    -- the clock's time and a day as the cutoff, it succeeds whatever fails inside, having tried every
    -- asset on every day from the first UTC day to the last in that order, each round starting from what
    -- the rounds before it wrote and adding nothing, its state, or its state and the event (`Log`).
    pub run_backfill-Log :
        (assets : List Asset) (from to : Time) (h : List (Action F)) (now : Time)
        → ports.now h ≡ ok now
        → let (r, h') = run_backfill ports cfg assets from to h in
          if after (utc_day from) (utc_day to)
          then (r ≡ err (message "backfill from after to")) × (h' ≡ h)
          else (r ≡ ok tt)
            × Log
                (add_days now 1)
                (rounds_of (days_between (utc_day from) (utc_day to)) assets)
                h
                h'
    unfolding run_backfill ◌>>=◌ query raise
    run_backfill-Log assets from to h now e =
        elim (Bool-cases (after (utc_day from) (utc_day to))) [
          | inl late ↦ rw late (refl, refl)
          | inr fine ↦
              rw (fine, e)
                (backfill_days-Log assets (days_between (utc_day from) (utc_day to))
                  (add_days now 1) h)
        ]
