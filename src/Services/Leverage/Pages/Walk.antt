-- ===== src/Services/Leverage/Pages/Walk.antt =====
-- The pages that `backfillAggregatedOI` and its twin for liquidations ask for, and what they return.
use mathlib.Core.Path.{subst}
use marketengine.Prelude.{
  ℕ, zero, suc, ◌-◌, ◌*◌, ◌≤◌, ◌<◌, ◌≡◌, ◌≢◌, ◌⊎◌, refl, sym, ap, ◌∙◌, not, ◌&&◌, List, [], ◌∷◌,
  ◌++◌, map, All, arith, ltb, Bool-cases, inl, inr, if◌then◌else◌,
}
use marketengine.Time.{Time, day, is_zero, after}
use marketengine.Errors.{Err, Result, ok, err}
use marketengine.Effects.{Eff, pure, continue, ◌>>=◌}
use marketengine.Effects.Rules.{ReadsOnly}
use marketengine.Services.Leverage.Pages.{
  coinglass_agg_min_date, coinglass_agg_max_pages, put_all, oldest_of, after_page, pages,
  backfill_aggregated,
}
use marketengine.Services.Leverage.Pages.Laws.{
  IsDistinctInTime, first_at, last_at, put_all-append, values_lem,
}

abbrev earlier : Time → Time → Time
earlier a b = if ltb a b then a else b

earlier-least : (a b : Time) → (earlier a b ≤ a) × (earlier a b ≤ b)
earlier-least a b = ground arith

earlier-either : (a b : Time) → (earlier a b ≡ a) ⊎ (earlier a b ≡ b)
earlier-either a b = ground arith

module _ {P : Type 0} (date_of : P → Time) where
  abbrev pub HasDate : Time → List P → Type 0
  HasDate t [] = ⊥
  HasDate t (p ∷ ps) = (date_of p ≡ t) ⊎ HasDate t ps

  -- The oldest date of a page.
  abbrev pub IsOldest : Time → List P → Type 0
  IsOldest t ps = HasDate t ps × All (λ p. t ≤ date_of p) ps

  abbrev pub joined : List P → Result (List P) → Result (List P)
  joined ps (ok qs) = ok (ps ++ qs)
  joined ps (err e) = err e

  -- A walk back in time over the pages, of which `page end` is the one up to `end`, with the pages left,
  -- the next `end` and the oldest date so far (0 at the start), to the points of its pages in order, or
  -- an error. It ends where no pages are left, at a page that fails, at an empty one, at one that
  -- reaches 2020, and at one that is no older than those before; otherwise the next page is the one up
  -- to a day before the oldest date.
  pub data Walk (page : Time → Result (List P)) : ℕ → Time → Time → Result (List P) → Type 0 where
    spent : {end prev : Time} → Walk page 0 end prev (ok [])
    failed :
        {n : ℕ} {end prev : Time} {e : Err} → page end ≡ err e → Walk page (suc n) end prev (err e)
    empty : {n : ℕ} {end prev : Time} → page end ≡ ok [] → Walk page (suc n) end prev (ok [])
    last :
        {n : ℕ} {end prev t : Time} {ps : List P}
        → page end ≡ ok ps
        → IsOldest t ps
        → (t ≤ 737_424 * day) ⊎ ((prev ≢ 0) × (prev ≤ t))
        → Walk page (suc n) end prev (ok ps)
    older :
        {n : ℕ} {end prev t : Time} {ps : List P} {r : Result (List P)}
        → page end ≡ ok ps
        → IsOldest t ps
        → 737_424 * day < t
        → (prev ≡ 0) ⊎ (t < prev)
        → Walk page n (t - day) t r
        → Walk page (suc n) end prev (joined ps r)

  oldest_of-least :
      (o : Time) (ps : List P)
      → (oldest_of date_of o ps ≤ o) × All (λ p. oldest_of date_of o ps ≤ date_of p) ps
  unfolding oldest_of
  oldest_of-least o [] = (omega arith, tt)
  oldest_of-least o (p ∷ ps) =
      let (a, b) = oldest_of-least (earlier (date_of p) o) ps in
      let (x, y) = earlier-least (date_of p) o in (omega (arith, a, y), (omega (arith, a, x), b))

  oldest_of-HasDate :
      (o : Time) (ps : List P) → (oldest_of date_of o ps ≡ o) ⊎ HasDate (oldest_of date_of o ps) ps
  unfolding oldest_of
  oldest_of-HasDate o [] = inl refl
  oldest_of-HasDate o (p ∷ ps) = elim (oldest_of-HasDate (earlier (date_of p) o) ps) [
    | inl e ↦ elim (earlier-either (date_of p) o) [
      | inl x ↦ inr (inl (sym (e ∙ x)))
      | inr y ↦ inl (e ∙ y)
    ]
    | inr m ↦ inr (inr m)
  ]

  oldest_of-IsOldest :
      (p : P) (ps : List P) → IsOldest (oldest_of date_of (date_of p) (p ∷ ps)) (p ∷ ps)
  oldest_of-IsOldest p ps = (
    elim (oldest_of-HasDate (date_of p) (p ∷ ps)) [ inl e ↦ inl (sym e) | inr m ↦ m ],
    (oldest_of-least (date_of p) (p ∷ ps)).1,
  )

  -- what the walk from a map leaves: its points merged in
  abbrev merged : List (ℕ × P) → Result (List P) → Result (List (ℕ × P))
  merged all (ok ps) = ok (put_all date_of ps all)
  merged all (err e) = err e

  merged-joined :
      (all : List (ℕ × P)) (ps : List P) (r : Result (List P))
      → merged all (joined ps r) ≡ merged (put_all date_of ps all) r
  merged-joined all ps (ok qs) = ap ok (put_all-append date_of ps qs all)
  merged-joined all ps (err e) = refl

  module _ {Act : Type 0} (fetch : Time → Eff Act (List P))
      (reads : (t : Time) → ReadsOnly (fetch t)) (h : List Act) where
    abbrev pub page : Time → Result (List P)
    page t = (fetch t h).0

    -- The rounds that are left walk from `end`, and leave the points of the walk merged in.
    abbrev IsWalk : ℕ → List (ℕ × P) → Time → Time → Result (List (ℕ × P)) × List Act → Type 0
    IsWalk n all end prev x =
        (r : Result (List P)) × Walk page n end prev r × (x ≡ (merged all r, h))

    after_page-IsWalk :
        (n : ℕ) (all : List (ℕ × P)) (end prev : Time) (p : P) (ps : List P)
        → page end ≡ ok (p ∷ ps)
        → ((m : List (ℕ × P)) (e o : Time) → IsWalk n m e o (pages date_of fetch n m e o h))
        → IsWalk
            (suc n)
            all
            end
            prev
            (after_page date_of fetch (pages date_of fetch n) all prev (p ∷ ps) h)
    unfolding after_page pure
    after_page-IsWalk n all end prev p ps got rest =
        let t = oldest_of date_of (date_of p) (p ∷ ps) in
        let old = oldest_of-IsOldest p ps in
        elim (Bool-cases (not (after t coinglass_agg_min_date))) [
          | inl done ↦ rw done (ok (p ∷ ps), last got old (inl (ground (arith, done))), refl)
          | inr on ↦ elim (Bool-cases (not (is_zero prev) && not (ltb t prev))) [
            | inl stuck ↦
                rw (on, stuck) (ok (p ∷ ps), last got old (inr (ground (arith, stuck))), refl)
            | inr back ↦
                let (r, walk, e) = rest (put_all date_of (p ∷ ps) all) (t - day) t in
                rw (on, back)
                  (
                    joined (p ∷ ps) r,
                    older got old (ground (arith, on)) (ground (arith, back)) walk,
                    e ∙ ap (λ x. (x, h)) (sym (merged-joined all (p ∷ ps) r)),
                  )
          ]
        ]

    continue-IsWalk :
        (n : ℕ) (all : List (ℕ × P)) (end prev : Time) (x : Result (List P))
        → page end ≡ x
        → ((m : List (ℕ × P)) (e o : Time) → IsWalk n m e o (pages date_of fetch n m e o h))
        → IsWalk
            (suc n)
            all
            end
            prev
            (continue (x, h) (after_page date_of fetch (pages date_of fetch n) all prev))
    unfolding after_page pure
    continue-IsWalk n all end prev (err e) got rest = (err e, failed got, refl)
    continue-IsWalk n all end prev (ok []) got rest = (ok [], empty got, refl)
    continue-IsWalk n all end prev (ok (p ∷ ps)) got rest =
        after_page-IsWalk n all end prev p ps got rest

    pages-IsWalk :
        (n : ℕ) (all : List (ℕ × P)) (end prev : Time)
        → IsWalk n all end prev (pages date_of fetch n all end prev h)
    unfolding pages pure ◌>>=◌
    pages-IsWalk zero all end prev = (ok [], spent, refl)
    pages-IsWalk (suc n) all end prev =
        subst
          (λ l. IsWalk (suc n) all end prev (
            continue ((fetch end h).0, l)
              (after_page date_of fetch (pages date_of fetch n) all prev)))
          (sym ((reads end).keeps h))
          (continue-IsWalk n all end prev (page end) refl (pages-IsWalk n))

    -- What is returned after a walk: its error, or one point for each second of its points, the one
    -- that was fetched last.
    abbrev pub Collected : Result (List P) → Result (List P) × List Act → Type 0
    Collected (err e) x = x ≡ (err e, h)
    Collected (ok fetched) x =
        (out : List P) × (x ≡ (ok out, h))
        × IsDistinctInTime date_of out
        × ((k : ℕ) → first_at date_of k out ≡ last_at date_of k fetched)

    continue-Collected :
        (r : Result (List P)) (x : Result (List (ℕ × P)) × List Act)
        → x ≡ (merged [] r, h)
        → Collected r (continue x (λ all. pure (map (λ e. e.1) all)))
    unfolding pure
    continue-Collected (err e) x q = rw q refl
    continue-Collected (ok ps) x q =
        let (distinct, held) = values_lem date_of ps in
        (map (λ e. e.1) (put_all date_of ps []), rw q refl, distinct, held)

    -- The loop over the pages comes to an end: it makes a walk (`Walk`) of at most ten pages from the
    -- latest one, whatever the pages hold, and returns the error of the walk, or its points (`Collected`):
    -- one for each second that a fetched point has, the last fetched, and no other.
    pub backfill_aggregated_lem :
        (r : Result (List P)) × Walk page 10 0 0 r
        × Collected r (backfill_aggregated date_of fetch h)
    unfolding backfill_aggregated ◌>>=◌
    backfill_aggregated_lem =
        let (r, walk, e) = pages-IsWalk coinglass_agg_max_pages [] 0 0 in
        (r, walk, continue-Collected r (pages date_of fetch coinglass_agg_max_pages [] 0 0 h) e)
