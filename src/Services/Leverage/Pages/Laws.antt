-- ===== src/Services/Leverage/Pages/Laws.antt =====
-- The map in which `backfillAggregatedOI` and its twin for liquidations merge the pages.
use marketengine.Prelude.{
  ℕ, ◌≡◌, refl, false, true, Option, none, some, List, [], ◌∷◌, ◌++◌, map, All, eqb, arith,
  Bool-cases, inl, inr, if◌then◌else◌,
}
use marketengine.Time.{Time}
use marketengine.Services.Leverage.Pages.{unix, put, put_all}

abbrev or_else : {A : Type 0} → Option A → Option A → Option A
or_else none d = d
or_else (some x) d = some x

module _ {P : Type 0} (date_of : P → Time) where
  -- No two points are of the same second.
  abbrev pub IsDistinctInTime : List P → Type 0
  IsDistinctInTime [] = Unit
  IsDistinctInTime (p ∷ ps) =
      All (λ q. eqb (unix (date_of p)) (unix (date_of q)) ≡ false) ps × IsDistinctInTime ps

  -- the first point of a second
  abbrev pub first_at : ℕ → List P → Option P
  first_at k [] = none
  first_at k (p ∷ ps) = if eqb (unix (date_of p)) k then some p else first_at k ps

  -- the last point of a second
  abbrev pub last_at : ℕ → List P → Option P
  last_at k [] = none
  last_at k (p ∷ ps) = or_else (last_at k ps) (if eqb (unix (date_of p)) k then some p else none)

  -- the point at a key
  abbrev map_at : ℕ → List (ℕ × P) → Option P
  map_at k [] = none
  map_at k ((j, q) ∷ all) = if eqb j k then some q else map_at k all

  map_at-put :
      (k : ℕ) (p : P) (all : List (ℕ × P))
      → map_at k (put date_of p all) ≡ (if eqb (unix (date_of p)) k then some p else map_at k all)
  unfolding put
  map_at-put k p [] = refl
  map_at-put k p ((j, q) ∷ all) = ground (arith, map_at-put k p all)

  map_at-put_all :
      (k : ℕ) (ps : List P) (all : List (ℕ × P))
      → map_at k (put_all date_of ps all) ≡ or_else (last_at k ps) (map_at k all)
  unfolding put_all
  map_at-put_all k [] all = refl
  map_at-put_all k (p ∷ ps) all =
      ground (arith, map_at-put_all k ps (put date_of p all), map_at-put k p all)

  pub put_all-append :
      (ps qs : List P) (all : List (ℕ × P))
      → put_all date_of (ps ++ qs) all ≡ put_all date_of qs (put_all date_of ps all)
  unfolding put_all
  put_all-append [] qs all = refl
  put_all-append (p ∷ ps) qs all = put_all-append ps qs (put date_of p all)

  put-All :
      (R : ℕ × P → Type 0) (p : P) (all : List (ℕ × P))
      → ((k : ℕ) → eqb k (unix (date_of p)) ≡ true → R (k, p))
      → R (unix (date_of p), p)
      → All R all
      → All R (put date_of p all)
  unfolding put
  put-All R p [] at_key new r = (new, tt)
  put-All R p ((k, q) ∷ all) at_key new (r, rs) = elim (Bool-cases (eqb k (unix (date_of p)))) [
    | inl same ↦ rw same (at_key k same, rs)
    | inr other ↦ rw other (r, put-All R p all at_key new rs)
  ]

  -- Each point stands at its own key, and no key stands twice.
  abbrev IsEntry : ℕ × P → Type 0
  IsEntry e = e.0 ≡ unix (date_of e.1)

  abbrev HasDistinctKeys : List (ℕ × P) → Type 0
  HasDistinctKeys [] = Unit
  HasDistinctKeys (e ∷ es) = All (λ x. eqb e.0 x.0 ≡ false) es × HasDistinctKeys es

  abbrev IsPageMap : List (ℕ × P) → Type 0
  IsPageMap all = All IsEntry all × HasDistinctKeys all

  put-HasDistinctKeys :
      (p : P) (all : List (ℕ × P)) → HasDistinctKeys all → HasDistinctKeys (put date_of p all)
  unfolding put
  put-HasDistinctKeys p [] d = (tt, tt)
  put-HasDistinctKeys p ((k, q) ∷ all) (a, d) = elim (Bool-cases (eqb k (unix (date_of p)))) [
    | inl same ↦ rw same (a, d)
    | inr other ↦ rw other (
      put-All (λ x. eqb k x.0 ≡ false) p all (λ j e. ground (arith, other, e)) other a,
      put-HasDistinctKeys p all d,
    )
  ]

  put_all-IsPageMap :
      (ps : List P) (all : List (ℕ × P)) → IsPageMap all → IsPageMap (put_all date_of ps all)
  unfolding put_all
  put_all-IsPageMap [] all m = m
  put_all-IsPageMap (p ∷ ps) all (es, d) =
      put_all-IsPageMap ps (put date_of p all)
        (put-All IsEntry p all (λ k e. ground (arith, e)) refl es, put-HasDistinctKeys p all d)

  -- the keys tell the seconds of the points apart
  values-IsDistinctInTime :
      (all : List (ℕ × P)) → IsPageMap all → IsDistinctInTime (map (λ e. e.1) all)
  values-IsDistinctInTime [] m = tt
  values-IsDistinctInTime (e ∷ all) ((k, es), (a, d)) =
      (others all es a, values-IsDistinctInTime all (es, d))
    where
      others :
          (xs : List (ℕ × P))
          → All IsEntry xs
          → All (λ x. eqb e.0 x.0 ≡ false) xs
          → All (λ p. eqb (unix (date_of e.1)) (unix (date_of p)) ≡ false) (map (λ x. x.1) xs)
      others [] es a = tt
      others (x ∷ xs) (j, es) (n, a) = (ground (arith, n, k, j), others xs es a)

  first_at-values :
      (k : ℕ) (all : List (ℕ × P))
      → All IsEntry all
      → first_at k (map (λ e. e.1) all) ≡ map_at k all
  first_at-values k [] es = refl
  first_at-values k (e ∷ all) (j, es) = ground (arith, j, first_at-values k all es)

  -- What a list of points holds after points were merged into an empty map: one for each second, the
  -- last of the merged ones.
  pub values_lem :
      (ps : List P)
      → let out = map (λ e. e.1) (put_all date_of ps []) in
        IsDistinctInTime out × ((k : ℕ) → first_at k out ≡ last_at k ps)
  values_lem ps =
      let m = put_all-IsPageMap ps [] (tt, tt) in
      (
        values-IsDistinctInTime (put_all date_of ps []) m,
        λ k. ground (arith, first_at-values k (put_all date_of ps []) m.0, map_at-put_all k ps []),
      )
