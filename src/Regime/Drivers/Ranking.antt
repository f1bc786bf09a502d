-- ===== src/Regime/Drivers/Ranking.antt =====
-- The drivers are the contributions, ranked by size.
use mathlib.Core.Path.{subst}
use mathlib.Core.List.{Perm}
use mathlib.Core.List.Perm
use marketengine.Prelude.{
  ◌≡◌, refl, ap, Bool, false, List, [], ◌∷◌, map, sort_by, sort_by-perm, IsOrderedBy, IsWeakOrder,
  sort_by-IsOrderedBy, All-sort_by, All,
}
use marketengine.Float.{Float, ◌<?◌, of_ℕ}
use marketengine.Float.Laws.{IsNumber, IsOrdered}
use marketengine.Float.Order.{not_lt_of_le, le_of_lt, le_of_not_lt}
use marketengine.GoMap.{Map}
use marketengine.Domain.{DomainCode, TopDriver}
use marketengine.Regime.Drivers.{Entry, entries_of, larger, driver, abs_sum_from, build_top_drivers}

module _ {F : Type 0} ⦃f : Float F⦄ where
  abbrev pub unrank : TopDriver F → DomainCode × F
  unrank t = (t.domain, t.contribution)

  abbrev entry_pair : Entry F → DomainCode × F
  entry_pair e = (e.domain, e.contrib)

  unrank-drivers :
      (s : F) (es : List (Entry F)) → map unrank (map (driver s) es) ≡ map entry_pair es
  unrank-drivers s [] = refl
  unrank-drivers s (e ∷ es) = ap (◌∷◌ (entry_pair e)) (unrank-drivers s es)

  entry_pairs : (m : Map F) → map entry_pair (entries_of m) ≡ m
  unfolding entries_of
  entry_pairs [] = refl
  entry_pairs ((d, c) ∷ m) = ap (◌∷◌ (d, c)) (entry_pairs m)

  -- The drivers hold each domain with its contribution, once for each entry of the map.
  pub drivers_perm : (m : Map F) → Perm (map unrank (build_top_drivers m)) m
  unfolding build_top_drivers
  drivers_perm m = rw (unrank-drivers (abs_sum_from (of_ℕ 0) m) (sort_by larger (entries_of m))) (
      subst (λ l. Perm (map entry_pair (sort_by larger (entries_of m))) l) (entry_pairs m)
        (Perm.map entry_pair (sort_by-perm larger (entries_of m))))

  -- An entry whose size is a number and belongs to its contribution.
  abbrev IsSized : Entry F → Type 0
  IsSized e = IsNumber e.abs_val × (e.abs_val ≡ f.abs e.contrib)

  abbrev pub HasSize : DomainCode × F → Type 0
  HasSize p = IsNumber (f.abs p.1)

  entries_of-IsSized : (m : Map F) → All HasSize m → All IsSized (entries_of m)
  unfolding entries_of
  entries_of-IsSized [] _ = tt
  entries_of-IsSized ((d, c) ∷ m) (h, hs) = ((h, refl), entries_of-IsSized m hs)

  abbrev pub contributes_more : TopDriver F → TopDriver F → Bool
  contributes_more s t = f.abs t.contribution <? f.abs s.contribution

  above-drivers :
      (s : F) (e : Entry F) (es : List (Entry F))
      → IsSized e
      → All IsSized es
      → All (λ e'. larger e' e ≡ false) es
      → All (λ t. contributes_more t (driver s e) ≡ false) (map (driver s) es)
  above-drivers s e [] h hs a = tt
  above-drivers s e (e' ∷ es) h (h', hs) (a, as') =
      (rw (← h.1) (rw (← h'.1) a), above-drivers s e es h hs as')

  drivers_ordered :
      (s : F) (es : List (Entry F))
      → All IsSized es
      → IsOrderedBy larger es
      → IsOrderedBy contributes_more (map (driver s) es)
  drivers_ordered s [] hs o = tt
  drivers_ordered s (e ∷ es) (h, hs) (a, o) =
      (above-drivers s e es h hs a, drivers_ordered s es hs o)

module _ {F : Type 0} ⦃f : Float F⦄ (laws : IsOrdered F) where
  larger-IsWeakOrder : IsWeakOrder {A = Entry F} larger IsSized
  larger-IsWeakOrder = record {
    asym = λ x y hx hy h. not_lt_of_le laws y.abs_val x.abs_val (le_of_lt laws _ _ h);
    not_trans = λ x y z hx hy hz h k. not_lt_of_le laws z.abs_val x.abs_val (
        laws.le_trans _ y.abs_val _ (le_of_not_lt laws _ _ hz.0 hy.0 k)
          (le_of_not_lt laws _ _ hy.0 hx.0 h));
  }

  -- If no contribution is NaN, a driver is nowhere followed by one with a larger contribution in
  -- absolute value.
  pub drivers_ranked :
      (m : Map F) → All HasSize m → IsOrderedBy contributes_more (build_top_drivers m)
  unfolding build_top_drivers
  drivers_ranked m h =
      let sized = entries_of-IsSized m h in
      drivers_ordered (abs_sum_from (of_ℕ 0) m) (sort_by larger (entries_of m))
        (All-sort_by larger IsSized (entries_of m) sized)
        (sort_by-IsOrderedBy larger IsSized larger-IsWeakOrder (entries_of m) sized)
