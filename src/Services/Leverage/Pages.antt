-- ===== src/Services/Leverage/Pages.antt =====
-- `backfillAggregatedOI` and `backfillAggregatedLiquidations` of internal/leverage/service.go, which
-- differ in the type of the points: pages are fetched backwards in time and merged into a map. The
-- map is the list of its entries; Go leaves the order open in which the points are returned.
pub mod Laws
pub mod Walk
use marketengine.Prelude.{
  ℕ, zero, suc, ◌-◌, ◌*◌, ◌/◌, ◌&&◌, not, List, [], ◌∷◌, map, eqb, ltb, if◌then◌else◌,
}
use marketengine.Time.{Time, day, is_zero, after}
use marketengine.Effects.{Eff, pure, ◌>>=◌}

-- 2020-01-01
abbrev pub coinglass_agg_min_date : Time
coinglass_agg_min_date = 737_424 * day

abbrev pub coinglass_agg_max_pages : ℕ
coinglass_agg_max_pages = 10

abbrev pub unix : Time → ℕ
unix t = t / 1_000_000_000

module _ {P : Type 0} (date_of : P → Time) where
  -- all[p.Date.Unix()] = p
  unfoldable pub put : P → List (ℕ × P) → List (ℕ × P)
  put p [] = (unix (date_of p), p) ∷ []
  put p ((k, q) ∷ all) =
      let rest = put p all in if eqb k (unix (date_of p)) then (k, p) ∷ all else (k, q) ∷ rest

  unfoldable pub put_all : List P → List (ℕ × P) → List (ℕ × P)
  unfolding put
  put_all [] all = all
  put_all (p ∷ ps) all = put_all ps (put p all)

  -- the `oldest` of the loop over the points of a page
  unfoldable pub oldest_of : Time → List P → Time
  oldest_of oldest [] = oldest
  oldest_of oldest (p ∷ ps) = oldest_of (if ltb (date_of p) oldest then date_of p else oldest) ps

  module _ {Act : Type 0} (fetch : Time → Eff Act (List P)) where
    -- a round of the loop after its fetch; `next` is the round that follows
    unfoldable pub after_page :
        (List (ℕ × P) → Time → Time → Eff Act (List (ℕ × P)))
        → List (ℕ × P)
        → Time
        → List P
        → Eff Act (List (ℕ × P))
    unfolding put_all oldest_of
    after_page next all prev_oldest [] = pure all
    after_page next all prev_oldest (p ∷ ps) =
        let oldest = oldest_of (date_of p) (p ∷ ps) in
        let merged = put_all (p ∷ ps) all in
        if not (after oldest coinglass_agg_min_date)
        then pure merged
        else if not (is_zero prev_oldest) && not (ltb oldest prev_oldest)
        then pure merged
        else next merged (oldest - day) oldest

    -- the loop over the pages, with the pages left, `all`, `end` and `prevOldest`
    unfoldable pub pages : ℕ → List (ℕ × P) → Time → Time → Eff Act (List (ℕ × P))
    unfolding after_page
    pages zero all end prev_oldest = pure all
    pages (suc n) all end prev_oldest = do pts ← fetch end; after_page (pages n) all prev_oldest pts

    unfoldable pub backfill_aggregated : Eff Act (List P)
    unfolding pages
    backfill_aggregated = do all ← pages coinglass_agg_max_pages [] 0 0; pure (map (λ e. e.1) all)
