-- ===== src/Regime/Store/Laws.antt =====
-- What the repository stores and what the reader returns.
use marketengine.Prelude.{
  String, ◌≡◌, sym, ◌∙◌, inl, inr, true, Option, none, some, List, [], arith, eq_iff, ◌==◌,
  if◌then◌else◌,
}
use marketengine.Float.{Float}
use marketengine.Float.Laws.{IsRounded}
use marketengine.Time.{Time}
use marketengine.Errors.{Err, Result, ok, err}
use marketengine.GoMap.{Map, lookup, insert, IsMap, collect, lookup-insert, lookup-collect_nil}
use marketengine.Domain.{
  Asset, asset_global, capital_flows, DomainCode, RegimeState, validate_state, score_out_of_range,
}
use marketengine.Regime.Config.{Config}
use marketengine.Regime.Ports.{Action, Ports}
use marketengine.Regime.Service.{compute_state, compute_one}
use marketengine.Regime.Service.Outcome.{Outcome, compute_one-Outcome}
use marketengine.Regime.Store.{save, get_latest_all, put_global, without_capital_flows}

put_global-lookup :
    {V : Type 0} (o : Option V) (out : Map V) (d : DomainCode)
    → lookup capital_flows out ≡ none
    → lookup d (put_global o out) ≡ (if d == capital_flows then o else lookup d out)
put_global-lookup none out d h = ground (arith, eq_iff d capital_flows)
put_global-lookup (some v) out d h =
    ground
      (arith, eq_iff d capital_flows, eq_iff capital_flows d, lookup-insert capital_flows d v out)

-- The score of capital flows is the one stored for the asset GLOBAL, whatever the asset has under
-- that name; every other score is the asset's own.
pub lookup-get_latest_all :
    {V : Type 0} (latest : String → Result (Map V)) (asset : Asset) (own global out : Map V)
    (d : DomainCode)
    → latest asset ≡ ok own
    → latest asset_global ≡ ok global
    → get_latest_all latest asset ≡ ok out
    → IsMap own
    → lookup d out ≡ (if d == capital_flows then lookup capital_flows global else lookup d own)
unfolding get_latest_all
lookup-get_latest_all latest asset own global out d e g r h =
    let kept = collect without_capital_flows own [] in
    ground (
      arith,
      eq_iff d capital_flows,
      lookup-collect_nil without_capital_flows d own h,
      lookup-collect_nil without_capital_flows capital_flows own h,
      put_global-lookup (lookup capital_flows global) kept d,
    )

module _ {F : Type 0} ⦃f : Float F⦄ where
  save-ne-ok :
      (insert : RegimeState F → Result (Unit {0})) (s : RegimeState F)
      → score_out_of_range s.regime_indicator ≡ true
      → save insert s ≡ ok tt
      → ⊥
  unfolding save validate_state
  save-ne-ok insert s h e = ground arith

  module _ (ports : Ports F) (cfg : Config F)
      (insert : List (Action F) → RegimeState F → Result (Unit {0})) where
    -- With the repository of internal/infra/postgres, a computed state whose indicator is above 1.0001
    -- or below -1.0001 is not stored: the computation fails and writes nothing, although the indicator
    -- is clipped to the range from -2 to 2.
    pub large_indicator_unsaved :
        IsRounded F
        → ((s : RegimeState F) (h : List (Action F)) → ports.save s h ≡ save (insert h) s)
        → (asset : Asset) (value_date cutoff : Time) (h : List (Action F)) (s : RegimeState F)
        → (compute_state ports cfg asset value_date cutoff h).0 ≡ ok s
        → score_out_of_range s.regime_indicator ≡ true
        → let (r, h') = compute_one ports cfg asset value_date cutoff h in
          ((e : Err) × (r ≡ err e)) × (h' ≡ h)
    large_indicator_unsaved laws same asset value_date cutoff h s computed large =
        refused (compute_one ports cfg asset value_date cutoff h)
          (compute_one-Outcome ports cfg laws asset value_date cutoff h)
      where
        refused :
            (x : Result (Unit {0}) × List (Action F))
            → Outcome ports cfg asset value_date cutoff h x
            → ((e : Err) × (x.0 ≡ err e)) × (x.1 ≡ h)
        refused x (inl (e, c, q, w)) = ((e, q), w)
        refused x (inr (t, c, p, inl (e, u, q, w))) = ((_, q), w)
        refused x (inr (t, c, p, inr (u, rest))) =
            let one : s ≡ t = cc in
            absurd (save-ne-ok (insert h) s large (sym (same s h) ∙ rw one u))
