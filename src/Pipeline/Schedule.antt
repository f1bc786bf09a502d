-- ===== src/Pipeline/Schedule.antt =====
-- What a domain service promises: which scores and completion events a run writes, in which order,
-- and what each stored value satisfies.
use marketengine.Prelude.{◌≡◌, false, List, [], ◌∷◌, All}
use marketengine.Float.{Float}
use marketengine.Time.{Time, is_zero, days_between}
use marketengine.Time.Days.{days_between-All}
use marketengine.Errors.{ok}
use marketengine.Effects.{Eff}
use marketengine.Domain.{Asset, validate_asset, validate_feature, validate_score}
use marketengine.Scoring.Features.{unusable}
use marketengine.Pipeline.{
  Event, ingest_event, score_event, Action, rows_saved, feature_saved, score_saved, published,
  for_each, compute_assets, compute_range,
}
use marketengine.Pipeline.Traces.{flat_map, Traces, Traces-pure, Traces-bind, Traces-context}

pub data Output : Type 0 where
  score_of event_of : Asset → Time → Output

-- For each day, and for each asset of the day: the score, and then the event that announces it.
abbrev pub asset_outputs : Time → Asset → List Output
asset_outputs d a = score_of a d ∷ event_of a d ∷ []

abbrev pub schedule : List Time → List Asset → List Output
schedule ds assets = flat_map (λ d. flat_map (asset_outputs d) assets) ds

abbrev pub event_outputs : {F : Type 0} → Event F → List Output
event_outputs (ingest_event e) = []
event_outputs (score_event e) = event_of e.asset e.value_date ∷ []

abbrev pub outputs : {F Row : Type 0} → Action F Row → List Output
outputs (rows_saved rows) = []
outputs (feature_saved x) = []
outputs (score_saved s) = score_of s.asset s.value_date ∷ []
outputs (published e) = event_outputs e

-- A stored feature is finite and passes `Feature.Validate`; a stored score passes
-- `DomainScore.Validate`.
abbrev pub IsSound : {F Row : Type 0} ⦃f : Float F⦄ → Action F Row → Type 0
IsSound (rows_saved rows) = Unit
IsSound (feature_saved x) = (validate_feature x ≡ ok tt) × (unusable x.value ≡ false)
IsSound (score_saved s) = validate_score s ≡ ok tt
IsSound (published e) = Unit

abbrev pub Emits :
    {F Row : Type 0} ⦃f : Float F⦄ {A : Type 0} → List Output → Eff (Action F Row) A → Type 0
Emits ks m = Traces IsSound outputs ks m

abbrev pub IsDay : Time → Type 0
IsDay d = is_zero d ≡ false

abbrev pub IsKnown : Asset → Type 0
IsKnown a = validate_asset a ≡ ok tt

module _ {F Row : Type 0} ⦃f : Float F⦄ where
  pub Emits-for_each :
      {A : Type 0} {Q : A → Type 0} {g : A → List Output} {k : A → Eff (Action F Row) (Unit {0})}
      (xs : List A)
      → All Q xs
      → ((x : A) → Q x → Emits (g x) (k x))
      → Emits (flat_map g xs) (for_each xs k)
  unfolding for_each
  Emits-for_each [] q r = Traces-pure tt
  Emits-for_each (x ∷ xs) (q, qs) r = Traces-bind (r x q) (λ _. Emits-for_each xs qs r)

  -- a loop that writes no output
  pub Emits-for_each_nil :
      {A : Type 0} {k : A → Eff (Action F Row) (Unit {0})} (xs : List A)
      → ((x : A) → Emits [] (k x))
      → Emits [] (for_each xs k)
  unfolding for_each
  Emits-for_each_nil [] r = Traces-pure tt
  Emits-for_each_nil (x ∷ xs) r = Traces-bind (r x) (λ _. Emits-for_each_nil xs r)

  -- the same, where the rounds need a fact about each item
  pub Emits-for_each-All :
      {A : Type 0} {Q : A → Type 0} {k : A → Eff (Action F Row) (Unit {0})} (xs : List A)
      → All Q xs
      → ((x : A) → Q x → Emits [] (k x))
      → Emits [] (for_each xs k)
  unfolding for_each
  Emits-for_each-All [] q r = Traces-pure tt
  Emits-for_each-All (x ∷ xs) (q, qs) r = Traces-bind (r x q) (λ _. Emits-for_each-All xs qs r)

  pub Emits-compute_assets :
      (asset_day : Asset → Time → Time → Eff (Action F Row) (Unit {0})) (assets : List Asset)
      (d cutoff : Time)
      → All IsKnown assets
      → ((a : Asset) → IsKnown a → Emits (asset_outputs d a) (asset_day a d cutoff))
      → Emits (flat_map (asset_outputs d) assets) (compute_assets asset_day assets d cutoff)
  unfolding compute_assets
  Emits-compute_assets asset_day assets d cutoff known r =
      Emits-for_each assets known (λ a q. Traces-context _ (r a q))

  pub Emits-compute_range :
      (compute_day : Time → Time → Eff (Action F Row) (Unit {0})) (assets : List Asset)
      (from to cutoff : Time)
      → IsDay from
      → ((d : Time) → IsDay d → Emits (flat_map (asset_outputs d) assets) (compute_day d cutoff))
      → Emits (schedule (days_between from to) assets) (compute_range compute_day from to cutoff)
  unfolding compute_range
  Emits-compute_range compute_day assets from to cutoff dated r =
      Emits-for_each (days_between from to) (days_between-All from to dated)
        (λ d q. Traces-context _ (r d q))
