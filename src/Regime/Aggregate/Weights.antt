-- ===== src/Regime/Aggregate/Weights.antt =====
-- What `redistributeWeights`, `normalizeScores` and the weighted sums compute, key by key.
use marketengine.Prelude.{
  ℕ, ◌≡◌, refl, inl, inr, Bool, Option, none, some, List, [], ◌∷◌, arith, ltb, ◌||◌, length,
  Bool-cases, if◌then◌else◌,
}
use marketengine.Float.{Float, ◌⊕◌, ◌⊖◌, ◌⊗◌, ◌⊘◌, ◌=?◌, of_ℕ}
use marketengine.GoMap.{Map, lookup, insert, IsMap, lookup-collect_nil, collect}
use marketengine.Domain.{DomainCode}
use marketengine.Regime.Stats.{mean, stddev, sum_from}
use marketengine.Regime.Aggregate.{
  is_present, at, sum_present, redistribute_weights, weighted_sum_normalized, contribute,
  normalize_scores, normalize_one, or_nil, share_of,
}

module _ {F : Type 0} ⦃f : Float F⦄ where
  -- The nominal weights of the present domains, in the order of the map.
  unfoldable pub present_weights : Map Bool → Map F → List F
  present_weights present [] = []
  present_weights present ((d, w) ∷ m) =
      let rest = present_weights present m in if is_present present d then w ∷ rest else rest

  sum_present-eq-sum_from :
      (present : Map Bool) (s : F) (m : Map F)
      → sum_present present s m ≡ sum_from s (present_weights present m)
  unfolding sum_present sum_from present_weights
  sum_present-eq-sum_from present s [] = refl
  sum_present-eq-sum_from present s ((d, w) ∷ m) = elim (Bool-cases (is_present present d)) [
    | inl h ↦ rw h (sum_present-eq-sum_from present (s ⊕ w) m)
    | inr h ↦ rw h (sum_present-eq-sum_from present s m)
  ]

  abbrev pub scaled : F → Option F → Option F
  scaled total none = none
  scaled total (some w) = some (w ⊘ total)

  abbrev pub weighted : F → Option F → Option F
  weighted x none = none
  weighted x (some w) = some (w ⊗ x)

  -- Over a map of nominal weights, with `total` the sum of the weights of the present domains: if
  -- `total` is not 0, a present domain has its nominal weight divided by `total` (none if it has no
  -- nominal weight) and an absent domain has no weight; if `total` is 0, the weights are the nominal
  -- ones.
  pub lookup-redistribute_weights :
      (nominal : Map F) (present : Map Bool) (d : DomainCode)
      → IsMap nominal
      → let total = sum_from (of_ℕ 0) (present_weights present nominal) in
        lookup d (redistribute_weights nominal present) ≡ (
          if total =? of_ℕ 0
          then lookup d nominal
          else if is_present present d
          then scaled total (lookup d nominal)
          else none)
  unfolding redistribute_weights
  lookup-redistribute_weights nominal present d h =
      rw (← sum_present-eq-sum_from present (of_ℕ 0) nominal) (
        let s = sum_present present (of_ℕ 0) nominal in
        ground (arith, lookup-collect_nil (share_of present s) d nominal h))

  abbrev pub standardised : List F → ℕ → Option F → Option F
  standardised hist min_samples none = none
  standardised hist min_samples (some s) =
      if ltb (length hist) min_samples || stddev hist =? of_ℕ 0
      then some s
      else some ((s ⊖ mean hist) ⊘ stddev hist)

  -- Every score keeps its key. A domain with fewer than `min_samples` historical scores, or whose
  -- history has standard deviation 0, keeps its score; any other score becomes its distance from the
  -- mean of the history in standard deviations.
  pub lookup-normalize_scores :
      (scores : Map F) (histories : Map (List F)) (min_samples : ℕ) (d : DomainCode)
      → IsMap scores
      → lookup d (normalize_scores scores histories min_samples)
        ≡ standardised (or_nil (lookup d histories)) min_samples (lookup d scores)
  unfolding normalize_scores
  lookup-normalize_scores scores histories min_samples d h =
      rw
        (lookup-collect_nil
          (λ d s. some (normalize_one (or_nil (lookup d histories)) min_samples s)) d scores h)
        (ground arith)

  contribute-collect :
      (norm contributions : Map F) (sum : F) (m : Map F)
      → contribute norm contributions sum m ≡ (
        collect (λ d w. some (w ⊗ at norm d)) m contributions,
        (contribute norm contributions sum m).1,
      )
  unfolding contribute collect
  contribute-collect norm contributions sum [] = refl
  contribute-collect norm contributions sum ((d, w) ∷ m) =
      let c = w ⊗ at norm d in contribute-collect norm (insert d c contributions) (sum ⊕ c) m

  -- The contribution of each weighted domain is its weight times its normalised score, 0 for a domain
  -- with no score; no other domain has one.
  pub lookup-contributions :
      (norm weights : Map F) (d : DomainCode)
      → IsMap weights
      → lookup d (weighted_sum_normalized norm weights).0 ≡ weighted (at norm d) (lookup d weights)
  unfolding weighted_sum_normalized
  lookup-contributions norm weights d h =
      rw (contribute-collect norm [] (of_ℕ 0) weights)
        (rw (lookup-collect_nil (λ d w. some (w ⊗ at norm d)) d weights h) (ground arith))
