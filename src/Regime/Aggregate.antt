-- ===== src/Regime/Aggregate.antt =====
-- internal/regime/domains.go and the weighting part of pipeline.go: which domains are present, the
-- weights among those, normalised scores, and the weighted sums.
pub mod Weights
use marketengine.Prelude.{
  ℕ, ◌≤◌, String, Bool, true, false, Option, none, some, List, [], ◌∷◌, ltb, length, if◌then◌else◌,
}
use marketengine.Float.{Float, ◌⊕◌, ◌⊖◌, ◌⊗◌, ◌⊘◌, ◌=?◌, of_ℕ}
use marketengine.GoMap.{Map, lookup, insert, has, collect}
use marketengine.Domain.{DomainCode, all_domains}
use marketengine.Regime.Config.{Config}
use marketengine.Regime.Stats.{mean, stddev, clip}

module _ {V : Type 0} where
  -- the loop over `xs`
  mark_present : Map V → List DomainCode → Map Bool → Map Bool
  mark_present scores [] out = out
  mark_present scores (d ∷ ds) out = mark_present scores ds (insert d (has (lookup d scores)) out)

  unfoldable pub present_set : Map V → Map Bool
  unfolding mark_present
  present_set scores = mark_present scores all_domains []

-- present[d], which is false where the key is missing
abbrev pub is_set : Option Bool → Bool
is_set none = false
is_set (some b) = b

abbrev pub is_present : Map Bool → DomainCode → Bool
is_present present d = is_set (lookup d present)

module _ {F : Type 0} ⦃f : Float F⦄ where
  -- m[d], which is 0 where the key is missing
  abbrev pub or_zero : Option F → F
  or_zero none = of_ℕ 0
  or_zero (some x) = x

  abbrev pub at : Map F → DomainCode → F
  at m d = or_zero (lookup d m)

  abbrev pub or_nil : Option (List F) → List F
  or_nil none = []
  or_nil (some xs) = xs

  unfoldable pub coverage_fraction : Map F → F
  coverage_fraction scores = of_ℕ (length scores) ⊘ of_ℕ (length all_domains)

  -- the first loop of `redistributeWeights`
  unfoldable pub sum_present : Map Bool → F → Map F → F
  sum_present present s [] = s
  sum_present present s ((d, w) ∷ m) =
      sum_present present (if is_present present d then s ⊕ w else s) m

  abbrev share_of : Map Bool → F → DomainCode → F → Option F
  share_of present s d w = if is_present present d then some (w ⊘ s) else none

  unfoldable pub redistribute_weights : Map F → Map Bool → Map F
  unfolding sum_present
  redistribute_weights nominal present =
      let s = sum_present present (of_ℕ 0) nominal in
      if s =? of_ℕ 0 then nominal else collect (share_of present s) nominal []

  unfoldable pub normalize_one : List F → ℕ → F → F
  normalize_one hist min_samples s =
      if ltb (length hist) min_samples
      then s
      else let sd = stddev hist in if sd =? of_ℕ 0 then s else (s ⊖ mean hist) ⊘ sd

  unfoldable pub normalize_scores : Map F → Map (List F) → ℕ → Map F
  unfolding normalize_one
  normalize_scores scores histories min_samples =
      collect (λ d s. some (normalize_one (or_nil (lookup d histories)) min_samples s)) scores []

  -- the loop of `weightedSumRaw`
  raw_from : Map F → F → Map F → F
  raw_from scores raw [] = raw
  raw_from scores raw ((d, w) ∷ m) = raw_from scores (raw ⊕ w ⊗ at scores d) m

  unfoldable pub weighted_sum_raw : Map F → Map F → F
  unfolding raw_from
  weighted_sum_raw scores weights = raw_from scores (of_ℕ 0) weights

  -- the loop of `weightedSumNormalized`: the contributions and their sum
  contribute : Map F → Map F → F → Map F → Map F × F
  contribute norm contributions sum [] = (contributions, sum)
  contribute norm contributions sum ((d, w) ∷ m) =
      let c = w ⊗ at norm d in contribute norm (insert d c contributions) (sum ⊕ c) m

  -- the contributions, the clipped sum, and the sum
  unfoldable pub weighted_sum_normalized : Map F → Map F → Map F × F × F
  unfolding contribute
  weighted_sum_normalized norm weights =
      let (contributions, sum) = contribute norm [] (of_ℕ 0) weights in
      (contributions, clip sum (f.minus (of_ℕ 2)) (of_ℕ 2), sum)
