-- ===== src/Regime/Drivers.antt =====
-- `buildTopDrivers` of internal/regime/pipeline.go.
pub mod Ranking
use marketengine.Prelude.{ℕ, String, Bool, List, [], ◌∷◌, map, sort_by, if◌then◌else◌}
use marketengine.Float.{Float, ◌⊕◌, ◌⊘◌, ◌<?◌, of_ℕ}
use marketengine.GoMap.{Map}
use marketengine.Domain.{DomainCode, TopDriver}

-- the local type `entry`
pub record Entry (F : Type 0) : Type 0 where
  pub domain : DomainCode
  pub contrib : F
  pub abs_val : F

module _ {F : Type 0} ⦃f : Float F⦄ where
  -- the first loop: the entries, and the sum of the sizes
  unfoldable pub entries_of : Map F → List (Entry F)
  entries_of [] = []
  entries_of ((d, c) ∷ m) = record { domain = d; contrib = c; abs_val = f.abs c } ∷ entries_of m

  unfoldable pub abs_sum_from : F → Map F → F
  abs_sum_from s [] = s
  abs_sum_from s ((d, c) ∷ m) = abs_sum_from (s ⊕ f.abs c) m

  -- entries[i].absVal > entries[j].absVal
  abbrev pub larger : Entry F → Entry F → Bool
  larger a b = b.abs_val <? a.abs_val

  abbrev pub driver : F → Entry F → TopDriver F
  driver abs_sum e = record {
    domain = e.domain;
    contribution = e.contrib;
    share = if of_ℕ 0 <? abs_sum then e.abs_val ⊘ abs_sum else of_ℕ 0;
  }

  unfoldable pub build_top_drivers : Map F → List (TopDriver F)
  build_top_drivers contributions =
      map (driver (abs_sum_from (of_ℕ 0) contributions)) (sort_by larger (entries_of contributions))
