-- ===== src/Regime/Stats.antt =====
-- The numeric helpers of internal/regime/pipeline.go.
pub mod Bounds
use marketengine.Prelude.{◌-◌, List, [], ◌∷◌, ltb, length, if◌then◌else◌}
use marketengine.Float.{Float, ◌⊕◌, ◌⊖◌, ◌⊗◌, ◌⊘◌, ◌<?◌, of_ℕ}

module _ {F : Type 0} ⦃f : Float F⦄ where
  -- for _, x := range xs { s += x }
  unfoldable pub sum_from : F → List F → F
  sum_from s [] = s
  sum_from s (x ∷ xs) = sum_from (s ⊕ x) xs

  squares_from : F → F → List F → F
  squares_from m s [] = s
  squares_from m s (x ∷ xs) = let d = x ⊖ m in squares_from m (s ⊕ d ⊗ d) xs

  unfoldable pub mean : List F → F
  unfolding sum_from
  mean [] = of_ℕ 0
  mean (x ∷ xs) = sum_from (of_ℕ 0) (x ∷ xs) ⊘ of_ℕ (length (x ∷ xs))

  unfoldable pub stddev : List F → F
  unfolding squares_from mean
  stddev xs =
      if ltb (length xs) 2
      then of_ℕ 0
      else f.sqrt (squares_from (mean xs) (of_ℕ 0) xs ⊘ of_ℕ (length xs - 1))

  unfoldable pub sigmoid : F → F
  sigmoid x = of_ℕ 1 ⊘ (of_ℕ 1 ⊕ f.exp (f.minus x))

  unfoldable pub clip : F → F → F → F
  clip x lo hi = if x <? lo then lo else if hi <? x then hi else x

  unfoldable pub signf : F → F
  signf x = if of_ℕ 0 <? x then of_ℕ 1 else if x <? of_ℕ 0 then f.minus (of_ℕ 1) else of_ℕ 0
