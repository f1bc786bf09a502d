-- ===== src/Scoring/Stats.antt =====
-- pkg/math/stats.go.
use marketengine.Prelude.{◌-◌, List, [], ◌∷◌, ◌||◌, not, ltb, eqb, length, if◌then◌else◌}
use marketengine.Float.{Float, ◌⊕◌, ◌⊖◌, ◌⊗◌, ◌⊘◌, ◌=?◌, of_ℕ}

module _ {F : Type 0} ⦃f : Float F⦄ where
  total_from : F → List F → F
  total_from s [] = s
  total_from s (x ∷ xs) = total_from (s ⊕ x) xs

  unfoldable pub mean : List F → F
  unfolding total_from
  mean [] = f.nan
  mean (x ∷ xs) = total_from (of_ℕ 0) (x ∷ xs) ⊘ of_ℕ (length (x ∷ xs))

  squares : F → F → List F → F
  squares m s [] = s
  squares m s (x ∷ xs) = squares m (s ⊕ (x ⊖ m) ⊗ (x ⊖ m)) xs

  unfoldable pub std_dev : List F → F
  unfolding mean squares
  std_dev xs =
      if ltb (length xs) 2
      then f.nan
      else f.sqrt (squares (mean xs) (of_ℕ 0) xs ⊘ of_ℕ (length xs - 1))

  unfoldable pub z_score : F → List F → F
  unfolding std_dev mean
  z_score x xs =
      let sd = std_dev xs in if f.is_nan sd || (sd =? of_ℕ 0) then f.nan else (x ⊖ mean xs) ⊘ sd

  -- the sums of products `sxy`, `sxx` and `syy`, over lists of one length
  products : F → F → F × F × F → List F → List F → F × F × F
  products mx my s [] ys = s
  products mx my s (x ∷ xs) [] = s
  products mx my (sxy, sxx, syy) (x ∷ xs) (y ∷ ys) =
      let dx = x ⊖ mx in
      let dy = y ⊖ my in products mx my (sxy ⊕ dx ⊗ dy, sxx ⊕ dx ⊗ dx, syy ⊕ dy ⊗ dy) xs ys

  quotient : F × F × F → F
  quotient (sxy, sxx, syy) =
      if (sxx =? of_ℕ 0) || (syy =? of_ℕ 0) then f.nan else sxy ⊘ f.sqrt (sxx ⊗ syy)

  unfoldable pub correlation : List F → List F → F
  unfolding mean products quotient
  correlation xs ys =
      if ltb (length xs) 2 || not (eqb (length xs) (length ys))
      then f.nan
      else quotient (products (mean xs) (mean ys) (of_ℕ 0, of_ℕ 0, of_ℕ 0) xs ys)
