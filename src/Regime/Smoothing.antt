-- ===== src/Regime/Smoothing.antt =====
-- internal/regime/smoothing.go: the exponential moving average of the published series.
use marketengine.Prelude.{suc, ◌≡◌, refl, List, [], ◌∷◌, ◌++◌, arith, if◌then◌else◌}
use marketengine.Prelude.Int.{ℤ, pos, negsuc, leb_ℤ}
use marketengine.Float.{Float, ◌⊕◌, ◌⊖◌, ◌⊗◌, ◌⊘◌, of_ℕ}

module _ {F : Type 0} ⦃f : Float F⦄ where
  -- `float64(span)`
  of_ℤ : ℤ → F
  of_ℤ (pos n) = of_ℕ n
  of_ℤ (negsuc n) = f.minus (of_ℕ (suc n))

  unfoldable pub alpha_from_span : ℤ → F
  unfolding of_ℤ
  alpha_from_span span = if leb_ℤ span (pos 1) then of_ℕ 1 else of_ℕ 2 ⊘ (of_ℤ span ⊕ of_ℕ 1)

  abbrev step : F → F → F → F
  step alpha ema x = alpha ⊗ x ⊕ (of_ℕ 1 ⊖ alpha) ⊗ ema

  -- the loop over prev[1:]
  unfoldable pub ema_from : F → F → List F → F
  ema_from alpha ema [] = ema
  ema_from alpha ema (x ∷ xs) = ema_from alpha (step alpha ema x) xs

  ema_over : F → F → List F → F
  unfolding ema_from
  ema_over alpha raw [] = raw
  ema_over alpha raw (x ∷ xs) = step alpha (ema_from alpha x xs) raw

  unfoldable pub ema_smooth : F → List F → ℤ → F
  unfolding ema_over alpha_from_span
  ema_smooth raw prev span =
      if leb_ℤ span (pos 1) then raw else ema_over (alpha_from_span span) raw prev

  ema_from-append :
      (alpha ema x : F) (xs : List F)
      → ema_from alpha ema (xs ++ x ∷ []) ≡ step alpha (ema_from alpha ema xs) x
  unfolding ema_from
  ema_from-append alpha ema x [] = refl
  ema_from-append alpha ema x (y ∷ ys) = ema_from-append alpha (step alpha ema y) x ys

  ema_over-append :
      (alpha raw x : F) (xs : List F)
      → ema_over alpha raw (xs ++ x ∷ []) ≡ step alpha (ema_over alpha x xs) raw
  unfolding ema_over
  ema_over-append alpha raw x [] = refl
  ema_over-append alpha raw x (y ∷ ys) = rw (ema_from-append alpha y x ys)

  -- Smoothing today's value over a trail that ends in yesterday's raw value blends it with
  -- yesterday's smoothed value, by the factor of the span; with a span of at most 1 it returns
  -- today's value.
  pub ema_smooth-append :
      (raw yesterday : F) (before : List F) (span : ℤ)
      → ema_smooth raw (before ++ yesterday ∷ []) span ≡ (
          if leb_ℤ span (pos 1)
          then raw
          else alpha_from_span span ⊗ raw
            ⊕ (of_ℕ 1 ⊖ alpha_from_span span) ⊗ ema_smooth yesterday before span)
  unfolding ema_smooth
  ema_smooth-append raw yesterday before span =
      ground (arith, ema_over-append (alpha_from_span span) raw yesterday before)
