-- ===== src/OptionPricing.antt =====
-- pkg/math/blackscholes.go.
use marketengine.Prelude.{ℕ, ◌||◌, eqb, if◌then◌else◌}
use marketengine.Float.{Float, ◌⊕◌, ◌⊗◌, ◌⊘◌, ◌≤?◌, of_ℕ}
use marketengine.Scoring.Features.{unusable}

module _ {F : Type 0} ⦃f : Float F⦄ where
  abbrev or_zero : F → F
  or_zero g = if unusable g then of_ℕ 0 else g

  -- the gamma of an option from `d1`
  abbrev gamma_at : F → F → F → F → F
  gamma_at spot sigma sqrt_t d1 =
      let pdf = f.exp (f.minus d1 ⊗ d1 ⊘ of_ℕ 2) ⊘ f.sqrt (of_ℕ 2 ⊗ f.pi) in
      if unusable d1 then of_ℕ 0 else or_zero (pdf ⊘ (spot ⊗ sigma ⊗ sqrt_t))

  unfoldable pub bs_gamma : F → F → F → ℕ → F → F
  bs_gamma spot strike iv_pct days_to_expiry r_pct =
      let sigma = iv_pct ⊘ of_ℕ 100 in
      let r = r_pct ⊘ of_ℕ 100 in
      let t = of_ℕ days_to_expiry ⊘ of_ℕ 365 in
      let sqrt_t = f.sqrt t in
      let d1 = (f.log (spot ⊘ strike) ⊕ (r ⊕ sigma ⊗ sigma ⊘ of_ℕ 2) ⊗ t) ⊘ (sigma ⊗ sqrt_t) in
      if eqb days_to_expiry 0 || spot ≤? of_ℕ 0 || strike ≤? of_ℕ 0 || iv_pct ≤? of_ℕ 0
      then of_ℕ 0
      else if f.is_nan spot || f.is_nan strike || f.is_nan iv_pct
      then of_ℕ 0
      else gamma_at spot sigma sqrt_t d1
