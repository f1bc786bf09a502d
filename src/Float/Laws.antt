-- ===== src/Float/Laws.antt =====
-- What IEEE 754 and package `math` promise of doubles, as far as the theorems use it.
use marketengine.Prelude.{ℕ, suc, ◌*◌, ◌≤◌, ◌<◌, ◌≡◌, true, false, not, ◌^◌}
use marketengine.Float.{Float, ◌⊕◌, ◌⊖◌, ◌⊗◌, ◌⊘◌, of_ℕ}

module _ {F : Type 0} ⦃f : Float F⦄ where
  infix 4 ◌≼◌ ◌≺◌
  abbrev pub ◌≼◌ : F → F → Type 0
  x ≼ y = f.le x y ≡ true

  abbrev pub ◌≺◌ : F → F → Type 0
  x ≺ y = f.lt x y ≡ true

  -- A value that is not NaN.
  abbrev pub IsNumber : F → Type 0
  IsNumber x = f.is_nan x ≡ false

  abbrev pub InUnit : F → Type 0
  InUnit x = (of_ℕ 0 ≼ x) × (x ≼ of_ℕ 1)

-- Comparison: a total order on the numbers, and false at NaN.
pub record IsOrdered (F : Type 0) ⦃f : Float F⦄ : Type 0 where
  pub le_refl : (x : F) → IsNumber x → x ≼ x
  pub le_trans : (x y z : F) → x ≼ y → y ≼ z → x ≼ z
  pub lt-eq-not_le : (x y : F) → IsNumber x → IsNumber y → f.lt x y ≡ not (f.le y x)
  pub le_total : (x y : F) → IsNumber x → IsNumber y → f.le x y ≡ false → y ≼ x
  pub lt_number : (x y : F) → x ≺ y → IsNumber x × IsNumber y
  pub le_number : (x y : F) → x ≼ y → IsNumber x × IsNumber y
  -- decimal constants: two with the same digits after the point are ordered as their numerators,
  -- and a further digit 0 changes nothing
  pub decimal_lt : (m n k : ℕ) → m < n → n < 100_000 → k ≤ 4 → f.decimal m k ≺ f.decimal n k
  pub decimal_le : (m n k : ℕ) → m ≤ n → n < 100_000 → k ≤ 4 → f.decimal m k ≼ f.decimal n k
  pub decimal_rescale : (m k : ℕ) → m < 10_000 → k < 4 → f.decimal (m * 10) (suc k) ≡ f.decimal m k
  pub minus_lt : (x y : F) → x ≺ y → f.minus y ≺ f.minus x
  pub minus_le : (x y : F) → x ≼ y → f.minus y ≼ f.minus x
  -- -0 equals 0
  pub minus_zero : (f.minus (of_ℕ 0) ≼ of_ℕ 0) × (of_ℕ 0 ≼ f.minus (of_ℕ 0))

-- Rounding is monotone, and 0 and 1 are exact.
pub record IsRounded (F : Type 0) ⦃f : Float F⦄ : Type 0 where
  pub ordered : IsOrdered F
  pub open ordered use *
  pub mul_unit : (x y : F) → InUnit x → InUnit y → (of_ℕ 0 ≼ x ⊗ y) × (x ⊗ y ≼ y)
  pub one-sub_unit : (x : F) → InUnit x → InUnit (of_ℕ 1 ⊖ x)
  pub one-add : (x : F) → of_ℕ 0 ≼ x → of_ℕ 1 ≼ of_ℕ 1 ⊕ x
  pub recip_unit : (x : F) → of_ℕ 1 ≼ x → InUnit (of_ℕ 1 ⊘ x)
  pub exp_nonneg : (x : F) → IsNumber x → of_ℕ 0 ≼ f.exp x
  pub minus_number : (x : F) → IsNumber x → IsNumber (f.minus x)
  pub one_mul : (x : F) → of_ℕ 1 ⊗ x ≡ x
  pub mul_comm : (x y : F) → x ⊗ y ≡ y ⊗ x
  -- a quotient of counts
  pub div_counts : (m n : ℕ) → m ≤ n → 0 < n → n < 2 ^ 53 → InUnit {F = F} (of_ℕ m ⊘ of_ℕ n)
