-- ===== src/Float/Order.antt =====
-- Consequences of the laws of comparison.
use marketengine.Prelude.{
  ℕ, ◌<◌, ◌≤◌, ◌≡◌, refl, ◌⊎◌, inl, inr, ◌↔◌, zero, suc, ◌∙◌, true, false, ◌||◌, arith, Bool-cases,
}
use marketengine.Float.{Float, ◌<?◌, of_ℕ}
use marketengine.Float.Laws.{IsNumber, ◌≼◌, ◌≺◌, IsOrdered}

module _ {F : Type 0} ⦃f : Float F⦄ where
  -- NaN, or between the two bounds.
  abbrev pub Within : F → F → F → Type 0
  Within lo hi x = (f.is_nan x ≡ true) ⊎ ((lo ≼ x) × (x ≼ hi))

  pub within_number : (lo hi x : F) → Within lo hi x → IsNumber x → (lo ≼ x) × (x ≼ hi)
  within_number lo hi x (inl e) num = cc
  within_number lo hi x (inr h) num = h

module _ {F : Type 0} ⦃f : Float F⦄ (laws : IsOrdered F) where
  open laws use {lt-eq-not_le, lt_number, le_number, le_total, decimal_le, minus_le}

  pub nan-lt : (x y : F) → f.is_nan x ≡ true → f.lt x y ≡ false
  nan-lt x y h = elim (Bool-cases (f.lt x y)) [
    | inl l ↦ let n = lt_number x y l in ground arith
    | inr l ↦ l
  ]

  pub lt-nan : (x y : F) → f.is_nan y ≡ true → f.lt x y ≡ false
  lt-nan x y h = elim (Bool-cases (f.lt x y)) [
    | inl l ↦ let n = lt_number x y l in ground arith
    | inr l ↦ l
  ]

  pub not_lt_of_le : (x y : F) → x ≼ y → f.lt y x ≡ false
  not_lt_of_le x y h = let n = le_number x y h in rw (lt-eq-not_le y x n.1 n.0) (rw h)

  pub le_of_not_lt : (x y : F) → IsNumber x → IsNumber y → f.lt y x ≡ false → x ≼ y
  le_of_not_lt x y nx ny h = ground (arith, lt-eq-not_le y x ny nx)

  pub le_of_lt : (x y : F) → x ≺ y → x ≼ y
  le_of_lt x y h =
      let n = lt_number x y h in le_total y x n.1 n.0 (ground (arith, lt-eq-not_le x y n.0 n.1))

  pub lt-le_trans : (x y z : F) → x ≺ y → y ≼ z → x ≺ z
  lt-le_trans x y z h k =
      let n = lt_number x y h in
      let m = le_number y z k in
      ground (arith, lt-eq-not_le x z n.0 m.1, lt-eq-not_le x y n.0 n.1, laws.le_trans y z x k)

  pub le-lt_trans : (x y z : F) → x ≼ y → y ≺ z → x ≺ z
  le-lt_trans x y z h k =
      let n = le_number x y h in
      let m = lt_number y z k in
      ground (arith, lt-eq-not_le x z n.0 m.1, lt-eq-not_le y z m.0 m.1, laws.le_trans z x y)

  pub out_of_range_iff : (lo hi x : F) → lo ≼ hi → ((x <? lo || hi <? x) ≡ false) ↔ Within lo hi x
  out_of_range_iff lo hi x b =
      let n = le_number lo hi b in
      elim (Bool-cases (f.is_nan x)) [
        | inl nan ↦ ground (arith, nan-lt x lo nan, lt-nan hi x nan)
        | inr num ↦ ground (
          arith,
          le_of_not_lt lo x n.0 num,
          le_of_not_lt x hi num n.1,
          not_lt_of_le lo x,
          not_lt_of_le x hi,
        )
      ]

  pub decimal_zero : (k : ℕ) → k ≤ 4 → f.decimal 0 k ≡ of_ℕ 0
  decimal_zero zero h = refl
  decimal_zero (suc k) h = laws.decimal_rescale 0 k (omega arith) h ∙ decimal_zero k (omega arith)

  -- The constants of a symmetric range.
  pub minus-le-decimal :
      (m n k : ℕ) → m < 100_000 → n < 100_000 → k ≤ 4 → f.minus (f.decimal m k) ≼ f.decimal n k
  minus-le-decimal m n k b c l =
      laws.le_trans _ (f.minus (f.decimal 0 k)) _
        (minus_le _ _ (decimal_le 0 m k (omega arith) b l))
        (laws.le_trans _ (of_ℕ 0) _ (rw (decimal_zero k l) laws.minus_zero.0)
          (rw (← decimal_zero k l) (decimal_le 0 n k (omega arith) c l)))
