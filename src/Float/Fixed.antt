-- ===== src/Float/Fixed.antt =====
-- A type of values with the laws: NaN and the multiples of 1 / 10000, with products and quotients
-- cut off towards zero. Division by zero and the functions outside their domain are NaN, and `exp`,
-- `tanh`, `log`, `log1p`, `sqrt` and `pow` are crude.
use marketengine.Prelude.{
  ℕ, zero, suc, ◌+◌, ◌-◌, ◌*◌, ◌/◌, ◌≤◌, ◌<◌, ◌≡◌, refl, Bool, true, false, not, arith, ltb, leb,
  eqb, if◌then◌else◌,
}
use marketengine.Prelude.Int.{
  ℤ, pos, negsuc, pos_part, neg_part, sub_ℕ, neg, ◌+ℤ◌, ◌-ℤ◌, ltb_ℤ, leb_ℤ,
}
use marketengine.Float.{Float, ◌⊗◌, ◌⊘◌}
use marketengine.Float.Laws.{◌≼◌, InUnit, IsOrdered, IsRounded}

pub data Fixed : Type 0 where
  not_a_number : Fixed
  units : ℤ → Fixed

abbrev magnitude : ℤ → ℕ
magnitude a = pos_part a + neg_part a

abbrev is_negative : ℤ → Bool
is_negative (pos n) = false
is_negative (negsuc n) = true

abbrev signed : Bool → ℕ → ℤ
signed true n = sub_ℕ 0 n
signed false n = pos n

abbrev differ : Bool → Bool → Bool
differ true b = not b
differ false b = b

abbrev scale : ℕ → ℕ
scale zero = 10_000
scale (suc zero) = 1000
scale (suc (suc zero)) = 100
scale (suc (suc (suc zero))) = 10
scale (suc (suc (suc (suc zero)))) = 1
scale (suc (suc (suc (suc (suc k))))) = 0

abbrev lift₁ : (ℤ → Fixed) → Fixed → Fixed
lift₁ g not_a_number = not_a_number
lift₁ g (units a) = g a

abbrev lift₂ : (ℤ → ℤ → Fixed) → Fixed → Fixed → Fixed
lift₂ g (units a) (units b) = g a b
lift₂ g (units a) not_a_number = not_a_number
lift₂ g not_a_number y = not_a_number

abbrev test : (ℤ → ℤ → Bool) → Fixed → Fixed → Bool
test g (units a) (units b) = g a b
test g (units a) not_a_number = false
test g not_a_number y = false

abbrev product : ℤ → ℤ → Fixed
product a b =
    units (signed (differ (is_negative a) (is_negative b)) (magnitude a * magnitude b / 10_000))

abbrev quotient : ℤ → ℤ → Fixed
quotient a b =
    if eqb (magnitude b) 0
    then not_a_number
    else units
        (signed (differ (is_negative a) (is_negative b)) (magnitude a * 10_000 / magnitude b))

abbrev exponential : ℤ → Fixed
exponential (pos n) = units (pos (10_000 + n))
exponential (negsuc n) = units (pos (10_000 - n))

abbrev squash : ℤ → Fixed
squash a = units (signed (is_negative a) (if ltb (magnitude a) 10_000 then magnitude a else 10_000))

instance abbrev pub fixed_float : Float Fixed
fixed_float = record {
  decimal = λ m k. units (pos (m * scale k));
  add = lift₂ (λ a b. units (a +ℤ b));
  sub = lift₂ (λ a b. units (a -ℤ b));
  mul = lift₂ product;
  div = lift₂ quotient;
  minus = lift₁ (λ a. units (neg a));
  lt = test ltb_ℤ;
  le = test leb_ℤ;
  eq = test (λ a b. eqb (pos_part a + neg_part b) (pos_part b + neg_part a));
  is_nan = λ x. elim x [ not_a_number ↦ true | units a ↦ false ];
  is_inf = λ x. false;
  nan = not_a_number;
  abs = lift₁ (λ a. units (pos (magnitude a)));
  exp = lift₁ exponential;
  log = lift₁ (λ a. if leb_ℤ a (pos 0) then not_a_number else units (a -ℤ pos 10_000));
  sqrt = lift₁ (λ a. if is_negative a then not_a_number else units a);
  tanh = lift₁ squash;
  pow = lift₂ (λ a b. units a);
  log1p = lift₁ units;
  max = lift₂ (λ a b. units (if ltb_ℤ a b then b else a));
  pi = units (pos 31_416);
}

-- An abbreviation for a value, in units of 1 / 10000.
abbrev pub fixed : ℕ → Fixed
fixed n = units (pos n)

abbrev pub fixed_neg : ℕ → Fixed
fixed_neg n = units (neg (pos n))

scaled_lt : (m n k : ℕ) → m < n → k ≤ 4 → ltb (m * scale k + 0) (n * scale k + 0) ≡ true
scaled_lt m n zero h b = ground arith
scaled_lt m n (suc zero) h b = ground arith
scaled_lt m n (suc (suc zero)) h b = ground arith
scaled_lt m n (suc (suc (suc zero))) h b = ground arith
scaled_lt m n (suc (suc (suc (suc zero)))) h b = ground arith
scaled_lt m n (suc (suc (suc (suc (suc k))))) h b = absurd (omega arith)

scaled_le : (m n k : ℕ) → m ≤ n → leb (m * scale k + 0) (n * scale k + 0) ≡ true
scaled_le m n zero h = ground arith
scaled_le m n (suc zero) h = ground arith
scaled_le m n (suc (suc zero)) h = ground arith
scaled_le m n (suc (suc (suc zero))) h = ground arith
scaled_le m n (suc (suc (suc (suc zero)))) h = ground arith
scaled_le m n (suc (suc (suc (suc (suc k))))) h = ground arith

rescale : (m k : ℕ) → k < 4 → units (pos (m * 10 * scale (suc k))) ≡ units (pos (m * scale k))
rescale m zero b = ground arith
rescale m (suc zero) b = ground arith
rescale m (suc (suc zero)) b = ground arith
rescale m (suc (suc (suc zero))) b = ground arith
rescale m (suc (suc (suc (suc k)))) b = absurd (omega arith)

pub Fixed-IsOrdered : IsOrdered Fixed
Fixed-IsOrdered = record {
  le_refl = λ x h. ground arith;
  le_trans = λ x y z h k. ground arith;
  lt-eq-not_le = λ x y h k. ground arith;
  le_total = λ x y h k l. ground arith;
  lt_number = λ x y h. ground arith;
  le_number = λ x y h. ground arith;
  decimal_lt = λ m n k h b c. scaled_lt m n k h c;
  decimal_le = λ m n k h b c. scaled_le m n k h;
  decimal_rescale = λ m k b c. rescale m k c;
  minus_lt = λ x y h. ground arith;
  minus_le = λ x y h. ground arith;
  minus_zero = (refl, refl);
}

mul_unit_nat : (a b : ℕ) → a ≤ 10_000 → a * b / 10_000 ≤ b
mul_unit_nat a b h = grind arith

recip_nat : (a : ℕ) → 10_000 ≤ a → 100_000_000 / a ≤ 10_000
recip_nat a h = grind arith

counts_nat : (m n : ℕ) → m ≤ n → 0 < n → m * 10_000 * 10_000 / (n * 10_000) ≤ 10_000
counts_nat m n h k = grind arith

fixed_mul_unit : (x y : Fixed) → InUnit x → InUnit y → (fixed 0 ≼ x ⊗ y) × (x ⊗ y ≼ y)
fixed_mul_unit (units (pos a)) (units (pos b)) h k = ground (arith, mul_unit_nat a b)
fixed_mul_unit x y h k = ground arith

fixed_recip_unit : (x : Fixed) → fixed 10_000 ≼ x → InUnit (fixed 10_000 ⊘ x)
fixed_recip_unit (units (pos a)) h = ground (arith, recip_nat a)
fixed_recip_unit x h = ground arith

fixed_div_counts : (m n : ℕ) → m ≤ n → 0 < n → InUnit (fixed (m * 10_000) ⊘ fixed (n * 10_000))
fixed_div_counts m n h k = ground (arith, counts_nat m n h k)

pub Fixed-IsRounded : IsRounded Fixed
Fixed-IsRounded = record {
  ordered = Fixed-IsOrdered;
  mul_unit = fixed_mul_unit;
  one-sub_unit = λ x h. ground arith;
  one-add = λ x h. ground arith;
  recip_unit = fixed_recip_unit;
  exp_nonneg = λ x h. ground arith;
  minus_number = λ x h. ground arith;
  one_mul = λ x. ground arith;
  mul_comm = λ x y. ground arith;
  div_counts = λ m n h k b. fixed_div_counts m n h k;
}
