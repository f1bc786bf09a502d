-- ===== src/Float.antt =====
-- Go's `float64`. The program computes with doubles and with package `math`; both are an interface
-- here, `Float F`, over any type `F` of values. The laws that the theorems rest on are in
-- `Float.Laws`, and `Float.Fixed` is a type of values that has them.
pub mod Laws
pub mod Order
pub mod Fixed
use marketengine.Prelude.{ℕ, Bool}

pub record Float (F : Type 0) : Type 0 where
  -- `decimal m k` is the constant m / 10 ^ k, rounded
  pub decimal : ℕ → ℕ → F
  pub add : F → F → F
  pub sub : F → F → F
  pub mul : F → F → F
  pub div : F → F → F
  pub minus : F → F
  pub lt : F → F → Bool
  pub le : F → F → Bool
  pub eq : F → F → Bool
  -- package math
  pub is_nan : F → Bool
  pub is_inf : F → Bool
  pub nan : F
  pub abs : F → F
  pub exp : F → F
  pub log : F → F
  pub sqrt : F → F
  pub tanh : F → F
  pub pow : F → F → F
  pub log1p : F → F
  pub max : F → F → F
  pub pi : F

module _ {F : Type 0} ⦃f : Float F⦄ where
  infixl 65 ◌⊕◌ ◌⊖◌
  infixl 70 ◌⊗◌ ◌⊘◌
  infix 50 ◌<?◌ ◌≤?◌ ◌=?◌
  abbrev pub ◌⊕◌ : F → F → F
  x ⊕ y = f.add x y

  abbrev pub ◌⊖◌ : F → F → F
  x ⊖ y = f.sub x y

  abbrev pub ◌⊗◌ : F → F → F
  x ⊗ y = f.mul x y

  abbrev pub ◌⊘◌ : F → F → F
  x ⊘ y = f.div x y

  abbrev pub ◌<?◌ : F → F → Bool
  x <? y = f.lt x y

  abbrev pub ◌≤?◌ : F → F → Bool
  x ≤? y = f.le x y

  abbrev pub ◌=?◌ : F → F → Bool
  x =? y = f.eq x y

  -- `float64(n)`
  abbrev pub of_ℕ : ℕ → F
  of_ℕ n = f.decimal n 0
