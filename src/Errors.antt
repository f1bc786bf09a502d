-- ===== src/Errors.antt =====
-- Go's `error` values and the functions that return one (internal/domain/errors.go).
use marketengine.Prelude.{ℕ, String, Bool, true, false, List}

pub data Err : Type 0 where
  -- the sentinels of internal/domain/errors.go
  not_found insufficient_coverage invariant_violation : Err
  -- an error of a driver, a provider or a library
  foreign : ℕ → Err
  -- fmt.Errorf(text) and fmt.Errorf("text: %w", err); what a text prints of values is left out
  message : String → Err
  wrap : String → Err → Err
  -- fmt.Errorf("steps failed: %v", failed) of cmd/orchestrator/main.go
  steps_failed : List String → Err

pub data Result {ℓ} (A : Type ℓ) : Type ℓ where
  ok : A → Result A
  err : Err → Result A

-- What a function `(A, error)` with one error path passes on, and `return fmt.Errorf("…: %w", err)`.
infixl 5 ◌>>=◌ ◌>>◌
abbrev pub ◌>>=◌ {ℓ κ} : {A : Type ℓ} {B : Type κ} → Result A → (A → Result B) → Result B
ok a >>= k = k a
err e >>= k = err e

abbrev pub ◌>>◌ {ℓ} : {B : Type ℓ} → Result (Unit {0}) → Result B → Result B
m >> k = m >>= λ _. k

abbrev pub context {ℓ} : {A : Type ℓ} → String → Result A → Result A
context text (ok a) = ok a
context text (err e) = err (wrap text e)

-- if !test { return err }
abbrev pub check : Bool → Err → Result (Unit {0})
check true e = ok tt
check false e = err e
