-- ===== src/Effects.antt =====
-- Methods that call repositories, providers, the publisher and the clock. The world outside is the
-- history of what was written to it so far: every call may answer by any function of that history,
-- and a write that succeeds is added to it. A write that fails leaves no trace (each runs in a
-- transaction of its own).
pub mod Rules
use marketengine.Prelude.{Bool, true, false, String, List, [], ◌∷◌, ◌++◌}
use marketengine.Errors.{Err, wrap, Result, ok, err}

abbrev pub Eff {ℓ} : Type ℓ → Type ℓ → Type ℓ
Eff Act A = List Act → Result A × List Act

module _ {ℓ} {Act A : Type ℓ} where
  unfoldable pub pure : A → Eff Act A
  pure a h = (ok a, h)

  unfoldable pub raise : Err → Eff Act A
  raise e h = (err e, h)

  -- a call that reads
  unfoldable pub query : (List Act → Result A) → Eff Act A
  query answer h = (answer h, h)

  abbrev pub wrapped : String → Result A × List Act → Result A × List Act
  wrapped text (ok a, h) = (ok a, h)
  wrapped text (err e, h) = (err (wrap text e), h)

  -- if err != nil { return fmt.Errorf("text: %w", err) }
  unfoldable pub context : String → Eff Act A → Eff Act A
  context text m h = wrapped text (m h)

module _ {ℓ} {Act A B : Type ℓ} where
  abbrev pub continue : Result A × List Act → (A → Eff Act B) → Result B × List Act
  continue (ok a, h) k = k a h
  continue (err e, h) k = (err e, h)

  infixl 5 ◌>>=◌ ◌>>◌
  unfoldable pub ◌>>=◌ : Eff Act A → (A → Eff Act B) → Eff Act B
  ◌>>=◌ m k h = continue (m h) k

  abbrev pub ◌>>◌ : Eff Act A → Eff Act B → Eff Act B
  m >> n = m >>= λ _. n

module _ {Act : Type 0} where
  abbrev pub recorded : Result (Unit {0}) → Act → List Act → Result (Unit {0}) × List Act
  recorded (ok _) a h = (ok tt, h ++ a ∷ [])
  recorded (err e) a h = (err e, h)

  -- a call that writes `a` if it succeeds
  unfoldable pub perform : (List Act → Result (Unit {0})) → Act → Eff Act (Unit {0})
  perform answer a h = recorded (answer h) a h

  -- if test { return err }
  unfoldable pub fail_if : Bool → Err → Eff Act (Unit {0})
  fail_if true e h = (err e, h)
  fail_if false e h = (ok tt, h)

  -- if err != nil { slog.Warn(…); continue }: the error is dropped, what was written stays
  unfoldable pub skip_error : Eff Act (Unit {0}) → Eff Act (Unit {0})
  skip_error m h = (ok tt, (m h).1)

module _ {Act A : Type 0} where
  -- v, err := …, where the error is looked at and not passed on
  unfoldable pub attempt : Eff Act A → Eff Act (Result A)
  attempt m h = (ok (m h).0, (m h).1)
