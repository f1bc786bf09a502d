-- ===== src/Effects/Rules.antt =====
-- Two kinds of facts on methods, with a rule for each way to build a method: that it writes nothing,
-- and what holds of the value that it returns.
use mathlib.Core.Path.{subst, sym}
use marketengine.Prelude.{String, ◌≡◌, refl, Bool, true, false, List, if◌then◌else◌}
use marketengine.Errors.{Err, Result, ok, err}
use marketengine.Effects.{Eff, pure, raise, query, wrapped, context, continue, ◌>>=◌, fail_if}

pub record ReadsOnly {ℓ} {Act A : Type ℓ} (m : Eff Act A) : Type ℓ where
  pub keeps : (h : List Act) → (m h).1 ≡ h

-- `P` holds of each value that `m` returns.
pub record Returns {ℓ} {Act A : Type ℓ} (P : A → Type ℓ) (m : Eff Act A) : Type ℓ where
  pub holds : (h : List Act) (a : A) → (m h).0 ≡ ok a → P a

module _ {ℓ} {Act A : Type ℓ} where
  pub ReadsOnly-pure : (a : A) → ReadsOnly {Act = Act} (pure a)
  unfolding pure
  ReadsOnly-pure a = record { keeps = λ h. refl }

  pub ReadsOnly-raise : (e : Err) → ReadsOnly {Act = Act} {A = A} (raise e)
  unfolding raise
  ReadsOnly-raise e = record { keeps = λ h. refl }

  pub ReadsOnly-query : (answer : List Act → Result A) → ReadsOnly (query answer)
  unfolding query
  ReadsOnly-query answer = record { keeps = λ h. refl }

  wrapped-snd : (text : String) (r : Result A × List Act) → (wrapped text r).1 ≡ r.1
  wrapped-snd text (ok a, h) = refl
  wrapped-snd text (err e, h) = refl

  pub ReadsOnly-context : (text : String) (m : Eff Act A) → ReadsOnly m → ReadsOnly (context text m)
  unfolding context
  ReadsOnly-context text m r = record { keeps = λ h. rw (wrapped-snd text (m h)) (r.keeps h) }

  pub ReadsOnly-if :
      (b : Bool) (m n : Eff Act A) → ReadsOnly m → ReadsOnly n → ReadsOnly (if b then m else n)
  ReadsOnly-if true m n r s = r
  ReadsOnly-if false m n r s = s

module _ {ℓ} {Act A B : Type ℓ} where
  continue-snd :
      (r : Result A × List Act) (k : A → Eff Act B)
      → ((a : A) → ReadsOnly (k a))
      → (continue r k).1 ≡ r.1
  continue-snd (ok a, h) k s = (s a).keeps h
  continue-snd (err e, h) k s = refl

  pub ReadsOnly-bind :
      (m : Eff Act A) (k : A → Eff Act B)
      → ReadsOnly m
      → ((a : A) → ReadsOnly (k a))
      → ReadsOnly (m >>= k)
  unfolding ◌>>=◌
  ReadsOnly-bind m k r s = record { keeps = λ h. rw (continue-snd (m h) k s) (r.keeps h) }

pub ReadsOnly-fail_if : {Act : Type 0} (b : Bool) (e : Err) → ReadsOnly {Act = Act} (fail_if b e)
unfolding fail_if
ReadsOnly-fail_if true e = record { keeps = λ h. refl }
ReadsOnly-fail_if false e = record { keeps = λ h. refl }

pub ok_injective {ℓ} : {A : Type ℓ} {a b : A} → ok a ≡ ok b → a ≡ b
ok_injective e = cc

unwrapped {ℓ} :
    {Act A : Type ℓ} (text : String) (r : Result A × List Act) {b : A}
    → (wrapped text r).0 ≡ ok b
    → r.0 ≡ ok b
unwrapped text (ok a, h) e = e
unwrapped text (err x, h) e = cc

module _ {ℓ} {Act A : Type ℓ} (P : A → Type ℓ) where
  pub Returns-pure : (a : A) → P a → Returns {Act = Act} P (pure a)
  unfolding pure
  Returns-pure a p = record { holds = λ h b e. subst P (ok_injective e) p }

  pub Returns-raise : (e : Err) → Returns {Act = Act} P (raise e)
  unfolding raise
  Returns-raise e = record { holds = λ h b q. cc }

  pub Returns-if :
      (b : Bool) (m n : Eff Act A) → Returns P m → Returns P n → Returns P (if b then m else n)
  Returns-if true m n r s = r
  Returns-if false m n r s = s

  -- a read whose answer is not constrained
  pub Returns-context : (text : String) (m : Eff Act A) → Returns P m → Returns P (context text m)
  unfolding context
  Returns-context text m r = record { holds = λ h b q. r.holds h b (unwrapped text (m h) q) }

module _ {ℓ} {Act A B : Type ℓ} (Q : A → Type ℓ) (P : B → Type ℓ) where
  continue-holds :
      (r : Result A × List Act) (k : A → Eff Act B)
      → ((a : A) → r.0 ≡ ok a → Q a)
      → ((a : A) → Q a → Returns P (k a))
      → (b : B) → (continue r k).0 ≡ ok b
      → P b
  continue-holds (ok a, h) k q s b e = (s a (q a refl)).holds h b e
  continue-holds (err x, h) k q s b e = cc

  -- The first part returns a value with `Q`, and from such a value the rest returns one with `P`.
  pub Returns-bind :
      (m : Eff Act A) (k : A → Eff Act B)
      → Returns Q m
      → ((a : A) → Q a → Returns P (k a))
      → Returns P (m >>= k)
  unfolding ◌>>=◌
  Returns-bind m k r s = record { holds = λ h b e. continue-holds (m h) k (r.holds h) s b e }

module _ {ℓ} {Act A B : Type ℓ} (P : B → Type ℓ) where
  -- The same, where the rest needs nothing of the value.
  pub Returns-bind_any :
      (m : Eff Act A) (k : A → Eff Act B) → ((a : A) → Returns P (k a)) → Returns P (m >>= k)
  Returns-bind_any m k s =
      Returns-bind (λ _. Unit) P m k (record { holds = λ h a e. tt }) (λ a _. s a)

-- `m` never fails.
pub record Succeeds {ℓ} {Act A : Type ℓ} (m : Eff Act A) : Type ℓ where
  pub value : (h : List Act) → (a : A) × ((m h).0 ≡ ok a)

module _ {ℓ} {Act A : Type ℓ} where
  pub Succeeds-pure : (a : A) → Succeeds {Act = Act} (pure a)
  unfolding pure
  Succeeds-pure a = record { value = λ h. (a, refl) }

  pub Succeeds-query :
      (answer : List Act → Result A)
      → ((h : List Act) → (a : A) × (answer h ≡ ok a))
      → Succeeds (query answer)
  unfolding query
  Succeeds-query answer s = record { value = s }

  wrapped-ok :
      (text : String) (r : Result A × List Act) {a : A} → r.0 ≡ ok a → (wrapped text r).0 ≡ ok a
  wrapped-ok text (ok a, h) e = e
  wrapped-ok text (err x, h) e = cc

  pub Succeeds-context : (text : String) (m : Eff Act A) → Succeeds m → Succeeds (context text m)
  unfolding context
  Succeeds-context text m s = record {
    value = λ h. ((s.value h).0, wrapped-ok text (m h) (s.value h).1);
  }

  pub Succeeds-if :
      (b : Bool) (m n : Eff Act A) → Succeeds m → Succeeds n → Succeeds (if b then m else n)
  Succeeds-if true m n r s = r
  Succeeds-if false m n r s = s

module _ {ℓ} {Act A B : Type ℓ} where
  continue-ok :
      (r : Result A × List Act) (k : A → Eff Act B) (a : A)
      → r.0 ≡ ok a
      → Succeeds (k a)
      → (b : B) × ((continue r k).0 ≡ ok b)
  continue-ok (ok a', h) k a e s =
      subst (λ x. (b : B) × ((k x h).0 ≡ ok b)) (sym (ok_injective e)) (s.value h)
  continue-ok (err x, h) k a e s = absurd (cc)

  pub Succeeds-bind :
      (m : Eff Act A) (k : A → Eff Act B)
      → Succeeds m
      → ((a : A) → Succeeds (k a))
      → Succeeds (m >>= k)
  unfolding ◌>>=◌
  Succeeds-bind m k r s = record {
    value = λ h. continue-ok (m h) k (r.value h).0 (r.value h).1 (s (r.value h).0);
  }

  -- The same, where the rest needs what is known of the value.
  pub Succeeds-bind_known :
      (P : A → Type ℓ) (m : Eff Act A) (k : A → Eff Act B)
      → Succeeds m
      → Returns P m
      → ((a : A) → P a → Succeeds (k a))
      → Succeeds (m >>= k)
  unfolding ◌>>=◌
  Succeeds-bind_known P m k r p s = record {
    value = λ h. let (a, e) = r.value h in continue-ok (m h) k a e (s a (p.holds h a e));
  }
