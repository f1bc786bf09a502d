-- ===== src/Pipeline/Traces.antt =====
-- What a method adds to the history, whether it succeeds or fails.
use mathlib.Core.List.{append_assoc}
use marketengine.Prelude.{
  ◌≡◌, refl, sym, ap, ◌∙◌, Bool, true, false, String, List, [], ◌∷◌, ◌++◌, All, All-append,
  if◌then◌else◌,
}
use marketengine.Errors.{Err, Result, ok, err}
use marketengine.Effects.{
  Eff, pure, raise, query, wrapped, context, continue, recorded, ◌>>=◌, perform, skip_error,
  attempt,
}
use marketengine.Effects.Rules.{Returns}

append_nil {ℓ} : {A : Type ℓ} (xs : List A) → xs ++ [] ≡ xs
append_nil [] = refl
append_nil (x ∷ xs) = ap (λ ys. x ∷ ys) (append_nil xs)

-- The items that `sel` finds in the parts of a list.
abbrev pub flat_map {ℓ κ} : {A : Type ℓ} {B : Type κ} → (A → List B) → List A → List B
flat_map sel [] = []
flat_map sel (a ∷ as') = sel a ++ flat_map sel as'

flat_map-append {ℓ κ} :
    {A : Type ℓ} {B : Type κ} (sel : A → List B) (xs ys : List A)
    → flat_map sel (xs ++ ys) ≡ flat_map sel xs ++ flat_map sel ys
flat_map-append sel [] ys = refl
flat_map-append sel (x ∷ xs) ys =
    ap (λ zs. sel x ++ zs) (flat_map-append sel xs ys)
    ∙ sym (append_assoc (sel x) (flat_map sel xs) (flat_map sel ys))

module _ {Act K : Type 0} (P : Act → Type 0) (sel : Act → List K) where
  -- All of `ks` after a success, the first of them after a failure.
  abbrev pub Covers : {A : Type 0} → Result A → List K → List K → Type 0
  Covers (ok a) zs ks = zs ≡ ks
  Covers (err e) zs ks = (rest : List K) × (zs ++ rest ≡ ks)

  -- From every history, `m` only adds writes; each has `P`; and among them are `ks`, in this order,
  -- or the first of them if `m` fails.
  pub record Traces {A : Type 0} (ks : List K) (m : Eff Act A) : Type 0 where
    pub runs :
        (h : List Act)
        → (acts : List Act) × ((m h).1 ≡ h ++ acts)
          × All P acts
          × Covers (m h).0 (flat_map sel acts) ks

  abbrev Run : {A : Type 0} → List K → List Act → Result A × List Act → Type 0
  Run ks h r =
      (acts : List Act) × (r.1 ≡ h ++ acts) × All P acts × Covers r.0 (flat_map sel acts) ks

  quiet_result : {A : Type 0} (r : Result A) → Covers r [] []
  quiet_result (ok a) = refl
  quiet_result (err e) = ([], refl)

  -- What a failed or dropped part has written counts only if nothing of it is asked for.
  quiet_any : {A : Type 0} (r : Result A) (zs : List K) → Covers r zs [] → zs ≡ []
  quiet_any (ok a) zs c = c
  quiet_any (err e) [] (rest, c) = refl
  quiet_any (err e) (z ∷ zs) (rest, c) = cc

  Covers-after :
      {B : Type 0} (r : Result B) (xs zs ks js : List K)
      → xs ≡ ks
      → Covers r zs js
      → Covers r (xs ++ zs) (ks ++ js)
  Covers-after (ok b) xs zs ks js e c = rw (e, c) refl
  Covers-after (err x) xs zs ks js e (rest, c) =
      (rest, rw e (append_assoc ks zs rest ∙ ap (λ ys. ks ++ ys) c))

module _ {Act K : Type 0} {P : Act → Type 0} {sel : Act → List K} where
  pub Traces-pure : {A : Type 0} (a : A) → Traces P sel [] (pure a)
  unfolding pure
  Traces-pure a = record { runs = λ h. ([], sym (append_nil h), tt, refl) }

  pub Traces-raise : {A : Type 0} (ks : List K) (e : Err) → Traces P sel {A = A} ks (raise e)
  unfolding raise
  Traces-raise ks e = record { runs = λ h. ([], sym (append_nil h), tt, (ks, refl)) }

  pub Traces-query : {A : Type 0} (answer : List Act → Result A) → Traces P sel [] (query answer)
  unfolding query
  Traces-query answer = record {
    runs = λ h. ([], sym (append_nil h), tt, quiet_result P sel (answer h));
  }

  pub Traces-if :
      {A : Type 0} {ks : List K} (b : Bool) {m n : Eff Act A}
      → Traces P sel ks m
      → Traces P sel ks n
      → Traces P sel ks (if b then m else n)
  Traces-if true r s = r
  Traces-if false r s = s

  pub Traces-unless :
      {A : Type 0} {ks : List K} (b : Bool) {m n : Eff Act A}
      → Traces P sel ks m
      → (b ≡ false → Traces P sel ks n)
      → Traces P sel ks (if b then m else n)
  Traces-unless true r s = r
  Traces-unless false r s = s refl

  pub Traces-perform :
      (answer : List Act → Result (Unit {0})) (a : Act)
      → P a
      → Traces P sel (sel a) (perform answer a)
  unfolding perform
  Traces-perform answer a p = record { runs = λ h. step h (answer h) }
    where
      step : (h : List Act) (r : Result (Unit {0})) → Run P sel (sel a) h (recorded r a h)
      step h (ok _) = (a ∷ [], refl, (p, tt), append_nil (sel a))
      step h (err e) = ([], sym (append_nil h), tt, (sel a, refl))

  pub Traces-context :
      {A : Type 0} {ks : List K} (text : String) {m : Eff Act A}
      → Traces P sel ks m
      → Traces P sel ks (context text m)
  unfolding context
  Traces-context {A} {ks} text {m} r = record { runs = λ h. step h (m h) (r.runs h) }
    where
      step :
          (h : List Act) (x : Result A × List Act)
          → Run P sel ks h x
          → Run P sel ks h (wrapped text x)
      step h (ok a, h') w = w
      step h (err e, h') w = w

  pub Traces-skip_error :
      {m : Eff Act (Unit {0})} → Traces P sel [] m → Traces P sel [] (skip_error m)
  unfolding skip_error
  Traces-skip_error {m} r = record {
    runs = λ h. let (acts, e, p, c) = r.runs h in (acts, e, p, quiet_any P sel (m h).0 _ c);
  }

  pub Traces-attempt :
      {A : Type 0} {m : Eff Act A} → Traces P sel [] m → Traces P sel [] (attempt m)
  unfolding attempt
  Traces-attempt {A} {m} r = record {
    runs = λ h. let (acts, e, p, c) = r.runs h in (acts, e, p, quiet_any P sel (m h).0 _ c);
  }

  module _ {A B : Type 0} where
    continue-Run :
        (ks js : List K) (h : List Act) (x : Result A × List Act) (k : A → Eff Act B)
        → Run P sel ks h x
        → ((a : A) → x.0 ≡ ok a → Traces P sel js (k a))
        → Run P sel (ks ++ js) h (continue x k)
    continue-Run ks js h (ok a, h') k (xs, e, p, c) s =
        let (ys, e', p', c') = (s a refl).runs h' in
        (
          xs ++ ys,
          e' ∙ ap (λ z. z ++ ys) e ∙ append_assoc h xs ys,
          All-append P xs ys p p',
          rw (flat_map-append sel xs ys) (Covers-after P sel (k a h').0 _ _ _ _ c c'),
        )
    continue-Run ks js h (err x, h') k (xs, e, p, (rest, c)) s =
        (xs, e, p, (rest ++ js, sym (append_assoc _ rest js) ∙ ap (λ ys. ys ++ js) c))

    pub Traces-bind :
        {ks js : List K} {m : Eff Act A} {k : A → Eff Act B}
        → Traces P sel ks m
        → ((a : A) → Traces P sel js (k a))
        → Traces P sel (ks ++ js) (m >>= k)
    unfolding ◌>>=◌
    Traces-bind {ks} {js} {m} {k} r s = record {
      runs = λ h. continue-Run ks js h (m h) k (r.runs h) (λ a _. s a);
    }

    -- The same, where the rest may use what holds of the value.
    pub Traces-Returns :
        {ks js : List K} {Q : A → Type 0} {m : Eff Act A} {k : A → Eff Act B}
        → Traces P sel ks m
        → Returns Q m
        → ((a : A) → Q a → Traces P sel js (k a))
        → Traces P sel (ks ++ js) (m >>= k)
    unfolding ◌>>=◌
    Traces-Returns {ks} {js} {Q} {m} {k} r q s = record {
      runs = λ h. continue-Run ks js h (m h) k (r.runs h) (λ a e. s a (q.holds h a e));
    }
