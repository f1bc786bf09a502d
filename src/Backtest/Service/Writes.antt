-- ===== src/Backtest/Service/Writes.antt =====
-- Parts of a replay that write for one run only.
use mathlib.Core.List.{append_assoc}
use marketengine.Prelude.{◌≡◌, refl, sym, ap, ◌∙◌, String, List, [], ◌∷◌, ◌++◌, All, All-append}
use marketengine.Errors.{Result, ok, err}
use marketengine.Effects.{Eff, pure, continue, recorded, ◌>>=◌, ◌>>◌, perform, skip_error}
use marketengine.Backtest.Ports.{Action, run_saved, state_saved, status_updated}

module _ {F : Type 0} where
  -- A write that belongs to the run `id`: one of its states, or its completion.
  abbrev pub IsOf : String → Action F → Type 0
  IsOf id (run_saved j run) = ⊥
  IsOf id (state_saved j s) = j ≡ id
  IsOf id (status_updated j status t) = (j ≡ id) × (status ≡ "completed")

  -- From `h` to `h'`, with writes of the run `id` only.
  abbrev pub Extends : String → List (Action F) → List (Action F) → Type 0
  Extends id h h' = (acts : List (Action F)) × (h' ≡ h ++ acts) × All (IsOf id) acts

  abbrev pub Completes : String → Eff (Action F) (Unit {0}) → Type 0
  Completes id m = (h : List (Action F)) → ((m h).0 ≡ ok tt) × Extends id h (m h).1

  pub Extends-refl : (id : String) (h : List (Action F)) → Extends id h h
  Extends-refl id h = ([], sym (append_nil h), tt)
    where
      append_nil : (xs : List (Action F)) → xs ++ [] ≡ xs
      append_nil [] = refl
      append_nil (x ∷ xs) = ap (λ ys. x ∷ ys) (append_nil xs)

  pub Extends-trans :
      (id : String) (h h' h'' : List (Action F))
      → Extends id h h'
      → Extends id h' h''
      → Extends id h h''
  Extends-trans id h h' h'' (xs, p, ps) (ys, q, qs) =
      (xs ++ ys, q ∙ rw p (append_assoc h xs ys), All-append (IsOf id) xs ys ps qs)

  pub Completes-pure : (id : String) → Completes id (pure tt)
  unfolding pure
  Completes-pure id h = (refl, Extends-refl id h)

  pub Completes-then :
      (id : String) (m n : Eff (Action F) (Unit {0}))
      → Completes id m
      → Completes id n
      → Completes id (m >> n)
  unfolding ◌>>=◌
  Completes-then id m n c d h = step (m h) (c h)
    where
      step :
          (x : Result (Unit {0}) × List (Action F))
          → (x.0 ≡ ok tt) × Extends id h x.1
          → ((continue x (λ _. n)).0 ≡ ok tt) × Extends id h (continue x (λ _. n)).1
      step (ok _, h') (e, w) = ((d h').0, Extends-trans id h h' _ w (d h').1)
      step (err x, h') (e, w) = cc

  pub skip_error-Completes :
      (id : String) (m : Eff (Action F) (Unit {0}))
      → ((h : List (Action F)) → Extends id h (m h).1)
      → Completes id (skip_error m)
  unfolding skip_error
  skip_error-Completes id m w h = (refl, w h)

  pub perform-Extends :
      (id : String) (answer : List (Action F) → Result (Unit {0})) (a : Action F)
      → IsOf id a
      → (h : List (Action F)) → Extends id h (perform answer a h).1
  unfolding perform
  perform-Extends id answer a p h = written (answer h)
    where
      written : (r : Result (Unit {0})) → Extends id h (recorded r a h).1
      written (ok _) = (a ∷ [], refl, (p, tt))
      written (err e) = Extends-refl id h
