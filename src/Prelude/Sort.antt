-- ===== src/Prelude/Sort.antt =====
-- Sorting by a Boolean test "comes before", as Go's `sort.Slice`, `sort.Ints` and `sort.Float64s`
-- promise it: some ordered permutation. Insertion is the order chosen among equals.
use mathlib.Core.Path.{◌≡◌}
use mathlib.Core.Bool.{Bool, true, false}
use mathlib.Core.Logic.{inl, inr}
use mathlib.Core.List.{List, [], ◌∷◌, Perm}
use mathlib.Core.List.Perm
use marketengine.Prelude.Tests.{if◌then◌else◌, Bool-cases}
use marketengine.Prelude.Lists.{All}

module _ {ℓ} {A : Type ℓ} (less : A → A → Bool) where
  unfoldable pub insert_by : A → List A → List A
  insert_by x [] = x ∷ []
  insert_by x (y ∷ ys) = if less y x then y ∷ insert_by x ys else x ∷ y ∷ ys

  unfoldable pub sort_by : List A → List A
  unfolding insert_by
  sort_by [] = []
  sort_by (x ∷ xs) = insert_by x (sort_by xs)

  -- No element comes strictly before one that stands to its left.
  abbrev pub IsOrderedBy : List A → Type ℓ
  IsOrderedBy [] = Unit
  IsOrderedBy (x ∷ xs) = All (λ y. less y x ≡ false) xs × IsOrderedBy xs

  insert_by-perm : (x : A) (xs : List A) → Perm (insert_by x xs) (x ∷ xs)
  unfolding insert_by
  insert_by-perm x [] = Perm.refl _
  insert_by-perm x (y ∷ ys) = elim (Bool-cases (less y x)) [
    | inl h ↦ rw h (Perm.trans (Perm.cons y (insert_by-perm x ys)) (Perm.swap x y ys))
    | inr h ↦ rw h (Perm.refl _)
  ]

  pub sort_by-perm : (xs : List A) → Perm (sort_by xs) xs
  unfolding sort_by
  sort_by-perm [] = Perm.refl _
  sort_by-perm (x ∷ xs) = Perm.trans (insert_by-perm x (sort_by xs)) (Perm.cons x (sort_by-perm xs))

  All-insert_by {κ} :
      (P : A → Type κ) (x : A) (xs : List A) → P x → All P xs → All P (insert_by x xs)
  unfolding insert_by
  All-insert_by P x [] p ps = (p, tt)
  All-insert_by P x (y ∷ ys) p (q, qs) = elim (Bool-cases (less y x)) [
    | inl h ↦ rw h (q, All-insert_by P x ys p qs)
    | inr h ↦ rw h (p, (q, qs))
  ]

  pub All-sort_by {κ} : (P : A → Type κ) (xs : List A) → All P xs → All P (sort_by xs)
  unfolding sort_by
  All-sort_by P [] _ = tt
  All-sort_by P (x ∷ xs) (p, ps) = All-insert_by P x (sort_by xs) p (All-sort_by P xs ps)

  -- The test is a strict weak order on the values with `P`.
  pub record IsWeakOrder {κ} (P : A → Type κ) : Type (ℓ ⊔ κ) where
    pub asym : (x y : A) → P x → P y → less x y ≡ true → less y x ≡ false
    pub not_trans :
        (x y z : A) → P x → P y → P z → less y x ≡ false → less z y ≡ false → less z x ≡ false

  module _ {κ} (P : A → Type κ) (order : IsWeakOrder P) where
    above_first :
        (x y : A) (ys : List A)
        → P x
        → P y
        → All P ys
        → less y x ≡ false
        → All (λ z. less z y ≡ false) ys
        → All (λ z. less z x ≡ false) ys
    above_first x y [] p q qs h a = tt
    above_first x y (z ∷ zs) p q (r, rs) h (b, bs) =
        (order.not_trans x y z p q r h b, above_first x y zs p q rs h bs)

    insert_by-IsOrderedBy :
        (x : A) (xs : List A) → P x → All P xs → IsOrderedBy xs → IsOrderedBy (insert_by x xs)
    unfolding insert_by
    insert_by-IsOrderedBy x [] p ps o = (tt, tt)
    insert_by-IsOrderedBy x (y ∷ ys) p (q, qs) (a, o) = elim (Bool-cases (less y x)) [
      | inl h ↦ rw h (
        All-insert_by (λ z. less z y ≡ false) x ys (order.asym y x q p h) a,
        insert_by-IsOrderedBy x ys p qs o,
      )
      | inr h ↦ rw h ((h, above_first x y ys p q qs h a), (a, o))
    ]

    pub sort_by-IsOrderedBy : (xs : List A) → All P xs → IsOrderedBy (sort_by xs)
    unfolding sort_by
    sort_by-IsOrderedBy [] _ = tt
    sort_by-IsOrderedBy (x ∷ xs) (p, ps) =
        insert_by-IsOrderedBy x (sort_by xs) p (All-sort_by P xs ps) (sort_by-IsOrderedBy xs ps)
