-- ===== src/Prelude/Sort.antt =====
-- Python's `sorted`: a stable sort by a strict order on the keys.
use mathlib.Core.List.Perm
use mathlib.Core.List.{Perm}
use revue.Prelude.{◌≡◌, Bool, true, false, List, [], ◌∷◌, if◌then◌else◌, Bool-cases, inl, inr}

module _ {ℓ} {A : Type ℓ} (lt : A → A → Bool) where
  -- an element before those that are not less than it
  unfoldable pub insert : A → List A → List A
  insert x [] = x ∷ []
  insert x (y ∷ ys) = let rest = insert x ys in if lt y x then y ∷ rest else x ∷ y ∷ ys

  unfoldable pub sorted : List A → List A
  unfolding insert
  sorted [] = []
  sorted (x ∷ xs) = insert x (sorted xs)

  insert-perm : (x : A) (ys : List A) → Perm (insert x ys) (x ∷ ys)
  unfolding insert
  insert-perm x [] = Perm.refl (x ∷ [])
  insert-perm x (y ∷ ys) = elim (Bool-cases (lt y x)) [
    | inl less ↦ rw (less, insert) (Perm.trans (Perm.cons y (insert-perm x ys)) (Perm.swap x y ys))
    | inr more ↦ rw (more, insert) (Perm.refl (x ∷ y ∷ ys))
  ]

  pub sorted-perm : (xs : List A) → Perm (sorted xs) xs
  unfolding sorted
  sorted-perm [] = Perm.refl []
  sorted-perm (x ∷ xs) = Perm.trans (insert-perm x (sorted xs)) (Perm.cons x (sorted-perm xs))

  -- no element is less than the one before it
  abbrev pub IsOrdered : List A → Type 0
  IsOrdered [] = Unit
  IsOrdered (x ∷ []) = Unit
  IsOrdered (x ∷ y ∷ ys) = (lt y x ≡ false) × IsOrdered (y ∷ ys)

  module _ (asymmetric : (x y : A) → lt x y ≡ true → lt y x ≡ false) where
    insert-after :
        (x y : A) (ys : List A)
        → lt x y ≡ false
        → IsOrdered (y ∷ ys)
        → IsOrdered (insert x ys)
        → IsOrdered (y ∷ insert x ys)
    unfolding insert
    insert-after x y [] h o i = (h, tt)
    insert-after x y (z ∷ zs) h o i = elim (Bool-cases (lt z x)) [
      | inl less ↦ rw (less, insert) (o.0, rw (less, insert) at i)
      | inr more ↦ rw (more, insert) (h, rw (more, insert) at i)
    ]

    IsOrdered-tail : (y : A) (ys : List A) → IsOrdered (y ∷ ys) → IsOrdered ys
    IsOrdered-tail y [] o = tt
    IsOrdered-tail y (z ∷ zs) o = o.1

    insert-IsOrdered : (x : A) (ys : List A) → IsOrdered ys → IsOrdered (insert x ys)
    unfolding insert
    insert-IsOrdered x [] o = tt
    insert-IsOrdered x (y ∷ ys) o = elim (Bool-cases (lt y x)) [
      | inl less ↦
          rw (less, insert)
            (insert-after x y ys (asymmetric y x less) o
              (insert-IsOrdered x ys (IsOrdered-tail y ys o)))
      | inr more ↦ rw (more, insert) (more, o)
    ]

    pub sorted-IsOrdered : (xs : List A) → IsOrdered (sorted xs)
    unfolding sorted
    sorted-IsOrdered [] = tt
    sorted-IsOrdered (x ∷ xs) = insert-IsOrdered x (sorted xs) (sorted-IsOrdered xs)
