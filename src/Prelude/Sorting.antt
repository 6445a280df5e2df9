-- ===== src/Prelude/Sorting.antt =====
-- Python's `sorted(xs, key=...)`, which is stable: the stable sort is one function, and insertion
-- sort computes it.
use mathlib.Core.Path.{◌≡◌, refl, ap, ◌∙◌}
use Prim.Native.Nat.{suc}
use mathlib.Core.Bool.{Bool, true, ◌||◌}
use mathlib.Core.List.{List, [], ◌∷◌, Perm}
use mathlib.Core.List.Perm
use mathlib.Core.Logic.{inl, inr}
use native.Mathlib.Omega.{arith}
use ritebook.Prelude.Tests.{if◌then◌else◌, Bool-cases}
use ritebook.Prelude.Lists.{All, any, length, filter}

module _ {ℓ} {A : Type ℓ} (le : A → A → Bool) where
  unfoldable pub insert_sorted : A → List A → List A
  insert_sorted x [] = x ∷ []
  insert_sorted x (y ∷ ys) =
      let rest = insert_sorted x ys in if le x y then x ∷ y ∷ ys else y ∷ rest

  unfoldable pub sorted : List A → List A
  unfolding insert_sorted
  sorted [] = []
  sorted (x ∷ xs) = insert_sorted x (sorted xs)

  -- Each element is at most all that follow it.
  abbrev pub IsSorted : List A → Type ℓ
  IsSorted [] = Unit
  IsSorted (x ∷ xs) = All (λ y. le x y ≡ true) xs × IsSorted xs

  insert_sorted-perm : (x : A) (ys : List A) → Perm (insert_sorted x ys) (x ∷ ys)
  unfolding insert_sorted
  insert_sorted-perm x [] = Perm.refl _
  insert_sorted-perm x (y ∷ ys) = elim (Bool-cases (le x y)) [
    | inl h ↦ rw h (Perm.refl _)
    | inr h ↦ rw h (Perm.trans (Perm.cons y (insert_sorted-perm x ys)) (Perm.swap x y ys))
  ]

  pub sorted-perm : (xs : List A) → Perm (sorted xs) xs
  unfolding sorted
  sorted-perm [] = Perm.refl _
  sorted-perm (x ∷ xs) =
      Perm.trans (insert_sorted-perm x (sorted xs)) (Perm.cons x (sorted-perm xs))

  module _ (total : (x y : A) → (le x y || le y x) ≡ true)
      (trans : (x y z : A) → le x y ≡ true → le y z ≡ true → le x z ≡ true) where
    All-insert_sorted :
        (z x : A) (ys : List A)
        → le z x ≡ true
        → All (λ y. le z y ≡ true) ys
        → All (λ y. le z y ≡ true) (insert_sorted x ys)
    unfolding insert_sorted
    All-insert_sorted z x [] h k = (h, tt)
    All-insert_sorted z x (y ∷ ys) h k = elim (Bool-cases (le x y)) [
      | inl e ↦ rw e (h, k)
      | inr e ↦ rw e (k.0, All-insert_sorted z x ys h k.1)
    ]

    All-le_trans :
        (x y : A) (ys : List A)
        → le x y ≡ true
        → All (λ z. le y z ≡ true) ys
        → All (λ z. le x z ≡ true) ys
    All-le_trans x y [] h k = tt
    All-le_trans x y (z ∷ zs) h k = (trans x y z h k.0, All-le_trans x y zs h k.1)

    insert_sorted-IsSorted : (x : A) (ys : List A) → IsSorted ys → IsSorted (insert_sorted x ys)
    unfolding insert_sorted
    insert_sorted-IsSorted x [] k = (tt, tt)
    insert_sorted-IsSorted x (y ∷ ys) k = elim (Bool-cases (le x y)) [
      | inl e ↦ rw e ((e, All-le_trans x y ys e k.0), k)
      | inr e ↦ rw e (
        All-insert_sorted y x ys (ground (arith, total x y)) k.0,
        insert_sorted-IsSorted x ys k.1,
      )
    ]

    pub sorted-IsSorted : (xs : List A) → IsSorted (sorted xs)
    unfolding sorted
    sorted-IsSorted [] = tt
    sorted-IsSorted (x ∷ xs) = insert_sorted-IsSorted x (sorted xs) (sorted-IsSorted xs)

module _ {ℓ} {A : Type ℓ} (le : A → A → Bool) where
  length-insert_sorted : (x : A) (ys : List A) → length (insert_sorted le x ys) ≡ suc (length ys)
  unfolding insert_sorted
  length-insert_sorted x [] = refl
  length-insert_sorted x (y ∷ ys) = ground (arith, length-insert_sorted x ys)

  pub length-sorted : (xs : List A) → length (sorted le xs) ≡ length xs
  unfolding sorted
  length-sorted [] = refl
  length-sorted (x ∷ xs) = length-insert_sorted x (sorted le xs) ∙ ap suc (length-sorted xs)

-- Sorting keeps a test that some element passes.
module _ {ℓ} {A : Type ℓ} (le : A → A → Bool) (p : A → Bool) where
  insert_sorted-any : (x : A) (ys : List A) → any p (insert_sorted le x ys) ≡ (p x || any p ys)
  unfolding insert_sorted
  insert_sorted-any x [] = refl
  insert_sorted-any x (y ∷ ys) = ground (arith, insert_sorted-any x ys)

  pub sorted-any : (xs : List A) → any p (sorted le xs) ≡ any p xs
  unfolding sorted
  sorted-any [] = refl
  sorted-any (x ∷ xs) = rw (insert_sorted-any x (sorted le xs), sorted-any xs)

-- Sorting keeps what holds of every element.
module _ {ℓ κ} {A : Type ℓ} (le : A → A → Bool) (P : A → Type κ) where
  insert_sorted-All : (x : A) (ys : List A) → P x → All P ys → All P (insert_sorted le x ys)
  unfolding insert_sorted
  insert_sorted-All x [] h k = (h, tt)
  insert_sorted-All x (y ∷ ys) h k = elim (Bool-cases (le x y)) [
    | inl e ↦ rw e (h, k)
    | inr e ↦ rw e (k.0, insert_sorted-All x ys h k.1)
  ]

  pub sorted-All : (xs : List A) → All P xs → All P (sorted le xs)
  unfolding sorted
  sorted-All [] h = tt
  sorted-All (x ∷ xs) h = insert_sorted-All x (sorted le xs) h.0 (sorted-All xs h.1)

module _ {ℓ} {A : Type ℓ} (le : A → A → Bool) where
  insert_sorted-eq :
      (x : A) (ys : List A) → All (λ y. le x y ≡ true) ys → insert_sorted le x ys ≡ x ∷ ys
  unfolding insert_sorted
  insert_sorted-eq x [] h = refl
  insert_sorted-eq x (y ∷ ys) h = rw (h.0)

  -- What is in order stays as it is.
  pub sorted-eq : (xs : List A) → IsSorted le xs → sorted le xs ≡ xs
  unfolding sorted
  sorted-eq [] h = refl
  sorted-eq (x ∷ xs) h = rw (sorted-eq xs h.1, insert_sorted-eq x xs h.0)

module _ {ℓ κ} {A : Type ℓ} (p : A → Bool) (P : A → Type κ) where
  pub filter-All : (xs : List A) → All P xs → All P (filter p xs)
  unfolding filter
  filter-All [] h = tt
  filter-All (x ∷ xs) h = elim (Bool-cases (p x)) [
    | inl e ↦ rw e (h.0, filter-All xs h.1)
    | inr e ↦ rw e (filter-All xs h.1)
  ]

module _ {ℓ} {A : Type ℓ} (le : A → A → Bool) (p : A → Bool) where
  pub filter-IsSorted : (xs : List A) → IsSorted le xs → IsSorted le (filter p xs)
  unfolding filter
  filter-IsSorted [] h = tt
  filter-IsSorted (x ∷ xs) h = elim (Bool-cases (p x)) [
    | inl e ↦ rw e (filter-All p (λ y. le x y ≡ true) xs h.0, filter-IsSorted xs h.1)
    | inr e ↦ rw e (filter-IsSorted xs h.1)
  ]
