-- ===== src/Registry/Consistency/Names.antt =====
-- Entries of distinct names: `put`, lookups and sorting.
use ritebook.Prelude.{◌≡◌, ◌≢◌, sym, Bool, not, List, [], ◌∷◌, some, arith, filter, All}
use ritebook.Prelude.{◌==◌, nat_eq, list_eq, eq_iff, eq_refl, inl, inr, Bool-cases}
use ritebook.Prelude.Sorting.{sorted, insert_sorted}
use ritebook.Text.{Text}
use ritebook.Registry.Records.{RegisteredIndex}
use ritebook.Registry.Store.{Registration, name_of, find, put, list_entries}
use ritebook.Registry.Consistency.{IsDistinct}

All-filter :
    (P : Registration → Type 0) (p : Registration → Bool) (rs : List Registration)
    → All P rs
    → All P (filter p rs)
unfolding filter
All-filter P p [] h = tt
All-filter P p (r ∷ rs) h = elim (Bool-cases (p r)) [
  | inl e ↦ rw e (h.0, All-filter P p rs h.1)
  | inr e ↦ rw e (All-filter P p rs h.1)
]

filter-IsDistinct :
    (p : Registration → Bool) (rs : List Registration) → IsDistinct rs → IsDistinct (filter p rs)
unfolding filter
filter-IsDistinct p [] h = tt
filter-IsDistinct p (r ∷ rs) h = elim (Bool-cases (p r)) [
  | inl e ↦ rw e (All-filter _ p rs h.0, filter-IsDistinct p rs h.1)
  | inr e ↦ rw e (filter-IsDistinct p rs h.1)
]

filter_apart :
    (name : Text) (rs : List Registration)
    → All (λ x. name ≢ name_of x) (filter (λ other. not (name_of other == name)) rs)
unfolding filter
filter_apart name [] = tt
filter_apart name (r ∷ rs) = elim (Bool-cases (name_of r == name)) [
  | inl e ↦ rw e (filter_apart name rs)
  | inr e ↦ rw e ((λ same. ground (arith, eq_iff (name_of r) name)), filter_apart name rs)
]

pub put-IsDistinct :
    (entry : RegisteredIndex) (rs : List Registration) → IsDistinct rs → IsDistinct (put entry rs)
unfolding put
put-IsDistinct entry rs h = (
  filter_apart entry.name rs,
  filter-IsDistinct (λ other. not (name_of other == entry.name)) rs h,
)

module _ {A : Type 0} (le : A → A → Bool) (P : A → Type 0) where
  All-insert_sorted : (x : A) (xs : List A) → P x → All P xs → All P (insert_sorted le x xs)
  unfolding insert_sorted
  All-insert_sorted x [] p h = (p, tt)
  All-insert_sorted x (y ∷ ys) p h = elim (Bool-cases (le x y)) [
    | inl e ↦ rw e (p, h)
    | inr e ↦ rw e (h.0, All-insert_sorted x ys p h.1)
  ]

  pub All-sorted : (xs : List A) → All P xs → All P (sorted le xs)
  unfolding sorted
  All-sorted [] h = tt
  All-sorted (x ∷ xs) h = All-insert_sorted x (sorted le xs) h.0 (All-sorted xs h.1)

module _ (le : Registration → Registration → Bool) where
  insert_sorted-IsDistinct :
      (r : Registration) (rs : List Registration)
      → All (λ x. name_of r ≢ name_of x) rs
      → IsDistinct rs
      → IsDistinct (insert_sorted le r rs)
  unfolding insert_sorted
  insert_sorted-IsDistinct r [] a h = (tt, tt)
  insert_sorted-IsDistinct r (x ∷ xs) a h = elim (Bool-cases (le r x)) [
    | inl e ↦ rw e (a, h)
    | inr e ↦ rw e (
      All-insert_sorted le (λ y. name_of x ≢ name_of y) r xs (λ same. a.0 (sym same)) h.0,
      insert_sorted-IsDistinct r xs a.1 h.1,
    )
  ]

  sorted-IsDistinct : (rs : List Registration) → IsDistinct rs → IsDistinct (sorted le rs)
  unfolding sorted
  sorted-IsDistinct [] h = tt
  sorted-IsDistinct (r ∷ rs) h =
      insert_sorted-IsDistinct r (sorted le rs) (All-sorted le _ rs h.0) (sorted-IsDistinct rs h.1)

find_later :
    (r : Registration) (rs all : List Registration)
    → All (λ x. name_of r ≢ name_of x) rs
    → All (λ x. find (name_of x) all ≡ some x) rs
    → All (λ x. find (name_of x) (r ∷ all) ≡ some x) rs
unfolding find
find_later r [] all a h = tt
find_later r (x ∷ xs) all a h =
    (ground (arith, eq_iff (name_of r) (name_of x), a.0, h.0), find_later r xs all a.1 h.1)

-- Each entry is what its name finds.
abbrev pub IsFound : List Registration → List Registration → Type 0
IsFound all rs = All (λ x. find (name_of x) all ≡ some x) rs

IsDistinct-IsFound : (rs : List Registration) → IsDistinct rs → IsFound rs rs
unfolding find
IsDistinct-IsFound [] h = tt
IsDistinct-IsFound (r ∷ rs) h =
    (rw (eq_refl (name_of r)), find_later r rs rs h.0 (IsDistinct-IsFound rs h.1))

pub list_entries-IsDistinct :
    (rs : List Registration) → IsDistinct rs → IsDistinct (list_entries rs)
unfolding list_entries
list_entries-IsDistinct rs h = sorted-IsDistinct _ rs h

pub list_entries-IsFound : (rs : List Registration) → IsDistinct rs → IsFound rs (list_entries rs)
unfolding list_entries
list_entries-IsFound rs h = All-sorted _ _ rs (IsDistinct-IsFound rs h)
