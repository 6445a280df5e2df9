-- ===== src/Contribution/Directory/Changes.antt =====
-- When two trees count as the same.
use mathlib.Core.Path.{subst}
use ritebook.Prelude.{
  ℕ, ◌≡◌, refl, ◌↔◌, Bool, false, List, [], ◌∷◌, Option, none, some, filter, length, arith, All,
  All-implies, Bool-cases, inl, inr,
}
use ritebook.Prelude.{◌==◌, nat_eq, list_eq, eq_iff, eq_refl}
use ritebook.Text.{Text}
use ritebook.Contribution.Directory.{
  Node, directory, file, Tree, node_at, directory_entries, is_absent, differs, changed_file_count,
}

-- What the comparison takes for the same at one path: files with the same bytes, and a directory
-- with anything.
pub data Agrees : Option Node → Option Node → Type 0 where
  both_absent : Agrees none none
  same_file : (left right : List ℕ) → left ≡ right → Agrees (some (file left)) (some (file right))
  left_directory : (node : Node) → Agrees (some directory) (some node)
  right_directory : (node : Node) → Agrees (some node) (some directory)

module _ {ℓ} {A : Type ℓ} (p : A → Bool) where
  length-filter_zero : (xs : List A) → (length (filter p xs) ≡ 0) ↔ All (λ x. p x ≡ false) xs
  unfolding filter
  length-filter_zero [] = (λ h. tt, λ h. refl)
  length-filter_zero (x ∷ xs) = ground (arith, length-filter_zero xs)

-- A path that a tree has is among its entries: what holds of all entries holds there.
module _ (P : Text → Type 0) where
  entries-node_at :
      (tree : Tree) (path : Text)
      → All P (directory_entries tree)
      → is_absent (node_at tree path) ≡ false
      → P path
  unfolding node_at
  entries-node_at [] path all h = ground arith
  entries-node_at ((p, node) ∷ tree) path all h = elim (Bool-cases (p == path)) [
    | inl e ↦ subst P ((eq_iff p path).0 e) all.0
    | inr e ↦ entries-node_at tree path all.1 (rw e at h)
  ]

-- And the tree has each of its entries.
entries-present :
    (tree : Tree) → All (λ path. is_absent (node_at tree path) ≡ false) (directory_entries tree)
unfolding node_at
entries-present [] = tt
entries-present ((p, node) ∷ tree) = (
  rw (eq_refl p) refl,
  All-implies _ _ (λ path h. elim (Bool-cases (p == path)) [ inl e ↦ rw e refl | inr e ↦ rw e h ])
      (directory_entries tree) (entries-present tree),
)

to_agree :
    (left right : Option Node)
    → (is_absent left ≡ false → is_absent right ≡ false)
    → (is_absent right ≡ false → is_absent left ≡ false)
    → (is_absent left ≡ false → differs left right ≡ false)
    → Agrees left right
to_agree none none h k d = both_absent
to_agree none (some n) h k d = ground (arith, k refl)
to_agree (some m) none h k d = ground (arith, h refl)
to_agree (some directory) (some n) h k d = left_directory n
to_agree (some (file a)) (some directory) h k d = right_directory (file a)
to_agree (some (file a)) (some (file b)) h k d =
    same_file a b ((eq_iff a b).0 (ground (arith, d refl)))

left_present :
    {left right : Option Node}
    → Agrees left right
    → is_absent left ≡ false
    → is_absent right ≡ false
left_present both_absent h = h
left_present (same_file a b e) h = refl
left_present (left_directory n) h = refl
left_present (right_directory n) h = refl

right_present :
    {left right : Option Node}
    → Agrees left right
    → is_absent right ≡ false
    → is_absent left ≡ false
right_present both_absent h = h
right_present (same_file a b e) h = refl
right_present (left_directory n) h = refl
right_present (right_directory n) h = refl

no_difference : {left right : Option Node} → Agrees left right → differs left right ≡ false
no_difference both_absent = refl
no_difference (same_file a b e) = ground (arith, eq_iff a b, e)
no_difference (left_directory n) = refl
no_difference (right_directory directory) = refl
no_difference (right_directory (file a)) = refl

module _ (left right : Tree) where
  abbrev only_left : Text → Bool
  only_left path = is_absent (node_at right path)

  abbrev only_right : Text → Bool
  only_right path = is_absent (node_at left path)

  abbrev unlike : Text → Bool
  unlike path = differs (node_at left path) (node_at right path)

  to_same :
      changed_file_count left right ≡ 0
      → (path : Text) → Agrees (node_at left path) (node_at right path)
  unfolding changed_file_count
  to_same h path =
      let ls = (length-filter_zero only_left (directory_entries left)).0 (omega (arith, h)) in
      let rs = (length-filter_zero only_right (directory_entries right)).0 (omega (arith, h)) in
      let ds = (length-filter_zero unlike (directory_entries left)).0 (omega (arith, h)) in
      to_agree (node_at left path) (node_at right path)
        (entries-node_at (λ p. only_left p ≡ false) left path ls)
        (entries-node_at (λ p. only_right p ≡ false) right path rs)
        (entries-node_at (λ p. unlike p ≡ false) left path ds)

  from_same :
      ((path : Text) → Agrees (node_at left path) (node_at right path))
      → changed_file_count left right ≡ 0
  unfolding changed_file_count
  from_same agree =
      let ls =
        (length-filter_zero only_left (directory_entries left)).1
          (All-implies _ _ (λ p. left_present (agree p)) _ (entries-present left)) in
      let rs =
        (length-filter_zero only_right (directory_entries right)).1
          (All-implies _ _ (λ p. right_present (agree p)) _ (entries-present right)) in
      let ds =
        (length-filter_zero unlike (directory_entries left)).1
          (All-implies _ _ (λ p h. no_difference (agree p)) _ (entries-present left)) in
      omega (arith, ls, rs, ds)

  -- No change is counted between two trees exactly when, at each path, neither has anything, both
  -- have files with the same bytes, or both have something and one of the two is a directory.
  pub changed_file_count_iff :
      (changed_file_count left right ≡ 0)
      ↔ ((path : Text) → Agrees (node_at left path) (node_at right path))
  changed_file_count_iff = (to_same, from_same)
