-- ===== src/Kernel/CatalogPaths/Sets.antt =====
-- A set of catalog paths: no path twice, and no collection that is a root skill too.
use ritebook.Prelude.{◌≡◌, refl, ◌≢◌, ◌↔◌, Bool, false, ◌&&◌, not, List, [], ◌∷◌, arith}
use ritebook.Prelude.{none, some, Option-cases, nat_eq, list_eq, contains, ok, All, filter}
use ritebook.Prelude.{inl, inr, eq_iff, any, traverse, Result}
use ritebook.Prelude.{◌>>=◌, ◌>>◌, Result-cases, ◌∙◌, ap}
use ritebook.Prelude.Sorting.{sorted-any}
use ritebook.Text.{Text}
use ritebook.Kernel.Errors.{ValueError}
use ritebook.Kernel.CatalogPaths.{
  CatalogPath, root_skill, collection_child, is_root_skill, validate_catalog_path, check_duplicates,
  root_paths, child_paths, collection_in, check_mixed, validate_catalog_paths, by_value,
}

-- No two entries have one literal.
abbrev pub HasDistinctValues : List CatalogPath → Type 0
HasDistinctValues [] = Unit
HasDistinctValues (path ∷ paths) = All (λ q. path.value ≢ q.value) paths × HasDistinctValues paths

abbrev Unseen : List Text → List CatalogPath → Type 0
Unseen seen = All (λ q. contains seen q.value ≡ false)

Unseen-cons :
    (v : Text) (seen : List Text) (paths : List CatalogPath)
    → Unseen (v ∷ seen) paths ↔ (All (λ q. v ≢ q.value) paths × Unseen seen paths)
Unseen-cons v seen [] = (λ h. (tt, tt), λ h. tt)
Unseen-cons v seen (q ∷ paths) = ground (arith, eq_iff v q.value, Unseen-cons v seen paths)

check_duplicates_iff :
    (paths : List CatalogPath) (seen : List Text)
    → (check_duplicates paths seen ≡ ok tt) ↔ (HasDistinctValues paths × Unseen seen paths)
unfolding check_duplicates
check_duplicates_iff [] seen = (λ h. (tt, tt), λ h. refl)
check_duplicates_iff (path ∷ paths) seen =
    ground
      (arith, check_duplicates_iff paths (path.value ∷ seen), Unseen-cons path.value seen paths)

check_mixed-any :
    (roots : List Text) (children : List CatalogPath)
    → (check_mixed roots children ≡ ok tt) ↔ (any (collection_in roots) children ≡ false)
unfolding check_mixed
check_mixed-any roots [] = (λ h. refl, λ h. refl)
check_mixed-any roots (child ∷ children) = ground (arith, check_mixed-any roots children)

any-filter :
    (p q : CatalogPath → Bool) (paths : List CatalogPath)
    → any p (filter q paths) ≡ any (λ x. q x && p x) paths
unfolding filter
any-filter p q [] = refl
any-filter p q (x ∷ paths) = ground (arith, any-filter p q paths)

-- A child's collection is not the literal of a root skill.
abbrev pub NotMixed : CatalogPath → CatalogPath → Type 0
NotMixed child root =
    child.kind ≡ collection_child → root.kind ≡ root_skill → child.collection ≢ some root.value

mixed_with_none :
    (child : CatalogPath) (roots : List CatalogPath)
    → child.collection ≡ none
    → ((not (is_root_skill child.kind) && false) ≡ false) ↔ All (NotMixed child) roots
mixed_with_none child [] e = (λ h. tt, λ h. ground arith)
mixed_with_none child (root ∷ roots) e = ground (arith, mixed_with_none child roots e)

mixed_with_some :
    (child : CatalogPath) (c : Text) (roots : List CatalogPath)
    → child.collection ≡ some c
    → ((not (is_root_skill child.kind) && contains (root_paths roots) c) ≡ false)
      ↔ All (NotMixed child) roots
unfolding root_paths filter
mixed_with_some child c [] e = (λ h. tt, λ h. ground arith)
mixed_with_some child c (root ∷ roots) e =
    ground (arith, mixed_with_some child c roots e, eq_iff root.value c)

mixed_with :
    (child : CatalogPath) (roots : List CatalogPath)
    → ((not (is_root_skill child.kind) && collection_in (root_paths roots) child) ≡ false)
      ↔ All (NotMixed child) roots
unfolding root_paths filter
mixed_with child roots = elim (Option-cases child.collection) [
  | inl e ↦ ground (arith, e, mixed_with_none child roots e)
  | inr (c, e) ↦ ground (arith, e, mixed_with_some child c roots e)
]

All-mixed_with :
    (children roots : List CatalogPath)
    → (any (λ x. not (is_root_skill x.kind) && collection_in (root_paths roots) x) children ≡ false)
      ↔ All (λ child. All (NotMixed child) roots) children
All-mixed_with [] roots = (λ h. tt, λ h. refl)
All-mixed_with (child ∷ children) roots =
    ground (arith, mixed_with child roots, All-mixed_with children roots)

check_mixed_iff :
    (paths : List CatalogPath)
    → (check_mixed (root_paths paths) (child_paths paths) ≡ ok tt)
      ↔ All (λ child. All (NotMixed child) paths) paths
unfolding child_paths
check_mixed_iff paths =
    let tests : any (collection_in (root_paths paths)) (child_paths paths)
        ≡ any (λ x. not (is_root_skill x.kind) && collection_in (root_paths paths) x) paths =
      sorted-any by_value (collection_in (root_paths paths))
        (filter (λ p. not (is_root_skill p.kind)) paths)
      ∙ any-filter (collection_in (root_paths paths)) (λ p. not (is_root_skill p.kind)) paths in
    (
      λ h.
          (All-mixed_with paths paths).0
            (rw tests at ((check_mixed-any (root_paths paths) (child_paths paths)).0 h)),
      λ h.
          (check_mixed-any (root_paths paths) (child_paths paths)).1
            (rw tests ((All-mixed_with paths paths).1 h)),
    )

abbrev check_set : Result ValueError (List CatalogPath) → Result ValueError (List CatalogPath)
check_set r = do
  catalog_paths ← r
  check_duplicates catalog_paths []
  check_mixed (root_paths catalog_paths) (child_paths catalog_paths)
  ok catalog_paths

Unseen-nil : (paths : List CatalogPath) → Unseen [] paths
Unseen-nil [] = tt
Unseen-nil (path ∷ paths) = (refl, Unseen-nil paths)

check_set_iff :
    (found paths : List CatalogPath)
    → (check_set (ok found) ≡ ok paths) ↔ (
        (found ≡ paths) × HasDistinctValues found × All (λ child. All (NotMixed child) found) found)
check_set_iff found paths =
    ground (arith, check_duplicates_iff found [], Unseen-nil found, check_mixed_iff found)

-- A set of literals is accepted exactly when each is a catalog path by itself, no two are the
-- same, and no child's collection is the literal of a root skill; the result is the paths in order.
pub validate_catalog_paths_iff :
    (values : List Text) (paths : List CatalogPath)
    → (validate_catalog_paths values ≡ ok paths) ↔ (
        (traverse validate_catalog_path values ≡ ok paths)
        × HasDistinctValues paths
        × All (λ child. All (NotMixed child) paths) paths)
unfolding validate_catalog_paths
validate_catalog_paths_iff values paths =
    elim (Result-cases (traverse validate_catalog_path values)) [
      | inl (found, e) ↦ rw e (
        λ h.
            let (same, distinct, unmixed) = (check_set_iff found paths).0 h in
            (ap ok same, rw (← same) distinct, rw (← same) unmixed),
        λ h.
            let same : found ≡ paths = cc (h.0) in
            (check_set_iff found paths).1 (same, rw same (h.1), rw same (h.2)),
      )
      | inr (e, raised) ↦ rw raised ((λ h. ground arith), (λ h. ground arith))
    ]
