-- ===== src/Kernel/CatalogPaths.antt =====
-- shared_kernel/catalog_paths.py
pub mod Single
pub mod Sets
use ritebook.Prelude.{
  ℕ, Bool, true, false, ◌&&◌, not, List, [], ◌∷◌, Option, none, some, any, map, filter,
}
use ritebook.Prelude.{◌==◌, nat_eq, list_eq, option_eq, if◌then◌else◌, ltb, length, Result, ok, err}
use ritebook.Prelude.{◌>>=◌, ◌>>◌, raise_if, traverse, contains}
use ritebook.Prelude.Order.{text_leb}
use ritebook.Prelude.Sorting.{sorted}
use ritebook.Text.{Text}
use ritebook.Kernel.Errors.{ValueError, catalog_path, CatalogPathValidationReason}
use ritebook.Kernel.Identifiers.{is_kebab_case_identifier}
use ritebook.Kernel.PortablePaths.{is_malformed_literal, posix_parts}

abbrev pub max_catalog_path_segments : ℕ
max_catalog_path_segments = 2

pub data CatalogPathKind : Type 0 where
  root_skill collection_child : CatalogPathKind

abbrev pub is_root_skill : CatalogPathKind → Bool
is_root_skill root_skill = true
is_root_skill collection_child = false

pub record CatalogPath : Type 0 where
  pub value : Text
  pub kind : CatalogPathKind
  pub collection : Option Text
  pub skill_name : Text

-- The last two returns: by the number of parts. Other numbers do not come here.
unfoldable pub classify : Text → List Text → Result ValueError CatalogPath
classify value (part ∷ []) =
    ok (record { value = value; kind = root_skill; collection = none; skill_name = part })
classify value (part ∷ next ∷ parts) =
    ok
      (record { value = value; kind = collection_child; collection = some part; skill_name = next })
classify value [] = err (catalog_path CatalogPathValidationReason.malformed_path value none)

unfoldable pub validate_catalog_path : Text → Result ValueError CatalogPath
unfolding classify
validate_catalog_path value = do
  raise_if (is_malformed_literal value)
      (catalog_path CatalogPathValidationReason.malformed_path value none)
  let parts = posix_parts value
  raise_if (ltb max_catalog_path_segments (length parts))
      (catalog_path CatalogPathValidationReason.invalid_depth value none)
  raise_if (any (λ part. not (is_kebab_case_identifier part)) parts)
      (catalog_path CatalogPathValidationReason.invalid_segment value none)
  classify value parts

-- The loop that fills `paths_by_value`, which it only tests for membership.
unfoldable pub check_duplicates : List CatalogPath → List Text → Result ValueError Unit
check_duplicates [] seen = ok tt
check_duplicates (path ∷ paths) seen =
    if contains seen path.value
    then err (catalog_path CatalogPathValidationReason.duplicate_path path.value none)
    else check_duplicates paths (path.value ∷ seen)

unfoldable pub root_paths : List CatalogPath → List Text
root_paths paths = map (λ (p : CatalogPath). p.value) (filter (λ p. is_root_skill p.kind) paths)

abbrev by_value : CatalogPath → CatalogPath → Bool
by_value a b = text_leb a.value b.value

unfoldable pub child_paths : List CatalogPath → List CatalogPath
child_paths paths = sorted by_value (filter (λ p. not (is_root_skill p.kind)) paths)

-- `child_path.collection in root_paths`
abbrev pub collection_in : List Text → CatalogPath → Bool
collection_in roots p = elim p.collection [ none ↦ false | some c ↦ contains roots c ]

abbrev or_nil : Option Text → Text
or_nil none = []
or_nil (some c) = c

-- The loop over the sorted children.
unfoldable pub check_mixed : List Text → List CatalogPath → Result ValueError Unit
check_mixed roots [] = ok tt
check_mixed roots (child ∷ children) =
    if collection_in roots child
    then err (
        catalog_path CatalogPathValidationReason.mixed_node (or_nil child.collection)
          (some child.value))
    else check_mixed roots children

unfoldable pub validate_catalog_paths : List Text → Result ValueError (List CatalogPath)
unfolding root_paths child_paths
validate_catalog_paths values = do
  catalog_paths ← traverse validate_catalog_path values
  check_duplicates catalog_paths []
  check_mixed (root_paths catalog_paths) (child_paths catalog_paths)
  ok catalog_paths
