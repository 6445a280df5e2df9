-- ===== src/Tests/Kernel.antt =====
-- Inputs for the properties of the shared kernel.
use ritebook.Prelude.{◌≤◌, ◌≡◌, refl, ◌↔◌, true, false, List, [], ◌∷◌, some, ok, All}
use ritebook.Prelude.{length, traverse, list_eq, nat_eq}
use ritebook.Text.{Text, codes, split, join}
use ritebook.Kernel.TextSafety.{
  contains_terminal_control_characters, escape_terminal_control_characters,
}
use ritebook.Kernel.TextSafety.Escaping.{escape_sound}
use ritebook.Kernel.Identifiers.{is_kebab_case_identifier, valid_skill_name}
use ritebook.Kernel.Identifiers.Grammar.{
  IsSegment, is_kebab_case_identifier_iff, valid_skill_name_eq,
}
use ritebook.Kernel.PortablePaths.{validate_portable_relative_posix_path}
use ritebook.Kernel.PortablePaths.Acceptance.{
  IsPortableSegment, validate_portable_relative_posix_path_iff,
}
use ritebook.Kernel.CatalogPaths.{
  CatalogPath, collection_child, validate_catalog_path, validate_catalog_paths,
}
use ritebook.Kernel.CatalogPaths.Single.{Classified, validate_catalog_path_iff}
use ritebook.Kernel.CatalogPaths.Sets.{HasDistinctValues, NotMixed, validate_catalog_paths_iff}

is_kebab_case_identifier_iff_example : (is_kebab_case_identifier (codes "git-2-flow") ≡ true) ↔ (
    (1 ≤ length (codes "git-2-flow"))
    × (length (codes "git-2-flow") ≤ 64)
    × All IsSegment (split b'-' (codes "git-2-flow")))
is_kebab_case_identifier_iff_example = is_kebab_case_identifier_iff (codes "git-2-flow")

valid_skill_name_eq_example :
    valid_skill_name (codes "a--b") ≡ is_kebab_case_identifier (codes "a--b")
valid_skill_name_eq_example = valid_skill_name_eq (codes "a--b")

escape_sound_example :
    (contains_terminal_control_characters (escape_terminal_control_characters (27 ∷ codes "[0m"))
      ≡ false)
    × ((escape_terminal_control_characters (27 ∷ codes "[0m") ≡ 27 ∷ codes "[0m")
        ↔ (contains_terminal_control_characters (27 ∷ codes "[0m") ≡ false))
escape_sound_example = escape_sound (27 ∷ codes "[0m")

escape_run : escape_terminal_control_characters (27 ∷ codes "[0m") ≡ codes "\\x1b[0m"
unfolding escape_terminal_control_characters
escape_run = refl

validate_portable_relative_posix_path_iff_example :
    (validate_portable_relative_posix_path (codes "docs/a.md") "path" false
      ≡ ok (codes "docs" ∷ codes "a.md" ∷ []))
    ↔ (All IsPortableSegment (codes "docs" ∷ codes "a.md" ∷ [])
        × (codes "docs" ∷ codes "a.md" ∷ [] ≡ split b'/' (codes "docs/a.md"))
        × (join b'/' (codes "docs" ∷ codes "a.md" ∷ []) ≡ codes "docs/a.md"))
validate_portable_relative_posix_path_iff_example =
    validate_portable_relative_posix_path_iff (codes "docs/a.md") "path"
      (codes "docs" ∷ codes "a.md" ∷ [])

abbrev child : Text → CatalogPath
child name = record {
  value = codes "tools/lint";
  kind = collection_child;
  collection = some (codes "tools");
  skill_name = name;
}

validate_catalog_path_iff_example :
    (validate_catalog_path (codes "tools/lint") ≡ ok (child (codes "lint")))
    ↔ Classified (codes "tools/lint") (split b'/' (codes "tools/lint")) (child (codes "lint"))
validate_catalog_path_iff_example =
    validate_catalog_path_iff (codes "tools/lint") (child (codes "lint"))

abbrev mixed : List Text
mixed = codes "tools/lint" ∷ codes "tools" ∷ []

validate_catalog_paths_iff_example :
    (validate_catalog_paths mixed ≡ ok (child (codes "lint") ∷ [])) ↔ (
      (traverse validate_catalog_path mixed ≡ ok (child (codes "lint") ∷ []))
      × HasDistinctValues (child (codes "lint") ∷ [])
      × All (λ c. All (NotMixed c) (child (codes "lint") ∷ [])) (child (codes "lint") ∷ []))
validate_catalog_paths_iff_example = validate_catalog_paths_iff mixed (child (codes "lint") ∷ [])
