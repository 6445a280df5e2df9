-- ===== src/Installation/References.antt =====
-- `SkillReference` of skill_installation/application/dtos/install_skill.py.
pub mod Parsing
use ritebook.Prelude.{
  ℕ, Bool, true, false, not, List, [], ◌∷◌, Option, none, some, String, Result, ok, err,
}
use ritebook.Prelude.{◌==◌, nat_eq, list_eq, ◌>>=◌, ◌>>◌, raise_if}
use ritebook.Text.{Text, split_once}
use ritebook.Kernel.Errors.{ValueError, empty_value, unqualified_reference}
use ritebook.Kernel.Identifiers.{require_index_name, require_kebab_case_identifier}
use ritebook.Kernel.CatalogPaths.{CatalogPath, validate_catalog_path}

pub record SkillReference : Type 0 where
  pub requirement : Text
  pub index_name : Text
  pub skill_path : Text
  pub skill_name : Text

unfoldable pub require_non_empty : Text → String → Result ValueError Unit
require_non_empty value field_name = raise_if (value == []) (empty_value field_name)

-- __post_init__: the reference, once its parts have been checked
unfoldable pub checked_reference : SkillReference → Result ValueError SkillReference
unfolding require_non_empty
checked_reference r = do
  require_non_empty r.requirement "Skill reference"
  require_index_name r.index_name "Local alias"
  validate_catalog_path r.skill_path
  require_kebab_case_identifier r.skill_name "Skill name"
  ok r

-- The rest of `parse`, after the split at the first slash.
unfoldable pub parse_parts : Text → Option (Text × Text) → Result ValueError SkillReference
unfolding checked_reference
parse_parts value none = err unqualified_reference
parse_parts value (some (index_name, skill_path)) = do
  catalog_path ← validate_catalog_path skill_path
  checked_reference (record {
    requirement = value;
    index_name = index_name;
    skill_path = skill_path;
    skill_name = catalog_path.skill_name;
  })

unfoldable pub parse : Text → Result ValueError SkillReference
unfolding parse_parts
parse value = do
  require_non_empty value "Skill reference"
  parse_parts value (split_once b'/' value)
