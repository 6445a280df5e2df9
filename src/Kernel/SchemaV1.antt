-- ===== src/Kernel/SchemaV1.antt =====
-- shared_kernel/schema_v1_catalog.py
use ritebook.Prelude.{
  ℕ, Bool, true, false, not, List, [], ◌∷◌, ◌++◌, none, some, Result, ok, err, map,
}
use ritebook.Prelude.{
  ◌==◌, nat_eq, list_eq, if◌then◌else◌, ltb, length, ◌>>=◌, ◌>>◌, raise_if, catch, traverse,
}
use ritebook.Text.{Text, codes}
use ritebook.Json.{
  Json, natural, string, array, object, Members, get_member, has_members, has_only, items_of,
}
use ritebook.Kernel.Errors.{ValueError, catalog_path}
use ritebook.Kernel.Identifiers.{require_index_name}
use ritebook.Kernel.TextSafety.{normalize_portable_description}
use ritebook.Kernel.PortablePaths.{validate_portable_relative_posix_path}
use ritebook.Kernel.CatalogPaths.{validate_catalog_path, validate_catalog_paths}
use ritebook.Kernel.StrictJson.{StrictJsonValidationReason, JsonLibrary, parse_strict_json_bytes}
use ritebook.Kernel.Timestamps.{DatetimeLibrary, parse_canonical_utc_timestamp}

abbrev pub max_schema_v1_skill_entries : ℕ
max_schema_v1_skill_entries = 10000

abbrev pub root_members : List Text
root_members =
    codes "schema_version"
    ∷ codes "index"
    ∷ codes "generated_at"
    ∷ codes "skills_root"
    ∷ codes "skills"
    ∷ []

abbrev pub index_members : List Text
index_members = codes "name" ∷ []

abbrev pub skill_members : List Text
skill_members = codes "name" ∷ codes "path" ∷ codes "skill_file" ∷ codes "description" ∷ []

-- `SchemaV1CatalogError`, by what its message says.
pub data SchemaV1CatalogError : Type 0 where
  strict_json : StrictJsonValidationReason → SchemaV1CatalogError
  not_an_object missing_members unknown_members not_a_text : SchemaV1CatalogError
  unsupported_version skills_not_array too_many_skills : SchemaV1CatalogError
  name_mismatch skill_file_mismatch description_not_normalized : SchemaV1CatalogError
  invalid_structure invalid_value : ValueError → SchemaV1CatalogError

pub record SchemaV1Skill : Type 0 where
  pub name : Text
  pub path : Text
  pub skill_file : Text
  pub description : Text

abbrev Checked : Type 0 → Type 0
Checked A = Result SchemaV1CatalogError A

unfoldable pub require_object : Json → Checked Members
require_object (object members) = ok members
require_object _ = err not_an_object

unfoldable pub require_exact_members : List Text → Members → Checked Unit
unfolding has_members has_only
require_exact_members expected value = do
  raise_if (not (has_members expected value)) missing_members
  raise_if (not (has_only expected value)) unknown_members

-- `value["name"]`, of a member that is there
unfoldable pub member_of : Text → Members → Checked Json
unfolding get_member
member_of name value = elim (get_member name value) [
  | none ↦ err missing_members
  | some found ↦ ok found
]

unfoldable pub require_string : Json → Checked Text
require_string (string value) = if value == [] then err not_a_text else ok value
require_string _ = err not_a_text

-- `except CatalogPathValidationError`, then `except ValueError`
abbrev pub wrap_value_error : ValueError → SchemaV1CatalogError
wrap_value_error (catalog_path reason path related) =
    invalid_structure (catalog_path reason path related)
wrap_value_error e = invalid_value e

abbrev pub skill_md : Text
skill_md = codes "/SKILL.md"

-- The checks of `_validate_skill` on the four texts.
unfoldable pub check_skill : SchemaV1Skill → Checked SchemaV1Skill
check_skill skill = do
  path ← catch (validate_catalog_path skill.path) wrap_value_error
  raise_if (not (skill.name == path.skill_name)) name_mismatch
  catch (validate_portable_relative_posix_path skill.path "skill path" false) wrap_value_error
  catch (validate_portable_relative_posix_path skill.skill_file "skill_file" false) wrap_value_error
  raise_if (not (skill.skill_file == skill.path ++ skill_md)) skill_file_mismatch
  normalized ←
      catch (normalize_portable_description skill.description "Skill entry description")
        wrap_value_error
  raise_if (not (normalized == skill.description)) description_not_normalized
  ok skill

unfoldable pub validate_skill : Json → Checked SchemaV1Skill
unfolding require_object require_exact_members member_of require_string check_skill
validate_skill value = do
  entry ← require_object value
  require_exact_members skill_members entry
  name ← (do value' ← member_of (codes "name") entry; require_string value')
  path ← (do value' ← member_of (codes "path") entry; require_string value')
  skill_file ← (do value' ← member_of (codes "skill_file") entry; require_string value')
  description ← (do value' ← member_of (codes "description") entry; require_string value')
  check_skill
      (record { name = name; path = path; skill_file = skill_file; description = description })

abbrev pub is_schema_v1 : Json → Bool
is_schema_v1 (natural n) = n == 1
is_schema_v1 _ = false

unfoldable pub require_array : Json → Checked (List Json)
require_array (array items) = ok (items_of items)
require_array _ = err skills_not_array

module _ (D : DatetimeLibrary) where
  pub record SchemaV1Catalog : Type 0 where
    pub published_name : Text
    pub generated_at : D.Datetime
    pub skills_root : Text
    pub skills : List SchemaV1Skill

  -- The last `try` block.
  unfoldable pub check_catalog : Text → Text → Text → List Json → Checked SchemaV1Catalog
  unfolding validate_skill
  check_catalog published_name generated_at_text skills_root raw_skills = do
    catch (require_index_name published_name "Published index name") wrap_value_error
    generated_at ←
        catch (parse_canonical_utc_timestamp D generated_at_text "generated_at") wrap_value_error
    catch (validate_portable_relative_posix_path skills_root "skills_root" true) wrap_value_error
    skills ← traverse validate_skill raw_skills
    catch (validate_catalog_paths (map (λ (skill : SchemaV1Skill). skill.path) skills))
        wrap_value_error
    ok (record {
      published_name = published_name;
      generated_at = generated_at;
      skills_root = skills_root;
      skills = skills;
    })

  -- `parse_schema_v1_catalog_bytes`, from the value that the bytes stand for
  unfoldable pub read_catalog : Json → Checked SchemaV1Catalog
  unfolding require_object require_exact_members member_of require_string require_array
      check_catalog
  read_catalog value = do
    root ← require_object value
    require_exact_members root_members root
    schema_version ← member_of (codes "schema_version") root
    raise_if (not (is_schema_v1 schema_version)) unsupported_version
    index ← (do value' ← member_of (codes "index") root; require_object value')
    require_exact_members index_members index
    published_name ← (do value' ← member_of (codes "name") index; require_string value')
    generated_at ← (do value' ← member_of (codes "generated_at") root; require_string value')
    skills_root ← (do value' ← member_of (codes "skills_root") root; require_string value')
    raw_skills ← (do value' ← member_of (codes "skills") root; require_array value')
    raise_if (ltb max_schema_v1_skill_entries (length raw_skills)) too_many_skills
    check_catalog published_name generated_at skills_root raw_skills

  unfoldable pub parse_schema_v1_catalog_bytes : JsonLibrary → List ℕ → Checked SchemaV1Catalog
  unfolding read_catalog
  parse_schema_v1_catalog_bytes library content = do
    value ← catch (parse_strict_json_bytes library content) strict_json
    read_catalog value
