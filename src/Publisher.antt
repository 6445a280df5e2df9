-- ===== src/Publisher.antt =====
-- features/publisher: the catalogue (domain/catalog.py) and the document that is written
-- (adapters/outbound/json_index/writer.py).
pub mod Entries
pub mod RoundTrip
use ritebook.Prelude.{ℕ, Bool, true, false, not, List, [], ◌∷◌, ◌++◌, String, Result, ok, err, map}
use ritebook.Prelude.{
  ◌==◌, nat_eq, list_eq, if◌then◌else◌, ltb, length, ◌>>=◌, ◌>>◌, raise_if, catch, traverse,
}
use ritebook.Prelude.Order.{text_leb}
use ritebook.Prelude.Sorting.{sorted}
use ritebook.Text.{Text, codes}
use ritebook.Json.{Json, natural, string, array, object, member, no_members, to_items}
use ritebook.Kernel.Errors.{
  ValueError, unsafe_relative_path, not_final_segment, not_path_skill_file, too_many_entries, blank,
  not_normalized,
}
use ritebook.Kernel.Identifiers.{require_index_name, require_kebab_case_identifier}
use ritebook.Kernel.TextSafety.{normalize_portable_description}
use ritebook.Kernel.PortablePaths.{
  validate_portable_relative_posix_path, posix_parts, last_or_empty,
}
use ritebook.Kernel.CatalogPaths.{validate_catalog_paths}
use ritebook.Kernel.SchemaV1.{max_schema_v1_skill_entries, skill_md}
use ritebook.Kernel.Timestamps.{DatetimeLibrary, format_canonical_utc_timestamp}

pub record SkillEntry : Type 0 where
  pub path : Text
  pub name : Text
  pub skill_file : Text
  pub description : Text

-- `_require_relative_posix_path`
unfoldable pub require_relative_posix_path : Text → String → Bool → Result ValueError Unit
require_relative_posix_path value field_name allow_current_directory = do
  catch (validate_portable_relative_posix_path value field_name allow_current_directory)
      (λ e. unsafe_relative_path field_name)
  ok tt

-- `SkillEntry.__post_init__`
unfoldable pub check_entry : SkillEntry → Result ValueError SkillEntry
unfolding require_relative_posix_path
check_entry entry = do
  require_relative_posix_path entry.path "path" false
  require_relative_posix_path entry.skill_file "skill_file" false
  require_kebab_case_identifier entry.name "Skill entry name"
  raise_if (not (entry.name == last_or_empty (posix_parts entry.path))) not_final_segment
  raise_if (not (entry.skill_file == entry.path ++ skill_md)) not_path_skill_file
  raise_if (entry.description == []) (blank "Skill entry description")
  normalized ← normalize_portable_description entry.description "Skill entry description"
  raise_if (not (normalized == entry.description)) (not_normalized "Skill entry description")
  ok entry

abbrev pub by_entry_path : SkillEntry → SkillEntry → Bool
by_entry_path a b = text_leb a.path b.path

-- One member of a document's object with a text.
abbrev pub entry_to_json : SkillEntry → Json
entry_to_json entry = object (
    member (codes "name") (string entry.name) (
      member (codes "path") (string entry.path) (
        member (codes "skill_file") (string entry.skill_file)
          (member (codes "description") (string entry.description) no_members))))

module _ (D : DatetimeLibrary) where
  pub record SkillCatalog : Type 0 where
    pub index_name : Text
    pub generated_at : D.Datetime
    pub skills_root : Text
    pub skills : List SkillEntry

  -- `SkillCatalog.__post_init__`, which sorts the skills
  unfoldable pub check_catalog : SkillCatalog → Result ValueError SkillCatalog
  unfolding require_relative_posix_path
  check_catalog catalog = do
    format_canonical_utc_timestamp D catalog.generated_at "Catalog generation timestamp"
    require_index_name catalog.index_name "Published index name"
    require_relative_posix_path catalog.skills_root "skills_root" true
    raise_if (ltb max_schema_v1_skill_entries (length catalog.skills)) too_many_entries
    let skills = sorted by_entry_path catalog.skills
    validate_catalog_paths (map (λ (skill : SkillEntry). skill.path) skills)
    ok (record catalog { skills = skills })

  -- `SkillCatalog.create`
  unfoldable pub create :
      Text → D.Datetime → Text → List SkillEntry → Result ValueError SkillCatalog
  unfolding check_catalog
  create index_name generated_at skills_root skills = check_catalog (record {
    index_name = index_name;
    generated_at = generated_at;
    skills_root = skills_root;
    skills = sorted by_entry_path skills;
  })

  abbrev pub document_of : SkillCatalog → Text → Json
  document_of catalog generated_at = object (
      member (codes "schema_version") (natural 1) (
        member (codes "index")
          (object (member (codes "name") (string catalog.index_name) no_members))
          (member (codes "generated_at") (string generated_at) (
            member (codes "skills_root") (string catalog.skills_root) (
              member (codes "skills") (array (to_items (map entry_to_json catalog.skills)))
                no_members)))))

  -- `_catalog_to_json`
  unfoldable pub catalog_to_json : SkillCatalog → Result ValueError Json
  catalog_to_json catalog = do
    generated_at ← format_canonical_utc_timestamp D catalog.generated_at "generated_at"
    ok (document_of catalog generated_at)
