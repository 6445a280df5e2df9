-- ===== src/Tests/Documents.antt =====
-- Inputs for the properties of strict JSON, timestamps and the published catalogue.
use ritebook.Prelude.{◌≤◌, ◌≡◌, ◌↔◌, ◌+◌, refl, ℕ, [], ◌∷◌, ◌++◌, some, ok}
use ritebook.Prelude.{nat_eq, list_eq, list_beq, traverse, filter, take}
use ritebook.Prelude.Order.{text_leb}
use ritebook.Prelude.Sorting.{sorted, insert_sorted}
use ritebook.Text.{Text, codes, starts_with, ends_with, has_sub, split, strip, is_space}
use ritebook.Json.{natural, Members, member, no_members}
use ritebook.Kernel.StrictJson.{require_bounded_nesting, object_without_duplicate_members}
use ritebook.Kernel.StrictJson.Nesting.{
  outside, without_strings, openings, closings, require_bounded_nesting_iff,
}
use ritebook.Kernel.StrictJson.Objects.{HasNewKeys, object_without_duplicate_members_iff}
use ritebook.Kernel.Timestamps.{DatetimeLibrary, format_canonical_utc_timestamp}
use ritebook.Kernel.SchemaV1.{read_catalog}
use ritebook.Kernel.Timestamps.{is_canonical_stamp}
use ritebook.Publisher.{
  SkillEntry, SkillCatalog, document_of, check_catalog, check_entry, catalog_to_json,
  require_relative_posix_path,
}
use ritebook.Kernel.Identifiers.{
  require_index_name, is_index_name, is_alnum, is_kebab_case_identifier, matches_kebab,
  require_kebab_case_identifier,
}
use ritebook.Kernel.PortablePaths.{
  validate_portable_relative_posix_path, is_malformed_literal, posix_parts, base_name,
  check_segments, is_portable_segment,
}
use ritebook.Kernel.CatalogPaths.{
  validate_catalog_paths, validate_catalog_path, check_duplicates, check_mixed, child_paths,
  classify, root_paths,
}
use ritebook.Kernel.TextSafety.{
  is_non_portable_character, is_terminal_control, is_unicode_surrogate, require_portable_text,
  normalize_portable_description,
}
use ritebook.Publisher.RoundTrip.{IsCanonical, as_read, read_catalog-catalog_to_json}

nested : Text
nested = codes "[[\"]]]]\"]]"

require_bounded_nesting_iff_example : (require_bounded_nesting nested ≡ ok tt) ↔ (
    (n : ℕ)
    → let before = take n (without_strings outside nested) in
      openings before ≤ 32 + closings before)
require_bounded_nesting_iff_example = require_bounded_nesting_iff nested

abbrev pairs : Members
pairs = member (codes "name") (natural 1) (member (codes "path") (natural 2) no_members)

object_without_duplicate_members_iff_example :
    (object_without_duplicate_members pairs ≡ ok pairs) ↔ (HasNewKeys [] pairs × (pairs ≡ pairs))
object_without_duplicate_members_iff_example = object_without_duplicate_members_iff pairs pairs

-- A clock whose values are their stamps.
abbrev pub stamps : DatetimeLibrary
stamps = record { Datetime = Text; utc_stamp = some; from_utc_stamp = some }

abbrev pub now : Text
now = codes "2026-01-02T03:04:05"

abbrev entry : SkillEntry
entry = record {
  path = codes "skills/review";
  name = codes "review";
  skill_file = codes "skills/review/SKILL.md";
  description = codes "Reviews a change.";
}

abbrev pub catalog : SkillCatalog stamps
catalog = record {
  index_name = codes "team";
  generated_at = now;
  skills_root = codes ".";
  skills = entry ∷ [];
}

now-IsCanonical : IsCanonical stamps now
unfolding is_canonical_stamp list_beq
now-IsCanonical = record { stamp = now; written = refl; shape = refl; read = refl }

catalog-checked : check_catalog stamps catalog ≡ ok catalog
unfolding check_catalog check_entry require_relative_posix_path format_canonical_utc_timestamp
    require_index_name is_index_name validate_portable_relative_posix_path list_beq
    validate_catalog_paths traverse sorted insert_sorted validate_catalog_path is_malformed_literal
    starts_with ends_with has_sub split posix_parts filter check_duplicates check_mixed child_paths
    classify root_paths is_alnum is_kebab_case_identifier matches_kebab base_name check_segments
    is_portable_segment is_non_portable_character is_terminal_control is_unicode_surrogate
    require_portable_text text_leb
catalog-checked = refl

entry-checked : check_entry entry ≡ ok entry
unfolding require_kebab_case_identifier normalize_portable_description strip is_space check_catalog
    check_entry require_relative_posix_path format_canonical_utc_timestamp require_index_name
    is_index_name validate_portable_relative_posix_path list_beq validate_catalog_paths traverse
    sorted insert_sorted validate_catalog_path is_malformed_literal starts_with ends_with has_sub
    split posix_parts filter check_duplicates check_mixed child_paths classify root_paths is_alnum
    is_kebab_case_identifier matches_kebab base_name check_segments is_portable_segment
    is_non_portable_character is_terminal_control is_unicode_surrogate require_portable_text
    text_leb
entry-checked = refl

read_catalog-catalog_to_json_example :
    read_catalog stamps (document_of stamps catalog (now ++ (b'Z' ∷ [])))
    ≡ ok (as_read stamps catalog)
unfolding catalog_to_json format_canonical_utc_timestamp
read_catalog-catalog_to_json_example =
    read_catalog-catalog_to_json stamps catalog catalog
      (document_of stamps catalog (now ++ (b'Z' ∷ []))) catalog-checked (entry-checked, tt)
      now-IsCanonical refl
