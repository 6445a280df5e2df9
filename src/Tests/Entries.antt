-- ===== src/Tests/Entries.antt =====
-- Inputs for the properties of the registry's document and of the linter.
use ritebook.Prelude.{true, false, ◌≡◌, refl, [], none, some, ok, list_beq}
use ritebook.Text.{
  Text, codes, strip, is_space, starts_with, ends_with, has_sub, split, drop, remove_prefix,
}
use ritebook.Json.{object}
use ritebook.Kernel.GitBranches.{require_canonical_git_branch}
use ritebook.Prelude.{filter}
use ritebook.Kernel.CatalogPaths.{validate_catalog_path}
use ritebook.Kernel.PortablePaths.{is_malformed_literal, posix_parts}
use ritebook.Kernel.GitSources.{require_safe_persisted_source}
use ritebook.Kernel.Identifiers.{
  require_index_name, is_index_name, is_alnum, ends_alnum, valid_skill_name,
  is_kebab_case_identifier,
}
use ritebook.Kernel.TextSafety.{
  normalize_portable_description, contains_terminal_control_characters,
  contains_unicode_surrogate_code_points, is_terminal_control, is_unicode_surrogate,
}
use ritebook.Installation.References.{require_non_empty}
use ritebook.Installation.Records.{require_source_revision, require_index_digest}
use ritebook.Kernel.GitSources.{UrlLibrary}
use ritebook.Kernel.Identifiers.{require_kebab_case_identifier, matches_kebab}
use ritebook.Text.{split_once}
use ritebook.Installation.References.{parse, parse_parts, checked_reference}
use ritebook.Installation.Records.{
  OwnedInstallation, direct, materialized, check_owned_installation,
}
use ritebook.Installation.State.{
  common_members, with_target_ref, last_members, ownership_entry_to_json, owned_from_json,
}
use ritebook.Installation.State.RoundTrip.{owned_from_json-ownership_entry_to_json}
use ritebook.Registry.Records.{RegisteredIndex, git_url, explicit, check_registered}
use ritebook.Registry.Document.{CoercionLibrary, members_of, entry_to_json, entry_from_json}
use ritebook.Registry.Document.RoundTrip.{entry_from_json-entry_to_json}
use ritebook.Linter.{
  ParsedSkillHeader, Entries, mapping, text, text_key, entry, no_entries, field, validate_header,
}
use ritebook.Linter.Publishable.{normalize_portable_description-validate_header}

abbrev coercions : CoercionLibrary
coercions = record {
  urls = record { has_credentials = λ source. some false };
  str = λ value. [];
  int = λ value. none;
  path_of = λ value. none;
}

abbrev registered_team : RegisteredIndex
registered_team = record {
  name = codes "team";
  published_name = codes "team";
  alias_origin = explicit;
  source = codes "https://example.org/team.git";
  source_type = git_url;
  source_revision = codes "0123456789012345678901234567890123456789";
  source_branch = codes "refs/heads/main";
  index_digest = codes "sha256:0000000000000000000000000000000000000000000000000000000000000000";
  source_cache_path = some (codes "/cache/sources/1");
  cached_index_path = codes "/cache/indexes/team/0/ritebook-index.json";
  source_schema_version = 1;
  skill_count = 3;
  added_at = codes "2026-01-02T03:04:05Z";
  updated_at = codes "2026-01-02T03:04:05Z";
}

team_is_valid : check_registered registered_team ≡ ok registered_team
unfolding check_registered require_index_name is_index_name is_alnum ends_alnum require_non_empty
    require_source_revision require_canonical_git_branch require_index_digest list_beq starts_with
    ends_with has_sub split drop remove_prefix
team_is_valid = refl

entry_from_json-entry_to_json_example :
    entry_from_json coercions (object (members_of registered_team)) ≡ ok registered_team
unfolding entry_to_json require_safe_persisted_source list_beq has_sub starts_with
entry_from_json-entry_to_json_example =
    entry_from_json-entry_to_json coercions registered_team team_is_valid refl

abbrev fields : Entries
fields =
    entry (text_key (codes "name")) (text (codes "review"))
      (entry (text_key (codes "description")) (text (codes " Reviews. ")) no_entries)

abbrev header : ParsedSkillHeader
header = record {
  skill_file = codes "review/SKILL.md";
  expected_name = codes "review";
  frontmatter = mapping fields;
}

normalize_portable_description-validate_header_example :
    (entries : Entries) × (description : Text) × (mapping fields ≡ mapping entries)
    × (field (codes "name") entries ≡ some (text (codes "review")))
    × (is_kebab_case_identifier (codes "review") ≡ true)
    × (field (codes "description") entries ≡ some (text description))
    × (normalize_portable_description description "description" ≡ ok (strip description))
unfolding validate_header field valid_skill_name ends_alnum is_alnum list_beq strip is_space
    contains_terminal_control_characters contains_unicode_surrogate_code_points is_terminal_control
    is_unicode_surrogate has_sub starts_with
normalize_portable_description-validate_header_example =
    normalize_portable_description-validate_header header "description" refl

abbrev owned : OwnedInstallation
owned = record {
  workflow = direct;
  requirement = codes "team/review";
  index_name = codes "team";
  skill_name = codes "review";
  target = codes "./skills/review";
  target_id = codes "sha256:0000000000000000000000000000000000000000000000000000000000000000";
  canonical_target = codes "/work/skills/review";
  source = codes "https://example.org/team.git";
  source_type = codes "git_url";
  source_revision = codes "0123456789012345678901234567890123456789";
  source_branch = codes "refs/heads/main";
  index_digest = codes "sha256:0000000000000000000000000000000000000000000000000000000000000000";
  index_schema_version = 1;
  skill_path = codes "review";
  skill_file = codes "review/SKILL.md";
  installed_tree_digest =
      codes "sha256:0000000000000000000000000000000000000000000000000000000000000000";
  desired = true;
  status = materialized;
  target_ref = some (codes "agents");
}

abbrev urls : UrlLibrary
urls = record { has_credentials = λ source. some false }

owned_is_valid : check_owned_installation owned ≡ ok owned
unfolding validate_catalog_path is_malformed_literal posix_parts filter check_owned_installation
    parse parse_parts checked_reference require_kebab_case_identifier is_kebab_case_identifier
    matches_kebab split_once require_index_name is_index_name is_alnum ends_alnum require_non_empty
    require_source_revision require_canonical_git_branch require_index_digest list_beq starts_with
    ends_with has_sub split drop remove_prefix
owned_is_valid = refl

owned_from_json-ownership_entry_to_json_example :
    owned_from_json urls
      (object (common_members owned (with_target_ref (some (codes "agents")) (last_members owned))))
    ≡ ok owned
unfolding ownership_entry_to_json require_safe_persisted_source list_beq has_sub starts_with
owned_from_json-ownership_entry_to_json_example =
    owned_from_json-ownership_entry_to_json urls owned owned_is_valid refl
