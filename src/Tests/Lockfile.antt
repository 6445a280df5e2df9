-- ===== src/Tests/Lockfile.antt =====
-- The properties of the documents of a sync, at one installed skill.
use ritebook.Prelude.{
  ◌≡◌, refl, ◌++◌, Bool, true, false, [], ◌∷◌, none, some, ok, list_beq, traverse, filter,
}
use ritebook.Prelude.Sorting.{sorted, insert_sorted}
use ritebook.Text.{
  Text, codes, split, split_once, starts_with, ends_with, has_sub, drop, remove_prefix, join,
}
use ritebook.Json.{Json}
use ritebook.Kernel.CatalogPaths.{validate_catalog_path}
use ritebook.Kernel.GitBranches.{require_canonical_git_branch}
use ritebook.Kernel.GitSources.{require_safe_persisted_source}
use ritebook.Kernel.Identifiers.{
  require_index_name, is_index_name, is_alnum, ends_alnum, require_kebab_case_identifier,
  is_kebab_case_identifier, matches_kebab,
}
use ritebook.Kernel.PortablePaths.{is_malformed_literal, posix_parts}
use ritebook.Installation.References.{require_non_empty, parse, parse_parts, checked_reference}
use ritebook.Installation.Records.{
  OwnedInstallation, sync, materialized, check_owned_installation, require_source_revision,
  require_index_digest, require_optional_digest, GeneratedStateFile,
}
use ritebook.Installation.Targets.{posix_text}
use ritebook.Installation.State.{
  require_safe_source, ownership_entry_to_json, common_members, with_target_ref, last_members,
}
use ritebook.Installation.State.Documents.{
  StateLibrary, lock_root, ownership_root, lock_entry_to_json, target_id_of,
  require_portable_source, lock_document, lockfile, ownership_document, ownership_file,
  check_generated_state_file, is_complete,
}
use ritebook.Installation.State.Reading.{
  bytes, have_distinct_targets, safe_portable_target, read_ownership, read_lockfile_ownership,
}
use ritebook.Installation.State.Snapshots.{kept}
use ritebook.Installation.State.OwnershipFile.{IsReadable, read_ownership-ownership_file}
use ritebook.Installation.State.LockEntries.{IsLocked}
use ritebook.Installation.State.LockFile.{read_lockfile_ownership-lockfile}
use ritebook.Contribution.Records.{
  ContributionSkillReference, require_safe_repository_path, matches_safe_segment,
}
use ritebook.Contribution.Lockfile.{decoded, resolve_entry}
use ritebook.Contribution.Written.{contribution_entry, first_contributable, IsShared}
use ritebook.Contribution.Resolution.{resolve_entry-lock_document, reader_of}

abbrev zeros : Text
zeros = codes "0000000000000000000000000000000000000000000000000000000000000000"

abbrev installed : OwnedInstallation
installed = record {
  workflow = sync;
  requirement = codes "team/review";
  index_name = codes "team";
  skill_name = codes "review";
  target = codes "skills/review";
  target_id = codes "sha256:" ++ zeros;
  canonical_target = codes "/work/skills/review";
  source = codes "https://example.org/team.git";
  source_type = codes "git_url";
  source_revision = codes "0123456789012345678901234567890123456789";
  source_branch = codes "refs/heads/main";
  index_digest = codes "sha256:" ++ zeros;
  index_schema_version = 1;
  skill_path = codes "review";
  skill_file = codes "review/SKILL.md";
  installed_tree_digest = codes "sha256:" ++ zeros;
  desired = true;
  status = materialized;
  target_ref = some (codes "agents");
}

abbrev locked : Json
locked = lock_root (codes "ritebook.toml") true (lock_entry_to_json installed ∷ []) []

abbrev owned : Json
owned = ownership_root (
    Json.object
      (common_members installed (with_target_ref (some (codes "agents")) (last_members installed)))
    ∷ [])

-- A library that knows one document.
abbrev library : Json → StateLibrary
library document = record {
  urls = record { has_credentials = λ source. some false };
  float_equals = λ literal n. false;
  sha256 = λ value. zeros;
  root_of = λ file. codes "/work";
  expanduser = λ path. path;
  json_bytes = λ value. codes "{}";
  loads = λ content. some document;
  sha256_bytes = λ content. zeros;
  join_parts = λ root parts. codes "/work/skills/review";
}

abbrev file_at : Text → Bool → GeneratedStateFile
file_at path private = record {
  path = path;
  content = codes "{}";
  private = private;
  expected_digest = none;
}

installed_is_valid : check_owned_installation installed ≡ ok installed
unfolding validate_catalog_path is_malformed_literal posix_parts filter check_owned_installation
    parse parse_parts checked_reference require_kebab_case_identifier is_kebab_case_identifier
    matches_kebab split_once require_index_name is_index_name is_alnum ends_alnum require_non_empty
    require_source_revision require_canonical_git_branch require_index_digest list_beq starts_with
    ends_with has_sub split drop remove_prefix
installed_is_valid = refl

installed-IsLocked : IsLocked (library locked) (codes "/work") installed
unfolding safe_portable_target posix_parts posix_text split join filter list_beq starts_with has_sub
    target_id_of
installed-IsLocked = record {
  valid = installed_is_valid;
  workflow = refl;
  portable = record {
    normalised = refl;
    relative = refl;
    descending = refl;
    proper = refl;
    plain = refl;
  };
  target_id = refl;
  canonical_target = refl;
}

lock_is_written :
    lock_document (library locked) (installed ∷ []) [] (codes "ritebook.toml") ≡ ok locked
unfolding lock_document traverse require_portable_source require_safe_source
    require_safe_persisted_source sorted insert_sorted is_complete list_beq has_sub starts_with
lock_is_written = refl

ownership_is_written : ownership_document (library owned) (installed ∷ []) ≡ ok owned
unfolding ownership_document ownership_entry_to_json traverse require_safe_source
    require_safe_persisted_source sorted insert_sorted list_beq has_sub starts_with
ownership_is_written = refl

readable : (document : Json) → IsReadable (library document) document
unfolding require_index_digest starts_with remove_prefix drop
readable document = record { loads = refl; digest = refl }

read_lockfile_ownership-lockfile_example :
    read_lockfile_ownership (library locked) (bytes (codes "{}")) (codes "ritebook.toml")
    ≡ ok (record { entries = kept (installed ∷ []); digest = some (codes "sha256:" ++ zeros) })
unfolding lockfile check_generated_state_file require_non_empty list_beq have_distinct_targets
    require_optional_digest
read_lockfile_ownership-lockfile_example =
    read_lockfile_ownership-lockfile (library locked) (codes "ritebook.toml") (installed ∷ []) []
      (codes "/work/ritebook.lock") (codes "ritebook.toml") locked
      {file = file_at (codes "/work/ritebook.lock") false} (installed-IsLocked, tt) tt refl refl
      lock_is_written (readable locked) (rw lock_is_written refl)

read_ownership-ownership_file_example :
    read_ownership (library owned) (bytes (codes "{}"))
    ≡ ok (record { entries = kept (installed ∷ []); digest = some (codes "sha256:" ++ zeros) })
unfolding ownership_file check_generated_state_file require_non_empty list_beq have_distinct_targets
    require_optional_digest
read_ownership-ownership_file_example =
    read_ownership-ownership_file (library owned) (installed ∷ [])
      (codes "/home/installations.json") none owned
      {file = file_at (codes "/home/installations.json") true} (installed_is_valid, tt) refl
      ownership_is_written (readable owned) (rw ownership_is_written refl)

abbrev review : ContributionSkillReference
review = record {
  requirement = codes "team/review";
  index_name = codes "team";
  skill_selector = codes "review";
  skill_name = codes "review";
}

installed-IsShared : IsShared installed
unfolding require_safe_repository_path matches_safe_segment posix_parts split filter list_beq
    starts_with ends_with has_sub
installed-IsShared = record { valid = installed_is_valid; skill_path = refl; skill_file = refl }

resolve_entry-lock_document_example :
    resolve_entry (reader_of (library locked)) review (decoded locked)
    ≡ ok (contribution_entry installed)
unfolding list_beq sorted insert_sorted first_contributable
resolve_entry-lock_document_example =
    resolve_entry-lock_document (library locked) review (installed ∷ []) [] (codes "ritebook.toml")
      locked (installed-IsShared, tt) tt refl lock_is_written
