-- ===== src/Contribution/Records.antt =====
-- skill_contribution/application/dtos/publish_skill_change.py
use ritebook.Prelude.{
  ℕ, Bool, true, false, ◌&&◌, ◌||◌, not, [], Option, none, some, String, Result, ok, err, all, any,
  length, ltb, leb,
}
use ritebook.Prelude.{◌==◌, nat_eq, list_eq, ◌>>=◌, ◌>>◌, raise_if}
use ritebook.Text.{Text, codes, split, split_once, starts_with, ends_with, has_sub, remove_prefix}
use ritebook.Kernel.Errors.{
  ValueError, empty_value, unqualified_reference, not_object_id, not_digest, unsafe_relative_path,
  not_positive, unexpected_changed_files, missing_prepared, unexpected_prepared,
}
use ritebook.Kernel.Identifiers.{require_index_name, require_kebab_case_identifier}
use ritebook.Kernel.GitBranches.{require_canonical_git_branch}
use ritebook.Kernel.CatalogPaths.{validate_catalog_path}
use ritebook.Kernel.PortablePaths.{posix_parts}

pub data SkillChangeStatus : Type 0 where
  no_changes changed upstream_changed : SkillChangeStatus

pub record ContributionSkillReference : Type 0 where
  pub requirement : Text
  pub index_name : Text
  pub skill_selector : Text
  pub skill_name : Text

pub record ContributionLockfileEntry : Type 0 where
  pub requirement : Text
  pub index_name : Text
  pub skill_name : Text
  pub target : Text
  pub source : Text
  pub source_type : Text
  pub source_revision : Text
  pub source_branch : Text
  pub index_digest : Text
  pub skill_path : Text
  pub skill_file : Text
  pub index_schema_version : ℕ
  pub installed_tree_digest : Text

pub record ContributionWorkspace : Type 0 where
  pub checkout_path : Text
  pub source_skill_path : Text
  pub current_base_revision : Text
  pub locked_revision : Text
  pub has_usable_origin : Bool

pub record SkillChangeComparison : Type 0 where
  pub status : SkillChangeStatus
  pub installed_path : Text
  pub source_skill_path : Text
  pub changed_file_count : ℕ

pub record PreparedContribution : Type 0 where
  pub skill_reference : Text
  pub checkout_path : Text
  pub branch_name : Text
  pub commit_hash : Text
  pub push_command : Option Text

pub record PublishSkillChangeCommand : Type 0 where
  pub skill_reference : Text
  pub lockfile_path : Option Text
  pub contribution_root : Option Text

pub record PublishSkillChangeResult : Type 0 where
  pub skill_reference : Text
  pub status : SkillChangeStatus
  pub prepared_contribution : Option PreparedContribution

unfoldable pub require_non_empty : Text → String → Result ValueError Unit
require_non_empty value field_name = raise_if (value == []) (empty_value field_name)

unfoldable pub require_optional_non_empty : Option Text → String → Result ValueError Unit
require_optional_non_empty none field_name = ok tt
require_optional_non_empty (some value) field_name = require_non_empty value field_name

-- [0-9a-f]
abbrev is_hex_digit : ℕ → Bool
is_hex_digit c = leb b'0' c && leb c b'9' || leb b'a' c && leb c b'f'

-- GIT_OBJECT_ID_PATTERN.fullmatch(value)
unfoldable pub matches_git_object_id : Text → Bool
matches_git_object_id value = all is_hex_digit value && (length value == 40 || length value == 64)

-- INDEX_DIGEST_PATTERN.fullmatch(value)
unfoldable pub matches_index_digest : Text → Bool
matches_index_digest value =
    let hex = remove_prefix value (codes "sha256:") in
    starts_with value (codes "sha256:") && all is_hex_digit hex && length hex == 64

-- [A-Za-z0-9._-]
abbrev is_safe_character : ℕ → Bool
is_safe_character c =
    leb b'A' c && leb c b'Z'
    || leb b'a' c && leb c b'z'
    || leb b'0' c && leb c b'9'
    || c == b'.'
    || c == b'_'
    || c == b'-'

-- SAFE_FILE_SEGMENT_PATTERN.fullmatch(part)
unfoldable pub matches_safe_segment : Text → Bool
matches_safe_segment part = not (part == []) && all is_safe_character part

unfoldable pub require_safe_repository_path : Text → String → Result ValueError Unit
unfolding require_non_empty matches_safe_segment
require_safe_repository_path value field_name = do
  require_non_empty value field_name
  raise_if
      (starts_with value (codes "/")
        || ends_with value (codes "/")
        || has_sub value (codes "//")
        || has_sub value (codes "\\")
        || any (λ part. part == codes "." || part == codes "..") (split b'/' value))
      (unsafe_relative_path field_name)
  raise_if (starts_with value (codes "/") || posix_parts value == [])
      (unsafe_relative_path field_name)
  raise_if (any (λ part. not (matches_safe_segment part)) (posix_parts value))
      (unsafe_relative_path field_name)

-- `ContributionSkillReference.__post_init__`
unfoldable pub check_reference :
    ContributionSkillReference → Result ValueError ContributionSkillReference
unfolding require_non_empty
check_reference r = do
  require_non_empty r.requirement "Skill reference"
  require_index_name r.index_name "Local alias"
  validate_catalog_path r.skill_selector
  require_kebab_case_identifier r.skill_name "Skill name"
  ok r

-- The rest of `parse`, after the split at the first slash.
unfoldable pub parse_selector :
    Text → Option (Text × Text) → Result ValueError ContributionSkillReference
unfolding check_reference
parse_selector value none = err unqualified_reference
parse_selector value (some (index_name, skill_selector)) = do
  catalog_path ← validate_catalog_path skill_selector
  check_reference (record {
    requirement = value;
    index_name = index_name;
    skill_selector = skill_selector;
    skill_name = catalog_path.skill_name;
  })

-- `ContributionSkillReference.parse`
unfoldable pub parse : Text → Result ValueError ContributionSkillReference
unfolding parse_selector
parse value = do
  require_non_empty value "Skill reference"
  parse_selector value (split_once b'/' value)

-- `PublishSkillChangeCommand.__post_init__`
unfoldable pub check_command :
    PublishSkillChangeCommand → Result ValueError PublishSkillChangeCommand
unfolding require_optional_non_empty
check_command c = do
  parse c.skill_reference
  require_optional_non_empty c.lockfile_path "Lockfile path"
  require_optional_non_empty c.contribution_root "Contribution root"
  ok c

-- `ContributionLockfileEntry.__post_init__`
unfoldable pub check_lockfile_entry :
    ContributionLockfileEntry → Result ValueError ContributionLockfileEntry
check_lockfile_entry e = do
  parse e.requirement
  require_index_name e.index_name "Local alias"
  require_kebab_case_identifier e.skill_name "Skill name"
  require_non_empty e.target "Installed skill target"
  require_non_empty e.source "Index source"
  require_non_empty e.source_type "Index source type"
  raise_if (not (matches_git_object_id e.source_revision)) (not_object_id "Source revision")
  require_canonical_git_branch e.source_branch "Source branch"
  raise_if (not (matches_index_digest e.index_digest)) (not_digest "Index digest")
  raise_if (not (matches_index_digest e.installed_tree_digest)) (not_digest "Installed tree digest")
  require_safe_repository_path e.skill_path "Skill path"
  require_safe_repository_path e.skill_file "Skill file"
  raise_if (ltb e.index_schema_version 1) (not_positive "Index schema version")
  ok e

-- `ContributionWorkspace.__post_init__`
unfoldable pub check_workspace : ContributionWorkspace → Result ValueError ContributionWorkspace
check_workspace w = do
  require_non_empty w.checkout_path "Checkout path"
  require_safe_repository_path w.source_skill_path "Source skill path"
  require_non_empty w.current_base_revision "Current base revision"
  require_non_empty w.locked_revision "Locked revision"
  ok w

-- `status is SkillChangeStatus.CHANGED` and `... NO_CHANGES`
abbrev pub is_changed : SkillChangeStatus → Bool
is_changed changed = true
is_changed _ = false

abbrev pub is_no_changes : SkillChangeStatus → Bool
is_no_changes no_changes = true
is_no_changes _ = false

-- `SkillChangeComparison.__post_init__`; a count is not negative.
unfoldable pub check_comparison : SkillChangeComparison → Result ValueError SkillChangeComparison
check_comparison c = do
  require_non_empty c.installed_path "Installed path"
  require_safe_repository_path c.source_skill_path "Source skill path"
  raise_if (is_no_changes c.status && not (c.changed_file_count == 0)) unexpected_changed_files
  ok c

-- `PreparedContribution.__post_init__`
unfoldable pub check_prepared : PreparedContribution → Result ValueError PreparedContribution
check_prepared p = do
  parse p.skill_reference
  require_non_empty p.checkout_path "Checkout path"
  require_non_empty p.branch_name "Branch name"
  require_non_empty p.commit_hash "Commit hash"
  require_optional_non_empty p.push_command "Push command"
  ok p

abbrev pub is_prepared : Option PreparedContribution → Bool
is_prepared none = false
is_prepared (some p) = true

-- `PublishSkillChangeResult.__post_init__`
unfoldable pub check_result : PublishSkillChangeResult → Result ValueError PublishSkillChangeResult
check_result r = do
  parse r.skill_reference
  raise_if (is_changed r.status && not (is_prepared r.prepared_contribution)) missing_prepared
  raise_if (not (is_changed r.status) && is_prepared r.prepared_contribution) unexpected_prepared
  ok r
