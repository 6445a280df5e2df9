-- ===== src/Installation/Records.antt =====
-- The DTOs of skill_installation/application/dtos/install_skill.py that the workflows pass round.
use ritebook.Prelude.{ℕ, Bool, ◌&&◌, ◌||◌, not, Option, none, some, List, String, Result, ok, all}
use ritebook.Prelude.{◌≡◌, arith, leb, length, ◌==◌, nat_eq, list_eq, ◌>>◌, raise_if}
use ritebook.Text.{Text, codes, starts_with, remove_prefix}
use ritebook.Kernel.Errors.{ValueError, not_object_id, not_digest, unsupported_schema_version}
use ritebook.Kernel.Identifiers.{require_index_name, require_kebab_case_identifier}
use ritebook.Kernel.GitBranches.{require_canonical_git_branch}
use ritebook.Installation.References.{SkillReference, parse, require_non_empty}

pub data InstallationWorkflow : Type 0 where
  direct sync : InstallationWorkflow

pub data InstallationStatus : Type 0 where
  materialized local_changes retained : InstallationStatus

pub record SkillRequirement : Type 0 where
  pub name : Text
  pub target : Option Text
  pub target_path : Option Text

pub record SkillRequirements : Type 0 where
  pub targets : List (Text × Text)
  pub skills : List SkillRequirement

pub record RegisteredSkillIndex : Type 0 where
  pub name : Text
  pub source : Text
  pub source_type : Text
  pub source_revision : Text
  pub source_branch : Text
  pub index_digest : Text
  pub source_cache_path : Option Text
  pub cached_index_path : Text
  pub index_schema_version : ℕ

pub record CommittedSkillHeader : Type 0 where
  pub name : Text
  pub description : Text

pub record InstallableSkill : Type 0 where
  pub name : Text
  pub path : Text
  pub skill_file : Text
  pub description : Text
  pub source_root : Text

pub record ResolvedSkillSource : Type 0 where
  pub source : Text
  pub source_type : Text
  pub repository_path : Text
  pub source_revision : Text
  pub source_branch : Text
  pub index_digest : Text

pub record PlannedInstallTarget : Type 0 where
  pub requested_target : Text
  pub canonical_target : Text

pub record GeneratedStateFile : Type 0 where
  pub path : Text
  pub content : Text
  pub private : Bool
  pub expected_digest : Option Text

pub record StagedSkillTree : Type 0 where
  pub staged_path : Text
  pub cleanup_path : Text
  pub installed_tree_digest : Text

pub record TargetInspection : Type 0 where
  pub canonical_target : Text
  pub exists : Bool
  pub installed_tree_digest : Option Text

pub record OwnedInstallation : Type 0 where
  pub workflow : InstallationWorkflow
  pub requirement : Text
  pub index_name : Text
  pub skill_name : Text
  pub target : Text
  pub target_id : Text
  pub canonical_target : Text
  pub source : Text
  pub source_type : Text
  pub source_revision : Text
  pub source_branch : Text
  pub index_digest : Text
  pub index_schema_version : ℕ
  pub skill_path : Text
  pub skill_file : Text
  pub installed_tree_digest : Text
  pub desired : Bool
  pub status : InstallationStatus
  pub target_ref : Option Text

pub record InstallationStateSnapshot : Type 0 where
  pub entries : List OwnedInstallation
  pub digest : Option Text

pub record ReconciliationIssue : Type 0 where
  pub code : Text
  pub target : Text
  pub detail : Text
  pub requirement : Option Text

-- `_DesiredInstall` of install_from_requirements.py
pub record DesiredInstall : Type 0 where
  pub reference : SkillReference
  pub portable_target : Text
  pub target_ref : Option Text
  pub index : RegisteredSkillIndex
  pub skill : InstallableSkill
  pub source : ResolvedSkillSource
  pub planned_target : PlannedInstallTarget

-- [0-9a-f]
abbrev is_hex : ℕ → Bool
is_hex c = leb b'0' c && leb c b'9' || leb b'a' c && leb c b'f'

-- GIT_OBJECT_ID_PATTERN, `(?:[0-9a-f]{40}|[0-9a-f]{64})`
unfoldable pub require_source_revision : Text → Result ValueError Unit
require_source_revision value =
    raise_if (not (all is_hex value && (length value == 40 || length value == 64)))
      (not_object_id "Source revision")

-- INDEX_DIGEST_PATTERN, `sha256:[0-9a-f]{64}`
unfoldable pub require_index_digest : Text → Result ValueError Unit
require_index_digest value =
    let hex = remove_prefix value (codes "sha256:") in
    raise_if (not (starts_with value (codes "sha256:") && all is_hex hex && length hex == 64))
      (not_digest "Index digest")

unfoldable pub require_optional_non_empty : Option Text → String → Result ValueError Unit
require_optional_non_empty none field_name = ok tt
require_optional_non_empty (some value) field_name = require_non_empty value field_name

unfoldable pub require_optional_digest : Option Text → Result ValueError Unit
unfolding require_index_digest
require_optional_digest none = ok tt
require_optional_digest (some value) = require_index_digest value

-- `OwnedInstallation.__post_init__`
unfoldable pub check_owned_installation : OwnedInstallation → Result ValueError OwnedInstallation
unfolding require_source_revision require_index_digest require_optional_non_empty
check_owned_installation o = do
  parse o.requirement
  require_index_name o.index_name "Local alias"
  require_kebab_case_identifier o.skill_name "Skill name"
  require_non_empty o.target "Portable target"
  require_index_digest o.target_id
  require_non_empty o.canonical_target "Canonical target"
  require_non_empty o.source "Index source"
  require_non_empty o.source_type "Index source type"
  require_source_revision o.source_revision
  require_canonical_git_branch o.source_branch "Source branch"
  require_index_digest o.index_digest
  require_non_empty o.skill_path "Skill path"
  require_non_empty o.skill_file "Skill file"
  require_index_digest o.installed_tree_digest
  require_optional_non_empty o.target_ref "Target reference"
  raise_if (not (o.index_schema_version == 1)) unsupported_schema_version
  ok o

abbrev pub check_requirement : Option Text → Result ValueError Unit
check_requirement none = ok tt
check_requirement (some requirement) = parse requirement >> ok tt

-- `ReconciliationIssue.__post_init__`
unfoldable pub check_reconciliation_issue :
    ReconciliationIssue → Result ValueError ReconciliationIssue
check_reconciliation_issue i = do
  require_kebab_case_identifier i.code "Issue code"
  require_non_empty i.target "Issue target"
  require_non_empty i.detail "Issue detail"
  check_requirement i.requirement
  ok i

-- The checks return what they are given.
pub check_owned_installation-eq-ok :
    (o e : OwnedInstallation) → check_owned_installation o ≡ ok e → o ≡ e
unfolding check_owned_installation
check_owned_installation-eq-ok o e h = ground arith
