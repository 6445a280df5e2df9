-- ===== src/Installation/Direct.antt =====
-- skill_installation/application/use_cases/install_skill.py: the installation of one skill.
-- Here its decisions and records; Execute has the run against the ports.
use ritebook.Prelude.{
  Bool, true, false, not, List, [], ◌∷◌, Option, none, some, Result, ok, err, ◌==◌, nat_eq, list_eq,
  option_eq, ◌++◌, if◌then◌else◌, filter, catch,
}
use ritebook.Prelude.Order.{text_leb}
use ritebook.Prelude.Sorting.{sorted}
use ritebook.Prelude.{◌>>=◌}
use ritebook.Text.{Text, codes}
use ritebook.Installation.Errors.{
  SkillInstallationError, Exception, installation, value_error, InvalidReference, unparsable,
  invalid_skill_reference, unknown_install_index, unknown_install_skill, unmanaged_install_target,
  locally_modified_install_target, existing_install_target, committed_skill_metadata_mismatch,
}
use ritebook.Installation.References.{SkillReference, parse}
use ritebook.Installation.Records.{
  direct, materialized, RegisteredSkillIndex, InstallableSkill, ResolvedSkillSource,
  CommittedSkillHeader, PlannedInstallTarget, TargetInspection, StagedSkillTree, GeneratedStateFile,
  InstallationStateSnapshot, OwnedInstallation, check_owned_installation,
}
use ritebook.Installation.Targets.{repository_relative_source_path}
pub mod Execute
pub mod Ownership

pub record InstallSkillCommand : Type 0 where
  pub skill_reference : Text
  pub target : Text
  pub force : Bool
  pub registry_path : Option Text
  pub installation_registry_path : Option Text

pub record InstallSkillResult : Type 0 where
  pub requirement : Text
  pub target : Text
  pub ownership_entry : OwnedInstallation

-- `_find_skill`
unfoldable pub find_skill :
    SkillReference → List InstallableSkill → Result Exception InstallableSkill
find_skill reference [] = err (installation (unknown_install_skill reference.requirement))
find_skill reference (skill ∷ skills) =
    if skill.path == reference.skill_path then ok skill else find_skill reference skills

-- `_validate_committed_metadata`
unfoldable pub validate_committed_metadata :
    InstallableSkill → CommittedSkillHeader → Result Exception Unit
validate_committed_metadata skill header =
    if header.name == skill.name
    then (if header.description == skill.description
        then ok tt
        else err (installation (committed_skill_metadata_mismatch skill.path)))
    else err (installation (committed_skill_metadata_mismatch skill.path))

-- `_owner_for_target`
unfoldable pub owner_for_target : List OwnedInstallation → Text → Option OwnedInstallation
owner_for_target [] target = none
owner_for_target (entry ∷ entries) target =
    if entry.canonical_target == target then some entry else owner_for_target entries target

abbrev refuse : Text → Option Text → Option OwnedInstallation → SkillInstallationError
refuse target current_digest none = unmanaged_install_target target
refuse target current_digest (some owner) =
    if current_digest == some owner.installed_tree_digest
    then existing_install_target target
    else locally_modified_install_target target

-- `_replacement_digest`
unfoldable pub replacement_digest :
    Text → Bool → Option Text → Option OwnedInstallation → Bool → Result Exception (Option Text)
replacement_digest target exists current_digest owner force =
    if not exists
    then ok none
    else if force
    then ok current_digest
    else err (installation (refuse target current_digest owner))

-- The entries that a commit writes: the new one in place of those for its target.
unfoldable pub updated_ownership :
    OwnedInstallation → List OwnedInstallation → List OwnedInstallation
updated_ownership entry ownership =
    sorted (λ (a b : OwnedInstallation). text_leb a.target_id b.target_id)
      (entry
        ∷ filter
            (λ (existing : OwnedInstallation).
              not (existing.canonical_target == entry.canonical_target))
            ownership)

-- `_owned_entry`
unfoldable pub direct_entry :
    (Text → Text)
    → SkillReference
    → PlannedInstallTarget
    → ResolvedSkillSource
    → InstallableSkill
    → StagedSkillTree
    → Result Exception OwnedInstallation
direct_entry sha256 reference target source skill staged = do
  skill_path ← repository_relative_source_path skill.source_root skill.path
  skill_file ← repository_relative_source_path skill.source_root skill.skill_file
  catch
      (check_owned_installation (record {
        workflow = direct;
        requirement = reference.requirement;
        index_name = reference.index_name;
        skill_name = reference.skill_name;
        target = target.requested_target;
        target_id = codes "sha256:" ++ sha256 target.canonical_target;
        canonical_target = target.canonical_target;
        source = source.source;
        source_type = source.source_type;
        source_revision = source.source_revision;
        source_branch = source.source_branch;
        index_digest = source.index_digest;
        index_schema_version = 1;
        skill_path = skill_path;
        skill_file = skill_file;
        installed_tree_digest = staged.installed_tree_digest;
        desired = true;
        status = materialized;
        target_ref = none;
      }))
      value_error
