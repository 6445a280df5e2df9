-- ===== src/Installation/Direct/Execute.antt =====
-- skill_installation/application/use_cases/install_skill.py: the use case, against its ports.
-- The blocks of `with` and `try` are functions of the action inside.
use ritebook.Prelude.{List, Option, none, some, Result, ok, err, nat_eq, list_eq, option_eq, catch}
use ritebook.Prelude.Actions.{Action, pure, raise, lift, ◌>>=◌, ◌>>◌}
use ritebook.Text.{Text}
use ritebook.Installation.Errors.{
  Exception, installation, unparsable, invalid_skill_reference, unknown_install_index,
}
use ritebook.Installation.References.{SkillReference, parse}
use ritebook.Installation.Records.{
  RegisteredSkillIndex, InstallableSkill, ResolvedSkillSource, CommittedSkillHeader,
  PlannedInstallTarget, TargetInspection, StagedSkillTree, GeneratedStateFile,
  InstallationStateSnapshot, OwnedInstallation,
}
use ritebook.Installation.Direct.{
  InstallSkillCommand, InstallSkillResult, find_skill, validate_committed_metadata,
  owner_for_target, replacement_digest, updated_ownership, direct_entry,
}

-- The ports of the use case. `open`, `rollback` and `finish` surround the block of the transaction.
pub record DirectPorts : Type 1 where
  pub World : Type 0
  pub open_transaction : Action Exception World Unit
  pub rollback : Action Exception World Unit
  pub finish : Action Exception World Unit
  pub replace_tree : Text → Text → Option Text → Action Exception World Unit
  pub commit_state : GeneratedStateFile → Action Exception World Unit
  pub ownership_path : Option Text → Text
  pub read_ownership : Text → Action Exception World InstallationStateSnapshot
  pub ownership_file :
      List OwnedInstallation → Text → Option Text → Action Exception World GeneratedStateFile
  pub get_index : Text → Option Text → Action Exception World (Option RegisteredSkillIndex)
  pub read_skills : Text → Text → Action Exception World (List InstallableSkill)
  pub open_source : RegisteredSkillIndex → Action Exception World ResolvedSkillSource
  pub close_source : ResolvedSkillSource → Action Exception World Unit
  pub validate_committed :
      ResolvedSkillSource → InstallableSkill → Action Exception World CommittedSkillHeader
  pub plan_target : Text → Action Exception World PlannedInstallTarget
  pub inspect_target : PlannedInstallTarget → Action Exception World TargetInspection
  pub stage :
      ResolvedSkillSource
      → InstallableSkill
      → PlannedInstallTarget
      → Action Exception World StagedSkillTree
  pub cleanup_staged : StagedSkillTree → Action Exception World Unit
  -- hashlib.sha256(value.encode()).hexdigest()
  pub sha256 : Text → Text

module _ (P : DirectPorts) where
  -- `finally`: an exception of the cleanup takes the place of the other.
  abbrev after_cleanup :
      {A : Type 0} → Result Exception A → Result Exception Unit → Result Exception A
  after_cleanup r (ok u) = r
  after_cleanup r (err e) = err e

  unfoldable pub ensuring :
      {A : Type 0}
      → Action Exception P.World A
      → Action Exception P.World Unit
      → Action Exception P.World A
  ensuring m cleanup w = let c = cleanup (m w).1 in (after_cleanup (m w).0 c.0, c.1)

  -- the end of the block of a transaction
  abbrev close : {A : Type 0} → Result Exception A → Action Exception P.World A
  close (ok a) = do P.finish; pure a
  close (err e) = do P.rollback; raise e

  unfoldable pub with_transaction :
      {A : Type 0} → Action Exception P.World A → Action Exception P.World A
  with_transaction body = do P.open_transaction; λ w. close (body w).0 (body w).1

  -- The inner `try` block: the tree is replaced and the record committed.
  unfoldable pub place_and_record :
      SkillReference
      → InstallationStateSnapshot
      → Text
      → PlannedInstallTarget
      → ResolvedSkillSource
      → InstallableSkill
      → StagedSkillTree
      → Option Text
      → Action Exception P.World OwnedInstallation
  unfolding direct_entry updated_ownership
  place_and_record reference snapshot ownership_path target source skill staged expected_digest = do
    P.replace_tree staged.staged_path target.canonical_target expected_digest
    entry ← lift (direct_entry P.sha256 reference target source skill staged)
    state_file ←
        P.ownership_file (updated_ownership entry snapshot.entries) ownership_path snapshot.digest
    P.commit_state state_file
    pure entry

  -- The block of the source.
  unfoldable pub install_from_source :
      InstallSkillCommand
      → SkillReference
      → InstallationStateSnapshot
      → Text
      → RegisteredSkillIndex
      → ResolvedSkillSource
      → Action Exception P.World OwnedInstallation
  unfolding find_skill validate_committed_metadata owner_for_target replacement_digest ensuring
      place_and_record
  install_from_source command reference snapshot ownership_path index source = do
    skills ← P.read_skills index.cached_index_path index.index_digest
    skill ← lift (find_skill reference skills)
    header ← P.validate_committed source skill
    lift (validate_committed_metadata skill header)
    target ← P.plan_target command.target
    inspection ← P.inspect_target target
    let owner = owner_for_target snapshot.entries target.canonical_target
    expected_digest ← lift (
        replacement_digest command.target inspection.exists inspection.installed_tree_digest owner
          command.force)
    staged ← P.stage source skill target
    ensuring
        (place_and_record reference snapshot ownership_path target source skill staged
          expected_digest)
        (P.cleanup_staged staged)

  abbrev require_index : Text → Option RegisteredSkillIndex → Result Exception RegisteredSkillIndex
  require_index name none = err (installation (unknown_install_index name))
  require_index name (some index) = ok index

  unfoldable pub install_in_transaction :
      InstallSkillCommand → SkillReference → Text → Action Exception P.World OwnedInstallation
  unfolding install_from_source ensuring
  install_in_transaction command reference ownership_path = do
    snapshot ← P.read_ownership ownership_path
    found ← P.get_index reference.index_name command.registry_path
    index ← lift (require_index reference.index_name found)
    source ← P.open_source index
    ensuring (install_from_source command reference snapshot ownership_path index source)
        (P.close_source source)

  -- `InstallSkill.execute`
  unfoldable pub execute : InstallSkillCommand → Action Exception P.World InstallSkillResult
  unfolding install_in_transaction with_transaction
  execute command = do
    reference ← lift (
        catch (parse command.skill_reference)
          (λ e. installation (invalid_skill_reference (unparsable e))))
    entry ← with_transaction (
        install_in_transaction command reference
          (P.ownership_path command.installation_registry_path))
    pure (record {
      requirement = reference.requirement;
      target = command.target;
      ownership_entry = entry;
    })
