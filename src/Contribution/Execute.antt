-- ===== src/Contribution/Execute.antt =====
-- skill_contribution/application/use_cases/publish_skill_change.py, against its ports.
pub mod Untouched
pub mod Order
pub mod Recording
use ritebook.Prelude.{Bool, true, false, List, [], ◌∷◌, Option, none, some, Result, ok, err, catch}
use ritebook.Prelude.{◌==◌, nat_eq, list_eq, if◌then◌else◌}
use ritebook.Prelude.Actions.{Action, pure, raise, lift, ◌>>=◌, ◌>>◌}
use ritebook.Text.{Text, codes}
use ritebook.Contribution.Errors.{
  Exception, contribution, value_error, invalid_contribution_skill_reference,
  incomplete_contribution_provenance, upstream_skill_changed,
}
use ritebook.Contribution.Records.{
  ContributionSkillReference, ContributionLockfileEntry, ContributionWorkspace,
  SkillChangeComparison, SkillChangeStatus, no_changes, changed, upstream_changed,
  PreparedContribution, PublishSkillChangeCommand, PublishSkillChangeResult, parse, check_result,
}

-- `PublishSkillChangeDependencies`
pub record PublishPorts : Type 1 where
  pub World : Type 0
  pub resolve_entry :
      ContributionSkillReference → Option Text → Action Exception World ContributionLockfileEntry
  pub prepare_workspace :
      ContributionLockfileEntry → Option Text → Action Exception World ContributionWorkspace
  pub compare :
      ContributionLockfileEntry
      → ContributionWorkspace
      → Action Exception World SkillChangeComparison
  pub prepare_branch :
      ContributionLockfileEntry → ContributionWorkspace → Action Exception World Text
  pub copy_installed_skill :
      ContributionLockfileEntry → ContributionWorkspace → Action Exception World Unit
  pub validate : ContributionLockfileEntry → ContributionWorkspace → Action Exception World Unit
  pub regenerate_index :
      ContributionLockfileEntry → ContributionWorkspace → Action Exception World Unit
  pub commit_changes :
      ContributionLockfileEntry
      → ContributionWorkspace
      → Text
      → Action Exception World PreparedContribution

-- The values of required_fields, by their names.
abbrev pub required_values : ContributionLockfileEntry → List (Text × Text)
required_values entry =
    (codes "source_revision", entry.source_revision)
    ∷ (codes "index_digest", entry.index_digest)
    ∷ (codes "target", entry.target)
    ∷ (codes "source", entry.source)
    ∷ (codes "source_type", entry.source_type)
    ∷ (codes "skill_path", entry.skill_path)
    ∷ (codes "skill_file", entry.skill_file)
    ∷ (codes "installed_tree_digest", entry.installed_tree_digest)
    ∷ []

-- The loop over required_fields.
unfoldable pub require_values : Text → List (Text × Text) → Result Exception Unit
require_values skill_reference [] = ok tt
require_values skill_reference ((field_name, value) ∷ fields) =
    if value == []
    then err (contribution (incomplete_contribution_provenance skill_reference field_name))
    else require_values skill_reference fields

unfoldable pub validate_required_provenance :
    ContributionLockfileEntry → Text → Result Exception Unit
unfolding require_values
validate_required_provenance entry skill_reference =
    require_values skill_reference (required_values entry)

module _ (P : PublishPorts) where
  abbrev finish : PublishSkillChangeResult → Action Exception P.World PublishSkillChangeResult
  finish result = lift (catch (check_result result) value_error)

  -- What follows a comparison that shows a change of the installed skill alone.
  unfoldable pub publish_change :
      Text
      → ContributionLockfileEntry
      → ContributionWorkspace
      → Action Exception P.World PublishSkillChangeResult
  publish_change requirement entry workspace = do
    branch_name ← P.prepare_branch entry workspace
    P.copy_installed_skill entry workspace
    P.validate entry workspace
    P.regenerate_index entry workspace
    prepared ← P.commit_changes entry workspace branch_name
    finish (record {
      skill_reference = requirement;
      status = changed;
      prepared_contribution = some prepared;
    })

  -- What follows the comparison.
  unfoldable pub publish_compared :
      Text
      → ContributionLockfileEntry
      → ContributionWorkspace
      → SkillChangeStatus
      → Action Exception P.World PublishSkillChangeResult
  unfolding publish_change
  publish_compared requirement entry workspace upstream_changed =
      raise (contribution upstream_skill_changed)
  publish_compared requirement entry workspace no_changes =
      finish (record {
        skill_reference = requirement;
        status = no_changes;
        prepared_contribution = none;
      })
  publish_compared requirement entry workspace changed = publish_change requirement entry workspace

  -- `PublishSkillChange.execute`
  unfoldable pub execute :
      PublishSkillChangeCommand → Action Exception P.World PublishSkillChangeResult
  unfolding validate_required_provenance publish_compared
  execute command = do
    reference ← lift (
        catch (parse command.skill_reference)
          (λ e. contribution (invalid_contribution_skill_reference e)))
    entry ← P.resolve_entry reference command.lockfile_path
    lift (validate_required_provenance entry reference.requirement)
    workspace ← P.prepare_workspace entry command.contribution_root
    comparison ← P.compare entry workspace
    publish_compared reference.requirement entry workspace comparison.status
