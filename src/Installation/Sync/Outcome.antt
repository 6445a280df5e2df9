-- ===== src/Installation/Sync/Outcome.antt =====
-- The values that `_reconcile_desired` computes with: outcomes, owners, decisions and entries.
use ritebook.Prelude.{ℕ, ◌+◌, Bool, true, false, ◌&&◌, not, List, [], ◌∷◌, ◌++◌, Option, none, some}
use ritebook.Prelude.{◌==◌, nat_eq, list_eq, option_eq, if◌then◌else◌, Result, ok}
use ritebook.Prelude.{catch, ◌>>=◌}
use ritebook.Prelude.Actions.{Action}
use ritebook.Text.{Text, codes}
use ritebook.Installation.Errors.{Exception, value_error}
use ritebook.Installation.Records.{
  sync, materialized, local_changes, OwnedInstallation, ReconciliationIssue, StagedSkillTree,
  TargetInspection, DesiredInstall, check_owned_installation,
}
use ritebook.Installation.Targets.{repository_relative_source_path}
use ritebook.Installation.Sync.Ports.{SyncPorts}

-- `_ReconciliationOutcome`
pub record ReconciliationOutcome : Type 0 where
  pub entries : List OwnedInstallation
  pub issues : List ReconciliationIssue
  pub installed_count : ℕ
  pub updated_count : ℕ
  pub unchanged_count : ℕ

abbrev pub nothing_done : ReconciliationOutcome
nothing_done = record {
  entries = [];
  issues = [];
  installed_count = 0;
  updated_count = 0;
  unchanged_count = 0;
}

-- ownership_by_target.get(target): of two entries with one target the later one is kept.
unfoldable pub owner_of : List OwnedInstallation → Text → Option OwnedInstallation
owner_of [] target = none
owner_of (entry ∷ ownership) target =
    let rest = owner_of ownership target in
    elim rest [
      | some later ↦ some later
      | none ↦ if entry.canonical_target == target then some entry else none
    ]

-- The entry that is kept for a target with local changes.
abbrev pub kept_entry : OwnedInstallation → OwnedInstallation
kept_entry owner = record owner { desired = true; status = local_changes }

abbrev pub unmanaged_issue : DesiredInstall → ReconciliationIssue
unmanaged_issue item = record {
  code = codes "unmanaged-target";
  target = item.portable_target;
  detail = codes "target exists but is not owned by Ritebook";
  requirement = some (item.reference.requirement);
}

abbrev pub local_issue : DesiredInstall → OwnedInstallation → ReconciliationIssue
local_issue item owner = record {
  code = codes "local-changes";
  target = item.portable_target;
  detail = codes "target has local changes and was preserved";
  requirement = some owner.requirement;
}

-- What is done with a target, by the two guards of the loop.
pub data Decision : Type 0 where
  unmanaged place : Decision
  preserve : OwnedInstallation → Decision

abbrev pub digest_differs : Option Text → OwnedInstallation → Bool
digest_differs found owner = not (found == some (owner.installed_tree_digest))

unfoldable pub decide_target : Bool → TargetInspection → Option OwnedInstallation → Decision
decide_target force inspection none = if inspection.exists && not force then unmanaged else place
decide_target force inspection (some owner) =
    if inspection.exists && digest_differs inspection.installed_tree_digest owner && not force
    then preserve owner
    else place

-- The staged tree is what is recorded already.
unfoldable pub is_unchanged :
    Bool → TargetInspection → Option OwnedInstallation → StagedSkillTree → Bool
is_unchanged force inspection none staged = false
is_unchanged force inspection (some owner) staged =
    inspection.exists && staged.installed_tree_digest == owner.installed_tree_digest && not force

abbrev pub count_unchanged : OwnedInstallation → ReconciliationOutcome → ReconciliationOutcome
count_unchanged entry o = record o {
  entries = o.entries ++ (entry ∷ []);
  unchanged_count = o.unchanged_count + 1;
}

abbrev pub count_placed : Bool → OwnedInstallation → ReconciliationOutcome → ReconciliationOutcome
count_placed existed entry o =
    if existed
    then record o { entries = o.entries ++ (entry ∷ []); updated_count = o.updated_count + 1 }
    else record o { entries = o.entries ++ (entry ∷ []); installed_count = o.installed_count + 1 }

abbrev pub count_unmanaged : DesiredInstall → ReconciliationOutcome → ReconciliationOutcome
count_unmanaged item o = record o { issues = o.issues ++ (unmanaged_issue item ∷ []) }

abbrev pub count_preserved :
    DesiredInstall → OwnedInstallation → ReconciliationOutcome → ReconciliationOutcome
count_preserved item owner o = record o {
  entries = o.entries ++ (kept_entry owner ∷ []);
  issues = o.issues ++ (local_issue item owner ∷ []);
}

-- `_owned_entry` and `_target_id`
unfoldable pub owned_entry :
    (Text → Text) → DesiredInstall → StagedSkillTree → Result Exception OwnedInstallation
owned_entry sha256 item staged = do
  skill_path ← repository_relative_source_path item.skill.source_root item.skill.path
  skill_file ← repository_relative_source_path item.skill.source_root item.skill.skill_file
  catch
      (check_owned_installation (record {
        workflow = sync;
        requirement = item.reference.requirement;
        index_name = item.reference.index_name;
        skill_name = item.reference.skill_name;
        target = item.portable_target;
        target_id = codes "sha256:" ++ sha256 item.portable_target;
        canonical_target = item.planned_target.canonical_target;
        source = item.source.source;
        source_type = item.source.source_type;
        source_revision = item.source.source_revision;
        source_branch = item.source.source_branch;
        index_digest = item.source.index_digest;
        index_schema_version = item.index.index_schema_version;
        skill_path = skill_path;
        skill_file = skill_file;
        installed_tree_digest = staged.installed_tree_digest;
        desired = true;
        status = materialized;
        target_ref = item.target_ref;
      }))
      value_error

module _ (P : SyncPorts) where
  -- The state of the loop: the world, and the trees staged so far, which the caller cleans up.
  pub record Staging : Type 0 where
    pub world : P.World
    pub staged_trees : List StagedSkillTree

  -- A call of a port.
  unfoldable pub call : {A : Type 0} → Action Exception P.World A → Action Exception Staging A
  call m s = ((m s.world).0, record s { world = (m s.world).1 })

  unfoldable pub remember : StagedSkillTree → Action Exception Staging Unit
  remember staged s = (ok tt, record s { staged_trees = s.staged_trees ++ (staged ∷ []) })
