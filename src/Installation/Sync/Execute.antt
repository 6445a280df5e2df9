-- ===== src/Installation/Sync/Execute.antt =====
-- `InstallFromRequirements.execute`, of install_from_requirements.py.
pub mod Quiet
pub mod Safety
use ritebook.Prelude.{
  ℕ, Bool, true, false, List, [], ◌∷◌, Option, Result, ok, err, if◌then◌else◌, catch,
}
use ritebook.Prelude.Actions.{Action, continue, pure, lift, ◌>>=◌, ◌>>◌}
use ritebook.Prelude.Sorting.{sorted}
use ritebook.Text.{Text, starts_with, codes}
use ritebook.Kernel.PortablePaths.{posix_parts, last_or_empty}
use ritebook.Installation.Errors.{Exception, installation, installation_persistence, value_error}
use ritebook.Installation.References.{require_non_empty}
use ritebook.Installation.Records.{
  OwnedInstallation, ReconciliationIssue, SkillRequirements, ResolvedSkillSource, StagedSkillTree,
  DesiredInstall,
}
use ritebook.Installation.State.Documents.{by_target_id, by_issue}
use ritebook.Installation.Targets.{referenced_aliases, reject_conflicting_targets, posix_text}
use ritebook.Installation.Sync.Ports.{SyncPorts}
use ritebook.Installation.Sync.Outcome.{ReconciliationOutcome, nothing_done, Staging}
use ritebook.Installation.Sync.Reconcile.{reconcile_desired}
use ritebook.Installation.Sync.Desired.{Opening, desired_installations}

pub record InstallFromRequirementsCommand : Type 0 where
  pub requirements_file : Text
  pub force : Bool
  pub registry_path : Option Text
  pub lockfile_path : Option Text

pub record InstallFromRequirementsResult : Type 0 where
  pub requirements_file : Text
  pub installed_count : ℕ
  pub updated_count : ℕ
  pub unchanged_count : ℕ
  pub ownership_entries : List OwnedInstallation
  pub issues : List ReconciliationIssue

-- What the use case calls of the language: Path(value).expanduser(), and the place of a portable
-- target below the directory of a file of requirements.
pub record SyncLibrary : Type 0 where
  pub expanduser : Text → Text
  pub place_below : Text → Text → Text

-- path.name, of an absolute path by its parts
abbrev absolute_name : List Text → Text
absolute_name [] = []
absolute_name (root ∷ parts) = last_or_empty parts

-- `_portable_requirements_file`
unfoldable pub portable_requirements_file : SyncLibrary → Text → Text
unfolding posix_text
portable_requirements_file F value =
    if starts_with (F.expanduser value) (codes "/")
    then absolute_name (posix_parts (F.expanduser value))
    else posix_text (posix_parts value)

-- The entries and the issues in the order in which they are written and returned.
unfoldable pub in_order : ReconciliationOutcome → ReconciliationOutcome
in_order o = record o { entries = sorted by_target_id o.entries; issues = sorted by_issue o.issues }

-- The result of a block and that of its cleanup: the later exception takes the place of the other.
abbrev pub after_cleanup :
    {A : Type 0} → Result Exception A → Result Exception Unit → Result Exception A
after_cleanup r (ok u) = r
after_cleanup r (err e) = err e

-- The end of the `finally` block, of the result of the `try` block and of whether a cleanup failed.
unfoldable pub with_cleanup_errors : {A : Type 0} → Result Exception A → Bool → Result Exception A
with_cleanup_errors r false = r
with_cleanup_errors (ok a) true = err (installation installation_persistence)
with_cleanup_errors (err (installation e)) true = err (installation installation_persistence)
with_cleanup_errors (err (value_error e)) true = err (value_error e)
with_cleanup_errors (err Exception.other) true = err Exception.other

module _ (P : SyncPorts) (F : SyncLibrary) where
  -- The loop over the aliases.
  unfoldable pub refresh_all : Option Text → List Text → Action Exception P.World Unit
  refresh_all registry_path [] = pure tt
  refresh_all registry_path (alias ∷ aliases) = do
    P.refresh alias registry_path
    refresh_all registry_path aliases

  -- The exit of `source_stack`: the source that was opened last is closed first.
  unfoldable pub close_all :
      {A : Type 0}
      → List (Text × ResolvedSkillSource)
      → Result Exception A
      → Action Exception P.World A
  close_all [] r w = (r, w)
  close_all ((name, source) ∷ sources) r w =
      let c = P.close_source source w in close_all sources (after_cleanup r c.0) c.1

  abbrev note_failure : Result Exception Unit → Bool → Result Exception Bool
  note_failure (ok u) failed = ok failed
  note_failure (err (installation e)) failed = ok true
  note_failure (err e) failed = err e

  -- The loop over the staged trees: whether a cleanup failed. Other exceptions end it.
  unfoldable pub cleanup_all : List StagedSkillTree → Bool → Action Exception P.World Bool
  cleanup_all [] failed = pure failed
  cleanup_all (staged ∷ trees) failed = λ w.
      continue (note_failure (P.cleanup_staged staged w).0 failed) (cleanup_all trees)
        (P.cleanup_staged staged w).1

  -- What follows the reconciliation: the lockfile is written.
  unfoldable pub record_outcome :
      InstallFromRequirementsCommand
      → Text
      → ReconciliationOutcome
      → Action Exception P.World ReconciliationOutcome
  unfolding in_order portable_requirements_file
  record_outcome command lockfile_path outcome = do
    let final = in_order outcome
    file ←
        P.lockfile final.entries final.issues lockfile_path
          (portable_requirements_file F command.requirements_file)
    P.write_lockfile file
    pure final

  abbrev and_record :
      InstallFromRequirementsCommand
      → Text
      → Result Exception ReconciliationOutcome × Staging P
      → Result Exception ReconciliationOutcome × Staging P
  and_record command lockfile_path (r, s) =
      let next = continue r (record_outcome command lockfile_path) s.world in
      (next.0, record { world = next.1; staged_trees = s.staged_trees })

  -- The block of `source_stack`, once the declared installations are known.
  unfoldable pub reconcile_and_record :
      InstallFromRequirementsCommand
      → Text
      → List OwnedInstallation
      → List DesiredInstall
      → P.World
      → Result Exception ReconciliationOutcome × Staging P
  unfolding record_outcome reject_conflicting_targets
  reconcile_and_record command lockfile_path ownership desired w =
      and_record command lockfile_path (
        (do
          lift (reject_conflicting_targets desired)
          reconcile_desired P command.force ownership desired nothing_done)
          (record { world = w; staged_trees = [] }))

  abbrev close_sources :
      List (Text × ResolvedSkillSource)
      → Result Exception ReconciliationOutcome × Staging P
      → Result Exception ReconciliationOutcome × Staging P
  close_sources sources (r, s) =
      let closed = close_all sources r s.world in
      (closed.0, record { world = closed.1; staged_trees = s.staged_trees })

  abbrev within_sources :
      (command : InstallFromRequirementsCommand)
      → Text
      → List OwnedInstallation
      → Result Exception (List DesiredInstall) × Opening P (F.place_below command.requirements_file)
      → Result Exception ReconciliationOutcome × Staging P
  within_sources command lockfile_path ownership (ok desired, s) =
      close_sources s.sources (reconcile_and_record command lockfile_path ownership desired s.world)
  within_sources command lockfile_path ownership (err e, s) =
      close_sources s.sources (err e, record { world = s.world; staged_trees = [] })

  -- The `with` statement.
  unfoldable pub sync_sources :
      InstallFromRequirementsCommand
      → Text
      → SkillRequirements
      → List OwnedInstallation
      → P.World
      → Result Exception ReconciliationOutcome × Staging P
  unfolding reconcile_and_record close_all desired_installations
  sync_sources command lockfile_path requirements ownership w =
      within_sources command lockfile_path ownership (
        desired_installations P (F.place_below command.requirements_file) command.registry_path
          command.requirements_file requirements.skills requirements.targets
          (record { world = w; sources = [] }))

  -- What the `try` block does before the `with` statement.
  unfoldable pub read_and_refresh :
      InstallFromRequirementsCommand
      → Text
      → SkillRequirements
      → Action Exception P.World (List OwnedInstallation)
  unfolding refresh_all
  read_and_refresh command lockfile_path requirements = do
    snapshot ← P.read_lockfile_ownership lockfile_path command.requirements_file
    aliases ← lift (referenced_aliases requirements.skills)
    refresh_all command.registry_path aliases
    pure snapshot.entries

  abbrev then_sync :
      InstallFromRequirementsCommand
      → Text
      → SkillRequirements
      → Result Exception (List OwnedInstallation) × P.World
      → Result Exception ReconciliationOutcome × Staging P
  then_sync command lockfile_path requirements (ok ownership, w) =
      sync_sources command lockfile_path requirements ownership w
  then_sync command lockfile_path requirements (err e, w) =
      (err e, record { world = w; staged_trees = [] })

  -- The `finally` block.
  abbrev and_clean :
      Result Exception ReconciliationOutcome × Staging P
      → Result Exception ReconciliationOutcome × P.World
  and_clean (r, s) =
      continue (cleanup_all s.staged_trees false s.world).0
        (λ failed. lift (with_cleanup_errors r failed)) (cleanup_all s.staged_trees false s.world).1

  -- The `try` statement.
  unfoldable pub sync_and_clean :
      InstallFromRequirementsCommand
      → Text
      → SkillRequirements
      → Action Exception P.World ReconciliationOutcome
  unfolding read_and_refresh sync_sources cleanup_all with_cleanup_errors
  sync_and_clean command lockfile_path requirements w = and_clean (
      then_sync command lockfile_path requirements
        (read_and_refresh command lockfile_path requirements w))

  unfoldable pub execute :
      InstallFromRequirementsCommand → Action Exception P.World InstallFromRequirementsResult
  unfolding sync_and_clean
  execute command = do
    requirements ← P.read_requirements command.requirements_file
    lockfile_path ← P.sync_lockfile_path command.requirements_file command.lockfile_path
    outcome ← sync_and_clean command lockfile_path requirements
    lift (catch (require_non_empty command.requirements_file "Requirements file") value_error)
    pure (record {
      requirements_file = command.requirements_file;
      installed_count = outcome.installed_count;
      updated_count = outcome.updated_count;
      unchanged_count = outcome.unchanged_count;
      ownership_entries = outcome.entries;
      issues = outcome.issues;
    })
