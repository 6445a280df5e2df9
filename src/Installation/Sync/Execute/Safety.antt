-- ===== src/Installation/Sync/Execute/Safety.antt =====
-- A whole sync and a tree that is not its own.
use ritebook.Prelude.{◌≡◌, false, List, Option, Result, All}
use ritebook.Prelude.Actions.{Action}
use ritebook.Text.{Text}
use ritebook.Installation.Errors.{Exception}
use ritebook.Installation.Records.{SkillRequirements, DesiredInstall}
use ritebook.Installation.Sync.Ports.{SyncPorts, AreApart, IsLawful}
use ritebook.Installation.Sync.Outcome.{ReconciliationOutcome, Staging}
use ritebook.Installation.Sync.Reconcile.Steps.{Leaves}
use ritebook.Installation.Sync.Desired.{Opening, desired_installations}
use ritebook.Installation.Sync.Execute.{InstallFromRequirementsCommand, SyncLibrary}
use ritebook.Installation.Sync.Execute.Quiet.{AreQuiet, Stands}

module _ (P : SyncPorts) (L : IsLawful P) (F : SyncLibrary) (p digest : Text)
    (registry_path : Option Text) (quiet : AreQuiet P L p registry_path) where
  abbrev Here : P.World → Type 0
  Here w = Stands P L p digest w

  -- The states of the parts of the run, by their worlds.
  abbrev HereStaged : Result Exception ReconciliationOutcome × Staging P → Type 0
  HereStaged out = Here out.1.world × All (Leaves P L p) out.1.staged_trees

  module _ (command : InstallFromRequirementsCommand) (careful : command.force ≡ false)
      (same : command.registry_path ≡ registry_path) (path : Text) (away : AreApart p path)
      (requirements : SkillRequirements) where
    abbrev declarations :
        Action Exception (Opening P (F.place_below command.requirements_file)) (List DesiredInstall)
    declarations =
        desired_installations P (F.place_below command.requirements_file) command.registry_path
          command.requirements_file requirements.skills requirements.targets
