-- ===== src/Installation/Sync/Reconcile.antt =====
-- `_reconcile_desired` of install_from_requirements.py: what a sync does with each declared target.
pub mod Steps
pub mod Preservation
pub mod Records
pub mod Truth
use ritebook.Prelude.{Bool, true, false, List, [], ◌∷◌, Option, none, some, if◌then◌else◌, catch}
use ritebook.Prelude.Actions.{Action, pure, lift, ◌>>=◌, ◌>>◌}
use ritebook.Text.{Text}
use ritebook.Installation.Errors.{Exception, value_error}
use ritebook.Installation.Records.{
  OwnedInstallation, TargetInspection, DesiredInstall, check_owned_installation,
  check_reconciliation_issue,
}
use ritebook.Installation.Sync.Ports.{SyncPorts}
use ritebook.Installation.Sync.Outcome.{
  ReconciliationOutcome, owner_of, kept_entry, unmanaged_issue, local_issue, Decision, unmanaged,
  place, preserve, decide_target, is_unchanged, count_unchanged, count_placed, count_unmanaged,
  count_preserved, owned_entry, Staging, call, remember,
}

abbrev expected_digest : TargetInspection → Option Text
expected_digest inspection = if inspection.exists then inspection.installed_tree_digest else none

module _ (P : SyncPorts) (force : Bool) where
  -- The end of a round: the candidate is recorded, and put in place unless it is there already.
  unfoldable pub finish_item :
      TargetInspection
      → Option OwnedInstallation
      → DesiredInstall
      → ReconciliationOutcome
      → Action Exception (Staging P) ReconciliationOutcome
  finish_item inspection owner item o = do
    staged ← call P (P.stage item.source item.skill item.planned_target)
    remember P staged
    candidate ← lift (owned_entry P.sha256 item staged)
    if is_unchanged force inspection owner staged then pure (count_unchanged candidate o) else do
      call P (
          P.replace_tree staged.staged_path item.planned_target.canonical_target
            (expected_digest inspection))
      pure (count_placed inspection.exists candidate o)

  unfoldable pub act_on :
      Decision
      → TargetInspection
      → Option OwnedInstallation
      → DesiredInstall
      → ReconciliationOutcome
      → Action Exception (Staging P) ReconciliationOutcome
  act_on unmanaged inspection owner item o = do
    lift (catch (check_reconciliation_issue (unmanaged_issue item)) value_error)
    pure (count_unmanaged item o)
  act_on (preserve kept) inspection owner item o = do
    lift (catch (check_owned_installation (kept_entry kept)) value_error)
    lift (catch (check_reconciliation_issue (local_issue item kept)) value_error)
    pure (count_preserved item kept o)
  act_on place inspection owner item o = finish_item inspection owner item o

  -- One round of the loop.
  unfoldable pub reconcile_item :
      List OwnedInstallation
      → DesiredInstall
      → ReconciliationOutcome
      → Action Exception (Staging P) ReconciliationOutcome
  reconcile_item ownership item o = do
    inspection ← call P (P.inspect_target item.planned_target)
    let owner = owner_of ownership item.planned_target.canonical_target
    act_on (decide_target force inspection owner) inspection owner item o

  unfoldable pub reconcile_desired :
      List OwnedInstallation
      → List DesiredInstall
      → ReconciliationOutcome
      → Action Exception (Staging P) ReconciliationOutcome
  reconcile_desired ownership [] o = pure o
  reconcile_desired ownership (item ∷ desired) o = do
    o' ← reconcile_item ownership item o
    reconcile_desired ownership desired o'
