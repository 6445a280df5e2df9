-- ===== src/Contribution/Checkout.antt =====
-- skill_contribution/adapters/outbound/contribution_checkout/adapter.py
use ritebook.Prelude.{Bool, true, false, ◌||◌, not, List, [], ◌∷◌, ◌++◌, Option, none, some, catch}
use ritebook.Prelude.{◌==◌, nat_eq, list_eq, if◌then◌else◌}
use ritebook.Prelude.Actions.{Action, pure, raise, lift, ◌>>=◌, ◌>>◌}
use ritebook.Text.{Text, codes, strip}
use ritebook.Contribution.Errors.{Exception, value_error}
use ritebook.Contribution.Records.{
  ContributionLockfileEntry, ContributionWorkspace, PreparedContribution, check_prepared,
}
use ritebook.Contribution.Git.{
  ContributionHost, slug, git_error, git, run_git, read_required_output,
}

module _ (H : ContributionHost) where
  abbrev checkout_git : ContributionWorkspace → List Text → List Text
  checkout_git workspace arguments = git (H.expanduser workspace.checkout_path) arguments

  -- `ContributionCheckoutAdapter.prepare_branch`
  unfoldable pub prepare_branch :
      ContributionLockfileEntry → ContributionWorkspace → Action Exception H.World Text
  unfolding run_git
  prepare_branch entry workspace = do
    timestamp ← H.timestamp
    let branch_name = codes "ritebook/" ++ (slug entry.skill_path ++ (codes "-" ++ timestamp))
    run_git H (
        checkout_git workspace
          (codes "checkout" ∷ codes "-B" ∷ branch_name ∷ workspace.current_base_revision ∷ []))
    pure branch_name

  -- One turn of the loop of `_require_commit_identity`.
  unfoldable pub require_identity : ContributionWorkspace → Text → Action Exception H.World Unit
  require_identity workspace key = do
    result ← H.run (checkout_git workspace (codes "config" ∷ codes "--get" ∷ key ∷ []))
    if not (result.returncode == 0) || strip result.stdout == [] then raise git_error else pure tt

  unfoldable pub require_commit_identity : ContributionWorkspace → Action Exception H.World Unit
  unfolding require_identity
  require_commit_identity workspace = do
    require_identity workspace (codes "user.name")
    require_identity workspace (codes "user.email")

  abbrev push_command : Bool → Text → Option Text
  push_command true branch_name = some (codes "git push origin " ++ branch_name)
  push_command false branch_name = none

  abbrev commit_message : ContributionLockfileEntry → Text
  commit_message entry =
      codes "Update " ++ (entry.skill_name ++ codes " skill from Ritebook contribution")

  -- `ContributionCheckoutAdapter.commit_changes`
  unfoldable pub commit_changes :
      ContributionLockfileEntry
      → ContributionWorkspace
      → Text
      → Action Exception H.World PreparedContribution
  unfolding require_commit_identity run_git read_required_output
  commit_changes entry workspace branch_name = do
    require_commit_identity workspace
    run_git H (
        checkout_git workspace
          (codes "add" ∷ codes "--" ∷ entry.skill_path ∷ codes "ritebook-index.json" ∷ []))
    run_git H (
        checkout_git workspace (
          codes "commit"
          ∷ codes "--no-gpg-sign"
          ∷ codes "--message"
          ∷ commit_message entry
          ∷ codes "--"
          ∷ []))
    commit_hash ←
        read_required_output H (checkout_git workspace (codes "rev-parse" ∷ codes "HEAD" ∷ []))
    lift (
        catch
          (check_prepared (record {
            skill_reference = entry.requirement;
            checkout_path = workspace.checkout_path;
            branch_name = branch_name;
            commit_hash = commit_hash;
            push_command = push_command workspace.has_usable_origin branch_name;
          }))
          value_error)
