-- ===== src/Contribution/Workspace.antt =====
-- skill_contribution/adapters/outbound/git_workspace/adapter.py
pub mod Safety
use ritebook.Prelude.{
  ℕ, Bool, true, false, ◌&&◌, ◌||◌, not, List, [], ◌∷◌, ◌++◌, Option, none, some, catch, take,
}
use ritebook.Prelude.{◌==◌, nat_eq, list_eq, if◌then◌else◌, contains}
use ritebook.Prelude.Actions.{Action, pure, raise, lift, ◌>>=◌, ◌>>◌}
use ritebook.Text.{Text, codes, strip}
use ritebook.Contribution.Errors.{
  Exception, contribution, value_error, incomplete_contribution_provenance,
}
use ritebook.Contribution.Records.{
  ContributionLockfileEntry, ContributionWorkspace, SkillChangeComparison, upstream_changed,
  check_workspace, check_comparison,
}
use ritebook.Contribution.Git.{
  ContributionHost, slug, git_error, git, run_git, read_required_output,
}

abbrev pub default_contribution_root : Text
default_contribution_root = codes "~/.cache/ritebook/contributions"

abbrev pub git_url_source_type : Text
git_url_source_type = codes "git_url"

abbrev pub local_git_repo_source_type : Text
local_git_repo_source_type = codes "local_git_repo"

abbrev pub workspace_marker_name : Text
workspace_marker_name = codes "ritebook-contribution-workspace"

module _ (H : ContributionHost) where
  abbrev fail_if : Bool → Action Exception H.World Unit
  fail_if true = raise git_error
  fail_if false = pure tt

  unfoldable pub validate_source_type : Text → Action Exception H.World Unit
  validate_source_type source_type =
      fail_if (not (contains (git_url_source_type ∷ local_git_repo_source_type ∷ []) source_type))

  abbrev root_or_default : Option Text → Text
  root_or_default none = H.expanduser default_contribution_root
  root_or_default (some contribution_root) = H.expanduser contribution_root

  -- checkout_path.relative_to(root).parts
  abbrev checkout_parts : ContributionLockfileEntry → List Text
  checkout_parts entry =
      take 16 (H.sha256 entry.source)
      ∷ (entry.index_name
          ++ (codes "-"
              ++ (slug entry.skill_path ++ (codes "-" ++ take 8 (H.sha256 entry.requirement)))))
      ∷ []

  -- root / parts
  abbrev join_parts : Text → List Text → Text
  join_parts root [] = root
  join_parts root (part ∷ parts) = join_parts (H.join_path root part) parts

  -- The loop over the parts.
  unfoldable pub has_symlink : H.World → Text → List Text → Bool
  has_symlink w current [] = false
  has_symlink w current (part ∷ parts) =
      H.is_symlink w (H.join_path current part) || has_symlink w (H.join_path current part) parts

  abbrev is_inside : Option Text → Option Text → Bool
  is_inside (some checkout) (some root) = H.is_relative_to checkout root
  is_inside _ _ = false

  -- `_checkout_path`
  unfoldable pub checkout_path :
      ContributionLockfileEntry → Option Text → Action Exception H.World Text
  unfolding has_symlink
  checkout_path entry contribution_root w =
      let root = root_or_default contribution_root in
      let path = join_parts root (checkout_parts entry) in
      (do
        fail_if (has_symlink w root (checkout_parts entry))
        fail_if (not (is_inside (H.resolve w path) (H.resolve w root)))
        pure path)
        w

  -- The test of `_validate_owned_checkout`.
  unfoldable pub is_owned_checkout : H.World → Text → Bool
  is_owned_checkout w checkout =
      let git_directory = H.join_path checkout (codes ".git") in
      let marker = H.join_path git_directory workspace_marker_name in
      H.is_dir w checkout
      && not (H.is_symlink w checkout)
      && H.is_dir w git_directory
      && not (H.is_symlink w git_directory)
      && H.is_file w marker
      && not (H.is_symlink w marker)

  unfoldable pub validate_owned_checkout : Text → Action Exception H.World Unit
  unfolding is_owned_checkout
  validate_owned_checkout checkout w = fail_if (not (is_owned_checkout w checkout)) w

  unfoldable pub write_workspace_marker : Text → Action Exception H.World Unit
  write_workspace_marker checkout = do
    written ←
        H.write_text (H.join_path (H.join_path checkout (codes ".git")) workspace_marker_name)
          (codes "managed by Ritebook\n")
    fail_if (not written)

  -- The rest of `_has_origin` and `_base_reference`, of the runs of git.
  unfoldable pub has_origin : Text → Action Exception H.World Bool
  has_origin checkout = do
    result ← H.run (git checkout (codes "remote" ∷ codes "get-url" ∷ codes "origin" ∷ []))
    pure (result.returncode == 0 && not (strip result.stdout == []))

  unfoldable pub base_reference : Text → Bool → Action Exception H.World Text
  unfolding read_required_output
  base_reference checkout false = pure (codes "HEAD")
  base_reference checkout true = read_required_output H (
      git checkout (
        codes "symbolic-ref"
        ∷ codes "--quiet"
        ∷ codes "--short"
        ∷ codes "refs/remotes/origin/HEAD"
        ∷ []))

  -- `_verify_locked_provenance`
  unfoldable pub verify_locked_provenance :
      Text → ContributionLockfileEntry → Action Exception H.World Unit
  verify_locked_provenance checkout entry = do
    revision ← H.run (
        git checkout
          (codes "cat-file" ∷ codes "-e" ∷ (entry.source_revision ++ codes "^{commit}") ∷ []))
    fail_if (not (revision.returncode == 0))
    committed_index ←
        H.run_bytes (
          git checkout
            (codes "show" ∷ (entry.source_revision ++ codes ":ritebook-index.json") ∷ []))
    fail_if (not (committed_index.returncode == 0))
    fail_if (not (codes "sha256:" ++ H.sha256_bytes committed_index.stdout == entry.index_digest))

  -- The first block of `prepare_workspace`: the checkout that is there, or a clone.
  unfoldable pub open_checkout : ContributionLockfileEntry → Text → Action Exception H.World Unit
  unfolding validate_owned_checkout run_git write_workspace_marker
  open_checkout entry checkout w =
      (if H.exists w checkout then validate_owned_checkout checkout else do
        H.make_parents checkout
        run_git H (
            codes "git"
            ∷ codes "--no-pager"
            ∷ codes "clone"
            ∷ codes "--"
            ∷ entry.source
            ∷ checkout
            ∷ [])
        write_workspace_marker checkout
        validate_owned_checkout checkout)
        w

  -- `if has_origin: self._run(...)`
  abbrev fetch_if : Bool → Text → Action Exception H.World Unit
  fetch_if false checkout = pure tt
  fetch_if true checkout =
      run_git H (git checkout (codes "fetch" ∷ codes "--prune" ∷ codes "origin" ∷ []))

  -- The rest of it, in the checkout.
  unfoldable pub refresh_checkout :
      ContributionLockfileEntry → Text → Action Exception H.World ContributionWorkspace
  unfolding has_origin verify_locked_provenance base_reference run_git read_required_output
  refresh_checkout entry checkout = do
    origin ← has_origin checkout
    fetch_if origin checkout
    verify_locked_provenance checkout entry
    base ← base_reference checkout origin
    run_git H (git checkout (codes "checkout" ∷ codes "--detach" ∷ base ∷ []))
    run_git H (git checkout (codes "reset" ∷ codes "--hard" ∷ base ∷ []))
    run_git H (git checkout (codes "clean" ∷ codes "-fd" ∷ []))
    revision ← read_required_output H (git checkout (codes "rev-parse" ∷ codes "HEAD" ∷ []))
    lift (
        catch
          (check_workspace (record {
            checkout_path = checkout;
            source_skill_path = entry.skill_path;
            current_base_revision = revision;
            locked_revision = entry.source_revision;
            has_usable_origin = origin && entry.source_type == git_url_source_type;
          }))
          value_error)

  -- `GitWorkspaceAdapter.prepare_workspace`
  unfoldable pub prepare_workspace :
      ContributionLockfileEntry → Option Text → Action Exception H.World ContributionWorkspace
  unfolding validate_source_type checkout_path open_checkout refresh_checkout
  prepare_workspace entry contribution_root = do
    validate_source_type entry.source_type
    checkout ← checkout_path entry contribution_root
    open_checkout entry checkout
    refresh_checkout entry checkout

  -- `GitSkillChangeDetectorAdapter.compare`, given the comparison with the installed content
  unfoldable pub detect_change :
      (ContributionLockfileEntry
        → ContributionWorkspace
        → Action Exception H.World SkillChangeComparison)
      → ContributionLockfileEntry
      → ContributionWorkspace
      → Action Exception H.World SkillChangeComparison
  detect_change compare entry workspace =
      if entry.source_revision == []
      then raise (
          contribution
            (incomplete_contribution_provenance entry.requirement (codes "source_revision")))
      else do
        result ← H.run (
            git (H.expanduser workspace.checkout_path) (
              codes "diff"
              ∷ codes "--quiet"
              ∷ entry.source_revision
              ∷ workspace.current_base_revision
              ∷ codes "--"
              ∷ entry.skill_path
              ∷ []))
        if result.returncode == 1
            then lift (
                catch
                  (check_comparison (record {
                    status = upstream_changed;
                    installed_path = entry.target;
                    source_skill_path = entry.skill_path;
                    changed_file_count = 1;
                  }))
                  value_error)
            else if not (result.returncode == 0)
            then raise git_error
            else compare entry workspace
