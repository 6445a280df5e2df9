-- ===== src/Tests/Contribution.antt =====
-- The properties of a contribution at runs against ports and hosts in memory.
use ritebook.Prelude.{ℕ, suc, ◌≡◌, refl, ◌↔◌, ◌++◌, Bool, true, false, [], ◌∷◌, none, some, ok}
use ritebook.Prelude.{nat_eq, list_eq, list_beq, filter, take}
use ritebook.Prelude.Actions.{Action, pure, ◌>>=◌}
use ritebook.Text.{Text, codes, split, starts_with, ends_with, has_sub, strip, is_space}
use ritebook.Kernel.PortablePaths.{posix_parts}
use ritebook.Contribution.Errors.{Exception}
use ritebook.Contribution.Records.{
  ContributionLockfileEntry, ContributionWorkspace, SkillChangeStatus, changed,
  PublishSkillChangeCommand, parse, check_workspace, require_non_empty,
  require_safe_repository_path,
}
use ritebook.Contribution.References.{parse-as_contributed, as_contributed}
use ritebook.Contribution.Git.{ContributionHost}
use ritebook.Contribution.Workspace.{checkout_path, has_symlink, prepare_workspace}
use ritebook.Contribution.Workspace.Safety.{IsVerified, prepare_workspace-IsVerified}
use ritebook.Contribution.Catalog.{catalog_root}
use ritebook.Contribution.Catalog.Roots.{LiesBelow, catalog_root_iff}
use ritebook.Contribution.Directory.{Tree, Node, directory, file, node_at, changed_file_count}
use ritebook.Contribution.Directory.Changes.{Agrees, changed_file_count_iff}
use ritebook.Contribution.Execute.{PublishPorts, execute}
use ritebook.Contribution.Execute.Order.{IsOrdered, logged}
use ritebook.Contribution.Execute.Recording.{erase, execute-refines}
use ritebook.Installation.References

parse-as_contributed_example :
    parse (codes "team/lint") ≡ as_contributed (References.parse (codes "team/lint"))
parse-as_contributed_example = parse-as_contributed (codes "team/lint")

-- A file in the one tree, where the other has a directory.
abbrev tree_of : Node → Tree
tree_of node = (codes "SKILL.md", file (codes "a")) ∷ (codes "notes", node) ∷ []

changed_file_count_iff_example :
    (changed_file_count (tree_of (file (codes "b"))) (tree_of directory) ≡ 0) ↔ (
      (path : Text)
      → Agrees (node_at (tree_of (file (codes "b"))) path) (node_at (tree_of directory) path))
changed_file_count_iff_example =
    changed_file_count_iff (tree_of (file (codes "b"))) (tree_of directory)

no_change_is_counted : changed_file_count (tree_of (file (codes "b"))) (tree_of directory) ≡ 0
unfolding changed_file_count node_at list_beq filter
no_change_is_counted = refl

abbrev zeros : Text
zeros = codes "0000000000000000000000000000000000000000000000000000000000000000"

abbrev pub entry : ContributionLockfileEntry
entry = record {
  requirement = codes "team/lint";
  index_name = codes "team";
  skill_name = codes "lint";
  target = codes "skills/lint";
  source = codes "https://example.org/team.git";
  source_type = codes "git_url";
  source_revision = codes "0123456789012345678901234567890123456789";
  source_branch = codes "refs/heads/main";
  index_digest = codes "sha256:" ++ zeros;
  skill_path = codes "catalog/lint";
  skill_file = codes "catalog/lint/SKILL.md";
  index_schema_version = 1;
  installed_tree_digest = codes "sha256:" ++ zeros;
}

catalog_root_iff_example :
    (catalog_root entry ≡ ok (codes "catalog" ∷ [])) ↔ LiesBelow entry (codes "catalog" ∷ [])
catalog_root_iff_example = catalog_root_iff entry (codes "catalog" ∷ [])

abbrev pub workspace : ContributionWorkspace
workspace = record {
  checkout_path = codes "/cache/team-lint";
  source_skill_path = codes "catalog/lint";
  current_base_revision = codes "1123456789012345678901234567890123456789";
  locked_revision = codes "0123456789012345678901234567890123456789";
  has_usable_origin = true;
}

abbrev return : {A : Type 0} → A → Action Exception ℕ A
return a w = (ok a, w)

-- Each call that writes counts.
abbrev count : {A : Type 0} → A → Action Exception ℕ A
count a w = (ok a, suc w)

abbrev ports : SkillChangeStatus → ℕ → PublishPorts
ports status changes = record {
  World = ℕ;
  resolve_entry = λ reference path. return entry;
  prepare_workspace = λ e root. return workspace;
  compare = λ e w. return (record {
    status = status;
    installed_path = codes "/work/skills/lint";
    source_skill_path = codes "catalog/lint";
    changed_file_count = changes;
  });
  prepare_branch = λ e w. count (codes "ritebook/catalog-lint-20260102030405");
  copy_installed_skill = λ e w. count tt;
  validate = λ e w. count tt;
  regenerate_index = λ e w. count tt;
  commit_changes = λ e w branch. count (record {
    skill_reference = codes "team/lint";
    checkout_path = codes "/cache/team-lint";
    branch_name = branch;
    commit_hash = codes "2123456789012345678901234567890123456789";
    push_command = none;
  });
}

abbrev command : PublishSkillChangeCommand
command = record {
  skill_reference = codes "team/lint";
  lockfile_path = none;
  contribution_root = none;
}

execute-refines_example :
    IsOrdered (ports changed 1) (execute (logged (ports changed 1)) command (0, []))
    × (erase (execute (logged (ports changed 1)) command (0, []))
        ≡ execute (ports changed 1) command 0)
execute-refines_example = execute-refines (ports changed 1) command 0

-- A host whose git always succeeds; the marker is there or not.
abbrev host : Bool → ContributionHost
host marked = record {
  World = ℕ;
  run = λ command. count (record { returncode = 0; stdout = codes "origin" });
  run_bytes = λ command. count (record { returncode = 0; stdout = [] });
  exists = λ w path. true;
  is_dir = λ w path. true;
  is_file = λ w path. marked;
  is_symlink = λ w path. false;
  resolve = λ w path. some path;
  resolve_strict = λ w path. some path;
  read_bytes = λ w path. none;
  cwd = λ w. codes "/work";
  chdir = λ path. return true;
  make_parents = λ path. count tt;
  write_text = λ path content. count true;
  expanduser = λ path. path;
  join_path = λ path name. path ++ (b'/' ∷ name);
  join_all = λ path parts. path;
  is_relative_to = λ path root. starts_with path root;
  sha256 = λ value. zeros;
  sha256_bytes = λ content. zeros;
  timestamp = return (codes "20260102030405");
}

abbrev place : Text
place = codes "/cache/0000000000000000/team-catalog-lint-00000000"

place_is_chosen :
    (marked : Bool) → checkout_path (host marked) entry (some (codes "/cache")) 0 ≡ (ok place, 0)
unfolding checkout_path has_symlink take starts_with ◌>>=◌ pure
place_is_chosen marked = refl

abbrev prepared : ContributionWorkspace
prepared = record {
  checkout_path = place;
  source_skill_path = codes "catalog/lint";
  current_base_revision = codes "origin";
  locked_revision = codes "0123456789012345678901234567890123456789";
  has_usable_origin = true;
}

workspace_is_prepared :
    prepare_workspace (host true) entry (some (codes "/cache")) 0 ≡ (ok prepared, 9)
unfolding prepare_workspace list_beq ◌>>=◌ starts_with strip is_space check_workspace
    require_non_empty require_safe_repository_path ends_with has_sub split posix_parts filter take
workspace_is_prepared = refl

prepare_workspace-IsVerified_example : IsVerified (host true) entry place
prepare_workspace-IsVerified_example =
    prepare_workspace-IsVerified (host true) entry (some (codes "/cache")) 0 9 prepared
      workspace_is_prepared
