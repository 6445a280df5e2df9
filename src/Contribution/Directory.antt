-- ===== src/Contribution/Directory.antt =====
-- skill_contribution/adapters/outbound/skill_directory/adapter.py
pub mod Changes
use ritebook.Prelude.{
  ℕ, ◌+◌, Bool, true, false, ◌&&◌, ◌||◌, not, List, [], ◌∷◌, Option, none, some, map, filter, any,
  length, catch, contains,
}
use ritebook.Prelude.{◌==◌, nat_eq, list_eq, if◌then◌else◌}
use ritebook.Prelude.Actions.{Action, pure, raise, lift, ◌>>=◌, ◌>>◌}
use ritebook.Text.{Text, codes, starts_with, ends_with, has_sub}
use ritebook.Kernel.PortablePaths.{posix_parts, last_or_empty}
use ritebook.Contribution.Errors.{
  Exception, contribution, value_error, unusable_skill_directory, missing_installed_skill_target,
  unsafe_contribution_path,
}
use ritebook.Contribution.Records.{
  ContributionLockfileEntry, ContributionWorkspace, SkillChangeComparison, SkillChangeStatus,
  no_changes, changed, check_comparison,
}
use ritebook.Contribution.Git.{ContributionHost}

-- What stands at a path below a directory: a directory, or a file with its bytes.
pub data Node : Type 0 where
  directory : Node
  file : List ℕ → Node

-- The tree below a directory, by relative paths.
abbrev pub Tree : Type 0
Tree = List (Text × Node)

unfoldable pub node_at : Tree → Text → Option Node
node_at [] path = none
node_at ((p, node) ∷ tree) path = if p == path then some node else node_at tree path

abbrev pub skill_file_name : Text
skill_file_name = codes "SKILL.md"

-- `_directory_entries`
abbrev pub directory_entries : Tree → List Text
directory_entries tree = map (λ (entry : Text × Node). entry.0) tree

abbrev pub is_absent : Option Node → Bool
is_absent none = true
is_absent (some node) = false

-- A path that is a file in both trees, with other bytes.
abbrev pub differs : Option Node → Option Node → Bool
differs (some (file left)) (some (file right)) = not (left == right)
differs _ _ = false

-- `_changed_file_count`: the paths that only one tree has, and the files that differ.
unfoldable pub changed_file_count : Tree → Tree → ℕ
unfolding node_at
changed_file_count left right =
    length (filter (λ path. is_absent (node_at right path)) (directory_entries left))
    + length (filter (λ path. is_absent (node_at left path)) (directory_entries right))
    + length
        (filter (λ path. differs (node_at left path) (node_at right path)) (directory_entries left))

-- The rest of what the adapter asks of the file system.
pub record DirectoryHost : Type 1 where
  pub host : ContributionHost
  -- the tree below a directory, and whether there is a link in it
  pub tree_at : host.World → Text → Tree
  pub has_links : host.World → Text → Bool
  -- shutil.rmtree(path), shutil.copytree(source, target, symlinks=False), path.mkdir(parents=True)
  pub remove_tree : Text → Action Exception host.World Unit
  pub copy_tree : Text → Text → Action Exception host.World Unit
  pub make_directory : Text → Action Exception host.World Unit

abbrev pub unsafe_path : Exception
unsafe_path = contribution unsafe_contribution_path

-- `_safe_relative_path`, without the path: whether it is one
unfoldable pub is_safe_relative_path : Text → Bool
is_safe_relative_path value =
    not (
      starts_with value (codes "/")
      || ends_with value (codes "/")
      || has_sub value (codes "//")
      || has_sub value (codes "\\"))
    && not (
        starts_with value (codes "/")
        || posix_parts value == []
        || any (λ part. part == codes "." || part == codes "..") (posix_parts value))

-- path.relative_to(parent) succeeds.
unfoldable pub parts_below : List Text → List Text → Bool
parts_below path [] = true
parts_below [] (p ∷ parent) = false
parts_below (x ∷ path) (p ∷ parent) = x == p && parts_below path parent

-- `_validate_source_paths`
unfoldable pub are_safe_source_paths : ContributionLockfileEntry → ContributionWorkspace → Bool
unfolding is_safe_relative_path parts_below
are_safe_source_paths entry workspace =
    is_safe_relative_path entry.skill_path
    && is_safe_relative_path entry.skill_file
    && is_safe_relative_path workspace.source_skill_path
    && posix_parts entry.skill_path == posix_parts workspace.source_skill_path
    && parts_below (posix_parts entry.skill_file) (posix_parts entry.skill_path)
    && last_or_empty (posix_parts entry.skill_file) == skill_file_name

module _ (D : DirectoryHost) where
  abbrev require : Bool → Exception → Action Exception D.host.World Unit
  require true e = pure tt
  require false e = raise e

  -- path.exists() and path.is_dir() and not path.is_symlink()
  abbrev is_real_directory : D.host.World → Text → Bool
  is_real_directory w path =
      D.host.exists w path && D.host.is_dir w path && not (D.host.is_symlink w path)

  abbrev resolved : Option Text → Exception → Action Exception D.host.World Text
  resolved none e = raise e
  resolved (some path) e = pure path

  -- `_installed_skill_path`
  unfoldable pub installed_skill_path :
      ContributionLockfileEntry → Action Exception D.host.World Text
  installed_skill_path entry w =
      let path = D.host.expanduser entry.target in
      (do
        require (is_real_directory w path)
            (contribution (missing_installed_skill_target entry.target))
        resolved (D.host.resolve_strict w path) Exception.other)
        w

  -- `_checkout_path`
  unfoldable pub resolved_checkout : ContributionWorkspace → Action Exception D.host.World Text
  resolved_checkout workspace w =
      let path = D.host.expanduser workspace.checkout_path in
      (do
        require (is_real_directory w path) unsafe_path
        resolved (D.host.resolve_strict w path) Exception.other)
        w

  abbrev is_inside : Option Text → Text → Bool
  is_inside none checkout = false
  is_inside (some path) checkout = D.host.is_relative_to path checkout

  -- `_source_skill_path`
  unfoldable pub source_skill_path :
      ContributionLockfileEntry → ContributionWorkspace → Action Exception D.host.World Text
  unfolding are_safe_source_paths resolved_checkout
  source_skill_path entry workspace = do
    require (are_safe_source_paths entry workspace) unsafe_path
    checkout ← resolved_checkout workspace
    let candidate = D.host.join_all checkout (posix_parts entry.skill_path)
    λ w. require (is_inside (D.host.resolve w candidate) checkout) unsafe_path w
    pure candidate

  -- `_validate_skill_directory`, with `_reject_symlinks`
  unfoldable pub validate_skill_directory : Text → Action Exception D.host.World Unit
  validate_skill_directory path w =
      let skill_file = D.host.join_path path skill_file_name in
      (do
        require (is_real_directory w path) (contribution unusable_skill_directory)
        require (D.host.is_file w skill_file && not (D.host.is_symlink w skill_file))
            (contribution unusable_skill_directory)
        require (not (D.has_links w path)) unsafe_path)
        w

  abbrev pub status_of : ℕ → SkillChangeStatus
  status_of count = if count == 0 then no_changes else changed

  -- `FilesystemSkillDirectoryAdapter.compare`
  unfoldable pub compare :
      ContributionLockfileEntry
      → ContributionWorkspace
      → Action Exception D.host.World SkillChangeComparison
  unfolding installed_skill_path source_skill_path validate_skill_directory changed_file_count
  compare entry workspace = do
    installed ← installed_skill_path entry
    source ← source_skill_path entry workspace
    validate_skill_directory installed
    validate_skill_directory source
    λ w.
        let count = changed_file_count (D.tree_at w installed) (D.tree_at w source) in
        lift
          (catch
            (check_comparison (record {
              status = status_of count;
              installed_path = installed;
              source_skill_path = entry.skill_path;
              changed_file_count = count;
            }))
            value_error)
          w

  -- The loop of `_validate_destination_parent`.
  unfoldable pub passes_link : D.host.World → Text → List Text → Bool
  passes_link w current [] = false
  passes_link w current (part ∷ parts) =
      D.host.is_symlink w (D.host.join_path current part)
      || passes_link w (D.host.join_path current part) parts

  -- all parts but the last
  abbrev parent_parts : List Text → List Text
  parent_parts [] = []
  parent_parts (part ∷ []) = []
  parent_parts (part ∷ next ∷ parts) = part ∷ parent_parts (next ∷ parts)

  abbrev resolved_inside : Option Text → Text → Action Exception D.host.World Text
  resolved_inside none checkout = raise unsafe_path
  resolved_inside (some path) checkout =
      if D.host.is_relative_to path checkout then pure path else raise unsafe_path

  -- `_validate_destination_parent`, of the parts of the parent below the checkout
  unfoldable pub validate_destination_parent : List Text → Text → Action Exception D.host.World Unit
  unfolding passes_link
  validate_destination_parent parts checkout w =
      (do
        require (not (passes_link w checkout parts)) unsafe_path
        parent ← resolved_inside (D.host.resolve w (D.host.join_all checkout parts)) checkout
        D.make_directory parent)
        w

  -- `if source_path.exists() or source_path.is_symlink(): ...`
  abbrev remove_if : Bool → Text → Action Exception D.host.World Unit
  remove_if false source = pure tt
  remove_if true source = do validate_skill_directory source; D.remove_tree source

  -- `FilesystemSkillDirectoryAdapter.copy_installed_skill`
  unfoldable pub copy_installed_skill :
      ContributionLockfileEntry → ContributionWorkspace → Action Exception D.host.World Unit
  unfolding installed_skill_path source_skill_path validate_skill_directory
      validate_destination_parent resolved_checkout
  copy_installed_skill entry workspace = do
    installed ← installed_skill_path entry
    source ← source_skill_path entry workspace
    validate_skill_directory installed
    checkout ← resolved_checkout workspace
    validate_destination_parent (parent_parts (posix_parts entry.skill_path)) checkout
    λ w. remove_if (D.host.exists w source || D.host.is_symlink w source) source w
    D.copy_tree installed source
