-- ===== src/Kernel/GitBranches.antt =====
-- shared_kernel/git_branches.py
use ritebook.Prelude.{ℕ, Bool, ◌||◌, not, List, [], String, Result, ok, err, any, contains}
use ritebook.Prelude.{◌==◌, nat_eq, list_eq, if◌then◌else◌, ltb}
use ritebook.Text.{Text, codes, starts_with, ends_with, has_sub, split, remove_prefix}
use ritebook.Kernel.Errors.{ValueError, not_git_branch}

abbrev canonical_branch_prefix : Text
canonical_branch_prefix = codes "refs/heads/"

abbrev ascii_control_character_limit : ℕ
ascii_control_character_limit = 32

abbrev invalid_characters : List ℕ
invalid_characters = codes " ~^:?*[\\"

-- The condition on the name behind the prefix.
unfoldable pub is_invalid_branch : Text → Bool
is_invalid_branch branch =
    branch == []
    || starts_with branch (codes "/")
    || ends_with branch (codes "/")
    || ends_with branch (codes ".")
    || has_sub branch (codes "//")
    || has_sub branch (codes "..")
    || has_sub branch (codes "@{")
    || any (λ c. contains invalid_characters c || ltb c ascii_control_character_limit) branch
    || any (λ part. ends_with part (codes ".lock")) (split b'/' branch)

unfoldable pub require_canonical_git_branch : Text → String → Result ValueError Text
unfolding is_invalid_branch
require_canonical_git_branch value field_name =
    if not (starts_with value canonical_branch_prefix)
    then err (not_git_branch field_name)
    else if is_invalid_branch (remove_prefix value canonical_branch_prefix)
    then err (not_git_branch field_name)
    else ok value
