-- ===== src/Contribution/Catalog.antt =====
-- The catalogue that a contribution belongs to: skill_contribution/adapters/outbound/validation and
-- index_regeneration; and the commands for the linter and the publisher, from application/dtos/ of
-- skill_linter and publisher.
pub mod Roots
use ritebook.Prelude.{
  ℕ, ◌-◌, Bool, true, false, ◌&&◌, ◌||◌, not, List, [], ◌∷◌, ◌++◌, Option, none, some, Result, ok,
  err, catch, length, take, drop,
}
use ritebook.Prelude.{◌==◌, nat_eq, list_eq, if◌then◌else◌, ◌>>=◌, ◌>>◌, raise_if}
use ritebook.Text.{Text, codes}
use ritebook.Kernel.Errors.{ValueError}
use ritebook.Kernel.Identifiers.{require_index_name}
use ritebook.Kernel.PortablePaths.{posix_parts}
use ritebook.Installation.Targets.{posix_text}
use ritebook.Contribution.Errors.{
  Exception, contribution, value_error, skill_contribution_validation,
  contribution_index_regeneration,
}
use ritebook.Contribution.Records.{
  ContributionLockfileEntry, ContributionWorkspace, parse, require_non_empty,
}

-- `PublishIndexCommand`
pub record PublishIndexCommand : Type 0 where
  pub index_name : Text
  pub skills_root : Text
  pub published_skills_root : Text

-- `PublishIndexCommand.__post_init__`
unfoldable pub check_request : PublishIndexCommand → Result ValueError PublishIndexCommand
unfolding require_non_empty
check_request command = do
  require_index_name command.index_name "Published index name"
  require_non_empty command.skills_root "Publish index skills root"
  require_non_empty command.published_skills_root "Published skills root"
  ok command

-- `LintSkillsCommand.__post_init__`
unfoldable pub check_lint_root : Text → Result ValueError Text
unfolding require_non_empty
check_lint_root skills_root = do require_non_empty skills_root "Lint skills root"; ok skills_root

-- parts[-depth:] and parts[:-depth], for a depth that is not 0
abbrev pub last_parts : ℕ → List Text → List Text
last_parts depth parts = drop (length parts - depth) parts

abbrev pub first_parts : ℕ → List Text → List Text
first_parts depth parts = take (length parts - depth) parts

-- `_catalog_root`, of the validation: the parts below the checkout
unfoldable pub catalog_root : ContributionLockfileEntry → Result Exception (List Text)
catalog_root entry = do
  reference ← catch (parse entry.requirement) value_error
  let selector = posix_parts reference.skill_selector
  let parts = posix_parts entry.skill_path
  raise_if (not (last_parts (length selector) parts == selector))
      (contribution skill_contribution_validation)
  ok (first_parts (length selector) parts)

-- `_published_skills_root`, of the regeneration
unfoldable pub published_skills_root : ContributionLockfileEntry → Result Exception Text
unfolding posix_text
published_skills_root entry = do
  reference ← catch (parse entry.requirement) (λ e. contribution contribution_index_regeneration)
  let selector = posix_parts reference.skill_selector
  let parts = posix_parts entry.skill_path
  raise_if (not (last_parts (length selector) parts == selector))
      (contribution contribution_index_regeneration)
  ok (posix_text (first_parts (length selector) parts))
