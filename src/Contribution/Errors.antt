-- ===== src/Contribution/Errors.antt =====
-- skill_contribution/application/errors.py: one constructor for each error class, and the other
-- exceptions that pass through the workflow.
use ritebook.Text.{Text}
use ritebook.Kernel.Errors.{ValueError}

pub data SkillContributionError : Type 0 where
  -- the base class, raised for a directory that is no skill
  unusable_skill_directory : SkillContributionError
  invalid_contribution_skill_reference : ValueError → SkillContributionError
  contribution_lockfile_read : SkillContributionError
  contribution_lockfile_entry_not_found : Text → SkillContributionError
  -- the reference and the name of the field
  incomplete_contribution_provenance : Text → Text → SkillContributionError
  missing_installed_skill_target : Text → SkillContributionError
  upstream_skill_changed skill_contribution_validation contribution_index_regeneration
        contribution_git unsafe_contribution_path :
      SkillContributionError

-- `other` stands for an exception of no class of the application, such as `TypeError`.
pub data Exception : Type 0 where
  contribution : SkillContributionError → Exception
  value_error : ValueError → Exception
  other : Exception
