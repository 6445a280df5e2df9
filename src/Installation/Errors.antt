-- ===== src/Installation/Errors.antt =====
-- skill_installation/application/errors.py: one constructor for each error class with the value it
-- is built from, and the other exceptions that pass through the use cases.
use ritebook.Text.{Text}
use ritebook.Kernel.Errors.{ValueError}

-- The messages with which `InvalidSkillReferenceError` is raised.
pub data InvalidReference : Type 0 where
  unparsable : ValueError → InvalidReference
  exactly_one_target collection_needs_target : InvalidReference
  unportable_target : Text → InvalidReference

pub data SkillInstallationError : Type 0 where
  invalid_skill_reference : InvalidReference → SkillInstallationError
  unknown_install_index unknown_install_skill duplicate_skill_requirement duplicate_install_target
        existing_install_target unmanaged_install_target locally_modified_install_target
        committed_skill_metadata_mismatch :
      Text → SkillInstallationError
  undefined_install_target : Text → Text → SkillInstallationError
  index_refresh unsafe_install_path installation_persistence installation_busy requirements_read
        skill_source_resolution committed_skill_validation :
      SkillInstallationError

-- `other` stands for an exception of no class of the application, such as `KeyboardInterrupt`.
pub data Exception : Type 0 where
  installation : SkillInstallationError → Exception
  value_error : ValueError → Exception
  other : Exception
