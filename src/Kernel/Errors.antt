-- ===== src/Kernel/Errors.antt =====
-- What the validators of the shared kernel raise: `ValueError` and its subclasses, without the
-- texts of the messages but with the values that the handlers read.
use ritebook.Prelude.{Option, String}
use ritebook.Text.{Text}

-- shared_kernel/portable_paths.py
pub data PortablePathValidationReason : Type 0 where
  malformed_path invalid_segment : PortablePathValidationReason

-- shared_kernel/catalog_paths.py
pub data CatalogPathValidationReason : Type 0 where
  malformed_path invalid_depth invalid_segment duplicate_path mixed_node :
      CatalogPathValidationReason

pub data ValueError : Type 0 where
  -- a plain `ValueError` about the named field
  not_kebab_case not_index_name control_characters not_portable blank too_long not_normalized
        not_git_branch not_timezone_aware not_timestamp unsafe_relative_path empty_value
        not_object_id not_digest not_positive :
      String → ValueError
  unsupported_schema_version not_final_segment not_path_skill_file too_many_entries name_or_all
        local_source_cache unsafe_git_source :
      ValueError
  unqualified_reference : ValueError
  -- of a contribution's comparison and result
  unexpected_changed_files missing_prepared unexpected_prepared : ValueError
  portable_path : String → PortablePathValidationReason → ValueError
  -- the reason, the path and the related path
  catalog_path : CatalogPathValidationReason → Text → Option Text → ValueError
