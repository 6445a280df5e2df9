-- ===== src/Registry/Errors.antt =====
-- index_registry/application/errors.py, and the other exceptions of the use cases.
use ritebook.Text.{Text}
use ritebook.Kernel.Errors.{ValueError}
use ritebook.Kernel.SchemaV1.{SchemaV1CatalogError}

pub data IndexRegistryError : Type 0 where
  duplicate_index_name unknown_index_name : Text → IndexRegistryError
  invalid_published_index : SchemaV1CatalogError → IndexRegistryError
  -- the cached index is missing, cannot be read, or does not match its digest
  invalid_cached_index : IndexRegistryError
  index_registry_persistence index_registry_busy index_cache index_source : IndexRegistryError

pub data Exception : Type 0 where
  registry_error : IndexRegistryError → Exception
  value_error : ValueError → Exception
  -- an exception that no handler of the use cases names
  other : Exception
