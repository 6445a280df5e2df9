-- ===== src/Registry/Records.antt =====
-- index_registry/application/dtos/index_registry.py
use ritebook.Prelude.{ℕ, Bool, not, List, [], Option, none, some, Result, ok, err}
use ritebook.Prelude.{
  ◌≡◌, arith, ◌==◌, nat_eq, list_eq, if◌then◌else◌, ◌>>◌, raise_if, is_some, >>=-eq-ok,
}
use ritebook.Text.{Text}
use ritebook.Kernel.Errors.{
  ValueError, empty_value, unsupported_schema_version, name_or_all, local_source_cache,
}
use ritebook.Kernel.Identifiers.{require_index_name}
use ritebook.Kernel.GitBranches.{require_canonical_git_branch}
use ritebook.Installation.References.{require_non_empty}
use ritebook.Installation.Records.{
  require_source_revision, require_index_digest, require_optional_non_empty,
}

pub data IndexSourceType : Type 0 where
  git_url local_git_repo : IndexSourceType

pub data AliasOrigin : Type 0 where
  published_name explicit : AliasOrigin

pub record AddIndexCommand : Type 0 where
  pub source : Text
  pub alias : Option Text
  pub force : Bool
  pub registry_path : Option Text
  pub cache_root : Option Text

pub record UpdateIndexCommand : Type 0 where
  pub name : Option Text
  pub all : Bool
  pub force : Bool
  pub registry_path : Option Text
  pub cache_root : Option Text

pub record PreparedIndexSource : Type 0 where
  pub source : Text
  pub source_type : IndexSourceType
  pub repository_path : Text
  pub source_revision : Text
  pub source_branch : Text
  pub index_content : List ℕ
  pub source_cache_path : Option Text

pub record PublishedIndex : Type 0 where
  pub published_name : Text
  pub schema_version : ℕ
  pub skill_count : ℕ
  pub cacheable_content : List ℕ
  pub index_digest : Text

pub record RegisteredIndex : Type 0 where
  pub name : Text
  pub published_name : Text
  pub alias_origin : AliasOrigin
  pub source : Text
  pub source_type : IndexSourceType
  pub source_revision : Text
  pub source_branch : Text
  pub index_digest : Text
  pub source_cache_path : Option Text
  pub cached_index_path : Text
  pub source_schema_version : ℕ
  pub skill_count : ℕ
  pub added_at : Text
  pub updated_at : Text

-- RecoverableIndex: a source of a legacy registry, to be rebuilt
pub record RecoverableIndex : Type 0 where
  pub name : Text
  pub source : Text
  pub source_type : IndexSourceType

pub record AddIndexResult : Type 0 where
  pub name : Text
  pub skill_count : ℕ

pub record UpdateIndexResult : Type 0 where
  pub name : Option Text
  pub skill_count : ℕ
  pub updated_indexes : List Text
  pub failed_indexes : List Text
  pub updated_index : Option RegisteredIndex
  pub updated_indexes_metadata : List RegisteredIndex

abbrev check_alias : Option Text → Result ValueError Unit
check_alias none = ok tt
check_alias (some alias) = require_index_name alias "Local alias"

-- `AddIndexCommand.__post_init__`
unfoldable pub check_add_command : AddIndexCommand → Result ValueError AddIndexCommand
check_add_command c = do
  require_non_empty c.source "Index source"
  check_alias c.alias
  require_optional_non_empty c.registry_path "Registry path"
  require_optional_non_empty c.cache_root "Cache root"
  ok c

-- `UpdateIndexCommand.__post_init__`
unfoldable pub check_update_command : UpdateIndexCommand → Result ValueError UpdateIndexCommand
check_update_command c = do
  raise_if (if is_some c.name then c.all else not c.all) name_or_all
  check_alias c.name
  require_optional_non_empty c.registry_path "Registry path"
  require_optional_non_empty c.cache_root "Cache root"
  ok c

-- The last test of a prepared source and of an entry: a cache path, for a Git URL and no other.
unfoldable pub check_source_cache : IndexSourceType → Option Text → Result ValueError Unit
check_source_cache git_url none = err (empty_value "Source cache path")
check_source_cache git_url (some path) = require_non_empty path "Source cache path"
check_source_cache local_git_repo none = ok tt
check_source_cache local_git_repo (some path) = err local_source_cache

-- `PreparedIndexSource.__post_init__`
unfoldable pub check_prepared : PreparedIndexSource → Result ValueError PreparedIndexSource
unfolding check_source_cache
check_prepared p = do
  require_non_empty p.source "Index source"
  require_non_empty p.repository_path "Repository path"
  require_source_revision p.source_revision
  require_canonical_git_branch p.source_branch "Source branch"
  raise_if (p.index_content == []) (empty_value "Committed index content")
  check_source_cache p.source_type p.source_cache_path
  ok p

-- `PublishedIndex.__post_init__`
unfoldable pub check_published : PublishedIndex → Result ValueError PublishedIndex
check_published p = do
  require_index_name p.published_name "Published index name"
  raise_if (not (p.schema_version == 1)) unsupported_schema_version
  raise_if (p.cacheable_content == []) (empty_value "Cacheable index content")
  require_index_digest p.index_digest
  ok p

-- `RegisteredIndex.__post_init__`
unfoldable pub check_registered : RegisteredIndex → Result ValueError RegisteredIndex
unfolding check_source_cache
check_registered e = do
  require_index_name e.name "Local alias"
  require_index_name e.published_name "Published index name"
  require_non_empty e.source "Index source"
  require_source_revision e.source_revision
  require_canonical_git_branch e.source_branch "Source branch"
  require_index_digest e.index_digest
  require_non_empty e.cached_index_path "Cached index path"
  require_non_empty e.added_at "Added timestamp"
  require_non_empty e.updated_at "Updated timestamp"
  raise_if (not (e.source_schema_version == 1)) unsupported_schema_version
  check_source_cache e.source_type e.source_cache_path
  ok e

pub check_registered-eq-ok : (e e' : RegisteredIndex) → check_registered e ≡ ok e' → e ≡ e'
unfolding check_registered
check_registered-eq-ok e e' h = ground arith

pub check_registered-name :
    (e e' : RegisteredIndex)
    → check_registered e ≡ ok e'
    → require_index_name e.name "Local alias" ≡ ok tt
unfolding check_registered
check_registered-name e e' h = (>>=-eq-ok (require_index_name e.name "Local alias") _ h).1
