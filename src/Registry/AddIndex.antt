-- ===== src/Registry/AddIndex.antt =====
-- index_registry/application/use_cases/add_index.py
use ritebook.Prelude.{
  false, ◌&&◌, not, [], ◌∷◌, Option, none, some, raise_if, is_some, if◌then◌else◌,
}
use ritebook.Prelude.Actions.{Action, pure, raise, lift, ◌>>=◌, ◌>>◌}
use ritebook.Text.{Text}
use ritebook.Registry.Errors.{
  Exception, registry_error, duplicate_index_name, index_registry_persistence,
}
use ritebook.Registry.Records.{
  AddIndexCommand, AddIndexResult, PreparedIndexSource, PublishedIndex, RegisteredIndex,
  published_name, explicit,
}
use ritebook.Registry.Reader.{read_index}
use ritebook.Registry.Store.{World, Registration, find}
use ritebook.Registry.Publish.{IndexPorts, of_port, utc_timestamp, previous_cache, publish_entry}

-- command.alias or published_index.published_name
abbrev pub local_alias : Option Text → Text → Text
local_alias none name = name
local_alias (some []) name = name
local_alias (some (c ∷ alias)) name = c ∷ alias

unfoldable pub added_entry :
    Text → Option Text → PreparedIndexSource → PublishedIndex → Text → Text → RegisteredIndex
added_entry name alias prepared published timestamp cached_index_path = record {
  name = name;
  published_name = published.published_name;
  alias_origin = if is_some alias then explicit else published_name;
  source = prepared.source;
  source_type = prepared.source_type;
  source_revision = prepared.source_revision;
  source_branch = prepared.source_branch;
  index_digest = published.index_digest;
  source_cache_path = prepared.source_cache_path;
  cached_index_path = cached_index_path;
  source_schema_version = published.schema_version;
  skill_count = published.skill_count;
  added_at = timestamp;
  updated_at = timestamp;
}

-- A writer of the registry's file, which only a recovery may do for one of schema version 1.
unfoldable pub write_transaction :
    {State A : Type 0} → Action Exception (World State) A → Action Exception (World State) A
unfolding raise
write_transaction body w =
    (if w.legacy then raise (registry_error index_registry_persistence) else body) w

module _ {State : Type 0} (P : IndexPorts State) (c : AddIndexCommand) where
  -- What follows `registry.get`.
  unfoldable pub register :
      PreparedIndexSource
      → PublishedIndex
      → Text
      → Option Registration
      → Action Exception (World State) AddIndexResult
  unfolding publish_entry of_port ◌>>=◌ lift pure
  register prepared published name existing = do
    lift (raise_if (is_some existing && not c.force) (registry_error (duplicate_index_name name)))
    now ← of_port P.clock
    timestamp ← lift (utc_timestamp P.library.reader now)
    publish_entry P c.cache_root c.registry_path name published (previous_cache existing) false
        (added_entry name c.alias prepared published timestamp)
    pure (record { name = name; skill_count = published.skill_count })

  unfoldable pub prepare_and_register : Action Exception (World State) AddIndexResult
  unfolding register of_port ◌>>=◌ lift
  prepare_and_register = do
    prepared ← of_port (P.prepare_source c.source c.cache_root c.registry_path)
    published ← lift (read_index P.library.reader prepared.index_content)
    let name = local_alias c.alias published.published_name
    λ w. register prepared published name (find name w.entries) w

  -- `AddIndex.execute`
  unfoldable pub add_index : Action Exception (World State) AddIndexResult
  unfolding write_transaction prepare_and_register
  add_index = write_transaction prepare_and_register
