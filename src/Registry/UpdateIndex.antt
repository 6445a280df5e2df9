-- ===== src/Registry/UpdateIndex.antt =====
-- index_registry/application/use_cases/update_index.py
use ritebook.Prelude.{
  ◌+◌, Bool, true, false, ◌&&◌, not, List, [], ◌∷◌, ◌++◌, Option, none, some, Result, ok, err, any,
}
use ritebook.Prelude.{◌==◌, nat_eq, list_eq, option_eq, if◌then◌else◌, length}
use ritebook.Prelude.Actions.{Action, pure, raise, lift, ◌>>=◌, ◌>>◌}
use ritebook.Text.{Text}
use ritebook.Registry.Errors.{
  Exception, registry_error, value_error, unknown_index_name, index_registry_persistence,
  index_source,
}
use ritebook.Kernel.Errors.{name_or_all}
use ritebook.Registry.Records.{
  UpdateIndexCommand, UpdateIndexResult, PreparedIndexSource, PublishedIndex, RegisteredIndex,
  AliasOrigin, explicit,
}
use ritebook.Registry.Reader.{read_index}
use ritebook.Registry.Store.{
  World, Registration, registered, recoverable, name_of, find, list_entries, next_event,
  later_events,
}
use ritebook.Registry.Publish.{IndexPorts, of_port, utc_timestamp, previous_cache, publish_entry}
use ritebook.Registry.AddIndex.{write_transaction}

abbrev pub source_of : Registration → Text
source_of (registered e) = e.source
source_of (recoverable e) = e.source

abbrev pub branch_of : Registration → Option Text
branch_of (registered e) = some e.source_branch
branch_of (recoverable e) = none

abbrev pub source_cache_of : Registration → Option Text
source_cache_of (registered e) = e.source_cache_path
source_cache_of (recoverable e) = none

abbrev pub origin_of : Registration → AliasOrigin
origin_of (registered e) = e.alias_origin
origin_of (recoverable e) = explicit

abbrev pub added_at_of : Registration → Text → Text
added_at_of (registered e) updated_at = e.added_at
added_at_of (recoverable e) updated_at = updated_at

unfoldable pub updated_entry :
    Registration → PreparedIndexSource → PublishedIndex → Text → Text → RegisteredIndex
updated_entry existing prepared published updated_at cached_index_path = record {
  name = name_of existing;
  published_name = published.published_name;
  alias_origin = origin_of existing;
  source = prepared.source;
  source_type = prepared.source_type;
  source_revision = prepared.source_revision;
  source_branch = prepared.source_branch;
  index_digest = published.index_digest;
  source_cache_path = prepared.source_cache_path;
  cached_index_path = cached_index_path;
  source_schema_version = published.schema_version;
  skill_count = published.skill_count;
  added_at = added_at_of existing updated_at;
  updated_at = updated_at;
}

abbrev is_new_source : Registration → Text → Bool
is_new_source (registered e) path = not (some path == e.source_cache_path)
is_new_source (recoverable e) path = true

-- `_replacement_source_cache_path`
unfoldable pub replacement_source_cache_path :
    Registration → PreparedIndexSource → Bool → Option Text
replacement_source_cache_path existing prepared force = elim prepared.source_cache_path [
  | none ↦ none
  | some path ↦ if force && is_new_source existing path then some path else none
]

-- `_source_cache_path_is_referenced`
unfoldable pub source_cache_path_is_referenced : List Registration → Text → Bool
source_cache_path_is_referenced entries path =
    any (λ entry. source_cache_of entry == some path) (list_entries entries)

-- suppress(IndexSourceError)
abbrev suppress_source_error : Result Exception Unit → Result Exception Unit
suppress_source_error (err (registry_error index_source)) = ok tt
suppress_source_error (err e) = err e
suppress_source_error (ok u) = ok u

abbrev note_failure : Text → UpdateIndexResult → UpdateIndexResult
note_failure name o = record o { failed_indexes = o.failed_indexes ++ (name ∷ []) }

abbrev note_update : Text → RegisteredIndex → UpdateIndexResult → UpdateIndexResult
note_update name entry o = record o {
  skill_count = o.skill_count + entry.skill_count;
  updated_indexes = o.updated_indexes ++ (name ∷ []);
  updated_indexes_metadata = o.updated_indexes_metadata ++ (entry ∷ []);
}

-- How the loop of `_execute_all` takes what one update returned or raised.
abbrev pub note :
    Text → UpdateIndexResult → Result Exception RegisteredIndex → Result Exception UpdateIndexResult
note name o (ok entry) = ok (note_update name entry o)
note name o (err (registry_error e)) = ok (note_failure name o)
note name o (err (value_error e)) = ok (note_failure name o)
note name o (err e) = err e

abbrev pub nothing_updated : UpdateIndexResult
nothing_updated = record {
  name = none;
  skill_count = 0;
  updated_indexes = [];
  failed_indexes = [];
  updated_index = none;
  updated_indexes_metadata = [];
}

module _ {State : Type 0} where
  -- Whether an empty file of schema version 1 is left, and whether writing one of version 2 raises.
  abbrev pub promote : Bool → Bool → Action Exception (World State) Unit
  promote false fails w = (ok tt, w)
  promote true true w =
      (err (registry_error index_registry_persistence), record w { events = later_events w.events })
  promote true false w = (ok tt, record w { events = later_events w.events; legacy = false })

  -- The end of `recovery_transaction`.
  abbrev pub end_recovery : Action Exception (World State) Unit
  end_recovery w = promote (w.legacy && length w.entries == 0) (next_event w.events).fails w

module _ {State : Type 0} (P : IndexPorts State) (c : UpdateIndexCommand) where
  -- with suppress(IndexSourceError): self._git_source.discard_source(...)
  unfoldable pub try_discard_source : Registration → Text → Action Exception (World State) Unit
  unfolding of_port
  try_discard_source existing path = of_port (λ s.
      let r = P.discard_source (source_of existing) path c.cache_root c.registry_path s in
      (suppress_source_error r.0, r.1))

  abbrev pub retire_path :
      Registration → PreparedIndexSource → Option Text → Action Exception (World State) Unit
  retire_path existing prepared none w = pure tt w
  retire_path existing prepared (some path) w =
      (if c.force
            && not (some path == prepared.source_cache_path)
            && not (source_cache_path_is_referenced w.entries path)
          then try_discard_source existing path
          else pure tt)
        w

  -- The clone that a forced update has replaced goes, when no entry refers to it.
  unfoldable pub retire_source :
      Registration → PreparedIndexSource → Action Exception (World State) Unit
  unfolding try_discard_source pure
  retire_source existing prepared w = retire_path existing prepared (source_cache_of existing) w

  -- `_commit_update`
  unfoldable pub commit_update :
      Registration → PreparedIndexSource → Action Exception (World State) RegisteredIndex
  unfolding publish_entry retire_source of_port ◌>>=◌ lift pure
  commit_update existing prepared = do
    published ← lift (read_index P.library.reader prepared.index_content)
    now ← of_port P.clock
    updated_at ← lift (utc_timestamp P.library.reader now)
    entry ←
        publish_entry P c.cache_root c.registry_path (name_of existing) published
          (previous_cache (some existing)) c.force
          (updated_entry existing prepared published updated_at)
    retire_source existing prepared
    pure entry

  -- The `finally` block of `_update_entry`: an error of its own takes the place of the first.
  abbrev pub finish_update :
      Registration
      → Option Text
      → Result Exception RegisteredIndex
      → Action Exception (World State) RegisteredIndex
  finish_update existing replacement (ok entry) = pure entry
  finish_update existing none (err e) = raise e
  finish_update existing (some path) (err e) = try_discard_source existing path >> raise e

  -- `_update_entry`, which returns the new entry
  unfoldable pub update_entry : Registration → Action Exception (World State) RegisteredIndex
  unfolding commit_update of_port ◌>>=◌ raise pure
  update_entry existing = do
    prepared ← of_port (
        P.refresh_source (source_of existing) (branch_of existing) (source_cache_of existing)
          c.cache_root c.registry_path c.force)
    let replacement = replacement_source_cache_path existing prepared c.force
    λ w. let r = commit_update existing prepared w in finish_update existing replacement r.0 r.1

  -- The loop of `_execute_all` over the registrations listed at its start.
  unfoldable pub update_all :
      List Registration → UpdateIndexResult → Action Exception (World State) UpdateIndexResult
  unfolding update_entry ◌>>=◌ pure
  update_all [] o = pure o
  update_all (existing ∷ rest) o = do
    o' ← λ w. let r = update_entry existing w in (note (name_of existing) o r.0, r.1)
    update_all rest o'

  abbrev pub update_found :
      Text → Option Registration → Action Exception (World State) UpdateIndexResult
  update_found name none = raise (registry_error (unknown_index_name name))
  update_found name (some existing) = do
    entry ← update_entry existing
    pure (record nothing_updated {
      name = some (name_of existing);
      skill_count = entry.skill_count;
      updated_index = some entry;
    })

  abbrev pub update_named : Option Text → Action Exception (World State) UpdateIndexResult
  update_named none w = raise (value_error name_or_all) w
  update_named (some name) w = update_found name (find name w.entries) w

  -- The body of the transaction, of one index or of all.
  unfoldable pub update_selected : Action Exception (World State) UpdateIndexResult
  unfolding update_all update_entry ◌>>=◌ raise pure
  update_selected w =
      (if c.all then update_all (list_entries w.entries) nothing_updated else update_named c.name) w

  unfoldable pub recovery_transaction :
      Action Exception (World State) UpdateIndexResult
      → Action Exception (World State) UpdateIndexResult
  unfolding ◌>>=◌ pure
  recovery_transaction body = do result ← body; end_recovery; pure result

  unfoldable pub update_index : Action Exception (World State) UpdateIndexResult
  unfolding update_selected write_transaction recovery_transaction
  update_index =
      if c.force then recovery_transaction update_selected else write_transaction update_selected
