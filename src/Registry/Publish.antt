-- ===== src/Registry/Publish.antt =====
-- What adding and updating an index share: the clock's timestamp, the cached generation, and the
-- entry that takes the place of the existing one (use_cases/add_index.py and update_index.py).
use ritebook.Prelude.{Bool, [], ◌∷◌, ◌++◌, Option, none, some, Result, ok, err, catch}
use ritebook.Prelude.{◌==◌, nat_eq, list_eq, option_eq, if◌then◌else◌}
use ritebook.Prelude.Actions.{Action, pure, raise, lift, ◌>>=◌, ◌>>◌}
use ritebook.Text.{Text}
use ritebook.Kernel.Errors.{not_timezone_aware}
use ritebook.Registry.Errors.{Exception, registry_error, value_error}
use ritebook.Registry.Records.{
  RegisteredIndex, PublishedIndex, PreparedIndexSource, check_registered,
}
use ritebook.Registry.Reader.{ReaderLibrary}
use ritebook.Registry.Store.{
  World, StoreLibrary, Registration, registered, recoverable, upsert, write_index,
  try_discard_index,
}

-- The ports of the use cases besides the registry and the cache; `State` is theirs.
pub record IndexPorts (State : Type 0) : Type 1 where
  pub library : StoreLibrary
  pub prepare_source : Text → Option Text → Option Text → Action Exception State PreparedIndexSource
  -- source, source_branch, source_cache_path, cache_root, registry_path, force
  pub refresh_source :
      Text
      → Option Text
      → Option Text
      → Option Text
      → Option Text
      → Bool
      → Action Exception State PreparedIndexSource
  -- source, source_cache_path, cache_root, registry_path
  pub discard_source : Text → Text → Option Text → Option Text → Action Exception State Unit
  pub clock : Action Exception State library.reader.datetime.Datetime

-- A call of a port, which has no access to the registry and the cache.
unfoldable pub of_port :
    {State A : Type 0} → Action Exception State A → Action Exception (World State) A
of_port call w = ((call w.sources).0, record w { sources = (call w.sources).1 })

abbrev stamped_utc : Option Text → Result Exception Text
stamped_utc none = err (value_error (not_timezone_aware "Index registry timestamp source"))
stamped_utc (some stamp) = ok (stamp ++ (b'Z' ∷ []))

-- `_utc_timestamp`
unfoldable pub utc_timestamp : (L : ReaderLibrary) → L.datetime.Datetime → Result Exception Text
utc_timestamp L value = stamped_utc (L.datetime.utc_stamp value)

-- existing.cached_index_path if ... else None
abbrev pub previous_cache : Option Registration → Option Text
previous_cache none = none
previous_cache (some (registered entry)) = some entry.cached_index_path
previous_cache (some (recoverable entry)) = none

module _ {State : Type 0} (P : IndexPorts State) (cache_root registry_path : Option Text) where
  -- The caught error of `upsert`: the new generation goes, unless it is the existing one.
  unfoldable pub undo_generation :
      RegisteredIndex → Option Text → Exception → Action Exception (World State) Unit
  unfolding ◌>>=◌ raise
  undo_generation entry previous e =
      if some entry.cached_index_path == previous
      then raise e
      else (try_discard_index P.library entry.name entry.cached_index_path cache_root registry_path
          >> raise e)

  -- After `upsert`: the existing generation goes, unless the new one is the same.
  unfoldable pub retire_generation :
      RegisteredIndex → Option Text → Action Exception (World State) Unit
  unfolding pure
  retire_generation entry none = pure tt
  retire_generation entry (some previous) =
      if entry.cached_index_path == previous
      then pure tt
      else try_discard_index P.library entry.name previous cache_root registry_path

  abbrev pub after_upsert :
      RegisteredIndex → Option Text → Result Exception Unit → Action Exception (World State) Unit
  after_upsert entry previous (ok u) = retire_generation entry previous
  after_upsert entry previous (err (registry_error e)) =
      undo_generation entry previous (registry_error e)
  after_upsert entry previous (err e) = raise e

  unfoldable pub replace_entry : RegisteredIndex → Option Text → Action Exception (World State) Unit
  unfolding undo_generation retire_generation raise
  replace_entry entry previous w = after_upsert entry previous (upsert entry w).0 (upsert entry w).1

  -- From `write_index` to the last `discard_index`; `entry_at` makes the entry of a cached path.
  unfoldable pub publish_entry :
      Text
      → PublishedIndex
      → Option Text
      → Bool
      → (Text → RegisteredIndex)
      → Action Exception (World State) RegisteredIndex
  unfolding write_index replace_entry ◌>>=◌ lift pure
  publish_entry name published previous force entry_at = do
    cached_index_path ←
        write_index P.library name published.cacheable_content published.index_digest cache_root
          previous registry_path force
    entry ← lift (catch (check_registered (entry_at cached_index_path)) value_error)
    replace_entry entry previous
    pure entry
