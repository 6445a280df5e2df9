-- ===== src/Registry/Store.antt =====
-- What the registry's operations change: the registry file, by its entries
-- (adapters/outbound/filesystem_registry/adapter.py), and the cached indexes
-- (adapters/outbound/index_cache/adapter.py). One process holds the registry's lock, so the
-- snapshot of a transaction is what the file has.
pub mod Paths
use ritebook.Prelude.{
  ℕ, Bool, true, false, ◌&&◌, ◌||◌, not, List, [], ◌∷◌, ◌++◌, Option, none, some, Result, ok, err,
  any,
}
use ritebook.Prelude.{◌==◌, nat_eq, list_eq, option_eq, if◌then◌else◌, is_some, filter, length, leb}
use ritebook.Prelude.Order.{text_leb}
use ritebook.Prelude.Sorting.{sorted}
use ritebook.Prelude.Actions.{Action, pure, raise, lift, ◌>>=◌, ◌>>◌}
use ritebook.Text.{Text, codes, starts_with, remove_prefix}
use ritebook.Registry.Errors.{Exception, registry_error, index_cache, index_registry_persistence}
use ritebook.Registry.Reader.{ReaderLibrary}
use ritebook.Registry.Records.{RegisteredIndex, RecoverableIndex}
use Paths.{FilePath, index_path, alias_root, is_owned_generation}

pub data Registration : Type 0 where
  registered : RegisteredIndex → Registration
  recoverable : RecoverableIndex → Registration

abbrev pub name_of : Registration → Text
name_of (registered e) = e.name
name_of (recoverable e) = e.name

abbrev pub is_recoverable : Registration → Bool
is_recoverable (registered e) = false
is_recoverable (recoverable e) = true

-- How one operation on the disk goes: whether it raises, and which files a removal that raised had
-- not come to.
pub record Event : Type 0 where
  pub fails : Bool
  pub spares : FilePath → Bool

abbrev smooth : Event
smooth = record { fails = false; spares = λ _. false }

-- `State`: what the Git sources are.
pub record World (State : Type 0) : Type 0 where
  pub entries : List Registration
  -- the schema version of the file is 1, which only a recovery reads
  pub legacy : Bool
  pub cache : FilePath → Option (List ℕ)
  pub sources : State
  -- how the next operations go; all further ones go well
  pub events : List Event

-- The paths of the language, whose texts the registry stores, and what the reader calls; `is_hex_number` says
-- that `int(digest, 16)` returns and that `digest` is lower-case.
pub record StoreLibrary : Type 1 where
  pub reader : ReaderLibrary
  pub to_text : FilePath → Text
  pub from_text : Text → FilePath
  pub is_hex_number : Text → Bool
  -- Path(text).expanduser()
  pub expanded : Text → FilePath
  -- path.resolve(strict=False)
  pub resolved : FilePath → FilePath
  pub encode_utf8 : Text → List ℕ

abbrev pub next_event : List Event → Event
next_event [] = smooth
next_event (event ∷ events) = event

abbrev pub later_events : List Event → List Event
later_events [] = []
later_events (event ∷ events) = events

-- entries.get(name)
unfoldable pub find : Text → List Registration → Option Registration
find name [] = none
find name (entry ∷ entries) =
    let rest = find name entries in if name_of entry == name then some entry else rest

abbrev by_name : Registration → Registration → Bool
by_name a b = text_leb (name_of a) (name_of b)

-- transaction.list
unfoldable pub list_entries : List Registration → List Registration
list_entries entries = sorted by_name entries

-- entries[entry.name] = entry
unfoldable pub put : RegisteredIndex → List Registration → List Registration
put entry entries = registered entry ∷ filter (λ other. not (name_of other == entry.name)) entries

abbrev pub sha_prefix : Text
sha_prefix = codes "sha256:"

-- suppress(IndexCacheError)
abbrev pub suppress_cache_error : Result Exception Unit → Result Exception Unit
suppress_cache_error (ok u) = ok u
suppress_cache_error (err (registry_error index_cache)) = ok tt
suppress_cache_error (err e) = err e

module _ {State : Type 0} where
  -- transaction.upsert: both the file and the snapshot change, or neither
  unfoldable pub upsert : RegisteredIndex → Action Exception (World State) Unit
  unfolding put
  upsert entry w =
      let w' = record w { events = later_events w.events } in
      if (next_event w.events).fails
      then (err (registry_error index_registry_persistence), w')
      else (
        ok tt,
        record w' {
          entries = put entry w.entries;
          legacy = w.legacy && any is_recoverable (put entry w.entries);
        },
      )

  abbrev pub store_file : FilePath → List ℕ → Action Exception (World State) Unit
  store_file path content w =
      let w' = record w { events = later_events w.events } in
      if (next_event w.events).fails
      then (err (registry_error index_cache), w')
      else (ok tt, record w' { cache = λ p. if p == path then some content else w.cache p })

  abbrev pub place_found :
      FilePath → List ℕ → Bool → Option (List ℕ) → Action Exception (World State) Unit
  place_found path content force none = store_file path content
  place_found path content force (some found) =
      if force
      then store_file path content
      else if found == content
      then pure tt
      else raise (registry_error index_cache)

  -- `write_index`, once the alias is cleaned
  unfoldable pub place_generation : FilePath → List ℕ → Bool → Action Exception (World State) Unit
  unfolding pure raise
  place_generation path content force w = place_found path content force (w.cache path) w

abbrev or_default : Option Text → Text → Text
or_default none default = default
or_default (some []) default = default
or_default (some (c ∷ text)) default = c ∷ text

module _ (L : StoreLibrary) where
  unfoldable pub canonical_registry_path : Option Text → FilePath
  canonical_registry_path registry_path =
      L.resolved (L.expanded (or_default registry_path (codes "~/.config/ritebook/indexes.json")))

  unfoldable pub registry_cache_root : Option Text → Option Text → FilePath
  unfolding canonical_registry_path
  registry_cache_root cache_root registry_path =
      L.reader.sha256_hex (L.encode_utf8 (L.to_text (canonical_registry_path registry_path)))
      ∷ codes "registries"
      ∷ L.expanded (or_default cache_root (codes "~/.cache/ritebook"))

  -- `_digest_hex`
  unfoldable pub digest_hex : Text → Result Exception Text
  digest_hex index_digest =
      let digest = remove_prefix index_digest sha_prefix in
      if starts_with index_digest sha_prefix && length digest == 64 && L.is_hex_number digest
      then ok digest
      else err (registry_error index_cache)

  abbrev matching : List ℕ → Result Exception Text → Result Exception Text
  matching content (err e) = err e
  matching content (ok hex) =
      if L.reader.sha256_hex content == hex then ok hex else err (registry_error index_cache)

  -- `_require_matching_digest`, which returns the hexadecimals
  unfoldable pub require_matching_digest : List ℕ → Text → Result Exception Text
  unfolding digest_hex
  require_matching_digest content index_digest = matching content (digest_hex index_digest)

  abbrev is_text : FilePath → Option Text → Bool
  is_text p none = false
  is_text p (some text) = L.to_text p == text

  -- the files that `_recover_alias_root` removes
  unfoldable pub goes : FilePath → FilePath → Option Text → Event → FilePath → Bool
  unfolding is_owned_generation
  goes root candidate preserve_path event p =
      is_owned_generation root p
      && not (is_text p (some (L.to_text candidate)))
      && not (is_text p preserve_path)
      && not (event.fails && event.spares p)

module _ {State : Type 0} (L : StoreLibrary) where
  -- `_recover_alias_root`: the generations of an alias go, but those that are preserved and those
  -- that a failure left; abandoned temporary files are not modelled
  unfoldable pub recover_alias_root :
      FilePath → FilePath → Option Text → Action Exception (World State) Unit
  unfolding goes
  recover_alias_root root candidate preserve_path w = (
    ok tt,
    record w {
      cache = λ p.
          if goes L root candidate preserve_path (next_event w.events) p then none else w.cache p;
      events = later_events w.events;
    },
  )

  -- `write_index` behind its first check: its path is returned as a text
  unfoldable pub write_generation :
      FilePath → Text → List ℕ → Option Text → Bool → Action Exception (World State) Text
  unfolding recover_alias_root place_generation ◌>>=◌ pure
  write_generation root hex content preserve_path force = do
    recover_alias_root root (index_path root hex) preserve_path
    place_generation (index_path root hex) content force
    pure (L.to_text (index_path root hex))

  unfoldable pub write_index :
      Text
      → List ℕ
      → Text
      → Option Text
      → Option Text
      → Option Text
      → Bool
      → Action Exception (World State) Text
  unfolding require_matching_digest write_generation ◌>>=◌ lift
  write_index name content index_digest cache_root preserve_path registry_path force = do
    hex ← lift (require_matching_digest L content index_digest)
    let root = alias_root (registry_cache_root L cache_root registry_path) name
    write_generation root hex content preserve_path force

  -- `discard_index`
  unfoldable pub discard_index :
      Text → Text → Option Text → Option Text → Action Exception (World State) Unit
  unfolding is_owned_generation
  discard_index name cached_index_path cache_root registry_path w =
      let path = L.from_text cached_index_path in
      let event = next_event w.events in
      let w' = record w { events = later_events w.events } in
      let gone = record w' { cache = λ p. if p == path then none else w.cache p } in
      if not (
        is_owned_generation (alias_root (registry_cache_root L cache_root registry_path) name) path)
      then (ok tt, w)
      else if event.fails
      then (err (registry_error index_cache), if event.spares path then w' else gone)
      else (ok tt, gone)

  -- with suppress(IndexCacheError): self._cache.discard_index(...)
  unfoldable pub try_discard_index :
      Text → Text → Option Text → Option Text → Action Exception (World State) Unit
  unfolding discard_index
  try_discard_index name cached_index_path cache_root registry_path w =
      let r = discard_index name cached_index_path cache_root registry_path w in
      (suppress_cache_error r.0, r.1)
