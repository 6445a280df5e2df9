-- ===== src/Registry/Listing.antt =====
-- index_registry/application/use_cases/list_indexes.py and list_skills.py, with their DTOs
use ritebook.Prelude.{
  ℕ, Bool, List, [], ◌∷◌, Option, none, some, Result, ok, err, map, catch, traverse,
}
use ritebook.Prelude.{nat_eq, list_eq, if◌then◌else◌, ◌>>=◌, ◌>>◌}
use ritebook.Prelude.Order.{text_leb}
use ritebook.Prelude.Sorting.{sorted}
use ritebook.Text.{Text}
use ritebook.Kernel.Identifiers.{require_index_name}
use ritebook.Registry.Errors.{
  Exception, registry_error, value_error, unknown_index_name, index_registry_persistence,
}
use ritebook.Registry.Records.{RegisteredIndex, IndexSourceType}
use ritebook.Registry.Reader.{CachedSkillSummary, read_skills}
use ritebook.Registry.Store.{
  World, StoreLibrary, Registration, registered, recoverable, find, list_entries,
}

pub record RegisteredIndexSummary : Type 0 where
  pub name : Text
  pub published_name : Text
  pub source_type : IndexSourceType
  pub source : Text
  pub skill_count : ℕ
  pub updated_at : Text

pub record ListedIndexSkills : Type 0 where
  pub index_name : Text
  pub skills : List CachedSkillSummary

-- The entries of a file of schema version 2, which has no others.
abbrev pub registered_of : List Registration → List RegisteredIndex
registered_of [] = []
registered_of (registered e ∷ rs) = e ∷ registered_of rs
registered_of (recoverable e ∷ rs) = registered_of rs

-- `FilesystemIndexRegistry.list`, whose transaction refuses a file of schema version 1
unfoldable pub list_registered :
    {State : Type 0} → World State → Result Exception (List RegisteredIndex)
list_registered w =
    if w.legacy
    then err (registry_error index_registry_persistence)
    else ok (registered_of (list_entries w.entries))

abbrev pub required_entry : Text → Option Registration → Result Exception RegisteredIndex
required_entry name (some (registered e)) = ok e
required_entry name _ = err (registry_error (unknown_index_name name))

-- `FilesystemIndexRegistry.get`, of a name that must be registered
unfoldable pub get_registered :
    {State : Type 0} → Text → World State → Result Exception RegisteredIndex
get_registered name w =
    if w.legacy
    then err (registry_error index_registry_persistence)
    else required_entry name (find name w.entries)

-- `_summary`, of list_indexes.py. The texts of an entry are not empty.
unfoldable pub index_summary : RegisteredIndex → RegisteredIndexSummary
index_summary e = record {
  name = e.name;
  published_name = e.published_name;
  source_type = e.source_type;
  source = e.source;
  skill_count = e.skill_count;
  updated_at = e.updated_at;
}

-- `ListIndexes.execute`
unfoldable pub list_indexes :
    {State : Type 0} → World State → Result Exception (List RegisteredIndexSummary)
unfolding list_registered index_summary
list_indexes w = do entries ← list_registered w; ok (map index_summary entries)

abbrev pub by_skill_path : CachedSkillSummary → CachedSkillSummary → Bool
by_skill_path a b = text_leb a.path b.path

abbrev pub by_alias : RegisteredIndex → RegisteredIndex → Bool
by_alias a b = text_leb a.name b.name

module _ {State : Type 0} (L : StoreLibrary) where
  -- `_listed_index`
  unfoldable pub listed_index : World State → RegisteredIndex → Result Exception ListedIndexSkills
  listed_index w e = do
    skills ← read_skills L.reader (w.cache (L.from_text e.cached_index_path)) e.index_digest
    catch (require_index_name e.name "Local alias") value_error
    ok (record { index_name = e.name; skills = sorted by_skill_path skills })

  -- `_selected_entries`
  unfoldable pub selected_entries :
      Option Text → World State → Result Exception (List RegisteredIndex)
  unfolding list_registered get_registered
  selected_entries none w = do entries ← list_registered w; ok (sorted by_alias entries)
  selected_entries (some name) w = do e ← get_registered name w; ok (e ∷ [])

  -- `ListSkills.execute`
  unfoldable pub list_skills : Option Text → World State → Result Exception (List ListedIndexSkills)
  unfolding selected_entries listed_index
  list_skills index_name w = do
    entries ← selected_entries index_name w
    traverse (listed_index w) entries
