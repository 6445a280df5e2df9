-- ===== src/Registry/Consistency.antt =====
-- When the registry's file and the cached indexes agree.
pub mod Served
pub mod Generations
pub mod Writing
pub mod Removal
pub mod Replacement
pub mod Publishing
pub mod Names
pub mod Adding
pub mod Updating
pub mod Listing
use ritebook.Prelude.{◌≡◌, ◌≢◌, ℕ, List, [], ◌∷◌, Option, some, ok, All}
use ritebook.Text.{Text}
use ritebook.Kernel.Identifiers.{require_index_name}
use ritebook.Registry.Records.{RegisteredIndex}
use ritebook.Kernel.SchemaV1.{SchemaV1Catalog}
use ritebook.Registry.Reader.{digest, parse_catalog}
use ritebook.Registry.Store.{
  registry_cache_root, StoreLibrary, Registration, World, registered, name_of, find,
}
use ritebook.Registry.Store.Paths.{FilePath, index_path, alias_root}

-- Where the content of a digest is cached under an alias.
unfoldable pub generation : StoreLibrary → Option Text → Option Text → Text → List ℕ → FilePath
generation L cache_root registry_path name content =
    index_path (alias_root (registry_cache_root L cache_root registry_path) name)
      (L.reader.sha256_hex content)

-- `Path(str(path))` is the path of a generation.
pub record IsPathLawful (L : StoreLibrary) : Type 0 where
  pub from_text-to_text :
      (cache_root registry_path : Option Text) (name : Text) (content : List ℕ)
      → require_index_name name "Local alias" ≡ ok tt
      → L.from_text (L.to_text (generation L cache_root registry_path name content))
        ≡ generation L cache_root registry_path name content

-- The content is a catalogue that the reader accepts.
abbrev pub IsReadable : StoreLibrary → List ℕ → Type 0
IsReadable L content =
    (catalog : SchemaV1Catalog L.reader.datetime) × (parse_catalog L.reader content ≡ ok catalog)

-- The cache holds what the entry's digest is of, a catalogue, at the entry's path.
pub record IsServed (L : StoreLibrary) (cache : FilePath → Option (List ℕ)) (e : RegisteredIndex)
    : Type 0 where
  pub cache_root : Option Text
  pub registry_path : Option Text
  pub content : List ℕ
  pub is_named : require_index_name e.name "Local alias" ≡ ok tt
  pub is_placed :
      e.cached_index_path ≡ L.to_text (generation L cache_root registry_path e.name content)
  pub is_held : cache (generation L cache_root registry_path e.name content) ≡ some content
  pub is_readable : IsReadable L content
  pub is_digest : e.index_digest ≡ digest L.reader content

-- Every registered index is served.
abbrev pub IsConsistent : StoreLibrary → List Registration → (FilePath → Option (List ℕ)) → Type 0
IsConsistent L entries cache =
    (name : Text) (e : RegisteredIndex)
    → find name entries ≡ some (registered e)
    → IsServed L cache e

-- No two entries have one name.
abbrev pub IsDistinct : List Registration → Type 0
IsDistinct [] = Unit
IsDistinct (r ∷ rs) = All (λ x. name_of r ≢ name_of x) rs × IsDistinct rs

-- Distinct names, each of a served entry.
abbrev pub IsSound : {State : Type 0} → StoreLibrary → World State → Type 0
IsSound L w = IsDistinct w.entries × IsConsistent L w.entries w.cache
