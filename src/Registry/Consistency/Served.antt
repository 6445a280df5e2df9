-- ===== src/Registry/Consistency/Served.antt =====
-- One entry: what a change of the cache leaves of it; and entries by their names.
use ritebook.Prelude.{
  ◌≡◌, ◌≢◌, refl, sym, ap, ◌∙◌, ℕ, true, not, List, [], ◌∷◌, ◌++◌, Option, some, arith, filter,
}
use ritebook.Prelude.{◌==◌, nat_eq, list_eq, eq_iff, inl, inr, Bool-cases}
use ritebook.Text.{Text}
use ritebook.Registry.Records.{RegisteredIndex}
use ritebook.Registry.Reader.{digest}
use ritebook.Registry.Store.{
  registry_cache_root, StoreLibrary, Registration, registered, name_of, find, put, sha_prefix,
}
use ritebook.Registry.Store.Paths.{
  FilePath, index_file, index_path, alias_root, is_owned_generation,
}
use ritebook.Registry.Consistency.{generation, IsPathLawful, IsReadable, IsServed}

pub find-name_of :
    (name : Text) (entries : List Registration) (r : Registration)
    → find name entries ≡ some r
    → name_of r ≡ name
unfolding find
find-name_of name [] r h = ground arith
find-name_of name (x ∷ xs) r h = elim (Bool-cases (name_of x == name)) [
  | inl e ↦ ground (arith, eq_iff (name_of x) name)
  | inr e ↦ find-name_of name xs r (ground arith)
]

find-filter :
    (name other : Text) (entries : List Registration)
    → name ≢ other
    → find name (filter (λ r. not (name_of r == other)) entries) ≡ find name entries
unfolding find filter
find-filter name other [] apart = refl
find-filter name other (x ∷ xs) apart =
    ground
      (arith, find-filter name other xs apart, eq_iff (name_of x) name, eq_iff (name_of x) other)

pub find-put :
    (e : RegisteredIndex) (entries : List Registration)
    → find e.name (put e entries) ≡ some (registered e)
unfolding find put
find-put e entries = ground (arith, eq_iff e.name e.name)

pub find-put_other :
    (e : RegisteredIndex) (name : Text) (entries : List Registration)
    → name ≢ e.name
    → find name (put e entries) ≡ find name entries
unfolding find put
find-put_other e name entries apart =
    ground (arith, eq_iff e.name name, find-filter name e.name entries apart)

-- The path of a served entry.
abbrev pub path_of :
    (L : StoreLibrary) (cache : FilePath → Option (List ℕ)) (e : RegisteredIndex)
    → IsServed L cache e
    → FilePath
path_of L cache e s = generation L s.cache_root s.registry_path e.name s.content

pub generation-eq :
    (L : StoreLibrary) (c c' r r' : Option Text) (n n' : Text) (x x' : List ℕ)
    → generation L c r n x ≡ generation L c' r' n' x'
    → (n ≡ n')
      × (L.reader.sha256_hex x ≡ L.reader.sha256_hex x')
      × (registry_cache_root L c r ≡ registry_cache_root L c' r')
unfolding generation index_path alias_root
generation-eq L c c' r r' n n' x x' h = (cc h, cc h, cc h)

is_owned_generation_parent :
    (root : FilePath) (file directory : Text) (parent : FilePath)
    → is_owned_generation root (file ∷ directory ∷ parent) ≡ true
    → parent ≡ root
unfolding is_owned_generation
is_owned_generation_parent root file directory parent h = ground (arith, eq_iff parent root)

pub is_owned_generation-generation :
    (L : StoreLibrary) (root : FilePath) (name : Text) (c r : Option Text) (n : Text) (x : List ℕ)
    → is_owned_generation (alias_root root name) (generation L c r n x) ≡ true
    → n ≡ name
unfolding is_owned_generation alias_root generation index_path
is_owned_generation-generation L root name c r n x h =
    let parents : (alias_root (registry_cache_root L c r) n ≡ alias_root root name) =
      is_owned_generation_parent (alias_root root name) index_file (L.reader.sha256_hex x)
        (alias_root (registry_cache_root L c r) n) h in
    cc parents

module _ (L : StoreLibrary) (lawful : IsPathLawful L) (cache : FilePath → Option (List ℕ))
    (e : RegisteredIndex) where
  pub from_text-IsServed :
      (s : IsServed L cache e) → L.from_text e.cached_index_path ≡ path_of L cache e s
  from_text-IsServed s =
      ap L.from_text s.is_placed
      ∙ lawful.from_text-to_text s.cache_root s.registry_path e.name s.content s.is_named

module _ (L : StoreLibrary) (cache cache' : FilePath → Option (List ℕ)) (e : RegisteredIndex) where
  -- An entry whose path was not touched is served still.
  pub IsServed-untouched :
      (s : IsServed L cache e)
      → cache' (path_of L cache e s) ≡ cache (path_of L cache e s)
      → IsServed L cache' e
  IsServed-untouched s same = record {
    cache_root = s.cache_root;
    registry_path = s.registry_path;
    content = s.content;
    is_named = s.is_named;
    is_placed = s.is_placed;
    is_held = same ∙ s.is_held;
    is_readable = s.is_readable;
    is_digest = s.is_digest;
  }

  -- So is one whose generation was written again, be it with another content of the same hash.
  pub IsServed-rewritten :
      (s : IsServed L cache e) (c r : Option Text) (name : Text) (content : List ℕ)
      → IsReadable L content
      → path_of L cache e s ≡ generation L c r name content
      → cache' (generation L c r name content) ≡ some content
      → IsServed L cache' e
  unfolding digest
  IsServed-rewritten s c r name content readable same held =
      let (names, hashes, roots) =
        generation-eq L s.cache_root c s.registry_path r e.name name s.content content same in
      record {
        cache_root = c;
        registry_path = r;
        content = content;
        is_named = s.is_named;
        is_placed = s.is_placed ∙ ap L.to_text (cc (same, names));
        is_held = cc (held, names);
        is_readable = readable;
        is_digest = s.is_digest ∙ ap (λ hex. sha_prefix ++ hex) hashes;
      }

module _ (L : StoreLibrary) (lawful : IsPathLawful L) where
  pub IsServed-apart :
      (c c' : FilePath → Option (List ℕ)) (e e' : RegisteredIndex)
      → IsServed L c e
      → IsServed L c' e'
      → e.name ≢ e'.name
      → e.cached_index_path ≢ e'.cached_index_path
  IsServed-apart c c' e e' s s' apart same =
      apart
        (generation-eq L s.cache_root s'.cache_root s.registry_path s'.registry_path e.name e'.name
          s.content s'.content
          (sym (from_text-IsServed L lawful c e s)
            ∙ ap L.from_text same
            ∙ from_text-IsServed L lawful c' e' s')).0
