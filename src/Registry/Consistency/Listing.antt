-- ===== src/Registry/Consistency/Listing.antt =====
-- The listing of the skills of a sound registry.
use ritebook.Prelude.{
  ℕ, ◌≡◌, refl, sym, Bool, List, [], ◌∷◌, Option, none, some, Result, ok, err, map, traverse, arith,
  All,
}
use ritebook.Prelude.{nat_eq, list_eq, eq_refl, if◌then◌else◌, >>=-eq-ok}
use mathlib.Core.List.{Perm}
use ritebook.Prelude.Order.{text_leb_total, text_leb_trans}
use ritebook.Prelude.Sorting.{sorted, IsSorted, sorted-perm, sorted-IsSorted}
use ritebook.Kernel.SchemaV1.{SchemaV1Catalog, SchemaV1Skill}
use ritebook.Text.{Text}
use ritebook.Registry.Errors.{Exception}
use ritebook.Registry.Records.{RegisteredIndex}
use ritebook.Registry.Reader.{read_skills, parse_catalog, digest}
use ritebook.Registry.Store.{
  World, StoreLibrary, Registration, registered, recoverable, find, list_entries,
}
use ritebook.Registry.Listing.{
  ListedIndexSkills, registered_of, list_registered, get_registered, required_entry, by_alias,
  by_skill_path, listed_index, selected_entries, list_skills,
}
use ritebook.Registry.Consistency.{IsPathLawful, IsServed, IsConsistent, IsSound}
use ritebook.Registry.Consistency.Names.{All-sorted, IsFound, list_entries-IsFound}
use ritebook.Registry.Consistency.Served.{from_text-IsServed}

if-eq-ok :
    {A : Type 0} (b : Bool) (x : Exception) (r : Result Exception A) {a : A}
    → (if b then err x else r) ≡ ok a
    → r ≡ ok a
if-eq-ok b x r h = ground arith

ok_injective : {A : Type 0} {a b : A} {r : Result Exception A} → r ≡ ok a → r ≡ ok b → a ≡ b
ok_injective h k = cc (h, k)

module _ {State : Type 0} (L : StoreLibrary) (lawful : IsPathLawful L) where
  -- An index is listed: under its alias, with the skills of the catalogue of its digest, which the
  -- cache holds, each as it is there, in the order of their paths.
  pub record ListsIndex (w : World State) (e : RegisteredIndex) (listed : ListedIndexSkills)
      : Type 0 where
    pub content : List ℕ
    pub catalog : SchemaV1Catalog L.reader.datetime
    pub held : w.cache (L.from_text e.cached_index_path) ≡ some content
    pub of_digest : e.index_digest ≡ digest L.reader content
    pub parsed : parse_catalog L.reader content ≡ ok catalog
    pub named : listed.index_name ≡ e.name
    pub skills : Perm listed.skills (
        map
          (λ (s : SchemaV1Skill). record {
            name = s.name;
            path = s.path;
            skill_file = s.skill_file;
            description = s.description;
            source_root = catalog.skills_root;
          })
          catalog.skills)
    pub ordered : IsSorted by_skill_path listed.skills

  -- One list for each selected entry, in the order of the selection.
  abbrev pub ListsAll : World State → List RegisteredIndex → List ListedIndexSkills → Type 0
  ListsAll w [] [] = Unit
  ListsAll w (e ∷ entries) (x ∷ listed) = ListsIndex w e x × ListsAll w entries listed
  ListsAll w _ _ = ⊥

  listed_index-ListsIndex :
      (w : World State) (e : RegisteredIndex)
      → IsServed L w.cache e
      → (listed : ListedIndexSkills) × (listed_index L w e ≡ ok listed) × ListsIndex w e listed
  unfolding listed_index read_skills
  listed_index-ListsIndex w e s =
      let held : w.cache (L.from_text e.cached_index_path) ≡ some s.content =
        rw (from_text-IsServed L lawful w.cache e s) s.is_held in
      (
        _,
        rw (held, s.is_digest, eq_refl (digest L.reader s.content), s.is_readable.1, s.is_named)
            refl,
        record {
          content = s.content;
          catalog = s.is_readable.0;
          held = held;
          of_digest = s.is_digest;
          parsed = s.is_readable.1;
          named = refl;
          skills = sorted-perm by_skill_path _;
          ordered =
              sorted-IsSorted by_skill_path (λ a b. text_leb_total a.path b.path)
                (λ a b c. text_leb_trans a.path b.path c.path) _;
        },
      )

  traverse-ListsAll :
      (w : World State) (entries : List RegisteredIndex)
      → All (IsServed L w.cache) entries
      → (listed : List ListedIndexSkills) × (traverse (listed_index L w) entries ≡ ok listed)
        × ListsAll w entries listed
  unfolding traverse
  traverse-ListsAll w [] h = ([], refl, tt)
  traverse-ListsAll w (e ∷ entries) h =
      let (x, one, lists) = listed_index-ListsIndex w e h.0 in
      let (xs, others, rest) = traverse-ListsAll w entries h.1 in
      (x ∷ xs, rw (one, others) refl, (lists, rest))

  registered_of-IsServed :
      (w : World State) (rs : List Registration)
      → IsConsistent L w.entries w.cache
      → IsFound w.entries rs
      → All (IsServed L w.cache) (registered_of rs)
  registered_of-IsServed w [] con h = tt
  registered_of-IsServed w (registered e ∷ rs) con h =
      (con e.name e h.0, registered_of-IsServed w rs con h.1)
  registered_of-IsServed w (recoverable e ∷ rs) con h = registered_of-IsServed w rs con h.1

  required_entry-IsServed :
      (w : World State) (name : Text) (found : Option Registration) (e : RegisteredIndex)
      → IsConsistent L w.entries w.cache
      → find name w.entries ≡ found
      → required_entry name found ≡ ok e
      → IsServed L w.cache e
  required_entry-IsServed w name none e con at h = ground arith
  required_entry-IsServed w name (some (recoverable x)) e con at h = ground arith
  required_entry-IsServed w name (some (registered x)) e con at h =
      let same : (x ≡ e) = cc h in rw (sym same) (con name x at)

  selected_entries-IsServed :
      (name : Option Text) (w : World State) (entries : List RegisteredIndex)
      → IsSound L w
      → selected_entries L name w ≡ ok entries
      → All (IsServed L w.cache) entries
  unfolding selected_entries list_registered get_registered
  selected_entries-IsServed none w entries sound h =
      let (all, h1, h2) = >>=-eq-ok (list_registered w) _ h in
      let same : (sorted by_alias all ≡ entries) = cc h2 in
      rw (sym same) (
        All-sorted by_alias (IsServed L w.cache) all (
          rw (sym (ok_injective refl (if-eq-ok w.legacy _ _ h1))) (
            registered_of-IsServed w (list_entries w.entries) sound.1
              (list_entries-IsFound w.entries sound.0))))
  selected_entries-IsServed (some name) w entries sound h =
      let (e, h1, h2) = >>=-eq-ok (get_registered name w) _ h in
      let same : (e ∷ [] ≡ entries) = cc h2 in
      rw (sym same) (
        required_entry-IsServed w name (find name w.entries) e sound.1 refl
            (if-eq-ok w.legacy _ _ h1),
        tt,
      )

  -- Of a sound registry, the skills of whatever is selected are listed, in the order of the
  -- selection: for each entry the skills of the cached catalogue that has the entry's digest, under
  -- the entry's alias and in the order of their paths. Only the selection may raise.
  pub list_skills-selected_entries :
      (name : Option Text) (w : World State) {entries : List RegisteredIndex}
      → IsSound L w
      → selected_entries L name w ≡ ok entries
      → (listed : List ListedIndexSkills) × (list_skills L name w ≡ ok listed)
        × ListsAll w entries listed
  unfolding list_skills
  list_skills-selected_entries name w {entries} sound h =
      rw h (traverse-ListsAll w entries (selected_entries-IsServed name w entries sound h))
