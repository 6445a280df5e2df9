-- ===== src/Registry/Consistency/Publishing.antt =====
-- `publish_entry`: the entries and the cache behind it.
use ritebook.Prelude.{
  ℕ, ◌≡◌, sym, ap, ◌∙◌, Bool, List, Option, some, Result, ok, catch, catch-eq-ok, ◌⊎◌, inl, inr,
}
use ritebook.Prelude.Actions.{Action, pure, lift, ◌>>=◌, ◌>>◌, bind-After, bind-eq-ok}
use ritebook.Text.{Text}
use ritebook.Registry.Errors.{Exception, value_error}
use ritebook.Registry.Records.{
  RegisteredIndex, PublishedIndex, check_registered, check_registered-eq-ok, check_registered-name,
}
use ritebook.Registry.Reader.{digest, read_index, read_index-digest, parse_catalog}
use ritebook.Registry.Store.{StoreLibrary, World, Registration, registered, find, put, write_index}
use ritebook.Registry.Publish.{IndexPorts, previous_cache, replace_entry, publish_entry}
use ritebook.Registry.Consistency.{generation, IsPathLawful, IsReadable, IsServed, IsConsistent}
use ritebook.Registry.Consistency.Served.{find-name_of}
use ritebook.Registry.Consistency.Writing.{
  write_index-IsServed, write_index-entries, write_index_held,
}
use ritebook.Registry.Consistency.Replacement.{
  replace_entry-IsConsistent, replace_entry-entries, find-replace_entry,
}

-- The content is a catalogue, of the digest.
pub record IsRead (L : StoreLibrary) (published : PublishedIndex) : Type 0 where
  pub readable : IsReadable L published.cacheable_content
  pub digested : published.index_digest ≡ digest L.reader published.cacheable_content

-- What the reader returns is that of what it read.
pub read_index-IsRead :
    (L : StoreLibrary) (content : List ℕ) {published : PublishedIndex}
    → read_index L.reader content ≡ ok published
    → IsRead L published
read_index-IsRead L content {published} h =
    let (same, digested, (catalog, parsed)) = read_index-digest L.reader content h in
    record {
      readable = (catalog, ap (parse_catalog L.reader) same ∙ parsed);
      digested = digested ∙ ap (digest L.reader) (sym same);
    }

-- The entry made of a path is of this alias, this path and this digest.
pub record MakesEntry (name index_digest : Text) (entry_at : Text → RegisteredIndex) : Type 0 where
  pub has_name : (path : Text) → (entry_at path).name ≡ name
  pub has_path : (path : Text) → (entry_at path).cached_index_path ≡ path
  pub has_digest : (path : Text) → (entry_at path).index_digest ≡ index_digest

-- The entries, or these with one of this name put among them.
abbrev pub IsPut : Text → List Registration → List Registration → Type 0
IsPut name entries entries' =
    (entries' ≡ entries)
    ⊎ ((entry : RegisteredIndex) × (entry.name ≡ name) × (entries' ≡ put entry entries))

module _ {State : Type 0} (P : IndexPorts State) (lawful : IsPathLawful P.library)
    (c r : Option Text) (name : Text) (published : PublishedIndex) (previous : Option Text)
    (force : Bool) (entry_at : Text → RegisteredIndex) (read : IsRead P.library published)
    (makes : MakesEntry name published.index_digest entry_at) where
  abbrev writing : World State → Result Exception Text × World State
  writing =
      write_index P.library name published.cacheable_content published.index_digest c previous r
        force

  writing-IsConsistent :
      (w : World State)
      → IsConsistent P.library w.entries w.cache
      → previous ≡ previous_cache (find name w.entries)
      → IsConsistent P.library (writing w).1.entries (writing w).1.cache
  writing-IsConsistent w con at n e found =
      let found' =
        ap (find n) (
          sym (
            write_index-entries P.library c r name published.index_digest
              published.cacheable_content previous force w))
        ∙ found in
      write_index-IsServed P.library e c r name published.index_digest published.cacheable_content
        previous force w read.readable
        (λ same.
          at
          ∙ ap previous_cache (
              ap (λ k. find k w.entries) (sym same ∙ find-name_of n w.entries (registered e) found')
              ∙ found'))
        (con n e found')

  written-IsServed :
      (w : World State) (path : Text) (entry : RegisteredIndex)
      → (writing w).0 ≡ ok path
      → check_registered (entry_at path) ≡ ok entry
      → IsServed P.library (writing w).1.cache entry
  written-IsServed w path entry wrote checked =
      let same = check_registered-eq-ok (entry_at path) entry checked in
      let returned : (writing w ≡ (ok path, (writing w).1)) = λ i. (wrote i, (writing w).1) in
      let (at, held) =
        write_index_held P.library c r name published.index_digest published.cacheable_content
          previous force w returned in
      rw (sym same) (record {
        cache_root = c;
        registry_path = r;
        content = published.cacheable_content;
        is_named = check_registered-name (entry_at path) entry checked;
        is_placed =
            makes.has_path path
            ∙ at
            ∙ ap (λ n. P.library.to_text (generation P.library c r n published.cacheable_content))
                (sym (makes.has_name path));
        is_held =
            ap (λ n. (writing w).1.cache (generation P.library c r n published.cacheable_content))
              (makes.has_name path)
            ∙ held;
        is_digest = makes.has_digest path ∙ read.digested;
        is_readable = read.readable;
      })

  abbrev checking : Text → Action Exception (World State) RegisteredIndex
  checking path = lift (catch (check_registered (entry_at path)) value_error)

  abbrev replacing : RegisteredIndex → Action Exception (World State) RegisteredIndex
  replacing entry = replace_entry P c r entry previous >> pure entry

  checked_name :
      (path : Text) (entry : RegisteredIndex)
      → check_registered (entry_at path) ≡ ok entry
      → entry.name ≡ name
  checked_name path entry checked =
      ap (λ (x : RegisteredIndex). x.name)
        (sym (check_registered-eq-ok (entry_at path) entry checked))
      ∙ makes.has_name path

  pub publish_entry-IsConsistent :
      (w : World State)
      → IsConsistent P.library w.entries w.cache
      → previous ≡ previous_cache (find name w.entries)
      → IsConsistent P.library
          (publish_entry P c r name published previous force entry_at w).1.entries
          (publish_entry P c r name published previous force entry_at w).1.cache
  unfolding publish_entry pure lift
  publish_entry-IsConsistent w con at =
      let Con = λ (v : World State). IsConsistent P.library v.entries v.cache in
      let con1 = writing-IsConsistent w con at in
      bind-After Con writing (λ path. checking path >>= replacing) w con1
        (λ path wrote. bind-After Con (checking path) replacing (writing w).1 con1 (λ entry passed.
          let checked = catch-eq-ok (check_registered (entry_at path)) value_error passed in
          let kept =
            replace_entry-IsConsistent P lawful c r entry previous (writing w).1 con1
              (written-IsServed w path entry wrote checked)
              (at
                ∙ ap previous_cache (
                    ap (λ n. find n w.entries) (sym (checked_name path entry checked))
                    ∙ ap (find entry.name) (
                        sym (
                          write_index-entries P.library c r name published.index_digest
                            published.cacheable_content previous force w)))) in
          bind-After Con (replace_entry P c r entry previous) (λ u. pure entry) (writing w).1 kept
            (λ u h. kept)))

  -- The entries stay, or one of this name takes its place among them.
  pub publish_entry-entries :
      (w : World State)
      → IsPut name w.entries
          (publish_entry P c r name published previous force entry_at w).1.entries
  unfolding publish_entry pure lift
  publish_entry-entries w =
      let Put = λ (v : World State). IsPut name w.entries v.entries in
      let same1 =
        write_index-entries P.library c r name published.index_digest published.cacheable_content
          previous force w in
      bind-After Put writing (λ path. checking path >>= replacing) w (inl same1)
        (λ path wrote.
          bind-After Put (checking path) replacing (writing w).1 (inl same1) (λ entry passed.
            let checked = catch-eq-ok (check_registered (entry_at path)) value_error passed in
            let kept : Put (replace_entry P c r entry previous (writing w).1).1 =
              elim (replace_entry-entries P lawful c r entry previous (writing w).1) [
                | inl h ↦ inl (h ∙ same1)
                | inr h ↦ inr (entry, checked_name path entry checked, h ∙ ap (put entry) same1)
              ] in
            bind-After Put (replace_entry P c r entry previous) (λ u. pure entry) (writing w).1 kept
              (λ u h. kept)))

  pub find-publish_entry :
      (w : World State) {entry : RegisteredIndex} {w' : World State}
      → publish_entry P c r name published previous force entry_at w ≡ (ok entry, w')
      → (find name w'.entries ≡ some (registered entry))
        × (entry.index_digest ≡ published.index_digest)
  unfolding publish_entry pure lift
  find-publish_entry w h =
      let (path, wrote, h1) = bind-eq-ok writing (λ path. checking path >>= replacing) w h in
      let (entry, passed, h2) = bind-eq-ok (checking path) replacing (writing w).1 h1 in
      let (u, replaced, h3) =
        bind-eq-ok (replace_entry P c r entry previous) (λ u. pure entry) (writing w).1 h2 in
      let checked = catch-eq-ok (check_registered (entry_at path)) value_error passed in
      let same : (entry ≡ _) = cc h3 in
      (
        ap (λ (x : Result Exception RegisteredIndex × World State). find name x.1.entries) (sym h3)
            ∙ ap (λ n. find n (replace_entry P c r entry previous (writing w).1).1.entries)
                (sym (checked_name path entry checked))
            ∙ find-replace_entry P lawful c r entry previous (writing w).1 replaced
            ∙ ap (λ e. some (registered e)) same,
        ap (λ (e : RegisteredIndex). e.index_digest)
              (sym same ∙ sym (check_registered-eq-ok (entry_at path) entry checked))
            ∙ makes.has_digest path,
      )
