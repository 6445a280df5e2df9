-- ===== src/Registry/Consistency/Adding.antt =====
-- `AddIndex.execute` and the soundness of the registry.
use ritebook.Prelude.{
  ◌≡◌, refl, sym, ap, ◌∙◌, Bool, true, false, not, ◌&&◌, List, Option, some, Result, ok, arith,
  raise_if, is_some,
}
use ritebook.Prelude.{inl, inr, if◌then◌else◌}
use ritebook.Prelude.Actions.{Action, pure, raise, lift, bind-After, bind-eq-ok}
use ritebook.Text.{Text}
use ritebook.Registry.Errors.{Exception, registry_error, duplicate_index_name}
use ritebook.Registry.Records.{
  AddIndexCommand, AddIndexResult, PreparedIndexSource, PublishedIndex, RegisteredIndex,
}
use ritebook.Registry.Reader.{read_index}
use ritebook.Registry.Store.{StoreLibrary, World, Registration, registered, find}
use ritebook.Registry.Publish.{IndexPorts, of_port, utc_timestamp, previous_cache, publish_entry}
use ritebook.Registry.AddIndex.{
  local_alias, added_entry, write_transaction, register, prepare_and_register, add_index,
}
use ritebook.Registry.Consistency.{IsPathLawful, IsDistinct, IsSound}
use ritebook.Registry.Consistency.Names.{put-IsDistinct}
use ritebook.Registry.Consistency.Publishing.{
  MakesEntry, IsRead, read_index-IsRead, IsPut, publish_entry-IsConsistent, publish_entry-entries,
  find-publish_entry,
}

pub IsPut-IsDistinct :
    (name : Text) (entries entries' : List Registration)
    → IsPut name entries entries'
    → IsDistinct entries
    → IsDistinct entries'
IsPut-IsDistinct name entries entries' (inl same) h = rw same h
IsPut-IsDistinct name entries entries' (inr (e, named, same)) h =
    rw same (put-IsDistinct e entries h)

module _ {State : Type 0} (P : IndexPorts State) (lawful : IsPathLawful P.library)
    (c r : Option Text) where
  pub publish_entry-IsSound :
      (name : Text) (published : PublishedIndex) (previous : Option Text) (force : Bool)
      (entry_at : Text → RegisteredIndex)
      → IsRead P.library published
      → MakesEntry name published.index_digest entry_at
      → (w : World State) → IsSound P.library w
      → previous ≡ previous_cache (find name w.entries)
      → IsSound P.library (publish_entry P c r name published previous force entry_at w).1
  publish_entry-IsSound name published previous force entry_at read makes w sound at = (
    IsPut-IsDistinct name w.entries _
        (publish_entry-entries P lawful c r name published previous force entry_at read makes w)
        sound.0,
    publish_entry-IsConsistent P lawful c r name published previous force entry_at read makes w
        sound.1 at,
  )

module _ {State A : Type 0} (L : StoreLibrary) (body : Action Exception (World State) A) where
  guarded_IsSound :
      (b : Bool) (e : Exception) (w : World State)
      → IsSound L w
      → IsSound L (body w).1
      → IsSound L ((if b then raise e else body) w).1
  unfolding raise
  guarded_IsSound true e w h k = h
  guarded_IsSound false e w h k = k

  pub write_transaction-IsSound :
      (w : World State)
      → IsSound L w
      → IsSound L (body w).1
      → IsSound L (write_transaction body w).1
  unfolding write_transaction
  write_transaction-IsSound w h k = guarded_IsSound w.legacy _ w h k

  guarded-eq-ok :
      (b : Bool) (e : Exception) (w : World State) {x : A} {w' : World State}
      → (if b then raise e else body) w ≡ (ok x, w')
      → body w ≡ (ok x, w')
  unfolding raise
  guarded-eq-ok true e w h = ground arith
  guarded-eq-ok false e w h = h

  write_transaction-eq-ok :
      (w : World State) {x : A} {w' : World State}
      → write_transaction body w ≡ (ok x, w')
      → body w ≡ (ok x, w')
  unfolding write_transaction
  write_transaction-eq-ok w h = guarded-eq-ok w.legacy _ w h

module _ {State : Type 0} (P : IndexPorts State) (lawful : IsPathLawful P.library)
    (c : AddIndexCommand) where
  added_entry-MakesEntry :
      (name : Text) (prepared : PreparedIndexSource) (published : PublishedIndex) (timestamp : Text)
      → MakesEntry name published.index_digest
          (added_entry name c.alias prepared published timestamp)
  unfolding added_entry
  added_entry-MakesEntry name prepared published timestamp = record {
    has_name = λ p. refl;
    has_path = λ p. refl;
    has_digest = λ p. refl;
  }

  register-IsSound :
      (prepared : PreparedIndexSource) (published : PublishedIndex) (name : Text) (w : World State)
      → IsRead P.library published
      → IsSound P.library w
      → IsSound P.library (register P c prepared published name (find name w.entries) w).1
  unfolding register of_port lift pure
  register-IsSound prepared published name w read sound =
      let Snd = λ (v : World State). IsSound P.library v in
      let w1 = (of_port P.clock w).1 in
      bind-After Snd
        (lift (
          raise_if (is_some (find name w.entries) && not c.force)
            (registry_error (duplicate_index_name name))))
        _ w sound
        (λ u h. bind-After Snd (of_port P.clock) _ w sound (λ now h1.
          bind-After Snd (lift (utc_timestamp P.library.reader now)) _ w1 sound (λ timestamp h2.
            let entry_at = added_entry name c.alias prepared published timestamp in
            let previous = previous_cache (find name w.entries) in
            let kept =
              publish_entry-IsSound P lawful c.cache_root c.registry_path name published previous
                false entry_at read (added_entry-MakesEntry name prepared published timestamp) w1
                sound refl in
            bind-After Snd
              (publish_entry P c.cache_root c.registry_path name published previous false entry_at)
              _ w1 kept (λ e h3. kept))))

  prepare_and_register-IsSound :
      (w : World State) → IsSound P.library w → IsSound P.library (prepare_and_register P c w).1
  unfolding prepare_and_register of_port lift
  prepare_and_register-IsSound w sound =
      let Snd = λ (v : World State). IsSound P.library v in
      let prepare = of_port (P.prepare_source c.source c.cache_root c.registry_path) in
      bind-After Snd prepare _ w sound (λ prepared h.
        bind-After Snd (lift (read_index P.library.reader prepared.index_content)) _ (prepare w).1
          sound
          (λ published h1.
            register-IsSound prepared published (local_alias c.alias published.published_name)
              (prepare w).1 (read_index-IsRead P.library prepared.index_content h1) sound))

  -- Adding an index keeps the registry sound, however the disk and Git go and whether it returns or
  -- raises: entries have distinct names, and the cache holds at each entry's path a catalogue of
  -- the entry's digest.
  pub add_index-IsSound :
      (w : World State) → IsSound P.library w → IsSound P.library (add_index P c w).1
  unfolding add_index
  add_index-IsSound w sound =
      write_transaction-IsSound P.library (prepare_and_register P c) w sound
        (prepare_and_register-IsSound w sound)

  abbrev Registers : AddIndexResult → World State → Type 0
  Registers result w = (e : RegisteredIndex) × (find result.name w.entries ≡ some (registered e))

  find-register :
      (prepared : PreparedIndexSource) (published : PublishedIndex) (name : Text) (w : World State)
      {result : AddIndexResult} {w' : World State}
      → IsRead P.library published
      → register P c prepared published name (find name w.entries) w ≡ (ok result, w')
      → Registers result w'
  unfolding register of_port lift pure
  find-register prepared published name w {result} {w'} read h =
      let (u, h1, k1) =
        bind-eq-ok
          (lift (
            raise_if (is_some (find name w.entries) && not c.force)
              (registry_error (duplicate_index_name name))))
          _ w h in
      let w1 = (of_port P.clock w).1 in
      let (now, h2, k2) = bind-eq-ok (of_port P.clock) _ w k1 in
      let (timestamp, h3, k3) = bind-eq-ok (lift (utc_timestamp P.library.reader now)) _ w1 k2 in
      let entry_at = added_entry name c.alias prepared published timestamp in
      let previous = previous_cache (find name w.entries) in
      let publish =
        publish_entry P c.cache_root c.registry_path name published previous false entry_at in
      let (entry, h4, k4) = bind-eq-ok publish _ w1 k3 in
      let (found, d) =
        find-publish_entry P lawful c.cache_root c.registry_path name published previous false
          entry_at read (added_entry-MakesEntry name prepared published timestamp) w1
          (λ i. (h4 i, (publish w1).1)) in
      let same : (record { name = name; skill_count = published.skill_count } ≡ result) = cc k4 in
      (
        entry,
        ap (λ (x : AddIndexResult). find x.name w'.entries) (sym same)
            ∙ ap (λ (x : Result Exception AddIndexResult × World State). find name x.1.entries)
                (sym k4)
            ∙ found,
      )

  -- When adding an index returns, the alias it returns is registered.
  pub find-add_index :
      (w : World State) {result : AddIndexResult}
      → (add_index P c w).0 ≡ ok result
      → (e : RegisteredIndex) × (find result.name (add_index P c w).1.entries ≡ some (registered e))
  unfolding add_index prepare_and_register of_port lift
  find-add_index w h =
      let prepare = of_port (P.prepare_source c.source c.cache_root c.registry_path) in
      let w' = (add_index P c w).1 in
      let (prepared, h1, k1) =
        bind-eq-ok prepare _ w
          (write_transaction-eq-ok P.library (prepare_and_register P c) w (λ i. (h i, w'))) in
      let (published, h2, k2) =
        bind-eq-ok (lift (read_index P.library.reader prepared.index_content)) _ (prepare w).1 k1 in
      find-register prepared published (local_alias c.alias published.published_name) (prepare w).1
        (read_index-IsRead P.library prepared.index_content h2) k2
