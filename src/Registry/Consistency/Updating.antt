-- ===== src/Registry/Consistency/Updating.antt =====
-- `UpdateIndex.execute` and the soundness of the registry, for one index and for all.
use ritebook.Prelude.{
  ◌≡◌, ◌≢◌, refl, sym, ap, ◌∙◌, Bool, true, false, ◌&&◌, List, [], ◌∷◌, Option, none, some, Result,
  ok, err,
}
use ritebook.Prelude.{inl, inr, if◌then◌else◌, All, ◌==◌, option_eq, list_eq, nat_eq, length}
use ritebook.Prelude.Actions.{Action, pure, raise, lift, ◌>>=◌, bind-After}
use ritebook.Text.{Text}
use ritebook.Registry.Errors.{Exception}
use ritebook.Registry.Records.{
  UpdateIndexCommand, UpdateIndexResult, PreparedIndexSource, PublishedIndex, RegisteredIndex,
}
use ritebook.Registry.Reader.{read_index}
use ritebook.Registry.Store.{StoreLibrary, World, Registration, name_of, find, list_entries}
use ritebook.Registry.Publish.{IndexPorts, of_port, utc_timestamp, previous_cache, publish_entry}
use ritebook.Registry.UpdateIndex.{
  updated_entry, source_of, branch_of, source_cache_of, retire_path, retire_source, promote,
  try_discard_source, commit_update, update_entry, finish_update, update_all, update_found,
  update_named, update_selected, end_recovery, recovery_transaction, update_index,
  replacement_source_cache_path, note, nothing_updated,
}
use ritebook.Registry.Consistency.{IsPathLawful, IsDistinct, IsSound}
use ritebook.Registry.Consistency.Names.{IsFound, list_entries-IsDistinct, list_entries-IsFound}
use ritebook.Registry.Consistency.Served.{find-name_of, find-put_other}
use ritebook.Registry.Consistency.Publishing.{
  MakesEntry, read_index-IsRead, IsPut, publish_entry-entries,
}
use ritebook.Registry.Consistency.Adding.{publish_entry-IsSound, write_transaction-IsSound}

module _ {State : Type 0} (L : StoreLibrary) where
  if-IsSound :
      {A : Type 0} (b : Bool) (m n : Action Exception (World State) A) (w : World State)
      → IsSound L (m w).1
      → IsSound L (n w).1
      → IsSound L ((if b then m else n) w).1
  if-IsSound true m n w hm hn = hm
  if-IsSound false m n w hm hn = hn

  promote-IsSound :
      (empty fails : Bool) (w : World State) → IsSound L w → IsSound L (promote empty fails w).1
  promote-IsSound false fails w sound = sound
  promote-IsSound true true w sound = sound
  promote-IsSound true false w sound = sound

  end_recovery-IsSound : (w : World State) → IsSound L w → IsSound L (end_recovery w).1
  end_recovery-IsSound w sound = promote-IsSound (w.legacy && length w.entries == 0) _ w sound

module _ {State : Type 0} (P : IndexPorts State) (lawful : IsPathLawful P.library)
    (c : UpdateIndexCommand) where
  updated_entry-MakesEntry :
      (existing : Registration) (prepared : PreparedIndexSource) (published : PublishedIndex)
      (updated_at : Text)
      → MakesEntry
          (name_of existing)
          published.index_digest
          (updated_entry existing prepared published updated_at)
  unfolding updated_entry
  updated_entry-MakesEntry existing prepared published updated_at = record {
    has_name = λ p. refl;
    has_path = λ p. refl;
    has_digest = λ p. refl;
  }

  -- What an update of `existing` may have left of the registry `w`.
  abbrev After : Registration → World State → World State → Type 0
  After existing w v = IsSound P.library v × IsPut (name_of existing) w.entries v.entries

  if-After :
      (existing : Registration) (w v : World State) (b : Bool)
      (m n : Action Exception (World State) Unit)
      → After existing w (m v).1
      → After existing w (n v).1
      → After existing w ((if b then m else n) v).1
  if-After existing w v true m n hm hn = hm
  if-After existing w v false m n hm hn = hn

  retire_path-After :
      (existing : Registration) (prepared : PreparedIndexSource) (path : Option Text)
      (w v : World State)
      → After existing w v
      → After existing w (retire_path P c existing prepared path v).1
  unfolding try_discard_source of_port pure
  retire_path-After existing prepared none w v h = h
  retire_path-After existing prepared (some path) w v h =
      if-After existing w v _ (try_discard_source P c existing path) (pure tt) h h

  retire_source-After :
      (existing : Registration) (prepared : PreparedIndexSource) (w v : World State)
      → After existing w v
      → After existing w (retire_source P c existing prepared v).1
  unfolding retire_source
  retire_source-After existing prepared w v h =
      retire_path-After existing prepared (source_cache_of existing) w v h

  commit_update-After :
      (existing : Registration) (prepared : PreparedIndexSource) (w : World State)
      → IsSound P.library w
      → find (name_of existing) w.entries ≡ some existing
      → After existing w (commit_update P c existing prepared w).1
  unfolding commit_update of_port lift pure
  commit_update-After existing prepared w sound at =
      let Aft = After existing w in
      let start : Aft w = (sound, inl refl) in
      bind-After Aft (lift (read_index P.library.reader prepared.index_content)) _ w start
        (λ published h.
          let w1 = (of_port P.clock w).1 in
          bind-After Aft (of_port P.clock) _ w start (λ now h1.
            bind-After Aft (lift (utc_timestamp P.library.reader now)) _ w1 start (λ updated_at h2.
              let entry_at = updated_entry existing prepared published updated_at in
              let previous = previous_cache (some existing) in
              let read = read_index-IsRead P.library prepared.index_content h in
              let makes = updated_entry-MakesEntry existing prepared published updated_at in
              let publish =
                publish_entry P c.cache_root c.registry_path (name_of existing) published previous
                  c.force entry_at in
              let kept : Aft (publish w1).1 = (
                publish_entry-IsSound P lawful c.cache_root c.registry_path (name_of existing)
                    published previous c.force entry_at read makes w1 sound
                    (ap previous_cache (sym at)),
                publish_entry-entries P lawful c.cache_root c.registry_path (name_of existing)
                    published previous c.force entry_at read makes w1,
              ) in
              bind-After Aft publish _ w1 kept (λ entry h3.
                let kept' = retire_source-After existing prepared w (publish w1).1 kept in
                bind-After Aft (retire_source P c existing prepared) _ (publish w1).1 kept'
                  (λ u h4. kept')))))

  finish_update-After :
      (existing : Registration) (replacement : Option Text) (r : Result Exception RegisteredIndex)
      (w v : World State)
      → After existing w v
      → After existing w (finish_update P c existing replacement r v).1
  unfolding pure raise try_discard_source of_port ◌>>=◌
  finish_update-After existing replacement (ok entry) w v h = h
  finish_update-After existing none (err e) w v h = h
  finish_update-After existing (some path) (err e) w v h =
      bind-After (After existing w) (try_discard_source P c existing path) (λ u. raise e) v h
        (λ u k. h)

  update_entry-After :
      (existing : Registration) (w : World State)
      → IsSound P.library w
      → find (name_of existing) w.entries ≡ some existing
      → After existing w (update_entry P c existing w).1
  unfolding update_entry of_port
  update_entry-After existing w sound at =
      let Aft = After existing w in
      let refresh = of_port (
        P.refresh_source (source_of existing) (branch_of existing) (source_cache_of existing)
          c.cache_root c.registry_path c.force) in
      bind-After Aft refresh _ w (sound, inl refl)
        (λ prepared h.
          let r = commit_update P c existing prepared (refresh w).1 in
          finish_update-After existing (replacement_source_cache_path existing prepared c.force) r.0
            w r.1 (commit_update-After existing prepared (refresh w).1 sound at))

  -- What the update of another index leaves is still to be found.
  IsPut-IsFound :
      (name : Text) (entries entries' rest : List Registration)
      → IsPut name entries entries'
      → All (λ x. name ≢ name_of x) rest
      → IsFound entries rest
      → IsFound entries' rest
  IsPut-IsFound name entries entries' [] put_at apart found = tt
  IsPut-IsFound name entries entries' (x ∷ xs) (inl same) apart found = (
    ap (find (name_of x)) same ∙ found.0,
    IsPut-IsFound name entries entries' xs (inl same) apart.1 found.1,
  )
  IsPut-IsFound name entries entries' (x ∷ xs) (inr (e, named, same)) apart found = (
    ap (find (name_of x)) same
        ∙ find-put_other e (name_of x) entries (λ h. apart.0 (sym named ∙ sym h))
        ∙ found.0,
    IsPut-IsFound name entries entries' xs (inr (e, named, same)) apart.1 found.1,
  )

  update_all-IsSound :
      (rest : List Registration) (o : UpdateIndexResult) (w : World State)
      → IsSound P.library w
      → IsDistinct rest
      → IsFound w.entries rest
      → IsSound P.library (update_all P c rest o w).1
  unfolding update_all pure
  update_all-IsSound [] o w sound distinct found = sound
  update_all-IsSound (x ∷ rest) o w sound distinct found =
      let (sound', put_at) = update_entry-After x w sound found.0 in
      let noted : (Action Exception (World State) UpdateIndexResult) =
        λ v. let r = update_entry P c x v in (note (name_of x) o r.0, r.1) in
      bind-After (λ (v : World State). IsSound P.library v) noted (λ o'. update_all P c rest o') w
        sound'
        (λ o' h.
          update_all-IsSound rest o' (update_entry P c x w).1 sound' distinct.1
            (IsPut-IsFound (name_of x) w.entries _ rest put_at distinct.0 found.1))

  update_found-IsSound :
      (name : Text) (existing : Option Registration) (w : World State)
      → IsSound P.library w
      → find name w.entries ≡ existing
      → IsSound P.library (update_found P c name existing w).1
  unfolding raise pure
  update_found-IsSound name none w sound at = sound
  update_found-IsSound name (some existing) w sound at =
      let sound' =
        (update_entry-After existing w sound
          (ap (λ n. find n w.entries) (find-name_of name w.entries existing at) ∙ at)).0 in
      bind-After (λ (v : World State). IsSound P.library v) (update_entry P c existing) _ w sound'
        (λ e h. sound')

  update_named-IsSound :
      (name : Option Text) (w : World State)
      → IsSound P.library w
      → IsSound P.library (update_named P c name w).1
  unfolding raise
  update_named-IsSound none w sound = sound
  update_named-IsSound (some name) w sound =
      update_found-IsSound name (find name w.entries) w sound refl

  update_selected-IsSound :
      (w : World State) → IsSound P.library w → IsSound P.library (update_selected P c w).1
  unfolding update_selected
  update_selected-IsSound w sound =
      if-IsSound P.library c.all (update_all P c (list_entries w.entries) nothing_updated)
        (update_named P c c.name) w
        (update_all-IsSound (list_entries w.entries) nothing_updated w sound
          (list_entries-IsDistinct w.entries sound.0) (list_entries-IsFound w.entries sound.0))
        (update_named-IsSound c.name w sound)

  recovery_transaction-IsSound :
      (body : Action Exception (World State) UpdateIndexResult) (w : World State)
      → IsSound P.library (body w).1
      → IsSound P.library (recovery_transaction P c body w).1
  unfolding recovery_transaction pure
  recovery_transaction-IsSound body w sound =
      let Snd = λ (v : World State). IsSound P.library v in
      bind-After Snd body _ w sound (λ result h.
        let ended = end_recovery-IsSound P.library (body w).1 sound in
        bind-After Snd end_recovery _ (body w).1 ended (λ u k. ended))

  -- Updating one index or all, forced or not, keeps the registry sound, however the disk and Git go
  -- and whether it returns or raises: entries have distinct names, and the cache holds at each
  -- entry's path a catalogue of the entry's digest.
  pub update_index-IsSound :
      (w : World State) → IsSound P.library w → IsSound P.library (update_index P c w).1
  unfolding update_index
  update_index-IsSound w sound =
      let kept = update_selected-IsSound w sound in
      if-IsSound P.library c.force (recovery_transaction P c (update_selected P c)) _ w
        (recovery_transaction-IsSound (update_selected P c) w kept)
        (write_transaction-IsSound P.library (update_selected P c) w sound kept)
