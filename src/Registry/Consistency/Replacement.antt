-- ===== src/Registry/Consistency/Replacement.antt =====
-- `replace_entry`: the entries and the cache behind it.
use ritebook.Prelude.{
  ◌≡◌, ◌≢◌, refl, sym, ap, ◌∙◌, ℕ, List, Option, none, some, Result, ok, err, arith,
}
use ritebook.Prelude.{◌⊎◌, ◌==◌, nat_eq, list_eq, option_eq, eq_iff, inl, inr, Bool-cases}
use ritebook.Prelude.Actions.{pure, raise, ◌>>=◌, continue, continue_stays}
use ritebook.Text.{Text}
use ritebook.Registry.Errors.{Exception}
use ritebook.Registry.Records.{RegisteredIndex}
use ritebook.Registry.Store.{
  World, Registration, registered, recoverable, find, put, upsert, try_discard_index, next_event,
}
use ritebook.Registry.Store.Paths.{FilePath}
use ritebook.Registry.Publish.{
  IndexPorts, previous_cache, undo_generation, retire_generation, replace_entry,
}
use ritebook.Registry.Consistency.{IsPathLawful, IsServed, IsConsistent}
use ritebook.Registry.Consistency.Served.{find-name_of, find-put, find-put_other, IsServed-apart}
use ritebook.Registry.Consistency.Removal.{try_discard_index-entries, try_discard_index-IsServed}

module _ {State : Type 0} (P : IndexPorts State) (lawful : IsPathLawful P.library)
    (c r : Option Text) (entry : RegisteredIndex) where
  -- The entry's path is another's only if that is the existing entry's.
  other_path :
      (cache : FilePath → Option (List ℕ)) (entries : List Registration) (name : Text)
      (e : RegisteredIndex)
      → IsServed P.library cache entry
      → IsServed P.library cache e
      → find name entries ≡ some (registered e)
      → some entry.cached_index_path ≢ previous_cache (find entry.name entries)
      → e.cached_index_path ≢ entry.cached_index_path
  other_path cache entries name e new s at apart same = elim (Bool-cases (e.name == entry.name)) [
    | inr h ↦
        IsServed-apart P.library lawful cache cache e entry s new
          (ground (arith, eq_iff e.name entry.name)) same
    | inl h ↦
        let named =
          sym ((eq_iff e.name entry.name).0 h) ∙ find-name_of name entries (registered e) at in
        apart (ap some (sym same) ∙ sym (ap previous_cache (ap (λ n. find n entries) named ∙ at)))
  ]

  undo_generation-IsConsistent :
      (previous : Option Text) (x : Exception) (w : World State)
      → IsConsistent P.library w.entries w.cache
      → IsServed P.library w.cache entry
      → previous ≡ previous_cache (find entry.name w.entries)
      → IsConsistent P.library
          (undo_generation P c r entry previous x w).1.entries
          (undo_generation P c r entry previous x w).1.cache
  unfolding undo_generation ◌>>=◌ raise
  undo_generation-IsConsistent previous x w con new at =
      let v = try_discard_index P.library entry.name entry.cached_index_path c r w in
      elim (Bool-cases (some entry.cached_index_path == previous)) [
        | inl h ↦ rw h con
        | inr h ↦
            rw (h, continue_stays v.0 (λ u. raise {A = Unit} x) v.1 (λ u. refl))
              (λ name e found.
                let found' =
                  ap (find name) (
                    sym (
                      try_discard_index-entries P.library entry.name entry.cached_index_path c r w))
                  ∙ found in
                try_discard_index-IsServed P.library entry.name entry.cached_index_path c r lawful
                  w.cache entry e w new refl
                  (other_path w.cache w.entries name e new (con name e found') found' (λ same.
                    ground (arith, eq_iff (some entry.cached_index_path) previous, same ∙ sym at)))
                  (con name e found'))
      ]

  find-put_cases :
      (entries : List Registration) (name : Text) (e : RegisteredIndex)
      → find name (put entry entries) ≡ some (registered e)
      → (entry ≡ e) ⊎ ((name ≢ entry.name) × (find name entries ≡ some (registered e)))
  find-put_cases entries name e h = elim (Bool-cases (name == entry.name)) [
    | inl same ↦
        let found =
          sym (find-put entry entries)
          ∙ ap (λ n. find n (put entry entries)) (sym ((eq_iff name entry.name).0 same))
          ∙ h in
        inl (cc found)
    | inr apart ↦
        let differ : (name ≢ entry.name) = λ same. ground (arith, eq_iff name entry.name) in
        inr (differ, sym (find-put_other entry name entries differ) ∙ h)
  ]

  put-IsConsistent :
      (entries : List Registration) (cache : FilePath → Option (List ℕ))
      → IsConsistent P.library entries cache
      → IsServed P.library cache entry
      → IsConsistent P.library (put entry entries) cache
  put-IsConsistent entries cache con new name e h = elim (find-put_cases entries name e h) [
    | inl same ↦ rw (sym same) new
    | inr (apart, found) ↦ con name e found
  ]

  previous_cache-registered :
      (o : Option Registration) (path : Text)
      → some path ≡ previous_cache o
      → (e : RegisteredIndex) × (o ≡ some (registered e)) × (path ≡ e.cached_index_path)
  previous_cache-registered none path h = ground arith
  previous_cache-registered (some (registered e)) path h = (e, refl, cc h)
  previous_cache-registered (some (recoverable e)) path h = ground arith

  retire_generation-IsConsistent :
      (previous : Option Text) (entries : List Registration) (w : World State)
      → w.entries ≡ put entry entries
      → IsConsistent P.library entries w.cache
      → IsServed P.library w.cache entry
      → previous ≡ previous_cache (find entry.name entries)
      → IsConsistent P.library
          (retire_generation P c r entry previous w).1.entries
          (retire_generation P c r entry previous w).1.cache
  unfolding retire_generation pure
  retire_generation-IsConsistent none entries w put_at con new at =
      rw put_at (put-IsConsistent entries w.cache con new)
  retire_generation-IsConsistent (some previous) entries w put_at con new at =
      let (old, found, old_path) =
        previous_cache-registered (find entry.name entries) previous at in
      let old_name = find-name_of entry.name entries (registered old) found in
      let served = con entry.name old found in
      elim (Bool-cases (entry.cached_index_path == previous)) [
        | inl h ↦ rw (h, put_at) (put-IsConsistent entries w.cache con new)
        | inr h ↦ rw h (λ name e at'.
            let at2 =
              ap (find name)
                (sym (put_at) ∙ sym (try_discard_index-entries P.library entry.name previous c r w))
              ∙ at' in
            try_discard_index-IsServed P.library entry.name previous c r lawful w.cache old e w
              served old_path
              (elim (find-put_cases entries name e at2) [
                | inl same ↦ λ k. ground (
                  arith,
                  eq_iff entry.cached_index_path previous,
                  ap (λ (x : RegisteredIndex). x.cached_index_path) same ∙ k,
                )
                | inr (apart, f) ↦ λ k.
                    IsServed-apart P.library lawful w.cache w.cache e old (con name e f) served
                      (λ names.
                        apart (sym (find-name_of name entries (registered e) f) ∙ names ∙ old_name))
                      (k ∙ old_path)
              ])
              (put-IsConsistent entries w.cache con new name e at2))
      ]

  pub replace_entry-IsConsistent :
      (previous : Option Text) (w : World State)
      → IsConsistent P.library w.entries w.cache
      → IsServed P.library w.cache entry
      → previous ≡ previous_cache (find entry.name w.entries)
      → IsConsistent P.library
          (replace_entry P c r entry previous w).1.entries
          (replace_entry P c r entry previous w).1.cache
  unfolding replace_entry upsert
  replace_entry-IsConsistent previous w con new at = elim (Bool-cases (next_event w.events).fails) [
    | inl h ↦ rw h (undo_generation-IsConsistent previous _ _ con new at)
    | inr h ↦ rw h (retire_generation-IsConsistent previous w.entries _ refl con new at)
  ]

  undo_generation-entries :
      (previous : Option Text) (x : Exception) (w : World State)
      → (undo_generation P c r entry previous x w).1.entries ≡ w.entries
  unfolding undo_generation ◌>>=◌ raise
  undo_generation-entries previous x w =
      let v = try_discard_index P.library entry.name entry.cached_index_path c r w in
      elim (Bool-cases (some entry.cached_index_path == previous)) [
        | inl h ↦ rw h
        | inr h ↦
            rw (h, continue_stays v.0 (λ u. raise {A = Unit} x) v.1 (λ u. refl))
              (try_discard_index-entries P.library entry.name entry.cached_index_path c r w)
      ]

  retire_generation-entries :
      (previous : Option Text) (w : World State)
      → (retire_generation P c r entry previous w).1.entries ≡ w.entries
  unfolding retire_generation pure
  retire_generation-entries none w = refl
  retire_generation-entries (some previous) w =
      elim (Bool-cases (entry.cached_index_path == previous)) [
        | inl h ↦ rw h
        | inr h ↦ rw h (try_discard_index-entries P.library entry.name previous c r w)
      ]

  pub replace_entry-entries :
      (previous : Option Text) (w : World State)
      → ((replace_entry P c r entry previous w).1.entries ≡ w.entries)
        ⊎ ((replace_entry P c r entry previous w).1.entries ≡ put entry w.entries)
  unfolding replace_entry upsert
  replace_entry-entries previous w = elim (Bool-cases (next_event w.events).fails) [
    | inl h ↦ rw h (inl (undo_generation-entries previous _ _))
    | inr h ↦ rw h (inr (retire_generation-entries previous _))
  ]

  continue-raise :
      (y : Result Exception Unit) (x : Exception) (v : World State) {u : Unit}
      → (continue y (λ k. raise {A = Unit} x) v).0 ≢ ok u
  unfolding raise
  continue-raise (ok k) x v h = ground arith
  continue-raise (err e) x v h = ground arith

  undo_generation-ne-ok :
      (previous : Option Text) (x : Exception) (w : World State) {u : Unit}
      → (undo_generation P c r entry previous x w).0 ≢ ok u
  unfolding undo_generation ◌>>=◌ raise try_discard_index
  undo_generation-ne-ok previous x w h =
      let v = try_discard_index P.library entry.name entry.cached_index_path c r w in
      elim (Bool-cases (some entry.cached_index_path == previous)) [
        | inl e ↦ ground arith
        | inr e ↦ continue-raise v.0 x v.1 (rw e at h)
      ]

  pub find-replace_entry :
      (previous : Option Text) (w : World State) {u : Unit}
      → (replace_entry P c r entry previous w).0 ≡ ok u
      → find entry.name (replace_entry P c r entry previous w).1.entries ≡ some (registered entry)
  unfolding replace_entry upsert
  find-replace_entry previous w h = elim (Bool-cases (next_event w.events).fails) [
    | inl f ↦ elim (undo_generation-ne-ok previous _ _ (rw f at h)) [ ]
    | inr f ↦
        rw f
          (ap (find entry.name) (retire_generation-entries previous _) ∙ find-put entry w.entries)
  ]
