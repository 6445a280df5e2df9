-- ===== src/Registry/Consistency/Generations.antt =====
-- `write_index` and `discard_index`: what they leave of the entries.
use ritebook.Prelude.{
  ◌≡◌, refl, sym, ap, ◌∙◌, ℕ, Bool, true, false, List, Option, none, some, ok, arith,
}
use ritebook.Prelude.{
  ◌==◌, nat_eq, list_eq, eq_iff, eq_refl, inl, inr, Bool-cases, Result-cases, if◌then◌else◌,
}
use ritebook.Prelude.{◌⊎◌}
use ritebook.Prelude.Actions.{pure, raise}
use ritebook.Text.{Text}
use ritebook.Registry.Records.{RegisteredIndex}
use ritebook.Registry.Store.{
  StoreLibrary, World, Event, goes, recover_alias_root, place_found, store_file,
  require_matching_digest, digest_hex, next_event,
}
use ritebook.Registry.Store.Paths.{FilePath, alias_root, is_owned_generation}
use ritebook.Registry.Consistency.{generation, IsReadable, IsServed}
use ritebook.Registry.Consistency.Served.{
  path_of, is_owned_generation-generation, IsServed-untouched, IsServed-rewritten,
}

pub require_matching_digest-eq-ok :
    (L : StoreLibrary) (content : List ℕ) (index_digest hex : Text)
    → require_matching_digest L content index_digest ≡ ok hex
    → hex ≡ L.reader.sha256_hex content
unfolding require_matching_digest
require_matching_digest-eq-ok L content index_digest hex h =
    elim (Result-cases (digest_hex L index_digest)) [
      | inl (found, e) ↦ ground (arith, eq_iff (L.reader.sha256_hex content) found)
      | inr (x, e) ↦ ground arith
    ]

-- A file of the alias that is preserved, or of another alias, stays.
goes_preserved :
    (L : StoreLibrary) (root candidate : FilePath) (preserve : Option Text) (event : Event)
    (p : FilePath)
    → (is_owned_generation root p ≡ true → preserve ≡ some (L.to_text p))
    → goes L root candidate preserve event p ≡ false
unfolding goes
goes_preserved L root candidate preserve event p kept =
    elim (Bool-cases (is_owned_generation root p)) [
      | inr e ↦ rw e
      | inl e ↦ rw (kept e, eq_refl (L.to_text p)) (ground arith)
    ]

module _ {State : Type 0} (L : StoreLibrary) (e : RegisteredIndex) where
  pub IsServed-recover_alias_root :
      (root candidate : FilePath) (name : Text) (preserve : Option Text) (w : World State)
      → (e.name ≡ name → preserve ≡ some e.cached_index_path)
      → IsServed L w.cache e
      → IsServed L (recover_alias_root L (alias_root root name) candidate preserve w).1.cache e
  unfolding recover_alias_root
  IsServed-recover_alias_root root candidate name preserve w kept s =
      IsServed-untouched L w.cache _ e s (
        rw (
          goes_preserved L (alias_root root name) candidate preserve (next_event w.events)
            (path_of L w.cache e s)
            (λ owned.
              kept (
                is_owned_generation-generation L root name s.cache_root s.registry_path e.name
                  s.content owned)
              ∙ ap some s.is_placed)))

module _ (L : StoreLibrary) (e : RegisteredIndex) where
  pub IsServed-stored :
      (path : FilePath) (c r : Option Text) (name : Text) (content : List ℕ)
      (cache : FilePath → Option (List ℕ))
      → IsReadable L content
      → path ≡ generation L c r name content
      → IsServed L cache e
      → IsServed L (λ p. if p == path then some content else cache p) e
  IsServed-stored path c r name content cache readable at s =
      elim (Bool-cases (path_of L cache e s == path)) [
        | inl h ↦
            IsServed-rewritten L cache _ e s c r name content readable ((eq_iff _ path).0 h ∙ at)
              (rw (sym at, eq_refl path))
        | inr h ↦ IsServed-untouched L cache _ e s (rw h)
      ]

-- Where the new generation is written.
module _ {State : Type 0} (path : FilePath) (content : List ℕ) where
  pub place_found-cache :
      (force : Bool) (found : Option (List ℕ)) (w : World State)
      → found ≡ w.cache path
      → (place_found path content force found w).1.cache ≡ w.cache
        ⊎ ((place_found path content force found w).1.cache
            ≡ (λ p. if p == path then some content else w.cache p))
  unfolding pure raise
  place_found-cache force none w at = elim (Bool-cases (next_event w.events).fails) [
    | inl h ↦ rw h (inl refl)
    | inr h ↦ rw h (inr refl)
  ]
  place_found-cache true (some found) w at = elim (Bool-cases (next_event w.events).fails) [
    | inl h ↦ rw h (inl refl)
    | inr h ↦ rw h (inr refl)
  ]
  place_found-cache false (some found) w at = elim (Bool-cases (found == content)) [
    | inl h ↦ rw h (inl refl)
    | inr h ↦ rw h (inl refl)
  ]

  store_file_held :
      (w : World State)
      → (store_file path content w).0 ≡ ok tt
      → (store_file path content w).1.cache path ≡ some content
  store_file_held w h = elim (Bool-cases (next_event w.events).fails) [
    | inl e ↦ ground arith
    | inr e ↦ rw (e, eq_refl path)
  ]

  pub place_found_held :
      (force : Bool) (found : Option (List ℕ)) (w : World State)
      → found ≡ w.cache path
      → (place_found path content force found w).0 ≡ ok tt
      → (place_found path content force found w).1.cache path ≡ some content
  unfolding pure raise
  place_found_held force none w at h = store_file_held w h
  place_found_held true (some found) w at h = store_file_held w h
  place_found_held false (some found) w at h = elim (Bool-cases (found == content)) [
    | inl e ↦ rw e (sym at ∙ ap some ((eq_iff found content).0 e))
    | inr e ↦ ground arith
  ]

  pub place_found-entries :
      (force : Bool) (found : Option (List ℕ)) (w : World State)
      → (place_found path content force found w).1.entries ≡ w.entries
  unfolding pure raise
  place_found-entries force none w = ground arith
  place_found-entries force (some found) w = ground arith
