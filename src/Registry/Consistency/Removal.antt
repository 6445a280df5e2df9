-- ===== src/Registry/Consistency/Removal.antt =====
-- `discard_index`, with its error suppressed: the entries and the cache behind it.
use ritebook.Prelude.{◌≡◌, ◌≢◌, refl, sym, ap, ◌∙◌, ℕ, List, Option, none, arith}
use ritebook.Prelude.{
  ◌⊎◌, ◌==◌, nat_eq, list_eq, option_eq, eq_iff, inl, inr, Bool-cases, if◌then◌else◌,
}
use ritebook.Text.{Text}
use ritebook.Registry.Records.{RegisteredIndex}
use ritebook.Registry.Store.{
  registry_cache_root, StoreLibrary, World, discard_index, try_discard_index, next_event,
}
use ritebook.Registry.Store.Paths.{FilePath, alias_root, is_owned_generation}
use ritebook.Registry.Consistency.{IsPathLawful, IsServed}
use ritebook.Registry.Consistency.Served.{path_of, IsServed-untouched, from_text-IsServed}

module _ {State : Type 0} (L : StoreLibrary) (name text : Text) (c r : Option Text) where
  -- A removal is of one path, or of none.
  try_discard_index-cache :
      (w : World State)
      → (try_discard_index L name text c r w).1.cache ≡ w.cache
        ⊎ ((try_discard_index L name text c r w).1.cache
            ≡ (λ p. if p == L.from_text text then none else w.cache p))
  unfolding try_discard_index discard_index
  try_discard_index-cache w =
      elim (Bool-cases
        (is_owned_generation (alias_root (registry_cache_root L c r) name) (L.from_text text))) [
          | inr h ↦ rw h (inl refl)
          | inl h ↦ elim (Bool-cases (next_event w.events).fails) [
            | inr f ↦ rw (h, f) (inr refl)
            | inl f ↦ elim (Bool-cases ((next_event w.events).spares (L.from_text text))) [
              | inr k ↦ rw (h, f, k) (inr refl)
              | inl k ↦ rw (h, f, k) (inl refl)
            ]
          ]
        ]

  pub try_discard_index-entries :
      (w : World State) → (try_discard_index L name text c r w).1.entries ≡ w.entries
  unfolding try_discard_index discard_index
  try_discard_index-entries w = ground arith

  -- It leaves the entries of other paths.
  pub try_discard_index-IsServed :
      (lawful : IsPathLawful L) (cache : FilePath → Option (List ℕ)) (gone e : RegisteredIndex)
      (w : World State)
      → IsServed L cache gone
      → text ≡ gone.cached_index_path
      → e.cached_index_path ≢ text
      → IsServed L w.cache e
      → IsServed L (try_discard_index L name text c r w).1.cache e
  try_discard_index-IsServed lawful cache gone e w g at apart s = elim (try_discard_index-cache w) [
    | inl same ↦ rw same s
    | inr same ↦ rw same (
        IsServed-untouched L w.cache _ e s
          (elim (Bool-cases (path_of L w.cache e s == L.from_text text)) [
            | inr h ↦ rw h
            | inl h ↦
                elim (apart (
                  s.is_placed
                  ∙ ap L.to_text (
                      (eq_iff _ _).0 h
                      ∙ ap L.from_text at
                      ∙ from_text-IsServed L lawful cache gone g)
                  ∙ sym g.is_placed
                  ∙ sym at)) [ ]
          ]))
  ]
