-- ===== src/Registry/Consistency/Writing.antt =====
-- `write_index`: the entries and the cache behind it.
use ritebook.Prelude.{◌≡◌, refl, sym, ap, ◌∙◌, ℕ, Bool, List, Option, some, Result, ok}
use ritebook.Prelude.{inl, inr, Result-cases}
use ritebook.Prelude.Actions.{pure, lift, ◌>>=◌, continue_stays, bind-eq-ok}
use ritebook.Text.{Text}
use ritebook.Registry.Errors.{Exception}
use ritebook.Registry.Records.{RegisteredIndex}
use ritebook.Registry.Store.{
  registry_cache_root, StoreLibrary, World, recover_alias_root, place_generation, write_generation,
  write_index, require_matching_digest,
}
use ritebook.Registry.Store.Paths.{FilePath, index_path, alias_root}
use ritebook.Registry.Consistency.{generation, IsReadable, IsServed}
use ritebook.Registry.Consistency.Generations.{
  require_matching_digest-eq-ok, IsServed-recover_alias_root, IsServed-stored, place_found-cache,
  place_found_held, place_found-entries,
}

module _ {State : Type 0} (L : StoreLibrary) where
  place_generation-IsServed :
      (e : RegisteredIndex) (path : FilePath) (c r : Option Text) (name : Text) (content : List ℕ)
      (force : Bool) (w : World State)
      → IsReadable L content
      → path ≡ generation L c r name content
      → IsServed L w.cache e
      → IsServed L (place_generation path content force w).1.cache e
  unfolding place_generation
  place_generation-IsServed e path c r name content force w readable at s =
      elim (place_found-cache path content force (w.cache path) w refl) [
        | inl same ↦ rw same s
        | inr same ↦ rw same (IsServed-stored L e path c r name content w.cache readable at s)
      ]

  write_generation-IsServed :
      (e : RegisteredIndex) (c r : Option Text) (name hex : Text) (content : List ℕ)
      (preserve : Option Text) (force : Bool) (w : World State)
      → IsReadable L content
      → hex ≡ L.reader.sha256_hex content
      → (e.name ≡ name → preserve ≡ some e.cached_index_path)
      → IsServed L w.cache e
      → IsServed L
          (write_generation L
            (alias_root (registry_cache_root L c r) name)
            hex
            content
            preserve
            force
            w).1.cache
          e
  unfolding write_generation generation ◌>>=◌ pure
  write_generation-IsServed e c r name hex content preserve force w readable at kept s =
      let root = alias_root (registry_cache_root L c r) name in
      let w1 = (recover_alias_root L root (index_path root hex) preserve w).1 in
      let placed = place_generation (index_path root hex) content force w1 in
      rw
        (continue_stays placed.0 (λ u. pure (L.to_text (index_path root hex))) placed.1 (λ u. refl))
        (place_generation-IsServed e (index_path root hex) c r name content force w1 readable
          (ap (λ x. index_path root x) at)
          (IsServed-recover_alias_root L e (registry_cache_root L c r) (index_path root hex) name
            preserve w kept s))

  pub write_index-IsServed :
      (e : RegisteredIndex) (c r : Option Text) (name index_digest : Text) (content : List ℕ)
      (preserve : Option Text) (force : Bool) (w : World State)
      → IsReadable L content
      → (e.name ≡ name → preserve ≡ some e.cached_index_path)
      → IsServed L w.cache e
      → IsServed L (write_index L name content index_digest c preserve r force w).1.cache e
  unfolding write_index ◌>>=◌ lift
  write_index-IsServed e c r name index_digest content preserve force w readable kept s =
      elim (Result-cases (require_matching_digest L content index_digest)) [
        | inr (x, h) ↦ rw h s
        | inl (hex, h) ↦ rw h (
            write_generation-IsServed e c r name hex content preserve force w readable
              (require_matching_digest-eq-ok L content index_digest hex h) kept s)
      ]

  write_generation-entries :
      (root : FilePath) (hex : Text) (content : List ℕ) (preserve : Option Text) (force : Bool)
      (w : World State)
      → (write_generation L root hex content preserve force w).1.entries ≡ w.entries
  unfolding write_generation ◌>>=◌ pure
  write_generation-entries root hex content preserve force w =
      let path = index_path root hex in
      let w1 = (recover_alias_root L root path preserve w).1 in
      let placed = place_generation path content force w1 in
      ap (λ (v : World State). v.entries)
        (continue_stays placed.0 (λ u. pure (L.to_text path)) placed.1 (λ u. refl))
      ∙ place_found-entries path content force (w1.cache path) w1

  pub write_index-entries :
      (c r : Option Text) (name index_digest : Text) (content : List ℕ) (preserve : Option Text)
      (force : Bool) (w : World State)
      → (write_index L name content index_digest c preserve r force w).1.entries ≡ w.entries
  unfolding write_index ◌>>=◌ lift
  write_index-entries c r name index_digest content preserve force w =
      elim (Result-cases (require_matching_digest L content index_digest)) [
        | inr (x, h) ↦ rw h
        | inl (hex, h) ↦ rw h (write_generation-entries _ hex content preserve force w)
      ]

  write_generation_held :
      (root : FilePath) (hex : Text) (content : List ℕ) (preserve : Option Text) (force : Bool)
      (w : World State) {path : Text} {w' : World State}
      → write_generation L root hex content preserve force w ≡ (ok path, w')
      → (path ≡ L.to_text (index_path root hex)) × (w'.cache (index_path root hex) ≡ some content)
  unfolding write_generation place_generation pure
  write_generation_held root hex content preserve force w h =
      let w1 = (recover_alias_root L root (index_path root hex) preserve w).1 in
      let (u, placed, e) =
        bind-eq-ok (place_generation (index_path root hex) content force)
          (λ v. pure (L.to_text (index_path root hex))) w1 h in
      (
        cc e,
        ap (λ (x : Result Exception Text × World State). x.1.cache (index_path root hex)) (sym e)
            ∙ place_found_held (index_path root hex) content force (w1.cache (index_path root hex))
                w1 refl placed,
      )

  -- What it returns, and the generation it leaves.
  pub write_index_held :
      (c r : Option Text) (name index_digest : Text) (content : List ℕ) (preserve : Option Text)
      (force : Bool) (w : World State) {path : Text} {w' : World State}
      → write_index L name content index_digest c preserve r force w ≡ (ok path, w')
      → (path ≡ L.to_text (generation L c r name content))
        × (w'.cache (generation L c r name content) ≡ some content)
  unfolding write_index generation lift
  write_index_held c r name index_digest content preserve force w h =
      let root = alias_root (registry_cache_root L c r) name in
      let (hex, found, e) =
        bind-eq-ok (lift (require_matching_digest L content index_digest))
          (λ hex. write_generation L root hex content preserve force) w h in
      let (at, held) = write_generation_held root hex content preserve force w e in
      let hexes = require_matching_digest-eq-ok L content index_digest hex found in
      (at ∙ ap (λ x. L.to_text (index_path root x)) hexes, rw (sym hexes) held)
