-- ===== src/Registry/Document/RoundTrip.antt =====
-- The writer and the reader of an entry of the registry's document.
use ritebook.Prelude.{◌≡◌, refl, sym, Option, none, some, ok, catch, list_beq, >>=-eq-ok}
use ritebook.Text.{Text}
use ritebook.Json.{Json, object}
use ritebook.Kernel.GitSources.{require_safe_persisted_source}
use ritebook.Registry.Records.{
  RegisteredIndex, IndexSourceType, git_url, local_git_repo, AliasOrigin, published_name, explicit,
  check_registered,
}
use ritebook.Registry.Document.{
  CoercionLibrary, origin_value, source_type_value, optional_string, optional_of, malformed,
  members_of, entry_to_json, to_origin, to_source_type, entry_from_json,
}

module _ (C : CoercionLibrary) where
  to_origin-origin_value : (o : AliasOrigin) → to_origin C (origin_value o) ≡ ok o
  unfolding to_origin list_beq
  to_origin-origin_value published_name = refl
  to_origin-origin_value explicit = refl

  to_source_type-source_type_value :
      (t : IndexSourceType) → to_source_type C (source_type_value t) ≡ ok t
  unfolding to_source_type list_beq
  to_source_type-source_type_value git_url = refl
  to_source_type-source_type_value local_git_repo = refl

  optional_of-optional_string : (o : Option Text) → optional_of C (optional_string o) ≡ o
  optional_of-optional_string none = refl
  optional_of-optional_string (some value) = refl

  -- What is written of a valid entry is read back as that entry.
  pub entry_from_json-entry_to_json :
      (e : RegisteredIndex) {written : Json}
      → check_registered e ≡ ok e
      → entry_to_json C e ≡ ok written
      → entry_from_json C written ≡ ok e
  unfolding entry_to_json entry_from_json list_beq
  entry_from_json-entry_to_json e {written} valid h =
      let (u, safe, h1) =
        >>=-eq-ok
          (catch (require_safe_persisted_source C.urls e.source (source_type_value e.source_type))
            (λ x. malformed))
          _ h in
      let same : (object (members_of e) ≡ written) = cc h1 in
      rw (
        sym same,
        to_source_type-source_type_value e.source_type,
        to_origin-origin_value e.alias_origin,
        safe,
        optional_of-optional_string e.source_cache_path,
        valid,
      )
