-- ===== src/Publisher/RoundTrip.antt =====
-- What the publisher writes is what the consumers of an index read.
use ritebook.Prelude.{◌≡◌, refl, some, true, false, List, [], ◌∷◌, ◌++◌, ok, map, arith}
use ritebook.Prelude.{
  nat_eq, list_eq, list_beq, ◌==◌, All, length, ltb, >>=-eq-ok, String, raise_if, raise_if-eq-ok,
  eq_refl,
}
use ritebook.Text.{Text}
use ritebook.Json.{Json, items_of-to_items}
use ritebook.Kernel.CatalogPaths.{CatalogPath, validate_catalog_paths}
use ritebook.Kernel.CatalogPaths.Sets.{validate_catalog_paths_iff}
use ritebook.Kernel.Identifiers.{require_index_name, is_index_name, is_kebab_case_identifier}
use ritebook.Kernel.PortablePaths.{validate_portable_relative_posix_path, is_malformed_literal}
use ritebook.Kernel.SchemaV1
use mathlib.Core.Path.{subst}
use ritebook.Kernel.SchemaV1.{
  SchemaV1Skill, validate_skill, check_skill, require_object, require_exact_members, member_of,
  require_string, read_catalog, SchemaV1Catalog, skill_md, wrap_value_error,
}
use ritebook.Kernel.Timestamps.{
  DatetimeLibrary, is_canonical_stamp, before_z, format_canonical_utc_timestamp,
  parse_canonical_utc_timestamp,
}
use ritebook.Kernel.Errors.{too_many_entries}
use ritebook.Prelude.Sorting.{sorted, length-sorted}
use ritebook.Publisher.{
  document_of, by_entry_path, SkillEntry, check_entry, require_relative_posix_path, entry_to_json,
  SkillCatalog, check_catalog, catalog_to_json,
}
use ritebook.Publisher.Entries.{
  IsEntry, relative-accepted, to_skill, traverse-validate_skill, map-path, length-map,
  entries_valid,
}

module _ (D : DatetimeLibrary) where
  -- What is known of a catalogue whose construction succeeded.
  record IsChecked (c : SkillCatalog D) : Type 0 where
    pub index_name : is_index_name c.index_name ≡ true
    pub root_parts : List Text
    pub root :
        validate_portable_relative_posix_path c.skills_root "skills_root" true ≡ ok root_parts
    pub few : ltb 10000 (length c.skills) ≡ false
    pub paths : List CatalogPath
    pub valid : validate_catalog_paths (map (λ (e : SkillEntry). e.path) c.skills) ≡ ok paths

  check_catalog-IsChecked : (c c' : SkillCatalog D) → check_catalog D c ≡ ok c' → IsChecked c'
  unfolding check_catalog require_index_name
  check_catalog-IsChecked c c' h =
      let (_, _, h₁) =
        >>=-eq-ok (format_canonical_utc_timestamp D c.generated_at "Catalog generation timestamp") _
          h in
      let (_, _, h₂) = >>=-eq-ok (require_index_name c.index_name "Published index name") _ h₁ in
      let (_, root, h₃) =
        >>=-eq-ok (require_relative_posix_path c.skills_root "skills_root" true) _ h₂ in
      let (_, few, h₄) = >>=-eq-ok (raise_if (ltb 10000 (length c.skills)) too_many_entries) _ h₃ in
      let (paths, valid, h₅) =
        >>=-eq-ok
          (validate_catalog_paths
            (map (λ (skill : SkillEntry). skill.path) (sorted by_entry_path c.skills)))
          _ h₄ in
      let (root_parts, root_ok) = relative-accepted c.skills_root "skills_root" true root in
      let same : record c { skills = sorted by_entry_path c.skills } ≡ c' = cc h₅ in
      subst IsChecked same (record {
        index_name = ground arith;
        root_parts = root_parts;
        root = root_ok;
        few = rw (length-sorted by_entry_path c.skills) (raise_if-eq-ok _ _ few);
        paths = paths;
        valid = valid;
      })

  -- The timestamp is written in the canonical form, and the library reads it back.
  pub record IsCanonical (d : D.Datetime) : Type 0 where
    pub stamp : Text
    pub written : D.utc_stamp d ≡ some stamp
    pub shape : is_canonical_stamp stamp ≡ true
    pub read : D.from_utc_stamp stamp ≡ some d

  before_z-append : (stamp : Text) → before_z (stamp ++ (b'Z' ∷ [])) ≡ some stamp
  unfolding before_z list_beq
  before_z-append [] = refl
  before_z-append (c ∷ stamp) = rw (before_z-append stamp)

  parse-format :
      (d : D.Datetime) (f : String) (k : IsCanonical d)
      → parse_canonical_utc_timestamp D (k.stamp ++ (b'Z' ∷ [])) f ≡ ok d
  unfolding parse_canonical_utc_timestamp format_canonical_utc_timestamp
  parse-format d f k =
      rw (before_z-append k.stamp)
        (rw k.shape (rw k.read (rw k.written (rw (eq_refl (k.stamp ++ (b'Z' ∷ [])))))))

  name-ne-nil : (name : Text) → is_index_name name ≡ true → (name == []) ≡ false
  unfolding is_index_name is_kebab_case_identifier list_beq
  name-ne-nil [] h = ground arith
  name-ne-nil (c ∷ name) h = refl

  stamp-ne-nil : (stamp : Text) → ((stamp ++ (b'Z' ∷ [])) == []) ≡ false
  unfolding list_beq
  stamp-ne-nil [] = refl
  stamp-ne-nil (c ∷ stamp) = refl

  root-ne-nil :
      (value : Text) (f : String) (parts : List Text)
      → validate_portable_relative_posix_path value f true ≡ ok parts
      → (value == []) ≡ false
  unfolding validate_portable_relative_posix_path is_malformed_literal list_beq
  root-ne-nil [] f parts h = ground arith
  root-ne-nil (c ∷ value) f parts h = refl

  -- What the consumers read of a catalogue.
  abbrev pub as_read : SkillCatalog D → SchemaV1Catalog D
  as_read c = record {
    published_name = c.index_name;
    generated_at = c.generated_at;
    skills_root = c.skills_root;
    skills = map to_skill c.skills;
  }

  check_catalog-as_read :
      (c : SkillCatalog D) (k : IsCanonical c.generated_at)
      → IsChecked c
      → All IsEntry c.skills
      → SchemaV1.check_catalog D c.index_name
          (k.stamp ++ (b'Z' ∷ []))
          c.skills_root
          (map entry_to_json c.skills)
        ≡ ok (as_read c)
  unfolding SchemaV1.check_catalog require_index_name
  check_catalog-as_read c k checked valid =
      let (found, _, _) = (validate_catalog_paths_iff _ checked.paths).0 checked.valid in
      rw checked.index_name (
        rw (parse-format c.generated_at "generated_at" k) (
          rw checked.root (
            rw (traverse-validate_skill c.skills checked.paths valid found)
              (rw (map-path c.skills) (rw checked.valid)))))

  read_catalog-document_of :
      (c : SkillCatalog D) (k : IsCanonical c.generated_at)
      → IsChecked c
      → All IsEntry c.skills
      → read_catalog D (document_of D c (k.stamp ++ (b'Z' ∷ []))) ≡ ok (as_read c)
  unfolding read_catalog list_beq
  read_catalog-document_of c k checked valid = rw (name-ne-nil c.index_name checked.index_name) (
      rw (stamp-ne-nil k.stamp) (
        rw (root-ne-nil c.skills_root _ _ checked.root) (
          rw (items_of-to_items (map entry_to_json c.skills))
            (rw (length-map c.skills) (rw checked.few (check_catalog-as_read c k checked valid))))))

  catalog_to_json-eq-ok :
      (c : SkillCatalog D) (k : IsCanonical c.generated_at)
      → catalog_to_json D c ≡ ok (document_of D c (k.stamp ++ (b'Z' ∷ [])))
  unfolding catalog_to_json format_canonical_utc_timestamp
  catalog_to_json-eq-ok c k = rw k.written

  -- A catalogue of valid entries that the publisher has built is read back from the document it
  -- writes: the same name, timestamp, root and skills in order, for a timestamp that the library
  -- reads back from its canonical form.
  pub read_catalog-catalog_to_json :
      (built c : SkillCatalog D) (doc : Json)
      → check_catalog D built ≡ ok c
      → All (λ (e : SkillEntry). check_entry e ≡ ok e) c.skills
      → IsCanonical c.generated_at
      → catalog_to_json D c ≡ ok doc
      → read_catalog D doc ≡ ok (as_read c)
  read_catalog-catalog_to_json built c doc checked valid k h =
      let same : document_of D c (k.stamp ++ (b'Z' ∷ [])) ≡ doc =
        cc (h, catalog_to_json-eq-ok c k) in
      rw (← same) (
        read_catalog-document_of c k (check_catalog-IsChecked built c checked)
          (entries_valid c.skills valid))
