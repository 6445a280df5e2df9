-- ===== src/Publisher/Entries.antt =====
-- An entry of the publisher is read back from its object.
use ritebook.Prelude.{
  ◌≡◌, refl, sym, ap, ◌∙◌, suc, Bool, true, false, List, [], ◌∷◌, ◌++◌, ok, map, arith,
}
use ritebook.Prelude.{
  nat_eq, list_eq, list_beq, eq_iff, ◌==◌, traverse, All, Result-cases, inl, inr, length, >>=-eq-ok,
  String,
}
use ritebook.Text.{Text}
use ritebook.Kernel.CatalogPaths.{CatalogPath, validate_catalog_path}
use ritebook.Kernel.Identifiers.{require_kebab_case_identifier, is_kebab_case_identifier}
use ritebook.Kernel.PortablePaths.{
  posix_parts, last_or_empty, validate_portable_relative_posix_path, is_malformed_literal,
}
use ritebook.Kernel.PortablePaths.Acceptance.{validate_portable_relative_posix_path_iff}
use ritebook.Kernel.TextSafety.{normalize_portable_description}
use ritebook.Kernel.SchemaV1.{SchemaV1Skill, validate_skill, check_skill, skill_md}
use ritebook.Publisher.{SkillEntry, check_entry, require_relative_posix_path, entry_to_json}

-- The last part of a catalog path is its skill's name.
skill_name-last_at :
    (value : Text) (parts : List Text) (path : CatalogPath)
    → posix_parts value ≡ parts
    → validate_catalog_path value ≡ ok path
    → path.skill_name ≡ last_or_empty parts
unfolding validate_catalog_path
skill_name-last_at value [] path e h = ground (arith, e)
skill_name-last_at value (a ∷ []) path e h = ground (arith, e)
skill_name-last_at value (a ∷ b ∷ []) path e h = ground (arith, e)
skill_name-last_at value (a ∷ b ∷ c ∷ parts) path e h = ground (arith, e)

-- What the construction of an entry checks.
pub record IsEntry (e : SkillEntry) : Type 0 where
  pub path_parts : List Text
  pub path : validate_portable_relative_posix_path e.path "path" false ≡ ok path_parts
  pub file_parts : List Text
  pub file : validate_portable_relative_posix_path e.skill_file "skill_file" false ≡ ok file_parts
  pub name : e.name ≡ last_or_empty (posix_parts e.path)
  pub kebab : is_kebab_case_identifier e.name ≡ true
  pub skill_file : e.skill_file ≡ e.path ++ skill_md
  pub description : (e.description == []) ≡ false
  pub normalized :
      normalize_portable_description e.description "Skill entry description" ≡ ok e.description

pub relative-accepted :
    (value : Text) (field_name : String) (allow : Bool) {u : Unit}
    → require_relative_posix_path value field_name allow ≡ ok u
    → (parts : List Text) × (validate_portable_relative_posix_path value field_name allow
        ≡ ok parts)
unfolding require_relative_posix_path
relative-accepted value field_name allow h =
    elim (Result-cases (validate_portable_relative_posix_path value field_name allow)) [
      | inl accepted ↦ accepted
      | inr (e, raised) ↦ ground (arith, raised)
    ]

pub check_entry-IsEntry : (e e' : SkillEntry) → check_entry e ≡ ok e' → IsEntry e
unfolding check_entry require_kebab_case_identifier
check_entry-IsEntry e e' h =
    let (_, path, h₁) = >>=-eq-ok (require_relative_posix_path e.path "path" false) _ h in
    let (_, file, h₂) =
      >>=-eq-ok (require_relative_posix_path e.skill_file "skill_file" false) _ h₁ in
    let (path_parts, path_ok) = relative-accepted e.path "path" false path in
    let (file_parts, file_ok) = relative-accepted e.skill_file "skill_file" false file in
    record {
      path_parts = path_parts;
      path = path_ok;
      file_parts = file_parts;
      file = file_ok;
      name = ground (arith, eq_iff e.name (last_or_empty (posix_parts e.path)));
      kebab = ground arith;
      skill_file = ground (arith, eq_iff e.skill_file (e.path ++ skill_md));
      description = ground arith;
      normalized =
          elim (Result-cases
            (normalize_portable_description e.description "Skill entry description")) [
              | inl (text, found) ↦ ground (arith, found, eq_iff text e.description)
              | inr (raised, found) ↦ ground (arith, found)
            ];
    }

abbrev pub to_skill : SkillEntry → SchemaV1Skill
to_skill e = record {
  name = e.name;
  path = e.path;
  skill_file = e.skill_file;
  description = e.description;
}

-- Acceptance does not depend on the name of the field.
other_field :
    (value : Text) (f g : String) (parts : List Text)
    → validate_portable_relative_posix_path value f false ≡ ok parts
    → validate_portable_relative_posix_path value g false ≡ ok parts
other_field value f g parts h =
    (validate_portable_relative_posix_path_iff value g parts).1
      ((validate_portable_relative_posix_path_iff value f parts).0 h)

check_skill-IsEntry :
    (e : SkillEntry) (p : CatalogPath)
    → IsEntry e
    → validate_catalog_path e.path ≡ ok p
    → check_skill (to_skill e) ≡ ok (to_skill e)
unfolding check_skill
check_skill-IsEntry e p entry h =
    let name : e.name ≡ p.skill_name =
      entry.name ∙ sym (skill_name-last_at e.path (posix_parts e.path) p refl h) in
    let path : validate_portable_relative_posix_path e.path "skill path" false
        ≡ ok entry.path_parts =
      other_field e.path "path" "skill path" entry.path_parts entry.path in
    let file : validate_portable_relative_posix_path e.skill_file "skill_file" false
        ≡ ok entry.file_parts =
      entry.file in
    ground (
      arith,
      eq_iff e.name p.skill_name,
      eq_iff e.skill_file (e.path ++ skill_md),
      eq_iff e.description e.description,
      entry.normalized,
      entry.skill_file,
      h,
    )

-- Accepted texts are not empty.
path-ne-nil :
    (value : Text) (f : String) (parts : List Text)
    → validate_portable_relative_posix_path value f false ≡ ok parts
    → (value == []) ≡ false
unfolding validate_portable_relative_posix_path is_malformed_literal
path-ne-nil value f parts h = ground arith

kebab-ne-nil : (name : Text) → is_kebab_case_identifier name ≡ true → (name == []) ≡ false
unfolding is_kebab_case_identifier list_beq
kebab-ne-nil [] h = ground arith
kebab-ne-nil (c ∷ name) h = refl

validate_skill-entry_to_json :
    (e : SkillEntry) (p : CatalogPath)
    → IsEntry e
    → validate_catalog_path e.path ≡ ok p
    → validate_skill (entry_to_json e) ≡ ok (to_skill e)
unfolding validate_skill list_beq
validate_skill-entry_to_json e p entry h = rw (
  kebab-ne-nil e.name entry.kebab,
  path-ne-nil e.path _ _ entry.path,
  path-ne-nil e.skill_file _ _ entry.file,
  entry.description,
  check_skill-IsEntry e p entry h,
)

-- Each entry is read back.
pub traverse-validate_skill :
    (entries : List SkillEntry) (paths : List CatalogPath)
    → All IsEntry entries
    → traverse validate_catalog_path (map (λ (e : SkillEntry). e.path) entries) ≡ ok paths
    → traverse validate_skill (map entry_to_json entries) ≡ ok (map to_skill entries)
unfolding traverse
traverse-validate_skill [] paths valid h = refl
traverse-validate_skill (e ∷ entries) paths (entry, valid) h =
    let (p, found, h₁) = >>=-eq-ok (validate_catalog_path e.path) _ h in
    let (rest, found', h₂) =
      >>=-eq-ok (traverse validate_catalog_path (map (λ (x : SkillEntry). x.path) entries)) _ h₁ in
    rw (validate_skill-entry_to_json e p entry found)
      (rw (traverse-validate_skill entries rest valid found'))

pub map-path :
    (entries : List SkillEntry)
    → map (λ (skill : SchemaV1Skill). skill.path) (map to_skill entries)
      ≡ map (λ (e : SkillEntry). e.path) entries
map-path [] = refl
map-path (e ∷ entries) = ap (◌∷◌ e.path) (map-path entries)

pub length-map : (entries : List SkillEntry) → length (map entry_to_json entries) ≡ length entries
length-map [] = refl
length-map (e ∷ entries) = ap suc (length-map entries)

pub entries_valid :
    (entries : List SkillEntry)
    → All (λ (e : SkillEntry). check_entry e ≡ ok e) entries
    → All IsEntry entries
entries_valid [] h = tt
entries_valid (e ∷ entries) (h, hs) = (check_entry-IsEntry e e h, entries_valid entries hs)
