-- ===== src/Kernel/CatalogPaths/Single.antt =====
-- One catalog path: which literals are accepted, and how they are classified.
use ritebook.Prelude.{◌≡◌, refl, ◌↔◌, Bool, true, false, ◌||◌, List, [], ◌∷◌, any, arith}
use ritebook.Prelude.{none, some, ◌==◌, nat_eq, list_eq, ok}
use ritebook.Prelude.{list_beq}
use ritebook.Text.{Text, split}
use ritebook.Kernel.Identifiers.{is_alnum, matches_kebab, is_kebab_case_identifier}
use ritebook.Kernel.PortablePaths.{is_malformed_literal, posix_parts}
use ritebook.Kernel.PortablePaths.Slashes.{
  is_empty, is_malformed_part, is_malformed_literal-split, posix_parts-split,
}
use ritebook.Kernel.CatalogPaths.{root_skill, collection_child, CatalogPath, validate_catalog_path}

abbrev pub IsIdentifier : Text → Type 0
IsIdentifier name = is_kebab_case_identifier name ≡ true

-- What a path of the given parts is in the catalog.
abbrev pub Classified : Text → List Text → CatalogPath → Type 0
Classified value (name ∷ []) path =
    IsIdentifier name
    × (path ≡ record { value = value; kind = root_skill; collection = none; skill_name = name })
Classified value (collection ∷ name ∷ []) path =
    IsIdentifier collection
    × IsIdentifier name
    × (path ≡ record {
      value = value;
      kind = collection_child;
      collection = some collection;
      skill_name = name;
    })
Classified value _ path = ⊥

matches_kebab_plain :
    (begun : Bool) (part : Text)
    → matches_kebab begun part ≡ true
    → any (λ c. c == b'\\' || c == b'.') part ≡ false
unfolding matches_kebab is_alnum
matches_kebab_plain begun [] h = refl
matches_kebab_plain begun (c ∷ part) h =
    ground (arith, matches_kebab_plain true part, matches_kebab_plain false part)

any-backslash :
    (part : Text)
    → any (λ c. c == b'\\' || c == b'.') part ≡ false
    → any (λ c. c == b'\\') part ≡ false
any-backslash [] h = refl
any-backslash (c ∷ part) h = ground (arith, any-backslash part)

plain_part :
    (part : Text)
    → any (λ c. c == b'\\' || c == b'.') part ≡ false
    → is_empty part ≡ false
    → is_malformed_part part ≡ false
unfolding is_malformed_part list_beq
plain_part [] h k = ground arith
plain_part (c ∷ part) h k = ground (arith, any-backslash part)

-- An identifier passes the literal tests.
identifier_part : (part : Text) → IsIdentifier part → is_malformed_part part ≡ false
unfolding is_kebab_case_identifier
identifier_part part h = ground (arith, plain_part part, matches_kebab_plain false part)

accepts :
    (value : Text) (path : CatalogPath)
    → validate_catalog_path value ≡ ok path
    → is_malformed_literal value ≡ false
unfolding validate_catalog_path
accepts value path h = ground arith

-- After the literal tests: what the tests of depth and segments leave.
Classified-iff :
    (value : Text) (parts : List Text) (path : CatalogPath)
    → is_malformed_literal value ≡ false
    → posix_parts value ≡ parts
    → (validate_catalog_path value ≡ ok path) ↔ Classified value parts path
unfolding validate_catalog_path
Classified-iff value [] path h e = rw (h, e) (ground arith)
Classified-iff value (a ∷ []) path h e = rw (h, e) (ground arith)
Classified-iff value (a ∷ b ∷ []) path h e = rw (h, e) (ground arith)
Classified-iff value (a ∷ b ∷ c ∷ parts) path h e = rw (h, e) (ground arith)

Classified-literal :
    (value : Text) (parts : List Text) (path : CatalogPath)
    → Classified value parts path
    → any is_malformed_part parts ≡ false
Classified-literal value (a ∷ []) path h = ground (arith, identifier_part a)
Classified-literal value (a ∷ b ∷ []) path h = ground (arith, identifier_part a, identifier_part b)
Classified-literal value [] path h = absurd h
Classified-literal value (a ∷ b ∷ c ∷ parts) path h = absurd h

-- A literal is a catalog path exactly when it has one or two parts between slashes, each an
-- identifier; one part makes a root skill, two make a child of the collection named first.
pub validate_catalog_path_iff :
    (value : Text) (path : CatalogPath)
    → (validate_catalog_path value ≡ ok path) ↔ Classified value (split b'/' value) path
validate_catalog_path_iff value path = (
  λ h.
      let literal = accepts value path h in
      (Classified-iff value _ path literal (posix_parts-split value literal)).0 h,
  λ h.
      let literal : is_malformed_literal value ≡ false =
        rw is_malformed_literal-split (Classified-literal value _ path h) in
      (Classified-iff value _ path literal (posix_parts-split value literal)).1 h,
)
