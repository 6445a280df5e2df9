-- ===== src/Installation/References/Parsing.antt =====
-- Parsing a reference is a round trip: the alias, a slash and the path are the text.
use ritebook.Prelude.{ℕ, ◌≡◌, refl, ◌↔◌, Bool, true, false, List, [], ◌∷◌, ◌++◌, arith}
use ritebook.Prelude.{some, ◌==◌, nat_eq, list_eq, ok, Option-cases, inl, inr}
use ritebook.Prelude.{list_beq, Result-cases}
use ritebook.Text.{Text, split, split_once}
use ritebook.Text.Laws.{Lacks, split_once-eq-some, split_once-append}
use ritebook.Kernel.Identifiers.{
  is_alnum, matches_kebab, is_kebab_case_identifier, is_index_name, require_index_name,
  require_kebab_case_identifier,
}
use ritebook.Kernel.CatalogPaths.{CatalogPath, validate_catalog_path}
use ritebook.Kernel.CatalogPaths.Single.{IsIdentifier, Classified, validate_catalog_path_iff}
use ritebook.Installation.References.{SkillReference, require_non_empty, parse_parts, parse}

matches_kebab-Lacks :
    (begun : Bool) (name : Text) → matches_kebab begun name ≡ true → Lacks b'/' name
unfolding matches_kebab is_alnum
matches_kebab-Lacks begun [] h = tt
matches_kebab-Lacks begun (c ∷ name) h =
    ground (arith, matches_kebab-Lacks true name, matches_kebab-Lacks false name)

identifier-Lacks : (name : Text) → IsIdentifier name → Lacks b'/' name
unfolding is_kebab_case_identifier
identifier-Lacks name h = ground (arith, matches_kebab-Lacks false name)

Classified-name :
    (value : Text) (parts : List Text) (path : CatalogPath)
    → Classified value parts path
    → IsIdentifier path.skill_name
Classified-name value (a ∷ []) path h = rw (h.1) (h.0)
Classified-name value (a ∷ b ∷ []) path h = rw (h.2) (h.1)
Classified-name value [] path h = absurd h
Classified-name value (a ∷ b ∷ c ∷ parts) path h = absurd h

-- The last segment of a catalog path is an identifier.
pub skill_name-IsIdentifier :
    (value : Text) (path : CatalogPath)
    → validate_catalog_path value ≡ ok path
    → IsIdentifier path.skill_name
skill_name-IsIdentifier value path h =
    Classified-name value (split b'/' value) path ((validate_catalog_path_iff value path).0 h)

-- What a reference parsed from a text is.
pub record Denotes (value : Text) (r : SkillReference) : Type 0 where
  pub whole : value ≡ r.index_name ++ (b'/' ∷ r.skill_path)
  pub requirement : r.requirement ≡ value
  pub alias : IsIdentifier r.index_name
  pub path : CatalogPath
  pub valid : validate_catalog_path r.skill_path ≡ ok path
  pub name : r.skill_name ≡ path.skill_name

parse_parts-Denotes :
    (value index_name skill_path : Text) (r : SkillReference)
    → value ≡ index_name ++ (b'/' ∷ skill_path)
    → parse_parts value (some (index_name, skill_path)) ≡ ok r
    → Denotes value r
unfolding parse_parts require_index_name is_index_name
parse_parts-Denotes value index_name skill_path r e h =
    elim (Result-cases (validate_catalog_path skill_path)) [
      | inl (p, valid) ↦ record {
        whole = ground arith;
        requirement = ground arith;
        alias = ground arith;
        path = p;
        valid = ground arith;
        name = ground arith;
      }
      | inr (e', failed) ↦ ground arith
    ]

parse-Denotes : (value : Text) (r : SkillReference) → parse value ≡ ok r → Denotes value r
unfolding parse require_non_empty
parse-Denotes value r h = elim (Option-cases (split_once b'/' value)) [
  | inl missing ↦ ground (arith, missing)
  | inr ((a, p), e) ↦
      parse_parts-Denotes value a p r ((split_once-eq-some b'/' value a p e).0) (ground arith)
]

beq_nil_append : (a : Text) (c : ℕ) (b : Text) → ((a ++ (c ∷ b)) == []) ≡ false
unfolding list_beq
beq_nil_append [] c b = refl
beq_nil_append (x ∷ a) c b = refl

Denotes-parse : (value : Text) (r : SkillReference) → Denotes value r → parse value ≡ ok r
unfolding parse parse_parts require_non_empty require_index_name is_index_name
    require_kebab_case_identifier
Denotes-parse value r d =
    let cut : split_once b'/' value ≡ some (r.index_name, r.skill_path) = rw (d.whole) (
      split_once-append b'/' r.index_name r.skill_path (identifier-Lacks r.index_name (d.alias))) in
    let kebab : is_kebab_case_identifier r.skill_name ≡ true =
      rw (d.name) (skill_name-IsIdentifier r.skill_path d.path (d.valid)) in
    let nonempty : (value == []) ≡ false =
      rw (d.whole) (beq_nil_append r.index_name b'/' r.skill_path) in
    let nonempty' : (r.requirement == []) ≡ false = rw (d.requirement) nonempty in
    ground (arith, nonempty, nonempty', cut, kebab, d.valid, d.alias, d.name, d.requirement)

-- A text parses to a reference exactly when it is the reference's requirement, and is an alias
-- that is an identifier, a slash, and a catalog path with the reference's skill name.
pub parse_iff : (value : Text) (r : SkillReference) → (parse value ≡ ok r) ↔ Denotes value r
parse_iff value r = (parse-Denotes value r, Denotes-parse value r)
