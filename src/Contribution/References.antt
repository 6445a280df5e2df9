-- ===== src/Contribution/References.antt =====
-- The references of a contribution, and those of an installation.
use ritebook.Prelude.{◌≡◌, refl, Option, none, some, Result, ok, err}
use ritebook.Prelude.{nat_eq, list_eq, ◌>>=◌}
use ritebook.Text.{Text, split_once}
use ritebook.Kernel.Errors.{ValueError}
use ritebook.Kernel.CatalogPaths.{validate_catalog_path}
use ritebook.Kernel.Identifiers.{require_index_name, require_kebab_case_identifier}
use ritebook.Installation.References
use ritebook.Installation.References.{SkillReference}
use ritebook.Contribution.Records
use ritebook.Contribution.Records.{ContributionSkillReference}

-- The reference of a contribution with the parts of one of an installation.
abbrev pub as_contribution : SkillReference → ContributionSkillReference
as_contribution r = record {
  requirement = r.requirement;
  index_name = r.index_name;
  skill_selector = r.skill_path;
  skill_name = r.skill_name;
}

abbrev pub as_contributed :
    Result ValueError SkillReference → Result ValueError ContributionSkillReference
as_contributed (ok r) = ok (as_contribution r)
as_contributed (err e) = err e

-- A step that both take, before what agrees.
step_agrees :
    {A : Type 0} (m : Result ValueError A) (f : A → Result ValueError SkillReference)
    (g : A → Result ValueError ContributionSkillReference)
    → ((x : A) → g x ≡ as_contributed (f x))
    → (m >>= g) ≡ as_contributed (m >>= f)
step_agrees (ok x) f g h = h x
step_agrees (err e) f g h = refl

checks_agree :
    (r : SkillReference)
    → Records.check_reference (as_contribution r) ≡ as_contributed (References.checked_reference r)
unfolding Records.check_reference References.checked_reference Records.require_non_empty
    References.require_non_empty
checks_agree r = step_agrees (References.require_non_empty r.requirement "Skill reference") _ _ λ u.
    step_agrees (require_index_name r.index_name "Local alias") _ _ λ v.
      step_agrees (validate_catalog_path r.skill_path) _ _
        λ w. step_agrees (require_kebab_case_identifier r.skill_name "Skill name") _ _ λ x. refl

parts_agree :
    (value : Text) (parts : Option (Text × Text))
    → Records.parse_selector value parts ≡ as_contributed (References.parse_parts value parts)
unfolding Records.parse_selector References.parse_parts
parts_agree value none = refl
parts_agree value (some (index_name, path)) =
    step_agrees (validate_catalog_path path) _ _ λ c. checks_agree _

-- A contribution parses a reference as an installation does: to the same parts, or with the same
-- error.
pub parse-as_contributed :
    (value : Text) → Records.parse value ≡ as_contributed (References.parse value)
unfolding Records.parse References.parse Records.require_non_empty References.require_non_empty
parse-as_contributed value =
    step_agrees (References.require_non_empty value "Skill reference") _ _
      λ u. parts_agree value (split_once b'/' value)
