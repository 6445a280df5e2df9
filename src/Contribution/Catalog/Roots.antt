-- ===== src/Contribution/Catalog/Roots.antt =====
-- The root of the catalogue of a contribution, by what is before the selector.
use ritebook.Prelude.{
  ◌-◌, ◌≡◌, refl, sym, ◌∙◌, ◌↔◌, List, ◌++◌, ok, arith, length, length-append, take-length,
  drop-length, take-append-drop, not, >>=-eq-ok, raise_if, raise_if-eq-ok, catch, catch-eq-ok,
}
use ritebook.Prelude.{◌==◌, nat_eq, list_eq, eq_iff, eq_refl}
use ritebook.Text.{Text}
use ritebook.Kernel.PortablePaths.{posix_parts}
use ritebook.Installation.Targets.{posix_text}
use ritebook.Contribution.Errors.{contribution, value_error, skill_contribution_validation}
use ritebook.Contribution.Records.{ContributionLockfileEntry, ContributionSkillReference, parse}
use ritebook.Contribution.Catalog.{catalog_root, published_skills_root, first_parts, last_parts}

depth_of : (root selector : List Text) → length (root ++ selector) - length selector ≡ length root
depth_of root selector = omega (arith, length-append root selector)

first_parts-append :
    (root selector : List Text) → first_parts (length selector) (root ++ selector) ≡ root
first_parts-append root selector = rw (depth_of root selector) (take-length root selector)

last_parts-append :
    (root selector : List Text) → last_parts (length selector) (root ++ selector) ≡ selector
last_parts-append root selector = rw (depth_of root selector) (drop-length root selector)

-- The path of the skill is the root's parts, and then those of the selector.
pub record LiesBelow (entry : ContributionLockfileEntry) (root : List Text) : Type 0 where
  pub reference : ContributionSkillReference
  pub parsed : parse entry.requirement ≡ ok reference
  pub path : posix_parts entry.skill_path ≡ root ++ posix_parts reference.skill_selector

to_below :
    (entry : ContributionLockfileEntry) (root : List Text)
    → catalog_root entry ≡ ok root
    → LiesBelow entry root
unfolding catalog_root
to_below entry root h =
    let (r, parsed, h1) = >>=-eq-ok (catch (parse entry.requirement) value_error) _ h in
    let parts = posix_parts entry.skill_path in
    let depth = length (posix_parts r.skill_selector) in
    let (_, guard, h2) =
      >>=-eq-ok
        (raise_if (not (last_parts depth parts == posix_parts r.skill_selector))
          (contribution skill_contribution_validation))
        _ h1 in
    let suffix : last_parts depth parts ≡ posix_parts r.skill_selector =
      (eq_iff (last_parts depth parts) (posix_parts r.skill_selector)).0
        (ground (arith, raise_if-eq-ok _ _ guard)) in
    let prefix : first_parts depth parts ≡ root = cc h2 in
    record {
      reference = r;
      parsed = catch-eq-ok _ _ parsed;
      path = sym (take-append-drop (length parts - depth) parts) ∙ λ i. prefix i ++ suffix i;
    }

from_below :
    (entry : ContributionLockfileEntry) (root : List Text)
    → LiesBelow entry root
    → catalog_root entry ≡ ok root
unfolding catalog_root
from_below entry root b =
    let selector = posix_parts b.reference.skill_selector in
    rw
      (
        b.parsed,
        b.path,
        last_parts-append root selector,
        eq_refl selector,
        first_parts-append root selector,
      )
      refl

-- The validation finds a root of the catalogue exactly when the entry's requirement is a reference
-- and the path of the skill is the parts of that root followed by those of the selector.
pub catalog_root_iff :
    (entry : ContributionLockfileEntry) (root : List Text)
    → (catalog_root entry ≡ ok root) ↔ LiesBelow entry root
catalog_root_iff entry root = (to_below entry root, from_below entry root)

-- The index is regenerated for the root that was validated.
pub published_skills_root-catalog_root :
    (entry : ContributionLockfileEntry) (root : List Text)
    → catalog_root entry ≡ ok root
    → published_skills_root entry ≡ ok (posix_text root)
unfolding published_skills_root
published_skills_root-catalog_root entry root h =
    let b = to_below entry root h in
    let selector = posix_parts b.reference.skill_selector in
    rw
      (
        b.parsed,
        b.path,
        last_parts-append root selector,
        eq_refl selector,
        first_parts-append root selector,
      )
      refl
