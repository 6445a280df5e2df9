-- ===== src/Installation/Targets.antt =====
-- The choice of skills and targets of a sync: the helpers of
-- skill_installation/application/use_cases/install_from_requirements.py and _provenance.py.
pub mod Overlap
use ritebook.Prelude.{
  ℕ, zero, suc, Bool, true, false, ◌&&◌, ◌||◌, not, List, [], ◌∷◌, ◌++◌, Option, none, some, map,
}
use ritebook.Prelude.{
  ◌==◌, nat_eq, list_eq, option_eq, if◌then◌else◌, Result, ok, err, ◌>>=◌, ◌>>◌, raise_if,
}
use ritebook.Prelude.{catch, any, filter, traverse, contains}
use ritebook.Prelude.Order.{text_leb}
use ritebook.Prelude.Sorting.{sorted}
use ritebook.Text.{Text, codes, has_sub, starts_with, join}
use ritebook.Kernel.Errors.{ValueError}
use ritebook.Kernel.PortablePaths.{posix_parts}
use ritebook.Kernel.CatalogPaths.{CatalogPath, is_root_skill, validate_catalog_path}
use ritebook.Installation.Errors.{
  SkillInstallationError, Exception, InvalidReference, invalid_skill_reference, unparsable,
  exactly_one_target, unportable_target, undefined_install_target, unknown_install_skill,
  duplicate_install_target, installation, value_error, unsafe_install_path,
}
use ritebook.Installation.References.{SkillReference, parse}
use ritebook.Installation.Records.{SkillRequirement, InstallableSkill, DesiredInstall}

-- str(PurePosixPath(value)), from the parts
unfoldable pub posix_text : List Text → Text
posix_text [] = codes "."
posix_text (part ∷ parts) =
    if part == codes "/" || part == codes "//"
    then part ++ join b'/' parts
    else join b'/' (part ∷ parts)

-- `sorted` of a set of texts: each text once.
unfoldable pub distinct : List Text → List Text
distinct [] = []
distinct (x ∷ xs) = let rest = distinct xs in if contains rest x then rest else x ∷ rest

unfoldable pub referenced_aliases : List SkillRequirement → Result Exception (List Text)
unfolding distinct
referenced_aliases requirements =
    catch
      (do
        names ←
            traverse
              (λ (r : SkillRequirement). do reference ← parse r.name; ok (reference.index_name))
              requirements
        ok (sorted text_leb (distinct names)))
      (λ e. installation (invalid_skill_reference (unparsable e)))

pub record ResolvedRequirement : Type 0 where
  pub reference : SkillReference
  pub target_base : Text
  pub target_ref : Option Text
  pub uses_target_path : Bool

unfoldable pub lookup : Text → List (Text × Text) → Option Text
lookup key [] = none
lookup key ((k, v) ∷ entries) = if k == key then some v else lookup key entries

unfoldable pub resolve_requirement :
    SkillReference
    → SkillRequirement
    → List (Text × Text)
    → Text
    → Result Exception ResolvedRequirement
resolve_requirement reference requirement target_bases requirements_file =
    elim requirement.target_path [
      | some base ↦ ok (record {
        reference = reference;
        target_base = base;
        target_ref = none;
        uses_target_path = true;
      })
      | none ↦ elim requirement.target [
        | none ↦ err (installation (invalid_skill_reference exactly_one_target))
        | some nickname ↦ elim (lookup nickname target_bases) [
          | none ↦ err (installation (undefined_install_target nickname requirements_file))
          | some base ↦ ok (record {
            reference = reference;
            target_base = base;
            target_ref = some nickname;
            uses_target_path = false;
          })
        ]
      ]
    ]

abbrev reference_beq : SkillReference → SkillReference → Bool
reference_beq a b =
    a.requirement == b.requirement
    && a.index_name == b.index_name
    && a.skill_path == b.skill_path
    && a.skill_name == b.skill_name

-- PurePath(base, name): an absolute name would replace the base, and a skill name is never one.
abbrev pure_join : Text → Text → List Text
pure_join base name = posix_parts base ++ posix_parts name

unfoldable pub portable_target : ResolvedRequirement → SkillReference → Result Exception Text
portable_target resolved reference =
    let value =
      (if resolved.uses_target_path && reference_beq reference resolved.reference
        then resolved.target_base
        else posix_text (pure_join resolved.target_base reference.skill_name)) in
    let parts = posix_parts value in
    let normalized = posix_text parts in
    if starts_with value (codes "/") || contains parts (codes "..")
    then err (installation (invalid_skill_reference (unportable_target value)))
    else if normalized == [] || normalized == codes "."
    then err (installation (invalid_skill_reference (unportable_target value)))
    else ok normalized

unfoldable pub is_immediate_collection_child : Text → Text → Result ValueError Bool
is_immediate_collection_child path collection = do
  catalog_path ← validate_catalog_path path
  ok (not (is_root_skill catalog_path.kind) && catalog_path.collection == some collection)

-- The generator of the children: the first path that is no catalog path raises.
unfoldable pub children_of :
    Text → List InstallableSkill → Result ValueError (List InstallableSkill)
unfolding is_immediate_collection_child
children_of collection [] = ok []
children_of collection (skill ∷ skills) = do
  child ← is_immediate_collection_child skill.path collection
  rest ← children_of collection skills
  ok (if child then skill ∷ rest else rest)

unfoldable pub find_exact : Text → List InstallableSkill → Option InstallableSkill
find_exact path [] = none
find_exact path (skill ∷ skills) = if skill.path == path then some skill else find_exact path skills

abbrev by_path : InstallableSkill → InstallableSkill → Bool
by_path a b = text_leb a.path b.path

abbrev some_children :
    Text → List InstallableSkill → Result Exception (List InstallableSkill × Bool)
some_children requirement [] = err (installation (unknown_install_skill requirement))
some_children requirement (skill ∷ skills) = ok (skill ∷ skills, true)

-- The skills of a selector, and whether it named a collection.
unfoldable pub find_skills :
    SkillReference → List InstallableSkill → Result Exception (List InstallableSkill × Bool)
unfolding find_exact children_of
find_skills reference skills = elim (find_exact reference.skill_path skills) [
  | some skill ↦ ok (skill ∷ [], false)
  | none ↦ do
    selector ← catch (validate_catalog_path reference.skill_path) value_error
    raise_if (not (is_root_skill selector.kind))
        (installation (unknown_install_skill reference.requirement))
    children ← catch (children_of selector.value skills) value_error
    some_children reference.requirement (sorted by_path children)
]

unfoldable pub reference_for_skill :
    ResolvedRequirement → InstallableSkill → Result Exception SkillReference
reference_for_skill resolved skill =
    if skill.path == resolved.reference.skill_path
    then ok (resolved.reference)
    else catch (parse (resolved.reference.index_name ++ (b'/' ∷ skill.path))) value_error

-- first_parts[:n] == second_parts[:n] for the shorter length n
unfoldable pub parts_overlap : List Text → List Text → Bool
parts_overlap [] second = true
parts_overlap (a ∷ first) [] = true
parts_overlap (a ∷ first) (b ∷ second) = a == b && parts_overlap first second

unfoldable pub targets_overlap : DesiredInstall → DesiredInstall → Bool
unfolding parts_overlap
targets_overlap first second =
    parts_overlap (posix_parts first.planned_target.canonical_target)
      (posix_parts second.planned_target.canonical_target)

unfoldable pub reject_from : List DesiredInstall → List DesiredInstall → Result Exception Unit
reject_from seen [] = ok tt
reject_from seen (item ∷ desired) =
    if any (λ other. targets_overlap item other) seen
    then err (installation (duplicate_install_target item.portable_target))
    else reject_from (seen ++ (item ∷ [])) desired

unfoldable pub reject_conflicting_targets : List DesiredInstall → Result Exception Unit
unfolding reject_from
reject_conflicting_targets desired = reject_from [] desired

unfoldable pub safe_relative_posix_path : Text → Result Exception (List Text)
safe_relative_posix_path value =
    if has_sub value (codes "\\")
    then err (installation unsafe_install_path)
    else if starts_with value (codes "/")
        || value == []
        || contains (posix_parts value) (codes "..")
    then err (installation unsafe_install_path)
    else ok (posix_parts value)

unfoldable pub repository_relative_source_path : Text → Text → Result Exception Text
unfolding safe_relative_posix_path posix_text
repository_relative_source_path source_root path = do
  root ← safe_relative_posix_path source_root
  relative_path ← safe_relative_posix_path path
  ok (posix_text (root ++ relative_path))
