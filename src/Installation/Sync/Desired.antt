-- ===== src/Installation/Sync/Desired.antt =====
-- `_desired_installations` of install_from_requirements.py: the installations that a file of
-- requirements asks for.
use ritebook.Prelude.{
  ◌&&◌, not, List, [], ◌∷◌, ◌++◌, Option, none, some, Result, ok, err, ◌==◌, nat_eq, list_eq,
  if◌then◌else◌, raise_if, catch, contains,
}
use ritebook.Prelude.Actions.{Action, pure, lift, ◌>>=◌, ◌>>◌}
use ritebook.Text.{Text}
use ritebook.Installation.Errors.{
  Exception, installation, invalid_skill_reference, unparsable, collection_needs_target,
  duplicate_skill_requirement, unknown_install_index, committed_skill_metadata_mismatch,
}
use ritebook.Installation.References.{SkillReference, parse}
use ritebook.Installation.Records.{
  SkillRequirement, RegisteredSkillIndex, InstallableSkill, ResolvedSkillSource,
  CommittedSkillHeader, DesiredInstall,
}
use ritebook.Installation.Targets.{
  ResolvedRequirement, resolve_requirement, portable_target, find_skills, reference_for_skill,
}
use ritebook.Installation.Sync.Ports.{SyncPorts}

-- `_SelectedInstall`
pub record SelectedInstall : Type 0 where
  pub reference : SkillReference
  pub portable_target : Text
  pub target_ref : Option Text
  pub index : RegisteredSkillIndex
  pub skill : InstallableSkill
  pub source : ResolvedSkillSource

unfoldable pub source_for : Text → List (Text × ResolvedSkillSource) → Option ResolvedSkillSource
source_for name [] = none
source_for name ((n, source) ∷ sources) = if n == name then some source else source_for name sources

-- `target_path`: the file system's name for a portable target below the directory of the
-- requirements.
module _ (P : SyncPorts) (target_path : Text → Text) where
  -- The world, and the sources that are open: the caller closes them.
  pub record Opening : Type 0 where
    pub world : P.World
    pub sources : List (Text × ResolvedSkillSource)

  unfoldable pub ask : {A : Type 0} → Action Exception P.World A → Action Exception Opening A
  ask m s = ((m s.world).0, record s { world = (m s.world).1 })

  abbrev keep_source : Text → ResolvedSkillSource → Action Exception Opening Unit
  keep_source name source s = (ok tt, record s { sources = (name, source) ∷ s.sources })

  -- A source is opened once for each index.
  unfoldable pub open_once : RegisteredSkillIndex → Action Exception Opening ResolvedSkillSource
  unfolding source_for
  open_once index s = elim (source_for index.name s.sources) [
    | some source ↦ (ok source, s)
    | none ↦ (do source ← ask (P.open_source index); keep_source index.name source; pure source) s
  ]

  abbrev check_header : InstallableSkill → CommittedSkillHeader → Result Exception Unit
  check_header skill header =
      raise_if (not (header.name == skill.name && header.description == skill.description))
        (installation (committed_skill_metadata_mismatch skill.path))

  unfoldable pub select_skills :
      ResolvedRequirement
      → RegisteredSkillIndex
      → ResolvedSkillSource
      → List InstallableSkill
      → Action Exception Opening (List SelectedInstall)
  unfolding reference_for_skill portable_target
  select_skills resolved index source [] = pure []
  select_skills resolved index source (skill ∷ skills) = do
    exact_reference ← lift (reference_for_skill resolved skill)
    target ← lift (portable_target resolved exact_reference)
    header ← ask (P.validate_committed source skill)
    lift (check_header skill header)
    rest ← select_skills resolved index source skills
    pure (
        record {
          reference = exact_reference;
          portable_target = target;
          target_ref = resolved.target_ref;
          index = index;
          skill = skill;
          source = source;
        }
        ∷ rest)

  abbrev found_index : Text → Option RegisteredSkillIndex → Result Exception RegisteredSkillIndex
  found_index name none = err (installation (unknown_install_index name))
  found_index name (some index) = ok index

  -- One round of the loop.
  unfoldable pub select_requirement :
      Option Text
      → Text
      → List (Text × Text)
      → SkillRequirement
      → Action Exception Opening (List SelectedInstall)
  unfolding resolve_requirement open_once find_skills select_skills
  select_requirement registry_path requirements_file target_bases requirement = do
    reference ← lift (
        catch (parse requirement.name) (λ e. installation (invalid_skill_reference (unparsable e))))
    resolved ← lift (resolve_requirement reference requirement target_bases requirements_file)
    found ← ask (P.get_index reference.index_name registry_path)
    index ← lift (found_index reference.index_name found)
    source ← open_once index
    catalogue ← ask (P.read_skills index.cached_index_path index.index_digest)
    selection ← lift (find_skills reference catalogue)
    lift (
        raise_if (resolved.uses_target_path && selection.1)
          (installation (invalid_skill_reference collection_needs_target)))
    select_skills resolved index source selection.0

  unfoldable pub select_requirements :
      Option Text
      → Text
      → List (Text × Text)
      → List Text
      → List SkillRequirement
      → Action Exception Opening (List SelectedInstall)
  unfolding select_requirement
  select_requirements registry_path requirements_file target_bases seen [] = pure []
  select_requirements registry_path requirements_file target_bases seen
        (requirement ∷ requirements) =
      do
        lift (
            raise_if (contains seen requirement.name)
              (installation (duplicate_skill_requirement requirement.name)))
        selected ← select_requirement registry_path requirements_file target_bases requirement
        rest ←
            select_requirements registry_path requirements_file target_bases
              (requirement.name ∷ seen) requirements
        pure (selected ++ rest)

  unfoldable pub plan_all : List SelectedInstall → Action Exception Opening (List DesiredInstall)
  plan_all [] = pure []
  plan_all (item ∷ selected) = do
    planned_target ← ask (P.plan_target (target_path item.portable_target))
    rest ← plan_all selected
    pure (
        record {
          reference = item.reference;
          portable_target = item.portable_target;
          target_ref = item.target_ref;
          index = item.index;
          skill = item.skill;
          source = item.source;
          planned_target = planned_target;
        }
        ∷ rest)

  unfoldable pub desired_installations :
      Option Text
      → Text
      → List SkillRequirement
      → List (Text × Text)
      → Action Exception Opening (List DesiredInstall)
  unfolding select_requirements plan_all
  desired_installations registry_path requirements_file requirements target_bases = do
    selected ← select_requirements registry_path requirements_file target_bases [] requirements
    plan_all selected
