-- ===== src/Installation/Sync/Execute/Quiet.antt =====
-- The calls of a sync that do not touch a tree which stands apart from the files they work on.
use ritebook.Prelude.{◌≡◌, refl, ◌∙◌, ap, true, All, ok, List, [], ◌∷◌, Option, none, some}
use ritebook.Prelude.Actions.{
  Action, Keeps, keeps_rules, pure-Keeps, lift-Keeps, bind-Keeps, Ensures, Ensures-at, bind-Ensures,
  pure-Ensures,
}
use ritebook.Text.{Text}
use ritebook.Installation.Errors.{Exception}
use ritebook.Installation.Records.{
  OwnedInstallation, ReconciliationIssue, RegisteredSkillIndex, InstallableSkill,
  ResolvedSkillSource, GeneratedStateFile, SkillRequirement,
}
use ritebook.Installation.Targets.{ResolvedRequirement}
use ritebook.Installation.Sync.Ports.{SyncPorts, tree, is_there, AreApart, IsLawful}
use ritebook.Installation.Sync.Desired.{
  Opening, SelectedInstall, ask, open_once, source_for, select_skills, select_requirement,
  select_requirements, plan_all, desired_installations,
}
use ritebook.Installation.Sync.Reconcile.Steps.{HasPlan}

module _ (P : SyncPorts) (L : IsLawful P) (p : Text) where
  -- The call leaves what stands at the place as it is.
  abbrev pub IsQuiet : {A : Type 0} → Action Exception P.World A → Type 0
  IsQuiet m =
      (w : P.World) → is_there (L.content_at w p) ≡ true → L.content_at (m w).1 p ≡ L.content_at w p

  -- The place is apart from the registry at the path and from its cache, which the refresh and the
  -- sources work on. The lockfile is written where it was to be, and nothing is touched apart from
  -- it. The other calls only read.
  pub record AreQuiet (registry_path : Option Text) : Type 0 where
    pub read_requirements : (file : Text) → IsQuiet (P.read_requirements file)
    pub sync_lockfile_path :
        (file : Text) (path : Option Text) → IsQuiet (P.sync_lockfile_path file path)
    pub read_lockfile_ownership : (path file : Text) → IsQuiet (P.read_lockfile_ownership path file)
    pub lockfile :
        (entries : List OwnedInstallation) (issues : List ReconciliationIssue) (path file : Text)
        → IsQuiet (P.lockfile entries issues path file)
    pub lockfile_place :
        (entries : List OwnedInstallation) (issues : List ReconciliationIssue) (path file : Text)
        (w : P.World) (written : GeneratedStateFile)
        → (P.lockfile entries issues path file w).0 ≡ ok written
        → written.path ≡ path
    pub write_lockfile :
        (file : GeneratedStateFile) → AreApart p file.path → IsQuiet (P.write_lockfile file)
    pub refresh : (alias : Text) → IsQuiet (P.refresh alias registry_path)
    pub get_index : (alias : Text) → IsQuiet (P.get_index alias registry_path)
    pub read_skills : (path digest : Text) → IsQuiet (P.read_skills path digest)
    pub open_source : (index : RegisteredSkillIndex) → IsQuiet (P.open_source index)
    pub close_source : (source : ResolvedSkillSource) → IsQuiet (P.close_source source)
    pub validate_committed :
        (source : ResolvedSkillSource) (skill : InstallableSkill)
        → IsQuiet (P.validate_committed source skill)
    pub plan_target : (target : Text) → IsQuiet (P.plan_target target)

  module _ (digest : Text) where
    abbrev pub Stands : P.World → Type 0
    Stands w = L.content_at w p ≡ tree digest

    pub IsQuiet-Keeps : {A : Type 0} (m : Action Exception P.World A) → IsQuiet m → Keeps Stands m
    IsQuiet-Keeps m q = record { apply = λ w h. q w (ap is_there h) ∙ h }

    module _ (place : Text → Text) where
      abbrev StandsOpen : Opening P place → Type 0
      StandsOpen s = Stands s.world

      ask-Keeps :
          {A : Type 0} (m : Action Exception P.World A)
          → IsQuiet m
          → Keeps StandsOpen (ask P place m)
      unfolding ask
      ask-Keeps m q = record { apply = λ s h. q s.world (ap is_there h) ∙ h }

      module _ (registry_path : Option Text) (quiet : AreQuiet registry_path) where
        found-Keeps :
            (index : RegisteredSkillIndex) (s : Opening P place)
            (found : Option ResolvedSkillSource)
            → source_for index.name s.sources ≡ found
            → StandsOpen s
            → StandsOpen (open_once P place index s).1
        unfolding open_once
        found-Keeps index s none e h =
            rw (e, open_once)
              ((bind-Keeps _ _ (ask-Keeps (P.open_source index) (quiet.open_source index))
                  (λ source.
                    bind-Keeps _ _ (record { apply = λ t k. k }) (λ u. pure-Keeps source))).apply
                s h)
        found-Keeps index s (some source) e h = rw (e, open_once) h

        open_once-Keeps :
            (index : RegisteredSkillIndex) → Keeps StandsOpen (open_once P place index)
        open_once-Keeps index = record { apply = λ s h. found-Keeps index s _ refl h }

        select_skills-Keeps :
            (resolved : ResolvedRequirement) (index : RegisteredSkillIndex)
            (source : ResolvedSkillSource) (skills : List InstallableSkill)
            → Keeps StandsOpen (select_skills P place resolved index source skills)
        unfolding select_skills
        select_skills-Keeps resolved index source [] = search keeps_rules
        select_skills-Keeps resolved index source (skill ∷ skills) =
            bind-Keeps _ _ (lift-Keeps _) λ reference. bind-Keeps _ _ (lift-Keeps _) λ target.
              bind-Keeps _ _
                (ask-Keeps (P.validate_committed source skill)
                  (quiet.validate_committed source skill))
                λ header. bind-Keeps _ _ (lift-Keeps _) λ _.
                  bind-Keeps _ _ (select_skills-Keeps resolved index source skills)
                    λ rest. pure-Keeps _

        plan_all-Keeps :
            (selected : List SelectedInstall) → Keeps StandsOpen (plan_all P place selected)
        unfolding plan_all
        plan_all-Keeps [] = pure-Keeps _
        plan_all-Keeps (item ∷ selected) =
            bind-Keeps _ _
              (ask-Keeps (P.plan_target (place item.portable_target))
                (quiet.plan_target (place item.portable_target)))
              λ target. bind-Keeps _ _ (plan_all-Keeps selected) λ rest. pure-Keeps _

        select_requirement-Keeps :
            (file : Text) (bases : List (Text × Text)) (requirement : SkillRequirement)
            → Keeps StandsOpen (select_requirement P place registry_path file bases requirement)
        unfolding select_requirement
        select_requirement-Keeps file bases requirement = bind-Keeps _ _ (lift-Keeps _) λ reference.
            bind-Keeps _ _ (lift-Keeps _) λ resolved.
              bind-Keeps _ _
                (ask-Keeps (P.get_index reference.index_name registry_path)
                  (quiet.get_index reference.index_name))
                λ found. bind-Keeps _ _ (lift-Keeps _) λ index.
                  bind-Keeps _ _ (open_once-Keeps index) λ source.
                    bind-Keeps _ _
                      (ask-Keeps (P.read_skills index.cached_index_path index.index_digest)
                        (quiet.read_skills index.cached_index_path index.index_digest))
                      λ catalogue. bind-Keeps _ _ (lift-Keeps _) λ selection.
                        bind-Keeps _ _ (lift-Keeps _)
                          λ _. select_skills-Keeps resolved index source selection.0

        select_requirements-Keeps :
            (file : Text) (bases : List (Text × Text)) (seen : List Text)
            (requirements : List SkillRequirement)
            → Keeps StandsOpen
                (select_requirements P place registry_path file bases seen requirements)
        unfolding select_requirements
        select_requirements-Keeps file bases seen [] = pure-Keeps _
        select_requirements-Keeps file bases seen (requirement ∷ requirements) =
            bind-Keeps _ _ (lift-Keeps _) λ _.
              bind-Keeps _ _ (select_requirement-Keeps file bases requirement) λ selected.
                bind-Keeps _ _ (select_requirements-Keeps file bases _ requirements)
                  λ rest. pure-Keeps _

        pub desired_installations-Keeps :
            (file : Text) (requirements : List SkillRequirement) (bases : List (Text × Text))
            → Keeps StandsOpen (desired_installations P place registry_path file requirements bases)
        unfolding desired_installations
        desired_installations-Keeps file requirements bases =
            bind-Keeps _ _ (select_requirements-Keeps file bases [] requirements)
              λ selected. plan_all-Keeps selected

module _ (P : SyncPorts) (place : Text → Text) where
  plan_all-HasPlan :
      (selected : List SelectedInstall) (s : Opening P place)
      → Ensures (λ desired _. All (HasPlan P) desired) (plan_all P place selected) s
  unfolding plan_all ask
  plan_all-HasPlan [] s = pure-Ensures _ _ s tt
  plan_all-HasPlan (item ∷ selected) s = bind-Ensures _ _ _ s λ target e.
      bind-Ensures _ _ _ _ λ rest e'. pure-Ensures _ _ _ (
        (place item.portable_target, s.world, e),
        Ensures-at _ _ _ (plan_all-HasPlan selected _) e',
      )

  pub desired_installations-HasPlan :
      (registry_path : Option Text) (file : Text) (requirements : List SkillRequirement)
      (bases : List (Text × Text)) (s : Opening P place)
      → Ensures
          (λ desired _. All (HasPlan P) desired)
          (desired_installations P place registry_path file requirements bases)
          s
  unfolding desired_installations
  desired_installations-HasPlan registry_path file requirements bases s =
      bind-Ensures _ _ _ s λ selected _. plan_all-HasPlan selected _
