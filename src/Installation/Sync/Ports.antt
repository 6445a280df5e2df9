-- ===== src/Installation/Sync/Ports.antt =====
-- The ports that a sync calls, over a state of everything outside the use case:
-- skill_installation/application/ports. The adapters behind them touch the file system, Git and
-- the index registry; each call may raise and may change that state.
use ritebook.Prelude.{◌≡◌, ◌≢◌, Bool, true, false, List, ◌++◌, Option, none, some, ok}
use ritebook.Prelude.Actions.{Action}
use ritebook.Text.{Text}
use ritebook.Kernel.PortablePaths.{posix_parts}
use ritebook.Installation.Errors.{Exception}
use ritebook.Installation.Records.{
  SkillRequirements, RegisteredSkillIndex, InstallableSkill, ResolvedSkillSource,
  CommittedSkillHeader, PlannedInstallTarget, TargetInspection, StagedSkillTree, GeneratedStateFile,
  InstallationStateSnapshot, OwnedInstallation, ReconciliationIssue,
}

-- A record with a field of `Type 0` stands in `Type 1`.
pub record SyncPorts : Type 1 where
  pub World : Type 0
  -- RequirementsReaderPort
  pub read_requirements : Text → Action Exception World SkillRequirements
  -- InstallationStatePort
  pub sync_lockfile_path : Text → Option Text → Action Exception World Text
  pub read_lockfile_ownership : Text → Text → Action Exception World InstallationStateSnapshot
  pub lockfile :
      List OwnedInstallation
      → List ReconciliationIssue
      → Text
      → Text
      → Action Exception World GeneratedStateFile
  -- IndexRefresherPort
  pub refresh : Text → Option Text → Action Exception World Unit
  -- SkillCatalogPort
  pub get_index : Text → Option Text → Action Exception World (Option RegisteredSkillIndex)
  pub read_skills : Text → Text → Action Exception World (List InstallableSkill)
  -- SkillSourcePort: entering and leaving the context of `open_source`
  pub open_source : RegisteredSkillIndex → Action Exception World ResolvedSkillSource
  pub close_source : ResolvedSkillSource → Action Exception World Unit
  -- CommittedSkillValidatorPort
  pub validate_committed :
      ResolvedSkillSource → InstallableSkill → Action Exception World CommittedSkillHeader
  -- SkillInstallerPort
  pub plan_target : Text → Action Exception World PlannedInstallTarget
  pub inspect_target : PlannedInstallTarget → Action Exception World TargetInspection
  pub stage :
      ResolvedSkillSource
      → InstallableSkill
      → PlannedInstallTarget
      → Action Exception World StagedSkillTree
  pub cleanup_staged : StagedSkillTree → Action Exception World Unit
  -- SyncWriterPort
  pub replace_tree : Text → Text → Option Text → Action Exception World Unit
  pub write_lockfile : GeneratedStateFile → Action Exception World Unit
  -- hashlib.sha256(value.encode()).hexdigest()
  pub sha256 : Text → Text

-- What stands at a path: nothing, a tree with its digest, or something else, such as a file. At a
-- path that passes a link there is nothing.
pub data Content : Type 0 where
  nothing something_else : Content
  tree : Text → Content

abbrev pub is_there : Content → Bool
is_there nothing = false
is_there _ = true

abbrev pub tree_digest : Content → Option Text
tree_digest (tree digest) = some digest
tree_digest _ = none

-- Neither path is the other, or lies in it.
pub record AreApart (p q : Text) : Type 0 where
  pub not_below : (rest : List Text) → posix_parts p ≢ posix_parts q ++ rest
  pub not_above : (rest : List Text) → posix_parts q ≢ posix_parts p ++ rest

module _ (P : SyncPorts) where
  -- The target is one that `plan_target` has returned.
  abbrev pub IsPlanned : PlannedInstallTarget → Type 0
  IsPlanned t = (value : Text) × (w : P.World) × ((P.plan_target value w).0 ≡ ok t)

  -- The tree was staged for the target, in the world `w`.
  abbrev pub IsStaged : PlannedInstallTarget → P.World → StagedSkillTree → Type 0
  IsStaged t w st =
      (s : ResolvedSkillSource) × (k : InstallableSkill) × ((P.stage s k t w).0 ≡ ok st)

  -- What the ports document, of ports/skill_installer.py and ports/sync_writer.py, and how their
  -- adapters keep to it: a staged tree stands in a directory with a new name beside the target; a
  -- replacement moves it to the target and what was there to a new name beside it. Nothing that
  -- stands apart from the target is touched, but what the staging itself has made. Other processes
  -- are taken to leave these files alone, and a place to have one spelling.
  pub record IsLawful : Type 0 where
    pub content_at : P.World → Text → Content
    -- "Inspect one planned target without mutating it."
    pub inspect_unchanged : (t : PlannedInstallTarget) (w : P.World) → (P.inspect_target t w).1 ≡ w
    pub inspect_seen :
        (t : PlannedInstallTarget) (w : P.World) (i : TargetInspection)
        → IsPlanned t
        → (P.inspect_target t w).0 ≡ ok i
        → (i.exists ≡ is_there (content_at w t.canonical_target))
          × (i.installed_tree_digest ≡ tree_digest (content_at w t.canonical_target))
    -- "Stage and hash a complete candidate beside its target."
    pub stage_digest :
        (t : PlannedInstallTarget) (w : P.World) (s : ResolvedSkillSource) (k : InstallableSkill)
        (st : StagedSkillTree)
        → IsPlanned t
        → (P.stage s k t w).0 ≡ ok st
        → content_at (P.stage s k t w).1 st.staged_path ≡ tree st.installed_tree_digest
    -- What stands, at the target or apart from it, stays, also where the staging raises; and the
    -- staged tree is apart from it.
    pub stage_target :
        (t : PlannedInstallTarget) (w : P.World) (s : ResolvedSkillSource) (k : InstallableSkill)
        → IsPlanned t
        → is_there (content_at w t.canonical_target) ≡ true
        → content_at (P.stage s k t w).1 t.canonical_target ≡ content_at w t.canonical_target
    pub stage_others :
        (t : PlannedInstallTarget) (w : P.World) (s : ResolvedSkillSource) (k : InstallableSkill)
        (p : Text)
        → IsPlanned t
        → AreApart p t.canonical_target
        → is_there (content_at w p) ≡ true
        → content_at (P.stage s k t w).1 p ≡ content_at w p
    -- "Revalidate and replace one target": where it returns, the target holds the staged tree, and
    -- what stood apart from the target before the staging stays, also where it raises.
    pub replace_placed :
        (t : PlannedInstallTarget) (before w : P.World) (st : StagedSkillTree)
        (expected : Option Text)
        → IsPlanned t
        → IsStaged t before st
        → (P.replace_tree st.staged_path t.canonical_target expected w).0 ≡ ok tt
        → content_at
            (P.replace_tree st.staged_path t.canonical_target expected w).1
            t.canonical_target
          ≡ content_at w st.staged_path
    pub replace_others :
        (t : PlannedInstallTarget) (before w : P.World) (st : StagedSkillTree)
        (expected : Option Text) (p : Text)
        → IsPlanned t
        → IsStaged t before st
        → AreApart p t.canonical_target
        → is_there (content_at before p) ≡ true
        → is_there (content_at w p) ≡ true
        → content_at (P.replace_tree st.staged_path t.canonical_target expected w).1 p
          ≡ content_at w p
    -- "Remove one staging root."
    pub cleanup_others :
        (t : PlannedInstallTarget) (before w : P.World) (st : StagedSkillTree) (p : Text)
        → IsPlanned t
        → IsStaged t before st
        → AreApart p t.canonical_target
        → is_there (content_at before p) ≡ true
        → content_at (P.cleanup_staged st w).1 p ≡ content_at w p
