-- ===== src/Contribution/Execute/Untouched.antt =====
-- What a run leaves as it is.
use ritebook.Prelude.{◌≡◌, ◌≢◌, Option, ok}
use ritebook.Prelude.Actions.{Keeps}
use ritebook.Text.{Text}
use ritebook.Contribution.Records.{
  ContributionSkillReference, ContributionLockfileEntry, ContributionWorkspace,
  SkillChangeComparison, changed,
}
use ritebook.Contribution.Execute.{PublishPorts}

module _ {κ} (P : PublishPorts) (Q : P.World → Type κ) where
  -- The ports that look, and the preparation of the workspace, keep a property.
  pub record Reading : Type κ where
    pub resolve_entry :
        (r : ContributionSkillReference) (path : Option Text) → Keeps Q (P.resolve_entry r path)
    pub prepare_workspace :
        (e : ContributionLockfileEntry) (root : Option Text) → Keeps Q (P.prepare_workspace e root)
    pub compare :
        (e : ContributionLockfileEntry) (w : ContributionWorkspace) → Keeps Q (P.compare e w)

  -- The comparison, from a state with the property, does not show a change to contribute.
  abbrev pub Unchanged : Type κ
  Unchanged =
      (e : ContributionLockfileEntry) (w : ContributionWorkspace) (s : P.World)
      (c : SkillChangeComparison)
      → Q s
      → (P.compare e w s).0 ≡ ok c
      → c.status ≢ changed
