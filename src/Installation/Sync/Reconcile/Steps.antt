-- ===== src/Installation/Sync/Reconcile/Steps.antt =====
-- One round of the loop: what it may change.
use ritebook.Prelude.{◌≡◌, refl, ◌∙◌, Bool, true, List, [], ◌∷◌, Option, ap, All, All-append}
use ritebook.Prelude.{nat_eq, list_eq}
use ritebook.Prelude.Actions.{
  Keeps, keeps_rules, bind-After, bind-Keeps, lift-Keeps, pure-Keeps, if-Keeps,
}
use ritebook.Text.{Text}
use ritebook.Installation.Records.{
  OwnedInstallation, TargetInspection, DesiredInstall, StagedSkillTree, PlannedInstallTarget,
}
use ritebook.Installation.Sync.Ports.{
  SyncPorts, Content, is_there, AreApart, IsPlanned, IsStaged, IsLawful,
}
use ritebook.Installation.Sync.Outcome.{
  ReconciliationOutcome, Decision, unmanaged, place, preserve, Staging, call, remember,
}
use ritebook.Installation.Sync.Reconcile.{finish_item, act_on, reconcile_item}

abbrev pub target_of : DesiredInstall → Text
target_of item = item.planned_target.canonical_target

-- The target is planned, as all are that a sync declares.
abbrev pub HasPlan : SyncPorts → DesiredInstall → Type 0
HasPlan P item = IsPlanned P item.planned_target

-- The removal of the staged tree does not touch the place.
abbrev pub Leaves : (P : SyncPorts) → IsLawful P → Text → StagedSkillTree → Type 0
Leaves P L p st = (w : P.World) → L.content_at (P.cleanup_staged st w).1 p ≡ L.content_at w p

-- What stands at a place apart from the target is not touched, whether the round returns or raises.
-- `K` may be any property of the trees staged so far that those have which leave the place alone.
module _ (P : SyncPorts) (L : IsLawful P) (force : Bool) (K : StagedSkillTree → Type 0) (p : Text)
    (c : Content) where
  abbrev pub HoldsAt : Staging P → Type 0
  HoldsAt s = (L.content_at s.world p ≡ c) × All K s.staged_trees

  module _ (stands : is_there c ≡ true)
      (leaves : (st : StagedSkillTree) → Leaves P L p st → K st) where
    pub inspect-HoldsAt : (t : PlannedInstallTarget) → Keeps HoldsAt (call P (P.inspect_target t))
    unfolding call
    inspect-HoldsAt t = record {
      apply = λ s h.
          (ap (λ (w : P.World). L.content_at w p) (L.inspect_unchanged t s.world) ∙ h.0, h.1);
    }

    replace-HoldsAt :
        (t : PlannedInstallTarget) (before : P.World) (st : StagedSkillTree)
        (expected : Option Text)
        → IsPlanned P t
        → IsStaged P t before st
        → AreApart p t.canonical_target
        → L.content_at before p ≡ c
        → Keeps HoldsAt (call P (P.replace_tree st.staged_path t.canonical_target expected))
    unfolding call
    replace-HoldsAt t before st expected planned staged apart there = record {
      apply = λ s h. (
        L.replace_others t before s.world st expected p planned staged apart (rw there stands)
              (rw (h.0) stands)
            ∙ h.0,
        h.1,
      );
    }

    finish_item-HoldsAt :
        (i : TargetInspection) (owner : Option OwnedInstallation) (item : DesiredInstall)
        (o : ReconciliationOutcome)
        → HasPlan P item
        → AreApart p (target_of item)
        → Keeps HoldsAt (finish_item P force i owner item o)
    unfolding finish_item call remember
    finish_item-HoldsAt i owner item o planned apart = record {
      apply = λ s h.
          let t = item.planned_target in
          let there : is_there (L.content_at s.world p) ≡ true = rw (h.0) stands in
          let stays = L.stage_others t s.world item.source item.skill p planned apart there ∙ h.0 in
          bind-After HoldsAt (call P (P.stage item.source item.skill t)) _ s (stays, h.1)
            λ st e.
              let staged : IsStaged P t s.world st = (item.source, item.skill, e) in
              let quiet : K st =
                leaves st (λ w. L.cleanup_others t s.world w st p planned staged apart there) in
              let held = All-append K s.staged_trees (st ∷ []) (h.1) (quiet, tt) in
              bind-After HoldsAt (remember P st) _ _ (stays, held)
                λ _ _.
                  (bind-Keeps _ _ (lift-Keeps _) λ candidate. if-Keeps _ _ _ (pure-Keeps _) (
                      bind-Keeps _ _ (replace-HoldsAt t s.world st _ planned staged apart (h.0))
                        λ _. pure-Keeps _)).apply
                    _ (stays, held);
    }

    ruleset at_rules = (keeps_rules, inspect-HoldsAt)

    pub act_on-HoldsAt :
        (d : Decision) (i : TargetInspection) (owner : Option OwnedInstallation)
        (item : DesiredInstall) (o : ReconciliationOutcome)
        → HasPlan P item
        → (d ≡ place → AreApart p (target_of item))
        → Keeps HoldsAt (act_on P force d i owner item o)
    unfolding act_on
    act_on-HoldsAt unmanaged i owner item o planned apart = search at_rules
    act_on-HoldsAt (preserve kept) i owner item o planned apart = search at_rules
    act_on-HoldsAt place i owner item o planned apart =
        finish_item-HoldsAt i owner item o planned (apart refl)

    pub reconcile_item-HoldsAt :
        (ownership : List OwnedInstallation) (item : DesiredInstall) (o : ReconciliationOutcome)
        → HasPlan P item
        → AreApart p (target_of item)
        → Keeps HoldsAt (reconcile_item P force ownership item o)
    unfolding reconcile_item
    reconcile_item-HoldsAt ownership item o planned apart =
        bind-Keeps _ _ (inspect-HoldsAt item.planned_target)
          λ i. act_on-HoldsAt _ i _ item o planned (λ _. apart)
