-- ===== src/Installation/Sync/Reconcile/Preservation.antt =====
-- What a sync leaves alone: other places, and without `force` the targets that are not its own.
use ritebook.Prelude.{
  ◌≡◌, refl, ◌≢◌, Bool, true, false, List, [], ◌∷◌, Option, none, some, arith, All,
}
use ritebook.Prelude.{◌⊎◌, ok, err, Result, inl, inr, eq_iff, nat_eq, list_eq, ◌∙◌, ap}
use ritebook.Prelude.Actions.{Keeps, pure-Keeps, bind-Keeps, continue, ◌>>=◌}
use ritebook.Text.{Text}
use ritebook.Installation.Errors.{Exception}
use ritebook.Installation.Records.{
  OwnedInstallation, TargetInspection, DesiredInstall, StagedSkillTree,
}
use ritebook.Installation.Sync.Ports.{
  SyncPorts, Content, tree, is_there, tree_digest, AreApart, IsLawful,
}
use ritebook.Installation.Sync.Outcome.{
  ReconciliationOutcome, owner_of, place, decide_target, Staging, call,
}
use ritebook.Installation.Sync.Reconcile.{act_on, reconcile_item, reconcile_desired}
use ritebook.Installation.Sync.Reconcile.Steps.{
  target_of, HasPlan, Leaves, HoldsAt, inspect-HoldsAt, act_on-HoldsAt, reconcile_item-HoldsAt,
}

-- The recorded owner of a place, if there is one, did not install the tree of this digest.
abbrev pub IsForeign : Text → Option OwnedInstallation → Type 0
IsForeign digest none = Unit
IsForeign digest (some owner) = owner.installed_tree_digest ≢ digest

decide_target-foreign :
    (i : TargetInspection) (owner : Option OwnedInstallation) (digest : Text)
    → i.exists ≡ true
    → i.installed_tree_digest ≡ some digest
    → IsForeign digest owner
    → decide_target false i owner ≢ place
unfolding decide_target
decide_target-foreign i none digest e f h = ground arith
decide_target-foreign i (some owner) digest e f h =
    ground (arith, eq_iff digest owner.installed_tree_digest)

-- What no decision to place concerns, or is apart from what does.
abbrev pub IsOrApart : Text → DesiredInstall → Type 0
IsOrApart p item = (target_of item ≡ p) ⊎ AreApart p (target_of item)

module _ (P : SyncPorts) (L : IsLawful P) (K : StagedSkillTree → Type 0) (p : Text) where
  module _ (leaves : (st : StagedSkillTree) → Leaves P L p st → K st) where
    module _ (ownership : List OwnedInstallation) (digest : Text)
        (foreign : IsForeign digest (owner_of ownership p)) where
      abbrev pub Here : Staging P → Type 0
      Here = HoldsAt P L false K p (tree digest)

      after_inspection :
          (r : Result Exception TargetInspection) (item : DesiredInstall)
          (o : ReconciliationOutcome) (s : Staging P)
          → HasPlan P item
          → target_of item ≡ p
          → ((i : TargetInspection)
              → r ≡ ok i
              → (i.exists ≡ true) × (i.installed_tree_digest ≡ some digest))
          → Here s
          → Here
              (continue r
                (λ i.
                  act_on P false
                    (decide_target false i (owner_of ownership (target_of item)))
                    i
                    (owner_of ownership (target_of item))
                    item
                    o)
                s).1
      after_inspection (err e) item o s planned same seen h = h
      after_inspection (ok i) item o s planned same seen h =
          let (there, digest_seen) = seen i refl in
          (act_on-HoldsAt P L false K p (tree digest) refl leaves _ i _ item o planned (λ placed.
              absurd (
                decide_target-foreign i (owner_of ownership p) digest there digest_seen foreign
                  (rw (← same) placed)))).apply
            s h

      own_target :
          (item : DesiredInstall) (o : ReconciliationOutcome)
          → HasPlan P item
          → target_of item ≡ p
          → Keeps Here (reconcile_item P false ownership item o)
      unfolding reconcile_item ◌>>=◌ call
      own_target item o planned same = record {
        apply = λ s h.
            let still : Here (call P (P.inspect_target item.planned_target) s).1 =
              (inspect-HoldsAt P L false K p (tree digest) refl leaves item.planned_target).apply s
                h in
            after_inspection (P.inspect_target item.planned_target s.world).0 item o _ planned same
              (λ i e.
                let (exists, found) = L.inspect_seen item.planned_target s.world i planned e in
                let here : L.content_at s.world (target_of item) ≡ tree digest = rw same (h.0) in
                (exists ∙ ap is_there here, found ∙ ap tree_digest here))
              still;
      }

      round :
          (item : DesiredInstall) (o : ReconciliationOutcome)
          → HasPlan P item
          → IsOrApart p item
          → Keeps Here (reconcile_item P false ownership item o)
      round item o planned (inl same) = own_target item o planned same
      round item o planned (inr apart) =
          reconcile_item-HoldsAt P L false K p (tree digest) refl leaves ownership item o planned
            apart

      pub preserved :
          (desired : List DesiredInstall) (o : ReconciliationOutcome)
          → All (HasPlan P) desired
          → All (IsOrApart p) desired
          → Keeps Here (reconcile_desired P false ownership desired o)
      unfolding reconcile_desired
      preserved [] o planned apart = pure-Keeps _
      preserved (item ∷ desired) o planned apart =
          bind-Keeps _ _ (round item o (planned.0) (apart.0))
            λ o'. preserved desired o' (planned.1) (apart.1)

    others :
        (force : Bool) (ownership : List OwnedInstallation) (c : Content)
        → is_there c ≡ true
        → (desired : List DesiredInstall) (o : ReconciliationOutcome) → All (HasPlan P) desired
        → All (λ item. AreApart p (target_of item)) desired
        → Keeps (HoldsAt P L force K p c) (reconcile_desired P force ownership desired o)
    unfolding reconcile_desired
    others force ownership c stands [] o planned apart = pure-Keeps _
    others force ownership c stands (item ∷ desired) o planned apart =
        bind-Keeps _ _
          (reconcile_item-HoldsAt P L force K p c stands leaves ownership item o (planned.0)
            (apart.0))
          λ o'. others force ownership c stands desired o' (planned.1) (apart.1)

-- Any tree, where none of the trees staged so far needs to be known.
abbrev pub Anything : StagedSkillTree → Type 0
Anything st = Unit

pub All-Anything : (trees : List StagedSkillTree) → All Anything trees
All-Anything [] = tt
All-Anything (st ∷ trees) = (tt, All-Anything trees)

module _ (P : SyncPorts) (L : IsLawful P) where
  -- Without `force`, a tree that the recorded owner of its place did not install is still there
  -- after the sync of any declarations, whether the sync returns or raises. The ports keep to what
  -- they document, the targets are planned, and each is the tree's place or is apart from it: it
  -- neither lies in it nor the other way round.
  pub reconcile_desired-preserves :
      (ownership : List OwnedInstallation) (desired : List DesiredInstall)
      (o : ReconciliationOutcome) (s : Staging P) (p digest : Text)
      → All (HasPlan P) desired
      → All (IsOrApart p) desired
      → IsForeign digest (owner_of ownership p)
      → L.content_at s.world p ≡ tree digest
      → L.content_at (reconcile_desired P false ownership desired o s).1.world p ≡ tree digest
  reconcile_desired-preserves ownership desired o s p digest planned apart foreign h =
      ((preserved P L Anything p (λ st q. tt) ownership digest foreign desired o planned
          apart).apply
        s (h, All-Anything s.staged_trees)).0

  -- With or without `force`, what stands at a place that is apart from every declared target stays
  -- as it is, whether the sync returns or raises. The ports keep to what they document, and the
  -- targets are planned.
  pub reconcile_desired-others :
      (force : Bool) (ownership : List OwnedInstallation) (desired : List DesiredInstall)
      (o : ReconciliationOutcome) (s : Staging P) (p : Text)
      → All (HasPlan P) desired
      → All (λ item. AreApart p (target_of item)) desired
      → is_there (L.content_at s.world p) ≡ true
      → L.content_at (reconcile_desired P force ownership desired o s).1.world p
        ≡ L.content_at s.world p
  reconcile_desired-others force ownership desired o s p planned apart stands =
      ((others P L Anything p (λ st q. tt) force ownership (L.content_at s.world p) stands desired o
          planned apart).apply
        s (refl, All-Anything s.staged_trees)).0
