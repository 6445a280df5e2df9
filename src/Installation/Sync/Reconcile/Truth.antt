-- ===== src/Installation/Sync/Reconcile/Truth.antt =====
-- What the entries and the counts of a finished sync say.
use ritebook.Prelude.{ℕ, ◌+◌, ◌≡◌, refl, sym, ap, Bool, List, [], ◌∷◌, ◌++◌, arith, All}
use ritebook.Prelude.{ok, length, true, All-append, All-implies, inl, inr}
use ritebook.Prelude.Actions.{Ensures, Ensures-at, bind-Ensures, pure-Ensures}
use mathlib.Core.Path.{subst}
use ritebook.Text.{Text}
use ritebook.Installation.Records.{
  OwnedInstallation, DesiredInstall, InstallationStatus, materialized, local_changes, retained,
}
use ritebook.Installation.Targets.{reject_conflicting_targets}
use ritebook.Installation.Targets.Overlap.{
  HasSeparateTargets, Overlap, reject_conflicting_targets_iff,
}
use ritebook.Installation.Sync.Ports.{SyncPorts, Content, is_there, AreApart, IsLawful}
use ritebook.Installation.Sync.Outcome.{ReconciliationOutcome, Staging, nothing_done}
use ritebook.Installation.Sync.Reconcile.{reconcile_item, reconcile_desired}
use ritebook.Installation.Sync.Reconcile.Steps.{target_of, HasPlan, reconcile_item-HoldsAt}
use ritebook.Installation.Sync.Reconcile.Preservation.{Anything, All-Anything}
use ritebook.Installation.Sync.Reconcile.Records.{
  IsTruthful, AddedTo, handled, StatusHolds, reconcile_item-AddedTo,
}

-- No target of the first lies in a later one, or the other way round.
abbrev HasApartTargets : List DesiredInstall → Type 0
HasApartTargets [] = Unit
HasApartTargets (item ∷ desired) =
    All (λ other. AreApart (target_of item) (target_of other)) desired × HasApartTargets desired

apart_of_separate :
    (item other : DesiredInstall)
    → ¬ Overlap other item
    → AreApart (target_of item) (target_of other)
apart_of_separate item other h = record {
  not_below = λ rest e. h (inl (rest, sym e));
  not_above = λ rest e. h (inr (rest, sym e));
}

all_apart_of_separate :
    (desired : List DesiredInstall) → HasSeparateTargets desired → HasApartTargets desired
all_apart_of_separate [] h = tt
all_apart_of_separate (item ∷ desired) h =
    (All-implies _ _ (apart_of_separate item) desired (h.0), all_apart_of_separate desired (h.1))

module _ (P : SyncPorts) (L : IsLawful P) (force : Bool) (ownership : List OwnedInstallation) where
  -- The loop invariant: the entries so far are true, and no later target is one of theirs.
  abbrev Settled : List DesiredInstall → P.World → OwnedInstallation → Type 0
  Settled desired w e =
      IsTruthful P L force w e × All (λ item. AreApart e.canonical_target (target_of item)) desired

  -- Of either status that an entry has, something stands at its target.
  truthful_there :
      (status : InstallationStatus) (c : Content) (d : Text)
      → StatusHolds status c d
      → is_there c ≡ true
  truthful_there materialized c d h = ap is_there h
  truthful_there local_changes c d h = h.0
  truthful_there retained c d h = absurd h

  keep-Settled :
      (item : DesiredInstall) (desired : List DesiredInstall) (o : ReconciliationOutcome)
      (s : Staging P) (entries : List OwnedInstallation)
      → HasPlan P item
      → All (Settled (item ∷ desired) s.world) entries
      → All (Settled desired (reconcile_item P force ownership item o s).1.world) entries
  keep-Settled item desired o s [] planned h = tt
  keep-Settled item desired o s (e ∷ entries) planned (now, later) =
      let same =
        (reconcile_item-HoldsAt P L force Anything e.canonical_target
            (L.content_at s.world e.canonical_target) (truthful_there e.status _ _ (now.0))
            (λ st q. tt) ownership item o planned (now.1.0)).apply
          s (refl, All-Anything s.staged_trees) in
      (
        (
          subst (λ c. StatusHolds e.status c e.installed_tree_digest) (sym (same.0)) (now.0),
          now.1.1,
        ),
        keep-Settled item desired o s entries planned later,
      )

  settle_fresh :
      (item : DesiredInstall) (desired : List DesiredInstall) (w : P.World)
      (fresh : List OwnedInstallation)
      → All (IsTruthful P L force w) fresh
      → All (λ e. e.canonical_target ≡ target_of item) fresh
      → All (λ other. AreApart (target_of item) (target_of other)) desired
      → All (Settled desired w) fresh
  settle_fresh item desired w [] h k apart = tt
  settle_fresh item desired w (e ∷ fresh) h k apart = (
    (h.0, subst (λ x. All (λ other. AreApart x (target_of other)) desired) (sym (k.0)) apart),
    settle_fresh item desired w fresh (h.1) (k.1) apart,
  )

  All-true :
      (w : P.World) (entries : List OwnedInstallation)
      → All (Settled [] w) entries
      → All (IsTruthful P L force w) entries
  All-true w [] h = tt
  All-true w (e ∷ entries) h = (h.0.0, All-true w entries (h.1))

  abbrev Told : ℕ → ReconciliationOutcome → Staging P → Type 0
  Told total o s = All (IsTruthful P L force s.world) o.entries × (handled o ≡ total)

  rounds :
      (desired : List DesiredInstall) (o : ReconciliationOutcome) (s : Staging P)
      → All (HasPlan P) desired
      → HasApartTargets desired
      → All (Settled desired s.world) o.entries
      → Ensures
          (Told (handled o + length desired))
          (reconcile_desired P force ownership desired o)
          s
  unfolding reconcile_desired
  rounds [] o s planned d h = pure-Ensures (Told _) o s (All-true s.world o.entries h, omega arith)
  rounds (item ∷ desired) o s planned d h =
      bind-Ensures (Told _) (reconcile_item P force ownership item o) _ s λ o' e.
        let added =
          Ensures-at (AddedTo P L force item o) (reconcile_item P force ownership item o) s
            (reconcile_item-AddedTo P L force ownership item o s (planned.0)) e in
        let s' = (reconcile_item P force ownership item o s).1 in
        let settled : All (Settled desired s'.world) (o.entries ++ added.fresh) =
          All-append (Settled desired s'.world) o.entries added.fresh
            (keep-Settled item desired o s o.entries (planned.0) h)
            (settle_fresh item desired s'.world added.fresh added.truthful added.at_target (d.0)) in
        let total : handled o' + length desired ≡ handled o + length (item ∷ desired) =
          omega (arith, added.counted) in
        rw (← total) (rounds desired o' s' (planned.1) (d.1) (rw added.grown settled))

-- Of a sync that returns, by ports that keep to what they document and with planned targets that
-- passed the check for conflicts: at the target of each entry that is recorded as materialized stands
-- the tree of its digest, at that of each recorded with local changes stands something else, and the
-- counts and the issues account for every declared target.
pub reconcile_desired-IsTruthful :
    (P : SyncPorts) (L : IsLawful P) (force : Bool) (ownership : List OwnedInstallation)
    (desired : List DesiredInstall) (s s' : Staging P) (o : ReconciliationOutcome)
    → All (HasPlan P) desired
    → reject_conflicting_targets desired ≡ ok tt
    → reconcile_desired P force ownership desired nothing_done s ≡ (ok o, s')
    → All (IsTruthful P L force s'.world) o.entries × (handled o ≡ length desired)
reconcile_desired-IsTruthful P L force ownership desired s s' o planned checked h =
    let apart =
      all_apart_of_separate desired ((reject_conflicting_targets_iff desired).0 checked) in
    let told = (rounds P L force ownership desired nothing_done s planned apart tt).apply o s' h in
    (told.0, omega (arith, told.1))
