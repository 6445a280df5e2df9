-- ===== src/Installation/Sync/Reconcile/Records.antt =====
-- What the entries and the counts of a finished sync say.
use ritebook.Prelude.{
  ℕ, ◌+◌, ◌≡◌, refl, ◌≢◌, sym, ap, ◌∙◌, Bool, true, List, [], ◌∷◌, ◌++◌, arith, All,
}
use ritebook.Prelude.{Option, none, some, ok, length, length-append}
use ritebook.Prelude.{eq_iff, nat_eq, list_eq, option_eq}
use ritebook.Prelude.Actions.{Ensures, bind-Ensures, pure-Ensures, if-Ensures, lift}
use ritebook.Text.{Text}
use mathlib.Core.Path.{subst}
use mathlib.Core.List.{append-nil}
use ritebook.Prelude.{>>=-eq-ok, catch-eq-ok}
use ritebook.Installation.Errors.{value_error}
use ritebook.Installation.Targets.{repository_relative_source_path}
use ritebook.Installation.Records.{
  OwnedInstallation, TargetInspection, DesiredInstall, StagedSkillTree, materialized, local_changes,
  retained, InstallationStatus, check_owned_installation-eq-ok,
}
use ritebook.Installation.Sync.Ports.{
  SyncPorts, Content, nothing, something_else, tree, is_there, tree_digest, IsLawful,
}
use ritebook.Installation.Sync.Outcome.{
  ReconciliationOutcome, owner_of, Decision, unmanaged, place, preserve, decide_target,
  is_unchanged, owned_entry, Staging, call, remember, count_unchanged, count_placed,
  unmanaged_issue, local_issue, kept_entry,
}
use ritebook.Installation.Sync.Reconcile.{expected_digest, finish_item, act_on, reconcile_item}
use ritebook.Installation.Sync.Reconcile.Steps.{target_of, HasPlan}

-- What an entry says of the tree at its target.
abbrev pub StatusHolds : InstallationStatus → Content → Text → Type 0
StatusHolds materialized found recorded = found ≡ tree recorded
StatusHolds local_changes found recorded = (is_there found ≡ true) × (found ≢ tree recorded)
StatusHolds retained found recorded = ⊥

abbrev pub handled : ReconciliationOutcome → ℕ
handled o = o.installed_count + o.updated_count + o.unchanged_count + length o.issues

owned_entry-fields :
    (sha256 : Text → Text) (item : DesiredInstall) (staged : StagedSkillTree)
    (e : OwnedInstallation)
    → owned_entry sha256 item staged ≡ ok e
    → (e.canonical_target ≡ target_of item)
      × (e.installed_tree_digest ≡ staged.installed_tree_digest)
      × (e.status ≡ materialized)
unfolding owned_entry
owned_entry-fields sha256 item staged e h =
    let (skill_path, _, h1) =
      >>=-eq-ok (repository_relative_source_path item.skill.source_root item.skill.path) _ h in
    let (skill_file, _, h2) =
      >>=-eq-ok (repository_relative_source_path item.skill.source_root item.skill.skill_file) _
        h1 in
    let same = check_owned_installation-eq-ok _ e (catch-eq-ok _ value_error h2) in
    rw (← same) (refl, refl, refl)

owner_of-target :
    (ownership : List OwnedInstallation) (target : Text) (owner : OwnedInstallation)
    → owner_of ownership target ≡ some owner
    → owner.canonical_target ≡ target
unfolding owner_of
owner_of-target [] target owner h = ground arith
owner_of-target (e ∷ ownership) target owner h =
    ground (arith, owner_of-target ownership target owner, eq_iff e.canonical_target target)

-- A tree that is kept has not the recorded digest.
decide_target-preserve :
    (force : Bool) (i : TargetInspection) (owner : Option OwnedInstallation)
    (kept : OwnedInstallation)
    → decide_target force i owner ≡ preserve kept
    → (owner ≡ some kept)
      × (i.exists ≡ true)
      × (i.installed_tree_digest ≢ some kept.installed_tree_digest)
unfolding decide_target
decide_target-preserve force i none kept h = ground arith
decide_target-preserve force i (some owner) kept h =
    ground (arith, eq_iff i.installed_tree_digest (some owner.installed_tree_digest))

-- A tree that is left as unchanged has the digest of the staged one.
unchanged_digest :
    (force : Bool) (i : TargetInspection) (owner : Option OwnedInstallation)
    (staged : StagedSkillTree)
    → decide_target force i owner ≡ place
    → is_unchanged force i owner staged ≡ true
    → i.installed_tree_digest ≡ some staged.installed_tree_digest
unfolding decide_target is_unchanged
unchanged_digest force i none staged h k = ground arith
unchanged_digest force i (some owner) staged h k = ground (
  arith,
  eq_iff i.installed_tree_digest (some owner.installed_tree_digest),
  eq_iff staged.installed_tree_digest owner.installed_tree_digest,
)

tree_of_digest : (c : Content) (d : Text) → tree_digest c ≡ some d → c ≡ tree d
tree_of_digest nothing d h = ground arith
tree_of_digest something_else d h = ground arith
tree_of_digest (tree e) d h = let same : e ≡ d = cc h in ap tree same

module _ (P : SyncPorts) (L : IsLawful P) (force : Bool) where
  abbrev pub IsTruthful : P.World → OwnedInstallation → Type 0
  IsTruthful w e = StatusHolds e.status (L.content_at w e.canonical_target) e.installed_tree_digest

  -- What one round has added to the outcome.
  pub record AddedTo (item : DesiredInstall) (o o' : ReconciliationOutcome) (s' : Staging P)
      : Type 0 where
    pub fresh : List OwnedInstallation
    pub grown : o'.entries ≡ o.entries ++ fresh
    pub truthful : All (IsTruthful s'.world) fresh
    pub at_target : All (λ e. e.canonical_target ≡ target_of item) fresh
    pub counted : handled o' ≡ handled o + 1

  placed-IsTruthful :
      (e : OwnedInstallation) (item : DesiredInstall) (w : P.World) {digest : Text}
      → (e.canonical_target ≡ target_of item)
        × (e.installed_tree_digest ≡ digest)
        × (e.status ≡ materialized)
      → L.content_at w (target_of item) ≡ tree digest
      → IsTruthful w e
  placed-IsTruthful e item w (target, same, status) found =
      subst (λ st. StatusHolds st (L.content_at w e.canonical_target) e.installed_tree_digest)
        (sym status) (ap (L.content_at w) target ∙ found ∙ ap tree (sym same))

  placed_unchanged :
      (e : OwnedInstallation) (item : DesiredInstall) (o : ReconciliationOutcome) (s' : Staging P)
      {digest : Text}
      → (e.canonical_target ≡ target_of item)
        × (e.installed_tree_digest ≡ digest)
        × (e.status ≡ materialized)
      → L.content_at s'.world (target_of item) ≡ tree digest
      → AddedTo item o (count_unchanged e o) s'
  placed_unchanged e item o s' fields found = record {
    fresh = e ∷ [];
    grown = refl;
    truthful = (placed-IsTruthful e item s'.world fields found, tt);
    at_target = (fields.0, tt);
    counted = omega arith;
  }

  placed_anew :
      (e : OwnedInstallation) (item : DesiredInstall) (o : ReconciliationOutcome) (existed : Bool)
      (s' : Staging P) {digest : Text}
      → (e.canonical_target ≡ target_of item)
        × (e.installed_tree_digest ≡ digest)
        × (e.status ≡ materialized)
      → L.content_at s'.world (target_of item) ≡ tree digest
      → AddedTo item o (count_placed existed e o) s'
  placed_anew e item o existed s' fields found = record {
    fresh = e ∷ [];
    grown = ground arith;
    truthful = (placed-IsTruthful e item s'.world fields found, tt);
    at_target = (fields.0, tt);
    counted = ground arith;
  }

  -- What an inspection tells of the target.
  abbrev IsSeen : DesiredInstall → TargetInspection → P.World → Type 0
  IsSeen item i w =
      (i.exists ≡ is_there (L.content_at w (target_of item)))
      × (i.installed_tree_digest ≡ tree_digest (L.content_at w (target_of item)))

  inspected :
      (item : DesiredInstall) (s : Staging P) (i : TargetInspection)
      → HasPlan P item
      → (call P (P.inspect_target item.planned_target) s).0 ≡ ok i
      → IsSeen item i (call P (P.inspect_target item.planned_target) s).1.world
  unfolding call
  inspected item s i planned e =
      subst (IsSeen item i) (sym (L.inspect_unchanged item.planned_target s.world))
        (L.inspect_seen item.planned_target s.world i planned e)

  module _ (item : DesiredInstall) (planned : HasPlan P item) (o : ReconciliationOutcome)
      (s : Staging P) (i : TargetInspection) (owner : Option OwnedInstallation)
      (seen : IsSeen item i s.world) where
    -- A tree that is not replaced is there already, and the staging leaves it.
    unchanged_tree :
        (staged : StagedSkillTree)
        → decide_target force i owner ≡ place
        → is_unchanged force i owner staged ≡ true
        → L.content_at
            (P.stage item.source item.skill item.planned_target s.world).1
            (target_of item)
          ≡ tree staged.installed_tree_digest
    unchanged_tree staged chosen same =
        let there =
          tree_of_digest _ _ (sym (seen.1) ∙ unchanged_digest force i owner staged chosen same) in
        L.stage_target item.planned_target s.world item.source item.skill planned
          (ap is_there there)
        ∙ there

    finish_item-Added :
        decide_target force i owner ≡ place
        → Ensures (AddedTo item o) (finish_item P force i owner item o) s
    unfolding finish_item call remember lift
    finish_item-Added chosen = bind-Ensures (AddedTo item o) _ _ s λ staged staging.
        bind-Ensures (AddedTo item o) _ _ _ λ _ _.
          bind-Ensures (AddedTo item o) _ _ _ λ candidate recorded.
            if-Ensures (AddedTo item o) (is_unchanged force i owner staged) _ _ _
              (λ same. pure-Ensures (AddedTo item o) _ _ (
                placed_unchanged candidate item o _
                  (owned_entry-fields P.sha256 item staged candidate recorded)
                  (unchanged_tree staged chosen same)))
              (λ differs. bind-Ensures (AddedTo item o) _ _ _ λ _ replaced.
                pure-Ensures (AddedTo item o) _ _ (
                  placed_anew candidate item o i.exists _
                    (owned_entry-fields P.sha256 item staged candidate recorded)
                    (L.replace_placed item.planned_target s.world _ staged (expected_digest i)
                        planned (item.source, item.skill, staging) replaced
                      ∙ L.stage_digest item.planned_target s.world item.source item.skill staged
                          planned staging)))

    preserved_status :
        (kept : OwnedInstallation)
        → kept.canonical_target ≡ target_of item
        → is_there (L.content_at s.world (target_of item)) ≡ true
        → L.content_at s.world (target_of item) ≢ tree kept.installed_tree_digest
        → IsTruthful s.world (kept_entry kept)
    preserved_status kept same there differs = (rw same there, λ e. differs (rw (← same) e))

    act_on-AddedTo :
        (c : Decision)
        → decide_target force i owner ≡ c
        → ((kept : OwnedInstallation) → owner ≡ some kept → kept.canonical_target ≡ target_of item)
        → Ensures (AddedTo item o) (act_on P force c i owner item o) s
    unfolding act_on lift
    act_on-AddedTo unmanaged chosen known = bind-Ensures (AddedTo item o) _ _ s λ _ _.
        pure-Ensures (AddedTo item o) _ _ (record {
          fresh = [];
          grown = sym (append-nil _);
          truthful = tt;
          at_target = tt;
          counted = omega (arith, length-append o.issues (unmanaged_issue item ∷ []));
        })
    act_on-AddedTo (preserve kept) chosen known =
        let (owned, exists, differs) = decide_target-preserve force i owner kept chosen in
        bind-Ensures (AddedTo item o) _ _ s λ _ _. bind-Ensures (AddedTo item o) _ _ _ λ _ _.
          pure-Ensures (AddedTo item o) _ _ (record {
            fresh = kept_entry kept ∷ [];
            grown = refl;
            truthful = (
              preserved_status kept (known kept owned) (sym (seen.0) ∙ exists)
                  (λ e. differs (seen.1 ∙ ap tree_digest e)),
              tt,
            );
            at_target = (known kept owned, tt);
            counted = omega (arith, length-append o.issues (local_issue item kept ∷ []));
          })
    act_on-AddedTo place chosen known = finish_item-Added chosen

  pub reconcile_item-AddedTo :
      (ownership : List OwnedInstallation) (item : DesiredInstall) (o : ReconciliationOutcome)
      (s : Staging P)
      → HasPlan P item
      → Ensures (AddedTo item o) (reconcile_item P force ownership item o) s
  unfolding reconcile_item
  reconcile_item-AddedTo ownership item o s planned = bind-Ensures (AddedTo item o) _ _ s λ i seen.
      act_on-AddedTo item planned o (call P (P.inspect_target item.planned_target) s).1 i _
        (inspected item s i planned seen)
        (decide_target force i (owner_of ownership (target_of item))) refl
        (λ kept. owner_of-target ownership (target_of item) kept)
