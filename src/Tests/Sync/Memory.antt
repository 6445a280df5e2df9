-- ===== src/Tests/Sync/Memory.antt =====
-- A file system in memory behind the ports of a sync: the promises of the ports can be kept.
use ritebook.Prelude.{
  ◌≡◌, refl, ◌≢◌, sym, ap, ◌∙◌, ◌++◌, Bool, true, false, [], Option, none, some, ok, err, arith,
}
use ritebook.Prelude.{◌==◌, nat_eq, list_eq, eq_iff, eq_refl, if◌then◌else◌, Bool-cases, inl, inr}
use mathlib.Core.List.{append-nil}
use ritebook.Prelude.Actions.{Action}
use ritebook.Text.{Text, codes}
use ritebook.Kernel.PortablePaths.{posix_parts}
use ritebook.Installation.Errors.{Exception, installation, installation_persistence, other}
use ritebook.Installation.Records.{
  TargetInspection, StagedSkillTree, PlannedInstallTarget, ResolvedSkillSource, InstallableSkill,
}
use ritebook.Installation.Sync.Ports.{
  SyncPorts, Content, nothing, something_else, tree, is_there, tree_digest, AreApart, IsLawful,
}

abbrev pub Memory : Type 0
Memory = Text → Content

abbrev update : Memory → Text → Content → Memory
update f k v = λ x. if x == k then v else f x

abbrev pub hex64 : Text
hex64 = codes "0123456789abcdef0123456789abcdef0123456789abcdef0123456789abcdef"

abbrev pub new_digest : Text
new_digest = codes "sha256:" ++ hex64

abbrev pub memory_plan : Text → Action Exception Memory PlannedInstallTarget
memory_plan target w = (ok (record { requested_target = target; canonical_target = target }), w)

abbrev pub memory_inspect : PlannedInstallTarget → Action Exception Memory TargetInspection
memory_inspect t w = (
  ok (record {
    canonical_target = t.canonical_target;
    exists = is_there (w t.canonical_target);
    installed_tree_digest = tree_digest (w t.canonical_target);
  }),
  w,
)

abbrev scratch : PlannedInstallTarget → Text
scratch t = t.canonical_target ++ codes ".staged"

abbrev staged_at : PlannedInstallTarget → StagedSkillTree
staged_at t = record {
  staged_path = scratch t;
  cleanup_path = scratch t;
  installed_tree_digest = new_digest;
}

abbrev stage_in : Content → PlannedInstallTarget → Action Exception Memory StagedSkillTree
stage_in nothing t w = (ok (staged_at t), update w (scratch t) (tree new_digest))
stage_in _ t w = (err (installation installation_persistence), w)

abbrev pub memory_stage :
    ResolvedSkillSource
    → InstallableSkill
    → PlannedInstallTarget
    → Action Exception Memory StagedSkillTree
memory_stage s k t w = stage_in (w (scratch t)) t w

abbrev is_as_expected : Content → Option Text → Bool
is_as_expected nothing none = true
is_as_expected (tree digest) (some expected) = digest == expected
is_as_expected _ _ = false

abbrev place : Content → Text → Text → Action Exception Memory Unit
place (tree digest) staged target w = (ok tt, update (update w staged nothing) target (tree digest))
place _ staged target w = (err (installation installation_persistence), w)

-- The tree is moved: it is no more where it was staged.
abbrev pub memory_replace : Text → Text → Option Text → Action Exception Memory Unit
memory_replace staged target expected w =
    if is_as_expected (w target) expected
    then place (w staged) staged target w
    else (err (installation installation_persistence), w)

abbrev pub memory_cleanup : StagedSkillTree → Action Exception Memory Unit
memory_cleanup st w = (ok tt, update w st.cleanup_path nothing)

abbrev refuse : {A : Type 0} → Action Exception Memory A
refuse w = (err other, w)

abbrev pub memory : SyncPorts
memory = record {
  World = Memory;
  read_requirements = λ _. refuse;
  sync_lockfile_path = λ _ _. refuse;
  read_lockfile_ownership = λ _ _. refuse;
  lockfile = λ _ _ _ _. refuse;
  refresh = λ _ _. refuse;
  get_index = λ _ _. refuse;
  read_skills = λ _ _. refuse;
  open_source = λ _. refuse;
  close_source = λ _. refuse;
  validate_committed = λ _ _. refuse;
  plan_target = memory_plan;
  inspect_target = memory_inspect;
  stage = memory_stage;
  cleanup_staged = memory_cleanup;
  replace_tree = memory_replace;
  write_lockfile = λ _ w. (ok tt, w);
  sha256 = λ _. hex64;
}

pub apart_differs : (p q : Text) → AreApart p q → p ≢ q
apart_differs p q apart same = apart.not_below [] (ap posix_parts same ∙ sym (append-nil _))

pub update_others : (f : Memory) (k : Text) (v : Content) (p : Text) → p ≢ k → update f k v p ≡ f p
update_others f k v p h = ground (arith, eq_iff p k)

-- What is staged is staged at a place where there was nothing.
staged_fresh :
    (c : Content) (t : PlannedInstallTarget) (w : Memory) (st : StagedSkillTree)
    → (stage_in c t w).0 ≡ ok st
    → (c ≡ nothing) × (st ≡ staged_at t)
staged_fresh nothing t w st h = (refl, cc h)
staged_fresh something_else t w st h = ground arith
staged_fresh (tree d) t w st h = ground arith

stands_elsewhere : (f : Memory) (p q : Text) → is_there (f p) ≡ true → f q ≡ nothing → p ≢ q
stands_elsewhere f p q h e same =
    let bad : false ≡ true = ap is_there (sym e ∙ ap f (sym same)) ∙ h in ground arith

pub stage_in_others :
    (c : Content) (t : PlannedInstallTarget) (w : Memory) (p : Text)
    → w (scratch t) ≡ c
    → is_there (w p) ≡ true
    → (stage_in c t w).1 p ≡ w p
stage_in_others nothing t w p e h = update_others w (scratch t) _ p (stands_elsewhere w p _ h e)
stage_in_others something_else t w p e h = refl
stage_in_others (tree d) t w p e h = refl

pub stage_in_digest :
    (c : Content) (t : PlannedInstallTarget) (w : Memory) (st : StagedSkillTree)
    → (stage_in c t w).0 ≡ ok st
    → (stage_in c t w).1 st.staged_path ≡ tree st.installed_tree_digest
stage_in_digest nothing t w st h =
    let same : staged_at t ≡ st = cc h in rw (← same) (rw (eq_refl (scratch t)) refl)
stage_in_digest something_else t w st h = ground arith
stage_in_digest (tree d) t w st h = ground arith

place_others :
    (c : Content) (staged target : Text) (w : Memory) (p : Text)
    → p ≢ staged
    → p ≢ target
    → (place c staged target w).1 p ≡ w p
place_others nothing staged target w p h k = refl
place_others something_else staged target w p h k = refl
place_others (tree d) staged target w p h k = ground (arith, eq_iff p target, eq_iff p staged)

place_done :
    (c : Content) (staged target : Text) (w : Memory)
    → (place c staged target w).0 ≡ ok tt
    → (place c staged target w).1 target ≡ c
place_done nothing staged target w h = ground arith
place_done something_else staged target w h = ground arith
place_done (tree d) staged target w h = rw (eq_refl target) refl

pub memory_replace_others :
    (staged target : Text) (expected : Option Text) (w : Memory) (p : Text)
    → p ≢ staged
    → p ≢ target
    → (memory_replace staged target expected w).1 p ≡ w p
memory_replace_others staged target expected w p h k =
    elim (Bool-cases (is_as_expected (w target) expected)) [
      | inl e ↦ rw e (place_others (w staged) staged target w p h k)
      | inr e ↦ rw e refl
    ]

pub memory_replace_placed :
    (staged target : Text) (expected : Option Text) (w : Memory)
    → (memory_replace staged target expected w).0 ≡ ok tt
    → (memory_replace staged target expected w).1 target ≡ w staged
memory_replace_placed staged target expected w =
    elim (Bool-cases (is_as_expected (w target) expected)) [
      | inl e ↦ rw e (place_done (w staged) staged target w)
      | inr e ↦ rw e (λ h. ground arith)
    ]

-- A tree that stood before a staging is not where the staged tree is.
pub elsewhere :
    (t : PlannedInstallTarget) (before : Memory) (st : StagedSkillTree) (p : Text)
    → (stage_in (before (scratch t)) t before).0 ≡ ok st
    → is_there (before p) ≡ true
    → (p ≢ st.staged_path) × (p ≢ st.cleanup_path)
elsewhere t before st p h stood =
    let (fresh, same) = staged_fresh (before (scratch t)) t before st h in
    let apart = stands_elsewhere before p (scratch t) stood fresh in
    (
      λ e. apart (e ∙ ap (λ (x : StagedSkillTree). x.staged_path) same),
      λ e. apart (e ∙ ap (λ (x : StagedSkillTree). x.cleanup_path) same),
    )

pub seen :
    (t : PlannedInstallTarget) (w : Memory) (i : TargetInspection)
    → (memory_inspect t w).0 ≡ ok i
    → (i.exists ≡ is_there (w t.canonical_target))
      × (i.installed_tree_digest ≡ tree_digest (w t.canonical_target))
seen t w i h = ground arith

abbrev pub memory-IsLawful : IsLawful memory
memory-IsLawful = record {
  content_at = λ w. w;
  inspect_unchanged = λ t w. refl;
  inspect_seen = λ t w i planned h. seen t w i h;
  stage_digest = λ t w s k st planned h. stage_in_digest (w (scratch t)) t w st h;
  stage_target = λ t w s k planned h. stage_in_others (w (scratch t)) t w _ refl h;
  stage_others = λ t w s k p planned apart h. stage_in_others (w (scratch t)) t w p refl h;
  replace_placed = λ t before w st expected planned staged h.
      memory_replace_placed st.staged_path t.canonical_target expected w h;
  replace_others = λ t before w st expected p planned (s, k, staged) apart stood stands.
      memory_replace_others st.staged_path t.canonical_target expected w p
        (elsewhere t before st p staged stood).0 (apart_differs p t.canonical_target apart);
  cleanup_others = λ t before w st p planned (s, k, staged) apart stood.
      update_others w st.cleanup_path nothing p (elsewhere t before st p staged stood).1;
}
