-- ===== src/Installation/Transaction/Crash.antt =====
-- A stop of the process during `replace_tree`, and the recovery that follows.
use mathlib.Core.Path.{subst}
use ritebook.Prelude.{
  ℕ, zero, suc, Bool, true, false, [], ◌∷◌, ◌++◌, Option, none, some, Result, ok, err,
}
use ritebook.Prelude.{
  ◌==◌, nat_eq, list_eq, if◌then◌else◌, is_some, ◌≡◌, refl, ap, sym, ◌∙◌, eq_refl, ◌≤◌, arith,
}
use ritebook.Prelude.Actions.{Action, pure, raise, continue, ◌>>=◌}
use ritebook.Text.{Text, codes}
use ritebook.Installation.Transaction.Session.{
  Failure, persistence, targets_applied, Node, Hashes, Session, is_below, disk_step, spend, spent,
  move, rename_entry, write_journal, tree_digest_at,
}
use ritebook.Installation.Transaction.Restore.{require_safe_mutation_target, recover}
use ritebook.Installation.Transaction.Operations.{
  backup_path, require_expected_tree, move_trees, apply_replacement, inspect_and_replace,
  replace_tree, wrapping_os_error,
}
use ritebook.Installation.Transaction.Runs.{Outcome}
use ritebook.Installation.Transaction.Recovery.{
  IsRecoverable, restored, backed_up, journal_of, mutation_of, BackedUp, Untouched, Restored,
  BackedUp-IsRecoverable, Untouched-IsRecoverable, recover-IsRecoverable,
}

module _ (H : Hashes) where
  is_some-false : (p : Option (Node H.Tree)) → is_some p ≡ false → p ≡ none
  is_some-false none h = refl
  is_some-false (some x) h = ground arith

  continue-readonly :
      {A B : Type 0} (P : Session H → Type 0) (r : Result Failure A)
      (f : A → Action Failure (Session H) B) (s : Session H)
      → P s
      → ((a : A) → r ≡ ok a → P (f a s).1)
      → P (continue r f s).1
  continue-readonly P (ok a) f s p h = h a refl
  continue-readonly P (err e) f s p h = p

  -- a first step that reads only
  bind-readonly :
      {A B : Type 0} (P : Session H → Type 0) (m : Action Failure (Session H) A)
      (f : A → Action Failure (Session H) B) (s : Session H)
      → (m s).1 ≡ s
      → P s
      → ((a : A) → (m s).0 ≡ ok a → P (f a s).1)
      → P ((m >>= f) s).1
  unfolding ◌>>=◌
  bind-readonly P m f s e p h =
      subst (λ t. P (continue (m s).0 f t).1) (sym e) (continue-readonly P (m s).0 f s p h)

  require_safe_mutation_target-readonly :
      (target : Text) (s : Session H) → (require_safe_mutation_target H target s).1 ≡ s
  unfolding require_safe_mutation_target pure raise
  require_safe_mutation_target-readonly target s = ground arith

  if-readonly : (b : Bool) (s : Session H) → ((if b then pure tt else raise persistence) s).1 ≡ s
  unfolding pure raise
  if-readonly true s = refl
  if-readonly false s = refl

  require_expected_tree-readonly :
      (target : Text) (exists : Bool) (expected : Option Text) (s : Session H)
      → (require_expected_tree H target exists expected s).1 ≡ s
  unfolding require_expected_tree pure raise ◌>>=◌
  require_expected_tree-readonly target true none s = refl
  require_expected_tree-readonly target false none s = refl
  require_expected_tree-readonly target false (some d) s = refl
  require_expected_tree-readonly target true (some d) s =
      bind-readonly (λ t. t ≡ s) (tree_digest_at H target) _ s refl refl
        (λ a e. if-readonly (a == d) s)

  module _ (staged target backup root id : Text) (prior : Option (Node H.Tree))
      (apart : (backup == target) ≡ false) (unstaged : (backup == staged) ≡ false) where
    abbrev Safe : Session H → Type 0
    Safe t = IsRecoverable H target backup root id prior t.nodes t.journal

    spent-Safe :
        (n : ℕ) (s : Session H) (x : Option (Node H.Tree))
        → BackedUp H target backup root id prior s.nodes s.journal
        → Safe (spent H n s (move H staged target s x)).1
    spent-Safe n s none b = BackedUp-IsRecoverable H target backup root id prior s b
    spent-Safe n s (some x) (b, e) = rw e (backed_up (rw apart (rw unstaged b)))

    spend-Safe :
        (n : ℕ) (s : Session H)
        → BackedUp H target backup root id prior s.nodes s.journal
        → Safe (spend H n (λ s'. move H staged target s' (s'.nodes staged)) s).1
    spend-Safe zero s b = BackedUp-IsRecoverable H target backup root id prior s b
    spend-Safe (suc n) s b = spent-Safe n s (s.nodes staged) b

    moved-Safe :
        (n : ℕ) (s : Session H) (x : Option (Node H.Tree))
        → x ≡ prior
        → Untouched H target backup root id prior s.nodes s.journal
        → let r = spent H n s (move H target backup s x) in
          Safe (continue r.0 (λ _. rename_entry H staged target) r.1).1
    unfolding rename_entry disk_step
    moved-Safe n s none ex u = Untouched-IsRecoverable H target backup root id prior s u
    moved-Safe n s (some x) ex (b, t, e) = spend-Safe n _ (rw (eq_refl backup) ex, e)

    move_trees-Safe :
        (n : ℕ) (s : Session H) (exists : Bool)
        → exists ≡ is_some prior
        → Untouched H target backup root id prior s.nodes s.journal
        → Safe (move_trees H staged target backup exists (record s { budget = n })).1
    unfolding move_trees rename_entry disk_step ◌>>=◌ pure
    move_trees-Safe n s false ex (b, t, e) =
        spend-Safe n (record s { budget = n }) (b ∙ sym (is_some-false prior (sym ex)), e)
    move_trees-Safe zero s true ex u = Untouched-IsRecoverable H target backup root id prior s u
    move_trees-Safe (suc n) s true ex (b, t, e) =
        moved-Safe n (record s { budget = suc n }) (s.nodes target) t (b, t, e)

    written-Safe :
        (n : ℕ) (s : Session H) (exists : Bool)
        → exists ≡ is_some prior
        → s.nodes backup ≡ none
        → s.nodes target ≡ prior
        → s.journal ≡ none
        → record {
          transaction_id = s.transaction_id;
          phase = s.phase;
          transaction_root = s.transaction_root;
          mutations = s.mutations;
          state_files = s.state_files;
        }
          ≡ journal_of H target backup root id prior
        → Safe
            ((write_journal H >>= λ _.
                wrapping_os_error H (move_trees H staged target backup exists))
              (record s { budget = n })).1
    unfolding write_journal disk_step ◌>>=◌
    written-Safe zero s exists ex b t e q = rw e (restored t)
    written-Safe (suc n) s exists ex b t e q =
        move_trees-Safe n
          (record s {
            journal = some (record {
              transaction_id = s.transaction_id;
              phase = s.phase;
              transaction_root = s.transaction_root;
              mutations = s.mutations;
              state_files = s.state_files;
            });
          })
          exists ex (b, t, ap some q)

  module _ (staged target : Text) (s : Session H)
      (apart : (backup_path target s.transaction_id == target) ≡ false)
      (unstaged : (backup_path target s.transaction_id == staged) ≡ false)
      (no_journal : s.journal ≡ none) (no_mutations : s.mutations ≡ [])
      (no_state_files : s.state_files ≡ [])
      (no_backup : s.nodes (backup_path target s.transaction_id) ≡ none) where
    abbrev backup : Text
    backup = backup_path target s.transaction_id

    abbrev Recoverable : Session H → Type 0
    Recoverable t =
        IsRecoverable H target backup s.transaction_root s.transaction_id (s.nodes target) t.nodes
          t.journal

    start : Recoverable s
    start = rw no_journal (restored refl)

    apply_replacement-Recoverable :
        Recoverable (apply_replacement H staged target (is_some (s.nodes target)) s).1
    unfolding apply_replacement ◌>>=◌
    apply_replacement-Recoverable =
        written-Safe staged target backup s.transaction_root s.transaction_id (s.nodes target) apart
          unstaged s.budget
          (record s {
            mutations =
                s.mutations
                ++ mutation_of H target backup s.transaction_root s.transaction_id (s.nodes target)
                  ∷ [];
            phase = targets_applied;
          })
          (is_some (s.nodes target)) refl no_backup refl no_journal
          (λ i. record {
            transaction_id = s.transaction_id;
            phase = targets_applied;
            transaction_root = s.transaction_root;
            mutations =
                no_mutations i
                ++ mutation_of H target backup s.transaction_root s.transaction_id (s.nodes target)
                  ∷ [];
            state_files = no_state_files i;
          })

    inspect_and_replace-Recoverable :
        (expected : Option Text) → Recoverable (inspect_and_replace H staged target expected s).1
    unfolding inspect_and_replace ◌>>=◌
    inspect_and_replace-Recoverable expected =
        bind-readonly Recoverable
          (require_expected_tree H target (is_some (s.nodes target)) expected)
          (λ _. apply_replacement H staged target (is_some (s.nodes target))) s
          (require_expected_tree-readonly target (is_some (s.nodes target)) expected s) start
          (λ _ _. apply_replacement-Recoverable)

    -- Wherever the process stops in `replace_tree`, and whatever it raises, the prior content of the
    -- target is in its place or in the backup that the journal names.
    replace_tree-IsRecoverable :
        (expected : Option Text) → Recoverable (replace_tree H staged target expected s).1
    unfolding replace_tree
    replace_tree-IsRecoverable expected =
        bind-readonly Recoverable (require_safe_mutation_target H target)
          (λ _. tree_digest_at H staged >>= λ _. inspect_and_replace H staged target expected) s
          (require_safe_mutation_target-readonly target s) start
          (λ _ _.
            bind-readonly Recoverable (tree_digest_at H staged)
              (λ _. inspect_and_replace H staged target expected) s refl start
              (λ _ _. inspect_and_replace-Recoverable expected))

    enough :
        (k : ℕ) (r : Result Failure Unit) (t : Session H)
        → 4 ≤ k
        → Outcome H
            (IsRecoverable H target backup s.transaction_root s.transaction_id (s.nodes target))
            4
            (Restored H target backup s.transaction_root s.transaction_id (s.nodes target))
            k
            r
            t
        → (r ≡ ok tt) × (t.nodes target ≡ s.nodes target) × (t.journal ≡ none)
    enough k (ok a) t le ((h, e), o) = (refl, h, e)
    enough k (err e) t le (h, i, o) = absurd (omega arith)

    -- The process may stop anywhere in `replace_tree`: a recovery that has four disk operations
    -- puts the prior content of the target back and ends the transaction. The session starts with
    -- no journal, no mutation and no state file; its backup path is free, apart from the target and
    -- the staged tree; and the target is neither the root of the file system nor in the
    -- transaction's own directory.
    pub recover-replace_tree :
        (expected : Option Text) (k : ℕ)
        → (target == codes "/") ≡ false
        → is_below H s.transaction_root target ≡ false
        → 4 ≤ k
        → let t = (replace_tree H staged target expected s).1 in
          let r = recover H (record t { budget = k }) in
          (r.0 ≡ ok tt) × (r.1.nodes target ≡ s.nodes target) × (r.1.journal ≡ none)
    recover-replace_tree expected k unrooted outside le =
        let t = (replace_tree H staged target expected s).1 in
        enough k _ _ le (
          recover-IsRecoverable H target backup s.transaction_root s.transaction_id (s.nodes target)
            apart unrooted outside (record t { budget = k }) (replace_tree-IsRecoverable expected))
