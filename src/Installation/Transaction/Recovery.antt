-- ===== src/Installation/Transaction/Recovery.antt =====
-- A stop of the process during `replace_tree`, and the recovery that follows.
use ritebook.Prelude.{ℕ, true, false, [], ◌∷◌, Option, none, some, Result, ok, err}
use ritebook.Prelude.{◌==◌, nat_eq, list_eq, is_some, ◌≡◌, refl, arith, ◌∙◌, eq_refl, sym}
use ritebook.Prelude.Actions.{pure, ◌>>=◌}
use ritebook.Text.{Text, codes}
use ritebook.Installation.Transaction.Session.{
  Failure, targets_applied, Mutation, Journal, Node, Hashes, Session, Disk, is_below, move,
  rename_entry, remove_path, remove_directory, unlink_journal,
}
use ritebook.Installation.Transaction.Runs.{
  Runs, Reaches, Outcome, bind-Runs, weaken-Runs, pure-Runs, if-Runs, disk_step-Runs,
}
use ritebook.Installation.Transaction.Restore.{
  wrap_failure, restore_state_files, require_safe_mutation_target, restore_prior_target,
  restore_mutation, restore_mutations, drop_journal, recover_journal, recover_from, recover,
}

module _ (H : Hashes) (target backup root id : Text) (prior : Option (Node H.Tree)) where
  abbrev pub mutation_of : Mutation
  mutation_of = record { target_path = target; backup_path = backup; had_prior = is_some prior }

  abbrev pub journal_of : Journal
  journal_of = record {
    transaction_id = id;
    phase = targets_applied;
    transaction_root = root;
    mutations = mutation_of ∷ [];
    state_files = [];
  }

  -- The prior content of the target is not lost.
  pub data IsRecoverable (nodes : Disk H) : Option Journal → Type 0 where
    restored : nodes target ≡ prior → IsRecoverable nodes none
    backed_up : nodes backup ≡ prior → IsRecoverable nodes (some journal_of)
    untouched : nodes backup ≡ none → nodes target ≡ prior → IsRecoverable nodes (some journal_of)

  abbrev pub BackedUp : Disk H → Option Journal → Type 0
  BackedUp nodes j = (nodes backup ≡ prior) × (j ≡ some journal_of)

  abbrev pub Untouched : Disk H → Option Journal → Type 0
  Untouched nodes j = (nodes backup ≡ none) × (nodes target ≡ prior) × (j ≡ some journal_of)

  abbrev pub Restored : Disk H → Option Journal → Type 0
  Restored nodes j = (nodes target ≡ prior) × (j ≡ none)

  pub BackedUp-IsRecoverable :
      (s : Session H) → BackedUp s.nodes s.journal → IsRecoverable s.nodes s.journal
  BackedUp-IsRecoverable s (b, e) = rw e (backed_up b)

  pub Untouched-IsRecoverable :
      (s : Session H) → Untouched s.nodes s.journal → IsRecoverable s.nodes s.journal
  Untouched-IsRecoverable s (b, t, e) = rw e (untouched b t)

  module _ (apart : (backup == target) ≡ false) (unrooted : (target == codes "/") ≡ false)
      (outside : is_below H root target ≡ false) where
    remove_target-BackedUp : Runs H IsRecoverable 1 BackedUp BackedUp (remove_path H target)
    unfolding remove_path
    remove_target-BackedUp =
        disk_step-Runs H IsRecoverable BackedUp BackedUp _ BackedUp-IsRecoverable
          (λ s (b, e). (rw apart b, e))

    -- where the target is all that is left of a mutation that created it
    remove_target-Untouched :
        prior ≡ none → Runs H IsRecoverable 1 BackedUp Untouched (remove_path H target)
    unfolding remove_path
    remove_target-Untouched no_prior =
        disk_step-Runs H IsRecoverable BackedUp Untouched _ BackedUp-IsRecoverable
          (λ s (b, e). (rw apart (b ∙ no_prior), rw (eq_refl target) (sym no_prior), e))

    move-Reaches :
        (s : Session H) (b p : Option (Node H.Tree))
        → b ≡ p
        → p ≡ prior
        → is_some p ≡ true
        → s.journal ≡ some journal_of
        → Reaches H IsRecoverable Untouched (move H backup target s b)
    move-Reaches s none none e e' h ej = ground arith
    move-Reaches s none (some p) e e' h ej = ground arith
    move-Reaches s (some b) p e e' h ej =
        (ground (arith, eq_refl backup, apart), rw (eq_refl target) (e ∙ e'), ej)

    rename_backup-BackedUp :
        (h : is_some prior ≡ true)
        → Runs H IsRecoverable 1 BackedUp Untouched (rename_entry H backup target)
    unfolding rename_entry
    rename_backup-BackedUp h =
        disk_step-Runs H IsRecoverable BackedUp Untouched _ BackedUp-IsRecoverable
          (λ s (b, e). move-Reaches s (s.nodes backup) prior b refl h e)

    remove_directory-Untouched :
        Runs H IsRecoverable 1 Untouched Untouched (remove_directory H root)
    unfolding remove_directory
    remove_directory-Untouched =
        disk_step-Runs H IsRecoverable Untouched Untouched _ Untouched-IsRecoverable
          (λ s (b, t, e). (ground arith, rw outside t, e))

    unlink_journal-Untouched : Runs H IsRecoverable 1 Untouched Restored (unlink_journal H)
    unfolding unlink_journal
    unlink_journal-Untouched =
        disk_step-Runs H IsRecoverable Untouched Restored _ Untouched-IsRecoverable
          (λ s (b, t, e). (t, refl))

    is_some-false : (p : Option (Node H.Tree)) → is_some p ≡ false → p ≡ none
    is_some-false none h = refl
    is_some-false (some x) h = ground arith

    restore-BackedUp :
        is_some prior ≡ true
        → Runs H IsRecoverable 2 BackedUp Untouched (restore_prior_target H target backup)
    unfolding restore_prior_target ◌>>=◌
    restore-BackedUp h = record {
      apply = λ s (b, e). rw b (
          rw h (
            (bind-Runs H IsRecoverable 1 1 BackedUp BackedUp Untouched _
                (λ _. rename_entry H backup target)
                (if-Runs H IsRecoverable 1 BackedUp BackedUp (is_some (s.nodes target)) _ _
                  (λ _. remove_target-BackedUp) (λ _. pure-Runs H IsRecoverable 1 BackedUp tt))
                (λ _. rename_backup-BackedUp h)).apply
              s (b, e)));
    }

    restore-Untouched :
        is_some prior ≡ true
        → Runs H IsRecoverable 2 Untouched Untouched (restore_prior_target H target backup)
    unfolding restore_prior_target ◌>>=◌
    restore-Untouched h = record {
      apply = λ s (b, t, e).
          rw b (rw t (rw h ((pure-Runs H IsRecoverable 2 Untouched tt).apply s (b, t, e))));
    }

    restore_mutation-BackedUp :
        Runs H IsRecoverable 2 BackedUp Untouched (restore_mutation H mutation_of)
    unfolding restore_mutation require_safe_mutation_target ◌>>=◌ pure
    restore_mutation-BackedUp = record {
      apply = λ s p. rw unrooted (
          (if-Runs H IsRecoverable 2 BackedUp Untouched (is_some prior) _ _ restore-BackedUp (λ h.
              weaken-Runs H IsRecoverable 1 1 BackedUp BackedUp Untouched _ (λ _ _ p'. p')
                (remove_target-Untouched (is_some-false prior h)))).apply
            s p);
    }

    restore_mutation-Untouched :
        Runs H IsRecoverable 2 Untouched Untouched (restore_mutation H mutation_of)
    unfolding restore_mutation require_safe_mutation_target ◌>>=◌ pure
    restore_mutation-Untouched = record {
      apply = λ s p. rw unrooted (
          (if-Runs H IsRecoverable 2 Untouched Untouched (is_some prior) _ _ restore-Untouched (λ h.
              weaken-Runs H IsRecoverable 1 1 Untouched BackedUp Untouched _
                (λ _ _ (b, t, e). (b ∙ sym (is_some-false prior h), e))
                (remove_target-Untouched (is_some-false prior h)))).apply
            s p);
    }

    drop_journal-Untouched : Runs H IsRecoverable 2 Untouched Restored (drop_journal H root)
    unfolding drop_journal
    drop_journal-Untouched =
        bind-Runs H IsRecoverable 1 1 Untouched Untouched Restored (remove_directory H root)
          (λ _. unlink_journal H) remove_directory-Untouched (λ _. unlink_journal-Untouched)

    recover_journal-Restored :
        (P : Disk H → Option Journal → Type 0)
        → Runs H IsRecoverable 2 P Untouched (restore_mutation H mutation_of)
        → Runs H IsRecoverable 4 P Restored (recover_journal H journal_of)
    unfolding recover_journal restore_state_files restore_mutations ◌>>=◌ pure
    recover_journal-Restored P h = record {
      apply = λ s p.
          (bind-Runs H IsRecoverable 2 2 P Untouched Restored _ (λ _. drop_journal H root)
              (bind-Runs H IsRecoverable 2 0 P Untouched Untouched (restore_mutation H mutation_of)
                _ h (λ _. pure-Runs H IsRecoverable 0 Untouched tt))
              (λ _. drop_journal-Untouched)).apply
            s p;
    }

    wrap_failure-Outcome :
        (n : ℕ) (r : Result Failure Unit) (t : Session H)
        → Outcome H IsRecoverable 4 Restored n r t
        → Outcome H IsRecoverable 4 Restored n (wrap_failure H r) t
    wrap_failure-Outcome n (ok a) t h = h
    wrap_failure-Outcome n (err e) t (r, i, h) = rw i (r, refl, h)

    recover-pending :
        (s : Session H) (P : Disk H → Option Journal → Type 0)
        → P s.nodes s.journal
        → Runs H IsRecoverable 2 P Untouched (restore_mutation H mutation_of)
        → let r = recover_from H (some journal_of) s in
          Outcome H IsRecoverable 4 Restored s.budget r.0 r.1
    unfolding recover_from
    recover-pending s P p h =
        wrap_failure-Outcome s.budget (recover_journal H journal_of s).0
          (recover_journal H journal_of s).1 ((recover_journal-Restored P h).apply s p)

    recover_from-IsRecoverable :
        (s : Session H) (j : Option Journal)
        → s.journal ≡ j
        → IsRecoverable s.nodes j
        → Outcome H IsRecoverable 4 Restored s.budget (recover_from H j s).0 (recover_from H j s).1
    unfolding recover_from pure
    recover_from-IsRecoverable s j e (restored t) = ((t, e), omega arith)
    recover_from-IsRecoverable s j e (backed_up b) =
        recover-pending s BackedUp (b, e) restore_mutation-BackedUp
    recover_from-IsRecoverable s j e (untouched b t) =
        recover-pending s Untouched (b, t, e) restore_mutation-Untouched

    -- Of a transaction whose journal has one mutation and no state files, where the prior content of
    -- the target is at the backup, or still at the target and nothing is at the backup, or of none
    -- whose target has its prior content: a recovery with at least four disk operations restores the
    -- target and ends the transaction, and one that is stopped earlier leaves such a state again.
    -- There is no third outcome. The backup is another path than the target, and the target is
    -- neither the root of the file system nor in the transaction's own directory.
    pub recover-IsRecoverable :
        (s : Session H)
        → IsRecoverable s.nodes s.journal
        → Outcome H IsRecoverable 4 Restored s.budget (recover H s).0 (recover H s).1
    unfolding recover
    recover-IsRecoverable s h = recover_from-IsRecoverable s s.journal refl h
