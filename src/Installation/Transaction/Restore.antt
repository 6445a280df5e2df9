-- ===== src/Installation/Transaction/Restore.antt =====
-- Taking a transaction back, and recovering one that was interrupted.
use ritebook.Prelude.{
  Bool, true, false, not, ◌&&◌, List, [], ◌∷◌, ◌++◌, reverse, Option, none, some, Result, ok, err,
}
use ritebook.Prelude.{◌==◌, nat_eq, list_eq, if◌then◌else◌}
use ritebook.Prelude.Actions.{Action, pure, raise, ◌>>=◌, ◌>>◌}
use ritebook.Text.{Text, codes}
use ritebook.Installation.Transaction.Session.{
  Failure, persistence, unsafe_path, Mutation, StateFile, Journal, Node, tree, file, Hashes,
  Session, rename_entry, write_bytes, remove_path, remove_directory, unlink_journal, read_bytes,
  exists_at, gets, interrupted,
}

module _ (H : Hashes) where
  -- `except (OSError, InstallationPersistenceError, UnsafeInstallPathError)`: a stop of the process
  -- is none of these.
  abbrev pub wrap_failure : {A : Type 0} → Result Failure A → Result Failure A
  wrap_failure (ok a) = ok a
  wrap_failure (err interrupted) = err interrupted
  wrap_failure (err _) = err persistence

  unfoldable pub restore_state_file : StateFile → Action Failure (Session H) Unit
  unfolding ◌>>=◌ write_bytes remove_path
  restore_state_file f =
      if f.had_prior
      then (do content ← read_bytes H f.backup_path; write_bytes H f.path content)
      else remove_path H f.path

  -- `_restore_state_files`, of a list that is reversed already
  unfoldable pub restore_state_files : List StateFile → Action Failure (Session H) Unit
  unfolding restore_state_file
  restore_state_files [] = pure tt
  restore_state_files (f ∷ files) = do restore_state_file f; restore_state_files files

  -- `_require_safe_mutation_target`: not the root of the file system
  unfoldable pub require_safe_mutation_target : Text → Action Failure (Session H) Unit
  require_safe_mutation_target target = if target == codes "/" then raise unsafe_path else pure tt

  -- `_restore_prior_target`
  unfoldable pub restore_prior_target : Text → Text → Action Failure (Session H) Unit
  unfolding rename_entry remove_path ◌>>=◌
  restore_prior_target target backup = do
    has_backup ← exists_at H backup
    has_target ← exists_at H target
    if not has_backup
        then (if has_target then pure tt else raise persistence)
        else do if has_target then remove_path H target else pure tt; rename_entry H backup target

  unfoldable pub restore_mutation : Mutation → Action Failure (Session H) Unit
  unfolding require_safe_mutation_target restore_prior_target
  restore_mutation m = do
    require_safe_mutation_target m.target_path
    (if m.had_prior
        then restore_prior_target m.target_path m.backup_path
        else remove_path H m.target_path)

  -- `_restore_mutations`, of a list that is reversed already
  unfoldable pub restore_mutations : List Mutation → Action Failure (Session H) Unit
  unfolding restore_mutation
  restore_mutations [] = pure tt
  restore_mutations (m ∷ mutations) = do restore_mutation m; restore_mutations mutations

  unfoldable pub remove_backups : List Mutation → Action Failure (Session H) Unit
  unfolding remove_path ◌>>=◌
  remove_backups [] = pure tt
  remove_backups (m ∷ mutations) = do remove_path H m.backup_path; remove_backups mutations

  -- `_cleanup_artifacts`, and the end of a recovery
  unfoldable pub drop_journal : Text → Action Failure (Session H) Unit
  unfolding remove_directory unlink_journal ◌>>=◌
  drop_journal root = do remove_directory H root; unlink_journal H

  unfoldable pub cleanup_artifacts : Action Failure (Session H) Unit
  unfolding remove_backups drop_journal
  cleanup_artifacts s = (do remove_backups s.mutations; drop_journal s.transaction_root) s

  abbrev pub holds_candidate : Option (Node H.Tree) → Text → Bool
  holds_candidate (some (file content)) digest = codes "sha256:" ++ H.sha256 content == digest
  holds_candidate (some (tree t)) digest = false
  holds_candidate none digest = false

  -- `_candidate_state_is_committed`
  unfoldable pub candidate_state_is_committed : List StateFile → Session H → Bool
  candidate_state_is_committed [] s = true
  candidate_state_is_committed (f ∷ files) s =
      holds_candidate (s.nodes f.path) f.candidate_digest && candidate_state_is_committed files s

  abbrev pub is_nonempty : List StateFile → Bool
  is_nonempty [] = false
  is_nonempty (f ∷ files) = true

  -- The body of `_recover_interrupted_transaction`.
  unfoldable pub recover_journal : Journal → Action Failure (Session H) Unit
  unfolding candidate_state_is_committed remove_backups restore_state_files restore_mutations
      drop_journal ◌>>=◌
  recover_journal j = do
    committed ←
        gets H (λ s. is_nonempty j.state_files && candidate_state_is_committed j.state_files s)
    if committed
        then remove_backups j.mutations
        else do restore_state_files (reverse j.state_files); restore_mutations (reverse j.mutations)
    drop_journal j.transaction_root

  unfoldable pub recover_from : Option Journal → Action Failure (Session H) Unit
  unfolding recover_journal
  recover_from none s = (ok tt, s)
  recover_from (some j) s = (wrap_failure (recover_journal j s).0, (recover_journal j s).1)

  -- `_recover_interrupted_transaction`
  unfoldable pub recover : Action Failure (Session H) Unit
  unfolding recover_from
  recover s = recover_from s.journal s
