-- ===== src/Installation/Transaction/Operations.antt =====
-- The operations of `FilesystemInstallationTransaction`, and `_open`, which surrounds them.
-- Not modelled: the lock, and the directory descriptors that detect a directory that is replaced
-- meanwhile; the model has one process at a time.
use ritebook.Prelude.{
  ℕ, suc, Bool, true, false, not, ◌&&◌, List, [], ◌∷◌, ◌++◌, reverse, Option, none, some, Result,
  ok, err,
}
use ritebook.Prelude.{◌==◌, nat_eq, list_eq, if◌then◌else◌}
use ritebook.Prelude.Actions.{Action, pure, raise, ◌>>=◌, ◌>>◌}
use ritebook.Text.{Text, codes}
use ritebook.Installation.Records.{GeneratedStateFile}
use ritebook.Installation.Transaction.Session.{
  Failure, interrupted, os_error, persistence, unsafe_path, targets_applied, state_committed,
  Mutation, StateFile, Hashes, Session, rename_entry, write_bytes, write_journal, read_bytes,
  tree_digest_at, exists_at, gets,
}
use ritebook.Installation.Transaction.Restore.{
  wrap_failure, restore_state_files, require_safe_mutation_target, restore_mutations,
  cleanup_artifacts, recover,
}

abbrev add_character : ℕ → Text × Text → Text × Text
add_character c parts =
    if parts.0 == [] && not (c == 47) then ([], c ∷ parts.1) else (c ∷ parts.0, parts.1)

-- The text of a path up to its last slash, and the name after it.
unfoldable pub split_name : Text → Text × Text
split_name [] = ([], [])
split_name (c ∷ path) = add_character c (split_name path)

-- The place of a prior tree: beside the target, with the identifier of the transaction.
unfoldable pub backup_path : Text → Text → Text
unfolding split_name
backup_path target id =
    (split_name target).0
    ++ codes "."
    ++ (split_name target).1
    ++ codes ".ritebook-"
    ++ id
    ++ codes ".previous"

module _ (H : Hashes) where
  -- `except OSError as err: raise InstallationPersistenceError`
  abbrev pub wrap_os_error : {A : Type 0} → Result Failure A → Result Failure A
  wrap_os_error (err os_error) = err persistence
  wrap_os_error (err interrupted) = err interrupted
  wrap_os_error (err persistence) = err persistence
  wrap_os_error (err unsafe_path) = err unsafe_path
  wrap_os_error (ok a) = ok a

  abbrev pub wrapping_os_error :
      {A : Type 0} → Action Failure (Session H) A → Action Failure (Session H) A
  wrapping_os_error m s = (wrap_os_error (m s).0, (m s).1)

  unfoldable pub bytes_digest : Text → Text
  bytes_digest content = codes "sha256:" ++ H.sha256 content

  -- The inspection in `replace_tree`.
  unfoldable pub require_expected_tree : Text → Bool → Option Text → Action Failure (Session H) Unit
  unfolding ◌>>=◌
  require_expected_tree target exists none = if exists then raise unsafe_path else pure tt
  require_expected_tree target exists (some expected) = if not exists then raise persistence else do
    digest ← tree_digest_at H target
    if digest == expected then pure tt else raise persistence

  abbrev remember_mutation : Mutation → Action Failure (Session H) Unit
  remember_mutation m s =
      (ok tt, record s { mutations = s.mutations ++ m ∷ []; phase = targets_applied })

  unfoldable pub move_trees : Text → Text → Text → Bool → Action Failure (Session H) Unit
  unfolding rename_entry ◌>>=◌
  move_trees staged target backup exists = do
    if exists then rename_entry H target backup else pure tt
    rename_entry H staged target

  -- The mutation of `replace_tree`, once the target is inspected.
  unfoldable pub apply_replacement : Text → Text → Bool → Action Failure (Session H) Unit
  unfolding write_journal move_trees ◌>>=◌ backup_path
  apply_replacement staged target exists = do
    id ← gets H (λ s. s.transaction_id)
    let backup = backup_path target id
    remember_mutation (record { target_path = target; backup_path = backup; had_prior = exists })
    write_journal H
    wrapping_os_error (move_trees staged target backup exists)

  unfoldable pub inspect_and_replace : Text → Text → Option Text → Action Failure (Session H) Unit
  unfolding require_expected_tree apply_replacement ◌>>=◌
  inspect_and_replace staged target expected_digest = do
    exists ← exists_at H target
    require_expected_tree target exists expected_digest
    apply_replacement staged target exists

  unfoldable pub replace_tree : Text → Text → Option Text → Action Failure (Session H) Unit
  unfolding require_safe_mutation_target inspect_and_replace ◌>>=◌
  replace_tree staged target expected_digest = do
    require_safe_mutation_target H target
    tree_digest_at H staged
    inspect_and_replace staged target expected_digest

  -- `_require_expected_state`
  unfoldable pub require_expected_state : List GeneratedStateFile → Action Failure (Session H) Unit
  unfolding ◌>>=◌ bytes_digest
  require_expected_state [] = pure tt
  require_expected_state (f ∷ files) = do
    elim f.expected_digest [
      | none ↦ pure tt
      | some expected ↦ do
        current ← wrapping_os_error (read_bytes H f.path)
        if bytes_digest current == expected then pure tt else raise persistence
    ]
    require_expected_state files

  abbrev remember_state_file : StateFile → Action Failure (Session H) Unit
  remember_state_file f s = (ok tt, record s { state_files = s.state_files ++ f ∷ [] })

  unfoldable pub back_up : Text → Text → Action Failure (Session H) Unit
  unfolding ◌>>=◌ write_bytes
  back_up path backup = do content ← read_bytes H path; write_bytes H backup content

  -- `_prepare_state_backups`, from a position on
  unfoldable pub prepare_state_backups :
      ℕ → List GeneratedStateFile → Action Failure (Session H) Unit
  unfolding ◌>>=◌ back_up bytes_digest
  prepare_state_backups position [] = pure tt
  prepare_state_backups position (f ∷ files) = do
    root ← gets H (λ s. s.transaction_root)
    had_prior ← exists_at H f.path
    let backup = root ++ codes "/state/" ++ H.decimal position ++ codes "/previous"
    if had_prior then back_up f.path backup else pure tt
    remember_state_file (record {
      path = f.path;
      backup_path = backup;
      had_prior = had_prior;
      candidate_digest = bytes_digest f.content;
      private = f.private;
    })
    prepare_state_backups (suc position) files

  unfoldable pub write_state_files : List GeneratedStateFile → Action Failure (Session H) Unit
  unfolding ◌>>=◌ write_bytes
  write_state_files [] = pure tt
  write_state_files (f ∷ files) = do write_bytes H f.path f.content; write_state_files files

  abbrev mark_committed : Action Failure (Session H) Unit
  mark_committed s = (ok tt, record s { phase = state_committed; is_committed = true })

  unfoldable pub commit_state : List GeneratedStateFile → Action Failure (Session H) Unit
  unfolding require_expected_state prepare_state_backups write_state_files write_journal ◌>>=◌
  commit_state files = do
    committed ← gets H (λ s. s.is_committed)
    if committed then raise persistence else pure tt
    require_expected_state files
    prepare_state_backups 0 files
    write_journal H
    wrapping_os_error (write_state_files files)
    mark_committed
    write_journal H

  abbrev mark_finished : Action Failure (Session H) Unit
  mark_finished s = (ok tt, record s { is_finished = true })

  unfoldable pub restore_all : Action Failure (Session H) Unit
  unfolding restore_state_files restore_mutations cleanup_artifacts ◌>>=◌
  restore_all = do
    files ← gets H (λ s. s.state_files)
    restore_state_files H (reverse files)
    mutations ← gets H (λ s. s.mutations)
    restore_mutations H (reverse mutations)
    cleanup_artifacts H

  abbrev wrapping_failure : Action Failure (Session H) Unit → Action Failure (Session H) Unit
  wrapping_failure m s = (wrap_failure H (m s).0, (m s).1)

  unfoldable pub rollback : Action Failure (Session H) Unit
  unfolding restore_all ◌>>=◌
  rollback = do
    finished ← gets H (λ s. s.is_finished)
    if finished then pure tt else do wrapping_failure restore_all; mark_finished

  abbrev is_nonempty : List Mutation → Bool
  is_nonempty [] = false
  is_nonempty (m ∷ mutations) = true

  unfoldable pub finish : Action Failure (Session H) Unit
  unfolding rollback cleanup_artifacts ◌>>=◌
  finish = do
    finished ← gets H (λ s. s.is_finished)
    uncommitted ← gets H (λ s. is_nonempty s.mutations && not s.is_committed)
    if finished
        then pure tt
        else if uncommitted
        then rollback
        else do cleanup_artifacts H; mark_finished

  abbrev pub close : Result Failure Unit → Action Failure (Session H) Unit
  unfolding rollback finish ◌>>=◌
  close (ok u) = finish
  close (err e) = do rollback; raise e

  -- `_open`: recovery, the block of the `with` statement, then its end.
  unfoldable pub open_transaction :
      Action Failure (Session H) Unit → Action Failure (Session H) Unit
  unfolding recover ◌>>=◌ rollback finish
  open_transaction body = do recover H; λ s. close (body s).0 (body s).1
