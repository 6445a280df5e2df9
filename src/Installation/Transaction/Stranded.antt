-- ===== src/Installation/Transaction/Stranded.antt =====
-- A recovery that is stopped between the removal of the transaction's directory and that of the
-- journal.
use ritebook.Prelude.{true, false, [], ◌∷◌, none, some}
use ritebook.Prelude.{nat_eq, list_eq, if◌then◌else◌, ◌≡◌}
use ritebook.Text.{Text}
use ritebook.Installation.Transaction.Session.{
  StateFile, Journal, file, Hashes, Session, is_below, write,
}
use ritebook.Installation.Transaction.Restore.{holds_candidate}

module _ (H : Hashes) (j : Journal) (f : StateFile) (content : Text) where
  abbrev pub pending : Journal
  pending = record j { mutations = []; state_files = record f { had_prior = true } ∷ [] }

  abbrev Stuck : Session H → Type 0
  Stuck t =
      (holds_candidate H (t.nodes f.path) f.candidate_digest ≡ false)
      × (t.nodes f.backup_path ≡ none)

  module _ (s : Session H) (is_pending : s.journal ≡ some pending)
      (uncommitted : holds_candidate H (s.nodes f.path) f.candidate_digest ≡ false)
      (backed_up : s.nodes f.backup_path ≡ some (file content))
      (unlike : holds_candidate H (some (file content)) f.candidate_digest ≡ false)
      (inside : is_below H j.transaction_root f.backup_path ≡ true)
      (outside : is_below H j.transaction_root f.path ≡ false) where
    abbrev pub stopped_state : Session H
    stopped_state = record s {
      nodes = λ p.
          if is_below H j.transaction_root p
          then none
          else write H s.nodes f.path (some (file content)) p;
      budget = 0;
    }
