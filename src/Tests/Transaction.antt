-- ===== src/Tests/Transaction.antt =====
-- Installation/Transaction at concrete inputs.
use ritebook.Prelude.{ℕ, true, false, [], ◌∷◌, none, some, ok}
use ritebook.Prelude.{◌==◌, nat_eq, list_eq, list_beq, if◌then◌else◌, ◌≡◌, refl, arith}
use ritebook.Text.{Text, codes, starts_with}
use ritebook.Installation.Transaction.Session.{
  prepared, StateFile, Journal, tree, file, Hashes, Session, Disk,
}
use ritebook.Installation.Transaction.Restore.{recover}
use ritebook.Installation.Transaction.Operations.{backup_path, replace_tree}
use ritebook.Installation.Transaction.Runs.{Outcome}
use ritebook.Installation.Transaction.Recovery.{
  IsRecoverable, backed_up, journal_of, Restored, recover-IsRecoverable,
}
use ritebook.Installation.Transaction.Crash.{recover-replace_tree}

-- hashes that are their input
abbrev hashes : Hashes
hashes = record {
  Tree = ℕ;
  tree_digest = λ n. n ∷ [];
  sha256 = λ content. content;
  decimal = λ n. n ∷ [];
}

abbrev target : Text
target = codes "/skills/pdf"

abbrev staged : Text
staged = codes "/stage/pdf"

abbrev root : Text
root = codes "/state/transactions/7"

abbrev backup : Text
backup = codes "/skills/.pdf.ritebook-7.previous"

abbrev disk : Disk hashes
disk p = if p == target then some (tree 1) else if p == staged then some (tree 2) else none

-- the disk where the target has been moved away and the process has stopped
abbrev moved_disk : Disk hashes
moved_disk p = if p == backup then some (tree 1) else none

abbrev session : Session hashes
session = record {
  nodes = disk;
  journal = none;
  budget = 2;
  transaction_id = codes "7";
  transaction_root = root;
  phase = prepared;
  mutations = [];
  state_files = [];
  is_committed = false;
  is_finished = false;
}

abbrev moved : Session hashes
moved = record session {
  nodes = moved_disk;
  journal = some (journal_of hashes target backup root (codes "7") (some (tree 1)));
}

backup_path_test : backup_path target (codes "7") ≡ backup
unfolding backup_path list_beq
backup_path_test = refl

recover-IsRecoverable_example :
    Outcome hashes
      (IsRecoverable hashes target backup root (codes "7") (some (tree 1)))
      4
      (Restored hashes target backup root (codes "7") (some (tree 1)))
      2
      (recover hashes moved).0
      (recover hashes moved).1
unfolding list_beq starts_with
recover-IsRecoverable_example =
    recover-IsRecoverable hashes target backup root (codes "7") (some (tree 1)) refl refl refl moved
      (backed_up refl)

recover-replace_tree_example :
    let t = (replace_tree hashes staged target (some (1 ∷ [])) session).1 in
    let r = recover hashes (record t { budget = 9 }) in
    (r.0 ≡ ok tt) × (r.1.nodes target ≡ some (tree 1)) × (r.1.journal ≡ none)
unfolding backup_path list_beq starts_with
recover-replace_tree_example =
    recover-replace_tree hashes staged target session refl refl refl refl refl refl (some (1 ∷ []))
      9 refl refl (omega arith)

abbrev state_file : StateFile
state_file = record {
  path = codes "/state/records.json";
  backup_path = codes "/state/transactions/7/state/0/previous";
  had_prior = true;
  candidate_digest = codes "sha256:new";
  private = false;
}

abbrev journal : Journal
journal = record {
  transaction_id = codes "7";
  phase = prepared;
  transaction_root = root;
  mutations = [];
  state_files = state_file ∷ [];
}

abbrev interrupted_session : Session hashes
interrupted_session = record session {
  nodes = λ p.
      if p == codes "/state/transactions/7/state/0/previous"
      then some (file (codes "old"))
      else none;
  journal = some journal;
}
