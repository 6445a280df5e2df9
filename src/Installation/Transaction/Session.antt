-- ===== src/Installation/Transaction/Session.antt =====
-- The disk and the memory of one installation transaction, and its single disk operations.
-- Each operation is atomic (a rename, or a write to a temporary file that is renamed). The process
-- can stop before any of them: the budget counts those that are still carried out.
use ritebook.Prelude.{ℕ, zero, suc, Bool, List, ◌++◌, Option, none, some, Result, ok, err}
use ritebook.Prelude.{◌==◌, nat_eq, list_eq, if◌then◌else◌, is_some}
use ritebook.Prelude.Actions.{Action}
use ritebook.Text.{Text, codes, starts_with}

pub data Failure : Type 0 where
  interrupted os_error persistence unsafe_path : Failure

pub data Phase : Type 0 where
  prepared targets_applied state_committed : Phase

-- MUTATION_FIELDS; the kind is always "replace"
pub record Mutation : Type 0 where
  pub target_path : Text
  pub backup_path : Text
  pub had_prior : Bool

-- STATE_FILE_FIELDS
pub record StateFile : Type 0 where
  pub path : Text
  pub backup_path : Text
  pub had_prior : Bool
  pub candidate_digest : Text
  pub private : Bool

-- JOURNAL_FIELDS, without the schema version
pub record Journal : Type 0 where
  pub transaction_id : Text
  pub phase : Phase
  pub transaction_root : Text
  pub mutations : List Mutation
  pub state_files : List StateFile

-- What a path holds: a directory tree, which moves as a whole, or a file.
pub data Node (Tree : Type 0) : Type 0 where
  tree : Tree → Node Tree
  file : Text → Node Tree

-- What the library of the language supplies: sha256 of bytes, `str` of a number, and the digest of
-- a tree as a whole.
pub record Hashes : Type 1 where
  pub Tree : Type 0
  pub tree_digest : Tree → Text
  pub sha256 : Text → Text
  pub decimal : ℕ → Text

module _ (H : Hashes) where
  pub record Session : Type 0 where
    pub nodes : Text → Option (Node H.Tree)
    pub journal : Option Journal
    pub budget : ℕ
    -- the attributes of `FilesystemInstallationTransaction`
    pub transaction_id : Text
    pub transaction_root : Text
    pub phase : Phase
    pub mutations : List Mutation
    pub state_files : List StateFile
    pub is_committed : Bool
    pub is_finished : Bool

  abbrev pub Disk : Type 0
  Disk = Text → Option (Node H.Tree)

  abbrev pub write : Disk → Text → Option (Node H.Tree) → Disk
  write nodes path node = λ p. if p == path then node else nodes p

  abbrev pub spent : ℕ → Session → Result Failure Session → Result Failure Unit × Session
  spent n s (ok t) = (ok tt, record t { budget = n })
  spent n s (err e) = (err e, s)

  abbrev pub spend : ℕ → (Session → Result Failure Session) → Action Failure Session Unit
  spend zero f s = (err interrupted, s)
  spend (suc n) f s = spent n s (f s)

  -- One disk operation.
  unfoldable pub disk_step : (Session → Result Failure Session) → Action Failure Session Unit
  disk_step f s = spend s.budget f s

  abbrev pub gets : {A : Type 0} → (Session → A) → Action Failure Session A
  gets f s = (ok (f s), s)

  abbrev pub move : Text → Text → Session → Option (Node H.Tree) → Result Failure Session
  move source destination s none = err os_error
  move source destination s (some node) =
      ok (record s { nodes = write (write s.nodes source none) destination (some node) })

  -- rename_entry
  unfoldable pub rename_entry : Text → Text → Action Failure Session Unit
  unfolding disk_step
  rename_entry source destination = disk_step (λ s. move source destination s (s.nodes source))

  -- _atomic_write_bytes, and the write of a backup
  unfoldable pub write_bytes : Text → Text → Action Failure Session Unit
  unfolding disk_step
  write_bytes path content =
      disk_step (λ s. ok (record s { nodes = write s.nodes path (some (file content)) }))

  -- remove_path of a single entry: a missing entry is no error
  unfoldable pub remove_path : Text → Action Failure Session Unit
  unfolding disk_step
  remove_path path = disk_step (λ s. ok (record s { nodes = write s.nodes path none }))

  -- The path lies in the directory.
  abbrev pub is_below : Text → Text → Bool
  is_below directory path = starts_with path (directory ++ codes "/")

  -- remove_path of a directory with all below it
  unfoldable pub remove_directory : Text → Action Failure Session Unit
  unfolding disk_step
  remove_directory directory =
      disk_step
        (λ s. ok (record s { nodes = λ p. if is_below directory p then none else s.nodes p }))

  -- _write_journal
  unfoldable pub write_journal : Action Failure Session Unit
  unfolding disk_step
  write_journal = disk_step (λ s. ok (record s {
    journal = some (record {
      transaction_id = s.transaction_id;
      phase = s.phase;
      transaction_root = s.transaction_root;
      mutations = s.mutations;
      state_files = s.state_files;
    });
  }))

  unfoldable pub unlink_journal : Action Failure Session Unit
  unfolding disk_step
  unlink_journal = disk_step (λ s. ok (record s { journal = none }))

  abbrev bytes_of : Option (Node H.Tree) → Result Failure Text
  bytes_of (some (file content)) = ok content
  bytes_of (some (tree t)) = err os_error
  bytes_of none = err os_error

  -- path.read_bytes()
  abbrev pub read_bytes : Text → Action Failure Session Text
  read_bytes path s = (bytes_of (s.nodes path), s)

  abbrev digest_of : Option (Node H.Tree) → Result Failure Text
  digest_of (some (tree t)) = ok (H.tree_digest t)
  digest_of (some (file content)) = err unsafe_path
  digest_of none = err unsafe_path

  -- canonical_tree_digest_at: anything but a directory is refused
  abbrev pub tree_digest_at : Text → Action Failure Session Text
  tree_digest_at path s = (digest_of (s.nodes path), s)

  -- path.exists(), entry_metadata(...) is not None
  abbrev pub exists_at : Text → Action Failure Session Bool
  exists_at path s = (ok (is_some (s.nodes path)), s)
