-- ===== src/Installation/State/Documents.antt =====
-- json_installation_state/adapter.py: the documents that are written of the installations and of
-- `ritebook.lock`.
use ritebook.Prelude.{
  ℕ, Bool, true, false, ◌&&◌, List, [], ◌∷◌, ◌++◌, Option, none, some, Result, ok, catch, traverse,
  map, all,
}
use ritebook.Prelude.{◌==◌, nat_eq, list_eq, if◌then◌else◌, ◌>>=◌, ◌>>◌, raise_if}
use ritebook.Prelude.Order.{text_leb}
use ritebook.Prelude.Sorting.{sorted}
use ritebook.Text.{Text, codes}
use ritebook.Json.{Json, natural, string, array, object, Members, no_members, member, to_items}
use ritebook.Kernel.Errors.{ValueError}
use ritebook.Installation.References.{require_non_empty}
use ritebook.Kernel.GitSources.{UrlLibrary}
use ritebook.Installation.Errors.{Exception, value_error}
use ritebook.Installation.Records.{
  OwnedInstallation, InstallationStatus, materialized, ReconciliationIssue, GeneratedStateFile,
  require_optional_digest,
}
use ritebook.Installation.State.{
  malformed, require_safe_source, common_entry_to_json, ownership_entry_to_json,
}

-- What the adapter calls of the language.
pub record StateLibrary : Type 0 where
  pub urls : UrlLibrary
  -- `==` between a float, by its literal, and an int
  pub float_equals : Text → ℕ → Bool
  -- hashlib.sha256(value.encode()).hexdigest()
  pub sha256 : Text → Text
  -- str(Path(requirements_file).expanduser().resolve(strict=False).parent)
  pub root_of : Text → Text
  -- Path(path).expanduser()
  pub expanduser : Text → Text
  -- `_json_bytes`, and json.loads(content.decode("utf-8")), which may raise
  pub json_bytes : Json → Text
  pub loads : Text → Option Json
  -- hashlib.sha256(content).hexdigest()
  pub sha256_bytes : Text → Text
  -- str(root / Path(*parts))
  pub join_parts : Text → List Text → Text

abbrev pub schema_version : ℕ
schema_version = 3

abbrev pub by_target_id : OwnedInstallation → OwnedInstallation → Bool
by_target_id a b = text_leb a.target_id b.target_id

abbrev or_empty : Option Text → Text
or_empty none = []
or_empty (some text) = text

-- The order of tuples of texts: (target, code, requirement or "").
unfoldable pub by_issue : ReconciliationIssue → ReconciliationIssue → Bool
by_issue a b =
    if a.target == b.target
    then (if a.code == b.code
        then text_leb (or_empty a.requirement) (or_empty b.requirement)
        else text_leb a.code b.code)
    else text_leb a.target b.target

abbrev pub is_materialized : InstallationStatus → Bool
is_materialized materialized = true
is_materialized _ = false

abbrev pub is_without : List ReconciliationIssue → Bool
is_without [] = true
is_without (issue ∷ issues) = false

-- not sorted_issues and all(...)
unfoldable pub is_complete : List OwnedInstallation → List ReconciliationIssue → Bool
is_complete entries issues =
    is_without issues
    && all (λ (e : OwnedInstallation). e.desired && is_materialized e.status) entries

-- `GeneratedStateFile.__post_init__`
unfoldable pub check_generated_state_file :
    GeneratedStateFile → Result ValueError GeneratedStateFile
check_generated_state_file f = do
  require_non_empty f.path "Generated state path"
  require_optional_digest f.expected_digest
  ok f

-- `_issue_to_json`
abbrev pub requirement_member : Option Text → Members
requirement_member none = no_members
requirement_member (some requirement) = member (codes "requirement") (string requirement) no_members

unfoldable pub issue_to_json : ReconciliationIssue → Json
issue_to_json issue = object (
    member (codes "code") (string issue.code) (
      member (codes "target") (string issue.target)
        (member (codes "detail") (string issue.detail) (requirement_member issue.requirement))))

-- `_lock_entry_to_json`
unfoldable pub lock_entry_to_json : OwnedInstallation → Json
unfolding common_entry_to_json
lock_entry_to_json entry = object (common_entry_to_json entry no_members)

-- The root of the document of `ownership_file`.
abbrev pub ownership_root : List Json → Json
ownership_root installations = object (
    member (codes "schema_version") (natural schema_version)
      (member (codes "installations") (array (to_items installations)) no_members))

abbrev pub state_text : Bool → Text
state_text true = codes "complete"
state_text false = codes "partial"

-- The root of the document of `lockfile`.
abbrev pub lock_root : Text → Bool → List Json → List Json → Json
lock_root requirements_file complete skills issues = object (
    member (codes "schema_version") (natural schema_version) (
      member (codes "requirements_file") (string requirements_file) (
        member (codes "state") (string (state_text complete)) (
          member (codes "skills") (array (to_items skills))
            (member (codes "issues") (array (to_items issues)) no_members)))))

module _ (L : StateLibrary) where
  -- `_target_id`
  unfoldable pub target_id_of : Text → Text
  target_id_of value = codes "sha256:" ++ L.sha256 value

  -- One turn of the loop at the start of `lockfile`.
  unfoldable pub require_portable_source : OwnedInstallation → Result Exception Unit
  unfolding require_safe_source
  require_portable_source entry = do
    raise_if (entry.source_type == codes "local_git_repo") malformed
    require_safe_source L.urls entry.source entry.source_type

  -- The document of `lockfile`.
  unfoldable pub lock_document :
      List OwnedInstallation → List ReconciliationIssue → Text → Result Exception Json
  unfolding require_portable_source is_complete lock_entry_to_json issue_to_json by_issue
  lock_document entries issues requirements_file = do
    traverse require_portable_source entries
    ok (
        lock_root requirements_file (is_complete entries (sorted by_issue issues))
          (map lock_entry_to_json (sorted by_target_id entries))
          (map issue_to_json (sorted by_issue issues)))

  -- `JsonInstallationStateAdapter.lockfile`
  unfoldable pub lockfile :
      List OwnedInstallation
      → List ReconciliationIssue
      → Text
      → Text
      → Result Exception GeneratedStateFile
  unfolding lock_document check_generated_state_file
  lockfile entries issues lockfile_path requirements_file = do
    document ← lock_document entries issues requirements_file
    catch
        (check_generated_state_file (record {
          path = L.expanduser lockfile_path;
          content = L.json_bytes document;
          private = false;
          expected_digest = none;
        }))
        value_error

  -- The document of `ownership_file`.
  unfoldable pub ownership_document : List OwnedInstallation → Result Exception Json
  unfolding ownership_entry_to_json
  ownership_document entries = do
    installations ← traverse (ownership_entry_to_json L.urls) (sorted by_target_id entries)
    ok (ownership_root installations)

  -- `JsonInstallationStateAdapter.ownership_file`
  unfoldable pub ownership_file :
      List OwnedInstallation → Text → Option Text → Result Exception GeneratedStateFile
  unfolding ownership_document check_generated_state_file
  ownership_file entries ownership_path expected_digest = do
    document ← ownership_document entries
    catch
        (check_generated_state_file (record {
          path = L.expanduser ownership_path;
          content = L.json_bytes document;
          private = true;
          expected_digest = expected_digest;
        }))
        value_error
