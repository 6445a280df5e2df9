-- ===== src/Installation/State/Reading.antt =====
-- json_installation_state/adapter.py: the readers of the installations and of `ritebook.lock`.
use ritebook.Prelude.{
  Bool, true, false, ◌&&◌, ◌||◌, not, List, [], ◌∷◌, ◌++◌, Option, none, some, Result, ok, err,
  catch, traverse, map, filter,
}
use ritebook.Prelude.{◌==◌, nat_eq, list_eq, contains, ◌>>=◌, ◌>>◌, raise_if}
use ritebook.Prelude.Sorting.{sorted}
use ritebook.Text.{Text, codes, has_sub, starts_with}
use ritebook.Json.{
  Json, natural, fraction, string, array, object, Members, get_member, has_members, has_only,
  items_of,
}
use ritebook.Kernel.Errors.{ValueError}
use ritebook.Kernel.PortablePaths.{posix_parts}
use ritebook.Installation.Errors.{Exception, other, value_error}
use ritebook.Installation.Targets.{posix_text}
use ritebook.Installation.Records.{
  OwnedInstallation, sync, InstallationStateSnapshot, check_owned_installation,
  require_optional_digest,
}
use ritebook.Installation.State.{
  malformed, required_str, optional_str, required_int, required_bool, to_status,
  require_safe_source, owned_from_json,
}
use ritebook.Installation.State.Documents.{StateLibrary, schema_version, by_target_id, target_id_of}

-- What stands at the path of a document.
pub data StateBytes : Type 0 where
  missing unreadable : StateBytes
  bytes : Text → StateBytes

abbrev pub ownership_root_fields : List Text
ownership_root_fields = codes "schema_version" ∷ codes "installations" ∷ []

abbrev pub lock_root_fields : List Text
lock_root_fields =
    codes "schema_version"
    ∷ codes "requirements_file"
    ∷ codes "state"
    ∷ codes "skills"
    ∷ codes "issues"
    ∷ []

abbrev pub lock_entry_fields : List Text
lock_entry_fields =
    codes "requirement"
    ∷ codes "index_name"
    ∷ codes "skill_name"
    ∷ codes "target"
    ∷ codes "target_id"
    ∷ codes "source"
    ∷ codes "source_type"
    ∷ codes "source_revision"
    ∷ codes "source_branch"
    ∷ codes "index_digest"
    ∷ codes "index_schema_version"
    ∷ codes "skill_path"
    ∷ codes "skill_file"
    ∷ codes "installed_tree_digest"
    ∷ codes "desired"
    ∷ codes "status"
    ∷ []

abbrev pub optional_lock_entry_fields : List Text
optional_lock_entry_fields = codes "target_ref" ∷ []

abbrev pub lock_issue_fields : List Text
lock_issue_fields = codes "code" ∷ codes "target" ∷ codes "detail" ∷ []

abbrev pub optional_lock_issue_fields : List Text
optional_lock_issue_fields = codes "requirement" ∷ []

-- `len({entry.target_id for entry in entries}) == len(entries)`
unfoldable pub have_distinct_targets : List OwnedInstallation → Bool
have_distinct_targets [] = true
have_distinct_targets (e ∷ es) =
    not (contains (map (λ (o : OwnedInstallation). o.target_id) es) e.target_id)
    && have_distinct_targets es

-- What the readers return of the entries of a document.
unfoldable pub snapshot_of : List OwnedInstallation → Text → InstallationStateSnapshot
snapshot_of parsed digest = record {
  entries = sorted by_target_id (filter (λ (e : OwnedInstallation). e.desired) parsed);
  digest = some digest;
}

-- `InstallationStateSnapshot.__post_init__`
unfoldable pub check_snapshot :
    InstallationStateSnapshot → Result ValueError InstallationStateSnapshot
check_snapshot s = do require_optional_digest s.digest; ok s

-- One turn of the loop over the names of an issue.
unfoldable pub check_lock_issue_field : Members → Text → Result Exception Unit
unfolding required_str
check_lock_issue_field issue name = required_str name issue >> ok tt

-- One turn of the loop of `_validate_lock_issues`.
unfoldable pub validate_lock_issue : Json → Result Exception Unit
unfolding check_lock_issue_field optional_str
validate_lock_issue (object issue) = do
  raise_if
      (not (
        has_members lock_issue_fields issue
        && has_only (lock_issue_fields ++ optional_lock_issue_fields) issue))
      malformed
  traverse (check_lock_issue_field issue) lock_issue_fields
  optional_str (codes "requirement") issue
  ok tt
validate_lock_issue _ = err malformed

unfoldable pub validate_lock_issues : Option Json → Result Exception Unit
unfolding validate_lock_issue
validate_lock_issues (some (array issues)) = traverse validate_lock_issue (items_of issues) >> ok tt
validate_lock_issues _ = err malformed

-- `value not in {"complete", "partial"}`: an array or an object has no hash, which is a `TypeError`.
unfoldable pub check_lock_state : Option Json → Result Exception Unit
check_lock_state (some (string value)) =
    raise_if (not (contains (codes "complete" ∷ codes "partial" ∷ []) value)) malformed
check_lock_state (some (array _)) = err other
check_lock_state (some (object _)) = err other
check_lock_state _ = err malformed

abbrev pub list_of : Option Json → Result Exception (List Json)
list_of (some (array values)) = ok (items_of values)
list_of _ = err malformed

-- `_safe_portable_target`; the entry's reader turns its error into one of the state.
unfoldable pub safe_portable_target : Text → Result Exception Text
unfolding posix_text
safe_portable_target value = do
  raise_if (has_sub value (codes "\\")) malformed
  raise_if
      (starts_with value (codes "/") || value == [] || contains (posix_parts value) (codes ".."))
      malformed
  let normalized = posix_text (posix_parts value)
  raise_if (normalized == [] || normalized == codes ".") malformed
  ok normalized

module _ (L : StateLibrary) where
  abbrev pub is_version : Option Json → Bool
  is_version (some (natural n)) = n == schema_version
  is_version (some (fraction literal)) = L.float_equals literal schema_version
  is_version _ = false

  -- `_read_json_object`
  abbrev object_of : Option Json → Text → Result Exception (Members × Text)
  object_of (some (object payload)) content =
      ok (payload, codes "sha256:" ++ L.sha256_bytes content)
  object_of _ content = err malformed

  -- `_lock_owned_from_json`
  unfoldable pub lock_owned_from_json : Text → Json → Result Exception OwnedInstallation
  unfolding safe_portable_target target_id_of require_safe_source required_str optional_str
      required_int required_bool to_status
  lock_owned_from_json root (object entry) = do
    raise_if
        (not (
          has_members lock_entry_fields entry
          && has_only (lock_entry_fields ++ optional_lock_entry_fields) entry))
        malformed
    target ← required_str (codes "target") entry
    normalized_target ← safe_portable_target target
    target_id ← required_str (codes "target_id") entry
    raise_if (not (target_id == target_id_of L normalized_target)) malformed
    source ← required_str (codes "source") entry
    source_type ← required_str (codes "source_type") entry
    raise_if (source_type == codes "local_git_repo") malformed
    require_safe_source L.urls source source_type
    requirement ← required_str (codes "requirement") entry
    index_name ← required_str (codes "index_name") entry
    skill_name ← required_str (codes "skill_name") entry
    source_revision ← required_str (codes "source_revision") entry
    source_branch ← required_str (codes "source_branch") entry
    index_digest ← required_str (codes "index_digest") entry
    index_schema_version ← required_int (codes "index_schema_version") entry
    skill_path ← required_str (codes "skill_path") entry
    skill_file ← required_str (codes "skill_file") entry
    installed_tree_digest ← required_str (codes "installed_tree_digest") entry
    desired ← required_bool (codes "desired") entry
    status ← (do value ← required_str (codes "status") entry; to_status value)
    target_ref ← optional_str (codes "target_ref") entry
    catch
        (check_owned_installation (record {
          workflow = sync;
          requirement = requirement;
          index_name = index_name;
          skill_name = skill_name;
          target = normalized_target;
          target_id = target_id;
          canonical_target = L.join_parts root (posix_parts normalized_target);
          source = source;
          source_type = source_type;
          source_revision = source_revision;
          source_branch = source_branch;
          index_digest = index_digest;
          index_schema_version = index_schema_version;
          skill_path = skill_path;
          skill_file = skill_file;
          installed_tree_digest = installed_tree_digest;
          desired = desired;
          status = status;
          target_ref = target_ref;
        }))
        (λ x. malformed)
  lock_owned_from_json root _ = err malformed

  -- The rest of both readers, once the entries are read.
  unfoldable pub checked_snapshot :
      List OwnedInstallation → Text → Result Exception InstallationStateSnapshot
  unfolding have_distinct_targets snapshot_of check_snapshot
  checked_snapshot parsed digest = do
    raise_if (not (have_distinct_targets parsed)) malformed
    catch (check_snapshot (snapshot_of parsed digest)) value_error

  -- `read_ownership`, of what the path holds
  unfoldable pub read_ownership : StateBytes → Result Exception InstallationStateSnapshot
  unfolding owned_from_json checked_snapshot
  read_ownership missing = ok (record { entries = []; digest = none })
  read_ownership unreadable = err malformed
  read_ownership (bytes content) = do
    (payload, digest) ← object_of (L.loads content) content
    raise_if (not (is_version (get_member (codes "schema_version") payload))) malformed
    raise_if
        (not (has_members ownership_root_fields payload && has_only ownership_root_fields payload))
        malformed
    installations ← list_of (get_member (codes "installations") payload)
    parsed ← traverse (owned_from_json L.urls) installations
    checked_snapshot parsed digest

  -- `read_lockfile_ownership`, of what the path holds
  unfoldable pub read_lockfile_ownership :
      StateBytes → Text → Result Exception InstallationStateSnapshot
  unfolding lock_owned_from_json checked_snapshot validate_lock_issues check_lock_state required_str
  read_lockfile_ownership missing requirements_file = ok (record { entries = []; digest = none })
  read_lockfile_ownership unreadable requirements_file = err malformed
  read_lockfile_ownership (bytes content) requirements_file = do
    (payload, digest) ← object_of (L.loads content) content
    raise_if (not (is_version (get_member (codes "schema_version") payload))) malformed
    raise_if (not (has_members lock_root_fields payload && has_only lock_root_fields payload))
        malformed
    check_lock_state (get_member (codes "state") payload)
    required_str (codes "requirements_file") payload
    validate_lock_issues (get_member (codes "issues") payload)
    skills ← list_of (get_member (codes "skills") payload)
    parsed ← traverse (lock_owned_from_json (L.root_of requirements_file)) skills
    checked_snapshot parsed digest
