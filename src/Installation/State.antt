-- ===== src/Installation/State.antt =====
-- An entry of the ownership state, as JSON:
-- skill_installation/adapters/outbound/json_installation_state/adapter.py
pub mod Checked
pub mod RoundTrip
pub mod Documents
pub mod Reading
pub mod Snapshots
pub mod OwnershipFile
pub mod LockEntries
pub mod LockFile
use ritebook.Prelude.{
  ℕ, Bool, true, false, ◌&&◌, not, List, [], ◌∷◌, ◌++◌, Option, none, some, Result, ok, err, catch,
}
use ritebook.Prelude.{◌==◌, nat_eq, list_eq, if◌then◌else◌, ◌>>=◌, ◌>>◌, raise_if}
use ritebook.Text.{Text, codes}
use ritebook.Json.{
  Json, null, boolean, natural, string, object, Members, no_members, member, get_member,
  has_members, has_only,
}
use ritebook.Kernel.GitSources.{UrlLibrary, require_safe_persisted_source}
use ritebook.Installation.Errors.{Exception, installation, installation_persistence}
use ritebook.Installation.Records.{
  OwnedInstallation, InstallationWorkflow, direct, sync, InstallationStatus, materialized,
  local_changes, retained, check_owned_installation,
}

abbrev pub ownership_entry_fields : List Text
ownership_entry_fields =
    codes "workflow"
    ∷ codes "requirement"
    ∷ codes "index_name"
    ∷ codes "skill_name"
    ∷ codes "target"
    ∷ codes "target_id"
    ∷ codes "canonical_target"
    ∷ codes "source"
    ∷ codes "source_type"
    ∷ codes "source_revision"
    ∷ codes "source_branch"
    ∷ codes "index_digest"
    ∷ codes "index_schema_version"
    ∷ codes "skill_path"
    ∷ codes "skill_file"
    ∷ codes "installed_tree_digest"
    ∷ codes "desired"
    ∷ codes "status"
    ∷ []

abbrev pub optional_ownership_entry_fields : List Text
optional_ownership_entry_fields = codes "target_ref" ∷ []

abbrev pub workflow_value : InstallationWorkflow → Text
workflow_value direct = codes "direct"
workflow_value sync = codes "sync"

abbrev pub status_value : InstallationStatus → Text
status_value materialized = codes "materialized"
status_value local_changes = codes "local_changes"
status_value retained = codes "retained"

-- `InstallationPersistenceError`; the reader turns every other error of an entry into it.
abbrev pub malformed : Exception
malformed = installation installation_persistence

-- data["target_ref"] = entry.target_ref, if there is one, before the members that follow
abbrev pub with_target_ref : Option Text → Members → Members
with_target_ref none members = members
with_target_ref (some target_ref) members = member (codes "target_ref") (string target_ref) members

-- The members that each entry has, before those that follow.
abbrev pub common_members : OwnedInstallation → Members → Members
common_members e added = member (codes "requirement") (string e.requirement) (
    member (codes "index_name") (string e.index_name) (
      member (codes "skill_name") (string e.skill_name) (
        member (codes "target") (string e.target) (
          member (codes "target_id") (string e.target_id) (
            member (codes "source") (string e.source) (
              member (codes "source_type") (string e.source_type) (
                member (codes "source_revision") (string e.source_revision) (
                  member (codes "source_branch") (string e.source_branch) (
                    member (codes "index_digest") (string e.index_digest) (
                      member (codes "index_schema_version") (natural e.index_schema_version) (
                        member (codes "skill_path") (string e.skill_path) (
                          member (codes "skill_file") (string e.skill_file) (
                            member (codes "installed_tree_digest") (string e.installed_tree_digest)
                              (member (codes "desired") (boolean e.desired) (
                                member (codes "status") (string (status_value e.status))
                                  added)))))))))))))))

-- `_common_entry_to_json`, before the members that are added to it
unfoldable pub common_entry_to_json : OwnedInstallation → Members → Members
common_entry_to_json e added = common_members e (with_target_ref e.target_ref added)

unfoldable pub required_str : Text → Members → Result Exception Text
unfolding get_member
required_str name entry = elim (get_member name entry) [
  | some (string value) ↦ if value == [] then err malformed else ok value
  | _ ↦ err malformed
]

unfoldable pub optional_str : Text → Members → Result Exception (Option Text)
unfolding get_member
optional_str name entry = elim (get_member name entry) [
  | none ↦ ok none
  | some null ↦ ok none
  | some (string value) ↦ if value == [] then err malformed else ok (some value)
  | some _ ↦ err malformed
]

-- A negative number is refused later, as the version that it is not.
unfoldable pub required_int : Text → Members → Result Exception ℕ
unfolding get_member
required_int name entry = elim (get_member name entry) [
  | some (natural n) ↦ ok n
  | _ ↦ err malformed
]

unfoldable pub required_bool : Text → Members → Result Exception Bool
unfolding get_member
required_bool name entry = elim (get_member name entry) [
  | some (boolean b) ↦ ok b
  | _ ↦ err malformed
]

-- InstallationWorkflow(value)
unfoldable pub to_workflow : Text → Result Exception InstallationWorkflow
to_workflow value =
    if value == codes "direct"
    then ok direct
    else if value == codes "sync"
    then ok sync
    else err malformed

-- InstallationStatus(value)
unfoldable pub to_status : Text → Result Exception InstallationStatus
to_status value =
    if value == codes "materialized"
    then ok materialized
    else if value == codes "local_changes"
    then ok local_changes
    else if value == codes "retained"
    then ok retained
    else err malformed

-- data.update(...) of `_ownership_entry_to_json`
abbrev pub last_members : OwnedInstallation → Members
last_members e =
    member (codes "workflow") (string (workflow_value e.workflow))
      (member (codes "canonical_target") (string e.canonical_target) no_members)

module _ (U : UrlLibrary) where
  unfoldable pub require_safe_source : Text → Text → Result Exception Unit
  require_safe_source source source_type =
      catch (require_safe_persisted_source U source source_type) (λ x. malformed)

  unfoldable pub ownership_entry_to_json : OwnedInstallation → Result Exception Json
  unfolding require_safe_source common_entry_to_json
  ownership_entry_to_json e = do
    require_safe_source e.source e.source_type
    ok (object (common_entry_to_json e (last_members e)))

  unfoldable pub owned_from_json : Json → Result Exception OwnedInstallation
  unfolding require_safe_source required_str optional_str required_int required_bool to_workflow
      to_status has_members has_only
  owned_from_json (object entry) = do
    raise_if
        (not (
          has_members ownership_entry_fields entry
          && has_only (ownership_entry_fields ++ optional_ownership_entry_fields) entry))
        malformed
    source ← required_str (codes "source") entry
    source_type ← required_str (codes "source_type") entry
    require_safe_source source source_type
    workflow ← (do value ← required_str (codes "workflow") entry; to_workflow value)
    requirement ← required_str (codes "requirement") entry
    index_name ← required_str (codes "index_name") entry
    skill_name ← required_str (codes "skill_name") entry
    target ← required_str (codes "target") entry
    target_id ← required_str (codes "target_id") entry
    canonical_target ← required_str (codes "canonical_target") entry
    source_revision ← required_str (codes "source_revision") entry
    source_branch ← required_str (codes "source_branch") entry
    index_digest ← required_str (codes "index_digest") entry
    index_schema_version ← required_int (codes "index_schema_version") entry
    skill_path ← required_str (codes "skill_path") entry
    skill_file ← required_str (codes "skill_file") entry
    installed_tree_digest ← required_str (codes "installed_tree_digest") entry
    desired ← required_bool (codes "desired") entry
    status ← (do value ← required_str (codes "status") entry; to_status value)
    target_ref ← optional_str (codes "target_ref") entry
    catch
        (check_owned_installation (record {
          workflow = workflow;
          requirement = requirement;
          index_name = index_name;
          skill_name = skill_name;
          target = target;
          target_id = target_id;
          canonical_target = canonical_target;
          source = source;
          source_type = source_type;
          source_revision = source_revision;
          source_branch = source_branch;
          index_digest = index_digest;
          index_schema_version = index_schema_version;
          skill_path = skill_path;
          skill_file = skill_file;
          installed_tree_digest = installed_tree_digest;
          desired = desired;
          status = status;
          target_ref = target_ref;
        }))
        (λ x. malformed)
  owned_from_json _ = err malformed
