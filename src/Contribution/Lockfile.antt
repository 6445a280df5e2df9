-- ===== src/Contribution/Lockfile.antt =====
-- skill_contribution/adapters/outbound/json_lockfile/reader.py
use ritebook.Prelude.{
  ℕ, Bool, false, ◌&&◌, not, List, [], ◌∷◌, ◌++◌, Option, none, some, Result, ok, err, catch,
  traverse,
}
use ritebook.Prelude.{◌==◌, nat_eq, list_eq, if◌then◌else◌, contains, ◌>>=◌, ◌>>◌, raise_if}
use ritebook.Text.{Text, codes}
use ritebook.Json.{
  Json, null, boolean, natural, fraction, string, array, object, Members, get_member, has_members,
  has_only, items_of,
}
use ritebook.Kernel.GitSources.{UrlLibrary, require_safe_persisted_source}
use ritebook.Contribution.Errors.{
  Exception, contribution, other, contribution_lockfile_read, contribution_lockfile_entry_not_found,
}
use ritebook.Contribution.Records.{
  ContributionSkillReference, ContributionLockfileEntry, check_lockfile_entry, matches_index_digest,
}

-- What the reader calls of the language: `urlsplit`, and `==` between a float, by its literal, and
-- an int.
pub record LockfileLibrary : Type 0 where
  pub urls : UrlLibrary
  pub float_equals : Text → ℕ → Bool

-- `_ParsedEntry`
pub record ParsedEntry : Type 0 where
  pub entry : ContributionLockfileEntry
  pub desired : Bool
  pub status : Text

-- What `read_text` and `json.loads` come to.
pub data LockfileContent : Type 0 where
  unreadable not_utf8 not_json : LockfileContent
  decoded : Json → LockfileContent

abbrev pub malformed : Exception
malformed = contribution contribution_lockfile_read

abbrev pub schema_version : ℕ
schema_version = 3

abbrev pub root_fields : List Text
root_fields =
    codes "schema_version"
    ∷ codes "requirements_file"
    ∷ codes "state"
    ∷ codes "skills"
    ∷ codes "issues"
    ∷ []

abbrev pub entry_fields : List Text
entry_fields =
    codes "requirement"
    ∷ codes "index_name"
    ∷ codes "skill_name"
    ∷ codes "target"
    ∷ codes "target_id"
    ∷ codes "source"
    ∷ codes "source_type"
    ∷ codes "source_revision"
    ∷ codes "source_branch"
    ∷ codes "index_digest"
    ∷ codes "index_schema_version"
    ∷ codes "skill_path"
    ∷ codes "skill_file"
    ∷ codes "installed_tree_digest"
    ∷ codes "desired"
    ∷ codes "status"
    ∷ []

abbrev pub optional_entry_fields : List Text
optional_entry_fields = codes "target_ref" ∷ []

abbrev pub issue_fields : List Text
issue_fields = codes "code" ∷ codes "target" ∷ codes "detail" ∷ []

abbrev pub optional_issue_fields : List Text
optional_issue_fields = codes "requirement" ∷ []

-- PUBLISHABLE_STATUSES
abbrev pub publishable_statuses : List Text
publishable_statuses = codes "materialized" ∷ codes "local_changes" ∷ []

unfoldable pub read_payload : LockfileContent → Result Exception Members
read_payload (decoded (object payload)) = ok payload
read_payload not_utf8 = err other
read_payload _ = err malformed

unfoldable pub required_str : Members → Text → Result Exception Text
required_str entry name = elim (get_member name entry) [
  | some (string value) ↦ if value == [] then err malformed else ok value
  | _ ↦ err malformed
]

-- A negative number is refused later, as the version that it is not.
unfoldable pub required_int : Members → Text → Result Exception ℕ
required_int entry name = elim (get_member name entry) [
  | some (natural n) ↦ ok n
  | _ ↦ err malformed
]

unfoldable pub required_bool : Members → Text → Result Exception Bool
required_bool entry name = elim (get_member name entry) [
  | some (boolean b) ↦ ok b
  | _ ↦ err malformed
]

-- `_require_digest`, whose error is one of the entry
unfoldable pub require_digest : Text → Result Exception Unit
require_digest value = raise_if (not (matches_index_digest value)) malformed

-- One turn of the loop over the names of an issue.
unfoldable pub check_issue_field : Members → Text → Result Exception Unit
unfolding required_str
check_issue_field issue name = required_str issue name >> ok tt

abbrev pub check_issue_requirement : Option Json → Result Exception Unit
check_issue_requirement none = ok tt
check_issue_requirement (some null) = ok tt
check_issue_requirement (some (string value)) = raise_if (value == []) malformed
check_issue_requirement (some _) = err malformed

-- One turn of the loop of `_validate_issues`.
unfoldable pub validate_issue : Json → Result Exception Unit
unfolding check_issue_field
validate_issue (object issue) = do
  raise_if
      (not
        (has_members issue_fields issue && has_only (issue_fields ++ optional_issue_fields) issue))
      malformed
  traverse (check_issue_field issue) issue_fields
  check_issue_requirement (get_member (codes "requirement") issue)
validate_issue _ = err malformed

unfoldable pub validate_issues : Option Json → Result Exception Unit
unfolding validate_issue
validate_issues (some (array issues)) = traverse validate_issue (items_of issues) >> ok tt
validate_issues _ = err malformed

-- `value not in {"complete", "partial"}`: an array or an object has no hash, which is a `TypeError`.
unfoldable pub check_state : Option Json → Result Exception Unit
check_state (some (string value)) =
    raise_if (not (contains (codes "complete" ∷ codes "partial" ∷ []) value)) malformed
check_state (some (array _)) = err other
check_state (some (object _)) = err other
check_state _ = err malformed

abbrev pub skills_of : Option Json → Result Exception (List Json)
skills_of (some (array skills)) = ok (items_of skills)
skills_of _ = err malformed

abbrev pub is_publishable : Text → ParsedEntry → Bool
is_publishable requirement parsed =
    parsed.entry.requirement == requirement
    && parsed.desired
    && contains publishable_statuses parsed.status

-- The loop of `resolve_entry`.
unfoldable pub first_publishable :
    Text → List ParsedEntry → Result Exception ContributionLockfileEntry
first_publishable requirement [] =
    err (contribution (contribution_lockfile_entry_not_found requirement))
first_publishable requirement (parsed ∷ entries) =
    if is_publishable requirement parsed
    then ok (parsed.entry)
    else first_publishable requirement entries

module _ (L : LockfileLibrary) where
  abbrev pub is_version : Option Json → Bool
  is_version (some (natural n)) = n == schema_version
  is_version (some (fraction literal)) = L.float_equals literal schema_version
  is_version _ = false

  unfoldable pub entry_from_json : Json → Result Exception ParsedEntry
  unfolding required_str required_int required_bool require_digest
  entry_from_json (object entry) = do
    raise_if (not (has_members entry_fields entry)) malformed
    raise_if (not (has_only (entry_fields ++ optional_entry_fields) entry)) malformed
    source ← required_str entry (codes "source")
    source_type ← required_str entry (codes "source_type")
    raise_if (source_type == codes "local_git_repo") malformed
    catch (require_safe_persisted_source L.urls source source_type) (λ e. malformed)
    target_id ← required_str entry (codes "target_id")
    installed_tree_digest ← required_str entry (codes "installed_tree_digest")
    require_digest target_id
    require_digest installed_tree_digest
    desired ← required_bool entry (codes "desired")
    status ← required_str entry (codes "status")
    raise_if
        (not
          (contains (codes "materialized" ∷ codes "local_changes" ∷ codes "retained" ∷ []) status))
        malformed
    requirement ← required_str entry (codes "requirement")
    index_name ← required_str entry (codes "index_name")
    skill_name ← required_str entry (codes "skill_name")
    target ← required_str entry (codes "target")
    source_revision ← required_str entry (codes "source_revision")
    source_branch ← required_str entry (codes "source_branch")
    index_digest ← required_str entry (codes "index_digest")
    skill_path ← required_str entry (codes "skill_path")
    skill_file ← required_str entry (codes "skill_file")
    index_schema_version ← required_int entry (codes "index_schema_version")
    checked ←
        catch
          (check_lockfile_entry (record {
            requirement = requirement;
            index_name = index_name;
            skill_name = skill_name;
            target = target;
            source = source;
            source_type = source_type;
            source_revision = source_revision;
            source_branch = source_branch;
            index_digest = index_digest;
            skill_path = skill_path;
            skill_file = skill_file;
            index_schema_version = index_schema_version;
            installed_tree_digest = installed_tree_digest;
          }))
          (λ e. malformed)
    ok (record { entry = checked; desired = desired; status = status })
  entry_from_json _ = err malformed

  -- `_read_entries`, of what the path holds
  unfoldable pub read_entries : LockfileContent → Result Exception (List ParsedEntry)
  unfolding read_payload validate_issues entry_from_json check_state
  read_entries content = do
    payload ← read_payload content
    raise_if (not (is_version (get_member (codes "schema_version") payload))) malformed
    raise_if (not (has_members root_fields payload && has_only root_fields payload)) malformed
    required_str payload (codes "requirements_file")
    check_state (get_member (codes "state") payload)
    validate_issues (get_member (codes "issues") payload)
    skills ← skills_of (get_member (codes "skills") payload)
    traverse entry_from_json skills

  unfoldable pub resolve_entry :
      ContributionSkillReference → LockfileContent → Result Exception ContributionLockfileEntry
  unfolding read_entries first_publishable
  resolve_entry reference content = do
    entries ← read_entries content
    first_publishable reference.requirement entries
