-- ===== src/Contribution/Resolution.antt =====
-- The resolution of a reference in the lockfile that a sync writes.
use ritebook.Prelude.{
  ◌≡◌, refl, sym, Bool, true, false, not, List, [], ◌∷◌, ◌++◌, Option, none, some, ok, map, All,
  All-implies, All-both, traverse, traverse-eq-ok, traverse-map, >>=-eq-ok, raise_if,
  raise_if-eq-ok, catch-eq-ok,
}
use ritebook.Prelude.{◌==◌, nat_eq, list_eq, list_beq, contains}
use ritebook.Prelude.Sorting.{sorted, sorted-All}
use ritebook.Text.{Text, codes}
use ritebook.Json.{
  Json, object, no_members, string, items_of-to_items, get_member, has_members, has_only, keys,
}
use ritebook.Kernel.Identifiers.{require_kebab_case_identifier}
use ritebook.Installation.References.{require_non_empty, parse}
use ritebook.Installation.Records.{
  OwnedInstallation, InstallationStatus, materialized, local_changes, retained, ReconciliationIssue,
  check_reconciliation_issue, check_requirement,
}
use ritebook.Installation.State
use ritebook.Installation.State.{common_members, with_target_ref, status_value, require_safe_source}
use ritebook.Installation.State.Checked.{check_owned_installation-Passes}
use ritebook.Installation.State.RoundTrip.{
  IsFull, check_owned_installation-IsFilled, status_value-IsFull, non_empty-IsFull, kebab-IsFull,
  reference-IsFull,
}
use ritebook.Installation.State.Documents.{
  StateLibrary, by_target_id, by_issue, is_complete, state_text, lock_root, lock_entry_to_json,
  issue_to_json, require_portable_source, lock_document,
}
use ritebook.Contribution.Records.{ContributionSkillReference}
use ritebook.Contribution.Lockfile.{
  LockfileLibrary, ParsedEntry, decoded, entry_fields, optional_entry_fields, entry_from_json,
  required_str, require_digest, validate_issue, validate_issues, check_issue_field, check_state,
  read_entries, read_payload, first_publishable, resolve_entry,
}
use ritebook.Contribution.Written.{
  contribution_entry, is_retained, first_contributable, IsShared, digest-matches,
  check_lockfile_entry-contribution_entry,
}

-- The parsed form of an installation that is written.
abbrev parsed_of : OwnedInstallation → ParsedEntry
parsed_of e = record {
  entry = contribution_entry e;
  desired = e.desired;
  status = status_value e.status;
}

abbrev pub reader_of : StateLibrary → LockfileLibrary
reader_of L = record { urls = L.urls; float_equals = L.float_equals }

status-is_known :
    (s : InstallationStatus)
    → contains
        (codes "materialized" ∷ codes "local_changes" ∷ codes "retained" ∷ [])
        (status_value s)
      ≡ true
unfolding list_beq
status-is_known materialized = refl
status-is_known local_changes = refl
status-is_known retained = refl

members_known :
    (e : OwnedInstallation) (target_ref : Option Text)
    → has_only
        (entry_fields ++ optional_entry_fields)
        (common_members e (with_target_ref target_ref no_members))
      ≡ true
unfolding has_only keys list_beq
members_known e none = refl
members_known e (some r) = refl

module _ (L : StateLibrary) (e : OwnedInstallation) (k : IsShared e)
    (portable : (e.source_type == codes "local_git_repo") ≡ false)
    (safe : require_safe_source L.urls e.source e.source_type ≡ ok tt) where
  entry_read :
      (target_ref : Option Text)
      → entry_from_json
          (reader_of L)
          (object (common_members e (with_target_ref target_ref no_members)))
        ≡ ok (parsed_of e)
  unfolding entry_from_json require_digest list_beq IsFull get_member has_members keys
      require_safe_source
  entry_read target_ref =
      let p = check_owned_installation-Passes e e k.valid in
      let (f, _) = check_owned_installation-IsFilled e e k.valid in
      let known = status-is_known e.status in
      let source_ok = catch-eq-ok _ _ safe in
      let target_id = digest-matches e.target_id p.target_id in
      let installed = digest-matches e.installed_tree_digest p.installed_tree_digest in
      let checked = check_lockfile_entry-contribution_entry e k in
      rw (
        members_known e target_ref,
        f.requirement,
        f.index_name,
        f.skill_name,
        f.target,
        f.target_id,
        f.source,
        f.source_type,
        f.source_revision,
        f.source_branch,
        f.index_digest,
        f.skill_path,
        f.skill_file,
        f.installed_tree_digest,
        portable,
        source_ok,
        target_id,
        installed,
        status_value-IsFull e.status,
        known,
        checked,
      )

-- The entry of an installation, in a lockfile, is read as what a contribution keeps of it.
entry_from_json-lock_entry_to_json :
    (L : StateLibrary) (e : OwnedInstallation)
    → IsShared e
    → require_portable_source L e ≡ ok tt
    → entry_from_json (reader_of L) (lock_entry_to_json e) ≡ ok (parsed_of e)
unfolding lock_entry_to_json require_portable_source
entry_from_json-lock_entry_to_json L e k h =
    let (u, portable, safe) =
      >>=-eq-ok (raise_if (e.source_type == codes "local_git_repo") State.malformed) _ h in
    entry_read L e k (raise_if-eq-ok _ _ portable) safe e.target_ref

module _ (i : ReconciliationIssue) (code : IsFull i.code) (target : IsFull i.target)
    (detail : IsFull i.detail) where
  issue_read :
      (requirement : Option Text) {u : Unit}
      → check_requirement requirement ≡ ok u
      → validate_issue (issue_to_json (record i { requirement = requirement })) ≡ ok tt
  unfolding issue_to_json validate_issue check_issue_field required_str list_beq IsFull get_member
      has_members has_only keys traverse
  issue_read none h = rw (code, target, detail)
  issue_read (some requirement) h =
      let (_, parsed, _) = >>=-eq-ok (parse requirement) _ h in
      rw (code, target, detail, reference-IsFull requirement parsed)

validate_issue-issue_to_json :
    (i : ReconciliationIssue)
    → check_reconciliation_issue i ≡ ok i
    → validate_issue (issue_to_json i) ≡ ok tt
unfolding check_reconciliation_issue
validate_issue-issue_to_json i h =
    let (_, code, h1) = >>=-eq-ok (require_kebab_case_identifier i.code "Issue code") _ h in
    let (_, target, h2) = >>=-eq-ok (require_non_empty i.target "Issue target") _ h1 in
    let (_, detail, h3) = >>=-eq-ok (require_non_empty i.detail "Issue detail") _ h2 in
    let (_, requirement, h4) = >>=-eq-ok (check_requirement i.requirement) _ h3 in
    issue_read i (kebab-IsFull _ _ code) (non_empty-IsFull _ _ target) (non_empty-IsFull _ _ detail)
      i.requirement requirement

check_state-state_text : (b : Bool) → check_state (some (string (state_text b))) ≡ ok tt
unfolding check_state list_beq
check_state-state_text true = refl
check_state-state_text false = refl

status-is_publishable :
    (s : InstallationStatus)
    → contains (codes "materialized" ∷ codes "local_changes" ∷ []) (status_value s)
      ≡ not (is_retained s)
unfolding list_beq
status-is_publishable materialized = refl
status-is_publishable local_changes = refl
status-is_publishable retained = refl

first_publishable-map :
    (requirement : Text) (entries : List OwnedInstallation)
    → first_publishable requirement (map parsed_of entries)
      ≡ first_contributable requirement entries
unfolding first_publishable first_contributable
first_publishable-map requirement [] = refl
first_publishable-map requirement (e ∷ entries) =
    rw (status-is_publishable e.status, first_publishable-map requirement entries) refl

-- In the document that a sync writes of entries that a contribution can take, and of valid issues,
-- a reference resolves to the first installation of its requirement, in the order of the targets'
-- identifiers, that is desired and not retained; if there is none, the entry is not found.
pub resolve_entry-lock_document :
    (L : StateLibrary) (reference : ContributionSkillReference) (entries : List OwnedInstallation)
    (issues : List ReconciliationIssue) (requirements_file : Text) (document : Json)
    → All IsShared entries
    → All (λ i. check_reconciliation_issue i ≡ ok i) issues
    → (requirements_file == []) ≡ false
    → lock_document L entries issues requirements_file ≡ ok document
    → resolve_entry (reader_of L) reference (decoded document)
      ≡ first_contributable reference.requirement (sorted by_target_id entries)
unfolding lock_document resolve_entry read_entries read_payload list_beq get_member has_members
    has_only keys validate_issues required_str
resolve_entry-lock_document L reference entries issues requirements_file document shared valid named
      h =
    let (us, portable, h1) = >>=-eq-ok (traverse (require_portable_source L) entries) _ h in
    let skills = map lock_entry_to_json (sorted by_target_id entries) in
    let problems = map issue_to_json (sorted by_issue issues) in
    let complete = is_complete entries (sorted by_issue issues) in
    let same : lock_root requirements_file complete skills problems ≡ document = cc h1 in
    let both =
      All-both IsShared _ entries shared
        (traverse-eq-ok (require_portable_source L) entries portable) in
    let read : traverse (entry_from_json (reader_of L)) skills
        ≡ ok (map parsed_of (sorted by_target_id entries)) =
      traverse-map lock_entry_to_json (entry_from_json (reader_of L)) parsed_of
        (sorted by_target_id entries)
        (All-implies _ _ (λ e k. entry_from_json-lock_entry_to_json L e k.0 k.1.1)
          (sorted by_target_id entries) (sorted-All by_target_id _ entries both)) in
    let accepted : traverse validate_issue problems ≡ ok (map (λ i. tt) (sorted by_issue issues)) =
      traverse-map issue_to_json validate_issue (λ i. tt) (sorted by_issue issues)
        (All-implies _ _ validate_issue-issue_to_json (sorted by_issue issues)
          (sorted-All by_issue _ issues valid)) in
    rw
      (
        sym same,
        items_of-to_items skills,
        items_of-to_items problems,
        check_state-state_text complete,
        named,
        accepted,
        read,
        first_publishable-map reference.requirement (sorted by_target_id entries),
      )
      refl
