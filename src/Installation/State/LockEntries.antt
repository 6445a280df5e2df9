-- ===== src/Installation/State/LockEntries.antt =====
-- An entry and an issue of `ritebook.lock`, written and read.
use ritebook.Prelude.{
  ◌≡◌, refl, sym, ap, ◌∙◌, false, Option, none, some, ok, catch, >>=-eq-ok, raise_if,
  raise_if-eq-ok, traverse, contains,
}
use ritebook.Prelude.{◌==◌, nat_eq, list_eq, list_beq, eq_iff}
use ritebook.Text.{Text, codes, starts_with, has_sub}
use ritebook.Installation.Targets.{posix_text}
use ritebook.Json.{object, no_members, get_member, has_members, has_only, keys}
use ritebook.Kernel.Identifiers.{require_kebab_case_identifier}
use ritebook.Kernel.PortablePaths.{posix_parts}
use ritebook.Installation.References.{require_non_empty, parse}
use ritebook.Installation.Records.{
  OwnedInstallation, sync, check_owned_installation, ReconciliationIssue,
  check_reconciliation_issue, require_optional_non_empty, check_requirement,
}
use ritebook.Installation.State.{malformed, common_members, with_target_ref, require_safe_source}
use ritebook.Installation.State.RoundTrip.{
  IsFull, IsFilled, check_owned_installation-IsFilled, status_value-IsFull, to_status-status_value,
  non_empty-IsFull, kebab-IsFull, reference-IsFull,
}
use ritebook.Installation.State.Documents.{
  StateLibrary, lock_entry_to_json, require_portable_source, target_id_of, issue_to_json,
}
use ritebook.Installation.State.Reading.{
  safe_portable_target, lock_owned_from_json, validate_lock_issue,
}

-- A target that can be taken from one system to another: a relative path in its normal form, other
-- than the directory itself, with no step up and no backslash. On POSIX `_portable_target` lets a
-- backslash through, which the reader refuses.
pub record IsPortable (target : Text) : Type 0 where
  pub normalised : posix_text (posix_parts target) ≡ target
  pub relative : starts_with target (codes "/") ≡ false
  pub descending : contains (posix_parts target) (codes "..") ≡ false
  pub proper : (target == codes ".") ≡ false
  pub plain : has_sub target (codes "\\") ≡ false

-- An entry as a sync records it: the identifier and the place are those of its target below the
-- root of the requirements.
pub record IsLocked (L : StateLibrary) (root : Text) (e : OwnedInstallation) : Type 0 where
  pub valid : check_owned_installation e ≡ ok e
  pub workflow : e.workflow ≡ sync
  pub portable : IsPortable e.target
  pub target_id : e.target_id ≡ target_id_of L e.target
  pub canonical_target : e.canonical_target ≡ L.join_parts root (posix_parts e.target)

safe_portable_target-IsPortable :
    (target : Text) → IsFull target → IsPortable target → safe_portable_target target ≡ ok target
unfolding safe_portable_target IsFull
safe_portable_target-IsPortable target full p =
    rw (p.plain, p.relative, full, p.descending, p.normalised, full, p.proper) refl

module _ (L : StateLibrary) (root : Text) (e : OwnedInstallation) (f : IsFilled e)
    (k : IsLocked L root e) (portable : (e.source_type == codes "local_git_repo") ≡ false)
    (safe : require_safe_source L.urls e.source e.source_type ≡ ok tt) where
  -- The members of an entry, with this target reference, are read as they stand.
  lock_members_read :
      (target_ref : Option Text)
      → require_optional_non_empty target_ref "Target reference" ≡ ok tt
      → lock_owned_from_json L root
          (object (common_members e (with_target_ref target_ref no_members)))
        ≡ catch
            (check_owned_installation (record e {
              workflow = sync;
              canonical_target = L.join_parts root (posix_parts e.target);
              target_ref = target_ref;
            }))
            (λ x. malformed)
  unfolding lock_owned_from_json list_beq IsFull require_optional_non_empty get_member has_members
      has_only keys
  lock_members_read none h = rw (
    f.requirement,
    f.index_name,
    f.skill_name,
    f.target,
    f.target_id,
    f.source,
    f.source_type,
    f.source_revision,
    f.source_branch,
    f.index_digest,
    f.skill_path,
    f.skill_file,
    f.installed_tree_digest,
    safe_portable_target-IsPortable e.target f.target k.portable,
    (eq_iff e.target_id (target_id_of L e.target)).1 k.target_id,
    portable,
    safe,
    status_value-IsFull e.status,
    to_status-status_value e.status,
  )
  lock_members_read (some reference) h = rw (
    f.requirement,
    f.index_name,
    f.skill_name,
    f.target,
    f.target_id,
    f.source,
    f.source_type,
    f.source_revision,
    f.source_branch,
    f.index_digest,
    f.skill_path,
    f.skill_file,
    f.installed_tree_digest,
    safe_portable_target-IsPortable e.target f.target k.portable,
    (eq_iff e.target_id (target_id_of L e.target)).1 k.target_id,
    portable,
    safe,
    status_value-IsFull e.status,
    to_status-status_value e.status,
    non_empty-IsFull reference _ h,
  )

-- What is written of an entry of a sync is read back as that entry.
pub lock_owned_from_json-lock_entry_to_json :
    (L : StateLibrary) (root : Text) (e : OwnedInstallation)
    → IsLocked L root e
    → require_portable_source L e ≡ ok tt
    → lock_owned_from_json L root (lock_entry_to_json e) ≡ ok e
unfolding lock_entry_to_json require_portable_source
lock_owned_from_json-lock_entry_to_json L root e k h =
    let (filled, reference) = check_owned_installation-IsFilled e e k.valid in
    let (u, portable, safe) =
      >>=-eq-ok (raise_if (e.source_type == codes "local_git_repo") malformed) _ h in
    let same : record e {
      workflow = sync;
      canonical_target = L.join_parts root (posix_parts e.target);
    }
        ≡ e =
      λ i. record e { workflow = sym k.workflow i; canonical_target = sym k.canonical_target i } in
    lock_members_read L root e filled k (raise_if-eq-ok _ _ portable) safe e.target_ref reference
    ∙ (ap (λ o. catch (check_owned_installation o) (λ x. malformed)) same
        ∙ ap (λ r. catch r (λ x. malformed)) k.valid)

module _ (i : ReconciliationIssue) (code : IsFull i.code) (target : IsFull i.target)
    (detail : IsFull i.detail) where
  issue_read :
      (requirement : Option Text) {u : Unit}
      → check_requirement requirement ≡ ok u
      → validate_lock_issue (issue_to_json (record i { requirement = requirement })) ≡ ok tt
  unfolding issue_to_json validate_lock_issue list_beq IsFull get_member has_members has_only keys
      traverse
  issue_read none h = rw (code, target, detail)
  issue_read (some requirement) h =
      let (_, parsed, _) = >>=-eq-ok (parse requirement) _ h in
      rw (code, target, detail, reference-IsFull requirement parsed)

-- An issue that is written is one that the reader accepts.
pub validate_lock_issue-issue_to_json :
    (i : ReconciliationIssue)
    → check_reconciliation_issue i ≡ ok i
    → validate_lock_issue (issue_to_json i) ≡ ok tt
unfolding check_reconciliation_issue issue_to_json
validate_lock_issue-issue_to_json i h =
    let (_, code, h1) = >>=-eq-ok (require_kebab_case_identifier i.code "Issue code") _ h in
    let (_, target, h2) = >>=-eq-ok (require_non_empty i.target "Issue target") _ h1 in
    let (_, detail, h3) = >>=-eq-ok (require_non_empty i.detail "Issue detail") _ h2 in
    let (_, requirement, h4) = >>=-eq-ok (check_requirement i.requirement) _ h3 in
    issue_read i (kebab-IsFull _ _ code) (non_empty-IsFull _ _ target) (non_empty-IsFull _ _ detail)
      i.requirement requirement
