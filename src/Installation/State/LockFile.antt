-- ===== src/Installation/State/LockFile.antt =====
-- The document `ritebook.lock`, written by a sync and read as the ownership of the next.
use ritebook.Prelude.{
  ◌≡◌, refl, sym, ap, ◌∙◌, Bool, true, false, List, [], ◌∷◌, ◌++◌, ok, some, All, All-implies,
  All-both, traverse, traverse-eq-ok, traverse-map, map, >>=-eq-ok, catch-eq-ok,
}
use ritebook.Prelude.{list_beq, list_eq, nat_eq, ◌==◌}
use ritebook.Prelude.Sorting.{sorted, sorted-All}
use ritebook.Text.{Text, codes}
use ritebook.Json.{Json, string, items_of-to_items, get_member, has_members, has_only, keys}
use ritebook.Installation.Records.{
  OwnedInstallation, GeneratedStateFile, ReconciliationIssue, check_reconciliation_issue,
}
use ritebook.Installation.State.Documents.{
  StateLibrary, by_target_id, by_issue, is_complete, state_text, lock_root, lock_entry_to_json,
  issue_to_json, require_portable_source, lock_document, lockfile,
}
use ritebook.Installation.State.Reading.{
  bytes, have_distinct_targets, check_lock_state, validate_lock_issue, validate_lock_issues,
  lock_owned_from_json, read_lockfile_ownership,
}
use ritebook.Installation.State.Snapshots.{kept, checked_snapshot-sorted}
use ritebook.Installation.State.OwnershipFile.{IsReadable, check_generated_state_file-eq-ok}
use ritebook.Installation.State.LockEntries.{
  IsLocked, lock_owned_from_json-lock_entry_to_json, validate_lock_issue-issue_to_json,
}

check_lock_state-state_text : (b : Bool) → check_lock_state (some (string (state_text b))) ≡ ok tt
unfolding check_lock_state list_beq
check_lock_state-state_text true = refl
check_lock_state-state_text false = refl

map_same : (xs : List OwnedInstallation) → map (λ e. e) xs ≡ xs
map_same [] = refl
map_same (x ∷ xs) = ap (◌∷◌ x) (map_same xs)

module _ (L : StateLibrary) (root : Text) where
  entries_read :
      (entries : List OwnedInstallation) {us : List Unit}
      → All (IsLocked L root) entries
      → traverse (require_portable_source L) entries ≡ ok us
      → traverse
          (lock_owned_from_json L root)
          (map lock_entry_to_json (sorted by_target_id entries))
        ≡ ok (sorted by_target_id entries)
  entries_read entries locked portable =
      let both =
        All-both (IsLocked L root) _ entries locked
          (traverse-eq-ok (require_portable_source L) entries portable) in
      traverse-map lock_entry_to_json (lock_owned_from_json L root) (λ e. e)
        (sorted by_target_id entries)
        (All-implies _ _ (λ e k. lock_owned_from_json-lock_entry_to_json L root e k.0 k.1.1)
          (sorted by_target_id entries) (sorted-All by_target_id _ entries both))
      ∙ ap ok (map_same (sorted by_target_id entries))

issues_read :
    (issues : List ReconciliationIssue)
    → All (λ i. check_reconciliation_issue i ≡ ok i) issues
    → traverse validate_lock_issue (map issue_to_json (sorted by_issue issues))
      ≡ ok (map (λ i. tt) (sorted by_issue issues))
issues_read issues valid =
    traverse-map issue_to_json validate_lock_issue (λ i. tt) (sorted by_issue issues)
      (All-implies _ _ validate_lock_issue-issue_to_json (sorted by_issue issues)
        (sorted-All by_issue _ issues valid))

module _ (L : StateLibrary) (requirements_file : Text) where
  read_document :
      (entries : List OwnedInstallation) (issues : List ReconciliationIssue) (written_file : Text)
      (document : Json)
      → All (IsLocked L (L.root_of requirements_file)) entries
      → All (λ i. check_reconciliation_issue i ≡ ok i) issues
      → have_distinct_targets entries ≡ true
      → (written_file == []) ≡ false
      → lock_document L entries issues written_file ≡ ok document
      → IsReadable L document
      → read_lockfile_ownership L (bytes (L.json_bytes document)) requirements_file
        ≡ ok (record {
          entries = kept entries;
          digest = some (codes "sha256:" ++ L.sha256_bytes (L.json_bytes document));
        })
  unfolding lock_document read_lockfile_ownership list_beq get_member has_members has_only keys
      validate_lock_issues
  read_document entries issues written_file document locked valid distinct named h readable =
      let (us, portable, h1) = >>=-eq-ok (traverse (require_portable_source L) entries) _ h in
      let skills = map lock_entry_to_json (sorted by_target_id entries) in
      let problems = map issue_to_json (sorted by_issue issues) in
      let complete = is_complete entries (sorted by_issue issues) in
      let same : lock_root written_file complete skills problems ≡ document = cc h1 in
      let loads : L.loads (L.json_bytes document)
          ≡ some (lock_root written_file complete skills problems) =
        readable.loads ∙ ap some (sym same) in
      rw
        (
          loads,
          items_of-to_items skills,
          items_of-to_items problems,
          check_lock_state-state_text complete,
          named,
          issues_read issues valid,
          entries_read L (L.root_of requirements_file) entries locked portable,
          checked_snapshot-sorted L entries _ distinct readable.digest,
        )
        refl

  -- Valid entries of a sync, with distinct targets, which are written to `ritebook.lock` beside valid
  -- issues, are read back from it as the ownership of the next sync of the same requirements: those
  -- that are desired, in the order of their targets' identifiers, with the digest of the file. Each
  -- target is a relative path in normal form, other than `.`, with no step up and no backslash; the
  -- entry's identifier is that of its target, and its place that target below the root of the
  -- requirements. The document's bytes are taken to be read as the document.
  pub read_lockfile_ownership-lockfile :
      (entries : List OwnedInstallation) (issues : List ReconciliationIssue)
      (path written_file : Text) (document : Json) {file : GeneratedStateFile}
      → All (IsLocked L (L.root_of requirements_file)) entries
      → All (λ i. check_reconciliation_issue i ≡ ok i) issues
      → have_distinct_targets entries ≡ true
      → (written_file == []) ≡ false
      → lock_document L entries issues written_file ≡ ok document
      → IsReadable L document
      → lockfile L entries issues path written_file ≡ ok file
      → read_lockfile_ownership L (bytes file.content) requirements_file
        ≡ ok (record {
          entries = kept entries;
          digest = some (codes "sha256:" ++ L.sha256_bytes file.content);
        })
  unfolding lockfile
  read_lockfile_ownership-lockfile entries issues path written_file document {file} locked valid
        distinct named written readable h =
      let h1 = rw written at h in
      let made = check_generated_state_file-eq-ok _ _ (catch-eq-ok _ _ h1) in
      rw (sym made) (
        read_document entries issues written_file document locked valid distinct named written
          readable)
