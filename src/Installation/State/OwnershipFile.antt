-- ===== src/Installation/State/OwnershipFile.antt =====
-- The document of the installations, written and read.
use ritebook.Prelude.{
  ◌≡◌, refl, sym, ap, ◌∙◌, true, List, ◌++◌, ok, some, Option, All, All-implies, traverse,
  ReadsBack, traverse-traverse, >>=-eq-ok, catch-eq-ok, arith,
}
use ritebook.Prelude.{list_beq}
use ritebook.Prelude.Sorting.{sorted, sorted-All}
use ritebook.Text.{Text, codes}
use ritebook.Json.{Json, items_of-to_items, get_member, has_members, has_only, keys}
use ritebook.Installation.Records.{
  OwnedInstallation, GeneratedStateFile, check_owned_installation, require_index_digest,
}
use ritebook.Installation.State.{ownership_entry_to_json, owned_from_json}
use ritebook.Installation.State.RoundTrip.{owned_from_json-ownership_entry_to_json}
use ritebook.Installation.State.Documents.{
  StateLibrary, by_target_id, ownership_document, ownership_root, ownership_file,
  check_generated_state_file,
}
use ritebook.Installation.State.Reading.{bytes, have_distinct_targets, read_ownership}
use ritebook.Installation.State.Snapshots.{kept, checked_snapshot-sorted}

-- What is used of the language's libraries on one content: it is read as the document that it was
-- written from, and its digest has the shape of one.
pub record IsReadable (L : StateLibrary) (document : Json) : Type 0 where
  pub loads : L.loads (L.json_bytes document) ≡ some document
  pub digest :
      require_index_digest (codes "sha256:" ++ L.sha256_bytes (L.json_bytes document)) ≡ ok tt

-- A generated file has the content that it is built with.
pub check_generated_state_file-eq-ok :
    (f g : GeneratedStateFile) → check_generated_state_file f ≡ ok g → f ≡ g
unfolding check_generated_state_file
check_generated_state_file-eq-ok f g h = ground arith

module _ (L : StateLibrary) where
  valid-All :
      (entries : List OwnedInstallation)
      → All (λ e. check_owned_installation e ≡ ok e) entries
      → All (ReadsBack (ownership_entry_to_json L.urls) (owned_from_json L.urls)) entries
  valid-All =
      All-implies _ _ (λ e valid written. owned_from_json-ownership_entry_to_json L.urls e valid)

  read_document :
      (entries : List OwnedInstallation) (document : Json)
      → All (λ e. check_owned_installation e ≡ ok e) entries
      → have_distinct_targets entries ≡ true
      → IsReadable L document
      → ownership_document L entries ≡ ok document
      → read_ownership L (bytes (L.json_bytes document))
        ≡ ok (record {
          entries = kept entries;
          digest = some (codes "sha256:" ++ L.sha256_bytes (L.json_bytes document));
        })
  unfolding ownership_document read_ownership list_beq get_member has_members has_only keys
  read_document entries document valid distinct readable h =
      let (installations, e, h1) =
        >>=-eq-ok (traverse (ownership_entry_to_json L.urls) (sorted by_target_id entries)) _ h in
      let same : ownership_root installations ≡ document = cc h1 in
      let read : traverse (owned_from_json L.urls) installations
          ≡ ok (sorted by_target_id entries) =
        traverse-traverse (ownership_entry_to_json L.urls) (owned_from_json L.urls)
          (sorted by_target_id entries)
          (valid-All (sorted by_target_id entries) (sorted-All by_target_id _ entries valid)) e in
      let loads : L.loads (L.json_bytes document) ≡ some (ownership_root installations) =
        readable.loads ∙ ap some (sym same) in
      rw
        (
          loads,
          items_of-to_items installations,
          read,
          checked_snapshot-sorted L entries _ distinct readable.digest,
        )
        refl

  -- Valid entries with distinct targets that are written to the file of the installations are read
  -- back from it: those that are desired, in the order of their targets' identifiers, with the
  -- digest of the file. The document's bytes are taken to be read as the document.
  pub read_ownership-ownership_file :
      (entries : List OwnedInstallation) (path : Text) (expected_digest : Option Text)
      (document : Json) {file : GeneratedStateFile}
      → All (λ e. check_owned_installation e ≡ ok e) entries
      → have_distinct_targets entries ≡ true
      → ownership_document L entries ≡ ok document
      → IsReadable L document
      → ownership_file L entries path expected_digest ≡ ok file
      → read_ownership L (bytes file.content)
        ≡ ok (record {
          entries = kept entries;
          digest = some (codes "sha256:" ++ L.sha256_bytes file.content);
        })
  unfolding ownership_file
  read_ownership-ownership_file entries path expected_digest document {file} valid distinct written
        readable h =
      let h1 = rw written at h in
      let made = check_generated_state_file-eq-ok _ _ (catch-eq-ok _ _ h1) in
      rw (sym made) (read_document entries document valid distinct readable written)
