-- ===== src/Installation/State/RoundTrip.antt =====
-- The writer and the reader of an entry of the ownership state.
use ritebook.Prelude.{
  ◌≡◌, refl, sym, ap, ◌∙◌, false, [], ◌∷◌, Option, none, some, String, ok, catch, list_beq,
  >>=-eq-ok, arith,
}
use ritebook.Prelude.{◌==◌, nat_eq, list_eq}
use ritebook.Text.{Text, split, starts_with}
use ritebook.Json.{Json, object}
use ritebook.Kernel.GitSources.{require_safe_persisted_source}
use ritebook.Kernel.GitSources.{UrlLibrary}
use ritebook.Kernel.GitBranches.{require_canonical_git_branch}
use ritebook.Kernel.Identifiers.{
  require_index_name, is_index_name, require_kebab_case_identifier, is_kebab_case_identifier,
}
use ritebook.Installation.References.{require_non_empty, parse, SkillReference}
use ritebook.Installation.Records.{
  OwnedInstallation, InstallationWorkflow, direct, sync, InstallationStatus, materialized,
  local_changes, retained, check_owned_installation, require_source_revision, require_index_digest,
  require_optional_non_empty,
}
use ritebook.Installation.State.Checked.{check_owned_installation-Passes}
use ritebook.Installation.State.{
  malformed, workflow_value, status_value, to_workflow, to_status, require_safe_source,
  ownership_entry_to_json, owned_from_json, with_target_ref, common_members, last_members,
}

unfoldable pub IsFull : Text → Type 0
IsFull value = (value == []) ≡ false

module _ (value : Text) where
  pub non_empty-IsFull : (f : String) {u : Unit} → require_non_empty value f ≡ ok u → IsFull value
  unfolding require_non_empty IsFull
  non_empty-IsFull f h = ground arith

index_name-IsFull :
    (value : Text) (f : String) {u : Unit} → require_index_name value f ≡ ok u → IsFull value
unfolding require_index_name is_index_name list_beq IsFull
index_name-IsFull [] f h = ground arith
index_name-IsFull (c ∷ value) f h = refl

pub kebab-IsFull :
    (value : Text) (f : String) {u : Unit}
    → require_kebab_case_identifier value f ≡ ok u
    → IsFull value
unfolding require_kebab_case_identifier is_kebab_case_identifier list_beq IsFull
kebab-IsFull [] f h = ground arith
kebab-IsFull (c ∷ value) f h = refl

revision-IsFull : (value : Text) {u : Unit} → require_source_revision value ≡ ok u → IsFull value
unfolding require_source_revision list_beq IsFull
revision-IsFull [] h = ground arith
revision-IsFull (c ∷ value) h = refl

digest-IsFull : (value : Text) {u : Unit} → require_index_digest value ≡ ok u → IsFull value
unfolding require_index_digest list_beq IsFull starts_with
digest-IsFull [] h = ground arith
digest-IsFull (c ∷ value) h = refl

branch-IsFull :
    (value : Text) (f : String) {u : Text}
    → require_canonical_git_branch value f ≡ ok u
    → IsFull value
unfolding require_canonical_git_branch list_beq IsFull starts_with
branch-IsFull [] f h = ground arith
branch-IsFull (c ∷ value) f h = refl

pub reference-IsFull : (value : Text) {r : SkillReference} → parse value ≡ ok r → IsFull value
unfolding parse list_beq IsFull split
reference-IsFull [] h = ground arith
reference-IsFull (c ∷ value) h = refl

-- The texts of a valid entry are not empty.
pub record IsFilled (e : OwnedInstallation) : Type 0 where
  pub requirement : IsFull e.requirement
  pub index_name : IsFull e.index_name
  pub skill_name : IsFull e.skill_name
  pub target : IsFull e.target
  pub target_id : IsFull e.target_id
  pub canonical_target : IsFull e.canonical_target
  pub source : IsFull e.source
  pub source_type : IsFull e.source_type
  pub source_revision : IsFull e.source_revision
  pub source_branch : IsFull e.source_branch
  pub index_digest : IsFull e.index_digest
  pub skill_path : IsFull e.skill_path
  pub skill_file : IsFull e.skill_file
  pub installed_tree_digest : IsFull e.installed_tree_digest

pub check_owned_installation-IsFilled :
    (e e' : OwnedInstallation)
    → check_owned_installation e ≡ ok e'
    → IsFilled e × (require_optional_non_empty e.target_ref "Target reference" ≡ ok tt)
check_owned_installation-IsFilled e e' h =
    let p = check_owned_installation-Passes e e' h in
    (
      record {
        requirement = reference-IsFull _ p.requirement;
        index_name = index_name-IsFull _ _ p.index_name;
        skill_name = kebab-IsFull _ _ p.skill_name;
        target = non_empty-IsFull _ _ p.target;
        target_id = digest-IsFull _ p.target_id;
        canonical_target = non_empty-IsFull _ _ p.canonical_target;
        source = non_empty-IsFull _ _ p.source;
        source_type = non_empty-IsFull _ _ p.source_type;
        source_revision = revision-IsFull _ p.source_revision;
        source_branch = branch-IsFull _ _ p.source_branch;
        index_digest = digest-IsFull _ p.index_digest;
        skill_path = non_empty-IsFull _ _ p.skill_path;
        skill_file = non_empty-IsFull _ _ p.skill_file;
        installed_tree_digest = digest-IsFull _ p.installed_tree_digest;
      },
      p.target_ref,
    )

to_workflow-workflow_value : (w : InstallationWorkflow) → to_workflow (workflow_value w) ≡ ok w
unfolding to_workflow list_beq
to_workflow-workflow_value direct = refl
to_workflow-workflow_value sync = refl

pub to_status-status_value : (s : InstallationStatus) → to_status (status_value s) ≡ ok s
unfolding to_status list_beq
to_status-status_value materialized = refl
to_status-status_value local_changes = refl
to_status-status_value retained = refl

workflow_value-IsFull : (w : InstallationWorkflow) → IsFull (workflow_value w)
unfolding list_beq IsFull
workflow_value-IsFull direct = refl
workflow_value-IsFull sync = refl

pub status_value-IsFull : (s : InstallationStatus) → IsFull (status_value s)
unfolding list_beq IsFull
status_value-IsFull materialized = refl
status_value-IsFull local_changes = refl
status_value-IsFull retained = refl

module _ (U : UrlLibrary) (e : OwnedInstallation) (f : IsFilled e) {u : Unit}
    (safe : catch (require_safe_persisted_source U e.source e.source_type) (λ x. malformed)
      ≡ ok u) where
  -- The members of an entry, with this target reference, are read as they stand.
  members_read :
      (target_ref : Option Text)
      → require_optional_non_empty target_ref "Target reference" ≡ ok tt
      → owned_from_json U (object (common_members e (with_target_ref target_ref (last_members e))))
        ≡ catch (check_owned_installation (record e { target_ref = target_ref })) (λ x. malformed)
  unfolding owned_from_json list_beq IsFull require_optional_non_empty
  members_read none h = rw (
    f.requirement,
    f.index_name,
    f.skill_name,
    f.target,
    f.target_id,
    f.canonical_target,
    f.source,
    f.source_type,
    f.source_revision,
    f.source_branch,
    f.index_digest,
    f.skill_path,
    f.skill_file,
    f.installed_tree_digest,
    safe,
    workflow_value-IsFull e.workflow,
    to_workflow-workflow_value e.workflow,
    status_value-IsFull e.status,
    to_status-status_value e.status,
  )
  members_read (some reference) h = rw (
    f.requirement,
    f.index_name,
    f.skill_name,
    f.target,
    f.target_id,
    f.canonical_target,
    f.source,
    f.source_type,
    f.source_revision,
    f.source_branch,
    f.index_digest,
    f.skill_path,
    f.skill_file,
    f.installed_tree_digest,
    safe,
    workflow_value-IsFull e.workflow,
    to_workflow-workflow_value e.workflow,
    status_value-IsFull e.status,
    to_status-status_value e.status,
    non_empty-IsFull reference _ h,
  )

-- What is written of a valid entry of the ownership state is read back as that entry.
pub owned_from_json-ownership_entry_to_json :
    (U : UrlLibrary) (e : OwnedInstallation) {written : Json}
    → check_owned_installation e ≡ ok e
    → ownership_entry_to_json U e ≡ ok written
    → owned_from_json U written ≡ ok e
unfolding ownership_entry_to_json
owned_from_json-ownership_entry_to_json U e {written} valid h =
    let (filled, reference) = check_owned_installation-IsFilled e e valid in
    let (u, safe, h1) = >>=-eq-ok (require_safe_source U e.source e.source_type) _ h in
    let same : (object (common_members e (with_target_ref e.target_ref (last_members e)))
        ≡ written) =
      cc h1 in
    rw (sym same) (
      members_read U e filled safe e.target_ref reference
      ∙ ap (λ r. catch r (λ x. malformed)) valid)
