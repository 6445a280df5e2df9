-- ===== src/Installation/State/Checked.antt =====
-- The checks of an owned installation, one by one.
use ritebook.Prelude.{◌≡◌, ok, >>=-eq-ok, raise_if, raise_if-eq-ok, not, true, arith}
use ritebook.Prelude.{◌==◌, nat_eq}
use ritebook.Text.{Text}
use ritebook.Kernel.Errors.{unsupported_schema_version}
use ritebook.Kernel.Identifiers.{require_index_name, require_kebab_case_identifier}
use ritebook.Kernel.GitBranches.{require_canonical_git_branch}
use ritebook.Installation.References.{SkillReference, parse, require_non_empty}
use ritebook.Installation.Records.{
  OwnedInstallation, check_owned_installation, require_source_revision, require_index_digest,
  require_optional_non_empty,
}

pub record Passes (e : OwnedInstallation) : Type 0 where
  pub reference : SkillReference
  pub requirement : parse e.requirement ≡ ok reference
  pub index_name : require_index_name e.index_name "Local alias" ≡ ok tt
  pub skill_name : require_kebab_case_identifier e.skill_name "Skill name" ≡ ok tt
  pub target : require_non_empty e.target "Portable target" ≡ ok tt
  pub target_id : require_index_digest e.target_id ≡ ok tt
  pub canonical_target : require_non_empty e.canonical_target "Canonical target" ≡ ok tt
  pub source : require_non_empty e.source "Index source" ≡ ok tt
  pub source_type : require_non_empty e.source_type "Index source type" ≡ ok tt
  pub source_revision : require_source_revision e.source_revision ≡ ok tt
  pub branch : Text
  pub source_branch : require_canonical_git_branch e.source_branch "Source branch" ≡ ok branch
  pub index_digest : require_index_digest e.index_digest ≡ ok tt
  pub skill_path : require_non_empty e.skill_path "Skill path" ≡ ok tt
  pub skill_file : require_non_empty e.skill_file "Skill file" ≡ ok tt
  pub installed_tree_digest : require_index_digest e.installed_tree_digest ≡ ok tt
  pub target_ref : require_optional_non_empty e.target_ref "Target reference" ≡ ok tt
  pub index_schema_version : (e.index_schema_version == 1) ≡ true

pub check_owned_installation-Passes :
    (e e' : OwnedInstallation) → check_owned_installation e ≡ ok e' → Passes e
unfolding check_owned_installation
check_owned_installation-Passes e e' h =
    let (reference, requirement, h1) = >>=-eq-ok (parse e.requirement) _ h in
    let (_, index_name, h2) = >>=-eq-ok (require_index_name e.index_name "Local alias") _ h1 in
    let (_, skill_name, h3) =
      >>=-eq-ok (require_kebab_case_identifier e.skill_name "Skill name") _ h2 in
    let (_, target, h4) = >>=-eq-ok (require_non_empty e.target "Portable target") _ h3 in
    let (_, target_id, h5) = >>=-eq-ok (require_index_digest e.target_id) _ h4 in
    let (_, canonical_target, h6) =
      >>=-eq-ok (require_non_empty e.canonical_target "Canonical target") _ h5 in
    let (_, source, h7) = >>=-eq-ok (require_non_empty e.source "Index source") _ h6 in
    let (_, source_type, h8) =
      >>=-eq-ok (require_non_empty e.source_type "Index source type") _ h7 in
    let (_, source_revision, h9) = >>=-eq-ok (require_source_revision e.source_revision) _ h8 in
    let (branch, source_branch, h10) =
      >>=-eq-ok (require_canonical_git_branch e.source_branch "Source branch") _ h9 in
    let (_, index_digest, h11) = >>=-eq-ok (require_index_digest e.index_digest) _ h10 in
    let (_, skill_path, h12) = >>=-eq-ok (require_non_empty e.skill_path "Skill path") _ h11 in
    let (_, skill_file, h13) = >>=-eq-ok (require_non_empty e.skill_file "Skill file") _ h12 in
    let (_, installed_tree_digest, h14) =
      >>=-eq-ok (require_index_digest e.installed_tree_digest) _ h13 in
    let (_, target_ref, h15) =
      >>=-eq-ok (require_optional_non_empty e.target_ref "Target reference") _ h14 in
    let (_, version, _) =
      >>=-eq-ok (raise_if (not (e.index_schema_version == 1)) unsupported_schema_version) _ h15 in
    record {
      reference = reference;
      requirement = requirement;
      index_name = index_name;
      branch = branch;
      skill_name = skill_name;
      target = target;
      target_id = target_id;
      canonical_target = canonical_target;
      source = source;
      source_type = source_type;
      source_revision = source_revision;
      source_branch = source_branch;
      index_digest = index_digest;
      skill_path = skill_path;
      skill_file = skill_file;
      installed_tree_digest = installed_tree_digest;
      target_ref = target_ref;
      index_schema_version = ground (arith, raise_if-eq-ok _ _ version);
    }
