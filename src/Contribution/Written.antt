-- ===== src/Contribution/Written.antt =====
-- The lockfile that a sync writes, as the reader of contributions takes it.
use ritebook.Prelude.{
  ℕ, ◌≡◌, ap, ◌∙◌, Bool, true, false, ◌&&◌, not, List, [], ◌∷◌, Result, ok, err, arith,
  raise_if-eq-ok, ltb,
}
use ritebook.Prelude.{◌==◌, nat_eq, list_eq, list_beq, eq_iff, if◌then◌else◌}
use ritebook.Text.{Text}
use ritebook.Installation.References
use ritebook.Installation.References.{SkillReference}
use ritebook.Installation.Records.{
  OwnedInstallation, InstallationStatus, retained, check_owned_installation,
  require_source_revision, require_index_digest,
}
use ritebook.Installation.State.Checked.{check_owned_installation-Passes}
use ritebook.Installation.State.RoundTrip.{IsFull, check_owned_installation-IsFilled}
use ritebook.Contribution.Errors.{Exception, contribution, contribution_lockfile_entry_not_found}
use ritebook.Contribution.Records.{
  ContributionLockfileEntry, parse, check_lockfile_entry, matches_index_digest,
  matches_git_object_id, require_safe_repository_path, require_non_empty,
}
use ritebook.Contribution.References.{parse-as_contributed, as_contributed}

-- What a contribution keeps of an installation.
abbrev pub contribution_entry : OwnedInstallation → ContributionLockfileEntry
contribution_entry e = record {
  requirement = e.requirement;
  index_name = e.index_name;
  skill_name = e.skill_name;
  target = e.target;
  source = e.source;
  source_type = e.source_type;
  source_revision = e.source_revision;
  source_branch = e.source_branch;
  index_digest = e.index_digest;
  skill_path = e.skill_path;
  skill_file = e.skill_file;
  index_schema_version = e.index_schema_version;
  installed_tree_digest = e.installed_tree_digest;
}

abbrev pub is_retained : InstallationStatus → Bool
is_retained retained = true
is_retained _ = false

-- An installation whose change can be contributed under a requirement.
abbrev pub is_contributable : Text → OwnedInstallation → Bool
is_contributable requirement e =
    e.requirement == requirement && e.desired && not (is_retained e.status)

-- The first of them.
unfoldable pub first_contributable :
    Text → List OwnedInstallation → Result Exception ContributionLockfileEntry
first_contributable requirement [] =
    err (contribution (contribution_lockfile_entry_not_found requirement))
first_contributable requirement (e ∷ entries) =
    if is_contributable requirement e
    then ok (contribution_entry e)
    else first_contributable requirement entries

-- An installation that both components take: its paths in the repository have only the characters
-- that a contribution allows.
pub record IsShared (e : OwnedInstallation) : Type 0 where
  pub valid : check_owned_installation e ≡ ok e
  pub skill_path : require_safe_repository_path e.skill_path "Skill path" ≡ ok tt
  pub skill_file : require_safe_repository_path e.skill_file "Skill file" ≡ ok tt

requirement_parses :
    (value : Text) {r : SkillReference}
    → References.parse value ≡ ok r
    → parse value ≡ as_contributed (ok r)
requirement_parses value h = parse-as_contributed value ∙ ap as_contributed h

revision-matches :
    (value : Text) {u : Unit}
    → require_source_revision value ≡ ok u
    → matches_git_object_id value ≡ true
unfolding require_source_revision matches_git_object_id
revision-matches value h = ground (arith, raise_if-eq-ok _ _ h)

pub digest-matches :
    (value : Text) {u : Unit}
    → require_index_digest value ≡ ok u
    → matches_index_digest value ≡ true
unfolding require_index_digest matches_index_digest
digest-matches value h = ground (arith, raise_if-eq-ok _ _ h)

version_is_positive : (n : ℕ) → (n == 1) ≡ true → ltb n 1 ≡ false
version_is_positive n h = ground (arith, eq_iff n 1)

pub check_lockfile_entry-contribution_entry :
    (e : OwnedInstallation)
    → IsShared e
    → check_lockfile_entry (contribution_entry e) ≡ ok (contribution_entry e)
unfolding check_lockfile_entry require_non_empty IsFull list_beq
check_lockfile_entry-contribution_entry e k =
    let p = check_owned_installation-Passes e e k.valid in
    let (f, _) = check_owned_installation-IsFilled e e k.valid in
    rw (
      requirement_parses e.requirement p.requirement,
      p.index_name,
      p.skill_name,
      f.target,
      f.source,
      f.source_type,
      revision-matches e.source_revision p.source_revision,
      p.source_branch,
      digest-matches e.index_digest p.index_digest,
      digest-matches e.installed_tree_digest p.installed_tree_digest,
      k.skill_path,
      k.skill_file,
      version_is_positive e.index_schema_version p.index_schema_version,
    )
