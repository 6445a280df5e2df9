-- ===== src/Tests/Sync.antt =====
-- The properties of a sync at runs against a file system in memory.
mod Memory
mod Whole
use ritebook.Prelude.{
  ℕ, ◌≡◌, refl, ◌≢◌, Bool, true, false, List, [], ◌∷◌, ◌++◌, Option, none, some, ok, err, arith,
}
use ritebook.Prelude.{
  ◌==◌, nat_eq, list_eq, option_eq, eq_iff, eq_refl, if◌then◌else◌, is_some, All, length,
  Bool-cases,
}
use ritebook.Prelude.{inl, inr, Result, list_beq, ◌↔◌, sym, ap, filter, any, contains}
use ritebook.Prelude.Actions.{Action, ◌>>=◌}
use ritebook.Text.{
  Text, codes, split, split_once, starts_with, ends_with, has_sub, remove_prefix, join,
}
use ritebook.Installation.Errors.{Exception, installation, installation_persistence, other}
use ritebook.Installation.Records.{
  OwnedInstallation, TargetInspection, DesiredInstall, StagedSkillTree, PlannedInstallTarget,
  ResolvedSkillSource, InstallableSkill, RegisteredSkillIndex, SkillRequirements,
  GeneratedStateFile, InstallationStateSnapshot, ReconciliationIssue, CommittedSkillHeader, sync,
  materialized, check_owned_installation, check_reconciliation_issue,
}
use ritebook.Installation.Targets.{
  reject_conflicting_targets, targets_overlap, repository_relative_source_path,
}
use ritebook.Installation.Targets.Overlap.{HasSeparateTargets, reject_conflicting_targets_iff}
use ritebook.Installation.Sync.Ports.{
  SyncPorts, Content, nothing, something_else, tree, is_there, AreApart, IsLawful,
}
use ritebook.Installation.Sync.Outcome.{
  ReconciliationOutcome, owner_of, Staging, nothing_done, call, remember, decide_target,
  is_unchanged, owned_entry, unmanaged_issue,
}
use ritebook.Installation.Sync.Reconcile.{reconcile_desired, reconcile_item, act_on, finish_item}
use ritebook.Installation.Sync.Reconcile.Steps.{target_of, HasPlan}
use ritebook.Installation.Sync.Reconcile.Preservation.{
  IsForeign, IsOrApart, reconcile_desired-preserves, reconcile_desired-others,
}
use ritebook.Installation.Sync.Reconcile.Records.{IsTruthful, handled}
use ritebook.Installation.Sync.Reconcile.Truth.{reconcile_desired-IsTruthful}
use ritebook.Kernel.PortablePaths.{posix_parts, is_malformed_literal}
use ritebook.Kernel.CatalogPaths.{validate_catalog_path}
use ritebook.Kernel.GitBranches.{require_canonical_git_branch}
use ritebook.Kernel.Identifiers.{require_index_name, is_index_name, require_kebab_case_identifier}
use ritebook.Installation.References.{parse}
use Memory.{memory, memory-IsLawful, hex64, new_digest}

abbrev lint_source : ResolvedSkillSource
lint_source = record {
  source = codes "https://example.org/team.git";
  source_type = codes "git_url";
  repository_path = codes "/cache/team";
  source_revision = codes "0123456789abcdef0123456789abcdef01234567";
  source_branch = codes "refs/heads/main";
  index_digest = new_digest;
}

abbrev lint_index : RegisteredSkillIndex
lint_index = record {
  name = codes "team";
  source = codes "https://example.org/team.git";
  source_type = codes "git_url";
  source_revision = codes "0123456789abcdef0123456789abcdef01234567";
  source_branch = codes "refs/heads/main";
  index_digest = new_digest;
  source_cache_path = none;
  cached_index_path = codes "/cache/team.json";
  index_schema_version = 1;
}

abbrev install_at : Text → Text → DesiredInstall
install_at target canonical = record {
  reference = record {
    requirement = codes "team/lint";
    index_name = codes "team";
    skill_path = codes "lint";
    skill_name = codes "lint";
  };
  portable_target = target;
  target_ref = none;
  index = lint_index;
  skill = record {
    name = codes "lint";
    path = codes "lint";
    skill_file = codes "lint/SKILL.md";
    description = codes "Lints.";
    source_root = codes ".";
  };
  source = lint_source;
  planned_target = record { requested_target = canonical; canonical_target = canonical };
}

-- Two targets: one holds a tree of the user, the other is free.
abbrev two_installs : List DesiredInstall
two_installs = install_at (codes "a") (codes "/p/a") ∷ install_at (codes "b") (codes "/p/b") ∷ []

abbrev start : Staging memory
start = record {
  world = λ p.
      if p == codes "/p/a"
      then tree (codes "mine")
      else if p == codes "/p/c"
      then something_else
      else nothing;
  staged_trees = [];
}

reject_conflicting_targets_iff_example :
    (reject_conflicting_targets two_installs ≡ ok tt) ↔ HasSeparateTargets two_installs
reject_conflicting_targets_iff_example = reject_conflicting_targets_iff two_installs

two_installs-HasPlan : All (HasPlan memory) two_installs
two_installs-HasPlan = ((codes "/p/a", start.world, refl), ((codes "/p/b", start.world, refl), tt))

-- The part of a path below its second directory.
abbrev third : List Text → Text
third (x ∷ y ∷ z ∷ parts) = z
third parts = []

c_and_a : AreApart (codes "/p/c") (codes "/p/a")
unfolding posix_parts list_beq filter split starts_with
c_and_a = record {
  not_below = λ rest e. let same : codes "c" ≡ codes "a" = ap third e in ground arith;
  not_above = λ rest e. let same : codes "a" ≡ codes "c" = ap third e in ground arith;
}

c_and_b : AreApart (codes "/p/c") (codes "/p/b")
unfolding posix_parts list_beq filter split starts_with
c_and_b = record {
  not_below = λ rest e. let same : codes "c" ≡ codes "b" = ap third e in ground arith;
  not_above = λ rest e. let same : codes "b" ≡ codes "c" = ap third e in ground arith;
}

a_and_b : AreApart (codes "/p/a") (codes "/p/b")
unfolding posix_parts list_beq filter split starts_with
a_and_b = record {
  not_below = λ rest e. let same : codes "a" ≡ codes "b" = ap third e in ground arith;
  not_above = λ rest e. let same : codes "b" ≡ codes "a" = ap third e in ground arith;
}

reconcile_desired-preserves_example :
    (reconcile_desired memory false [] two_installs nothing_done start).1.world (codes "/p/a")
    ≡ tree (codes "mine")
unfolding owner_of list_beq
reconcile_desired-preserves_example =
    reconcile_desired-preserves memory memory-IsLawful [] two_installs nothing_done start
      (codes "/p/a") (codes "mine") two_installs-HasPlan (inl refl, (inr a_and_b, tt)) tt refl

-- A file that is no tree stays as well.
reconcile_desired-others_example :
    (reconcile_desired memory true [] two_installs nothing_done start).1.world (codes "/p/c")
    ≡ something_else
unfolding list_beq
reconcile_desired-others_example =
    reconcile_desired-others memory memory-IsLawful true [] two_installs nothing_done start
      (codes "/p/c") two_installs-HasPlan (c_and_a, (c_and_b, tt)) refl

separate : reject_conflicting_targets two_installs ≡ ok tt
unfolding reject_conflicting_targets targets_overlap posix_parts list_beq filter split starts_with
separate = refl

abbrev entry_b : OwnedInstallation
entry_b = record {
  workflow = sync;
  requirement = codes "team/lint";
  index_name = codes "team";
  skill_name = codes "lint";
  target = codes "b";
  target_id = codes "sha256:" ++ hex64;
  canonical_target = codes "/p/b";
  source = codes "https://example.org/team.git";
  source_type = codes "git_url";
  source_revision = codes "0123456789abcdef0123456789abcdef01234567";
  source_branch = codes "refs/heads/main";
  index_digest = new_digest;
  index_schema_version = 1;
  skill_path = codes "lint";
  skill_file = codes "lint/SKILL.md";
  installed_tree_digest = new_digest;
  desired = true;
  status = materialized;
  target_ref = none;
}

abbrev finished : ReconciliationOutcome
finished = record {
  entries = entry_b ∷ [];
  issues = unmanaged_issue (install_at (codes "a") (codes "/p/a")) ∷ [];
  installed_count = 1;
  updated_count = 0;
  unchanged_count = 0;
}

abbrev end_state : Staging memory
end_state = (reconcile_desired memory false [] two_installs nothing_done start).1

run : reconcile_desired memory false [] two_installs nothing_done start ≡ (ok finished, end_state)
unfolding reconcile_desired reconcile_item act_on finish_item call remember ◌>>=◌ owner_of
    decide_target is_unchanged owned_entry repository_relative_source_path check_owned_installation
    check_reconciliation_issue parse split_once validate_catalog_path is_malformed_literal
    posix_parts list_beq filter split starts_with ends_with has_sub require_index_name is_index_name
    require_kebab_case_identifier require_canonical_git_branch remove_prefix join
run = refl

reconcile_desired-IsTruthful_example :
    All (IsTruthful memory memory-IsLawful false end_state.world) finished.entries
    × (handled finished ≡ length two_installs)
reconcile_desired-IsTruthful_example =
    reconcile_desired-IsTruthful memory memory-IsLawful false [] two_installs start end_state
      finished two_installs-HasPlan separate run
