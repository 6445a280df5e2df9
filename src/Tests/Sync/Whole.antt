-- ===== src/Tests/Sync/Whole.antt =====
-- A whole sync of one declared skill, whose target holds a tree of the user.
use ritebook.Prelude.{◌++◌, false, List, [], ◌∷◌, none, some, Result, ok, err, All}
use ritebook.Prelude.{◌==◌, nat_eq, list_eq, option_eq, if◌then◌else◌}
use ritebook.Prelude.Actions.{Action}
use ritebook.Text.{Text, codes}
use ritebook.Installation.Errors.{Exception}
use ritebook.Installation.Records.{
  InstallationStateSnapshot, SkillRequirements, RegisteredSkillIndex, InstallableSkill,
  ResolvedSkillSource, DesiredInstall,
}
use ritebook.Installation.Sync.Ports.{SyncPorts, tree, nothing, IsLawful}
use ritebook.Installation.Sync.Execute.{InstallFromRequirementsCommand, SyncLibrary}
use ritebook.Installation.Sync.Reconcile.Preservation.{IsOrApart}
use ritebook.Installation.Sync.Desired.{desired_installations}
use ritebook.Tests.Sync.Memory.{
  Memory, memory-IsLawful, memory_plan, memory_inspect, memory_stage, memory_replace,
  memory_cleanup, hex64, new_digest,
}

abbrev return : {A : Type 0} → A → Action Exception Memory A
return a w = (ok a, w)

abbrev declared : SkillRequirements
declared = record {
  targets = [];
  skills = record { name = codes "team/lint"; target = none; target_path = some (codes "a") } ∷ [];
}

abbrev no_snapshot : InstallationStateSnapshot
no_snapshot = record { entries = []; digest = none }

abbrev team_index : RegisteredSkillIndex
team_index = record {
  name = codes "team";
  source = codes "https://example.org/team.git";
  source_type = codes "git_url";
  source_revision = codes "0123456789abcdef0123456789abcdef01234567";
  source_branch = codes "refs/heads/main";
  index_digest = new_digest;
  source_cache_path = none;
  cached_index_path = codes "/cache/team.json";
  index_schema_version = 1;
}

abbrev team_source : ResolvedSkillSource
team_source = record {
  source = codes "https://example.org/team.git";
  source_type = codes "git_url";
  repository_path = codes "/cache/team";
  source_revision = codes "0123456789abcdef0123456789abcdef01234567";
  source_branch = codes "refs/heads/main";
  index_digest = new_digest;
}

abbrev lint_skill : InstallableSkill
lint_skill = record {
  name = codes "lint";
  path = codes "lint";
  skill_file = codes "lint/SKILL.md";
  description = codes "Lints.";
  source_root = codes ".";
}

abbrev live : SyncPorts
live = record {
  World = Memory;
  read_requirements = λ _. return declared;
  sync_lockfile_path = λ _ _. return (codes "/p/ritebook.lock");
  read_lockfile_ownership = λ _ _. return no_snapshot;
  lockfile = λ _ _ path _.
      return (record { path = path; content = []; private = false; expected_digest = none });
  refresh = λ _ _. return tt;
  get_index = λ _ _. return (some team_index);
  read_skills = λ _ _. return (lint_skill ∷ []);
  open_source = λ _. return team_source;
  close_source = λ _. return tt;
  validate_committed = λ _ _. return (record { name = codes "lint"; description = codes "Lints." });
  plan_target = memory_plan;
  inspect_target = memory_inspect;
  stage = memory_stage;
  cleanup_staged = memory_cleanup;
  replace_tree = memory_replace;
  write_lockfile = λ _. return tt;
  sha256 = λ _. hex64;
}

abbrev live-IsLawful : IsLawful live
live-IsLawful = record {
  content_at = memory-IsLawful.content_at;
  inspect_unchanged = memory-IsLawful.inspect_unchanged;
  inspect_seen = memory-IsLawful.inspect_seen;
  stage_digest = memory-IsLawful.stage_digest;
  stage_target = memory-IsLawful.stage_target;
  stage_others = memory-IsLawful.stage_others;
  replace_placed = memory-IsLawful.replace_placed;
  replace_others = memory-IsLawful.replace_others;
  cleanup_others = memory-IsLawful.cleanup_others;
}

abbrev below_p : SyncLibrary
below_p = record { expanduser = λ value. value; place_below = λ file target. codes "/p/" ++ target }

abbrev careful_sync : InstallFromRequirementsCommand
careful_sync = record {
  requirements_file = codes "/p/ritebook.toml";
  force = false;
  registry_path = none;
  lockfile_path = none;
}

abbrev users_tree : Memory
users_tree = λ p. if p == codes "/p/a" then tree (codes "mine") else nothing

-- The part of a path below its second directory.
abbrev third : List Text → Text
third (x ∷ y ∷ z ∷ parts) = z
third parts = []

abbrev ArePlaced : Result Exception (List DesiredInstall) → Type 0
ArePlaced (ok desired) = All (IsOrApart (codes "/p/a")) desired
ArePlaced (err e) = Unit

abbrev declarations : SkillRequirements → Memory → Result Exception (List DesiredInstall)
declarations requirements w =
    (desired_installations live (below_p.place_below (codes "/p/ritebook.toml")) none
      (codes "/p/ritebook.toml") requirements.skills requirements.targets
      (record { world = w; sources = [] })).0
