-- ===== src/Tests/Direct.antt =====
-- Installation/Direct at concrete inputs.
use ritebook.Prelude.{Bool, true, ◌&&◌, List, [], ◌∷◌, none, ◌==◌, nat_eq, list_eq}
use ritebook.Text.{Text, codes}
use ritebook.Installation.Records.{OwnedInstallation, direct, materialized}

abbrev entry_at : Text → Text → OwnedInstallation
entry_at target id = record {
  workflow = direct;
  requirement = codes "team/pdf";
  index_name = codes "team";
  skill_name = codes "pdf";
  target = target;
  target_id = id;
  canonical_target = target;
  source = codes "https://example.org/team.git";
  source_type = codes "git_url";
  source_revision = codes "0123";
  source_branch = codes "refs/heads/main";
  index_digest = codes "sha256:1";
  index_schema_version = 1;
  skill_path = codes "pdf";
  skill_file = codes "pdf/SKILL.md";
  installed_tree_digest = codes "sha256:2";
  desired = true;
  status = materialized;
  target_ref = none;
}

abbrev two_entries : List OwnedInstallation
two_entries =
    entry_at (codes "/skills/a") (codes "2") ∷ entry_at (codes "/skills/b") (codes "1") ∷ []

-- Another record of the target that is installed.
abbrev is_stale : OwnedInstallation → Bool
is_stale o = o.canonical_target == codes "/skills/b" && o.target_id == codes "1"
