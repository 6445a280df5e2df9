-- ===== src/Tests/References.antt =====
-- Inputs for the references and the targets of an installation.
use ritebook.Prelude.{◌≡◌, ◌↔◌, ok}
use ritebook.Text.{codes}
use ritebook.Installation.References.{SkillReference, parse}
use ritebook.Installation.References.Parsing.{Denotes, parse_iff}

abbrev lint : SkillReference
lint = record {
  requirement = codes "team/tools/lint";
  index_name = codes "team";
  skill_path = codes "tools/lint";
  skill_name = codes "lint";
}

parse_iff_example :
    (parse (codes "team/tools/lint") ≡ ok lint) ↔ Denotes (codes "team/tools/lint") lint
parse_iff_example = parse_iff (codes "team/tools/lint") lint
