-- ===== src/Tests/Regeneration.antt =====
-- A regeneration by a publisher that changes the working directory.
use ritebook.Prelude.{refl, ◌≡◌, true, false, [], ◌∷◌, ◌++◌, some, ok, inl}
use ritebook.Prelude.{list_beq, filter, traverse, take, drop}
use ritebook.Prelude.Sorting.{sorted}
use ritebook.Prelude.Actions.{◌>>=◌, pure, lift}
use ritebook.Text.{
  Text, codes, starts_with, ends_with, has_sub, split, strip, is_space, split_once, join,
}
use ritebook.Kernel.Identifiers.{
  require_index_name, is_index_name, is_alnum, is_kebab_case_identifier, matches_kebab, ends_alnum,
  require_kebab_case_identifier,
}
use ritebook.Kernel.PortablePaths.{
  validate_portable_relative_posix_path, is_malformed_literal, posix_parts, base_name,
  check_segments, is_portable_segment,
}
use ritebook.Kernel.CatalogPaths.{
  validate_catalog_path, validate_catalog_paths, check_duplicates, check_mixed, child_paths,
  classify, root_paths,
}
use ritebook.Kernel.TextSafety.{
  is_non_portable_character, is_terminal_control, is_unicode_surrogate, require_portable_text,
  normalize_portable_description,
}
use ritebook.Kernel.SchemaV1.{parse_schema_v1_catalog_bytes}
use ritebook.Kernel.StrictJson.{parse_strict_json_bytes}
use ritebook.Kernel.Timestamps.{parse_canonical_utc_timestamp}
use ritebook.Contribution.Records.{parse, require_non_empty}
use ritebook.Contribution.Git.{ContributionHost}
use ritebook.Contribution.Regeneration.{Neighbours, published, regenerate_index}
use ritebook.Contribution.Regeneration.Restoring.{IsChdir, Restores, regenerate_index-Restores}
use ritebook.Tests.Documents.{stamps}
use ritebook.Tests.Registry.{json}
use ritebook.Tests.Contribution.{entry, workspace}

-- The state is the working directory; there are no links.
abbrev host : ContributionHost
host = record {
  World = Text;
  run = λ command w. (ok (record { returncode = 0; stdout = [] }), w);
  run_bytes = λ command w. (ok (record { returncode = 0; stdout = [] }), w);
  exists = λ w path. true;
  is_dir = λ w path. true;
  is_file = λ w path. true;
  is_symlink = λ w path. false;
  resolve = λ w path. some path;
  resolve_strict = λ w path. some path;
  read_bytes = λ w path. some (b'{' ∷ []);
  cwd = λ w. w;
  chdir = λ path w. (ok true, path);
  make_parents = λ path w. (ok tt, w);
  write_text = λ path content w. (ok true, w);
  expanduser = λ path. path;
  join_path = λ path name. path ++ (b'/' ∷ name);
  join_all = λ path parts. path;
  is_relative_to = λ path root. starts_with path root;
  sha256 = λ value. value;
  sha256_bytes = λ content. content;
  timestamp = λ w. (ok [], w);
}

abbrev neighbours : Neighbours host
neighbours = record {
  lint = λ root w. (ok (some 0), w);
  publish = λ command w. (ok published, codes "/elsewhere");
}

host-IsChdir : IsChdir host neighbours
host-IsChdir = record { ends = λ path w. inl refl; returns = λ w later h. refl }

regenerate_index-Restores_example :
    Restores host neighbours
      (codes "/work")
      (regenerate_index host neighbours stamps json entry workspace (codes "/work"))
regenerate_index-Restores_example =
    regenerate_index-Restores host neighbours host-IsChdir stamps json entry workspace
      (codes "/work")

regeneration_succeeds :
    regenerate_index host neighbours stamps json entry workspace (codes "/work")
    ≡ (ok tt, codes "/work")
unfolding regenerate_index ◌>>=◌ pure lift list_beq parse_schema_v1_catalog_bytes
    parse_strict_json_bytes starts_with require_index_name is_index_name
    parse_canonical_utc_timestamp validate_portable_relative_posix_path traverse
    validate_catalog_path is_malformed_literal ends_with has_sub split posix_parts filter
    validate_catalog_paths take check_duplicates check_mixed child_paths classify root_paths
    is_alnum is_kebab_case_identifier matches_kebab base_name check_segments is_portable_segment
    is_non_portable_character is_terminal_control is_unicode_surrogate require_portable_text
    require_non_empty require_kebab_case_identifier normalize_portable_description strip is_space
    drop ends_alnum sorted parse split_once join
regeneration_succeeds = refl
