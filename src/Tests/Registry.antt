-- ===== src/Tests/Registry.antt =====
-- Inputs for the properties of the registry: paths written with their lengths, a decoder that knows
-- one document, and a Git source of it.
use ritebook.Prelude.{
  List, ◌≡◌, ◌∙◌, refl, ap, ℕ, zero, suc, true, false, [], ◌∷◌, ◌++◌, none, some, ok, arith,
}
use ritebook.Prelude.Sorting.{sorted}
use ritebook.Prelude.{list_beq, traverse, filter}
use ritebook.Kernel.Identifiers.{
  require_index_name, is_index_name, is_alnum, is_kebab_case_identifier, matches_kebab,
  require_kebab_case_identifier, ends_alnum,
}
use ritebook.Kernel.PortablePaths.{
  validate_portable_relative_posix_path, is_malformed_literal, posix_parts, base_name,
  check_segments, is_portable_segment,
}
use ritebook.Kernel.CatalogPaths.{
  validate_catalog_paths, validate_catalog_path, check_duplicates, check_mixed, child_paths,
  classify, root_paths,
}
use ritebook.Kernel.TextSafety.{
  is_non_portable_character, is_terminal_control, is_unicode_surrogate, require_portable_text,
  normalize_portable_description,
}
use ritebook.Kernel.GitBranches.{require_canonical_git_branch}
use ritebook.Kernel.SchemaV1.{parse_schema_v1_catalog_bytes}
use ritebook.Kernel.StrictJson.{parse_strict_json_bytes}
use ritebook.Kernel.Timestamps.{parse_canonical_utc_timestamp}
use ritebook.Installation.References.{require_non_empty}
use ritebook.Installation.Records.{require_source_revision, require_index_digest}
use ritebook.Registry.Records.{check_published, check_registered}
use ritebook.Registry.Reader.{read_index, digest}
use ritebook.Registry.Store.{digest_hex}
use ritebook.Text.{
  Text, codes, starts_with, ends_with, has_sub, split, strip, is_space, remove_prefix, drop,
}
use ritebook.Kernel.StrictJson.{JsonLibrary, loaded}
use ritebook.Publisher.{document_of}
use ritebook.Registry.Records.{
  AddIndexCommand, AddIndexResult, UpdateIndexCommand, PreparedIndexSource, local_git_repo,
  RegisteredIndex,
}
use ritebook.Registry.Store.{StoreLibrary, World, registered, find, upsert, registry_cache_root}
use ritebook.Registry.Store.Paths.{FilePath, index_path, alias_root}
use ritebook.Registry.Listing.{ListedIndexSkills, selected_entries, get_registered, list_skills}
use ritebook.Registry.Consistency.Listing.{ListsAll, list_skills-selected_entries}
use ritebook.Registry.Publish.{IndexPorts, utc_timestamp}
use ritebook.Registry.AddIndex.{add_index, added_entry}
use ritebook.Registry.UpdateIndex.{update_index}
use ritebook.Registry.Consistency.{IsPathLawful, IsSound}
use ritebook.Registry.Consistency.Adding.{add_index-IsSound, find-add_index}
use ritebook.Registry.Consistency.Updating.{update_index-IsSound}
use ritebook.Tests.Documents.{stamps, now, catalog}

abbrev encode : Text → Text → Text
encode [] text = 0 ∷ text
encode (c ∷ part) text = suc c ∷ encode part text

abbrev path_to_text : FilePath → Text
path_to_text [] = []
path_to_text (part ∷ path) = encode part (path_to_text path)

abbrev push : ℕ → FilePath → FilePath
push c [] = (c ∷ []) ∷ []
push c (part ∷ path) = (c ∷ part) ∷ path

abbrev path_from_text : Text → FilePath
path_from_text [] = []
path_from_text (zero ∷ text) = [] ∷ path_from_text text
path_from_text (suc c ∷ text) = push c (path_from_text text)

path_from_text-encode :
    (part text : Text) → path_from_text (encode part text) ≡ part ∷ path_from_text text
path_from_text-encode [] text = refl
path_from_text-encode (c ∷ part) text = ap (push c) (path_from_text-encode part text)

path_from_text-path_to_text : (path : FilePath) → path_from_text (path_to_text path) ≡ path
path_from_text-path_to_text [] = refl
path_from_text-path_to_text (part ∷ path) =
    path_from_text-encode part (path_to_text path)
    ∙ ap (λ p. part ∷ p) (path_from_text-path_to_text path)

abbrev pub json : JsonLibrary
json = record {
  decode_utf8 = λ content. some [];
  loads = λ hook constant text. loaded (document_of stamps catalog (now ++ (b'Z' ∷ [])));
}

abbrev zeros : Text
zeros = codes "0000000000000000000000000000000000000000000000000000000000000000"

abbrev store : StoreLibrary
store = record {
  reader = record { json = json; datetime = stamps; sha256_hex = λ content. zeros };
  to_text = path_to_text;
  from_text = path_from_text;
  is_hex_number = λ text. true;
  expanded = λ text. text ∷ [];
  resolved = λ path. path;
  encode_utf8 = λ text. text;
}

store-IsPathLawful : IsPathLawful store
store-IsPathLawful = record {
  from_text-to_text = λ cache_root registry_path name content h. path_from_text-path_to_text _;
}

abbrev prepared : PreparedIndexSource
prepared = record {
  source = codes "/work/skills";
  source_type = local_git_repo;
  repository_path = codes "/work/skills";
  source_revision = codes "0123456789012345678901234567890123456789";
  source_branch = codes "refs/heads/main";
  index_content = 1 ∷ [];
  source_cache_path = none;
}

abbrev ports : IndexPorts Unit
ports = record {
  library = store;
  prepare_source = λ source cache_root registry_path. λ s. (ok prepared, s);
  refresh_source = λ source branch path cache_root registry_path force. λ s. (ok prepared, s);
  discard_source = λ source path cache_root registry_path. λ s. (ok tt, s);
  clock = λ s. (ok now, s);
}

abbrev empty : World Unit
empty = record { entries = []; legacy = false; cache = λ p. none; sources = tt; events = [] }

empty-IsSound : IsSound store empty
unfolding find
empty-IsSound = (tt, λ name e h. ground arith)

abbrev add : AddIndexCommand
add = record {
  source = codes "/work/skills";
  alias = none;
  force = false;
  registry_path = none;
  cache_root = none;
}

abbrev update : UpdateIndexCommand
update = record { name = none; all = true; force = true; registry_path = none; cache_root = none }

add_index-IsSound_example : IsSound store (add_index ports add empty).1
add_index-IsSound_example = add_index-IsSound ports store-IsPathLawful add empty empty-IsSound

update_index-IsSound_example :
    IsSound store (update_index ports update (add_index ports add empty).1).1
update_index-IsSound_example =
    update_index-IsSound ports store-IsPathLawful update (add_index ports add empty).1
      (add_index-IsSound ports store-IsPathLawful add empty empty-IsSound)

abbrev add_result : AddIndexResult
add_result = record { name = codes "team"; skill_count = 1 }

add_returns : (add_index ports add empty).0 ≡ ok add_result
unfolding add_index read_index parse_schema_v1_catalog_bytes parse_strict_json_bytes list_beq
    starts_with require_index_name is_index_name parse_canonical_utc_timestamp
    validate_portable_relative_posix_path traverse validate_catalog_path is_malformed_literal
    ends_with has_sub split posix_parts filter check_published validate_catalog_paths
    check_duplicates check_mixed child_paths classify root_paths is_alnum is_kebab_case_identifier
    matches_kebab base_name check_segments is_portable_segment is_non_portable_character
    is_terminal_control is_unicode_surrogate require_portable_text require_source_revision
    require_index_digest require_canonical_git_branch require_non_empty check_registered
    require_kebab_case_identifier normalize_portable_description strip is_space find remove_prefix
    drop ends_alnum digest digest_hex sorted utc_timestamp index_path alias_root added_entry upsert
    registry_cache_root
add_returns = refl

find-add_index_example :
    (e : RegisteredIndex) × (find (codes "team") (add_index ports add empty).1.entries
      ≡ some (registered e))
find-add_index_example = find-add_index ports store-IsPathLawful add empty add_returns

abbrev added : World Unit
added = (add_index ports add empty).1

added_is_current : added.legacy ≡ false
unfolding add_index read_index parse_schema_v1_catalog_bytes parse_strict_json_bytes list_beq
    starts_with require_index_name is_index_name parse_canonical_utc_timestamp
    validate_portable_relative_posix_path traverse validate_catalog_path is_malformed_literal
    ends_with has_sub split posix_parts filter check_published validate_catalog_paths
    check_duplicates check_mixed child_paths classify root_paths is_alnum is_kebab_case_identifier
    matches_kebab base_name check_segments is_portable_segment is_non_portable_character
    is_terminal_control is_unicode_surrogate require_portable_text require_source_revision
    require_index_digest require_canonical_git_branch require_non_empty check_registered
    require_kebab_case_identifier normalize_portable_description strip is_space find remove_prefix
    drop ends_alnum digest digest_hex sorted utc_timestamp index_path alias_root added_entry upsert
    registry_cache_root
added_is_current = refl

added_is_found : (e : RegisteredIndex) × (find (codes "team") added.entries ≡ some (registered e))
added_is_found = find-add_index ports store-IsPathLawful add empty add_returns

added_is_selected : selected_entries store (some (codes "team")) added ≡ ok (added_is_found.0 ∷ [])
unfolding selected_entries get_registered
added_is_selected = rw (added_is_current, added_is_found.1)

added-IsSound : IsSound store added
added-IsSound = add_index-IsSound ports store-IsPathLawful add empty empty-IsSound

list_skills-selected_entries_example :
    (listed : List ListedIndexSkills) × (list_skills store (some (codes "team")) added ≡ ok listed)
    × ListsAll store store-IsPathLawful added (added_is_found.0 ∷ []) listed
list_skills-selected_entries_example =
    list_skills-selected_entries store store-IsPathLawful (some (codes "team")) added added-IsSound
      added_is_selected
