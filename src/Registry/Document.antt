-- ===== src/Registry/Document.antt =====
-- One entry of the registry's JSON document:
-- index_registry/adapters/outbound/filesystem_registry/adapter.py
pub mod RoundTrip
use ritebook.Prelude.{
  ℕ, Bool, true, false, ◌&&◌, not, List, [], ◌∷◌, Option, none, some, Result, ok, err, catch,
}
use ritebook.Prelude.{◌==◌, nat_eq, list_eq, if◌then◌else◌, ◌>>=◌, ◌>>◌, raise_if}
use ritebook.Text.{Text, codes}
use ritebook.Json.{
  Json, null, natural, string, object, Members, no_members, member, get_member, has_members,
  has_only,
}
use ritebook.Kernel.GitSources.{UrlLibrary, require_safe_persisted_source}
use ritebook.Registry.Errors.{Exception, registry_error, index_registry_persistence}
use ritebook.Registry.Records.{
  RegisteredIndex, IndexSourceType, git_url, local_git_repo, AliasOrigin, published_name, explicit,
  check_registered,
}

-- What Python makes of other values than those written: `str(value)`; `int(value)`, if that is a
-- natural number; and whether a `source_cache_path` that is no text is one, which `cast` does not ask.
pub record CoercionLibrary : Type 0 where
  pub urls : UrlLibrary
  pub str : Json → Text
  pub int : Json → Option ℕ
  pub path_of : Json → Option Text

abbrev pub entry_fields : List Text
entry_fields =
    codes "name"
    ∷ codes "published_name"
    ∷ codes "alias_origin"
    ∷ codes "source"
    ∷ codes "source_type"
    ∷ codes "source_revision"
    ∷ codes "source_branch"
    ∷ codes "index_digest"
    ∷ codes "source_cache_path"
    ∷ codes "cached_index_path"
    ∷ codes "source_schema_version"
    ∷ codes "skill_count"
    ∷ codes "added_at"
    ∷ codes "updated_at"
    ∷ []

abbrev pub origin_value : AliasOrigin → Text
origin_value published_name = codes "published_name"
origin_value explicit = codes "explicit"

abbrev pub source_type_value : IndexSourceType → Text
source_type_value git_url = codes "git_url"
source_type_value local_git_repo = codes "local_git_repo"

abbrev pub optional_string : Option Text → Json
optional_string none = null
optional_string (some value) = string value

abbrev pub malformed : Exception
malformed = registry_error index_registry_persistence

abbrev pub members_of : RegisteredIndex → Members
members_of e = member (codes "name") (string e.name) (
    member (codes "published_name") (string e.published_name) (
      member (codes "alias_origin") (string (origin_value e.alias_origin)) (
        member (codes "source") (string e.source) (
          member (codes "source_type") (string (source_type_value e.source_type)) (
            member (codes "source_revision") (string e.source_revision) (
              member (codes "source_branch") (string e.source_branch) (
                member (codes "index_digest") (string e.index_digest) (
                  member (codes "source_cache_path") (optional_string e.source_cache_path) (
                    member (codes "cached_index_path") (string e.cached_index_path) (
                      member (codes "source_schema_version") (natural e.source_schema_version) (
                        member (codes "skill_count") (natural e.skill_count) (
                          member (codes "added_at") (string e.added_at) (
                            member (codes "updated_at") (string e.updated_at)
                              no_members)))))))))))))

module _ (C : CoercionLibrary) where
  -- `_entry_to_json`
  unfoldable pub entry_to_json : RegisteredIndex → Result Exception Json
  entry_to_json e = do
    catch (require_safe_persisted_source C.urls e.source (source_type_value e.source_type))
        (λ x. malformed)
    ok (object (members_of e))

  abbrev str_of : Json → Text
  str_of (string value) = value
  str_of value = C.str value

  abbrev int_of : Json → Option ℕ
  int_of (natural n) = some n
  int_of value = C.int value

  abbrev found : {A : Type 0} → Option A → Result Exception A
  found none = err malformed
  found (some a) = ok a

  -- str(payload[name])
  unfoldable pub string_at : Text → Members → Result Exception Text
  unfolding get_member
  string_at name payload = do value ← found (get_member name payload); ok (str_of value)

  -- int(payload[name])
  unfoldable pub number_at : Text → Members → Result Exception ℕ
  unfolding get_member
  number_at name payload = do value ← found (get_member name payload); found (int_of value)

  abbrev optional_of : Json → Option Text
  optional_of null = none
  optional_of (string value) = some value
  optional_of value = C.path_of value

  -- AliasOrigin(value)
  unfoldable pub to_origin : Text → Result Exception AliasOrigin
  to_origin value =
      if value == codes "published_name"
      then ok published_name
      else if value == codes "explicit"
      then ok explicit
      else err malformed

  -- IndexSourceType(value)
  unfoldable pub to_source_type : Text → Result Exception IndexSourceType
  to_source_type value =
      if value == codes "git_url"
      then ok git_url
      else if value == codes "local_git_repo"
      then ok local_git_repo
      else err malformed

  -- `_entry_from_json`, with the `except` of `_parse_entries`
  unfoldable pub entry_from_json : Json → Result Exception RegisteredIndex
  unfolding string_at number_at to_origin to_source_type has_members has_only get_member
  entry_from_json (object payload) = do
    raise_if (not (has_members entry_fields payload && has_only entry_fields payload)) malformed
    source_revision ← string_at (codes "source_revision") payload
    index_digest ← string_at (codes "index_digest") payload
    source ← string_at (codes "source") payload
    source_type ← (do value ← string_at (codes "source_type") payload; to_source_type value)
    name ← string_at (codes "name") payload
    published ← string_at (codes "published_name") payload
    alias_origin ← (do value ← string_at (codes "alias_origin") payload; to_origin value)
    catch (require_safe_persisted_source C.urls source (source_type_value source_type))
        (λ x. malformed)
    source_branch ← string_at (codes "source_branch") payload
    source_cache_path ← found (get_member (codes "source_cache_path") payload)
    cached_index_path ← string_at (codes "cached_index_path") payload
    source_schema_version ← number_at (codes "source_schema_version") payload
    skill_count ← number_at (codes "skill_count") payload
    added_at ← string_at (codes "added_at") payload
    updated_at ← string_at (codes "updated_at") payload
    catch
        (check_registered (record {
          name = name;
          published_name = published;
          alias_origin = alias_origin;
          source = source;
          source_type = source_type;
          source_revision = source_revision;
          source_branch = source_branch;
          index_digest = index_digest;
          source_cache_path = optional_of source_cache_path;
          cached_index_path = cached_index_path;
          source_schema_version = source_schema_version;
          skill_count = skill_count;
          added_at = added_at;
          updated_at = updated_at;
        }))
        (λ x. malformed)
  entry_from_json _ = err malformed
