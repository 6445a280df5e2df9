-- ===== src/Registry/Reader.antt =====
-- index_registry/adapters/outbound/json_index/reader.py
use ritebook.Prelude.{ℕ, not, List, ◌++◌, Option, none, some, Result, ok, err, map}
use ritebook.Prelude.{
  ◌==◌, nat_eq, list_eq, length, ◌>>=◌, ◌>>◌, raise_if, catch, catch-eq-ok, >>=-eq-ok, ◌≡◌, ap, sym,
  arith,
}
use ritebook.Text.{Text, codes}
use ritebook.Kernel.StrictJson.{JsonLibrary}
use ritebook.Kernel.Timestamps.{DatetimeLibrary}
use ritebook.Kernel.SchemaV1.{SchemaV1Skill, SchemaV1Catalog, parse_schema_v1_catalog_bytes}
use ritebook.Registry.Errors.{
  invalid_published_index, invalid_cached_index, Exception, registry_error, value_error,
}
use ritebook.Registry.Records.{PublishedIndex, check_published}

pub record CachedSkillSummary : Type 0 where
  pub name : Text
  pub path : Text
  pub skill_file : Text
  pub description : Text
  pub source_root : Text

-- What the reader calls of the language: JSON, timestamps, and sha256 as lower-case hexadecimals.
pub record ReaderLibrary : Type 1 where
  pub json : JsonLibrary
  pub datetime : DatetimeLibrary
  pub sha256_hex : List ℕ → Text

module _ (L : ReaderLibrary) where
  -- `_digest`
  unfoldable pub digest : List ℕ → Text
  digest content = codes "sha256:" ++ L.sha256_hex content

  unfoldable pub parse_catalog : List ℕ → Result Exception (SchemaV1Catalog L.datetime)
  parse_catalog content =
      catch (parse_schema_v1_catalog_bytes L.datetime L.json content)
        (λ e. registry_error (invalid_published_index e))

  unfoldable pub read_index : List ℕ → Result Exception PublishedIndex
  unfolding parse_catalog digest
  read_index content = do
    catalog ← parse_catalog content
    catch
        (check_published (record {
          published_name = catalog.published_name;
          schema_version = 1;
          skill_count = length catalog.skills;
          cacheable_content = content;
          index_digest = digest content;
        }))
        value_error

  -- `_cached_skills`. The skills of a catalogue have no empty text, so no skill_summary is refused.
  abbrev skill_summary : Text → SchemaV1Skill → CachedSkillSummary
  skill_summary root skill = record {
    name = skill.name;
    path = skill.path;
    skill_file = skill.skill_file;
    description = skill.description;
    source_root = root;
  }

  abbrev cached_bytes : Option (List ℕ) → Result Exception (List ℕ)
  cached_bytes none = err (registry_error invalid_cached_index)
  cached_bytes (some content) = ok content

  -- `read_skills`, of what the cached path holds
  unfoldable pub read_skills : Option (List ℕ) → Text → Result Exception (List CachedSkillSummary)
  unfolding parse_catalog digest
  read_skills found index_digest = do
    content ← cached_bytes found
    raise_if (not (digest content == index_digest)) (registry_error invalid_cached_index)
    catalog ← parse_catalog content
    ok (map (skill_summary catalog.skills_root) catalog.skills)

  check_published-eq-ok : (p p' : PublishedIndex) → check_published p ≡ ok p' → p ≡ p'
  unfolding check_published
  check_published-eq-ok p p' h = ground arith

  -- What it returns has the content's digest.
  pub read_index-digest :
      (content : List ℕ) {p : PublishedIndex}
      → read_index content ≡ ok p
      → (p.cacheable_content ≡ content)
        × (p.index_digest ≡ digest content)
        × ((catalog : SchemaV1Catalog L.datetime) × (parse_catalog content ≡ ok catalog))
  unfolding read_index
  read_index-digest content h =
      let (catalog, parsed, h1) = >>=-eq-ok (parse_catalog content) _ h in
      let same = check_published-eq-ok _ _ (catch-eq-ok _ value_error h1) in
      (
        ap (λ (p : PublishedIndex). p.cacheable_content) (sym same),
        ap (λ (p : PublishedIndex). p.index_digest) (sym same),
        (catalog, parsed),
      )
