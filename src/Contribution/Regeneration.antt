-- ===== src/Contribution/Regeneration.antt =====
-- skill_contribution/adapters/outbound/validation/adapter.py and index_regeneration/adapter.py
pub mod Restoring
use ritebook.Prelude.{
  ℕ, Bool, true, false, ◌&&◌, ◌||◌, not, List, [], ◌∷◌, Option, none, some, Result, catch,
}
use ritebook.Prelude.{◌==◌, nat_eq, list_eq, if◌then◌else◌}
use ritebook.Prelude.Actions.{Action, pure, raise, lift, ◌>>=◌, ◌>>◌}
use ritebook.Text.{Text, codes}
use ritebook.Kernel.PortablePaths.{posix_parts}
use ritebook.Kernel.StrictJson.{JsonLibrary}
use ritebook.Kernel.Timestamps.{DatetimeLibrary}
use ritebook.Kernel.SchemaV1.{parse_schema_v1_catalog_bytes}
use ritebook.Contribution.Errors.{
  Exception, contribution, value_error, skill_contribution_validation,
  contribution_index_regeneration,
}
use ritebook.Contribution.Records.{ContributionLockfileEntry, ContributionWorkspace}
use ritebook.Contribution.Git.{ContributionHost}
use ritebook.Contribution.Catalog.{
  PublishIndexCommand, check_request, check_lint_root, catalog_root, published_skills_root,
}

-- How the publisher ends: with what it raises, if that is an error which the adapter handles.
pub data PublishOutcome : Type 0 where
  published validation_error publisher_error os_error : PublishOutcome

-- The two other components, as the adapters call them.
pub record Neighbours (H : ContributionHost) : Type 0 where
  -- the number of issues that the linter finds below a root, or a `LinterError`
  pub lint : Text → Action Exception H.World (Option ℕ)
  pub publish : PublishIndexCommand → Action Exception H.World PublishOutcome

abbrev pub regeneration_error : Exception
regeneration_error = contribution contribution_index_regeneration

abbrev pub validation_failed : Exception
validation_failed = contribution skill_contribution_validation

module _ (H : ContributionHost) (N : Neighbours H) where
  abbrev accept_issues : Option ℕ → Action Exception H.World Unit
  accept_issues none = raise validation_failed
  accept_issues (some count) = if count == 0 then pure tt else raise validation_failed

  -- `LinterSkillValidatorAdapter.validate`
  unfoldable pub validate :
      ContributionLockfileEntry → ContributionWorkspace → Action Exception H.World Unit
  unfolding catalog_root check_lint_root
  validate entry workspace = do
    parts ← lift (catalog_root entry)
    root ← lift (catch (check_lint_root (H.join_all workspace.checkout_path parts)) value_error)
    found ← N.lint root
    accept_issues found

  abbrev require : Bool → Action Exception H.World Unit
  require true = pure tt
  require false = raise regeneration_error

  abbrev resolves : Option Text → Bool
  resolves none = false
  resolves (some path) = true

  -- The loop of `_reject_symlink_components`, without the anchor.
  unfoldable pub has_symlink_component : H.World → Text → List Text → Bool
  has_symlink_component w current [] = false
  has_symlink_component w current (part ∷ parts) =
      if part == codes "/" || part == codes "//"
      then has_symlink_component w part parts
      else (H.is_symlink w (H.join_path current part)
          || has_symlink_component w (H.join_path current part) parts)

  -- `_validate_checkout_path`
  unfoldable pub validate_checkout_path : Text → Action Exception H.World Unit
  unfolding has_symlink_component
  validate_checkout_path checkout w =
      (do
        require (not (has_symlink_component w (codes ".") (posix_parts checkout)))
        require (H.is_dir w checkout && not (H.is_symlink w checkout))
        require (resolves (H.resolve_strict w checkout)))
        w

  abbrev is_below : Option Text → Option Text → Bool
  is_below (some index) (some checkout) = H.is_relative_to index checkout
  is_below _ _ = false

  module _ (D : DatetimeLibrary) (J : JsonLibrary) where
    abbrev name_in : Option (List ℕ) → Action Exception H.World Text
    name_in none = raise regeneration_error
    name_in (some content) = do
      catalog ← lift (catch (parse_schema_v1_catalog_bytes D J content) (λ e. regeneration_error))
      pure catalog.published_name

    -- `_published_name`
    unfoldable pub published_name : Text → Action Exception H.World Text
    published_name checkout w =
        let index = H.join_path checkout (codes "ritebook-index.json") in
        (do
          require (H.is_file w index && not (H.is_symlink w index))
          require (is_below (H.resolve_strict w index) (H.resolve_strict w checkout))
          name_in (H.read_bytes w index))
          w

    abbrev end_with : PublishOutcome → Action Exception H.World Unit
    end_with published = pure tt
    end_with validation_error = raise validation_failed
    end_with publisher_error = raise regeneration_error
    end_with os_error = raise regeneration_error

    -- The directory is left whether the publisher returns or raises; a directory that cannot be
    -- entered again is an `OSError`.
    abbrev leave : Text → Result Exception PublishOutcome → Action Exception H.World PublishOutcome
    leave previous result = do back ← H.chdir previous; if back then lift result else pure os_error

    abbrev publish_from :
        PublishIndexCommand → Text → Bool → Action Exception H.World PublishOutcome
    publish_from command previous false = pure os_error
    publish_from command previous true =
        λ w. leave previous (N.publish command w).0 (N.publish command w).1

    -- `_working_directory`, around the publisher
    unfoldable pub publish_in : Text → PublishIndexCommand → Action Exception H.World PublishOutcome
    publish_in checkout command w =
        (do entered ← H.chdir checkout; publish_from command (H.cwd w) entered) w

    -- `PublisherIndexRegeneratorAdapter.regenerate_index`
    unfoldable pub regenerate_index :
        ContributionLockfileEntry → ContributionWorkspace → Action Exception H.World Unit
    unfolding validate_checkout_path published_name published_skills_root check_request publish_in
    regenerate_index entry workspace = do
      validate_checkout_path workspace.checkout_path
      name ← published_name workspace.checkout_path
      skills_root ← lift (published_skills_root entry)
      command ← lift (
          catch
            (check_request (record {
              index_name = name;
              skills_root = H.join_path workspace.checkout_path skills_root;
              published_skills_root = skills_root;
            }))
            value_error)
      outcome ← publish_in workspace.checkout_path command
      end_with outcome
