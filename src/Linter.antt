-- ===== src/Linter.antt =====
-- The validation of skill headers: features/skill_linter/application/use_cases/
-- validate_skill_headers/validators.py and service.py, over parsed front matter.
pub mod Publishable
use ritebook.Prelude.{
  ℕ, Bool, true, false, ◌&&◌, ◌||◌, not, List, [], ◌∷◌, ◌++◌, Option, none, some,
}
use ritebook.Prelude.{◌==◌, nat_eq, list_eq, if◌then◌else◌, ltb, length, contains}
use ritebook.Text.{Text, codes, strip}
use ritebook.Kernel.Identifiers.{valid_skill_name}
use ritebook.Kernel.TextSafety.{
  contains_terminal_control_characters, contains_unicode_surrogate_code_points,
}

-- A value of front matter: a text, a mapping or another; a key is a text or another.
mutual
  pub data Value : Type 0 where
    text : Text → Value
    mapping : Entries → Value
    other_value : Value

  pub data Key : Type 0 where
    text_key : Text → Key
    other_key : Key

  pub data Entries : Type 0 where
    no_entries : Entries
    entry : Key → Value → Entries → Entries

pub record ParsedSkillHeader : Type 0 where
  pub skill_file : Text
  pub expected_name : Text
  pub frontmatter : Value

-- The messages.
pub data Message : Type 0 where
  frontmatter_must_be_mapping keys_must_be_strings unsupported_fields : Message
  name_required name_must_be_string name_must_be_kebab_case : Message
  name_must_match : Text → Message
  description_required description_must_be_string description_must_not_be_blank description_too_long
        description_control_characters description_surrogates :
      Message
  must_be_string : Text → Message
  compatibility_must_not_be_blank compatibility_too_long : Message
  metadata_must_be_mapping metadata_keys_must_be_strings metadata_values_must_be_strings : Message

pub record SkillValidationIssue : Type 0 where
  pub skill_file : Text
  pub message : Message

abbrev pub allowed_frontmatter_fields : List Text
allowed_frontmatter_fields =
    codes "allowed-tools"
    ∷ codes "compatibility"
    ∷ codes "description"
    ∷ codes "license"
    ∷ codes "metadata"
    ∷ codes "name"
    ∷ []

abbrev is_text_key : Key → Bool
is_text_key (text_key name) = true
is_text_key other_key = false

abbrev is_unsupported : Key → Bool
is_unsupported (text_key name) = not (contains allowed_frontmatter_fields name)
is_unsupported other_key = false

abbrev is_text : Value → Bool
is_text (text value) = true
is_text _ = false

abbrev any_key : (Key → Bool) → Entries → Bool
any_key p no_entries = false
any_key p (entry key value entries) = p key || any_key p entries

abbrev any_value : (Value → Bool) → Entries → Bool
any_value p no_entries = false
any_value p (entry key value entries) = p value || any_value p entries

abbrev is_key : Text → Key → Bool
is_key name (text_key key) = key == name
is_key name other_key = false

-- frontmatter[name], if name in frontmatter
unfoldable pub field : Text → Entries → Option Value
field name no_entries = none
field name (entry key value entries) =
    let rest = field name entries in if is_key name key then some value else rest

abbrev pub when : Bool → Message → List Message
when true message = message ∷ []
when false message = []

unfoldable pub validate_top_level_fields : Entries → List Message
validate_top_level_fields entries =
    when (any_key (λ key. not (is_text_key key)) entries) keys_must_be_strings
    ++ when (any_key is_unsupported entries) unsupported_fields

unfoldable pub validate_name : Text → Option Value → List Message
validate_name expected_name none = name_required ∷ []
validate_name expected_name (some (text name)) =
    when (not (valid_skill_name name)) name_must_be_kebab_case
    ++ when (not (name == expected_name)) (name_must_match expected_name)
validate_name expected_name (some _) = name_must_be_string ∷ []

abbrev pub max_description_length : ℕ
max_description_length = 1024

abbrev pub check_description : Text → List Message
check_description normalized =
    if normalized == []
    then description_must_not_be_blank ∷ []
    else if ltb max_description_length (length normalized)
    then description_too_long ∷ []
    else if contains_terminal_control_characters normalized
    then description_control_characters ∷ []
    else when (contains_unicode_surrogate_code_points normalized) description_surrogates

unfoldable pub validate_description : Option Value → List Message
validate_description none = description_required ∷ []
validate_description (some (text description)) = check_description (strip description)
validate_description (some _) = description_must_be_string ∷ []

unfoldable pub validate_optional_string : Text → Option Value → List Message
validate_optional_string field_name none = []
validate_optional_string field_name (some (text value)) = []
validate_optional_string field_name (some _) = must_be_string field_name ∷ []

abbrev pub max_compatibility_length : ℕ
max_compatibility_length = 500

unfoldable pub validate_compatibility : Option Value → List Message
validate_compatibility none = []
validate_compatibility (some (text value)) =
    if strip value == []
    then compatibility_must_not_be_blank ∷ []
    else when (ltb max_compatibility_length (length value)) compatibility_too_long
validate_compatibility (some _) = must_be_string (codes "compatibility") ∷ []

unfoldable pub validate_metadata : Option Value → List Message
validate_metadata none = []
validate_metadata (some (mapping entries)) =
    if any_key (λ key. not (is_text_key key)) entries
    then metadata_keys_must_be_strings ∷ []
    else when (any_value (λ value. not (is_text value)) entries) metadata_values_must_be_strings
validate_metadata (some _) = metadata_must_be_mapping ∷ []

-- `validate_header`, for a mapping
unfoldable pub validate_entries : Text → Entries → List Message
unfolding validate_top_level_fields validate_name validate_description validate_optional_string
    validate_compatibility validate_metadata field
validate_entries expected_name entries =
    validate_top_level_fields entries
    ++ (validate_name expected_name (field (codes "name") entries)
        ++ (validate_description (field (codes "description") entries)
            ++ (validate_optional_string (codes "license") (field (codes "license") entries)
                ++ (validate_compatibility (field (codes "compatibility") entries)
                    ++ (validate_metadata (field (codes "metadata") entries)
                        ++ validate_optional_string (codes "allowed-tools")
                            (field (codes "allowed-tools") entries))))))

abbrev pub messages : Text → Value → List Message
messages expected_name (mapping entries) = validate_entries expected_name entries
messages expected_name _ = frontmatter_must_be_mapping ∷ []

abbrev pub to_issues : Text → List Message → List SkillValidationIssue
to_issues skill_file [] = []
to_issues skill_file (message ∷ messages) =
    record { skill_file = skill_file; message = message } ∷ to_issues skill_file messages

unfoldable pub validate_header : ParsedSkillHeader → List SkillValidationIssue
unfolding validate_entries
validate_header header =
    to_issues header.skill_file (messages header.expected_name header.frontmatter)
