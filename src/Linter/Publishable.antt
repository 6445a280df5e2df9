-- ===== src/Linter/Publishable.antt =====
-- Headers without issues, and the checks of the shared kernel that the publisher applies.
use ritebook.Prelude.{
  ◌≡◌, refl, sym, ap, ◌∙◌, Bool, true, false, not, List, [], ◌∷◌, ◌++◌, Option, none, some, String,
  ok, arith, any,
}
use ritebook.Prelude.{◌==◌, nat_eq, list_eq, eq_iff, if◌then◌else◌, ltb, length, or_false}
use ritebook.Text.{Text, codes, strip}
use ritebook.Kernel.Identifiers.{is_kebab_case_identifier}
use ritebook.Kernel.Identifiers.Grammar.{valid_skill_name_eq}
use ritebook.Kernel.TextSafety.{
  contains_terminal_control_characters, contains_unicode_surrogate_code_points,
  is_non_portable_character, normalize_portable_description, require_portable_text,
}
use ritebook.Linter.{
  Value, text, mapping, other_value, Entries, ParsedSkillHeader, Message, when, field,
  validate_name, validate_description, check_description, validate_entries, validate_header,
  max_description_length, to_issues, messages,
}

to_issues_nil : (f : Text) (ms : List Message) → to_issues f ms ≡ [] → ms ≡ []
to_issues_nil f [] h = refl
to_issues_nil f (m ∷ ms) h = ground arith

append_nil : {A : Type 0} (xs ys : List A) → xs ++ ys ≡ [] → (xs ≡ []) × (ys ≡ [])
append_nil [] ys h = (refl, h)
append_nil (x ∷ xs) ys h = ground arith

when_nil : (b : Bool) (m : Message) → when b m ≡ [] → b ≡ false
when_nil true m h = ground arith
when_nil false m h = refl

true_of_not : (b : Bool) → not b ≡ false → b ≡ true
true_of_not true h = refl
true_of_not false h = ground arith

tests_false :
    (a b c d : Bool) (k l m n : Message)
    → (if a then k ∷ [] else if b then l ∷ [] else if c then m ∷ [] else when d n) ≡ []
    → (a ≡ false) × (b ≡ false) × (c ≡ false) × (d ≡ false)
tests_false true b c d k l m n h = ground arith
tests_false false true c d k l m n h = ground arith
tests_false false false true d k l m n h = ground arith
tests_false false false false true k l m n h = ground arith
tests_false false false false false k l m n h = (refl, refl, refl, refl)

any_portable :
    (value : Text)
    → contains_terminal_control_characters value ≡ false
    → contains_unicode_surrogate_code_points value ≡ false
    → any is_non_portable_character value ≡ false
unfolding contains_terminal_control_characters contains_unicode_surrogate_code_points
    is_non_portable_character
any_portable [] h k = refl
any_portable (c ∷ value) h k =
    let (h0, h1) = or_false _ _ h in
    let (k0, k1) = or_false _ _ k in ground (arith, any_portable value h1 k1)

validate_name_nil :
    (expected : Text) (found : Option Value)
    → validate_name expected found ≡ []
    → (found ≡ some (text expected)) × (is_kebab_case_identifier expected ≡ true)
unfolding validate_name
validate_name_nil expected none h = ground arith
validate_name_nil expected (some (mapping _)) h = ground arith
validate_name_nil expected (some other_value) h = ground arith
validate_name_nil expected (some (text name)) h =
    let (kebab, same) = append_nil _ _ h in
    let kebab' = when_nil _ _ kebab in
    let same' = when_nil _ _ same in
    let name_is = (eq_iff name expected).0 (true_of_not _ same') in
    (
      ap (λ n. some (text n)) name_is,
      ap is_kebab_case_identifier (sym name_is)
          ∙ sym (valid_skill_name_eq name)
          ∙ true_of_not _ kebab',
    )

check_description_nil :
    (value : Text) (field_name : String)
    → check_description (strip value) ≡ []
    → normalize_portable_description value field_name ≡ ok (strip value)
unfolding normalize_portable_description require_portable_text
check_description_nil value field_name h =
    let (full, short, safe, whole) =
      tests_false (strip value == []) (ltb max_description_length (length (strip value)))
        (contains_terminal_control_characters (strip value))
        (contains_unicode_surrogate_code_points (strip value)) _ _ _ _ h in
    rw (full, short, any_portable (strip value) safe whole)

validate_description_nil :
    (found : Option Value) (field_name : String)
    → validate_description found ≡ []
    → (value : Text) × (found ≡ some (text value))
      × (normalize_portable_description value field_name ≡ ok (strip value))
unfolding validate_description
validate_description_nil none f h = ground arith
validate_description_nil (some (mapping _)) f h = ground arith
validate_description_nil (some other_value) f h = ground arith
validate_description_nil (some (text value)) f h = (value, refl, check_description_nil value f h)

messages_nil :
    (expected : Text) (found : Value) (field_name : String)
    → messages expected found ≡ []
    → (entries : Entries) × (description : Text) × (found ≡ mapping entries)
      × (field (codes "name") entries ≡ some (text expected))
      × (is_kebab_case_identifier expected ≡ true)
      × (field (codes "description") entries ≡ some (text description))
      × (normalize_portable_description description field_name ≡ ok (strip description))
unfolding validate_entries
messages_nil expected (text value) f h = ground arith
messages_nil expected other_value f h = ground arith
messages_nil expected (mapping entries) f h =
    let (_, h1) = append_nil _ _ h in
    let (named, h2) = append_nil _ _ h1 in
    let (described, _) = append_nil _ _ h2 in
    let (name_is, kebab) = validate_name_nil expected (field (codes "name") entries) named in
    let (description, description_is, normal) =
      validate_description_nil (field (codes "description") entries) f described in
    (entries, description, refl, name_is, kebab, description_is, normal)

-- A header without issues is a mapping whose name is the expected one, an identifier of the shared
-- kernel, and whose description the shared kernel normalizes to its text without edge whitespace.
pub normalize_portable_description-validate_header :
    (header : ParsedSkillHeader) (field_name : String)
    → validate_header header ≡ []
    → (entries : Entries) × (description : Text) × (header.frontmatter ≡ mapping entries)
      × (field (codes "name") entries ≡ some (text header.expected_name))
      × (is_kebab_case_identifier header.expected_name ≡ true)
      × (field (codes "description") entries ≡ some (text description))
      × (normalize_portable_description description field_name ≡ ok (strip description))
unfolding validate_header
normalize_portable_description-validate_header header field_name h =
    messages_nil header.expected_name header.frontmatter field_name
      (to_issues_nil header.skill_file _ h)
