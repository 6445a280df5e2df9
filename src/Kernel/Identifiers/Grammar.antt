-- ===== src/Kernel/Identifiers/Grammar.antt =====
-- Which texts are kebab-case identifiers, stated through the segments between the hyphens, and the
-- agreement of the linter's pattern with the kernel's.
use ritebook.Prelude.{
  ℕ, ◌≤◌, ◌≡◌, refl, ◌≢◌, ◌↔◌, Bool, true, false, ◌&&◌, ◌||◌, not, List, [], ◌∷◌,
}
use ritebook.Prelude.{arith, ◌==◌, nat_eq, list_eq, length, all, All, All-all}
use ritebook.Prelude.{list_beq, ap}
use ritebook.Text.{Text, codes, split, has_sub, starts_with}
use ritebook.Text.Laws.{split-cons}
use ritebook.Kernel.Identifiers.{
  is_alnum, matches_kebab, is_kebab_case_identifier, ends_alnum, valid_skill_name,
}

abbrev is_empty : Text → Bool
is_empty [] = true
is_empty (c ∷ s) = false

abbrev is_segment : Text → Bool
is_segment part = not (is_empty part) && all is_alnum part

-- The parts of a split, of which the first may be empty where a run has begun.
abbrev segments_after : Bool → List Text → Bool
segments_after begun [] = false
segments_after begun (part ∷ parts) =
    (begun || not (is_empty part)) && all is_alnum part && all is_segment parts

hyphen_not_alnum : (c : ℕ) → is_alnum c ≡ true → (c == b'-') ≡ false
unfolding is_alnum
hyphen_not_alnum c h = ground arith

matches_kebab-split :
    (begun : Bool) (value : Text)
    → matches_kebab begun value ≡ segments_after begun (split b'-' value)
unfolding matches_kebab split
matches_kebab-split begun [] = ground arith
matches_kebab-split begun (c ∷ value) =
    let (p, ps, e) = split-cons b'-' value in
    rw e (
      ground (
        arith,
        hyphen_not_alnum c,
        ap (segments_after true) e,
        ap (segments_after false) e,
        matches_kebab-split true value,
        matches_kebab-split false value,
      ))

-- One or more lower-case ASCII letters and digits.
abbrev pub IsSegment : Text → Type 0
IsSegment part = (part ≢ []) × All (λ c. is_alnum c ≡ true) part

is_segment_iff : (part : Text) → (is_segment part ≡ true) ↔ IsSegment part
is_segment_iff [] = ground arith
is_segment_iff (c ∷ part) = ground (arith, All-all is_alnum part)

all-is_segment_iff : (parts : List Text) → (all is_segment parts ≡ true) ↔ All IsSegment parts
all-is_segment_iff [] = (λ h. tt, λ h. refl)
all-is_segment_iff (part ∷ parts) = ground (arith, is_segment_iff part, all-is_segment_iff parts)

segments_after-false :
    (value : Text) → segments_after false (split b'-' value) ≡ all is_segment (split b'-' value)
segments_after-false value = let (p, ps, e) = split-cons b'-' value in rw e (ground arith)

-- A text is an identifier exactly when it has 1 to 64 characters and each part between hyphens is
-- a nonempty run of lower-case ASCII letters and digits.
pub is_kebab_case_identifier_iff :
    (value : Text)
    → (is_kebab_case_identifier value ≡ true)
      ↔ ((1 ≤ length value) × (length value ≤ 64) × All IsSegment (split b'-' value))
unfolding is_kebab_case_identifier
is_kebab_case_identifier_iff value = ground (
  arith,
  matches_kebab-split false value,
  segments_after-false value,
  all-is_segment_iff (split b'-' value),
)

abbrev head_alnum : Text → Bool
head_alnum [] = false
head_alnum (c ∷ value) = is_alnum c

-- The automaton against the two tests of the linter's pattern.
matches_kebab-linter :
    (value : Text)
    → (matches_kebab true value
        ≡ (not (has_sub value (codes "--")) && (is_empty value || ends_alnum value)))
      × (matches_kebab false value
          ≡ (head_alnum value && not (has_sub value (codes "--")) && ends_alnum value))
unfolding matches_kebab has_sub starts_with ends_alnum
matches_kebab-linter [] = (refl, refl)
matches_kebab-linter (c ∷ []) = ground (arith, hyphen_not_alnum c)
matches_kebab-linter (c ∷ d ∷ value) =
    ground (arith, hyphen_not_alnum c, hyphen_not_alnum d, matches_kebab-linter (d ∷ value))

-- The linter's name pattern accepts what the shared kernel calls an identifier, and nothing else.
pub valid_skill_name_eq : (value : Text) → valid_skill_name value ≡ is_kebab_case_identifier value
unfolding valid_skill_name is_kebab_case_identifier list_beq
valid_skill_name_eq [] = refl
valid_skill_name_eq (c ∷ []) = ground (arith, (matches_kebab-linter (c ∷ [])).1)
valid_skill_name_eq (c ∷ d ∷ value) = ground (arith, (matches_kebab-linter (c ∷ d ∷ value)).1)
