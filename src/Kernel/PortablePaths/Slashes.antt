-- ===== src/Kernel/PortablePaths/Slashes.antt =====
-- The tests of a malformed literal against the parts between its slashes.
use ritebook.Prelude.{ℕ, ◌≡◌, refl, Bool, true, false, ◌||◌, List, [], ◌∷◌, any, arith}
use ritebook.Prelude.{◌==◌, nat_eq, list_eq, list_beq, Bool-cases, inl, inr, filter}
use ritebook.Prelude.{eq_iff}
use ritebook.Text.{Text, codes, split, starts_with, ends_with, has_sub}
use ritebook.Text.Laws.{split-cons}
use ritebook.Kernel.PortablePaths.{is_part, posix_parts, is_malformed_literal}

abbrev pub is_empty : Text → Bool
is_empty [] = true
is_empty (c ∷ s) = false

abbrev later : List Text → List Text
later [] = []
later (part ∷ parts) = parts

-- The first part is empty in an empty text, and where the text begins with the separator.
head_empty :
    (value p : Text) (ps : List Text)
    → split b'/' value ≡ p ∷ ps
    → is_empty p ≡ (is_empty value || starts_with value (codes "/"))
unfolding split starts_with
head_empty [] p ps e = ground arith
head_empty (c ∷ value) p ps e = let (q, qs, e') = split-cons b'/' value in ground arith

beq_nil : (value : Text) → (value == []) ≡ is_empty value
unfolding list_beq
beq_nil [] = refl
beq_nil (c ∷ value) = refl

later_empty :
    (value : Text)
    → any is_empty (later (split b'/' value))
      ≡ (ends_with value (codes "/") || has_sub value (codes "//"))
unfolding split starts_with ends_with has_sub list_beq
later_empty [] = refl
later_empty (c ∷ value) =
    let (q, qs, e) = split-cons b'/' value in
    let ih : any is_empty qs ≡ (ends_with value (codes "/") || has_sub value (codes "//")) =
      rw e at (later_empty value) in
    rw e (ground (arith, ih, head_empty value q qs e, beq_nil value))

-- A text is empty, begins or ends with a slash or holds two in a row exactly when a part is empty.
pub any-is_empty-split :
    (value : Text)
    → any is_empty (split b'/' value) ≡ (
        value == []
        || starts_with value (codes "/")
        || ends_with value (codes "/")
        || has_sub value (codes "//"))
any-is_empty-split value =
    let (p, ps, e) = split-cons b'/' value in
    let tail : any is_empty ps ≡ (ends_with value (codes "/") || has_sub value (codes "//")) =
      rw e at (later_empty value) in
    rw e (ground (arith, head_empty value p ps e, tail, beq_nil value))

has_sub_char : (c : ℕ) (value : Text) → has_sub value (c ∷ []) ≡ any (λ x. x == c) value
unfolding has_sub starts_with
has_sub_char c [] = refl
has_sub_char c (x ∷ value) = ground (arith, has_sub_char c value)

-- A test of characters that the separator fails is made part by part.
pub any-split :
    (p : ℕ → Bool) (separator : ℕ) (value : Text)
    → p separator ≡ false
    → any p value ≡ any (any p) (split separator value)
unfolding split
any-split p separator [] h = refl
any-split p separator (c ∷ value) h =
    let (q, qs, e) = split-cons separator value in
    let ih : any p value ≡ any (any p) (q ∷ qs) = rw e at (any-split p separator value h) in
    elim (Bool-cases (c == separator)) [
      | inl k ↦ rw (k, e, (eq_iff c separator).0 k, h) ih
      | inr k ↦ rw (k, e) (ground (arith, ih))
    ]

-- A part that the literal tests refuse.
unfoldable pub is_malformed_part : Text → Bool
is_malformed_part part =
    is_empty part || any (λ x. x == b'\\') part || part == codes "." || part == codes ".."

any-is_malformed_part :
    (parts : List Text)
    → any is_malformed_part parts ≡ (
        any is_empty parts
        || any (any (λ x. x == b'\\')) parts
        || any (λ part. part == codes "." || part == codes "..") parts)
unfolding is_malformed_part
any-is_malformed_part [] = refl
any-is_malformed_part (part ∷ parts) = ground (arith, any-is_malformed_part parts)

-- A literal is malformed exactly when one of its parts is.
pub is_malformed_literal-split :
    (value : Text) → is_malformed_literal value ≡ any is_malformed_part (split b'/' value)
unfolding is_malformed_literal
is_malformed_literal-split value = ground (
  arith,
  any-is_empty-split value,
  has_sub_char b'\\' value,
  any-split (λ x. x == b'\\') b'/' value refl,
  any-is_malformed_part (split b'/' value),
)

filter_of_All :
    (parts : List Text) → any is_malformed_part parts ≡ false → filter is_part parts ≡ parts
unfolding filter is_malformed_part
filter_of_All [] h = refl
filter_of_All (part ∷ parts) h = ground (arith, filter_of_All parts, beq_nil part)

starts_with_slash :
    (value : Text) → is_malformed_literal value ≡ false → starts_with value (codes "/") ≡ false
unfolding is_malformed_literal
starts_with_slash value h = ground arith

starts_with_longer :
    (value : Text)
    → starts_with value (codes "/") ≡ false
    → (starts_with value (codes "//") ≡ false) × (starts_with value (codes "///") ≡ false)
unfolding starts_with
starts_with_longer [] h = (refl, refl)
starts_with_longer (c ∷ value) h = ground arith

-- The parts of the path of a literal that is not malformed are the parts between the slashes.
pub posix_parts-split :
    (value : Text) → is_malformed_literal value ≡ false → posix_parts value ≡ split b'/' value
unfolding posix_parts
posix_parts-split value h =
    let clean : any is_malformed_part (split b'/' value) ≡ false =
      rw is_malformed_literal-split at h in
    rw (filter_of_All _ clean) (ground (arith, starts_with_slash value h, starts_with_longer value))
