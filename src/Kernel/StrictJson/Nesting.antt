-- ===== src/Kernel/StrictJson/Nesting.antt =====
-- The brackets of a text, by a lexer of JSON's strings, and the scan that bounds their depth.
use ritebook.Prelude.{
  ℕ, suc, zero, ◌+◌, ◌≤◌, ◌≡◌, ◌↔◌, refl, true, false, ◌||◌, [], ◌∷◌, ◌++◌, ok, ◌==◌, nat_eq,
  if◌then◌else◌, arith, take, length, filter, Bool-cases, inl, inr,
}
use ritebook.Text.{Text}
use ritebook.Kernel.StrictJson.{Scan, scan_step, scan_nesting, require_bounded_nesting}

-- Where a lexer is: outside strings, in one, or after a backslash in one.
pub data Place : Type 0 where
  outside within after_backslash : Place

abbrev next_place : Place → ℕ → Place
next_place outside c = if c == b'"' then within else outside
next_place within c = if c == b'"' then outside else if c == b'\\' then after_backslash else within
next_place after_backslash c = within

abbrev shown : Place → ℕ → Text
shown outside c = if c == b'"' then [] else c ∷ []
shown _ c = []

-- The text without its strings: a quote begins one, and the next quote that no backslash escapes
-- ends it.
unfoldable pub without_strings : Place → Text → Text
without_strings p [] = []
without_strings p (c ∷ text) = shown p c ++ without_strings (next_place p c) text

abbrev pub openings : Text → ℕ
openings text = length (filter (λ c. c == b'[' || c == b'{') text)

abbrev pub closings : Text → ℕ
closings text = length (filter (λ c. c == b']' || c == b'}') text)

-- From this depth on, nowhere are more than 32 brackets open.
abbrev IsShallow : ℕ → ℕ → Text → Type 0
IsShallow opened closed text =
    (n : ℕ) → opened + openings (take n text) ≤ 32 + (closed + closings (take n text))

-- The state of the scan at a place.
abbrev scan_of : Place → ℕ → ℕ → Scan
scan_of outside o c = record { opened = o; closed = c; in_string = false; escaped = false }
scan_of within o c = record { opened = o; closed = c; in_string = true; escaped = false }
scan_of after_backslash o c = record { opened = o; closed = c; in_string = true; escaped = true }

openings-cons : (x : ℕ) (text : Text) → openings (x ∷ text) ≡ openings (x ∷ []) + openings text
unfolding filter
openings-cons x text = ground arith

closings-cons : (x : ℕ) (text : Text) → closings (x ∷ text) ≡ closings (x ∷ []) + closings text
unfolding filter
closings-cons x text = ground arith

IsShallow-tail :
    (o c x : ℕ) (text : Text)
    → IsShallow o c (x ∷ text)
    → IsShallow (o + openings (x ∷ [])) (c + closings (x ∷ [])) text
unfolding take
IsShallow-tail o c x text h n =
    omega (arith, h (suc n), openings-cons x (take n text), closings-cons x (take n text))

IsShallow-cons :
    (o c x : ℕ) (text : Text)
    → o ≤ 32 + c
    → IsShallow (o + openings (x ∷ [])) (c + closings (x ∷ [])) text
    → IsShallow o c (x ∷ text)
unfolding take filter
IsShallow-cons o c x text le h zero = omega arith
IsShallow-cons o c x text le h (suc n) =
    omega (arith, h n, openings-cons x (take n text), closings-cons x (take n text))

empty-IsShallow : (o c : ℕ) → o ≤ 32 + c → IsShallow o c []
unfolding take filter
empty-IsShallow o c le zero = omega arith
empty-IsShallow o c le (suc n) = omega arith

-- What is shown of a character may be put before the rest, or counted.
shown-IsShallow :
    (p : Place) (o c x : ℕ) (text : Text)
    → o ≤ 32 + c
    → IsShallow o c (shown p x ++ text)
      ↔ IsShallow (o + openings (shown p x)) (c + closings (shown p x)) text
unfolding filter
shown-IsShallow outside o c x text le = elim (Bool-cases (x == b'"')) [
  | inl e ↦ rw e (λ h n. omega (arith, h n), λ h n. omega (arith, h n))
  | inr e ↦ rw e (IsShallow-tail o c x text, IsShallow-cons o c x text le)
]
shown-IsShallow within o c x text le = (λ h n. omega (arith, h n), λ h n. omega (arith, h n))
shown-IsShallow after_backslash o c x text le =
    (λ h n. omega (arith, h n), λ h n. omega (arith, h n))

scan_step-scan_of :
    (p : Place) (o c x : ℕ)
    → scan_step (scan_of p o c) x
      ≡ scan_of (next_place p x) (o + openings (shown p x)) (c + closings (shown p x))
unfolding scan_step filter
scan_step-scan_of outside o c x = ground arith
scan_step-scan_of within o c x = ground arith
scan_step-scan_of after_backslash o c x = ground arith

scan_of-fields : (p : Place) (o c : ℕ) → ((scan_of p o c).opened ≡ o) × ((scan_of p o c).closed ≡ c)
scan_of-fields outside o c = (refl, refl)
scan_of-fields within o c = (refl, refl)
scan_of-fields after_backslash o c = (refl, refl)

-- One round: the scan goes on where the depth is not too great.
scan_nesting-scan_of :
    (p : Place) (o c x : ℕ) (text : Text)
    → o ≤ 32 + c
    → let o' = o + openings (shown p x) in
      let c' = c + closings (shown p x) in
      (scan_nesting (scan_of p o c) (x ∷ text) ≡ ok tt)
      ↔ ((o' ≤ 32 + c') × (scan_nesting (scan_of (next_place p x) o' c') text ≡ ok tt))
unfolding scan_nesting
scan_nesting-scan_of p o c x text le =
    let o' = o + openings (shown p x) in
    let c' = c + closings (shown p x) in
    let before = scan_of-fields p o c in
    let after = scan_of-fields (next_place p x) o' c' in
    rw (scan_step-scan_of p o c x, before.0, after.0, after.1) (ground arith)

scan_nesting_iff :
    (p : Place) (o c : ℕ) (text : Text)
    → o ≤ 32 + c
    → (scan_nesting (scan_of p o c) text ≡ ok tt) ↔ IsShallow o c (without_strings p text)
unfolding scan_nesting without_strings take filter
scan_nesting_iff p o c [] le = (λ h. empty-IsShallow o c le, λ h. refl)
scan_nesting_iff p o c (x ∷ text) le =
    let round = scan_nesting-scan_of p o c x text le in
    let put = shown-IsShallow p o c x (without_strings (next_place p x) text) le in
    (
      λ h.
          let (le', rest) = round.0 h in
          put.1 ((scan_nesting_iff (next_place p x) _ _ text le').0 rest),
      λ h.
          let le' : o + openings (shown p x) ≤ 32 + (c + closings (shown p x)) =
            ground (arith, put.0 h 0) in
          round.1 (le', (scan_nesting_iff (next_place p x) _ _ text le').1 (put.0 h)),
    )

-- The nesting of a text is accepted exactly when, of the text without its strings, no prefix has
-- more than 32 brackets opened beyond those closed. A string ends at the first quote that no
-- backslash escapes.
pub require_bounded_nesting_iff :
    (text : Text)
    → (require_bounded_nesting text ≡ ok tt) ↔ (
        (n : ℕ)
        → let before = take n (without_strings outside text) in
          openings before ≤ 32 + closings before)
unfolding require_bounded_nesting
require_bounded_nesting_iff text =
    let both = scan_nesting_iff outside 0 0 text (omega arith) in
    (λ h n. omega (arith, both.0 h n), λ h. both.1 (λ n. omega (arith, h n)))
