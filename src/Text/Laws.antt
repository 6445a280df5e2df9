-- ===== src/Text/Laws.antt =====
-- Laws of the operations on texts.
use ritebook.Prelude.{ℕ, ◌≡◌, refl, ap, ◌≢◌, List, [], ◌∷◌, ◌++◌, arith}
use ritebook.Prelude.{◌==◌, nat_eq, list_eq, Bool-cases, inl, inr, All}
use ritebook.Prelude.{Option, none, some, eq_iff, eq_refl}
use ritebook.Text.{Text, split, join, split_once, prepend}

-- A text with no separator in it.
abbrev pub Lacks : ℕ → Text → Type 0
Lacks c = All (λ x. x ≢ c)

pub split-cons :
    (separator : ℕ) (value : Text)
    → (p : Text) × (ps : List Text) × (split separator value ≡ p ∷ ps)
unfolding split
split-cons separator [] = ([], [], refl)
split-cons separator (c ∷ value) =
    let (p, ps, e) = split-cons separator value in
    elim (Bool-cases (c == separator)) [
      | inl h ↦ ([], split separator value, rw h)
      | inr h ↦ (c ∷ p, ps, rw (h, e))
    ]

join-grow :
    (separator c : ℕ) (p : Text) (ps : List Text)
    → join separator ((c ∷ p) ∷ ps) ≡ c ∷ join separator (p ∷ ps)
unfolding join
join-grow separator c p [] = refl
join-grow separator c p (q ∷ ps) = refl

join-nil_cons :
    (separator : ℕ) (p : Text) (ps : List Text)
    → join separator ([] ∷ p ∷ ps) ≡ separator ∷ join separator (p ∷ ps)
unfolding join
join-nil_cons separator p ps = refl

-- Joining what was split gives the text back.
pub join-split : (separator : ℕ) (value : Text) → join separator (split separator value) ≡ value
unfolding split
join-split separator [] = unfold join in refl
join-split separator (c ∷ value) =
    let (p, ps, e) = split-cons separator value in
    let ih : join separator (p ∷ ps) ≡ value = rw e at (join-split separator value) in
    elim (Bool-cases (c == separator)) [
      | inl h ↦ rw (h, e) (rw join-nil_cons (cc (ih, (eq_iff c separator).0 h)))
      | inr h ↦ rw (h, e) (rw join-grow (ap (λ (t : Text). c ∷ t) ih))
    ]

-- No part of a split holds the separator.
pub split-Lacks : (separator : ℕ) (value : Text) → All (Lacks separator) (split separator value)
unfolding split
split-Lacks separator [] = (tt, tt)
split-Lacks separator (c ∷ value) =
    let (p, ps, e) = split-cons separator value in
    let ih : All (Lacks separator) (p ∷ ps) = rw e at (split-Lacks separator value) in
    elim (Bool-cases (c == separator)) [
      | inl h ↦ rw (h, e) (tt, ih)
      | inr h ↦ rw (h, e) (((ground arith, ih.0), ih.1))
    ]

prepend-eq-some :
    (c : ℕ) (o : Option (Text × Text)) (before after : Text)
    → prepend c o ≡ some (before, after)
    → (x : Text) × (o ≡ some (x, after)) × (c ∷ x ≡ before)
prepend-eq-some c none before after h = ground arith
prepend-eq-some c (some (x, y)) before after h = (x, ground arith, ground arith)

-- A split at the first separator puts the text together again, and cuts at the first one.
pub split_once-eq-some :
    (separator : ℕ) (value before after : Text)
    → split_once separator value ≡ some (before, after)
    → (value ≡ before ++ (separator ∷ after)) × Lacks separator before
unfolding split_once
split_once-eq-some separator [] before after h = ground arith
split_once-eq-some separator (c ∷ value) before after h = elim (Bool-cases (c == separator)) [
  | inl e ↦
      let found : some ([], value) ≡ some (before, after) = rw e at h in
      let same : [] ≡ before = cc found in rw (← same) (cc (found, (eq_iff c separator).0 e), tt)
  | inr e ↦
      let found : prepend c (split_once separator value) ≡ some (before, after) = rw e at h in
      let (x, inner, same) = prepend-eq-some c (split_once separator value) before after found in
      let (whole, clean) = split_once-eq-some separator value x after inner in
      rw (← same) (cc whole, (ground arith, clean))
]

-- The first separator is the one that follows a text without it.
pub split_once-append :
    (separator : ℕ) (before after : Text)
    → Lacks separator before
    → split_once separator (before ++ (separator ∷ after)) ≡ some (before, after)
unfolding split_once
split_once-append separator [] after h = rw (eq_refl separator)
split_once-append separator (c ∷ before) after h =
    ground (arith, split_once-append separator before after (h.1))
