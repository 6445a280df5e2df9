-- ===== src/Installation/Targets/Overlap.antt =====
-- Which sets of targets a sync accepts: no target lies in or above another.
use ritebook.Prelude.{◌≡◌, refl, ◌↔◌, true, false, List, [], ◌∷◌, ◌++◌, arith, ok}
use ritebook.Prelude.{All, any, any-append, nat_eq, list_eq, eq_iff}
use ritebook.Prelude.{◌⊎◌, inl, inr, Bool-cases}
use ritebook.Text.{Text}
use ritebook.Kernel.PortablePaths.{posix_parts}
use ritebook.Installation.Records.{DesiredInstall}
use ritebook.Installation.Targets.{
  parts_overlap, targets_overlap, reject_from, reject_conflicting_targets,
}

-- One of two lists of parts begins the other.
abbrev pub Nested : List Text → List Text → Type 0
Nested a b = ((rest : List Text) × (a ++ rest ≡ b)) ⊎ ((rest : List Text) × (b ++ rest ≡ a))

abbrev pub target_parts : DesiredInstall → List Text
target_parts item = posix_parts item.planned_target.canonical_target

Nested-parts_overlap : (a b : List Text) → parts_overlap a b ≡ true → Nested a b
unfolding parts_overlap
Nested-parts_overlap [] b h = inl (b, refl)
Nested-parts_overlap (x ∷ a) [] h = inr (x ∷ a, refl)
Nested-parts_overlap (x ∷ a) (y ∷ b) h =
    let same : x ≡ y = (eq_iff x y).0 (ground arith) in
    elim (Nested-parts_overlap a b (ground arith)) [
      | inl (rest, e) ↦ inl (rest, cc)
      | inr (rest, e) ↦ inr (rest, cc)
    ]

parts_overlap_of_prefix :
    (a rest : List Text)
    → (parts_overlap a (a ++ rest) ≡ true) × (parts_overlap (a ++ rest) a ≡ true)
unfolding parts_overlap
parts_overlap_of_prefix [] [] = (refl, refl)
parts_overlap_of_prefix [] (x ∷ rest) = (refl, refl)
parts_overlap_of_prefix (x ∷ a) rest = ground (arith, eq_iff x x, parts_overlap_of_prefix a rest)

parts_overlap-Nested : (a b : List Text) → Nested a b → parts_overlap a b ≡ true
parts_overlap-Nested a b (inl (rest, e)) = rw (← e) ((parts_overlap_of_prefix a rest).0)
parts_overlap-Nested a b (inr (rest, e)) = rw (← e) ((parts_overlap_of_prefix b rest).1)

-- One target lies in the other, or is the other.
abbrev pub Overlap : DesiredInstall → DesiredInstall → Type 0
Overlap first second = Nested (target_parts first) (target_parts second)

targets_overlap_iff :
    (first second : DesiredInstall)
    → (targets_overlap first second ≡ false) ↔ (¬ Overlap first second)
unfolding targets_overlap
targets_overlap_iff first second = (
  λ h n. ground (arith, parts_overlap-Nested (target_parts first) (target_parts second) n),
  λ h. elim (Bool-cases (parts_overlap (target_parts first) (target_parts second))) [
    | inl t ↦ absurd (h (Nested-parts_overlap _ _ t))
    | inr f ↦ f
  ],
)

-- No two targets overlap.
abbrev pub HasSeparateTargets : List DesiredInstall → Type 0
HasSeparateTargets [] = Unit
HasSeparateTargets (item ∷ desired) =
    All (λ other. ¬ Overlap other item) desired × HasSeparateTargets desired

abbrev Clear : List DesiredInstall → List DesiredInstall → Type 0
Clear seen = All (λ item. any (λ other. targets_overlap item other) seen ≡ false)

Clear-append :
    (seen : List DesiredInstall) (item : DesiredInstall) (desired : List DesiredInstall)
    → Clear (seen ++ (item ∷ [])) desired
      ↔ (Clear seen desired × All (λ other. ¬ Overlap other item) desired)
Clear-append seen item [] = (λ h. (tt, tt), λ h. tt)
Clear-append seen item (d ∷ desired) = ground (
  arith,
  any-append (λ other. targets_overlap d other) seen (item ∷ []),
  targets_overlap_iff d item,
  Clear-append seen item desired,
)

reject_from_iff :
    (seen desired : List DesiredInstall)
    → (reject_from seen desired ≡ ok tt) ↔ (Clear seen desired × HasSeparateTargets desired)
unfolding reject_from
reject_from_iff seen [] = (λ h. (tt, tt), λ h. refl)
reject_from_iff seen (item ∷ desired) =
    ground (arith, reject_from_iff (seen ++ (item ∷ [])) desired, Clear-append seen item desired)

Clear-nil : (desired : List DesiredInstall) → Clear [] desired
Clear-nil [] = tt
Clear-nil (item ∷ desired) = (refl, Clear-nil desired)

-- The targets of a sync are accepted exactly when none is, contains or lies in another.
pub reject_conflicting_targets_iff :
    (desired : List DesiredInstall)
    → (reject_conflicting_targets desired ≡ ok tt) ↔ HasSeparateTargets desired
unfolding reject_conflicting_targets
reject_conflicting_targets_iff desired = (
  λ h. ((reject_from_iff [] desired).0 h).1,
  λ h. (reject_from_iff [] desired).1 (Clear-nil desired, h),
)
