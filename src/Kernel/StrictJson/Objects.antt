-- ===== src/Kernel/StrictJson/Objects.antt =====
-- The hook for objects.
use ritebook.Prelude.{
  ◌≡◌, ◌↔◌, refl, false, List, [], ◌∷◌, ok, nat_eq, list_eq, contains, arith, Result-cases, inl,
  inr,
}
use ritebook.Text.{Text}
use ritebook.Json.{Members, no_members, member}
use ritebook.Kernel.StrictJson.{add_members, object_without_duplicate_members}

-- No name stands twice, nor among `names`.
abbrev pub HasNewKeys : List Text → Members → Type 0
HasNewKeys names no_members = Unit
HasNewKeys names (member name value pairs) =
    (contains names name ≡ false) × HasNewKeys (name ∷ names) pairs

add_members_sound :
    (names : List Text) (pairs object : Members)
    → add_members names pairs ≡ ok object
    → HasNewKeys names pairs × (object ≡ pairs)
unfolding add_members
add_members_sound names no_members object h = (tt, ground arith)
add_members_sound names (member name value pairs) object h =
    elim (Result-cases (add_members (name ∷ names) pairs)) [
      | inl (rest, e) ↦
          let (fresh, same) = add_members_sound (name ∷ names) pairs rest e in ground (arith, e)
      | inr (signal, e) ↦ ground (arith, e)
    ]

add_members_complete :
    (names : List Text) (pairs : Members)
    → HasNewKeys names pairs
    → add_members names pairs ≡ ok pairs
unfolding add_members
add_members_complete names no_members h = refl
add_members_complete names (member name value pairs) (new, h) =
    rw new (rw (add_members_complete (name ∷ names) pairs h))

-- An object is decoded exactly when none of its names stands before it, and then to its pairs.
pub object_without_duplicate_members_iff :
    (pairs object : Members)
    → (object_without_duplicate_members pairs ≡ ok object)
      ↔ (HasNewKeys [] pairs × (object ≡ pairs))
unfolding object_without_duplicate_members
object_without_duplicate_members_iff pairs object =
    (add_members_sound [] pairs object, λ h. rw (h.1) (add_members_complete [] pairs (h.0)))
