-- ===== src/Installation/State/Snapshots.antt =====
-- What the readers of a document make of entries in the order that the writers put them in.
use ritebook.Prelude.{◌≡◌, refl, Bool, true, ◌||◌, List, [], ◌∷◌, arith, map, filter, ok, some}
use ritebook.Prelude.{◌==◌, nat_eq, list_eq, eq_sym, contains, Bool-cases, inl, inr}
use ritebook.Prelude.Order.{text_leb_total, text_leb_trans}
use ritebook.Prelude.Sorting.{sorted, insert_sorted, sorted-IsSorted, sorted-eq, filter-IsSorted}
use ritebook.Text.{Text}
use ritebook.Installation.Records.{OwnedInstallation, require_optional_digest, require_index_digest}
use ritebook.Installation.State.Documents.{StateLibrary, by_target_id}
use ritebook.Installation.State.Reading.{
  have_distinct_targets, snapshot_of, check_snapshot, checked_snapshot,
}

abbrev pub ids : List OwnedInstallation → List Text
ids entries = map (λ (o : OwnedInstallation). o.target_id) entries

abbrev pub is_desired : OwnedInstallation → Bool
is_desired e = e.desired

-- The entries that a reader keeps of what a writer wrote.
abbrev pub kept : List OwnedInstallation → List OwnedInstallation
kept entries = filter is_desired (sorted by_target_id entries)

contains-insert_sorted :
    (x : OwnedInstallation) (ys : List OwnedInstallation) (t : Text)
    → contains (ids (insert_sorted by_target_id x ys)) t ≡ (x.target_id == t || contains (ids ys) t)
unfolding insert_sorted
contains-insert_sorted x [] t = refl
contains-insert_sorted x (y ∷ ys) t = elim (Bool-cases (by_target_id x y)) [
  | inl e ↦ rw e refl
  | inr e ↦ rw (e, contains-insert_sorted x ys t) (ground arith)
]

distinct-insert_sorted :
    (x : OwnedInstallation) (ys : List OwnedInstallation)
    → have_distinct_targets (insert_sorted by_target_id x ys) ≡ have_distinct_targets (x ∷ ys)
unfolding insert_sorted have_distinct_targets
distinct-insert_sorted x [] = refl
distinct-insert_sorted x (y ∷ ys) = elim (Bool-cases (by_target_id x y)) [
  | inl e ↦ rw e refl
  | inr e ↦
      rw (e, contains-insert_sorted x ys y.target_id, distinct-insert_sorted x ys)
        (ground (arith, eq_sym x.target_id y.target_id))
]

ids-sorted :
    (entries : List OwnedInstallation) (t : Text)
    → contains (ids (sorted by_target_id entries)) t ≡ contains (ids entries) t
unfolding sorted
ids-sorted [] t = refl
ids-sorted (x ∷ entries) t =
    rw (contains-insert_sorted x (sorted by_target_id entries) t, ids-sorted entries t) refl

distinct-sorted :
    (entries : List OwnedInstallation)
    → have_distinct_targets (sorted by_target_id entries) ≡ have_distinct_targets entries
unfolding sorted have_distinct_targets
distinct-sorted [] = refl
distinct-sorted (x ∷ entries) =
    rw
      (
        distinct-insert_sorted x (sorted by_target_id entries),
        ids-sorted entries x.target_id,
        distinct-sorted entries,
      )
      refl

by_target_id-sorted :
    (entries : List OwnedInstallation) → sorted by_target_id (kept entries) ≡ kept entries
by_target_id-sorted entries = sorted-eq by_target_id (kept entries) (
    filter-IsSorted by_target_id is_desired (sorted by_target_id entries) (
      sorted-IsSorted by_target_id (λ x y. text_leb_total x.target_id y.target_id)
        (λ x y z. text_leb_trans x.target_id y.target_id z.target_id) entries))

-- The rest of a reader, of what a writer wrote.
pub checked_snapshot-sorted :
    (L : StateLibrary) (entries : List OwnedInstallation) (digest : Text)
    → have_distinct_targets entries ≡ true
    → require_index_digest digest ≡ ok tt
    → checked_snapshot L (sorted by_target_id entries) digest
      ≡ ok (record { entries = kept entries; digest = some digest })
unfolding checked_snapshot check_snapshot snapshot_of require_optional_digest filter
checked_snapshot-sorted L entries digest distinct h =
    rw (distinct-sorted entries, distinct, h, by_target_id-sorted entries)
