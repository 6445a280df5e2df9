-- ===== src/Kernel/Timestamps.antt =====
-- shared_kernel/timestamps.py
use ritebook.Prelude.{
  ℕ, Bool, true, false, ◌&&◌, not, [], ◌∷◌, ◌++◌, Option, none, some, String, Result, ok, err,
}
use ritebook.Prelude.{◌==◌, nat_eq, list_eq, if◌then◌else◌, leb, length, ◌>>=◌, ◌>>◌, raise_if}
use ritebook.Text.{Text, codes}
use ritebook.Kernel.Errors.{ValueError, not_timezone_aware, not_timestamp}

-- The `datetime` of the language. `utc_stamp` is `value.astimezone(UTC).isoformat()` before its
-- final `+00:00`, for an aware value; `from_utc_stamp` is `datetime.fromisoformat(stamp + "+00:00")`.
pub record DatetimeLibrary : Type 1 where
  pub Datetime : Type 0
  pub utc_stamp : Datetime → Option Text
  pub from_utc_stamp : Text → Option Datetime

-- `\d` of the pattern is any decimal digit; the last comparison leaves those of ASCII.
abbrev is_digit : ℕ → Bool
is_digit c = leb b'0' c && leb c b'9'

-- The characters of `value` fit those of `shape`, where a `0` is a digit.
unfoldable pub fits : Text → Text → Bool
fits [] [] = true
fits [] (c ∷ value) = false
fits (s ∷ shape) [] = false
fits (s ∷ shape) (c ∷ value) = (if s == b'0' then is_digit c else s == c) && fits shape value

-- CANONICAL_UTC_TIMESTAMP_PATTERN, before the final `Z`
unfoldable pub is_canonical_stamp : Text → Bool
unfolding fits
is_canonical_stamp stamp =
    if length stamp == 19
    then fits (codes "0000-00-00T00:00:00") stamp
    else fits (codes "0000-00-00T00:00:00.000000") stamp

-- The text before a final `Z`.
unfoldable pub before_z : Text → Option Text
before_z [] = none
before_z (c ∷ value) = elim (before_z value) [
  | some stamp ↦ some (c ∷ stamp)
  | none ↦ if c == b'Z' && value == [] then some [] else none
]

module _ (D : DatetimeLibrary) where
  abbrev stamped : Option Text → String → Result ValueError Text
  stamped none field_name = err (not_timezone_aware field_name)
  stamped (some stamp) field_name = ok (stamp ++ (b'Z' ∷ []))

  unfoldable pub format_canonical_utc_timestamp : D.Datetime → String → Result ValueError Text
  format_canonical_utc_timestamp value field_name = stamped (D.utc_stamp value) field_name

  abbrev pub required : {A : Type 0} → Option A → String → Result ValueError A
  required none field_name = err (not_timestamp field_name)
  required (some a) field_name = ok a

  unfoldable pub parse_canonical_utc_timestamp : Text → String → Result ValueError D.Datetime
  unfolding is_canonical_stamp before_z format_canonical_utc_timestamp
  parse_canonical_utc_timestamp value field_name = do
    stamp ← required (before_z value) field_name
    raise_if (not (is_canonical_stamp stamp)) (not_timestamp field_name)
    parsed ← required (D.from_utc_stamp stamp) field_name
    text ← format_canonical_utc_timestamp parsed field_name
    raise_if (not (text == value)) (not_timestamp field_name)
    ok parsed
