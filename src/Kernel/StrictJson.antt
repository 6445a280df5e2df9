-- ===== src/Kernel/StrictJson.antt =====
-- shared_kernel/strict_json.py
pub mod Nesting
pub mod Objects
use ritebook.Prelude.{
  ℕ, suc, ◌+◌, ◌*◌, ◌≤◌, Bool, true, false, ◌||◌, List, [], ◌∷◌, Option, none, some, Result, ok,
  err,
}
use ritebook.Prelude.{
  ◌==◌, nat_eq, list_eq, if◌then◌else◌, ltb, length, contains, ◌>>=◌, ◌>>◌, raise_if,
}
use ritebook.Text.{Text, starts_with}
use ritebook.Json.{Json, Members, no_members, member}

abbrev pub max_strict_json_input_bytes : ℕ
max_strict_json_input_bytes = 16 * 1024 * 1024

abbrev pub max_strict_json_nesting_depth : ℕ
max_strict_json_nesting_depth = 32

-- `StrictJsonError` is its reason.
pub data StrictJsonValidationReason : Type 0 where
  empty_input input_too_large byte_order_mark invalid_utf8 nesting_too_deep invalid_json
        non_standard_constant duplicate_member :
      StrictJsonValidationReason

-- What the hooks of the decoder raise.
pub data Signal : Type 0 where
  constant_found duplicate_found : Signal

-- `json.loads` returns, passes on what a hook raises, or raises `JSONDecodeError`.
pub data LoadOutcome : Type 0 where
  loaded : Json → LoadOutcome
  signalled : Signal → LoadOutcome
  malformed : LoadOutcome

-- The library of the language: `bytes.decode` and `json.loads` with its hooks. Bytes are numbers.
pub record JsonLibrary : Type 0 where
  pub decode_utf8 : List ℕ → Option Text
  pub loads : (Members → Result Signal Members) → (Text → Result Signal Json) → Text → LoadOutcome

-- The state of the loop of `_require_bounded_nesting`. Its `depth` is opened - closed, which may
-- be negative.
pub record Scan : Type 0 where
  pub opened : ℕ
  pub closed : ℕ
  pub in_string : Bool
  pub escaped : Bool

abbrev pub scan_start : Scan
scan_start = record { opened = 0; closed = 0; in_string = false; escaped = false }

abbrev is_open : ℕ → Bool
is_open c = c == b'[' || c == b'{'

abbrev is_close : ℕ → Bool
is_close c = c == b']' || c == b'}'

-- One round, without the test of the depth.
unfoldable pub scan_step : Scan → ℕ → Scan
scan_step s c =
    if s.in_string
    then if s.escaped
      then record s { escaped = false }
      else if c == b'\\'
      then record s { escaped = true }
      else if c == b'"'
      then record s { in_string = false }
      else s
    else if c == b'"'
    then record s { in_string = true }
    else if is_open c
    then record s { opened = s.opened + 1 }
    else if is_close c
    then record s { closed = s.closed + 1 }
    else s

-- depth > MAX_STRICT_JSON_NESTING_DEPTH, tested where the depth grows
abbrev pub is_too_deep : Scan → Bool
is_too_deep s = ltb (max_strict_json_nesting_depth + s.closed) s.opened

abbrev grows : Scan → Scan → Bool
grows s t = ltb s.opened t.opened

unfoldable pub scan_nesting : Scan → Text → Result StrictJsonValidationReason Unit
unfolding scan_step
scan_nesting s [] = ok tt
scan_nesting s (c ∷ text) =
    let t = scan_step s c in
    let rest = scan_nesting t text in
    if grows s t then (if is_too_deep t then err nesting_too_deep else rest) else rest

unfoldable pub require_bounded_nesting : Text → Result StrictJsonValidationReason Unit
unfolding scan_nesting
require_bounded_nesting text = scan_nesting scan_start text

-- The loop of `_object_without_duplicate_members`: the dict has the pairs so far.
unfoldable pub add_members : List Text → Members → Result Signal Members
add_members names no_members = ok no_members
add_members names (member name value pairs) =
    if contains names name
    then err duplicate_found
    else do rest ← add_members (name ∷ names) pairs; ok (member name value rest)

unfoldable pub object_without_duplicate_members : Members → Result Signal Members
unfolding add_members
object_without_duplicate_members pairs = add_members [] pairs

unfoldable pub reject_non_standard_constant : Text → Result Signal Json
reject_non_standard_constant value = err constant_found

abbrev outcome_result : LoadOutcome → Result StrictJsonValidationReason Json
outcome_result (loaded value) = ok value
outcome_result (signalled constant_found) = err non_standard_constant
outcome_result (signalled duplicate_found) = err duplicate_member
outcome_result malformed = err invalid_json

abbrev decoded : Option Text → Result StrictJsonValidationReason Text
decoded none = err invalid_utf8
decoded (some text) = ok text

unfoldable pub parse_strict_json_bytes :
    JsonLibrary → List ℕ → Result StrictJsonValidationReason Json
unfolding require_bounded_nesting
parse_strict_json_bytes library content = do
  raise_if (content == []) empty_input
  raise_if (ltb max_strict_json_input_bytes (length content)) input_too_large
  raise_if (starts_with content (0xef ∷ 0xbb ∷ 0xbf ∷ [])) byte_order_mark
  text ← decoded (library.decode_utf8 content)
  require_bounded_nesting text
  outcome_result (library.loads object_without_duplicate_members reject_non_standard_constant text)
