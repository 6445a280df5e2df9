-- ===== src/Kernel/PortablePaths.antt =====
-- shared_kernel/portable_paths.py, and what it and its neighbours use of `PurePosixPath`.
pub mod Slashes
pub mod Acceptance
use ritebook.Prelude.{
  ℕ, ◌+◌, Bool, true, false, ◌&&◌, ◌||◌, not, List, [], ◌∷◌, ◌++◌, String, any, map,
}
use ritebook.Prelude.{◌==◌, nat_eq, list_eq, if◌then◌else◌, leb, Result, ok, err, filter, contains}
use ritebook.Prelude.{◌>>=◌, ◌>>◌, raise_if, Option, none, some}
use ritebook.Text.{Text, codes, split, starts_with, ends_with, has_sub}
use ritebook.Kernel.Errors.{
  ValueError, portable_path, PortablePathValidationReason, malformed_path, invalid_segment,
}
use ritebook.Kernel.TextSafety.{require_portable_text}

-- A part that `PurePosixPath` keeps.
abbrev is_part : Text → Bool
is_part part = not (part == [] || part == codes ".")

-- PurePosixPath(value).parts: the root, and the parts that are neither empty nor ".".
unfoldable pub posix_parts : Text → List Text
posix_parts value =
    let rest = filter is_part (split b'/' value) in
    if starts_with value (codes "///")
    then codes "/" ∷ rest
    else if starts_with value (codes "//")
    then codes "//" ∷ rest
    else if starts_with value (codes "/")
    then codes "/" ∷ rest
    else rest

-- PurePosixPath(value).name
abbrev pub last_or_empty : List Text → Text
last_or_empty [] = []
last_or_empty (part ∷ []) = part
last_or_empty (part ∷ next ∷ parts) = last_or_empty (next ∷ parts)

-- `_is_malformed_literal`, of this file and of catalog_paths.py, which have the same text
unfoldable pub is_malformed_literal : Text → Bool
is_malformed_literal value =
    value == []
    || starts_with value (codes "/")
    || ends_with value (codes "/")
    || has_sub value (codes "//")
    || has_sub value (codes "\\")
    || any (λ segment. segment == codes "." || segment == codes "..") (split b'/' value)

abbrev pub windows_forbidden_characters : List ℕ
windows_forbidden_characters = codes "<>:\"\\|?*"

abbrev digit_names : Text → List Text
digit_names prefix =
    map (λ (d : ℕ). prefix ++ ((b'0' + d) ∷ [])) (1 ∷ 2 ∷ 3 ∷ 4 ∷ 5 ∷ 6 ∷ 7 ∷ 8 ∷ 9 ∷ [])

abbrev pub windows_reserved_names : List Text
windows_reserved_names =
    codes "aux"
    ∷ codes "con"
    ∷ codes "nul"
    ∷ codes "prn"
    ∷ (digit_names (codes "com") ++ digit_names (codes "lpt"))

-- segment.split(".", maxsplit=1)[0]
unfoldable pub base_name : Text → Text
base_name [] = []
base_name (c ∷ segment) = let rest = base_name segment in if c == b'.' then [] else c ∷ rest

-- `str.casefold`, as far as membership in the reserved names shows it: no code point outside ASCII
-- folds to letters of those names alone.
abbrev casefold : Text → Text
casefold = map (λ (c : ℕ). if leb b'A' c && leb c b'Z' then c + 32 else c)

abbrev succeeds : Result ValueError Unit → Bool
succeeds (ok _) = true
succeeds (err _) = false

unfoldable pub is_portable_segment : Text → Bool
is_portable_segment segment =
    if not (succeeds (require_portable_text segment "Path segment"))
    then false
    else if ends_with segment (codes ".") || ends_with segment (codes " ")
    then false
    else if any (λ c. contains windows_forbidden_characters c) segment
    then false
    else not (contains windows_reserved_names (casefold (base_name segment)))

-- The loop over the segments.
unfoldable pub check_segments : List Text → String → Result ValueError Unit
check_segments [] field_name = ok tt
check_segments (segment ∷ segments) field_name =
    if not (is_portable_segment segment)
    then err (portable_path field_name invalid_segment)
    else check_segments segments field_name

-- The path is returned as its parts.
unfoldable pub validate_portable_relative_posix_path :
    Text → String → Bool → Result ValueError (List Text)
validate_portable_relative_posix_path value field_name allow_current_directory =
    if value == codes "." && allow_current_directory then ok (posix_parts value) else do
      raise_if (is_malformed_literal value) (portable_path field_name malformed_path)
      check_segments (split b'/' value) field_name
      ok (posix_parts value)
