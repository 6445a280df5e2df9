-- ===== src/Kernel/Identifiers.antt =====
-- shared_kernel/identifiers.py, and the name pattern of the linter's validators.
pub mod Grammar
use ritebook.Prelude.{ℕ, Bool, true, false, ◌&&◌, ◌||◌, not, List, [], ◌∷◌, String, length}
use ritebook.Prelude.{◌==◌, nat_eq, list_eq, if◌then◌else◌, leb, Result, ok, err, all}
use ritebook.Text.{Text, codes, has_sub}
use ritebook.Kernel.Errors.{ValueError, not_kebab_case, not_index_name}

-- [a-z0-9]
unfoldable pub is_alnum : ℕ → Bool
is_alnum c = leb b'a' c && leb c b'z' || leb b'0' c && leb c b'9'

-- The automaton of `[a-z0-9]+(?:-[a-z0-9]+)*`. The flag says whether the current run of letters
-- has begun; the text may end only after such a run.
unfoldable pub matches_kebab : Bool → Text → Bool
matches_kebab begun [] = begun
matches_kebab begun (c ∷ value) =
    let more = matches_kebab true value in
    let next = matches_kebab false value in
    if is_alnum c then more else if begun && c == b'-' then next else false

-- The lookahead `(?=.{1,64}$)` bounds the length; the class excludes line ends.
unfoldable pub is_kebab_case_identifier : Text → Bool
unfolding matches_kebab is_alnum
is_kebab_case_identifier value =
    leb 1 (length value) && leb (length value) 64 && matches_kebab false value

unfoldable pub require_kebab_case_identifier : Text → String → Result ValueError Unit
require_kebab_case_identifier value field_name =
    if is_kebab_case_identifier value then ok tt else err (not_kebab_case field_name)

-- `INDEX_NAME_PATTERN` is the same pattern.
unfoldable pub is_index_name : Text → Bool
unfolding is_kebab_case_identifier
is_index_name value = is_kebab_case_identifier value

unfoldable pub require_index_name : Text → String → Result ValueError Unit
require_index_name value field_name =
    if is_index_name value then ok tt else err (not_index_name field_name)

-- `[a-z0-9-]{0,62}[a-z0-9]` after the first character
unfoldable pub ends_alnum : Text → Bool
ends_alnum [] = false
ends_alnum (c ∷ []) = is_alnum c
ends_alnum (c ∷ d ∷ value) = (is_alnum c || c == b'-') && ends_alnum (d ∷ value)

-- The linter's `^(?!.*--)[a-z0-9](?:[a-z0-9-]{0,62}[a-z0-9])?$`
unfoldable pub valid_skill_name : Text → Bool
unfolding ends_alnum is_alnum
valid_skill_name [] = false
valid_skill_name (c ∷ value) =
    not (has_sub (c ∷ value) (codes "--"))
    && is_alnum c
    && (value == [] || leb (length value) 63 && ends_alnum value)
