-- ===== src/Kernel/TextSafety.antt =====
-- shared_kernel/text_safety.py
pub mod Escaping
use ritebook.Prelude.{ℕ, ◌/◌, ◌%◌, ◌+◌, Bool, ◌&&◌, ◌||◌, List, [], ◌∷◌, ◌++◌, String, length, any}
use ritebook.Prelude.{◌==◌, nat_eq, list_eq, if◌then◌else◌, leb, ltb, Result, ok, err, raise_if}
use ritebook.Prelude.{◌>>=◌, ◌>>◌}
use ritebook.Text.{Text, codes, strip}
use ritebook.Kernel.Errors.{ValueError, control_characters, not_portable, blank, too_long}

-- _is_terminal_control: the low controls, DEL and the high controls
unfoldable pub is_terminal_control : ℕ → Bool
is_terminal_control code_point = leb code_point 0x1f || leb 0x7f code_point && leb code_point 0x9f

unfoldable pub is_unicode_surrogate : ℕ → Bool
is_unicode_surrogate code_point = leb 0xd800 code_point && leb code_point 0xdfff

unfoldable pub is_non_portable_character : ℕ → Bool
unfolding is_terminal_control is_unicode_surrogate
is_non_portable_character c = is_terminal_control c || is_unicode_surrogate c

unfoldable pub contains_terminal_control_characters : Text → Bool
contains_terminal_control_characters value = any is_terminal_control value

unfoldable pub require_no_terminal_control_characters : Text → String → Result ValueError Unit
require_no_terminal_control_characters value field_name =
    raise_if (contains_terminal_control_characters value) (control_characters field_name)

unfoldable pub require_portable_text : Text → String → Result ValueError Unit
require_portable_text value field_name =
    raise_if (any is_non_portable_character value) (not_portable field_name)

unfoldable pub contains_unicode_surrogate_code_points : Text → Bool
contains_unicode_surrogate_code_points value = any is_unicode_surrogate value

abbrev pub max_portable_description_length : ℕ
max_portable_description_length = 1024

unfoldable pub normalize_portable_description : Text → String → Result ValueError Text
normalize_portable_description value field_name = do
  let normalized = strip value
  raise_if (normalized == []) (blank field_name)
  raise_if (ltb max_portable_description_length (length normalized)) (too_long field_name)
  require_portable_text normalized field_name
  ok normalized

-- One lower-case hexadecimal digit.
unfoldable pub hex_digit : ℕ → ℕ
hex_digit d = if leb d 9 then b'0' + d else 87 + d

-- `:02x` and `:04x`, for a code point of so many digits
unfoldable pub hex2 : ℕ → Text
unfolding hex_digit
hex2 c = hex_digit (c / 16) ∷ hex_digit (c % 16) ∷ []

unfoldable pub hex4 : ℕ → Text
unfolding hex2
hex4 c = hex2 (c / 256) ++ hex2 (c % 256)

unfoldable pub escaped_character : ℕ → Text
unfolding is_terminal_control hex2 hex4
escaped_character c =
    if is_terminal_control c
    then if c == 9
      then b'\\' ∷ b't' ∷ []
      else if c == 10
      then b'\\' ∷ b'n' ∷ []
      else if c == 13
      then b'\\' ∷ b'r' ∷ []
      else if leb c 0xff
      then b'\\' ∷ b'x' ∷ hex2 c
      else b'\\' ∷ b'u' ∷ hex4 c
    else c ∷ []

unfoldable pub escape_terminal_control_characters : Text → Text
unfolding escaped_character
escape_terminal_control_characters [] = []
escape_terminal_control_characters (c ∷ value) =
    escaped_character c ++ escape_terminal_control_characters value
