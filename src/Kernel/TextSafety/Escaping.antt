-- ===== src/Kernel/TextSafety/Escaping.antt =====
-- What the escaping of terminal control characters guarantees.
use ritebook.Prelude.{ℕ, ◌≡◌, refl, false, [], ◌∷◌, any, arith}
use ritebook.Prelude.{any-append, ◌↔◌, ap, or_false}
use ritebook.Text.{Text}
use ritebook.Kernel.TextSafety.{
  is_terminal_control, contains_terminal_control_characters, escaped_character,
  escape_terminal_control_characters,
}

escaped_character_clean : (c : ℕ) → any is_terminal_control (escaped_character c) ≡ false
unfolding escaped_character
escaped_character_clean c = ground arith

-- Escaped text holds no terminal control character.
pub escape_clean :
    (value : Text)
    → contains_terminal_control_characters (escape_terminal_control_characters value) ≡ false
unfolding escape_terminal_control_characters contains_terminal_control_characters
escape_clean [] = refl
escape_clean (c ∷ value) = rw (any-append, escaped_character_clean c) (escape_clean value)

escape_of_clean :
    (value : Text)
    → contains_terminal_control_characters value ≡ false
    → escape_terminal_control_characters value ≡ value
unfolding escape_terminal_control_characters contains_terminal_control_characters escaped_character
escape_of_clean [] h = refl
escape_of_clean (c ∷ value) h =
    rw ((or_false (is_terminal_control c) _ h).0)
      (ap (λ (t : Text). c ∷ t) (escape_of_clean value (or_false (is_terminal_control c) _ h).1))

-- Escaping leaves no terminal control character, and it changes a text exactly when there is one.
pub escape_sound :
    (value : Text)
    → (contains_terminal_control_characters (escape_terminal_control_characters value) ≡ false)
      × ((escape_terminal_control_characters value ≡ value)
          ↔ (contains_terminal_control_characters value ≡ false))
escape_sound value =
    (escape_clean value, (λ same. rw same at (escape_clean value), escape_of_clean value))
