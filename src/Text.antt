-- ===== src/Text.antt =====
-- Python's `str` as its list of code points (a `str` may hold surrogates, which `Char` may not),
-- with the methods that the program calls.
pub mod Laws
use Prim.Native.Char.{code}
use ritebook.Prelude.{ℕ, ◌<◌, Bool, true, false, ◌&&◌, ◌||◌, not, List, [], ◌∷◌, ◌++◌, String}
use ritebook.Prelude.{◌==◌, nat_eq, list_eq, if◌then◌else◌, ltb, leb, Option, none, some, reverse}

abbrev pub Text : Type 0
Text = List ℕ

-- The code points of a literal.
abbrev pub codes : String → Text
codes String.[] = []
codes (String.◌∷◌ c s) = code c ∷ codes s

-- value.startswith(prefix)
unfoldable pub starts_with : Text → Text → Bool
starts_with value [] = true
starts_with [] (p ∷ prefix) = false
starts_with (c ∷ value) (p ∷ prefix) = c == p && starts_with value prefix

-- value.endswith(suffix)
unfoldable pub ends_with : Text → Text → Bool
ends_with [] suffix = [] == suffix
ends_with (c ∷ value) suffix = (c ∷ value) == suffix || ends_with value suffix

-- sub in value
unfoldable pub has_sub : Text → Text → Bool
has_sub [] sub = starts_with [] sub
has_sub (c ∷ value) sub = starts_with (c ∷ value) sub || has_sub value sub

-- The text behind so many characters.
unfoldable pub drop : Text → Text → Text
drop value [] = value
drop [] (p ∷ prefix) = []
drop (c ∷ value) (p ∷ prefix) = drop value prefix

-- value.removeprefix(prefix)
unfoldable pub remove_prefix : Text → Text → Text
unfolding drop
remove_prefix value prefix = if starts_with value prefix then drop value prefix else value

-- The first part of a split grows by one character.
abbrev pub grow : ℕ → List Text → List Text
grow c [] = (c ∷ []) ∷ []
grow c (part ∷ parts) = (c ∷ part) ∷ parts

-- value.split(separator), for a separator of one character
unfoldable pub split : ℕ → Text → List Text
split separator [] = [] ∷ []
split separator (c ∷ value) =
    let rest = split separator value in if c == separator then [] ∷ rest else grow c rest

-- separator.join(parts)
unfoldable pub join : ℕ → List Text → Text
join separator [] = []
join separator (part ∷ []) = part
join separator (part ∷ next ∷ parts) = part ++ (separator ∷ join separator (next ∷ parts))

-- One more character before the separator.
abbrev pub prepend : ℕ → Option (Text × Text) → Option (Text × Text)
prepend c none = none
prepend c (some (before, after)) = some (c ∷ before, after)

-- value.split(separator, maxsplit=1), where the separator occurs: what stands before and after it
unfoldable pub split_once : ℕ → Text → Option (Text × Text)
split_once separator [] = none
split_once separator (c ∷ value) =
    let rest = split_once separator value in
    if c == separator then some ([], value) else prepend c rest

-- The white space that `str.strip` removes, of str.isspace.
unfoldable pub is_space : ℕ → Bool
is_space c =
    leb 9 c && leb c 13
    || leb 28 c && leb c 32
    || c == 0x85
    || c == 0xa0
    || c == 0x1680
    || leb 0x2000 c && leb c 0x200a
    || c == 0x2028
    || c == 0x2029
    || c == 0x202f
    || c == 0x205f
    || c == 0x3000

unfoldable pub strip_left : Text → Text
strip_left [] = []
strip_left (c ∷ value) = let rest = strip_left value in if is_space c then rest else c ∷ value

-- value.strip()
unfoldable pub strip : Text → Text
unfolding strip_left
strip value = reverse (strip_left (reverse (strip_left value)))
