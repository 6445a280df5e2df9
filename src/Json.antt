-- ===== src/Json.antt =====
-- The values that `json.loads` returns and `json.dumps` takes. An object is the list of its members
-- in order; a dict has each name once.
use ritebook.Prelude.{◌≡◌, refl, ap, ℕ, Bool, List, [], ◌∷◌, Option, none, some, all}
use ritebook.Prelude.{◌==◌, nat_eq, list_eq, if◌then◌else◌, contains}
use ritebook.Text.{Text}

mutual
  pub data Json : Type 0 where
    null : Json
    boolean : Bool → Json
    -- an int, which is not negative, or is -(n + 1)
    natural negative : ℕ → Json
    -- any other number, by its literal
    fraction : Text → Json
    string : Text → Json
    array : Items → Json
    object : Members → Json

  pub data Items : Type 0 where
    no_items : Items
    item : Json → Items → Items

  pub data Members : Type 0 where
    no_members : Members
    member : Text → Json → Members → Members

-- value.get(name)
unfoldable pub get_member : Text → Members → Option Json
get_member name no_members = none
get_member name (member key value members) =
    if key == name then some value else get_member name members

unfoldable pub keys : Members → List Text
keys no_members = []
keys (member key value members) = key ∷ keys members

abbrev pub items_of : Items → List Json
items_of no_items = []
items_of (item value items) = value ∷ items_of items

abbrev pub to_items : List Json → Items
to_items [] = no_items
to_items (value ∷ values) = item value (to_items values)

-- `expected - value.keys()` is empty.
unfoldable pub has_members : List Text → Members → Bool
unfolding keys
has_members expected members = all (contains (keys members)) expected

-- `value.keys() - allowed` is empty.
unfoldable pub has_only : List Text → Members → Bool
unfolding keys
has_only allowed members = all (contains allowed) (keys members)

pub items_of-to_items : (values : List Json) → items_of (to_items values) ≡ values
items_of-to_items [] = refl
items_of-to_items (value ∷ values) = ap (◌∷◌ value) (items_of-to_items values)
