-- ===== src/Python/Json/Values.antt =====
-- The values that `json.loads` returns and `json.dumps` takes, and what the code asks of them.

use ditto_client.Prelude.{
  zero, Option, none, some, Bool, true, false, not, ◌||◌, List, [], ◌∷◌, if◌then◌else◌, is_empty,
}
use ditto_client.Prelude.Int.{ℤ, pos}
use ditto_client.Python.Text.{Str, codes}
use ditto_client.Python.Text.Compare.{text_eq}

-- `real` holds what `repr` prints of a float; an object keeps the order of its keys.
mutual
  pub data Json : Type 0 where
    null : Json
    boolean : Bool → Json
    integer : ℤ → Json
    real : Str → Json
    text : Str → Json
    array : Items → Json
    object : Members → Json

  pub data Items : Type 0 where
    nil : Items
    item : Json → Items → Items

  pub data Members : Type 0 where
    done : Members
    member : Str → Json → Members → Members

-- The elements of a list, and the pairs of a dictionary.
unfoldable pub items : Items → List Json
items nil = []
items (item x xs) = x ∷ items xs

unfoldable pub members : Members → List (Str × Json)
members done = []
members (member k v ms) = (k, v) ∷ members ms

-- `d.get(key)` of a dictionary's pairs.
unfoldable pub lookup : Str → List (Str × Json) → Option Json
unfolding text_eq
lookup key [] = none
lookup key ((k, v) ∷ d) = if text_eq k key then some v else lookup key d

-- `d.get(key)`, with `None` for a missing key.
unfoldable pub get_or_null : Str → List (Str × Json) → Json
unfolding lookup
get_or_null key d = elim (lookup key d) [ none ↦ null | some v ↦ v ]

-- `key in d`
unfoldable pub has_key : Str → List (Str × Json) → Bool
unfolding lookup
has_key key d = elim (lookup key d) [ none ↦ false | some v ↦ true ]

-- `isinstance(x, dict)` with its pairs, `isinstance(x, list)` with its elements, `isinstance(x, str)`.
abbrev pub as_object : Json → Option (List (Str × Json))
as_object (object ms) = some (members ms)
as_object _ = none

abbrev pub as_array : Json → Option (List Json)
as_array (array xs) = some (items xs)
as_array _ = none

abbrev pub as_text : Json → Option Str
as_text (text s) = some s
as_text _ = none

-- `isinstance(x, int)`: a bool is an int.
abbrev pub is_integer : Json → Bool
is_integer (integer n) = true
is_integer (boolean b) = true
is_integer _ = false

-- `bool(x)`
abbrev pub is_true : Json → Bool
is_true null = false
is_true (boolean b) = b
is_true (integer (pos zero)) = false
is_true (integer n) = true
is_true (real s) = not (text_eq s (codes "0.0") || text_eq s (codes "-0.0"))
is_true (text s) = not (is_empty s)
is_true (array nil) = false
is_true (array xs) = true
is_true (object done) = false
is_true (object ms) = true

-- `x or y`
abbrev pub or_else : Json → Json → Json
or_else x y = if is_true x then x else y
