-- ===== src/Python/Json/Access.antt =====
-- What `x[key]`, `x.get(key)` and iteration do to a JSON value, errors included.
use ditto_client.Prelude.{none, some, List, [], ◌∷◌}
use ditto_client.Python.Text.{Str}
use ditto_client.Python.Json.Values.{
  Json, text, array, object, items, members, lookup, get_or_null, as_object,
}
use ditto_client.Python.Errors.{Result, ok, err, key_error, attribute_error, type_error}

-- `x[key]` and `x.get(key)`
unfoldable pub subscript : Str → Json → Result Json
unfolding lookup
subscript key value = elim (as_object value) [
  | none ↦ err type_error
  | some d ↦ elim (lookup key d) [ none ↦ err key_error | some x ↦ ok x ]
]

unfoldable pub get_method : Str → Json → Result Json
unfolding get_or_null
get_method key value = elim (as_object value) [
  | none ↦ err attribute_error
  | some d ↦ ok (get_or_null key d)
]

-- The characters of a text and the keys of a dictionary, as JSON texts.
abbrev characters : Str → List Json
characters [] = []
characters (c ∷ s) = text (c ∷ []) ∷ characters s

abbrev keys : List (Str × Json) → List Json
keys [] = []
keys ((k, v) ∷ d) = text k ∷ keys d

-- `for y in x`
unfoldable pub iterate : Json → Result (List Json)
iterate (array xs) = ok (items xs)
iterate (text s) = ok (characters s)
iterate (object ms) = ok (keys (members ms))
iterate _ = err type_error
