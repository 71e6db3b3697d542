-- ===== src/Scripts/Snapshot/Laws.antt =====
-- Which snapshots the validator accepts.
use ditto_client.Prelude.{
  ℕ, suc, ◌≡◌, refl, ap, ◌↔◌, Option, none, some, Bool, true, false, not, ◌&&◌, List, [], ◌∷◌,
  arith, All, all,
}
use ditto_client.Python.Text.{Str, codes}
use ditto_client.Python.Json.Values.{
  Json, object, array, Items, Members, members, items, get_or_null, is_integer,
}
use ditto_client.Python.Errors.{Result, ok, err, attribute_error, ok-injective}
use ditto_client.Scripts.Keys.{missing, missing_iff, HasKeys}
use ditto_client.Scripts.Views.{object_iff, array_iff, iff_trans, iff_pair}
use ditto_client.Scripts.Snapshot.{
  missing_keys, bad_field, bad_message, bad_enum, missing_enums, missing_messages, no_version,
  no_source, no_tables, Fault, required_enums, required_messages, field_keys, is_text, or_fault,
  fault_if, fault_of, is_text_array, check_enums, check_field, check_fields, check_messages,
  check_tables, check_payload, find_fault, code_of, main,
}

-- A field description: an object with every key.
abbrev pub IsField : Json → Type 0
IsField field = (ms : Members) × (field ≡ object ms) × HasKeys field_keys (members ms)

-- An enumeration is an array of texts, a message an array of fields.
abbrev pub IsEnum : Str × Json → Type 0
IsEnum (name, values) = (xs : Items) × (values ≡ array xs) × (all is_text (items xs) ≡ true)

abbrev pub IsMessage : Str × Json → Type 0
IsMessage (name, fields) = (xs : Items) × (fields ≡ array xs) × All IsField (items xs)

-- The tables of a snapshot: the required enumerations and messages are there, and all are well-formed.
abbrev pub AreTables : List (Str × Json) → List (Str × Json) → Type 0
AreTables enums messages =
    HasKeys required_enums enums
    × (HasKeys required_messages messages × (All IsEnum enums × All IsMessage messages))

-- Both tables of a payload.
abbrev pub HasTables : List (Str × Json) → Type 0
HasTables d =
    (enums : Members) × (get_or_null (codes "enums") d ≡ object enums)
    × ((messages : Members) × (get_or_null (codes "messages") d ≡ object messages)
        × AreTables (members enums) (members messages))

-- A snapshot: an integer version, texts that name the source and the package, and the tables.
abbrev pub IsSnapshot : List (Str × Json) → Type 0
IsSnapshot d =
    (is_integer (get_or_null (codes "protocol_version") d) ≡ true)
    × (((is_text (get_or_null (codes "source") d) && is_text (get_or_null (codes "package") d))
          ≡ true)
        × HasTables d)

-- The file is there, is JSON, and holds a snapshot.
abbrev pub HoldsSnapshot : Option (Option Json) → Type 0
HoldsSnapshot (some (some payload)) =
    (ms : Members) × (payload ≡ object ms) × IsSnapshot (members ms)
HoldsSnapshot _ = ⊥

or_fault_iff : (x y : Option Fault) → (or_fault x y ≡ none) ↔ ((x ≡ none) × (y ≡ none))
or_fault_iff none y = ((λ h. (refl, h)), (λ h. h.1))
or_fault_iff (some fault) y = ((λ h. absurd (ground (arith, h))), (λ h. h.0))

fault_if_iff : (test : Bool) (fault : Fault) → (fault_if (not test) fault ≡ none) ↔ (test ≡ true)
fault_if_iff test fault = ground arith

fault_of_iff :
    (report : List Str → Fault) (names : List Str) → (fault_of report names ≡ none) ↔ (names ≡ [])
fault_of_iff report [] = ((λ h. refl), (λ h. refl))
fault_of_iff report (name ∷ names) =
    ((λ h. absurd (ground (arith, h))), (λ h. absurd (ground (arith, h))))

some-none : (fault : Fault) → ¬ (some fault ≡ none)
some-none fault h = cc

check_field_iff :
    (name : Str) (idx : ℕ) (field : Json) → (check_field name idx field ≡ none) ↔ IsField field
unfolding check_field
check_field_iff name idx field =
    object_iff none (some (bad_field name idx)) (some-none (bad_field name idx))
      (λ d. fault_of (missing_keys name idx) (missing field_keys d)) (HasKeys field_keys) field
      (λ d.
        iff_trans (fault_of_iff (missing_keys name idx) (missing field_keys d))
          (missing_iff field_keys d))

check_fields_iff :
    (name : Str) (idx : ℕ) (fields : List Json)
    → (check_fields name idx fields ≡ none) ↔ All IsField fields
unfolding check_fields
check_fields_iff name idx [] = ((λ h. tt), (λ h. refl))
check_fields_iff name idx (field ∷ fields) =
    iff_trans (or_fault_iff (check_field name idx field) (check_fields name (suc idx) fields))
      (iff_pair (check_field_iff name idx field) (check_fields_iff name (suc idx) fields))

check_messages_iff :
    (messages : List (Str × Json)) → (check_messages messages ≡ none) ↔ All IsMessage messages
unfolding check_messages
check_messages_iff [] = ((λ h. tt), (λ h. refl))
check_messages_iff ((name, fields) ∷ messages) =
    iff_trans (or_fault_iff _ (check_messages messages)) (
      iff_pair
        (array_iff none (some (bad_message name)) (some-none (bad_message name))
          (check_fields name 0) (All IsField) fields (check_fields_iff name 0))
        (check_messages_iff messages))

false-true : ¬ (false ≡ true)
false-true h = ground (arith, h)

is_text_array_iff :
    (values : Json)
    → (is_text_array values ≡ true)
      ↔ ((xs : Items) × (values ≡ array xs) × (all is_text (items xs) ≡ true))
is_text_array_iff values =
    array_iff true false false-true (all is_text) (λ vs. all is_text vs ≡ true) values
      (λ vs. ((λ h. h), (λ h. h)))

check_enums_iff : (enums : List (Str × Json)) → (check_enums enums ≡ none) ↔ All IsEnum enums
unfolding check_enums
check_enums_iff [] = ((λ h. tt), (λ h. refl))
check_enums_iff ((name, values) ∷ enums) =
    iff_trans
      (or_fault_iff (fault_if (not (is_text_array values)) (bad_enum name)) (check_enums enums))
      (iff_pair
        (iff_trans (fault_if_iff (is_text_array values) (bad_enum name)) (is_text_array_iff values))
        (check_enums_iff enums))

tables_lem :
    (keys keys' : List Str) (enums messages : List (Str × Json))
    → (or_fault (fault_of missing_enums (missing keys enums)) (
          or_fault
            (fault_of missing_messages (missing keys' messages))
            (or_fault (check_enums enums) (check_messages messages)))
        ≡ none)
      ↔ (HasKeys keys enums
          × (HasKeys keys' messages × (All IsEnum enums × All IsMessage messages)))
tables_lem keys keys' enums messages =
    iff_trans (or_fault_iff (fault_of missing_enums (missing keys enums)) _) (
      iff_pair
        (iff_trans (fault_of_iff missing_enums (missing keys enums)) (missing_iff keys enums))
        (iff_trans (or_fault_iff (fault_of missing_messages (missing keys' messages)) _) (
          iff_pair
            (iff_trans (fault_of_iff missing_messages (missing keys' messages))
              (missing_iff keys' messages))
            (iff_trans (or_fault_iff (check_enums enums) (check_messages messages))
              (iff_pair (check_enums_iff enums) (check_messages_iff messages))))))

check_tables_iff :
    (enums messages : List (Str × Json))
    → (check_tables enums messages ≡ none) ↔ AreTables enums messages
unfolding check_tables
check_tables_iff enums messages = tables_lem required_enums required_messages enums messages

check_payload_iff : (d : List (Str × Json)) → (check_payload d ≡ none) ↔ IsSnapshot d
unfolding check_payload
check_payload_iff d =
    iff_trans
      (or_fault_iff
        (fault_if (not (is_integer (get_or_null (codes "protocol_version") d))) no_version) _)
      (iff_pair (fault_if_iff (is_integer (get_or_null (codes "protocol_version") d)) no_version) (
        iff_trans
          (or_fault_iff
            (fault_if
              (not (
                is_text (get_or_null (codes "source") d)
                && is_text (get_or_null (codes "package") d)))
              no_source)
            _)
          (iff_pair
            (fault_if_iff
              (is_text (get_or_null (codes "source") d)
                && is_text (get_or_null (codes "package") d))
              no_source)
            (object_iff none (some no_tables) (some-none no_tables) _
              (λ enums.
                (ms : Members) × (get_or_null (codes "messages") d ≡ object ms)
                × AreTables enums (members ms))
              (get_or_null (codes "enums") d)
              (λ enums.
                object_iff none (some no_tables) (some-none no_tables) (check_tables enums)
                  (AreTables enums) (get_or_null (codes "messages") d) (check_tables_iff enums))))))

code_iff :
    (found : Result (Option Fault))
    → ((elim found as (λ _. Result ℕ) [ ok fault ↦ ok (code_of fault) | err e ↦ err e ]) ≡ ok 0)
      ↔ (found ≡ ok none)
code_iff (ok none) = ((λ h. refl), (λ h. refl))
code_iff (ok (some fault)) = ((λ h. absurd (ground (arith, h))), (λ h. absurd (ground (arith, h))))
code_iff (err e) = ((λ h. absurd (ground (arith, h))), (λ h. absurd (ground (arith, h))))

find_fault_iff : (file : Option (Option Json)) → (find_fault file ≡ ok none) ↔ HoldsSnapshot file
unfolding find_fault
find_fault_iff none = ((λ h. absurd (ground (arith, h))), (λ h. absurd h))
find_fault_iff (some none) = ((λ h. absurd (ground (arith, h))), (λ h. absurd h))
find_fault_iff (some (some payload)) =
    object_iff (ok none) (err attribute_error) (λ h. cc) (λ d. ok (check_payload d)) IsSnapshot
      payload (λ d. iff_trans ((λ h. ok-injective h), (λ h. ap ok h)) (check_payload_iff d))

-- The script returns 0 exactly if the file is there, is JSON, and holds an object with an integer version,
-- texts that name the source and the package, the required enumerations and messages, and only
-- enumerations that are arrays of texts and messages that are arrays of objects with every field key.
pub snapshot_main_iff : (file : Option (Option Json)) → (main file ≡ ok 0) ↔ HoldsSnapshot file
unfolding main
snapshot_main_iff file = iff_trans (code_iff (find_fault file)) (find_fault_iff file)
