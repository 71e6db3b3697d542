-- ===== src/Scripts/Snapshot.antt =====
-- scripts/validate_protocol_snapshot.py. What `json.loads` makes of the file is an argument.
pub mod Laws
use ditto_client.Prelude.{
  ℕ, suc, Option, none, some, Bool, true, false, not, ◌&&◌, List, [], ◌∷◌, if◌then◌else◌, all,
}
use ditto_client.Python.Text.{Str, codes}
use ditto_client.Python.Json.Values.{
  Json, text, integer, get_or_null, as_object, as_array, is_integer,
}
use ditto_client.Python.Errors.{Result, ok, err, attribute_error}
use ditto_client.Scripts.Keys.{missing}

-- What the script prints before it returns 1.
pub data Fault : Type 0 where
  missing_snapshot invalid_json no_version no_source no_tables : Fault
  missing_enums missing_messages : List Str → Fault
  bad_enum bad_message : Str → Fault
  bad_field : Str → ℕ → Fault
  missing_keys : Str → ℕ → List Str → Fault

-- REQUIRED_ENUMS, REQUIRED_MESSAGES and REQUIRED_FIELD_KEYS, sorted.
abbrev pub required_enums : List Str
required_enums = codes "ErrorCode" ∷ codes "NodeStatus" ∷ []

abbrev pub required_messages : List Str
required_messages =
    codes "AdminRequest"
    ∷ codes "AdminResponse"
    ∷ codes "ClientRequest"
    ∷ codes "ClientResponse"
    ∷ codes "ClusterMessage"
    ∷ codes "Envelope"
    ∷ codes "GossipMessage"
    ∷ codes "HotKeyUsage"
    ∷ codes "NamespaceLatencySummary"
    ∷ codes "NamespaceQuotaUsage"
    ∷ codes "NodeStats"
    ∷ []

abbrev pub field_keys : List Str
field_keys = codes "name" ∷ codes "oneof" ∷ codes "repeated" ∷ codes "tag" ∷ codes "type" ∷ []

-- `isinstance(x, str)`
abbrev pub is_text : Json → Bool
is_text (text s) = true
is_text _ = false

-- The first fault of two checks.
abbrev pub or_fault : Option Fault → Option Fault → Option Fault
or_fault none later = later
or_fault (some fault) later = some fault

abbrev pub fault_if : Bool → Fault → Option Fault
fault_if true fault = some fault
fault_if false fault = none

-- `return 1` with the missing names, if there are any
abbrev pub fault_of : (List Str → Fault) → List Str → Option Fault
fault_of report [] = none
fault_of report (name ∷ names) = some (report (name ∷ names))

-- `isinstance(values, list) and all(isinstance(v, str) for v in values)`
abbrev pub is_text_array : Json → Bool
is_text_array values = elim (as_array values) [ none ↦ false | some vs ↦ all is_text vs ]

unfoldable pub check_enums : List (Str × Json) → Option Fault
check_enums [] = none
check_enums ((name, values) ∷ enums) =
    or_fault (fault_if (not (is_text_array values)) (bad_enum name)) (check_enums enums)

unfoldable pub check_field : Str → ℕ → Json → Option Fault
unfolding missing
check_field name idx field = elim (as_object field) [
  | none ↦ some (bad_field name idx)
  | some d ↦ fault_of (missing_keys name idx) (missing field_keys d)
]

unfoldable pub check_fields : Str → ℕ → List Json → Option Fault
unfolding check_field
check_fields name idx [] = none
check_fields name idx (field ∷ fields) =
    or_fault (check_field name idx field) (check_fields name (suc idx) fields)

unfoldable pub check_messages : List (Str × Json) → Option Fault
unfolding check_fields
check_messages [] = none
check_messages ((name, fields) ∷ messages) =
    or_fault
      (elim (as_array fields) [
        | none ↦ some (bad_message name)
        | some entries ↦ check_fields name 0 entries
      ])
      (check_messages messages)

-- The checks of the two tables.
unfoldable pub check_tables : List (Str × Json) → List (Str × Json) → Option Fault
unfolding missing check_enums check_messages
check_tables enums messages = or_fault (fault_of missing_enums (missing required_enums enums)) (
    or_fault (fault_of missing_messages (missing required_messages messages))
      (or_fault (check_enums enums) (check_messages messages)))

unfoldable pub check_payload : List (Str × Json) → Option Fault
unfolding get_or_null check_tables
check_payload d =
    or_fault (fault_if (not (is_integer (get_or_null (codes "protocol_version") d))) no_version) (
      or_fault
        (fault_if
          (not
            (is_text (get_or_null (codes "source") d) && is_text (get_or_null (codes "package") d)))
          no_source)
        (elim (as_object (get_or_null (codes "enums") d)) [
          | none ↦ some no_tables
          | some enums ↦ elim (as_object (get_or_null (codes "messages") d)) [
            | none ↦ some no_tables
            | some messages ↦ check_tables enums messages
          ]
        ]))

-- The fault of a file: `none` is a file that is not there, `some none` one that is no JSON.
unfoldable pub find_fault : Option (Option Json) → Result (Option Fault)
unfolding check_payload
find_fault none = ok (some missing_snapshot)
find_fault (some none) = ok (some invalid_json)
find_fault (some (some payload)) = elim (as_object payload) [
  | none ↦ err attribute_error
  | some d ↦ ok (check_payload d)
]

abbrev pub code_of : Option Fault → ℕ
code_of none = 0
code_of (some fault) = 1

-- The exit code of the script.
unfoldable pub main : Option (Option Json) → Result ℕ
unfolding find_fault
main file = elim (find_fault file) [ ok fault ↦ ok (code_of fault) | err e ↦ err e ]
