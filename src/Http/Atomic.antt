-- ===== src/Http/Atomic.antt =====
-- ditto-python-client/src/ditto_client/client_internal.py: the namespace header, and how a server without
-- the atomic operations is told.
pub mod Laws
use ditto_client.Prelude.{
  ℕ, Option, none, some, Bool, true, false, ◌&&◌, ◌||◌, List, [], ◌∷◌, ◌++◌, ◌==◌, if◌then◌else◌,
  is_empty,
}
use ditto_client.Python.Text.{Str, codes, strip, contains}
use ditto_client.Python.Text.Compare.{text_eq, lower}
use ditto_client.Python.Json.Values.{Json, text, or_else, get_or_null, as_object, as_text}
use ditto_client.Python.Errors.{Result, ok, err, ErrorKind, known, unsupported_request, http_error}

unfoldable pub namespace_headers : Option Str → List (Str × Str)
unfolding strip
namespace_headers none = []
namespace_headers (some namespace) =
    if is_empty (strip namespace) then [] else (codes "X-Ditto-Namespace", strip namespace) ∷ []

-- The code and the message of a DittoError.
abbrev pub DittoError : Type 0
DittoError = ErrorKind × Json

unfoldable pub unsupported_atomic_operation_error : Str → DittoError
unsupported_atomic_operation_error operation = (
  known unsupported_request,
  text (
      codes "UnsupportedRequest: server does not support "
      ++ operation
      ++ codes ". Upgrade dittod to a version with atomic primitives."),
)

-- `isinstance(data, dict) and data.get("error") == "UnsupportedRequest"`, with the dictionary.
unfoldable pub unsupported_payload : Option Json → Option (List (Str × Json))
unfolding get_or_null text_eq
unsupported_payload none = none
unsupported_payload (some payload) = elim (as_object payload) [
  | none ↦ none
  | some d ↦ elim (as_text (get_or_null (codes "error") d)) [
    | none ↦ none
    | some name ↦ if text_eq name (codes "UnsupportedRequest") then some d else none
  ]
]

unfoldable pub atomic_http_unsupported_error : (Str → Option Json) → Str → Str → DittoError
unfolding unsupported_payload unsupported_atomic_operation_error
atomic_http_unsupported_error loads body operation = elim (unsupported_payload (loads body)) [
  | none ↦ unsupported_atomic_operation_error operation
  | some d ↦ (
    known unsupported_request,
    or_else (get_or_null (codes "message") d) (text (codes "UnsupportedRequest")),
  )
]

unfoldable pub raise_if_atomic_http_unsupported :
    (Str → Option Json) → ℕ → Str → Str → Result (Unit {0})
unfolding atomic_http_unsupported_error
raise_if_atomic_http_unsupported loads status body operation =
    if status == 400 || status == 404 || status == 501
    then (let (kind, message) = atomic_http_unsupported_error loads body operation in
        err (http_error kind message))
    else ok tt

-- An exception as `normalize_atomic_tcp_error` looks at it: a DittoError, or any other by its text.
pub data Failure : Type 0 where
  ditto : DittoError → Failure
  plain : Str → Failure

abbrev pub is_unsupported_text : Str → Bool
is_unsupported_text normalized =
    contains normalized (codes "unsupported")
    || contains normalized (codes "protocol")
    || contains normalized (codes "decode")
    || contains normalized (codes "unexpected response")
    || contains normalized (codes "eof")
    || contains normalized (codes "connection reset")

unfoldable pub normalize_atomic_tcp_error : Failure → Str → Failure
unfolding lower unsupported_atomic_operation_error
normalize_atomic_tcp_error (ditto e) operation = ditto e
normalize_atomic_tcp_error (plain message) operation =
    if is_unsupported_text (lower message)
    then ditto (unsupported_atomic_operation_error operation)
    else plain message
