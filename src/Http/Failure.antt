-- ===== src/Http/Failure.antt =====
-- How an HTTP status and body become a DittoError: `_assert_ok` of http_client_base.py, with the values of
-- `DittoErrorCode` in types.py.
pub mod Laws
use ditto_client.Prelude.{
  ℕ, Option, none, some, Bool, true, false, ◌&&◌, List, [], ◌∷◌, ◌==◌, ltb, leb, if◌then◌else◌,
  is_empty,
}
use ditto_client.Python.Text.{Str, codes}
use ditto_client.Python.Text.Compare.{text_eq}
use ditto_client.Python.Json.Values.{Json, text, or_else, get_or_null, as_object, as_text}
use ditto_client.Python.Errors.{
  Result, ok, err, Exn, ErrorKind, known, other, ErrorCode, node_inactive, no_quorum, key_not_found,
  internal_error, write_timeout, value_too_large, key_limit_reached, rate_limited, circuit_open,
  namespace_quota_exceeded, auth_failed, unsupported_request, type_mismatch, overflow, http_error,
}

-- The value of a `DittoErrorCode`.
unfoldable pub code_name : ErrorCode → Str
code_name node_inactive = codes "NodeInactive"
code_name no_quorum = codes "NoQuorum"
code_name key_not_found = codes "KeyNotFound"
code_name internal_error = codes "InternalError"
code_name write_timeout = codes "WriteTimeout"
code_name value_too_large = codes "ValueTooLarge"
code_name key_limit_reached = codes "KeyLimitReached"
code_name rate_limited = codes "RateLimited"
code_name circuit_open = codes "CircuitOpen"
code_name namespace_quota_exceeded = codes "NamespaceQuotaExceeded"
code_name auth_failed = codes "AuthFailed"
code_name unsupported_request = codes "UnsupportedRequest"
code_name type_mismatch = codes "TypeMismatch"
code_name overflow = codes "Overflow"

-- The members of the enumeration, in their order.
abbrev pub all_codes : List ErrorCode
all_codes =
    node_inactive ∷ no_quorum ∷ key_not_found ∷ internal_error ∷ write_timeout ∷ value_too_large
    ∷ key_limit_reached ∷ rate_limited ∷ circuit_open ∷ namespace_quota_exceeded ∷ auth_failed
    ∷ unsupported_request ∷ type_mismatch ∷ overflow ∷ []

-- `try: DittoErrorCode(name)` / `except ValueError: name`
unfoldable pub find_code : Str → List ErrorCode → ErrorKind
unfolding code_name text_eq
find_code name [] = other name
find_code name (code ∷ rest) =
    if text_eq (code_name code) name then known code else find_code name rest

-- The code for a status, where the payload names no error.
unfoldable pub status_code : ℕ → ErrorCode
status_code status =
    if status == 503
    then node_inactive
    else if status == 504
    then write_timeout
    else if status == 404
    then key_not_found
    else if status == 429
    then rate_limited
    else internal_error

-- `if body_error: … else: …`
unfoldable pub error_kind : ℕ → Option Str → ErrorKind
unfolding find_code status_code
error_kind status (some (c ∷ name)) = find_code (c ∷ name) all_codes
error_kind status _ = known (status_code status)

-- The message and the error text of a body. A body that is no JSON, or no dictionary, is the message.
unfoldable pub payload_error : Option Json → Str → Json × Option Str
unfolding get_or_null
payload_error none body = (text body, none)
payload_error (some payload) body = elim (as_object payload) [
  | none ↦ (text body, none)
  | some d ↦ (
    or_else (get_or_null (codes "message") d) (or_else (get_or_null (codes "error") d) (text body)),
    as_text (get_or_null (codes "error") d),
  )
]

-- `_assert_ok`, with `json.loads` as `loads`.
unfoldable pub assert_ok : (Str → Option Json) → ℕ → Str → Result (Unit {0})
unfolding payload_error error_kind
assert_ok loads status body =
    if leb 200 status && ltb status 300
    then ok tt
    else (let (message, body_error) = payload_error (loads body) body in
        err (http_error (error_kind status body_error) message))
