-- ===== src/Http/Failure/Laws.antt =====
-- Which code `_assert_ok` raises for a reply that names one.
use ditto_client.Prelude.{
  ℕ, ◌≤◌, ◌<◌, ◌≡◌, refl, ap, ◌∙◌, ◌⊎◌, Option, none, some, false, ◌&&◌, arith, leb, ltb,
}
use ditto_client.Python.Text.{Str, codes}
use ditto_client.Python.Text.Compare.{text_eq}
use ditto_client.Python.Json.Values.{
  Json, null, text, object, as_text, Members, members, lookup, get_or_null,
}
use ditto_client.Python.Errors.{
  err, known, ErrorCode, http_error, node_inactive, no_quorum, key_not_found, internal_error,
  write_timeout, value_too_large, key_limit_reached, rate_limited, circuit_open,
  namespace_quota_exceeded, auth_failed, unsupported_request, type_mismatch, overflow,
}
use ditto_client.Http.Failure.{code_name, find_code, error_kind, payload_error, assert_ok}

refused-status :
    (status : ℕ) → (status < 200) ⊎ (300 ≤ status) → (leb 200 status && ltb status 300) ≡ false
refused-status status h = ground arith

-- The value of a code is read back as the code, whatever the status is.
error_kind-code_name :
    (status : ℕ) (code : ErrorCode) → error_kind status (some (code_name code)) ≡ known code
unfolding error_kind find_code code_name text_eq
error_kind-code_name status node_inactive = refl
error_kind-code_name status no_quorum = refl
error_kind-code_name status key_not_found = refl
error_kind-code_name status internal_error = refl
error_kind-code_name status write_timeout = refl
error_kind-code_name status value_too_large = refl
error_kind-code_name status key_limit_reached = refl
error_kind-code_name status rate_limited = refl
error_kind-code_name status circuit_open = refl
error_kind-code_name status namespace_quota_exceeded = refl
error_kind-code_name status auth_failed = refl
error_kind-code_name status unsupported_request = refl
error_kind-code_name status type_mismatch = refl
error_kind-code_name status overflow = refl

payload_error-text :
    (ms : Members) (body name : Str)
    → lookup (codes "error") (members ms) ≡ some (text name)
    → (payload_error (some (object ms)) body).1 ≡ some name
unfolding payload_error get_or_null
payload_error-text ms body name h =
    ap as_text (ap (λ (o : Option Json). elim o as (λ _. Json) [ none ↦ null | some v ↦ v ]) h)
    ∙ refl

-- For a status outside of 200 to 299, a JSON object whose `error` is the value of a DittoErrorCode raises
-- that code, whatever the status is.
pub assert_ok-code_name :
    (loads : Str → Option Json) (status : ℕ) (body : Str) (ms : Members) (code : ErrorCode)
    → (status < 200) ⊎ (300 ≤ status)
    → loads body ≡ some (object ms)
    → lookup (codes "error") (members ms) ≡ some (text (code_name code))
    → (message : Json) × (assert_ok loads status body ≡ err (http_error (known code) message))
unfolding assert_ok
assert_ok-code_name loads status body ms code range parsed named =
    let message = (payload_error (some (object ms)) body).0 in
    (
      message,
      rw (refused-status status range) (
          rw parsed (
            rw (payload_error-text ms body (code_name code) named)
              (rw (error_kind-code_name status code) refl))),
    )
