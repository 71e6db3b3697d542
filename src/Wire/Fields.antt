-- ===== src/Wire/Fields.antt =====
-- The field numbers and wire types of wire.py, and its table of error codes. A field number that
-- the source names twice, once for each message, stands here once for each group of messages.
use ditto_client.Prelude.{ℕ, List, [], ◌∷◌}
use ditto_client.Python.Errors.{
  ErrorCode, node_inactive, no_quorum, key_not_found, internal_error, write_timeout,
  value_too_large, key_limit_reached, rate_limited, circuit_open, namespace_quota_exceeded,
  auth_failed, unsupported_request, type_mismatch, overflow,
}

abbrev pub protocol_version : ℕ
protocol_version = 1

-- The variants of ClientRequest, with the numbers `_REQ_*`.
pub data RequestKind : Type 0 where
  get set delete ping auth watch unwatch delete_by_pattern : RequestKind
  set_ttl_by_pattern set_nx incr : RequestKind

abbrev pub request_field : RequestKind → ℕ
request_field get = 1
request_field set = 2
request_field delete = 3
request_field ping = 4
request_field auth = 5
request_field watch = 6
request_field unwatch = 7
request_field delete_by_pattern = 8
request_field set_ttl_by_pattern = 9
request_field set_nx = 10
request_field incr = 11

-- The variants of ClientResponse, with the numbers `_RESP_*`.
pub data ResponseKind : Type 0 where
  value ok deleted not_found pong auth_ok error watching unwatched watch_event : ResponseKind
  pattern_deleted pattern_ttl_updated set_nx counter : ResponseKind

abbrev pub response_field : ResponseKind → ℕ
response_field value = 1
response_field ok = 2
response_field deleted = 3
response_field not_found = 4
response_field pong = 5
response_field auth_ok = 6
response_field error = 7
response_field watching = 8
response_field unwatched = 9
response_field watch_event = 10
response_field pattern_deleted = 11
response_field pattern_ttl_updated = 12
response_field ResponseKind.set_nx = 13
response_field counter = 14

-- `_ENV_VERSION`, `_ENV_CLIENT_REQUEST`, `_ENV_CLIENT_RESPONSE`
abbrev pub env_version : ℕ
env_version = 1

abbrev pub env_client_request : ℕ
env_client_request = 2

abbrev pub env_client_response : ℕ
env_client_response = 3

-- `_WT_VARINT`, `_WT_LD`
abbrev pub wt_varint : ℕ
wt_varint = 0

abbrev pub wt_ld : ℕ
wt_ld = 2

-- `_ERROR_CODE_NAMES`
abbrev pub error_code_names : List ErrorCode
error_code_names =
    node_inactive ∷ no_quorum ∷ key_not_found ∷ internal_error ∷ write_timeout ∷ value_too_large
    ∷ key_limit_reached ∷ rate_limited ∷ circuit_open ∷ namespace_quota_exceeded ∷ auth_failed
    ∷ unsupported_request ∷ type_mismatch ∷ overflow ∷ []
