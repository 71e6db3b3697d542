-- ===== src/Wire/RoundTrip/Server.antt =====
-- The server's side of the wire as a specification: every response of the protocol, written by the
-- helpers of wire.py that forge server frames. The messages that have no such helper, a value and the
-- two counts, are written with the field helpers in the order of their numbers.
use ditto_client.Prelude.{ℕ, ◌^◌, ◌<◌, ◌≡◌, refl, some, [], ◌++◌, arith, length}
use ditto_client.Prelude.Int.{ℤ, pos, negsuc}
use ditto_client.Python.Text.{Bytes}
use ditto_client.Python.Errors.{
  Result, ok, ◌>>=◌, ErrorCode, node_inactive, no_quorum, key_not_found, internal_error,
  write_timeout, value_too_large, key_limit_reached, rate_limited, circuit_open,
  namespace_quota_exceeded, auth_failed, unsupported_request, type_mismatch, overflow,
}
use ditto_client.Wire.Fields.{ResponseKind, response_field}
use ditto_client.Wire.Response.{ClientResponse, SimpleType}
use ditto_client.Wire.Frames.{
  frame_client_response, encode_error_response_inner, encode_version_response_inner,
  encode_set_nx_response_inner, encode_counter_response_inner, encode_watch_event_inner,
}
use ditto_client.Wire.Encode.{string_field, bytes_field, uint64_field}
use ditto_client.Wire.Decode.{decode_variant, error_code}

-- The place of a code in `_ERROR_CODE_NAMES`.
abbrev pub code_index : ErrorCode → ℕ
code_index node_inactive = 0
code_index no_quorum = 1
code_index key_not_found = 2
code_index internal_error = 3
code_index write_timeout = 4
code_index value_too_large = 5
code_index key_limit_reached = 6
code_index rate_limited = 7
code_index circuit_open = 8
code_index namespace_quota_exceeded = 9
code_index auth_failed = 10
code_index unsupported_request = 11
code_index type_mismatch = 12
code_index overflow = 13

pub code_index-lt : (code : ErrorCode) → code_index code < 14
code_index-lt node_inactive = omega arith
code_index-lt code = omega arith

pub error_code-code_index : (code : ErrorCode) → error_code (code_index code) ≡ code
unfolding error_code
error_code-code_index node_inactive = refl
error_code-code_index code = refl

simple_kind : SimpleType → ResponseKind
simple_kind SimpleType.deleted = ResponseKind.deleted
simple_kind SimpleType.not_found = ResponseKind.not_found
simple_kind SimpleType.pong = ResponseKind.pong
simple_kind SimpleType.auth_ok = ResponseKind.auth_ok
simple_kind SimpleType.watching = ResponseKind.watching
simple_kind SimpleType.unwatched = ResponseKind.unwatched

-- The variant's number and its message.
unfoldable pub server_message : ClientResponse → ResponseKind × Result Bytes
unfolding simple_kind
server_message (ClientResponse.value key value version) = (
  ResponseKind.value,
  (do
    a ← string_field 1 key
    b ← bytes_field 2 value
    c ← uint64_field 3 (pos version)
    ok (a ++ b ++ c)),
)
server_message (ClientResponse.ok_version version) =
    (ResponseKind.ok, encode_version_response_inner (pos version))
server_message (ClientResponse.simple kind) = (simple_kind kind, ok [])
server_message (ClientResponse.error code message) =
    (ResponseKind.error, encode_error_response_inner (pos (code_index code)) message)
server_message (ClientResponse.watch_event key value version) =
    (ResponseKind.watch_event, encode_watch_event_inner key value (pos version))
server_message (ClientResponse.pattern_deleted n) =
    (ResponseKind.pattern_deleted, encode_version_response_inner (pos n))
server_message (ClientResponse.pattern_ttl_updated n) =
    (ResponseKind.pattern_ttl_updated, encode_version_response_inner (pos n))
server_message (ClientResponse.set_nx created version) =
    (ResponseKind.set_nx, encode_set_nx_response_inner created (pos version))
server_message (ClientResponse.counter value version) =
    (ResponseKind.counter, encode_counter_response_inner value (pos version))

unfoldable pub server_frame : ClientResponse → Result Bytes
server_frame response =
    let (kind, message) = server_message response in
    (do inner ← message; frame_client_response (response_field kind) inner)

abbrev pub IsU64 : ℕ → Type 0
IsU64 n = n < 2 ^ 64

abbrev pub IsI64 : ℤ → Type 0
IsI64 (pos n) = n < 2 ^ 63
IsI64 (negsuc n) = n < 2 ^ 63

-- The numbers of a response are those of the protocol: uint64, and int64 for a counter.
abbrev pub InRange : ClientResponse → Type 0
InRange (ClientResponse.value key value version) = IsU64 version
InRange (ClientResponse.ok_version version) = IsU64 version
InRange (ClientResponse.watch_event key value version) = IsU64 version
InRange (ClientResponse.pattern_deleted n) = IsU64 n
InRange (ClientResponse.pattern_ttl_updated n) = IsU64 n
InRange (ClientResponse.set_nx created version) = IsU64 version
InRange (ClientResponse.counter value version) = IsI64 value × IsU64 version
InRange response = Unit {0}

-- Each message decodes to its response: what is left of the round trip for each variant.
abbrev pub Decodes : ClientResponse → Type 0
Decodes response =
    (inner : Bytes)
    → (server_message response).1 ≡ ok inner
    → length inner < 2 ^ 32
    → decode_variant (response_field (server_message response).0) inner ≡ some (ok response)
