-- ===== src/Wire/Frames.antt =====
-- The helpers at the end of wire.py that forge server frames and take request frames apart.
use ditto_client.Prelude.{
  ℕ, zero, suc, Option, none, some, Bool, true, false, ◌&&◌, [], ◌++◌, ◌==◌, if◌then◌else◌, length,
}
use ditto_client.Prelude.Int.{ℤ, pos}
use ditto_client.Python.Text.{Str, Bytes}
use ditto_client.Python.Errors.{
  Result, ok, err, missing_request, no_request_field, out_of_fuel, ◌>>=◌,
}
use ditto_client.Wire.Fields.{env_client_request, env_client_response, wt_ld}
use ditto_client.Wire.Encode.{
  string_field, bytes_field, uint64_field, int64_field, enum_field, ld_field_always, wrap_envelope,
}
use ditto_client.Wire.Reader.{Reader, reader, has_remaining, read_tag, read_ld, skip}
use ditto_client.Wire.Decode.{Body, on_bytes, on_other, read_fields}

unfoldable pub frame_client_response : ℕ → Bytes → Result Bytes
frame_client_response variant_field inner = wrap_envelope env_client_response variant_field inner

unfoldable pub encode_error_response_inner : ℤ → Str → Result Bytes
encode_error_response_inner code_idx message = do
  a ← enum_field 1 code_idx
  b ← string_field 2 message
  ok (a ++ b)

unfoldable pub encode_version_response_inner : ℤ → Result Bytes
encode_version_response_inner version = uint64_field 1 version

unfoldable pub encode_set_nx_response_inner : Bool → ℤ → Result Bytes
encode_set_nx_response_inner created version = do
  a ← uint64_field 1 (if created then pos 1 else pos 0)
  b ← uint64_field 2 version
  ok (a ++ b)

unfoldable pub encode_counter_response_inner : ℤ → ℤ → Result Bytes
encode_counter_response_inner value version = do
  a ← int64_field 1 value
  b ← uint64_field 2 version
  ok (a ++ b)

-- `if value is not None: …`
unfoldable pub watch_value_part : Option Bytes → Result Bytes
watch_value_part none = ok []
watch_value_part (some value) = do opt ← bytes_field 1 value; ld_field_always 2 opt

unfoldable pub encode_watch_event_inner : Str → Option Bytes → ℤ → Result Bytes
encode_watch_event_inner key value version = do
  a ← string_field 1 key
  b ← watch_value_part value
  c ← uint64_field 3 version
  ok (a ++ b ++ c)

unfoldable pub request_envelope_body : Body (Option Bytes)
request_envelope_body field wire request_bytes r =
    if field == env_client_request && wire == wt_ld
    then on_bytes (λ b. some b) r
    else on_other wire request_bytes r

-- The second loop of `decode_client_request_variant`: the first length-delimited field.
unfoldable pub request_loop : ℕ → Reader → Result (ℕ × Bytes)
request_loop zero r = if has_remaining r then err out_of_fuel else err no_request_field
request_loop (suc fuel) r = elim (has_remaining r) [
  | false ↦ err no_request_field
  | true ↦ (do
    (field, wire, r') ← read_tag r
    elim (wire == wt_ld) [
      | false ↦ (do r'' ← skip wire r'; request_loop fuel r'')
      | true ↦ (do (inner, r'') ← read_ld r'; ok (field, inner))
    ])
]

unfoldable pub or_missing : Option Bytes → Result Bytes
or_missing none = err missing_request
or_missing (some payload) = ok payload

unfoldable pub decode_client_request_variant : Bytes → Result (ℕ × Bytes)
decode_client_request_variant buf = do
  request_bytes ← read_fields request_envelope_body none buf
  payload ← or_missing request_bytes
  request_loop (length payload) (reader payload)
