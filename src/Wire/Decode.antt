-- ===== src/Wire/Decode.antt =====
-- The decoders of wire.py. Every decoder runs one loop, `while r.remaining() > 0`, that reads a
-- tag and then handles or skips the field; its local variables are the state of the loop.
use ditto_client.Prelude.{
  ℕ, zero, suc, Option, none, some, Bool, true, false, not, ◌&&◌, [], ltb, ◌==◌, if◌then◌else◌,
  get_elem?, length,
}
use ditto_client.Prelude.Int.{ℤ, pos}
use ditto_client.Python.Text.{Str, Bytes}
use ditto_client.Python.Utf8.{decode_utf8}
use ditto_client.Python.Errors.{
  Result, ok, err, ErrorCode, internal_error, unsupported_version, missing_response,
  no_response_field, out_of_fuel, ◌>>=◌,
}
use ditto_client.Wire.Fields.{
  wt_varint, wt_ld, env_version, env_client_response, protocol_version, error_code_names,
}
use ditto_client.Wire.Reader.{
  Reader, reader, has_remaining, read_varint, read_int64, read_tag, read_ld, skip,
}
use ditto_client.Wire.Response.{ClientResponse, SimpleType}

-- The body of a loop: the field number, the wire type, the locals and the cursor behind the tag.
abbrev pub Body : Type 0 → Type 0
Body S = ℕ → ℕ → S → Reader → Result (S × Reader)

module _ {S : Type 0} (body : Body S) where
  unfoldable pub while_remaining : ℕ → S → Reader → Result S
  while_remaining zero s r = if has_remaining r then err out_of_fuel else ok s
  while_remaining (suc fuel) s r = elim (has_remaining r) [
    | false ↦ ok s
    | true ↦ (do
      (field, wire, r') ← read_tag r
      (s', r'') ← body field wire s r'
      while_remaining fuel s' r'')
  ]

  -- A round reads a tag of at least one byte, so as many rounds as bytes are enough.
  unfoldable pub read_fields : S → Bytes → Result S
  read_fields s buf = while_remaining (length buf) s (reader buf)

-- The branches of a loop body: `x = r.read_…()` and the final `else: r.skip(wire)`.
module _ {S : Type 0} where
  abbrev pub on_varint : (ℕ → S) → Reader → Result (S × Reader)
  on_varint f r = do (v, r') ← read_varint r; ok (f v, r')

  abbrev pub on_int64 : (ℤ → S) → Reader → Result (S × Reader)
  on_int64 f r = do (v, r') ← read_int64 r; ok (f v, r')

  abbrev pub on_bytes : (Bytes → S) → Reader → Result (S × Reader)
  on_bytes f r = do (v, r') ← read_ld r; ok (f v, r')

  abbrev pub on_text : (Str → S) → Reader → Result (S × Reader)
  on_text f r = do (raw, r') ← read_ld r; v ← decode_utf8 raw; ok (f v, r')

  abbrev pub on_other : ℕ → S → Reader → Result (S × Reader)
  on_other wire s r = do r' ← skip wire r; ok (s, r')

unfoldable pub value_body : Body (Str × Bytes × ℕ)
value_body field wire (key, value, version) r =
    if field == 1 && wire == wt_ld
    then on_text (λ k. (k, value, version)) r
    else if field == 2 && wire == wt_ld
    then on_bytes (λ v. (key, v, version)) r
    else if field == 3 && wire == wt_varint
    then on_varint (λ n. (key, value, n)) r
    else on_other wire (key, value, version) r

unfoldable pub decode_value_response : Bytes → Result ClientResponse
decode_value_response buf = do
  (key, value, version) ← read_fields value_body ([], [], 0) buf
  ok (ClientResponse.value key value version)

-- The body of the loops with one number in field 1: `_decode_ok_response` and `_decode_count`.
unfoldable pub count_body : Body ℕ
count_body field wire n r =
    if field == 1 && wire == wt_varint then on_varint (λ v. v) r else on_other wire n r

unfoldable pub decode_ok_response : Bytes → Result ClientResponse
decode_ok_response buf = do
  version ← read_fields count_body 0 buf
  ok (ClientResponse.ok_version version)

unfoldable pub decode_count : Bytes → Result ℕ
decode_count buf = read_fields count_body 0 buf

unfoldable pub error_body : Body (ℕ × Str)
error_body field wire (code_idx, message) r =
    if field == 1 && wire == wt_varint
    then on_varint (λ n. (n, message)) r
    else if field == 2 && wire == wt_ld
    then on_text (λ m. (code_idx, m)) r
    else on_other wire (code_idx, message) r

-- `_ERROR_CODE_NAMES[code_idx] if 0 <= code_idx < len(...) else INTERNAL_ERROR`
unfoldable pub error_code : ℕ → ErrorCode
error_code code_idx = elim (get_elem? error_code_names code_idx) [
  | none ↦ internal_error
  | some code ↦ code
]

unfoldable pub decode_error_response : Bytes → Result ClientResponse
decode_error_response buf = do
  (code_idx, message) ← read_fields error_body (0, []) buf
  ok (ClientResponse.error (error_code code_idx) message)

unfoldable pub optional_bytes_body : Body Bytes
optional_bytes_body field wire out r =
    if field == 1 && wire == wt_ld then on_bytes (λ v. v) r else on_other wire out r

unfoldable pub decode_optional_bytes : Bytes → Result Bytes
decode_optional_bytes buf = read_fields optional_bytes_body [] buf

unfoldable pub watch_event_body : Body (Str × Option Bytes × ℕ)
watch_event_body field wire (key, value, version) r =
    if field == 1 && wire == wt_ld
    then on_text (λ k. (k, value, version)) r
    else if field == 2 && wire == wt_ld
    then (do (raw, r') ← read_ld r; v ← decode_optional_bytes raw; ok ((key, some v, version), r'))
    else if field == 3 && wire == wt_varint
    then on_varint (λ n. (key, value, n)) r
    else on_other wire (key, value, version) r

unfoldable pub decode_watch_event : Bytes → Result ClientResponse
decode_watch_event buf = do
  (key, value, version) ← read_fields watch_event_body ([], none, 0) buf
  ok (ClientResponse.watch_event key value version)

unfoldable pub set_nx_body : Body (Bool × ℕ)
set_nx_body field wire (created, version) r =
    if field == 1 && wire == wt_varint
    then on_varint (λ n. (ltb 0 n, version)) r
    else if field == 2 && wire == wt_varint
    then on_varint (λ n. (created, n)) r
    else on_other wire (created, version) r

unfoldable pub decode_set_nx_response : Bytes → Result ClientResponse
decode_set_nx_response buf = do
  (created, version) ← read_fields set_nx_body (false, 0) buf
  ok (ClientResponse.set_nx created version)

unfoldable pub counter_body : Body (ℤ × ℕ)
counter_body field wire (value, version) r =
    if field == 1 && wire == wt_varint
    then on_int64 (λ v. (v, version)) r
    else if field == 2 && wire == wt_varint
    then on_varint (λ n. (value, n)) r
    else on_other wire (value, version) r

unfoldable pub decode_counter_response : Bytes → Result ClientResponse
decode_counter_response buf = do
  (value, version) ← read_fields counter_body (pos 0, 0) buf
  ok (ClientResponse.counter value version)

-- The envelope's loop: the version and the last `client_response` payload.
unfoldable pub envelope_body : Body (ℕ × Option Bytes)
envelope_body field wire (version, response_bytes) r =
    if field == env_version && wire == wt_varint
    then on_varint (λ n. (n, response_bytes)) r
    else if field == env_client_response && wire == wt_ld
    then on_bytes (λ b. (version, some b)) r
    else on_other wire (version, response_bytes) r

-- The chain of `if field == _RESP_…: return …`; `none` is falling through to the next round.
unfoldable pub decode_variant : ℕ → Bytes → Option (Result ClientResponse)
decode_variant field inner =
    if field == 1
    then some (decode_value_response inner)
    else if field == 2
    then some (decode_ok_response inner)
    else if field == 3
    then some (ok (ClientResponse.simple SimpleType.deleted))
    else if field == 4
    then some (ok (ClientResponse.simple SimpleType.not_found))
    else if field == 5
    then some (ok (ClientResponse.simple SimpleType.pong))
    else if field == 6
    then some (ok (ClientResponse.simple SimpleType.auth_ok))
    else if field == 7
    then some (decode_error_response inner)
    else if field == 8
    then some (ok (ClientResponse.simple SimpleType.watching))
    else if field == 9
    then some (ok (ClientResponse.simple SimpleType.unwatched))
    else if field == 10
    then some (decode_watch_event inner)
    else if field == 11
    then some (do n ← decode_count inner; ok (ClientResponse.pattern_deleted n))
    else if field == 12
    then some (do n ← decode_count inner; ok (ClientResponse.pattern_ttl_updated n))
    else if field == 13
    then some (decode_set_nx_response inner)
    else if field == 14
    then some (decode_counter_response inner)
    else none

-- The loop over the oneof: the first length-delimited field that is a known variant.
unfoldable pub response_loop : ℕ → Reader → Result ClientResponse
response_loop zero r = if has_remaining r then err out_of_fuel else err no_response_field
response_loop (suc fuel) r = elim (has_remaining r) [
  | false ↦ err no_response_field
  | true ↦ (do
    (field, wire, r') ← read_tag r
    elim (wire == wt_ld) [
      | false ↦ (do r'' ← skip wire r'; response_loop fuel r'')
      | true ↦ (do
        (inner, r'') ← read_ld r'
        elim (decode_variant field inner) [ some result ↦ result | none ↦ response_loop fuel r'' ])
    ])
]

-- The checks between the two loops.
unfoldable pub check_envelope : ℕ × Option Bytes → Result Bytes
check_envelope (version, response_bytes) =
    if not (version == 0) && not (version == protocol_version)
    then err (unsupported_version version)
    else elim response_bytes [ none ↦ err missing_response | some payload ↦ ok payload ]

unfoldable pub decode_response : Bytes → Result ClientResponse
decode_response buf = do
  locals ← read_fields envelope_body (0, none) buf
  payload ← check_envelope locals
  response_loop (length payload) (reader payload)
