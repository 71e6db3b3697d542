-- ===== src/Wire/Encode.antt =====
-- The encoding helpers of wire.py, from `_encode_varint` to `_wrap_client_request`. Each returns
-- bytes or raises: a negative varint, a lone surrogate in a text, a frame of 2 ^ 32 bytes or more.
use ditto_client.Prelude.{
  ℕ, zero, suc, ◌*◌, ◌/◌, ◌%◌, ◌^◌, Bool, not, Option, none, some, [], ◌∷◌, ◌++◌, bit_and, bit_or,
  ltb, if◌then◌else◌, is_empty, length,
}
use ditto_client.Prelude.Int.{ℤ, pos, negsuc, is_positive, mask64}
use ditto_client.Python.Text.{Str, Bytes, strip}
use ditto_client.Python.Utf8.{encode_utf8}
use ditto_client.Python.Errors.{Result, ok, err, negative_varint, struct_error, out_of_fuel, ◌>>=◌}
use ditto_client.Wire.Fields.{env_version, env_client_request, wt_varint, wt_ld, protocol_version}

-- The `while value >= 0x80` loop of `_encode_varint`; `out` is the bytearray.
unfoldable pub varint_loop : ℕ → ℕ → Bytes → Result Bytes
varint_loop zero value out = err out_of_fuel
varint_loop (suc fuel) value out =
    let more = varint_loop fuel (value / 2 ^ 7) (out ++ bit_or (bit_and value 0x7f) 0x80 ∷ []) in
    if ltb value 0x80 then ok (out ++ value ∷ []) else more

-- Every round divides the value, so one round more than its size is enough.
unfoldable pub encode_varint : ℤ → Result Bytes
encode_varint (negsuc n) = err negative_varint
encode_varint (pos value) = varint_loop (suc value) value []

unfoldable pub encode_tag : ℕ → ℕ → Result Bytes
encode_tag field wire = encode_varint (pos (bit_or (field * 2 ^ 3) wire))

unfoldable pub ld_field_always : ℕ → Bytes → Result Bytes
ld_field_always field payload = do
  tag ← encode_tag field wt_ld
  size ← encode_varint (pos (length payload))
  ok (tag ++ size ++ payload)

unfoldable pub ld_field : ℕ → Bytes → Result Bytes
ld_field field payload = if is_empty payload then ok [] else (do
  tag ← encode_tag field wt_ld
  size ← encode_varint (pos (length payload))
  ok (tag ++ size ++ payload))

unfoldable pub string_field : ℕ → Str → Result Bytes
string_field field value = if is_empty value then ok [] else (do
  raw ← encode_utf8 value
  tag ← encode_tag field wt_ld
  size ← encode_varint (pos (length raw))
  ok (tag ++ size ++ raw))

unfoldable pub bytes_field : ℕ → Bytes → Result Bytes
bytes_field field value = if is_empty value then ok [] else (do
  tag ← encode_tag field wt_ld
  size ← encode_varint (pos (length value))
  ok (tag ++ size ++ value))

unfoldable pub uint64_field : ℕ → ℤ → Result Bytes
uint64_field field (pos zero) = ok []
uint64_field field value = do
  tag ← encode_tag field wt_varint
  body ← encode_varint value
  ok (tag ++ body)

unfoldable pub int64_field : ℕ → ℤ → Result Bytes
int64_field field value = do
  tag ← encode_tag field wt_varint
  body ← encode_varint (pos (mask64 value))
  ok (tag ++ body)

unfoldable pub enum_field : ℕ → ℤ → Result Bytes
enum_field field (pos zero) = ok []
enum_field field value = do
  tag ← encode_tag field wt_varint
  body ← encode_varint value
  ok (tag ++ body)

-- `_encode_optional_string` and `_encode_optional_uint64`; `_OPT_VALUE` is 1.
unfoldable pub encode_optional_string : Str → Result Bytes
encode_optional_string value = string_field 1 value

unfoldable pub encode_optional_uint64 : ℤ → Result Bytes
encode_optional_uint64 value = uint64_field 1 value

unfoldable pub has_namespace : Option Str → Bool
has_namespace none = Bool.false
has_namespace (some namespace) = not (is_empty (strip namespace))

-- `if _has_namespace(namespace): parts.append(_ld_field(field, _encode_optional_string(namespace)))`
unfoldable pub namespace_part : ℕ → Option Str → Result Bytes
namespace_part field none = ok []
namespace_part field (some namespace) =
    if has_namespace (some namespace)
    then (do inner ← encode_optional_string namespace; ld_field field inner)
    else ok []

-- `if ttl_secs > 0: parts.append(_ld_field(field, _encode_optional_uint64(ttl_secs)))`
unfoldable pub ttl_part : ℕ → ℤ → Result Bytes
ttl_part field ttl_secs =
    if is_positive ttl_secs
    then (do inner ← encode_optional_uint64 ttl_secs; ld_field field inner)
    else ok []

unfoldable pub encode_key_namespace : Str → Option Str → Result Bytes
encode_key_namespace key namespace = do
  a ← string_field 1 key
  b ← namespace_part 2 namespace
  ok (a ++ b)

unfoldable pub encode_pattern_namespace : Str → Option Str → Result Bytes
encode_pattern_namespace pattern_text namespace = do
  a ← string_field 1 pattern_text
  b ← namespace_part 2 namespace
  ok (a ++ b)

unfoldable pub encode_set_request : Str → Bytes → ℤ → Option Str → Result Bytes
encode_set_request key value ttl_secs namespace = do
  a ← string_field 1 key
  b ← bytes_field 2 value
  c ← ttl_part 3 ttl_secs
  d ← namespace_part 4 namespace
  ok (a ++ b ++ c ++ d)

unfoldable pub encode_incr_request : Str → ℤ → ℤ → Option Str → Result Bytes
encode_incr_request key delta ttl_secs_on_create namespace = do
  a ← string_field 1 key
  b ← int64_field 2 delta
  c ← ttl_part 3 ttl_secs_on_create
  d ← namespace_part 4 namespace
  ok (a ++ b ++ c ++ d)

unfoldable pub encode_set_ttl_by_pattern_request : Str → ℤ → Option Str → Result Bytes
encode_set_ttl_by_pattern_request pattern_text ttl_secs namespace = do
  a ← string_field 1 pattern_text
  b ← ttl_part 2 ttl_secs
  c ← namespace_part 3 namespace
  ok (a ++ b ++ c)

unfoldable pub encode_auth_request : Str → Result Bytes
encode_auth_request token = string_field 1 token

-- `struct.pack(">I", n)`
unfoldable pub pack_u32 : ℕ → Result Bytes
pack_u32 n =
    if ltb n (2 ^ 32)
    then ok ((n / 2 ^ 24) ∷ (n / 2 ^ 16 % 256) ∷ (n / 2 ^ 8 % 256) ∷ (n % 256) ∷ [])
    else err struct_error

-- An Envelope around a oneof variant, behind its 4-byte length: the common body of
-- `_wrap_client_request` and `frame_client_response`.
unfoldable pub wrap_envelope : ℕ → ℕ → Bytes → Result Bytes
wrap_envelope envelope_field variant_field inner = do
  body ← ld_field_always variant_field inner
  version ← enum_field env_version (pos protocol_version)
  payload ← ld_field_always envelope_field body
  header ← pack_u32 (length (version ++ payload))
  ok (header ++ version ++ payload)

unfoldable pub wrap_client_request : ℕ → Bytes → Result Bytes
wrap_client_request variant_field inner = wrap_envelope env_client_request variant_field inner
