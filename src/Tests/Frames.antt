-- ===== src/Tests/Frames.antt =====
-- Frames of wire.py and checks of validation.py at concrete inputs.
use ditto_client.Prelude.{◌≡◌, ◌↔◌, refl, none, some, true, List, [], ◌∷◌, ◌++◌, arith, drop}
use ditto_client.Prelude.Int.{pos}
use ditto_client.Python.Text.{Str, Bytes, codes}
use ditto_client.Python.Utf8.{encode_utf8, encode_char}
use ditto_client.Python.Errors.{ok, err, Raises, unsupported_version, ◌>>=◌}
use ditto_client.Validation.{validate_core_inputs, validate_pattern_inputs, normalized_namespace}
use ditto_client.Validation.Laws.{
  KeyIsValid, PatternIsValid, NamespaceIsValid, strip_option, validate_core_inputs_iff,
  validate_pattern_inputs_iff, normalized_namespace_iff,
}
use ditto_client.Wire.Message.{Field, number, delimited, print, varint, groups, encode_varint_lem}
use ditto_client.Wire.Encode.{
  encode_varint, varint_loop, encode_tag, ld_field_always, string_field, bytes_field, uint64_field,
  enum_field, pack_u32, wrap_envelope, wrap_client_request, encode_key_namespace, namespace_part,
}
use ditto_client.Wire.Requests.{encode_get}
use ditto_client.Wire.Reader.{reader, read_varint, read_varint_loop, slice, read_ld}
use ditto_client.Wire.Cursor.{at, read_varint-varint}
use ditto_client.Wire.Response.{ClientResponse}
use ditto_client.Wire.Decode.{decode_response, decode_watch_event}
use ditto_client.Wire.Frames.{frame_client_response, decode_client_request_variant}
use ditto_client.Wire.Fold.{fold}
use ditto_client.Wire.Meaning.{watch_event_step, decode_watch_event-print}
use ditto_client.Wire.Oneof.{decode_response-print}
use ditto_client.Wire.RoundTrip.Server.{server_frame, server_message}
use ditto_client.Wire.RoundTrip.Responses.{decode_response-server_frame}
use ditto_client.Wire.Sent.{Request, message_of, decode_client_request_variant-encode}
use ditto_client.Wire.Total.{decode_response-Raises}
use ditto_client.Wire.Total.Moves.{IsOwn}
use ditto_client.Wire.Total.Within.{Within, read_ld-Within}

abbrev pub k : Str
k = codes "k"

-- The request to get `k`, and the Value with which it is answered.
abbrev pub get_frame : Bytes
get_frame = 0 ∷ 0 ∷ 0 ∷ 9 ∷ 8 ∷ 1 ∷ 18 ∷ 5 ∷ 10 ∷ 3 ∷ 10 ∷ 1 ∷ 107 ∷ []

abbrev pub value_response : ClientResponse
value_response = ClientResponse.value k (1 ∷ []) 7

abbrev pub value_frame : Bytes
value_frame = 0 ∷ 0 ∷ 0 ∷ 14 ∷ 8 ∷ 1 ∷ 26 ∷ 10 ∷ 10 ∷ 8 ∷ 10 ∷ 1 ∷ 107 ∷ 18 ∷ 1 ∷ 1 ∷ 24 ∷ 7 ∷ []

pub encode_get-k : encode_get k none ≡ ok get_frame
unfolding encode_get encode_key_namespace string_field encode_utf8 encode_char encode_tag
    encode_varint varint_loop namespace_part wrap_client_request wrap_envelope ld_field_always
    enum_field pack_u32
encode_get-k = refl

pub server_frame-value : server_frame value_response ≡ ok value_frame
unfolding server_frame server_message frame_client_response string_field bytes_field uint64_field
    encode_utf8 encode_char encode_tag encode_varint varint_loop wrap_envelope ld_field_always
    enum_field pack_u32
server_frame-value = refl

decode_response-server_frame_example : decode_response (drop 4 value_frame) ≡ ok value_response
decode_response-server_frame_example =
    decode_response-server_frame value_response value_frame (omega arith) server_frame-value

decode_client_request_variant-encode_example :
    (fs : List Field) × (message_of (Request.get k none) ≡ ok fs)
    × (decode_client_request_variant (drop 4 get_frame) ≡ ok (1, print fs))
decode_client_request_variant-encode_example =
    decode_client_request_variant-encode (Request.get k none) get_frame encode_get-k

decode_response-Raises_example : Raises IsOwn (decode_response (8 ∷ 1 ∷ 26 ∷ 200 ∷ []))
decode_response-Raises_example = decode_response-Raises (8 ∷ 1 ∷ 26 ∷ 200 ∷ [])

-- A field of two bytes behind its length, and one byte that is not read.
read_ld-Within_example :
    Within
      (reader (2 ∷ 7 ∷ 8 ∷ 9 ∷ []))
      (7 ∷ 8 ∷ [])
      (record { buf = 2 ∷ 7 ∷ 8 ∷ 9 ∷ []; off = 3; limit = 4 })
unfolding read_ld slice read_varint read_varint_loop
read_ld-Within_example =
    read_ld-Within (reader (2 ∷ 7 ∷ 8 ∷ 9 ∷ []))
      (record { buf = 2 ∷ 7 ∷ 8 ∷ 9 ∷ []; off = 3; limit = 4 }) (7 ∷ 8 ∷ []) refl refl

-- An envelope of version 2.
abbrev unknown_version : List Field
unknown_version = number 1 2 ∷ delimited 3 (print (delimited 5 [] ∷ [])) ∷ []

decode_response-print_example :
    decode_response (print unknown_version) ≡ err (unsupported_version 2)
unfolding print groups
decode_response-print_example =
    decode_response-print unknown_version (delimited 5 [] ∷ []) 2
      ((omega arith, omega arith), ((omega arith, omega arith), tt))
      ((omega arith, omega arith), tt) refl

-- An event of a deleted key: no value field.
abbrev deleted_event : List Field
deleted_event = delimited 1 k ∷ number 3 9 ∷ []

decode_watch_event-print_example : decode_watch_event (print deleted_event) ≡ (do
  (key, value, version) ← fold watch_event_step ([], none, 0) deleted_event
  ok (ClientResponse.watch_event key value version))
decode_watch_event-print_example =
    decode_watch_event-print deleted_event
      ((omega arith, omega arith), ((omega arith, omega arith), tt))

encode_varint_lem_example : encode_varint (pos 300) ≡ ok (varint 300)
encode_varint_lem_example = encode_varint_lem 300

read_varint-varint_example :
    read_varint (at [] (varint 300 ++ 5 ∷ [])) ≡ ok (300, at ([] ++ varint 300) (5 ∷ []))
read_varint-varint_example = read_varint-varint 300 [] (5 ∷ []) (omega arith)

validate_core_inputs_iff_example :
    (validate_core_inputs true (codes "get") (some (codes "a:1")) (some (codes " team ")) ≡ ok tt)
    ↔ (KeyIsValid (some (codes "a:1")) × NamespaceIsValid (some (codes " team ")))
validate_core_inputs_iff_example =
    validate_core_inputs_iff (codes "get") (some (codes "a:1")) (some (codes " team "))

validate_pattern_inputs_iff_example :
    (validate_pattern_inputs true (codes "watch") (some (codes " a*")) none ≡ ok tt)
    ↔ (PatternIsValid (some (codes " a*")) × NamespaceIsValid none)
validate_pattern_inputs_iff_example =
    validate_pattern_inputs_iff (codes "watch") (some (codes " a*")) none

normalized_namespace_iff_example :
    (normalized_namespace true (some (codes " team ")) ≡ ok none)
    ↔ (NamespaceIsValid (some (codes " team ")) × (none ≡ strip_option (some (codes " team "))))
normalized_namespace_iff_example = normalized_namespace_iff (some (codes " team ")) none
