-- ===== src/Wire/Envelope.antt =====
-- The bodies of the requests of wire.py as messages, and the envelope and the frame around them.
use ditto_client.Prelude.{ℕ, ◌≡◌, Option, List, [], ◌∷◌, ◌++◌, length, append_assoc}
use ditto_client.Prelude.Int.{ℤ, mask64}
use ditto_client.Python.Text.{Str, Bytes}
use ditto_client.Python.Utf8.{encode_utf8}
use ditto_client.Python.Errors.{Result, ok, ◌>>=◌}
use ditto_client.Wire.Message.{Field, number, delimited, print, print-append}
use ditto_client.Wire.Printed.{
  bytes_fields, ttl_fields, namespace_fields, namespace_bytes, ld_field_always_lem, enum_field_lem,
  parts,
}
use ditto_client.Wire.Encode.{
  encode_key_namespace, encode_pattern_namespace, encode_set_request, encode_incr_request,
  encode_set_ttl_by_pattern_request, pack_u32, wrap_envelope,
}

-- The messages of the requests, given the bytes of their texts.
abbrev pub set_message : Bytes → Bytes → ℤ → Option Bytes → List Field
set_message key value ttl namespace =
    bytes_fields 1 key
    ++ (bytes_fields 2 value ++ (ttl_fields 3 ttl ++ namespace_fields 4 namespace))

abbrev pub incr_message : Bytes → ℤ → ℤ → Option Bytes → List Field
incr_message key delta ttl namespace =
    bytes_fields 1 key
    ++ (number 2 (mask64 delta) ∷ [] ++ (ttl_fields 3 ttl ++ namespace_fields 4 namespace))

abbrev pub key_message : Bytes → Option Bytes → List Field
key_message key namespace = bytes_fields 1 key ++ namespace_fields 2 namespace

abbrev pub pattern_ttl_message : Bytes → ℤ → Option Bytes → List Field
pattern_ttl_message key ttl namespace =
    bytes_fields 1 key ++ (ttl_fields 2 ttl ++ namespace_fields 3 namespace)

-- `_encode_set_request` prints a SetRequest: empty parts and a time to live of 0 or less are left
-- out, and so is a blank namespace.
pub encode_set_request_lem :
    (key : Str) (value : Bytes) (ttl : ℤ) (namespace : Option Str)
    → encode_set_request key value ttl namespace ≡ (do
      k ← encode_utf8 key
      n ← namespace_bytes namespace
      ok (print (set_message k value ttl n)))
unfolding encode_set_request
encode_set_request_lem key value ttl namespace = simp parts

-- `_encode_incr_request` prints an IncrRequest; the delta is sent for 0 too, as 64 bits.
pub encode_incr_request_lem :
    (key : Str) (delta ttl : ℤ) (namespace : Option Str)
    → encode_incr_request key delta ttl namespace ≡ (do
      k ← encode_utf8 key
      n ← namespace_bytes namespace
      ok (print (incr_message k delta ttl n)))
unfolding encode_incr_request
encode_incr_request_lem key delta ttl namespace = simp parts

-- `_encode_key_namespace` and `_encode_pattern_namespace` print the same message.
pub encode_key_namespace_lem :
    (key : Str) (namespace : Option Str)
    → encode_key_namespace key namespace
      ≡ (do k ← encode_utf8 key; n ← namespace_bytes namespace; ok (print (key_message k n)))
unfolding encode_key_namespace
encode_key_namespace_lem key namespace = simp parts

pub encode_pattern_namespace_lem :
    (glob : Str) (namespace : Option Str)
    → encode_pattern_namespace glob namespace
      ≡ (do k ← encode_utf8 glob; n ← namespace_bytes namespace; ok (print (key_message k n)))
unfolding encode_pattern_namespace
encode_pattern_namespace_lem glob namespace = simp parts

pub encode_set_ttl_by_pattern_request_lem :
    (glob : Str) (ttl : ℤ) (namespace : Option Str)
    → encode_set_ttl_by_pattern_request glob ttl namespace ≡ (do
      k ← encode_utf8 glob
      n ← namespace_bytes namespace
      ok (print (pattern_ttl_message k ttl n)))
unfolding encode_set_ttl_by_pattern_request
encode_set_ttl_by_pattern_request_lem glob ttl namespace = simp parts

-- An envelope: the version, and the payload in its field.
abbrev pub envelope : ℕ → List Field → Bytes
envelope field payload = print (number 1 1 ∷ delimited field (print payload) ∷ [])

-- A payload behind its length.
abbrev pub framed : Bytes → Result Bytes
framed payload = do header ← pack_u32 (length payload); ok (header ++ payload)

-- `_wrap_client_request` and `frame_client_response` frame an envelope around the variant.
pub wrap_envelope_lem :
    (field variant : ℕ) (inner : Bytes)
    → wrap_envelope field variant inner ≡ framed (envelope field (delimited variant inner ∷ []))
unfolding wrap_envelope
wrap_envelope_lem field variant inner = rw (ld_field_always_lem variant inner) (
    rw (enum_field_lem 1 1) (
      rw (ld_field_always_lem field (print (delimited variant inner ∷ [])))
        (simp (append_assoc, ← print-append))))
