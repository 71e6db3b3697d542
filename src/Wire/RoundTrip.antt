-- ===== src/Wire/RoundTrip.antt =====
-- `decode_response` on a frame of `frame_client_response`. The child Responses has the round trip of
-- every response.
pub mod Folds
pub mod Server
pub mod Numbers
pub mod Texts
pub mod Events
pub mod Responses
use ditto_client.Prelude.{
  ℕ, zero, suc, ◌+◌, ◌*◌, ◌^◌, ◌≤◌, ◌<◌, ◌≡◌, refl, ◌∙◌, Option, none, some, Bool, true, false,
  List, [], ◌∷◌, ◌++◌, arith, ltb, ◌==◌, if◌then◌else◌, length, length-append, All, drop,
}
use ditto_client.Prelude.Int.{ℤ, pos, negsuc, mask64}
use ditto_client.Python.Text.{Str, Bytes}
use ditto_client.Python.Utf8.{encode_utf8, decode_utf8, decode-encode_utf8}
use ditto_client.Python.Errors.{Result, ok, err, ErrorCode, no_response_field, ◌>>=◌, >>=-eq-ok}
use ditto_client.Wire.Fields.{ResponseKind, response_field}
use ditto_client.Wire.Message.{Field, number, delimited, print, Fits}
use ditto_client.Wire.Response.{ClientResponse, SimpleType}
use ditto_client.Wire.Frames.{frame_client_response}
use ditto_client.Wire.Decode.{decode_variant, decode_response}
use ditto_client.Wire.Encode.{pack_u32}
use ditto_client.Wire.Envelope.{envelope, framed, wrap_envelope_lem}
use ditto_client.Wire.Oneof.{decode_response-print}
use Folds.{Narrow, Narrow-Fits, length-envelope}

-- A frame is its payload behind four bytes, and the payload is shorter than 2 ^ 32 bytes.
pub framed-ok :
    (payload frame : Bytes)
    → framed payload ≡ ok frame
    → (drop 4 frame ≡ payload) × (length payload < 2 ^ 32)
unfolding pack_u32
framed-ok payload frame h = ground arith

-- `decode_response` on a frame of `frame_client_response`: the variant, if it is known.
pub decode_response-frame :
    (field : ℕ) (inner frame : Bytes)
    → field < 100
    → frame_client_response field inner ≡ ok frame
    → (length inner < 2 ^ 32)
      × (decode_response (drop 4 frame) ≡ elim (decode_variant field inner) [
        | some result ↦ result
        | none ↦ err no_response_field
      ])
unfolding frame_client_response
decode_response-frame field inner frame small h =
    let e = rw (wrap_envelope_lem 3 field inner) at h in
    let (body, fits) = framed-ok (envelope 3 (delimited field inner ∷ [])) frame e in
    let (a, b) = length-envelope 3 field inner in
    (
      omega arith,
      rw body (
          decode_response-print (number 1 1 ∷ delimited 3 (print (delimited field inner ∷ [])) ∷ [])
            (delimited field inner ∷ []) 1
            ((omega arith, omega arith), ((omega arith, omega arith), tt))
            ((omega arith, omega arith), tt) refl),
    )
