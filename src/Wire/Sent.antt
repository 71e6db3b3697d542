-- ===== src/Wire/Sent.antt =====
-- What the client sends, a server that reads the envelope finds: the requests as data, the encoder
-- and the message of each, and the round trip through `decode_client_request_variant`.
use ditto_client.Prelude.{
  ℕ, zero, suc, ◌^◌, ◌≤◌, ◌<◌, ◌≡◌, refl, sym, ◌∙◌, Option, none, some, List, [], ◌∷◌, ◌++◌, arith,
  ◌==◌, if◌then◌else◌, length, drop,
}
use ditto_client.Prelude.Int.{ℤ}
use ditto_client.Python.Text.{Str, Bytes}
use ditto_client.Python.Utf8.{encode_utf8}
use ditto_client.Python.Errors.{Result, ok, ◌>>=◌, >>=-eq-ok, bind_assoc}
use ditto_client.Wire.Fields.{RequestKind, request_field}
use ditto_client.Wire.Message.{
  Field, number, delimited, print, Fits, body_bytes, tag_bytes, length-le-print,
}
use ditto_client.Wire.Cursor.{at}
use ditto_client.Wire.Fold.{Follows, read_fields-print, read_tag-field, has_remaining-field}
use ditto_client.Wire.Meaning.{reads}
use ditto_client.Wire.Frames.{
  request_envelope_body, request_loop, decode_client_request_variant, or_missing,
}
use ditto_client.Wire.Encode.{wrap_client_request, encode_auth_request}
use ditto_client.Wire.Printed.{bytes_fields, namespace_bytes, string_field_lem}
use ditto_client.Wire.Envelope.{
  envelope, wrap_envelope_lem, set_message, incr_message, key_message, pattern_ttl_message,
  encode_set_request_lem, encode_incr_request_lem, encode_key_namespace_lem,
  encode_pattern_namespace_lem, encode_set_ttl_by_pattern_request_lem,
}
use ditto_client.Wire.RoundTrip.{framed-ok}
use ditto_client.Wire.RoundTrip.Folds.{length-envelope}
use ditto_client.Wire.Requests.{
  encode_get, encode_set, encode_delete, encode_set_nx, encode_incr, encode_ping, encode_auth,
  encode_watch, encode_unwatch, encode_delete_by_pattern, encode_set_ttl_by_pattern,
}

pub data Request : Type 0 where
  get delete watch unwatch delete_by_pattern : Str → Option Str → Request
  set set_nx : Str → Bytes → ℤ → Option Str → Request
  incr : Str → ℤ → ℤ → Option Str → Request
  ping : Request
  auth : Str → Request
  set_ttl_by_pattern : Str → ℤ → Option Str → Request

abbrev pub encode_request : Request → Result Bytes
encode_request (get key namespace) = encode_get key namespace
encode_request (delete key namespace) = encode_delete key namespace
encode_request (watch key namespace) = encode_watch key namespace
encode_request (unwatch key namespace) = encode_unwatch key namespace
encode_request (delete_by_pattern glob namespace) = encode_delete_by_pattern glob namespace
encode_request (set key value ttl namespace) = encode_set key value ttl namespace
encode_request (set_nx key value ttl namespace) = encode_set_nx key value ttl namespace
encode_request (incr key delta ttl namespace) = encode_incr key delta ttl namespace
encode_request ping = encode_ping
encode_request (auth token) = encode_auth token
encode_request (set_ttl_by_pattern glob ttl namespace) =
    encode_set_ttl_by_pattern glob ttl namespace

abbrev pub kind_of : Request → RequestKind
kind_of (get key namespace) = RequestKind.get
kind_of (delete key namespace) = RequestKind.delete
kind_of (watch key namespace) = RequestKind.watch
kind_of (unwatch key namespace) = RequestKind.unwatch
kind_of (delete_by_pattern glob namespace) = RequestKind.delete_by_pattern
kind_of (set key value ttl namespace) = RequestKind.set
kind_of (set_nx key value ttl namespace) = RequestKind.set_nx
kind_of (incr key delta ttl namespace) = RequestKind.incr
kind_of ping = RequestKind.ping
kind_of (auth token) = RequestKind.auth
kind_of (set_ttl_by_pattern glob ttl namespace) = RequestKind.set_ttl_by_pattern

-- A key and a namespace, and what a message makes of their bytes.
abbrev with_texts : Str → Option Str → (Bytes → Option Bytes → List Field) → Result (List Field)
with_texts key namespace message = do
  k ← encode_utf8 key
  n ← namespace_bytes namespace
  ok (message k n)

-- The message of a request in the terms of the protocol.
abbrev pub message_of : Request → Result (List Field)
message_of (get key namespace) = with_texts key namespace key_message
message_of (delete key namespace) = with_texts key namespace key_message
message_of (watch key namespace) = with_texts key namespace key_message
message_of (unwatch key namespace) = with_texts key namespace key_message
message_of (delete_by_pattern glob namespace) = with_texts glob namespace key_message
message_of (set key value ttl namespace) =
    with_texts key namespace (λ k n. set_message k value ttl n)
message_of (set_nx key value ttl namespace) =
    with_texts key namespace (λ k n. set_message k value ttl n)
message_of (incr key delta ttl namespace) =
    with_texts key namespace (λ k n. incr_message k delta ttl n)
message_of ping = ok []
message_of (auth token) = do t ← encode_utf8 token; ok (bytes_fields 1 t)
message_of (set_ttl_by_pattern glob ttl namespace) =
    with_texts glob namespace (λ k n. pattern_ttl_message k ttl n)

ruleset bodies = (
  encode_set_request_lem, encode_incr_request_lem, encode_key_namespace_lem,
  encode_pattern_namespace_lem, encode_set_ttl_by_pattern_request_lem, string_field_lem, bind_assoc,
)

-- Every encoder wraps the message of its request in the variant of its request.
encode_request-message :
    (r : Request)
    → encode_request r
      ≡ (do fs ← message_of r; wrap_client_request (request_field (kind_of r)) (print fs))
unfolding encode_get encode_set encode_delete encode_set_nx encode_incr encode_ping encode_auth
    encode_watch encode_unwatch encode_delete_by_pattern encode_set_ttl_by_pattern
    encode_auth_request
encode_request-message (get key namespace) = simp bodies
encode_request-message ping = unfold print in refl
encode_request-message r = simp bodies

-- The envelope's loop of `decode_client_request_variant` keeps the last client_request payload.
abbrev payload_step : Option Bytes → Field → Result (Option Bytes)
payload_step payload (delimited n bs) = ok (if n == 2 then some bs else payload)
payload_step payload f = ok payload

request_envelope_body-Follows : Follows request_envelope_body payload_step
unfolding request_envelope_body
request_envelope_body-Follows (number n v) p front back h =
    ground (arith, reads (number n v) front back h)
request_envelope_body-Follows f p front back h = ground (arith, reads f front back h)

request_loop-field :
    (fuel n : ℕ) (inner : Bytes)
    → 1 ≤ fuel
    → Fits (delimited n inner)
    → request_loop fuel (at [] (print (delimited n inner ∷ []))) ≡ ok (n, inner)
unfolding request_loop print
request_loop-field zero n inner h fits = absurd (omega arith)
request_loop-field (suc fuel) n inner h fits =
    let f = delimited n inner in
    let back : Bytes = body_bytes f ++ [] in
    rw (has_remaining-field f [] back, request_loop)
      (rw (read_tag-field f [] back fits) (rw (reads f (tag_bytes f) [] fits.1).0))

-- An envelope around one variant is read back.
request-envelope :
    (n : ℕ) (inner : Bytes)
    → n < 100
    → length (envelope 2 (delimited n inner ∷ [])) < 2 ^ 32
    → decode_client_request_variant (envelope 2 (delimited n inner ∷ [])) ≡ ok (n, inner)
unfolding decode_client_request_variant or_missing
request-envelope n inner small fits =
    let payload : Bytes = print (delimited n inner ∷ []) in
    let (a, b) = length-envelope 2 n inner in
    rw
      (read_fields-print request_envelope_body payload_step request_envelope_body-Follows
        (number 1 1 ∷ delimited 2 payload ∷ []) none
        ((omega arith, omega arith), ((omega arith, omega arith), tt)))
      (request_loop-field (length payload) n inner (length-le-print (delimited n inner ∷ []))
        (omega arith, omega arith))

request_field-lt : (kind : RequestKind) → request_field kind < 100
request_field-lt RequestKind.get = omega arith
request_field-lt kind = omega arith

-- Every frame that an encoder returns holds, behind its 4-byte length, the variant of its request
-- with the request's message: the key or pattern, value, delta, a time to live only if it is above
-- 0, and the namespace as it is given, only if something is left of it once it is stripped.
pub decode_client_request_variant-encode :
    (r : Request) (frame : Bytes)
    → encode_request r ≡ ok frame
    → (fs : List Field) × (message_of r ≡ ok fs)
      × (decode_client_request_variant (drop 4 frame) ≡ ok (request_field (kind_of r), print fs))
unfolding wrap_client_request
decode_client_request_variant-encode r frame e =
    let variant = request_field (kind_of r) in
    let (fs, message, wrapped) =
      >>=-eq-ok (message_of r) (λ fs. wrap_client_request variant (print fs))
        (sym (encode_request-message r) ∙ e) in
    let (body, small) =
      framed-ok (envelope 2 (delimited variant (print fs) ∷ [])) frame
        (sym (wrap_envelope_lem 2 variant (print fs)) ∙ wrapped) in
    (
      fs,
      message,
      rw body (request-envelope variant (print fs) (request_field-lt (kind_of r)) small),
    )
