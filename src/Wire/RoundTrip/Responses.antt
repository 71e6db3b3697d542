-- ===== src/Wire/RoundTrip/Responses.antt =====
-- What a server frames, the client decodes: every response of the protocol.
use ditto_client.Prelude.{◌<◌, ◌≡◌, ◌∙◌, arith, drop}
use ditto_client.Python.Text.{Bytes}
use ditto_client.Python.Errors.{ok, >>=-eq-ok}
use ditto_client.Wire.Fields.{ResponseKind, response_field}
use ditto_client.Wire.Response.{ClientResponse}
use ditto_client.Wire.Frames.{frame_client_response}
use ditto_client.Wire.Decode.{decode_response}
use ditto_client.Wire.RoundTrip.{decode_response-frame}
use ditto_client.Wire.RoundTrip.Server.{server_message, server_frame, InRange, Decodes}
use ditto_client.Wire.RoundTrip.Numbers.{
  simple-Decodes, ok_version-Decodes, pattern_deleted-Decodes, pattern_ttl_updated-Decodes,
  set_nx-Decodes, counter-Decodes,
}
use ditto_client.Wire.RoundTrip.Texts.{value-Decodes, error-Decodes}
use ditto_client.Wire.RoundTrip.Events.{watch_event-Decodes}

all-Decodes : (response : ClientResponse) → InRange response → Decodes response
all-Decodes (ClientResponse.value key value version) h = value-Decodes key value version h
all-Decodes (ClientResponse.ok_version version) h = ok_version-Decodes version h
all-Decodes (ClientResponse.simple kind) h = simple-Decodes kind
all-Decodes (ClientResponse.error code message) h = error-Decodes code message
all-Decodes (ClientResponse.watch_event key value version) h =
    watch_event-Decodes key value version h
all-Decodes (ClientResponse.pattern_deleted n) h = pattern_deleted-Decodes n h
all-Decodes (ClientResponse.pattern_ttl_updated n) h = pattern_ttl_updated-Decodes n h
all-Decodes (ClientResponse.set_nx created version) h = set_nx-Decodes created version h
all-Decodes (ClientResponse.counter value version) h = counter-Decodes value version h

response_field-lt : (kind : ResponseKind) → response_field kind < 100
response_field-lt ResponseKind.value = omega arith
response_field-lt kind = omega arith

-- A response whose numbers are in the ranges of the protocol, framed by the server's helpers and
-- read without its 4-byte length, decodes to itself.
pub decode_response-server_frame :
    (response : ClientResponse) (frame : Bytes)
    → InRange response
    → server_frame response ≡ ok frame
    → decode_response (drop 4 frame) ≡ ok response
unfolding server_frame
decode_response-server_frame response frame range e =
    let kind = (server_message response).0 in
    let (inner, message, framed) =
      >>=-eq-ok (server_message response).1 (frame_client_response (response_field kind)) e in
    let (small, decoded) =
      decode_response-frame (response_field kind) inner frame (response_field-lt kind) framed in
    decoded ∙ rw (all-Decodes response range inner message small)
