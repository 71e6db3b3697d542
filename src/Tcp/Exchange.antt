-- ===== src/Tcp/Exchange.antt =====
-- A request and its response over a working connection, from the operations of tcp_client.py to the
-- frames that wire.py specifies for the server.
use ditto_client.Prelude.{
  ℕ, ◌+◌, ◌≤◌, ◌≡◌, refl, sym, ap, ◌∙◌, Option, none, some, Bool, true, [], ◌∷◌, ◌++◌, arith,
  length, length-append,
}
use ditto_client.Python.Text.{Str, Bytes, codes}
use ditto_client.Python.Errors.{
  ok-injective, Result, ok, err, >>=-eq-ok, not_connected, ditto_error, repr, unexpected_response,
}
use ditto_client.Validation.{validate_core_inputs}
use ditto_client.Wire.Encode.{pack_u32}
use ditto_client.Wire.Fields.{response_field}
use ditto_client.Wire.Message.{delimited}
use ditto_client.Wire.Frames.{frame_client_response}
use ditto_client.Wire.Envelope.{envelope, wrap_envelope_lem}
use ditto_client.Wire.Response.{ClientResponse, SimpleType}
use ditto_client.Wire.Decode.{decode_response}
use ditto_client.Wire.Requests.{encode_get}
use ditto_client.Wire.RoundTrip.{framed-ok}
use ditto_client.Wire.RoundTrip.Server.{server_message, server_frame, InRange}
use ditto_client.Wire.RoundTrip.Responses.{decode_response-server_frame}
use ditto_client.Tcp.Monad.{
  from_call, Net, done, State, Op, perform, sending, ◌>>=◌, raise, lift, try_except, >>=-ok,
}
use ditto_client.Tcp.Connection.{Config, receive, exchange, after_loss, send}
use ditto_client.Tcp.Client.{GetResult, get, get_result, refuse, request}
use ditto_client.Tcp.Frames.{IsStream, receive-stream, unpack_u32-pack_u32}

-- A server frame is its payload behind the packed length, and the payload decodes to the response.
pub server_frame-parts :
    (response : ClientResponse) (frame : Bytes)
    → InRange response
    → server_frame response ≡ ok frame
    → (header payload : Bytes) × (frame ≡ header ++ payload)
      × (pack_u32 (length payload) ≡ ok header)
      × (length frame ≡ 4 + length payload)
      × (decode_response payload ≡ ok response)
unfolding server_frame frame_client_response
server_frame-parts response frame range e =
    let kind = (server_message response).0 in
    let (inner, message, wrapped) =
      >>=-eq-ok (server_message response).1 (frame_client_response (response_field kind)) e in
    let framing = rw (wrap_envelope_lem 3 (response_field kind) inner) at wrapped in
    let payload = envelope 3 (delimited (response_field kind) inner ∷ []) in
    let (header, packed, joined) =
      >>=-eq-ok (pack_u32 (length payload)) (λ header. ok (header ++ payload)) framing in
    let whole = sym (ok-injective joined) in
    let four = (unpack_u32-pack_u32 (length payload) header packed).1 in
    (
      header,
      payload,
      whole,
      packed,
      omega (arith, ap length whole, length-append header payload, four),
      ap decode_response (sym (framed-ok payload frame framing).0)
          ∙ decode_response-server_frame response frame range e,
    )

-- What `get` makes of each response.
abbrev pub Answers : ClientResponse → Result (Option GetResult) → Type 0
Answers (ClientResponse.value key value version) r =
    r ≡ ok (some (record { value = value; version = version }))
Answers (ClientResponse.simple SimpleType.not_found) r = r ≡ ok none
Answers (ClientResponse.error code message) r = r ≡ err (ditto_error code (repr code message))
Answers _ r = r ≡ err unexpected_response

pub get_result-Answers : (response : ClientResponse) → Answers response (get_result response)
unfolding get_result refuse
get_result-Answers (ClientResponse.simple SimpleType.not_found) = refl
get_result-Answers _ = refl

module _ {W : Type 0} (net : Net W) (config : Config) (pending : W → Bytes)
    (stream : IsStream net pending) where
  -- The state after `sendall` in state `s`.
  abbrev pub sent : ℕ → Bytes → State W → State W
  sent sock frame s = record {
    sock = s.sock;
    trace = sending frame ∷ s.trace;
    world = (net.sendall sock frame s.world).1;
  }

  -- A server frame that fits the limit is received as the response that it was made from.
  pub receive-server_frame :
      (sock : ℕ) (response : ClientResponse) (frame rest : Bytes) (s : State W)
      → s.sock ≡ some sock
      → InRange response
      → server_frame response ≡ ok frame
      → length frame ≤ 4 + config.max_frame_bytes
      → pending s.world ≡ frame ++ rest
      → ((receive net config s).0 ≡ ok response)
        × (pending (receive net config s).1.world ≡ rest)
        × ((receive net config s).1.sock ≡ some sock)
  receive-server_frame sock response frame rest s connected range e small h =
      let (header, payload, whole, packed, long, decoded) =
        server_frame-parts response frame range e in
      let (r, p, k) =
        receive-stream net config pending stream sock header payload rest s connected packed
          (omega arith) (h ∙ ap (λ x. x ++ rest) whole) in
      (r ∙ decoded, p, k)

  send-ok :
      (sock : ℕ) (frame : Bytes) (retry_safe : Bool) (resp : ClientResponse) (s : State W)
      → s.sock ≡ some sock
      → (net.sendall sock frame s.world).0 ≡ done tt
      → (receive net config (sent sock frame s)).0 ≡ ok resp
      → send net config frame retry_safe s ≡ (ok resp, (receive net config (sent sock frame s)).1)
  unfolding send exchange
  send-ok sock frame retry_safe resp s connected accepted got =
      let s' = (receive net config (sent sock frame s)).1 in
      let exchanged : exchange net config sock frame s ≡ (ok resp, s') =
        >>=-ok (perform (sending frame) (net.sendall sock frame)) (λ _. receive net config)
          (ap (λ r. (from_call r, sent sock frame s)) accepted)
        ∙ ap (λ r. (r, s')) got in
      ap
        (λ o.
          (elim o as (λ _. Op W ClientResponse) [
            | none ↦ raise not_connected
            | some n ↦
                try_except (exchange net config n frame) (after_loss net config frame retry_safe)
          ])
            s)
        connected
      ∙ ap
          (λ x. elim x.0 as (λ _. Result ClientResponse × State W) [
            | ok a ↦ (ok a, x.1)
            | err e ↦ after_loss net config frame retry_safe e x.1
          ])
          exchanged

  -- A request with valid inputs whose response is received.
  pub request-run :
      {A : Type 0} (retry_safe : Bool) (valid : Result (Unit {0})) (encoded : Result Bytes)
      (result : ClientResponse → Result A)
      → (sock : ℕ) (outgoing : Bytes) (response : ClientResponse) (s : State W) → valid ≡ ok tt
      → encoded ≡ ok outgoing
      → s.sock ≡ some sock
      → (net.sendall sock outgoing s.world).0 ≡ done tt
      → (receive net config (sent sock outgoing s)).0 ≡ ok response
      → request net config retry_safe valid encoded result s
        ≡ (result response, (receive net config (sent sock outgoing s)).1)
  unfolding request
  request-run retry_safe valid encoded result sock outgoing response s v o connected accepted r =
      let finish = λ (resp : ClientResponse). lift {W = W} (result resp) in
      let exchange_it = λ (frame : Bytes). send net config frame retry_safe >>= finish in
      >>=-ok (lift valid) (λ _. lift encoded >>= exchange_it) (ap (λ x. (x, s)) v)
      ∙ >>=-ok (lift encoded) exchange_it (ap (λ x. (x, s)) o)
      ∙ >>=-ok (send net config outgoing retry_safe) finish
          (send-ok sock outgoing retry_safe response s connected accepted r)

  -- Connected, with inputs that are valid and that can be encoded: if `sendall` takes the request and a
  -- server frame that fits the limit is then the next of the stream, the operation returns or raises what
  -- it makes of the frame's response, stays connected, and leaves what is behind the frame pending.
  pub request-server_frame :
      {A : Type 0} (retry_safe : Bool) (valid : Result (Unit {0})) (encoded : Result Bytes)
      (result : ClientResponse → Result A)
      → (sock : ℕ) (outgoing : Bytes) (response : ClientResponse) (frame rest : Bytes) (s : State W)
      → valid ≡ ok tt
      → encoded ≡ ok outgoing
      → s.sock ≡ some sock
      → (net.sendall sock outgoing s.world).0 ≡ done tt
      → InRange response
      → server_frame response ≡ ok frame
      → length frame ≤ 4 + config.max_frame_bytes
      → pending (sent sock outgoing s).world ≡ frame ++ rest
      → ((request net config retry_safe valid encoded result s).0 ≡ result response)
        × (pending (request net config retry_safe valid encoded result s).1.world ≡ rest)
        × ((request net config retry_safe valid encoded result s).1.sock ≡ some sock)
  request-server_frame retry_safe valid encoded result sock outgoing response frame rest s v o
        connected accepted range e small h =
      let (r, p, k) =
        receive-server_frame sock response frame rest (sent sock outgoing s) connected range e small
          h in
      let run =
        request-run retry_safe valid encoded result sock outgoing response s v o connected accepted
          r in
      rw run (refl, p, k)

  -- Connected, with inputs that are valid and that can be encoded: if `sendall` takes the request and a
  -- server frame that fits the limit is then the next of the stream, `get` returns the bytes and the
  -- version of a Value, returns None on NotFound, raises a DittoError with the code and the message of
  -- an Error, and raises RuntimeError on any other response. It stays connected, and leaves what is
  -- behind the frame pending.
  pub get-server_frame :
      (key : Str) (namespace : Option Str) (sock : ℕ) (outgoing : Bytes) (response : ClientResponse)
      (frame rest : Bytes) (s : State W)
      → validate_core_inputs config.strict_mode (codes "get") (some key) namespace ≡ ok tt
      → encode_get key namespace ≡ ok outgoing
      → s.sock ≡ some sock
      → (net.sendall sock outgoing s.world).0 ≡ done tt
      → InRange response
      → server_frame response ≡ ok frame
      → length frame ≤ 4 + config.max_frame_bytes
      → pending (sent sock outgoing s).world ≡ frame ++ rest
      → Answers response (get net config key namespace s).0
        × (pending (get net config key namespace s).1.world ≡ rest)
        × ((get net config key namespace s).1.sock ≡ some sock)
  unfolding get
  get-server_frame key namespace sock outgoing response frame rest s v o connected accepted range e
        small h =
      let (r, p, k) =
        request-server_frame true _ (encode_get key namespace) get_result sock outgoing response
          frame rest s v o connected accepted range e small h in
      (rw r (get_result-Answers response), p, k)
