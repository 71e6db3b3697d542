-- ===== src/Tcp/Connection.antt =====
-- The connection of tcp_client.py: opening and closing it, reading exactly one frame, and sending a
-- request with the retry of a request that is safe to repeat.
use ditto_client.Prelude.{
  ℕ, zero, suc, ◌+◌, ◌-◌, ◌*◌, ◌^◌, Option, none, some, Bool, true, false, not, [], ◌∷◌, ◌++◌, ltb,
  length, is_empty, if◌then◌else◌,
}
use ditto_client.Python.Text.{Str, Bytes, strip, contains, codes}
use ditto_client.Python.Errors.{
  Result, ok, err, Exn, is_os_error, enotconn, ebadf, einval, os_error, text, struct_error,
  out_of_fuel, ditto_error, unexpected_auth_response, not_connected, outcome_unknown,
  closed_by_server, frame_too_large, assertion_failed,
}
use ditto_client.Wire.Response.{ClientResponse, SimpleType}
use ditto_client.Wire.Decode.{decode_response}
use ditto_client.Wire.Requests.{encode_auth}
use ditto_client.Tcp.Monad.{
  Net, CaCert, cadata, cafile, connecting, loading, wrapping, closing, sending, receiving, Op, pure,
  raise, lift, perform, get_sock, put_sock, ◌>>=◌, ◌>>◌, try_except, raise_when,
}

-- What the constructor of `DittoTcpClient` is given; the timeouts are the socket library's.
pub record Config : Type 0 where
  pub host : Str
  pub port : ℕ
  pub auth_token : Option Str
  pub max_frame_bytes : ℕ
  pub strict_mode : Bool
  pub auto_reconnect : Bool
  pub tls : Bool
  pub tls_ca_cert : Option Str
  pub tls_server_name : Option Str

-- `x.strip() if x and x.strip() else None`
unfoldable pub stripped_or_none : Option Str → Option Str
stripped_or_none none = none
stripped_or_none (some s) = if is_empty (strip s) then none else some (strip s)

-- `__init__`: the two TLS texts are stripped, and a blank one is dropped.
unfoldable pub init : Config → Config
init c = record {
  host = c.host;
  port = c.port;
  auth_token = c.auth_token;
  max_frame_bytes = c.max_frame_bytes;
  strict_mode = c.strict_mode;
  auto_reconnect = c.auto_reconnect;
  tls = c.tls;
  tls_ca_cert = stripped_or_none c.tls_ca_cert;
  tls_server_name = stripped_or_none c.tls_server_name;
}

-- `struct.unpack(">I", header)[0]`
unfoldable pub unpack_u32 : Bytes → Result ℕ
unpack_u32 (a ∷ b ∷ c ∷ d ∷ []) = ok (a * 2 ^ 24 + b * 2 ^ 16 + c * 2 ^ 8 + d)
unpack_u32 _ = err struct_error

-- `exc.errno in (ENOTCONN, EBADF, EINVAL)`, of an OSError
unfoldable pub is_harmless : Exn → Bool
is_harmless (os_error enotconn) = true
is_harmless (os_error ebadf) = true
is_harmless (os_error einval) = true
is_harmless _ = false

-- `"BEGIN CERTIFICATE" in self._tls_ca_cert`: the text itself or the name of a file.
unfoldable pub ca_cert : Str → CaCert
ca_cert cert = if contains cert (codes "BEGIN CERTIFICATE") then cadata cert else cafile cert

-- `self._tls_server_name or self._host`
unfoldable pub server_hostname : Config → Str
server_hostname c = elim c.tls_server_name [
  | none ↦ c.host
  | some name ↦ if is_empty name then c.host else name
]

module _ {W : Type 0} (net : Net W) (config : Config) where
  -- `assert self._sock is not None`, and the socket
  unfoldable pub the_socket : Op W ℕ
  the_socket = get_sock >>= λ sock. elim sock [ none ↦ raise assertion_failed | some n ↦ pure n ]

  -- The loop of `_recvn`. Every round adds one byte or more, so `n` rounds are enough.
  unfoldable pub recvn_loop : ℕ → ℕ → ℕ → Bytes → Op W Bytes
  recvn_loop sock n zero bytes = if ltb (length bytes) n then raise out_of_fuel else pure bytes
  recvn_loop sock n (suc fuel) bytes = elim (ltb (length bytes) n) [
    | false ↦ pure bytes
    | true ↦ (do
      chunk ← perform (receiving sock) (net.recv sock (n - length bytes))
      elim (is_empty chunk) [
        | true ↦ raise closed_by_server
        | false ↦ recvn_loop sock n fuel (bytes ++ chunk)
      ])
  ]

  unfoldable pub recvn : ℕ → Op W Bytes
  recvn n = do sock ← the_socket; recvn_loop sock n n []

  unfoldable pub receive : Op W ClientResponse
  receive = do
    header ← recvn 4
    payload_len ← lift (unpack_u32 header)
    raise_when (ltb config.max_frame_bytes payload_len)
        (frame_too_large payload_len config.max_frame_bytes)
    payload ← recvn payload_len
    lift (decode_response payload)

  unfoldable pub close_locked : Op W Unit
  close_locked = get_sock >>= λ sock. elim sock [
    | none ↦ pure tt
    | some n ↦ (do
      try_except (perform closing (net.shutdown n))
          (λ exc. if is_harmless exc then pure tt else raise exc)
      perform closing (net.close n)
      put_sock none)
  ]

  unfoldable pub load_ca : Op W Unit
  load_ca = elim config.tls_ca_cert [
    | none ↦ pure tt
    | some cert ↦ perform loading (net.load_verify_locations (ca_cert cert))
  ]

  unfoldable pub wrap_tls : ℕ → Op W ℕ
  wrap_tls sock = elim config.tls [
    | false ↦ pure sock
    | true ↦ (do load_ca; perform wrapping (net.wrap_socket sock (server_hostname config)))
  ]

  -- What `_connect_locked` does with the response to its Auth request. An error message that the
  -- server sent is the message of the DittoError.
  unfoldable pub check_auth : ClientResponse → Op W Unit
  check_auth (ClientResponse.error code message) = do
    close_locked
    raise (ditto_error code (text message))
  check_auth (ClientResponse.simple SimpleType.auth_ok) = pure tt
  check_auth _ = do close_locked; raise unexpected_auth_response

  unfoldable pub authenticate : ℕ → Str → Op W Unit
  authenticate sock token = do
    frame ← lift (encode_auth token)
    perform (sending frame) (net.sendall sock frame)
    resp ← receive
    check_auth resp

  unfoldable pub open_socket : Op W Unit
  open_socket = do
    raw ← perform connecting (net.create_connection config.host config.port)
    sock ← wrap_tls raw
    put_sock (some sock)
    elim config.auth_token [ none ↦ pure tt | some token ↦ authenticate sock token ]

  unfoldable pub connect_locked : Op W Unit
  connect_locked = get_sock >>= λ sock. elim sock [ some n ↦ pure tt | none ↦ open_socket ]

  unfoldable pub exchange : ℕ → Bytes → Op W ClientResponse
  exchange sock frame = do perform (sending frame) (net.sendall sock frame); receive

  -- The `except` block of `_send`.
  unfoldable pub after_loss : Bytes → Bool → Exn → Op W ClientResponse
  after_loss frame retry_safe first = elim (is_os_error first) [
    | false ↦ raise first
    | true ↦ (do
      close_locked
      raise_when (not retry_safe) outcome_unknown
      raise_when (not config.auto_reconnect) first
      connect_locked
      sock ← the_socket
      exchange sock frame)
  ]

  unfoldable pub send : Bytes → Bool → Op W ClientResponse
  send frame retry_safe = get_sock >>= λ sock. elim sock [
    | none ↦ raise not_connected
    | some n ↦ try_except (exchange n frame) (after_loss frame retry_safe)
  ]
