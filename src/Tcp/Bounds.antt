-- ===== src/Tcp/Bounds.antt =====
-- How often the client of tcp_client.py sends and connects, whatever the network does.
use ditto_client.Prelude.{
  ℕ, zero, suc, ◌-◌, Option, none, some, Bool, true, false, not, [], ◌++◌, ltb, length, is_empty,
  if◌then◌else◌,
}
use ditto_client.Python.Text.{Str, Bytes}
use ditto_client.Python.Errors.{
  Result, ok, Exn, is_os_error, outcome_unknown, not_connected, frame_too_large, ditto_error, text,
  unexpected_auth_response, assertion_failed, out_of_fuel, closed_by_server,
}
use ditto_client.Wire.Response.{ClientResponse, SimpleType}
use ditto_client.Wire.Requests.{encode_auth}
use ditto_client.Wire.Decode.{decode_response}
use ditto_client.Tcp.Monad.{
  Net, connecting, closing, sending, receiving, pure, raise, lift, perform, get_sock, put_sock,
  ◌>>=◌, ◌>>◌, try_except, raise_when,
}
use ditto_client.Tcp.Connection.{
  Config, ca_cert, server_hostname, the_socket, recvn_loop, recvn, receive, close_locked, load_ca,
  wrap_tls, check_auth, authenticate, open_socket, connect_locked, exchange, after_loss, send,
  is_harmless, unpack_u32,
}
use ditto_client.Tcp.Client.{
  Value, request, ping, get, set, set_nx, incr, delete, delete_by_pattern, set_ttl_by_pattern,
  watch, unwatch, wait_watch_event, event_result,
}
use ditto_client.Prelude.Int.{ℤ}
use ditto_client.Tcp.Counting.{
  AtMost, AtMost-try_except, AtMost-lift, AtMost-raise, AtMost-sending, AtMost-connecting,
  AtMost-receiving, AtMost-closing, AtMost-loading, AtMost-wrapping, AtMost-get_sock,
  AtMost-put_sock, AtMost-raise_when, AtMost-bool, AtMost-option, AtMost-if, AtMost->>=,
  AtMost-after, AtMost-before,
}

module _ {W : Type 0} (net : Net W) (config : Config) where
  the_socket-AtMost : AtMost 0 0 (the_socket net config)
  unfolding the_socket
  the_socket-AtMost = AtMost->>= 0 0 0 0 get_sock _ (AtMost-get_sock 0 0) λ sock.
      AtMost-option 0 0 sock (raise assertion_failed) pure (AtMost-raise 0 0 assertion_failed)
        λ n. AtMost-lift 0 0 (ok n)

  recvn_loop-AtMost :
      (sock n fuel : ℕ) (bytes : Bytes) → AtMost 0 0 (recvn_loop net config sock n fuel bytes)
  unfolding recvn_loop
  recvn_loop-AtMost sock n zero bytes =
      AtMost-if 0 0 (ltb (length bytes) n) (raise out_of_fuel) (pure bytes)
        (AtMost-raise 0 0 out_of_fuel) (AtMost-lift 0 0 (ok bytes))
  recvn_loop-AtMost sock n (suc fuel) bytes =
      AtMost-bool 0 0 (ltb (length bytes) n) _ (pure bytes)
        (AtMost->>= 0 0 0 0 (perform (receiving sock) (net.recv sock (n - length bytes))) _
          (AtMost-receiving 0 0 sock (net.recv sock (n - length bytes)))
          λ chunk.
            AtMost-bool 0 0 (is_empty chunk) (raise closed_by_server) _
              (AtMost-raise 0 0 closed_by_server) (recvn_loop-AtMost sock n fuel (bytes ++ chunk)))
        (AtMost-lift 0 0 (ok bytes))

  recvn-AtMost : (n : ℕ) → AtMost 0 0 (recvn net config n)
  unfolding recvn
  recvn-AtMost n =
      AtMost->>= 0 0 0 0 (the_socket net config) _ the_socket-AtMost
        λ sock. recvn_loop-AtMost sock n n []

  -- Reading a frame neither sends nor connects.
  pub receive-AtMost : AtMost 0 0 (receive net config)
  unfolding receive
  receive-AtMost = AtMost->>= 0 0 0 0 (recvn net config 4) _ (recvn-AtMost 4) λ header.
      AtMost->>= 0 0 0 0 (lift (unpack_u32 header)) _ (AtMost-lift 0 0 (unpack_u32 header))
        λ payload_len.
          AtMost->>= 0 0 0 0
            (raise_when (ltb config.max_frame_bytes payload_len)
              (frame_too_large payload_len config.max_frame_bytes))
            _ (AtMost-raise_when 0 0 _ _)
            λ u.
              AtMost->>= 0 0 0 0 (recvn net config payload_len) _ (recvn-AtMost payload_len)
                λ payload. AtMost-lift 0 0 (decode_response payload)

  close_locked-AtMost : AtMost 0 0 (close_locked net config)
  unfolding close_locked
  close_locked-AtMost = AtMost->>= 0 0 0 0 get_sock _ (AtMost-get_sock 0 0) λ sock.
      AtMost-option 0 0 sock (pure tt) _ (AtMost-lift 0 0 (ok tt)) λ n.
        AtMost->>= 0 0 0 0
          (try_except (perform closing (net.shutdown n))
            (λ exc. if is_harmless exc then pure tt else raise exc))
          _
          (AtMost-try_except 0 0 0 0 (perform closing (net.shutdown n)) _
            (AtMost-closing 0 0 (net.shutdown n))
            λ exc.
              AtMost-if 0 0 (is_harmless exc) (pure tt) (raise exc) (AtMost-lift 0 0 (ok tt))
                (AtMost-raise 0 0 exc))
          λ u.
            AtMost->>= 0 0 0 0 (perform closing (net.close n)) _ (AtMost-closing 0 0 (net.close n))
              λ v. AtMost-put_sock 0 0 none

  load_ca-AtMost : AtMost 0 0 (load_ca net config)
  unfolding load_ca
  load_ca-AtMost =
      AtMost-option 0 0 config.tls_ca_cert (pure tt) _ (AtMost-lift 0 0 (ok tt))
        λ cert. AtMost-loading 0 0 (net.load_verify_locations (ca_cert cert))

  wrap_tls-AtMost : (sock : ℕ) → AtMost 0 0 (wrap_tls net config sock)
  unfolding wrap_tls
  wrap_tls-AtMost sock =
      AtMost-bool 0 0 config.tls _ (pure sock)
        (AtMost->>= 0 0 0 0 (load_ca net config) _ load_ca-AtMost
          λ u. AtMost-wrapping 0 0 (net.wrap_socket sock (server_hostname config)))
        (AtMost-lift 0 0 (ok sock))

  refuse_auth-AtMost : (e : Exn) → AtMost {A = Unit} 0 0 (close_locked net config >> raise e)
  refuse_auth-AtMost e =
      AtMost->>= 0 0 0 0 (close_locked net config) (λ _. raise e) close_locked-AtMost
        λ u. AtMost-raise 0 0 e

  check_auth-AtMost : (resp : ClientResponse) → AtMost 0 0 (check_auth net config resp)
  unfolding check_auth
  check_auth-AtMost (ClientResponse.error code message) =
      refuse_auth-AtMost (ditto_error code (text message))
  check_auth-AtMost (ClientResponse.simple SimpleType.auth_ok) = AtMost-lift 0 0 (ok tt)
  check_auth-AtMost _ = refuse_auth-AtMost unexpected_auth_response

  authenticate-AtMost : (sock : ℕ) (token : Str) → AtMost 1 0 (authenticate net config sock token)
  unfolding authenticate
  authenticate-AtMost sock token =
      AtMost->>= 0 0 1 0 (lift (encode_auth token)) _ (AtMost-lift 0 0 (encode_auth token)) λ frame.
        AtMost->>= 1 0 0 0 (perform (sending frame) (net.sendall sock frame)) _
          (AtMost-sending 0 frame (net.sendall sock frame))
          λ u. AtMost->>= 0 0 0 0 (receive net config) _ receive-AtMost check_auth-AtMost

  open_socket-AtMost : AtMost 1 1 (open_socket net config)
  unfolding open_socket
  open_socket-AtMost =
      AtMost->>= 0 1 1 0 (perform connecting (net.create_connection config.host config.port)) _
        (AtMost-connecting 0 (net.create_connection config.host config.port))
        λ raw. AtMost->>= 0 0 1 0 (wrap_tls net config raw) _ (wrap_tls-AtMost raw) λ sock.
          AtMost->>= 0 0 1 0 (put_sock (some sock)) _ (AtMost-put_sock 0 0 (some sock)) λ u.
            AtMost-option 1 0 config.auth_token (pure tt) _ (AtMost-lift 1 0 (ok tt))
              (authenticate-AtMost sock)

  -- Connecting asks for one connection and sends one frame, the Auth request, at most.
  pub connect_locked-AtMost : AtMost 1 1 (connect_locked net config)
  unfolding connect_locked
  connect_locked-AtMost = AtMost->>= 0 0 1 1 get_sock _ (AtMost-get_sock 0 0) λ sock.
      AtMost-option 1 1 sock (open_socket net config) _ open_socket-AtMost
        λ n. AtMost-lift 1 1 (ok tt)

  exchange-AtMost : (sock : ℕ) (frame : Bytes) → AtMost 1 0 (exchange net config sock frame)
  unfolding exchange
  exchange-AtMost sock frame =
      AtMost->>= 1 0 0 0 (perform (sending frame) (net.sendall sock frame)) _
        (AtMost-sending 0 frame (net.sendall sock frame)) λ u. receive-AtMost

  -- Behind a connection loss, a request that is not safe to repeat, or any without `auto_reconnect`, is
  -- not sent again.
  after_loss-once :
      (frame : Bytes) (first : Exn) → AtMost 0 0 (after_loss net config frame false first)
  unfolding after_loss
  after_loss-once frame first =
      AtMost-bool 0 0 (is_os_error first) _ (raise first)
        (AtMost->>= 0 0 0 0 (close_locked net config) _ close_locked-AtMost
          λ u. AtMost-raise 0 0 outcome_unknown)
        (AtMost-raise 0 0 first)

  retry-AtMost :
      (frame : Bytes)
      → AtMost 2 1 (
          connect_locked net config
          >> (the_socket net config >>= λ sock. exchange net config sock frame))
  retry-AtMost frame = AtMost->>= 1 1 1 0 (connect_locked net config) _ connect_locked-AtMost λ u.
      AtMost->>= 0 0 1 0 (the_socket net config) _ the_socket-AtMost
        λ sock. exchange-AtMost sock frame

  after_loss-AtMost :
      (frame : Bytes) (retry_safe : Bool) (first : Exn)
      → AtMost 2 1 (after_loss net config frame retry_safe first)
  unfolding after_loss
  after_loss-AtMost frame retry_safe first =
      AtMost-bool 2 1 (is_os_error first) _ (raise first)
        (AtMost->>= 0 0 2 1 (close_locked net config) _ close_locked-AtMost λ u.
          AtMost->>= 0 0 2 1 (raise_when (not retry_safe) outcome_unknown) _
            (AtMost-raise_when 0 0 (not retry_safe) outcome_unknown)
            λ v.
              AtMost->>= 0 0 2 1 (raise_when (not config.auto_reconnect) first) _
                (AtMost-raise_when 0 0 (not config.auto_reconnect) first) λ w. retry-AtMost frame)
        (AtMost-raise 2 1 first)

  pub send-once : (frame : Bytes) → AtMost 1 0 (send net config frame false)
  unfolding send
  send-once frame = AtMost->>= 0 0 1 0 get_sock _ (AtMost-get_sock 0 0) λ sock.
      AtMost-option 1 0 sock (raise not_connected) _ (AtMost-raise 1 0 not_connected) λ n.
        AtMost-try_except 1 0 0 0 (exchange net config n frame) _ (exchange-AtMost n frame)
          (after_loss-once frame)

  pub send-AtMost :
      (frame : Bytes) (retry_safe : Bool) → AtMost 3 1 (send net config frame retry_safe)
  unfolding send
  send-AtMost frame retry_safe = AtMost->>= 0 0 3 1 get_sock _ (AtMost-get_sock 0 0) λ sock.
      AtMost-option 3 1 sock (raise not_connected) _ (AtMost-raise 3 1 not_connected) λ n.
        AtMost-try_except 1 0 2 1 (exchange net config n frame) _ (exchange-AtMost n frame)
          (after_loss-AtMost frame retry_safe)

  pub request-AtMost :
      {A : Type 0} (n k : ℕ) (retry_safe : Bool) (valid : Result (Unit {0}))
      (encoded : Result Bytes) (result : ClientResponse → Result A)
      → ((frame : Bytes) → AtMost n k (send net config frame retry_safe))
      → AtMost n k (request net config retry_safe valid encoded result)
  unfolding request
  request-AtMost n k retry_safe valid encoded result p =
      AtMost-after n k (lift valid) _ (AtMost-lift 0 0 valid) λ u.
        AtMost-after n k (lift encoded) _ (AtMost-lift 0 0 encoded) λ frame.
          AtMost-before n k (send net config frame retry_safe) _ (p frame)
            λ resp. AtMost-lift 0 0 (result resp)

  -- Whatever the network does, each operation that changes data on the server or a subscription sends at
  -- most one frame and never asks for a connection.
  pub mutations-AtMost :
      (key : Str) (value : Value) (number ttl_secs : ℤ) (namespace : Option Str)
      → AtMost 1 0 (set net config key value ttl_secs namespace)
        × AtMost 1 0 (set_nx net config key value ttl_secs namespace)
        × AtMost 1 0 (incr net config key number ttl_secs namespace)
        × AtMost 1 0 (delete net config key namespace)
        × AtMost 1 0 (delete_by_pattern net config key namespace)
        × AtMost 1 0 (set_ttl_by_pattern net config key ttl_secs namespace)
        × AtMost 1 0 (watch net config key namespace)
        × AtMost 1 0 (unwatch net config key namespace)
  unfolding set set_nx incr delete delete_by_pattern set_ttl_by_pattern watch unwatch
  mutations-AtMost key value number ttl_secs namespace = (
    request-AtMost 1 0 false _ _ _ send-once,
    request-AtMost 1 0 false _ _ _ send-once,
    request-AtMost 1 0 false _ _ _ send-once,
    request-AtMost 1 0 false _ _ _ send-once,
    request-AtMost 1 0 false _ _ _ send-once,
    request-AtMost 1 0 false _ _ _ send-once,
    request-AtMost 1 0 false _ _ _ send-once,
    request-AtMost 1 0 false _ _ _ send-once,
  )

  -- Whatever the network does, `ping` and `get` ask for at most one connection and send at most three
  -- frames, and `wait_watch_event` sends nothing and asks for no connection.
  pub reads-AtMost :
      (key : Str) (namespace : Option Str)
      → AtMost 3 1 (ping net config)
        × AtMost 3 1 (get net config key namespace)
        × AtMost 0 0 (wait_watch_event net config)
  unfolding ping get wait_watch_event
  reads-AtMost key namespace = (
    request-AtMost 3 1 true _ _ _ (λ frame. send-AtMost frame true),
    request-AtMost 3 1 true _ _ _ (λ frame. send-AtMost frame true),
    AtMost->>= 0 0 0 0 get_sock _ (AtMost-get_sock 0 0) λ sock.
        AtMost->>= 0 0 0 0 _ _
          (AtMost-option 0 0 sock (raise not_connected) _ (AtMost-raise 0 0 not_connected)
            λ n. AtMost-lift 0 0 (ok tt))
          λ u.
            AtMost->>= 0 0 0 0 (receive net config) _ receive-AtMost
              λ resp. AtMost-lift 0 0 (event_result resp),
  )
