-- ===== src/Tests/Client.antt =====
-- Runs of tcp_client.py against concrete networks.
use ditto_client.Prelude.{
  ◌≡◌, refl, sym, none, some, true, false, [], ◌∷◌, arith, take, drop, take-append-drop,
  length-take,
}
use ditto_client.Prelude.Int.{pos, negsuc}
use ditto_client.Python.Text.{Bytes, codes, strip, lstrip, rstrip, rstrip_cons, is_space}
use ditto_client.Python.Errors.{ok, err, Ends, other_errno, enotconn, os_error, outcome_unknown}
use ditto_client.Validation.{
  validate_core_inputs, validate_namespace, matches_token, matches_pattern, is_token_char,
}
use ditto_client.Validation.Laws.{KeyIsValid, PatternIsValid, NamespaceIsValid}
use ditto_client.Wire.Encode.{pack_u32}
use ditto_client.Wire.Decode.{decode_response}
use ditto_client.Wire.Requests.{encode_get}
use ditto_client.Tcp.Monad.{Net, done, failed, State}
use ditto_client.Tcp.Connection.{Config, recvn, receive, close_locked, exchange, send, is_harmless}
use ditto_client.Tcp.Client.{
  str_value, request, ping, get, set, set_nx, incr, delete, delete_by_pattern, set_ttl_by_pattern,
  watch, unwatch, wait_watch_event, get_result,
}
use ditto_client.Tcp.Counting.{AtMost}
use ditto_client.Tcp.Bounds.{mutations-AtMost, reads-AtMost}
use ditto_client.Tcp.Frames.{IsStream, recvn-stream, receive-stream}
use ditto_client.Tcp.Exchange.{Answers, request-server_frame, get-server_frame}
use ditto_client.Tcp.Loss.{close_locked-disconnects, send-loss}
use ditto_client.Tcp.Strict.{Refused, keyed-Refused, globs-Refused}
use ditto_client.Tcp.Total.{receive-Ends}
use ditto_client.Tests.Frames.{
  k, get_frame, value_response, value_frame, encode_get-k, server_frame-value,
}

-- A network that takes every request and hands out its pending bytes one by one.
abbrev stream_net : Net Bytes
stream_net = record {
  create_connection = λ host port w. (done 1, w);
  load_verify_locations = λ cert w. (done tt, w);
  wrap_socket = λ sock name w. (done sock, w);
  sendall = λ sock frame w. (done tt, w);
  recv = λ sock n w. (done (take 1 w), drop 1 w);
  shutdown = λ sock w. (done tt, w);
  close = λ sock w. (done tt, w);
}

stream_net-IsStream : IsStream stream_net (λ w. w)
stream_net-IsStream sock n w h h' = (
  take 1 w,
  refl,
  sym (take-append-drop 1 w),
  omega (arith, length-take 1 w),
  omega (arith, length-take 1 w),
)

-- A network that refuses every request, on a socket that is no longer connected.
abbrev lost_net : Net Bytes
lost_net = record {
  create_connection = λ host port w. (done 1, w);
  load_verify_locations = λ cert w. (done tt, w);
  wrap_socket = λ sock name w. (done sock, w);
  sendall = λ sock frame w. (failed other_errno, w);
  recv = λ sock n w. (failed other_errno, w);
  shutdown = λ sock w. (failed enotconn, w);
  close = λ sock w. (done tt, w);
}

abbrev pub strict_config : Config
strict_config = record {
  host = codes "localhost";
  port = 7777;
  auth_token = none;
  max_frame_bytes = 8388608;
  strict_mode = true;
  auto_reconnect = true;
  tls = false;
  tls_ca_cert = none;
  tls_server_name = none;
}

abbrev connected : Bytes → State Bytes
connected pending = record { sock = some 1; trace = []; world = pending }

mutations-AtMost_example :
    AtMost 1 0 (set lost_net strict_config k (str_value k) (pos 5) none)
    × AtMost 1 0 (set_nx lost_net strict_config k (str_value k) (pos 5) none)
    × AtMost 1 0 (incr lost_net strict_config k (negsuc 0) (pos 5) none)
    × AtMost 1 0 (delete lost_net strict_config k none)
    × AtMost 1 0 (delete_by_pattern lost_net strict_config k none)
    × AtMost 1 0 (set_ttl_by_pattern lost_net strict_config k (pos 5) none)
    × AtMost 1 0 (watch lost_net strict_config k none)
    × AtMost 1 0 (unwatch lost_net strict_config k none)
mutations-AtMost_example =
    mutations-AtMost lost_net strict_config k (str_value k) (negsuc 0) (pos 5) none

reads-AtMost_example :
    AtMost 3 1 (ping lost_net strict_config)
    × AtMost 3 1 (get lost_net strict_config k none)
    × AtMost 0 0 (wait_watch_event lost_net strict_config)
reads-AtMost_example = reads-AtMost lost_net strict_config k none

abbrev four_bytes : State Bytes
four_bytes = connected (1 ∷ 2 ∷ 3 ∷ 4 ∷ [])

recvn-stream_example :
    ((recvn stream_net strict_config 3 four_bytes).0 ≡ ok (1 ∷ 2 ∷ 3 ∷ []))
    × ((recvn stream_net strict_config 3 four_bytes).1.world ≡ 4 ∷ [])
    × ((recvn stream_net strict_config 3 four_bytes).1.sock ≡ some 1)
recvn-stream_example =
    recvn-stream stream_net strict_config (λ w. w) stream_net-IsStream 1 (1 ∷ 2 ∷ 3 ∷ []) (4 ∷ [])
      (connected (1 ∷ 2 ∷ 3 ∷ 4 ∷ [])) refl refl

-- The state from which a frame of two bytes is read, with a byte behind it.
abbrev two_bytes : State Bytes
two_bytes = connected (0 ∷ 0 ∷ 0 ∷ 2 ∷ 8 ∷ 1 ∷ 0 ∷ [])

receive-stream_example :
    ((receive stream_net strict_config two_bytes).0 ≡ decode_response (8 ∷ 1 ∷ []))
    × ((receive stream_net strict_config two_bytes).1.world ≡ 0 ∷ [])
    × ((receive stream_net strict_config two_bytes).1.sock ≡ some 1)
unfolding pack_u32
receive-stream_example =
    receive-stream stream_net strict_config (λ w. w) stream_net-IsStream 1 (0 ∷ 0 ∷ 0 ∷ 2 ∷ [])
      (8 ∷ 1 ∷ []) (0 ∷ []) two_bytes refl refl (omega arith) refl

k-valid : validate_core_inputs true (codes "get") (some k) none ≡ ok tt
unfolding validate_core_inputs strip lstrip rstrip rstrip_cons is_space matches_token is_token_char
    validate_namespace
k-valid = refl

request-server_frame_example :
    ((request stream_net strict_config true
        (ok tt)
        (encode_get k none)
        get_result
        (connected value_frame)).0
      ≡ get_result value_response)
    × ((request stream_net strict_config true
          (ok tt)
          (encode_get k none)
          get_result
          (connected value_frame)).1.world
        ≡ [])
    × ((request stream_net strict_config true
          (ok tt)
          (encode_get k none)
          get_result
          (connected value_frame)).1.sock
        ≡ some 1)
request-server_frame_example =
    request-server_frame stream_net strict_config (λ w. w) stream_net-IsStream true (ok tt)
      (encode_get k none) get_result 1 get_frame value_response value_frame []
      (connected value_frame) refl encode_get-k refl refl (omega arith) server_frame-value
      (omega arith) refl

get-server_frame_example :
    Answers value_response (get stream_net strict_config k none (connected value_frame)).0
    × ((get stream_net strict_config k none (connected value_frame)).1.world ≡ [])
    × ((get stream_net strict_config k none (connected value_frame)).1.sock ≡ some 1)
get-server_frame_example =
    get-server_frame stream_net strict_config (λ w. w) stream_net-IsStream k none 1 get_frame
      value_response value_frame [] (connected value_frame) k-valid encode_get-k refl refl
      (omega arith) server_frame-value (omega arith) refl

close_locked-disconnects_example :
    (close_locked lost_net strict_config (connected [])).1.sock ≡ none
unfolding close_locked is_harmless
close_locked-disconnects_example =
    close_locked-disconnects lost_net strict_config (connected []) refl

send-loss_example :
    ((send lost_net strict_config get_frame false (connected [])).0 ≡ err outcome_unknown)
    × ((send lost_net strict_config get_frame false (connected [])).1.sock ≡ none)
unfolding exchange close_locked is_harmless
send-loss_example =
    send-loss lost_net strict_config 1 get_frame (os_error other_errno) (connected []) refl refl
      refl refl

pub space_key : ¬ (KeyIsValid (some (codes "a b")) × NamespaceIsValid none)
unfolding matches_token is_token_char
space_key h = ground arith

keyed-Refused_example :
    Refused stream_net strict_config
      (get stream_net strict_config (codes "a b") none)
      (connected [])
    × Refused stream_net strict_config
        (set stream_net strict_config (codes "a b") (str_value k) (pos 5) none)
        (connected [])
    × Refused stream_net strict_config
        (set_nx stream_net strict_config (codes "a b") (str_value k) (pos 5) none)
        (connected [])
    × Refused stream_net strict_config
        (incr stream_net strict_config (codes "a b") (pos 1) (pos 5) none)
        (connected [])
    × Refused stream_net strict_config
        (delete stream_net strict_config (codes "a b") none)
        (connected [])
    × Refused stream_net strict_config
        (watch stream_net strict_config (codes "a b") none)
        (connected [])
    × Refused stream_net strict_config
        (unwatch stream_net strict_config (codes "a b") none)
        (connected [])
keyed-Refused_example =
    keyed-Refused stream_net strict_config (codes "a b") (str_value k) (pos 1) (pos 5) none
      (connected []) refl space_key

pub blank_glob : ¬ (PatternIsValid (some (codes "  ")) × NamespaceIsValid none)
unfolding matches_pattern strip lstrip rstrip rstrip_cons is_space
blank_glob h = ground arith

globs-Refused_example :
    Refused stream_net strict_config
      (delete_by_pattern stream_net strict_config (codes "  ") none)
      (connected [])
    × Refused stream_net strict_config
        (set_ttl_by_pattern stream_net strict_config (codes "  ") (pos 5) none)
        (connected [])
globs-Refused_example =
    globs-Refused stream_net strict_config (codes "  ") (pos 5) none (connected []) refl blank_glob

receive-Ends_example : Ends (receive lost_net strict_config (connected [])).0
receive-Ends_example = receive-Ends lost_net strict_config (connected [])
