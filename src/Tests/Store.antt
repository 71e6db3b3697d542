-- ===== src/Tests/Store.antt =====
-- The client over a server whose store is whether a request has come: the first is answered with a
-- version, every other one with the value.
use ditto_client.Prelude.{
  ◌+◌, ◌≤◌, ◌≡◌, refl, sym, none, some, Bool, true, false, [], ◌∷◌, ◌++◌, arith, take, drop, length,
  take-append-drop, length-take,
}
use ditto_client.Prelude.Int.{pos}
use ditto_client.Python.Text.{Bytes, codes}
use ditto_client.Python.Errors.{ok}
use ditto_client.Wire.Encode.{
  encode_varint, varint_loop, encode_tag, ld_field_always, string_field, bytes_field, uint64_field,
  enum_field, pack_u32, wrap_envelope,
}
use ditto_client.Wire.Response.{ClientResponse}
use ditto_client.Wire.Frames.{frame_client_response, encode_version_response_inner}
use ditto_client.Wire.RoundTrip.Server.{server_frame, server_message, InRange}
use ditto_client.Tcp.Monad.{Net, State, done}
use ditto_client.Tcp.Client.{
  watch, unwatch, watch_result, unwatch_result, str_value, encode_with, ping, get, set, set_nx,
  incr, delete, delete_by_pattern, set_ttl_by_pattern, is_pong, get_result, set_result,
  set_nx_result, counter_result, delete_result, deleted_result, updated_result,
}
use ditto_client.Wire.Requests.{
  encode_watch, encode_unwatch, encode_ping, encode_get, encode_set, encode_set_nx, encode_incr,
  encode_delete, encode_delete_by_pattern, encode_set_ttl_by_pattern,
}
use ditto_client.Tcp.Exchange.{Answers}
use ditto_client.Tcp.Answers.{
  Outcome, operations-Outcome, PingAnswers, SetAnswers, SetNxAnswers, IncrAnswers, DeleteAnswers,
  DeletedAnswers, UpdatedAnswers, WatchAnswers, UnwatchAnswers,
}
use ditto_client.Tcp.Refines.{Serves, Refines, operations-Refines, ask, valid_key, valid_glob}
use ditto_client.Tests.Frames.{k, value_response, value_frame, server_frame-value}
use ditto_client.Tests.Client.{strict_config}

abbrev version_response : ClientResponse
version_response = ClientResponse.ok_version 1

abbrev version_frame : Bytes
version_frame = 0 ∷ 0 ∷ 0 ∷ 8 ∷ 8 ∷ 1 ∷ 26 ∷ 4 ∷ 18 ∷ 2 ∷ 8 ∷ 1 ∷ []

server_frame-version : server_frame version_response ≡ ok version_frame
unfolding server_frame server_message frame_client_response encode_version_response_inner
    string_field bytes_field uint64_field encode_tag encode_varint varint_loop wrap_envelope
    ld_field_always enum_field pack_u32
server_frame-version = refl

abbrev serve : Bytes → Bool → ClientResponse × Bool
serve frame false = (version_response, true)
serve frame true = (value_response, true)

abbrev reply_to : Bool → Bytes
reply_to false = version_frame
reply_to true = value_frame

abbrev store_net : Net (Bytes × Bool)
store_net = record {
  create_connection = λ host port w. (done 1, w);
  load_verify_locations = λ cert w. (done tt, w);
  wrap_socket = λ sock name w. (done sock, w);
  sendall = λ sock frame w. (done tt, (w.0 ++ reply_to w.1, true));
  recv = λ sock n w. (done (take 1 w.0), (drop 1 w.0, w.1));
  shutdown = λ sock w. (done tt, w);
  close = λ sock w. (done tt, w);
}

serve-true : (frame : Bytes) (stored : Bool) → true ≡ (serve frame stored).1
serve-true frame true = refl
serve-true frame false = refl

reply-serve :
    (frame : Bytes) (stored : Bool)
    → (server_frame (serve frame stored).0 ≡ ok (reply_to stored))
      × InRange (serve frame stored).0
      × (length (reply_to stored) ≤ 4 + strict_config.max_frame_bytes)
reply-serve frame true = (server_frame-value, omega arith, omega arith)
reply-serve frame false = (server_frame-version, omega arith, omega arith)

store_server : Serves store_net strict_config serve
store_server = record {
  pending = λ w. w.0;
  store = λ w. w.1;
  stream = λ sock n w h h'. (
    take 1 w.0,
    refl,
    sym (take-append-drop 1 w.0),
    omega (arith, length-take 1 w.0),
    omega (arith, length-take 1 w.0),
  );
  takes = λ sock frame w. refl;
  stores = λ sock frame w. serve-true frame w.1;
  answers = λ sock frame w.
      let (framed, range, small) = reply-serve frame w.1 in
      (reply_to w.1, framed, range, small, refl);
  receives = λ sock n w. refl;
}

operations-Refines_example :
    Refines store_net strict_config serve store_server
      (ping store_net strict_config)
      (ask serve (ok tt) encode_ping (λ resp. ok (is_pong resp)))
    × Refines store_net strict_config serve store_server
        (get store_net strict_config k none)
        (ask serve (valid_key strict_config (codes "get") k none) (encode_get k none) get_result)
    × Refines store_net strict_config serve store_server
        (set store_net strict_config k (str_value k) (pos 5) none)
        (ask serve
          (valid_key strict_config (codes "set") k none)
          (encode_with encode_set k (str_value k) (pos 5) none)
          set_result)
    × Refines store_net strict_config serve store_server
        (set_nx store_net strict_config k (str_value k) (pos 5) none)
        (ask serve
          (valid_key strict_config (codes "set") k none)
          (encode_with encode_set_nx k (str_value k) (pos 5) none)
          set_nx_result)
    × Refines store_net strict_config serve store_server
        (incr store_net strict_config k (pos 1) (pos 5) none)
        (ask serve
          (valid_key strict_config (codes "set") k none)
          (encode_incr k (pos 1) (pos 5) none)
          counter_result)
    × Refines store_net strict_config serve store_server (delete store_net strict_config k none) (
        ask serve
          (valid_key strict_config (codes "delete") k none)
          (encode_delete k none)
          delete_result)
    × Refines store_net strict_config serve store_server
        (delete_by_pattern store_net strict_config k none)
        (ask serve
          (valid_glob strict_config (codes "delete_by_pattern") k none)
          (encode_delete_by_pattern k none)
          deleted_result)
    × Refines store_net strict_config serve store_server
        (set_ttl_by_pattern store_net strict_config k (pos 5) none)
        (ask serve
          (valid_glob strict_config (codes "set_ttl_by_pattern") k none)
          (encode_set_ttl_by_pattern k (pos 5) none)
          updated_result)
    × Refines store_net strict_config serve store_server (watch store_net strict_config k none) (
        ask serve
          (valid_key strict_config (codes "watch") k none)
          (encode_watch k none)
          watch_result)
    × Refines store_net strict_config serve store_server (unwatch store_net strict_config k none) (
        ask serve
          (valid_key strict_config (codes "unwatch") k none)
          (encode_unwatch k none)
          unwatch_result)
operations-Refines_example =
    operations-Refines store_net strict_config serve store_server k k (str_value k) (pos 1) (pos 5)
      none

-- Connected, and no request has come yet.
abbrev stored_state : State (Bytes × Bool)
stored_state = record { sock = some 1; trace = []; world = ([], false) }

operations-Outcome_example :
    Outcome serve
      (ok tt)
      encode_ping
      PingAnswers
      false
      (ping store_net strict_config stored_state).0
    × Outcome serve
        (valid_key strict_config (codes "get") k none)
        (encode_get k none)
        Answers
        false
        (get store_net strict_config k none stored_state).0
    × Outcome serve
        (valid_key strict_config (codes "set") k none)
        (encode_with encode_set k (str_value k) (pos 5) none)
        SetAnswers
        false
        (set store_net strict_config k (str_value k) (pos 5) none stored_state).0
    × Outcome serve
        (valid_key strict_config (codes "set") k none)
        (encode_with encode_set_nx k (str_value k) (pos 5) none)
        SetNxAnswers
        false
        (set_nx store_net strict_config k (str_value k) (pos 5) none stored_state).0
    × Outcome serve
        (valid_key strict_config (codes "set") k none)
        (encode_incr k (pos 1) (pos 5) none)
        IncrAnswers
        false
        (incr store_net strict_config k (pos 1) (pos 5) none stored_state).0
    × Outcome serve
        (valid_key strict_config (codes "delete") k none)
        (encode_delete k none)
        DeleteAnswers
        false
        (delete store_net strict_config k none stored_state).0
    × Outcome serve
        (valid_glob strict_config (codes "delete_by_pattern") k none)
        (encode_delete_by_pattern k none)
        DeletedAnswers
        false
        (delete_by_pattern store_net strict_config k none stored_state).0
    × Outcome serve
        (valid_glob strict_config (codes "set_ttl_by_pattern") k none)
        (encode_set_ttl_by_pattern k (pos 5) none)
        UpdatedAnswers
        false
        (set_ttl_by_pattern store_net strict_config k (pos 5) none stored_state).0
    × Outcome serve
        (valid_key strict_config (codes "watch") k none)
        (encode_watch k none)
        WatchAnswers
        false
        (watch store_net strict_config k none stored_state).0
    × Outcome serve
        (valid_key strict_config (codes "unwatch") k none)
        (encode_unwatch k none)
        UnwatchAnswers
        false
        (unwatch store_net strict_config k none stored_state).0
unfolding store_server
operations-Outcome_example =
    operations-Outcome store_net strict_config serve store_server k k (str_value k) (pos 1) (pos 5)
      none stored_state ((1, refl), refl)
