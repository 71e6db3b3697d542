-- ===== src/Tcp/Client.antt =====
-- The public operations of tcp_client.py, with the result types of types.py: each validates its
-- inputs, encodes its request, exchanges it and reads its result from the response.
use ditto_client.Prelude.{ℕ, Option, none, some, Bool, true, false}
use ditto_client.Prelude.Int.{ℤ}
use ditto_client.Python.Text.{Str, Bytes, codes}
use ditto_client.Python.Utf8.{encode_utf8}
use ditto_client.Python.Errors.{
  Result, ok, err, ditto_error, repr, not_connected, unexpected_response,
}
use ditto_client.Wire.Response.{ClientResponse, SimpleType}
use ditto_client.Wire.Requests.{
  encode_get, encode_set, encode_delete, encode_set_nx, encode_incr, encode_ping, encode_watch,
  encode_unwatch, encode_delete_by_pattern, encode_set_ttl_by_pattern,
}
use ditto_client.Validation.{validate_core_inputs, validate_pattern_inputs}
use ditto_client.Tcp.Monad.{Net, Op, pure, raise, lift, get_sock, ◌>>=◌, ◌>>◌}
use ditto_client.Tcp.Connection.{Config, send, receive, connect_locked, close_locked}

-- `value: str | bytes`
pub data Value : Type 0 where
  str_value : Str → Value
  bytes_value : Bytes → Value

pub record GetResult : Type 0 where
  pub value : Bytes
  pub version : ℕ

pub record SetNxResult : Type 0 where
  pub created : Bool
  pub version : ℕ

pub record CounterResult : Type 0 where
  pub value : ℤ
  pub version : ℕ

pub record WatchEvent : Type 0 where
  pub key : Str
  pub value : Option Bytes
  pub version : ℕ

-- `value.encode("utf-8") if isinstance(value, str) else value`
unfoldable pub raw_value : Value → Result Bytes
raw_value (str_value s) = encode_utf8 s
raw_value (bytes_value b) = ok b

-- The value of a set, encoded and put into its request.
unfoldable pub encode_with :
    (Str → Bytes → ℤ → Option Str → Result Bytes) → Str → Value → ℤ → Option Str → Result Bytes
encode_with encode key value ttl_secs namespace = elim (raw_value value) [
  | ok raw ↦ encode key raw ttl_secs namespace
  | err e ↦ err e
]

-- The two last lines of every operation: an Error is raised with `str(resp)` as its message, any other
-- response is unexpected.
unfoldable pub refuse : {A : Type 0} → ClientResponse → Result A
refuse (ClientResponse.error code message) = err (ditto_error code (repr code message))
refuse _ = err unexpected_response

unfoldable pub get_result : ClientResponse → Result (Option GetResult)
get_result (ClientResponse.simple SimpleType.not_found) = ok none
get_result (ClientResponse.value key value version) =
    ok (some (record { value = value; version = version }))
get_result resp = refuse resp

-- A `DittoSetResult` is its version.
unfoldable pub set_result : ClientResponse → Result ℕ
set_result (ClientResponse.ok_version version) = ok version
set_result resp = refuse resp

unfoldable pub set_nx_result : ClientResponse → Result SetNxResult
set_nx_result (ClientResponse.set_nx created version) =
    ok (record { created = created; version = version })
set_nx_result resp = refuse resp

unfoldable pub counter_result : ClientResponse → Result CounterResult
counter_result (ClientResponse.counter value version) =
    ok (record { value = value; version = version })
counter_result resp = refuse resp

unfoldable pub delete_result : ClientResponse → Result Bool
delete_result (ClientResponse.simple SimpleType.deleted) = ok true
delete_result (ClientResponse.simple SimpleType.not_found) = ok false
delete_result resp = refuse resp

unfoldable pub deleted_result : ClientResponse → Result ℕ
deleted_result (ClientResponse.pattern_deleted deleted) = ok deleted
deleted_result resp = refuse resp

unfoldable pub updated_result : ClientResponse → Result ℕ
updated_result (ClientResponse.pattern_ttl_updated updated) = ok updated
updated_result resp = refuse resp

unfoldable pub watch_result : ClientResponse → Result (Unit {0})
watch_result (ClientResponse.simple SimpleType.watching) = ok tt
watch_result resp = refuse resp

unfoldable pub unwatch_result : ClientResponse → Result (Unit {0})
unwatch_result (ClientResponse.simple SimpleType.unwatched) = ok tt
unwatch_result resp = refuse resp

unfoldable pub event_result : ClientResponse → Result WatchEvent
event_result (ClientResponse.watch_event key value version) =
    ok (record { key = key; value = value; version = version })
event_result resp = refuse resp

-- `resp.type == "Pong"`
unfoldable pub is_pong : ClientResponse → Bool
is_pong (ClientResponse.simple SimpleType.pong) = true
is_pong _ = false

module _ {W : Type 0} (net : Net W) (config : Config) where
  unfoldable pub connect : Op W Unit
  connect = connect_locked net config

  unfoldable pub close : Op W Unit
  close = close_locked net config

  -- The common course of the operations: an encoded request, sent, and its response read.
  unfoldable pub request :
      {A : Type 0} → Bool → Result (Unit {0}) → Result Bytes → (ClientResponse → Result A) → Op W A
  request retry_safe valid encoded result = do
    lift valid
    frame ← lift encoded
    resp ← send net config frame retry_safe
    lift (result resp)

  unfoldable pub ping : Op W Bool
  ping = request true (ok tt) encode_ping (λ resp. ok (is_pong resp))

  unfoldable pub get : Str → Option Str → Op W (Option GetResult)
  get key namespace =
      request true (validate_core_inputs config.strict_mode (codes "get") (some key) namespace)
        (encode_get key namespace) get_result

  unfoldable pub set : Str → Value → ℤ → Option Str → Op W ℕ
  set key value ttl_secs namespace =
      request false (validate_core_inputs config.strict_mode (codes "set") (some key) namespace)
        (encode_with encode_set key value ttl_secs namespace) set_result

  unfoldable pub set_nx : Str → Value → ℤ → Option Str → Op W SetNxResult
  set_nx key value ttl_secs namespace =
      request false (validate_core_inputs config.strict_mode (codes "set") (some key) namespace)
        (encode_with encode_set_nx key value ttl_secs namespace) set_nx_result

  unfoldable pub incr : Str → ℤ → ℤ → Option Str → Op W CounterResult
  incr key delta ttl_secs_on_create namespace =
      request false (validate_core_inputs config.strict_mode (codes "set") (some key) namespace)
        (encode_incr key delta ttl_secs_on_create namespace) counter_result

  unfoldable pub delete : Str → Option Str → Op W Bool
  delete key namespace =
      request false (validate_core_inputs config.strict_mode (codes "delete") (some key) namespace)
        (encode_delete key namespace) delete_result

  unfoldable pub delete_by_pattern : Str → Option Str → Op W ℕ
  delete_by_pattern glob namespace =
      request false
        (validate_pattern_inputs config.strict_mode (codes "delete_by_pattern") (some glob)
          namespace)
        (encode_delete_by_pattern glob namespace) deleted_result

  unfoldable pub set_ttl_by_pattern : Str → ℤ → Option Str → Op W ℕ
  set_ttl_by_pattern glob ttl_secs namespace =
      request false
        (validate_pattern_inputs config.strict_mode (codes "set_ttl_by_pattern") (some glob)
          namespace)
        (encode_set_ttl_by_pattern glob ttl_secs namespace) updated_result

  unfoldable pub watch : Str → Option Str → Op W Unit
  watch key namespace =
      request false (validate_core_inputs config.strict_mode (codes "watch") (some key) namespace)
        (encode_watch key namespace) watch_result

  unfoldable pub unwatch : Str → Option Str → Op W Unit
  unwatch key namespace =
      request false (validate_core_inputs config.strict_mode (codes "unwatch") (some key) namespace)
        (encode_unwatch key namespace) unwatch_result

  unfoldable pub wait_watch_event : Op W WatchEvent
  wait_watch_event = do
    sock ← get_sock
    elim sock [ none ↦ raise not_connected | some n ↦ pure tt ]
    resp ← receive net config
    lift (event_result resp)
