-- ===== src/Http/Client.antt =====
-- ditto-python-client/src/ditto_client/http_client.py: the operations over HTTP. A version or a count is
-- returned as it stands in the reply.
pub mod Sent
pub mod Keyed
pub mod Whole
pub mod Strict
use ditto_client.Prelude.{
  ℕ, Option, none, some, Bool, true, false, List, [], ◌∷◌, ◌++◌, ◌==◌, if◌then◌else◌,
}
use ditto_client.Prelude.Int.{ℤ, pos, is_positive}
use ditto_client.Python.Text.{Str, Bytes, codes}
use ditto_client.Python.Decimal.{decimal_int}
use ditto_client.Python.Utf8.{encode_utf8}
use ditto_client.Python.Json.Values.{
  Json, boolean, integer, text, object, Members, done, member, is_true, as_object, lookup,
}
use ditto_client.Python.Json.Dumps.{dumps}
use ditto_client.Python.Errors.{Result, ok, err, attribute_error, type_error, json_decode_error}
use ditto_client.Validation.{validate_core_inputs, validate_pattern_inputs}
use ditto_client.Tcp.Client.{Value, raw_value}
use ditto_client.Http.Base.{HttpClient}
use ditto_client.Http.Failure.{assert_ok}
use ditto_client.Http.Atomic.{namespace_headers, raise_if_atomic_http_unsupported}
use ditto_client.Http.Quote.{key_path}
use ditto_client.Python.Json.Access.{subscript, get_method}
use ditto_client.Http.Request.{request, parse}
use ditto_client.Http.Transport.{Library, Web, Call, lift, ◌>>=◌, ◌>>◌}

pub record HttpGetResult : Type 0 where
  pub value : Bytes
  pub version : Json

pub record HttpSetNxResult : Type 0 where
  pub created : Bool
  pub version : ℤ

pub record HttpCounterResult : Type 0 where
  pub value : ℤ
  pub version : ℤ

-- `if ttl_secs > 0: path += f"?ttl={ttl_secs}"`, with the separator as an argument
unfoldable pub ttl_query : Str → ℤ → Str
ttl_query separator ttl_secs =
    if is_positive ttl_secs then separator ++ codes "ttl=" ++ decimal_int ttl_secs else []

-- `x.encode("utf-8")` of a JSON value
unfoldable pub encode_json_text : Json → Result Bytes
encode_json_text (text s) = encode_utf8 s
encode_json_text _ = err attribute_error

-- The fields of `DittoStatsResult` with their defaults.
abbrev pub stats_fields : List (Str × Json)
stats_fields =
    (codes "node_id", text [])
    ∷ (codes "status", text [])
    ∷ (codes "is_primary", boolean false)
    ∷ (codes "committed_index", integer (pos 0))
    ∷ (codes "key_count", integer (pos 0))
    ∷ (codes "memory_used_bytes", integer (pos 0))
    ∷ (codes "memory_max_bytes", integer (pos 0))
    ∷ (codes "evictions", integer (pos 0))
    ∷ (codes "hit_count", integer (pos 0))
    ∷ (codes "miss_count", integer (pos 0))
    ∷ (codes "uptime_secs", integer (pos 0))
    ∷ (codes "value_size_limit_bytes", integer (pos 0))
    ∷ (codes "max_keys_limit", integer (pos 0))
    ∷ (codes "compression_enabled", boolean false)
    ∷ (codes "compression_threshold_bytes", integer (pos 0))
    ∷ (codes "node_name", text [])
    ∷ (codes "backup_dir_bytes", integer (pos 0))
    ∷ []

-- `DittoStatsResult(**{k: v for k, v in data.items() if k in fields})`
unfoldable pub stats_result : List (Str × Json) → List (Str × Json) → List (Str × Json)
unfolding lookup
stats_result d [] = []
stats_result d ((name, default) ∷ fields) =
    (name, elim (lookup name d) [ none ↦ default | some v ↦ v ]) ∷ stats_result d fields

-- `{key: …, second: n}` with the second pair only if `n` is positive
abbrev pub payload : Str → Json → Str → ℤ → Json
payload key value second n =
    object (member key value (if is_positive n then member second (integer n) done else done))

module _ {W : Type 0} (lib : Library W) (client : HttpClient) where
  -- `base64.b64decode(x)`
  unfoldable pub decode_base64 : Json → Result Bytes
  decode_base64 (text s) = elim (lib.b64decode s) [
    | none ↦ err json_decode_error
    | some bytes ↦ ok bytes
  ]
  decode_base64 _ = err type_error

  unfoldable pub ping : Call W Bool
  ping = do
    (status, body) ← request lib client (codes "/ping") (codes "GET") none none []
    elim (status == 200) [
      | false ↦ lift (ok false)
      | true ↦ (do
        reply ← lift (parse lib.loads body)
        pong ← lift (get_method (codes "pong") reply)
        lift (ok (elim pong [ boolean b ↦ b | _ ↦ false ])))
    ]

  -- The value in a reply to `get`.
  unfoldable pub value_of_reply : Json → Json → Call W Bytes
  value_of_reply encoded reply = elim (is_true encoded) [
    | true ↦ (do raw ← lift (subscript (codes "value_base64") reply); lift (decode_base64 raw))
    | false ↦ (do plain ← lift (subscript (codes "value") reply); lift (encode_json_text plain))
  ]

  unfoldable pub get : Str → Option Str → Call W (Option HttpGetResult)
  get key namespace = do
    lift (validate_core_inputs client.strict_mode (codes "get") (some key) namespace)
    path ← lift (key_path key)
    (status, body) ← request lib client path (codes "GET") none none (namespace_headers namespace)
    elim (status == 404) [
      | true ↦ lift (ok none)
      | false ↦ (do
        lift (assert_ok lib.loads status body)
        reply ← lift (parse lib.loads body)
        encoded ← lift (get_method (codes "value_base64") reply)
        value ← value_of_reply encoded reply
        version ← lift (subscript (codes "version") reply)
        lift (ok (some (record { value = value; version = version }))))
    ]

  -- A reply that must be a success, and its member.
  unfoldable pub member_of_reply : Str → ℕ → Str → Call W Json
  member_of_reply key status body = do
    lift (assert_ok lib.loads status body)
    reply ← lift (parse lib.loads body)
    lift (subscript key reply)

  unfoldable pub set : Str → Str → ℤ → Option Str → Call W Json
  set key value ttl_secs namespace = do
    lift (validate_core_inputs client.strict_mode (codes "set") (some key) namespace)
    path ← lift (key_path key)
    body ← lift (encode_utf8 value)
    (status, reply) ←
        request lib client (path ++ ttl_query (codes "?") ttl_secs) (codes "PUT") (some body)
          (some (codes "text/plain")) (namespace_headers namespace)
    member_of_reply (codes "version") status reply

  unfoldable pub set_nx : Str → Value → ℤ → Option Str → Call W HttpSetNxResult
  set_nx key value ttl_secs namespace = do
    lift (validate_core_inputs client.strict_mode (codes "set") (some key) namespace)
    path ← lift (key_path key)
    raw ← lift (raw_value value)
    (status, body) ←
        request lib client (path ++ (codes "?nx=1" ++ ttl_query (codes "&") ttl_secs))
          (codes "POST") (some raw) (some (codes "application/octet-stream"))
          (namespace_headers namespace)
    lift (raise_if_atomic_http_unsupported lib.loads status body (codes "SET_NX"))
    lift (assert_ok lib.loads status body)
    reply ← lift (parse lib.loads body)
    created ← lift (subscript (codes "created") reply)
    raw_version ← lift (subscript (codes "version") reply)
    version ← lift (lib.to_int raw_version)
    lift (ok (record { created = is_true created; version = version }))

  unfoldable pub incr : Str → ℤ → ℤ → Option Str → Call W HttpCounterResult
  incr key delta ttl_secs_on_create namespace = do
    lift (validate_core_inputs client.strict_mode (codes "set") (some key) namespace)
    sent ← lift (
        encode_utf8 (
          dumps (
            payload (codes "delta") (text (decimal_int delta)) (codes "ttl_secs_on_create")
              ttl_secs_on_create)))
    path ← lift (key_path key)
    (status, body) ←
        request lib client (path ++ codes "/incr") (codes "POST") (some sent)
          (some (codes "application/json")) (namespace_headers namespace)
    lift (raise_if_atomic_http_unsupported lib.loads status body (codes "INCR"))
    lift (assert_ok lib.loads status body)
    reply ← lift (parse lib.loads body)
    counted ← lift (subscript (codes "value") reply)
    value ← lift (lib.to_int counted)
    raw_version ← lift (subscript (codes "version") reply)
    version ← lift (lib.to_int raw_version)
    lift (ok (record { value = value; version = version }))

  unfoldable pub delete : Str → Option Str → Call W Bool
  delete key namespace = do
    lift (validate_core_inputs client.strict_mode (codes "delete") (some key) namespace)
    path ← lift (key_path key)
    (status, body) ←
        request lib client path (codes "DELETE") none none (namespace_headers namespace)
    elim (status == 404) [
      | true ↦ lift (ok false)
      | false ↦ elim (status == 204) [
        | true ↦ lift (ok true)
        | false ↦ (do lift (assert_ok lib.loads status body); lift (ok true))
      ]
    ]

  -- The request that both operations on a pattern make.
  unfoldable pub post_json : Str → Json → Option Str → Call W (ℕ × Str)
  post_json path value namespace = do
    sent ← lift (encode_utf8 (dumps value))
    request lib client path (codes "POST") (some sent) (some (codes "application/json"))
        (namespace_headers namespace)

  unfoldable pub delete_by_pattern : Str → Option Str → Call W Json
  delete_by_pattern glob namespace = do
    lift (
        validate_pattern_inputs client.strict_mode (codes "delete_by_pattern") (some glob)
          namespace)
    (status, body) ←
        post_json (codes "/keys/delete-by-pattern")
          (object (member (codes "pattern") (text glob) done)) namespace
    member_of_reply (codes "deleted") status body

  unfoldable pub set_ttl_by_pattern : Str → ℤ → Option Str → Call W Json
  set_ttl_by_pattern glob ttl_secs namespace = do
    lift (
        validate_pattern_inputs client.strict_mode (codes "set_ttl_by_pattern") (some glob)
          namespace)
    (status, body) ←
        post_json (codes "/keys/ttl-by-pattern")
          (payload (codes "pattern") (text glob) (codes "ttl_secs") ttl_secs) namespace
    member_of_reply (codes "updated") status body

  unfoldable pub stats : Call W (List (Str × Json))
  stats = do
    (status, body) ← request lib client (codes "/stats") (codes "GET") none none []
    lift (assert_ok lib.loads status body)
    reply ← lift (parse lib.loads body)
    lift (elim (as_object reply) [
      | none ↦ err attribute_error
      | some d ↦ ok (stats_result d stats_fields)
    ])
