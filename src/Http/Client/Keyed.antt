-- ===== src/Http/Client/Keyed.antt =====
-- What the operations on a key send: which request, and when none.
use ditto_client.Prelude.{Option, none, some, true, false, [], ◌++◌, ◌==◌}
use ditto_client.Prelude.Int.{ℤ}
use ditto_client.Python.Text.{Str, codes}
use ditto_client.Python.Utf8.{encode_utf8}
use ditto_client.Python.Json.Dumps.{dumps}
use ditto_client.Python.Errors.{ok}
use ditto_client.Python.Decimal.{decimal_int}
use ditto_client.Python.Json.Values.{Json, text}
use ditto_client.Validation.{validate_core_inputs}
use ditto_client.Tcp.Client.{Value, raw_value}
use ditto_client.Http.Base.{HttpClient}
use ditto_client.Http.Failure.{assert_ok}
use ditto_client.Http.Atomic.{namespace_headers, raise_if_atomic_http_unsupported}
use ditto_client.Http.Quote.{key_path}
use ditto_client.Python.Json.Access.{subscript, get_method}
use ditto_client.Http.Request.{parse}
use ditto_client.Http.Transport.{Library}
use ditto_client.Http.Single.{
  requires, Single, Silent-lift, Silent-bool, Silent-lift->>=, Silent->>=, Single-lift->>=,
  Single-request->>=,
}
use ditto_client.Http.Client.{
  payload, key_path, ttl_query, value_of_reply, get, set, set_nx, incr, delete,
}
use ditto_client.Http.Client.Sent.{
  IsKeyRequest, encode_body, expiry, value_bytes, ttl_query_lem, payload_lem, raw_value_lem,
  body-IsKeyRequest, plain-IsKeyRequest, incr_payload, member_of_reply-Silent,
  value_of_reply-Silent,
}

-- What the code sends for `incr`.
abbrev sent_payload : ℤ → ℤ → Json
sent_payload delta n =
    payload (codes "delta") (text (decimal_int delta)) (codes "ttl_secs_on_create") n

module _ {W : Type 0} (lib : Library W) (client : HttpClient) where
  get-Single :
      (key : Str) (namespace : Option Str)
      → Single lib
          (IsKeyRequest client key namespace (codes "GET") [] none (ok none))
          (requires
            (validate_core_inputs client.strict_mode (codes "get") (some key) namespace)
            (requires (key_path key) (ok tt)))
          (get lib client key namespace)
  unfolding get
  get-Single key namespace =
      Single-lift->>= lib _
        (validate_core_inputs client.strict_mode (codes "get") (some key) namespace) _ _
        (λ _ _. Single-lift->>= lib _ (key_path key) _ _ (λ path named.
          Single-request->>= lib _ client path (codes "GET") none none (namespace_headers namespace)
            _ (plain-IsKeyRequest client key namespace path (codes "GET") named)
            (λ (status, body). Silent-bool (status == 404) _ _ (Silent-lift (ok none)) (
              Silent-lift->>= (assert_ok lib.loads status body) _ (λ _.
                Silent-lift->>= (parse lib.loads body) _ (λ reply.
                  Silent-lift->>= (get_method (codes "value_base64") reply) _ (λ encoded.
                    Silent->>= (value_of_reply lib client encoded reply) _
                      (value_of_reply-Silent lib client encoded reply)
                      (λ value.
                        Silent-lift->>= (subscript (codes "version") reply) _
                          (λ version. Silent-lift (ok _))))))))))

  set-Single :
      (key value : Str) (ttl_secs : ℤ) (namespace : Option Str)
      → Single lib
          (IsKeyRequest client key namespace
            (codes "PUT")
            (ttl_query (codes "?") ttl_secs)
            (some (codes "text/plain"))
            (encode_body (encode_utf8 value)))
          (requires
            (validate_core_inputs client.strict_mode (codes "set") (some key) namespace)
            (requires (key_path key) (requires (encode_utf8 value) (ok tt))))
          (set lib client key value ttl_secs namespace)
  unfolding set
  set-Single key value ttl_secs namespace =
      Single-lift->>= lib _
        (validate_core_inputs client.strict_mode (codes "set") (some key) namespace) _ _
        (λ _ _. Single-lift->>= lib _ (key_path key) _ _ (λ path named.
          Single-lift->>= lib _ (encode_utf8 value) _ _ (λ body encoded.
            Single-request->>= lib _ client _ (codes "PUT") (some body) _ _ _
              (body-IsKeyRequest client key namespace path (codes "PUT")
                (ttl_query (codes "?") ttl_secs) (some (codes "text/plain")) body
                (encode_utf8 value) named encoded)
              (λ (status, reply).
                member_of_reply-Silent lib client (codes "version") status reply))))

  set_nx-Single :
      (key : Str) (value : Value) (ttl_secs : ℤ) (namespace : Option Str)
      → Single lib
          (IsKeyRequest client key namespace
            (codes "POST")
            (codes "?nx=1" ++ ttl_query (codes "&") ttl_secs)
            (some (codes "application/octet-stream"))
            (encode_body (raw_value value)))
          (requires
            (validate_core_inputs client.strict_mode (codes "set") (some key) namespace)
            (requires (key_path key) (requires (raw_value value) (ok tt))))
          (set_nx lib client key value ttl_secs namespace)
  unfolding set_nx
  set_nx-Single key value ttl_secs namespace =
      Single-lift->>= lib _
        (validate_core_inputs client.strict_mode (codes "set") (some key) namespace) _ _
        (λ _ _. Single-lift->>= lib _ (key_path key) _ _ (λ path named.
          Single-lift->>= lib _ (raw_value value) _ _ (λ raw encoded.
            Single-request->>= lib _ client _ (codes "POST") (some raw) _ _ _
              (body-IsKeyRequest client key namespace path (codes "POST")
                (codes "?nx=1" ++ ttl_query (codes "&") ttl_secs)
                (some (codes "application/octet-stream")) raw (raw_value value) named encoded)
              (λ (status, body).
                Silent-lift->>=
                  (raise_if_atomic_http_unsupported lib.loads status body (codes "SET_NX")) _
                  (λ _. Silent-lift->>= (assert_ok lib.loads status body) _ (λ _.
                    Silent-lift->>= (parse lib.loads body) _ (λ reply.
                      Silent-lift->>= (subscript (codes "created") reply) _ (λ created.
                        Silent-lift->>= (subscript (codes "version") reply) _ (λ raw_version.
                          Silent-lift->>= (lib.to_int raw_version) _
                            (λ version. Silent-lift _))))))))))

  incr-Single :
      (key : Str) (delta ttl_secs_on_create : ℤ) (namespace : Option Str)
      → Single lib
          (IsKeyRequest client key namespace
            (codes "POST")
            (codes "/incr")
            (some (codes "application/json"))
            (encode_body (encode_utf8 (dumps (sent_payload delta ttl_secs_on_create)))))
          (requires (validate_core_inputs client.strict_mode (codes "set") (some key) namespace) (
            requires
              (encode_utf8 (dumps (sent_payload delta ttl_secs_on_create)))
              (requires (key_path key) (ok tt))))
          (incr lib client key delta ttl_secs_on_create namespace)
  unfolding incr
  incr-Single key delta ttl_secs_on_create namespace =
      Single-lift->>= lib _
        (validate_core_inputs client.strict_mode (codes "set") (some key) namespace) _ _
        (λ _ _.
          Single-lift->>= lib _ (encode_utf8 (dumps (sent_payload delta ttl_secs_on_create))) _ _
            (λ sent encoded. Single-lift->>= lib _ (key_path key) _ _ (λ path named.
              Single-request->>= lib _ client _ (codes "POST") (some sent) _ _ _
                (body-IsKeyRequest client key namespace path (codes "POST") (codes "/incr")
                  (some (codes "application/json")) sent
                  (encode_utf8 (dumps (sent_payload delta ttl_secs_on_create))) named encoded)
                (λ (status, body).
                  Silent-lift->>=
                    (raise_if_atomic_http_unsupported lib.loads status body (codes "INCR")) _
                    (λ _. Silent-lift->>= (assert_ok lib.loads status body) _ (λ _.
                      Silent-lift->>= (parse lib.loads body) _ (λ reply.
                        Silent-lift->>= (subscript (codes "value") reply) _ (λ counted.
                          Silent-lift->>= (lib.to_int counted) _ (λ value.
                            Silent-lift->>= (subscript (codes "version") reply) _ (λ raw_version.
                              Silent-lift->>= (lib.to_int raw_version) _
                                (λ version. Silent-lift _)))))))))))

  delete-Single :
      (key : Str) (namespace : Option Str)
      → Single lib
          (IsKeyRequest client key namespace (codes "DELETE") [] none (ok none))
          (requires
            (validate_core_inputs client.strict_mode (codes "delete") (some key) namespace)
            (requires (key_path key) (ok tt)))
          (delete lib client key namespace)
  unfolding delete
  delete-Single key namespace =
      Single-lift->>= lib _
        (validate_core_inputs client.strict_mode (codes "delete") (some key) namespace) _ _
        (λ _ _. Single-lift->>= lib _ (key_path key) _ _ (λ path named.
          Single-request->>= lib _ client path (codes "DELETE") none none
            (namespace_headers namespace) _
            (plain-IsKeyRequest client key namespace path (codes "DELETE") named)
            (λ (status, body). Silent-bool (status == 404) _ _ (Silent-lift (ok false)) (
              Silent-bool (status == 204) _ _ (Silent-lift (ok true)) (
                Silent-lift->>= (assert_ok lib.loads status body) _
                  (λ _. Silent-lift (ok true)))))))

  -- Each operation on a key makes exactly one request, if the checks of strict mode and the encoding of
  -- the key and the body return, and otherwise raises what they raise and makes none. The request has the
  -- method and the content of the operation, a path that is URL-safe behind `/key/` and from which the key
  -- is read back, the expiry of set and set_nx in the query exactly if it is positive, and as headers the
  -- credentials, the content type and the namespace that are given.
  pub keyed-Single :
      (key plain : Str) (value : Value) (delta ttl_secs : ℤ) (namespace : Option Str)
      → Single lib
          (IsKeyRequest client key namespace (codes "GET") [] none (ok none))
          (requires
            (validate_core_inputs client.strict_mode (codes "get") (some key) namespace)
            (requires (key_path key) (ok tt)))
          (get lib client key namespace)
        × Single lib
            (IsKeyRequest client key namespace
              (codes "PUT")
              (expiry (codes "?") ttl_secs)
              (some (codes "text/plain"))
              (encode_body (encode_utf8 plain)))
            (requires
              (validate_core_inputs client.strict_mode (codes "set") (some key) namespace)
              (requires (key_path key) (requires (encode_utf8 plain) (ok tt))))
            (set lib client key plain ttl_secs namespace)
        × Single lib
            (IsKeyRequest client key namespace
              (codes "POST")
              (codes "?nx=1" ++ expiry (codes "&") ttl_secs)
              (some (codes "application/octet-stream"))
              (encode_body (value_bytes value)))
            (requires
              (validate_core_inputs client.strict_mode (codes "set") (some key) namespace)
              (requires (key_path key) (requires (value_bytes value) (ok tt))))
            (set_nx lib client key value ttl_secs namespace)
        × Single lib
            (IsKeyRequest client key namespace
              (codes "POST")
              (codes "/incr")
              (some (codes "application/json"))
              (encode_body (encode_utf8 (dumps (incr_payload delta ttl_secs)))))
            (requires (validate_core_inputs client.strict_mode (codes "set") (some key) namespace) (
              requires
                (encode_utf8 (dumps (incr_payload delta ttl_secs)))
                (requires (key_path key) (ok tt))))
            (incr lib client key delta ttl_secs namespace)
        × Single lib
            (IsKeyRequest client key namespace (codes "DELETE") [] none (ok none))
            (requires
              (validate_core_inputs client.strict_mode (codes "delete") (some key) namespace)
              (requires (key_path key) (ok tt)))
            (delete lib client key namespace)
  keyed-Single key plain value delta ttl_secs namespace = (
    get-Single key namespace,
    rw (ttl_query_lem (codes "?") ttl_secs) at (set-Single key plain ttl_secs namespace),
    rw (ttl_query_lem (codes "&") ttl_secs, raw_value_lem value) at
        (set_nx-Single key value ttl_secs namespace),
    rw
        (payload_lem (codes "delta") (text (decimal_int delta)) (codes "ttl_secs_on_create")
          ttl_secs)
        at (incr-Single key delta ttl_secs namespace),
    delete-Single key namespace,
  )
