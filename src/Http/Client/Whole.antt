-- ===== src/Http/Client/Whole.antt =====
-- What the operations on patterns, `ping` and `stats` send.
use ditto_client.Prelude.{ℕ, ◌≡◌, refl, Option, none, some, false, [], ◌++◌, ◌==◌}
use ditto_client.Prelude.Int.{ℤ}
use ditto_client.Python.Text.{Str, Bytes, codes}
use ditto_client.Python.Utf8.{encode_utf8}
use ditto_client.Python.Json.Values.{Json, text, object, done, member}
use ditto_client.Python.Json.Dumps.{dumps}
use ditto_client.Python.Errors.{Result, ok, err}
use ditto_client.Validation.{validate_pattern_inputs}
use ditto_client.Http.Base.{HttpClient}
use ditto_client.Http.Failure.{assert_ok}
use ditto_client.Http.Atomic.{namespace_headers}
use ditto_client.Python.Json.Access.{get_method}
use ditto_client.Http.Request.{request, parse, build_headers}
use ditto_client.Http.Transport.{HttpRequest, Library, Call, lift, ◌>>=◌}
use ditto_client.Http.Headers.{HasHeaders, build_headers-HasHeaders}
use ditto_client.Http.Single.{
  requires, Silent, Single, Silent-lift, Silent-bool, Silent-lift->>=, Single-lift->>=,
  Single-request->>=,
}
use ditto_client.Http.Client.{
  payload, post_json, ping, delete_by_pattern, set_ttl_by_pattern, stats,
}
use ditto_client.Http.Client.Sent.{with_number, payload_lem, member_of_reply-Silent, encode_body}

-- A request with this method and path, with the headers for this content type and namespace, and with
-- this body.
abbrev pub IsPathRequest :
    HttpClient → Option Str → Str → Str → Option Str → Result (Option Bytes) → HttpRequest → Type 0
IsPathRequest client namespace method path content_type content r =
    (r.method ≡ method)
    × (r.url ≡ client.base_url ++ path)
    × HasHeaders client content_type namespace r.headers
    × (content ≡ ok r.body)

-- The request of an operation on a pattern.
abbrev pub IsPostRequest : HttpClient → Option Str → Str → Json → HttpRequest → Type 0
IsPostRequest client namespace path value =
    IsPathRequest client namespace (codes "POST") path (some (codes "application/json"))
      (encode_body (encode_utf8 (dumps value)))

module _ {W : Type 0} (lib : Library W) (client : HttpClient) where
  request-IsPathRequest :
      (namespace : Option Str) (method path : Str) (content_type : Option Str) (body : Option Bytes)
      → IsPathRequest client namespace method path content_type (ok body) (record {
        url = client.base_url ++ path;
        method = method;
        body = body;
        headers = build_headers client content_type (namespace_headers namespace);
      })
  request-IsPathRequest namespace method path content_type body =
      (refl, refl, build_headers-HasHeaders client content_type namespace, refl)

  sent-Single :
      {B : Type 0} (namespace : Option Str) (path : Str) (encoded : Result Bytes)
      (f : ℕ × Str → Call W B)
      → ((a : ℕ × Str) → Silent (f a))
      → Single lib
          (IsPathRequest client namespace
            (codes "POST")
            path
            (some (codes "application/json"))
            (encode_body encoded))
          (requires encoded (ok tt))
          ((lift encoded >>= λ sent.
              request lib client path
                (codes "POST")
                (some sent)
                (some (codes "application/json"))
                (namespace_headers namespace))
            >>= f)
  sent-Single namespace path (ok sent) f p = record {
    once =
        (Single-request->>= lib _ client path (codes "POST") (some sent)
          (some (codes "application/json")) (namespace_headers namespace) f
          (request-IsPathRequest namespace (codes "POST") path (some (codes "application/json"))
            (some sent))
          p).once;
  }
  sent-Single namespace path (err e) f p = record { once = λ s. refl }

  post_json-Single :
      {B : Type 0} (namespace : Option Str) (path : Str) (value : Json) (f : ℕ × Str → Call W B)
      → ((a : ℕ × Str) → Silent (f a))
      → Single lib
          (IsPostRequest client namespace path value)
          (requires (encode_utf8 (dumps value)) (ok tt))
          (post_json lib client path value namespace >>= f)
  unfolding post_json
  post_json-Single namespace path value f p =
      sent-Single namespace path (encode_utf8 (dumps value)) f p

  delete_by_pattern-Single :
      (glob : Str) (namespace : Option Str)
      → Single lib
          (IsPostRequest client namespace
            (codes "/keys/delete-by-pattern")
            (object (member (codes "pattern") (text glob) done)))
          (requires
            (validate_pattern_inputs client.strict_mode
              (codes "delete_by_pattern")
              (some glob)
              namespace)
            (requires
              (encode_utf8 (dumps (object (member (codes "pattern") (text glob) done))))
              (ok tt)))
          (delete_by_pattern lib client glob namespace)
  unfolding delete_by_pattern
  delete_by_pattern-Single glob namespace =
      Single-lift->>= lib _
        (validate_pattern_inputs client.strict_mode (codes "delete_by_pattern") (some glob)
          namespace)
        _ _
        (λ _ _.
          post_json-Single namespace (codes "/keys/delete-by-pattern")
            (object (member (codes "pattern") (text glob) done)) _
            (λ (status, body). member_of_reply-Silent lib client (codes "deleted") status body))

  set_ttl_by_pattern-Single :
      (glob : Str) (ttl_secs : ℤ) (namespace : Option Str)
      → Single lib
          (IsPostRequest client namespace
            (codes "/keys/ttl-by-pattern")
            (payload (codes "pattern") (text glob) (codes "ttl_secs") ttl_secs))
          (requires
            (validate_pattern_inputs client.strict_mode
              (codes "set_ttl_by_pattern")
              (some glob)
              namespace)
            (requires
              (encode_utf8
                (dumps (payload (codes "pattern") (text glob) (codes "ttl_secs") ttl_secs)))
              (ok tt)))
          (set_ttl_by_pattern lib client glob ttl_secs namespace)
  unfolding set_ttl_by_pattern
  set_ttl_by_pattern-Single glob ttl_secs namespace =
      Single-lift->>= lib _
        (validate_pattern_inputs client.strict_mode (codes "set_ttl_by_pattern") (some glob)
          namespace)
        _ _
        (λ _ _.
          post_json-Single namespace (codes "/keys/ttl-by-pattern")
            (payload (codes "pattern") (text glob) (codes "ttl_secs") ttl_secs) _
            (λ (status, body). member_of_reply-Silent lib client (codes "updated") status body))

  get_path-IsPathRequest :
      (path : Str)
      → IsPathRequest client none (codes "GET") path none (ok none) (record {
        url = client.base_url ++ path;
        method = codes "GET";
        body = none;
        headers = build_headers client none [];
      })
  get_path-IsPathRequest path =
      (unfold namespace_headers in request-IsPathRequest none (codes "GET") path none none)

  ping-Single :
      Single lib
        (IsPathRequest client none (codes "GET") (codes "/ping") none (ok none))
        (ok tt)
        (ping lib client)
  unfolding ping
  ping-Single =
      Single-request->>= lib _ client (codes "/ping") (codes "GET") none none [] _
        (get_path-IsPathRequest (codes "/ping"))
        (λ (status, body).
          Silent-bool (status == 200) _ _
            (Silent-lift->>= (parse lib.loads body) _ (λ reply.
              Silent-lift->>= (get_method (codes "pong") reply) _ (λ pong. Silent-lift _)))
            (Silent-lift (ok false)))

  stats-Single :
      Single lib
        (IsPathRequest client none (codes "GET") (codes "/stats") none (ok none))
        (ok tt)
        (stats lib client)
  unfolding stats
  stats-Single =
      Single-request->>= lib _ client (codes "/stats") (codes "GET") none none [] _
        (get_path-IsPathRequest (codes "/stats"))
        (λ (status, body).
          Silent-lift->>= (assert_ok lib.loads status body) _
            (λ _. Silent-lift->>= (parse lib.loads body) _ (λ reply. Silent-lift _)))

  -- Each operation without a key makes exactly one request, if the checks of strict mode and the encoding
  -- of the body return, and otherwise raises what they raise and makes none. ping and stats make a GET
  -- without body and namespace, the operations on a pattern a POST of the JSON text of the pattern, with
  -- the expiry exactly if it is positive, and with the credentials and the namespace that are given as
  -- headers.
  pub keyless-Single :
      (glob : Str) (ttl_secs : ℤ) (namespace : Option Str)
      → Single lib
          (IsPathRequest client none (codes "GET") (codes "/ping") none (ok none))
          (ok tt)
          (ping lib client)
        × Single lib
            (IsPathRequest client none (codes "GET") (codes "/stats") none (ok none))
            (ok tt)
            (stats lib client)
        × Single lib
            (IsPostRequest client namespace
              (codes "/keys/delete-by-pattern")
              (object (member (codes "pattern") (text glob) done)))
            (requires
              (validate_pattern_inputs client.strict_mode
                (codes "delete_by_pattern")
                (some glob)
                namespace)
              (requires
                (encode_utf8 (dumps (object (member (codes "pattern") (text glob) done))))
                (ok tt)))
            (delete_by_pattern lib client glob namespace)
        × Single lib
            (IsPostRequest client namespace
              (codes "/keys/ttl-by-pattern")
              (with_number (codes "pattern") (text glob) (codes "ttl_secs") ttl_secs))
            (requires
              (validate_pattern_inputs client.strict_mode
                (codes "set_ttl_by_pattern")
                (some glob)
                namespace)
              (requires
                (encode_utf8
                  (dumps (with_number (codes "pattern") (text glob) (codes "ttl_secs") ttl_secs)))
                (ok tt)))
            (set_ttl_by_pattern lib client glob ttl_secs namespace)
  keyless-Single glob ttl_secs namespace = (
    ping-Single,
    stats-Single,
    delete_by_pattern-Single glob namespace,
    rw (payload_lem (codes "pattern") (text glob) (codes "ttl_secs") ttl_secs) at
        (set_ttl_by_pattern-Single glob ttl_secs namespace),
  )
