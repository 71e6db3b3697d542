-- ===== src/Http/Client/Sent.antt =====
-- What a request for a key looks like, and the parts of an operation that send nothing.
use ditto_client.Prelude.{
  ℕ, zero, suc, ◌≡◌, refl, sym, ap, Option, none, some, [], ◌++◌, append-nil, All,
}
use ditto_client.Prelude.Int.{ℤ, pos, negsuc}
use ditto_client.Python.Text.{Str, Bytes, codes}
use ditto_client.Python.Utf8.{encode_utf8, decode_utf8}
use ditto_client.Python.Decimal.{decimal, decimal_int}
use ditto_client.Python.Json.Values.{Json, integer, text, object, member, done, is_true}
use ditto_client.Python.Errors.{Result, ok, err}
use ditto_client.Tcp.Client.{Value, str_value, bytes_value, raw_value}
use ditto_client.Http.Base.{HttpClient}
use ditto_client.Http.Failure.{assert_ok}
use ditto_client.Http.Atomic.{namespace_headers}
use ditto_client.Http.Quote.{unquote_bytes, IsUrlSafe, key_path, key_path_lem}
use ditto_client.Python.Json.Access.{subscript}
use ditto_client.Http.Request.{parse, build_headers}
use ditto_client.Http.Transport.{HttpRequest, Library}
use ditto_client.Http.Headers.{HasHeaders, build_headers-HasHeaders}
use ditto_client.Http.Single.{Silent, Silent-lift, Silent-bool, Silent-lift->>=}
use ditto_client.Http.Client.{payload, ttl_query, key_path, value_of_reply, member_of_reply}

-- A request with this method, at a URL whose segment behind `/key/` is URL-safe and reads back as the
-- key, with the headers for this content type and namespace, and with this body.
abbrev pub IsKeyRequest :
    HttpClient
    → Str
    → Option Str
    → Str
    → Str
    → Option Str
    → Result (Option Bytes)
    → HttpRequest
    → Type 0
IsKeyRequest client key namespace method suffix content_type content r =
    (r.method ≡ method)
    × ((segment : Str) × (r.url ≡ client.base_url ++ (codes "/key/" ++ segment ++ suffix))
        × All IsUrlSafe segment
        × (decode_utf8 (unquote_bytes segment) ≡ ok key))
    × HasHeaders client content_type namespace r.headers
    × (content ≡ ok r.body)

-- A body that is sent.
abbrev pub encode_body : Result Bytes → Result (Option Bytes)
encode_body (ok body) = ok (some body)
encode_body (err e) = err e

module _ (client : HttpClient) (key : Str) (namespace : Option Str) where
  request-IsKeyRequest :
      (path method suffix : Str) (content_type : Option Str) (body : Option Bytes)
      → key_path key ≡ ok path
      → IsKeyRequest client key namespace method suffix content_type (ok body) (record {
        url = client.base_url ++ (path ++ suffix);
        method = method;
        body = body;
        headers = build_headers client content_type (namespace_headers namespace);
      })
  request-IsKeyRequest path method suffix content_type body h =
      let (segment, same, safe, read_back) = key_path_lem key path h in
      (
        refl,
        (segment, ap (λ p. client.base_url ++ (p ++ suffix)) (sym same), safe, read_back),
        build_headers-HasHeaders client content_type namespace,
        refl,
      )

  pub body-IsKeyRequest :
      (path method suffix : Str) (content_type : Option Str) (body : Bytes) (encoded : Result Bytes)
      → key_path key ≡ ok path
      → encoded ≡ ok body
      → IsKeyRequest client key namespace method suffix content_type (encode_body encoded) (record {
        url = client.base_url ++ (path ++ suffix);
        method = method;
        body = some body;
        headers = build_headers client content_type (namespace_headers namespace);
      })
  body-IsKeyRequest path method suffix content_type body encoded h returned =
      rw returned (request-IsKeyRequest path method suffix content_type (some body) h)

  pub plain-IsKeyRequest :
      (path method : Str)
      → key_path key ≡ ok path
      → IsKeyRequest client key namespace method [] none (ok none) (record {
        url = client.base_url ++ path;
        method = method;
        body = none;
        headers = build_headers client none (namespace_headers namespace);
      })
  plain-IsKeyRequest path method h =
      rw (append-nil path) at (request-IsKeyRequest path method [] none none h)

-- The part of a query that gives an expiry, behind its separator: nothing unless it is positive.
abbrev pub expiry : Str → ℤ → Str
expiry separator (pos zero) = []
expiry separator (pos (suc n)) = separator ++ codes "ttl=" ++ decimal (suc n)
expiry separator (negsuc n) = []

-- An object of a pair, with a number as second member if the number is positive.
abbrev pub with_number : Str → Json → Str → ℤ → Json
with_number key value second (pos zero) = object (member key value done)
with_number key value second (pos (suc n)) =
    object (member key value (member second (integer (pos (suc n))) done))
with_number key value second (negsuc n) = object (member key value done)

-- The bytes of a value: a text as UTF-8, bytes as they are.
abbrev pub value_bytes : Value → Result Bytes
value_bytes (str_value s) = encode_utf8 s
value_bytes (bytes_value bs) = ok bs

pub ttl_query_lem :
    (separator : Str) (ttl_secs : ℤ) → ttl_query separator ttl_secs ≡ expiry separator ttl_secs
unfolding ttl_query decimal_int
ttl_query_lem separator (pos zero) = refl
ttl_query_lem separator (pos (suc n)) = refl
ttl_query_lem separator (negsuc n) = refl

pub payload_lem :
    (key : Str) (value : Json) (second : Str) (n : ℤ)
    → payload key value second n ≡ with_number key value second n
payload_lem key value second (pos zero) = refl
payload_lem key value second (pos (suc n)) = refl
payload_lem key value second (negsuc n) = refl

pub raw_value_lem : (value : Value) → raw_value value ≡ value_bytes value
unfolding raw_value
raw_value_lem (str_value s) = refl
raw_value_lem (bytes_value bs) = refl

-- The JSON of `incr`: the number to add as a text, and the expiry.
abbrev pub incr_payload : ℤ → ℤ → Json
incr_payload delta ttl_secs_on_create =
    with_number (codes "delta") (text (decimal_int delta)) (codes "ttl_secs_on_create")
      ttl_secs_on_create

module _ {W : Type 0} (lib : Library W) (client : HttpClient) where
  pub member_of_reply-Silent :
      (key : Str) (status : ℕ) (body : Str) → Silent (member_of_reply lib client key status body)
  unfolding member_of_reply
  member_of_reply-Silent key status body =
      Silent-lift->>= (assert_ok lib.loads status body) _
        (λ _. Silent-lift->>= (parse lib.loads body) _ (λ reply. Silent-lift (subscript key reply)))

  pub value_of_reply-Silent :
      (encoded reply : Json) → Silent (value_of_reply lib client encoded reply)
  unfolding value_of_reply
  value_of_reply-Silent encoded reply =
      Silent-bool (is_true encoded) _ _
        (Silent-lift->>= (subscript (codes "value_base64") reply) _ (λ raw. Silent-lift _))
        (Silent-lift->>= (subscript (codes "value") reply) _ (λ plain. Silent-lift _))
