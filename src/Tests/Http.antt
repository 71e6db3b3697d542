-- ===== src/Tests/Http.antt =====
-- The HTTP client at concrete inputs, and over a library whose server answers every request alike.
use ditto_client.Prelude.{
  ℕ, ◌≡◌, ◌↔◌, inr, refl, none, some, true, false, [], ◌∷◌, ◌++◌, arith, All,
}
use ditto_client.Prelude.Int.{pos}
use ditto_client.Python.Text.{
  Str, codes, strip, rstrip, lstrip, rstrip_cons, is_space, contains_pair,
}
use ditto_client.Python.Text.Compare.{text_eq, is_member, lower}
use ditto_client.Python.Utf8.{encode_utf8, encode_char, decode_utf8}
use ditto_client.Python.Decimal.{decimal, digits_loop}
use ditto_client.Python.Json.Values.{Json, text, object, member, done, lookup, members}
use ditto_client.Python.Json.Dumps.{dumps}
use ditto_client.Python.Errors.{ok, err, http_error, known, unsupported_request, rate_limited}
use ditto_client.Validation.{normalized_namespace, matches_token}
use ditto_client.Tcp.Client.{str_value}
use ditto_client.Http.Quote.{
  is_unreserved, upper_hex, quote_bytes, url_encode, unquote_bytes, IsUrlSafe, url_encode_lem,
}
use ditto_client.Http.Transport.{response, Library}
use ditto_client.Http.Base.{
  Options, HttpClient, init, basic_auth, tls_context, verified_context, without_verification,
  load_trusted, allow_insecure_tls_dev,
}
use ditto_client.Http.Base.Laws.{TlsMatches, init-TlsMatches}
use ditto_client.Http.Failure.{assert_ok, code_name}
use ditto_client.Http.Failure.Laws.{assert_ok-code_name}
use ditto_client.Http.Atomic.{namespace_headers, raise_if_atomic_http_unsupported}
use ditto_client.Http.Atomic.Laws.{
  IsListed, raise_if_atomic_http_unsupported_lem, namespace_headers-normalized_namespace,
}
use ditto_client.Http.Single.{Single, requires}
use ditto_client.Http.Quote.{key_path}
use ditto_client.Validation.{validate_core_inputs, validate_pattern_inputs}
use ditto_client.Http.Client.{
  ping, get, set, set_nx, incr, delete, delete_by_pattern, set_ttl_by_pattern, stats,
}
use ditto_client.Http.Client.Sent.{
  IsKeyRequest, encode_body, expiry, with_number, value_bytes, incr_payload,
}
use ditto_client.Http.Client.Keyed.{keyed-Single}
use ditto_client.Http.Client.Whole.{IsPathRequest, IsPostRequest, keyless-Single}
use ditto_client.Http.Client.Strict.{Refuses, http_keyed-Refuses, http_globs-Refuses}
use ditto_client.Tests.Client.{space_key, blank_glob}

-- A library whose server answers every request with 429 and an error payload.
abbrev busy_payload : Json
busy_payload = object (member (codes "error") (text (codes "RateLimited")) done)

abbrev busy_lib : Library ℕ
busy_lib = record {
  urlopen = λ r w. (response 429 (codes "{}"), w);
  loads = λ s. some busy_payload;
  b64decode = λ s. some [];
  to_int = λ x. ok (pos 0);
}

abbrev strict_client : HttpClient
strict_client = record {
  base_url = codes "http://localhost:7778";
  auth_header = some (codes "Basic dTpw");
  ssl_ctx = none;
  strict_mode = true;
}

abbrev dev_options : Options
dev_options = record {
  host = codes "localhost";
  port = 7778;
  tls = true;
  username = none;
  password = none;
  reject_unauthorized = true;
  dev_insecure_tls = true;
  trusted_cert_path = none;
  strict_mode = true;
}

abbrev dev_client : HttpClient
dev_client = record {
  base_url = codes "https://localhost:7778";
  auth_header = none;
  ssl_ctx = some (record { verifies = false; ca_file = none });
  strict_mode = true;
}

init-dev_client : init (λ path. ok tt) (some (codes " Yes ")) dev_options ≡ ok dev_client
unfolding init basic_auth tls_context verified_context without_verification load_trusted
    allow_insecure_tls_dev is_member text_eq lower decimal digits_loop strip lstrip rstrip
    rstrip_cons is_space
init-dev_client = refl

init-TlsMatches_example :
    TlsMatches (λ path. ok tt) (some (codes " Yes ")) dev_options dev_client.ssl_ctx
init-TlsMatches_example =
    init-TlsMatches (λ path. ok tt) (some (codes " Yes ")) dev_options dev_client init-dev_client

-- A key with a slash, a letter outside of ASCII and a space.
abbrev odd_key : Str
odd_key = b'a' ∷ b'/' ∷ 0xe9 ∷ b' ' ∷ []

url_encode-odd_key : url_encode odd_key ≡ ok (codes "a%2F%C3%A9%20")
unfolding url_encode encode_utf8 encode_char quote_bytes is_unreserved upper_hex
url_encode-odd_key = refl

url_encode_lem_example :
    All IsUrlSafe (codes "a%2F%C3%A9%20")
    × (decode_utf8 (unquote_bytes (codes "a%2F%C3%A9%20")) ≡ ok odd_key)
url_encode_lem_example = url_encode_lem odd_key (codes "a%2F%C3%A9%20") url_encode-odd_key

assert_ok-code_name_example :
    (message : Json) × (assert_ok busy_lib.loads 429 []
      ≡ err (http_error (known rate_limited) message))
unfolding members lookup text_eq code_name
assert_ok-code_name_example =
    assert_ok-code_name busy_lib.loads 429 []
      (member (codes "error") (text (codes "RateLimited")) done) rate_limited (inr (omega arith))
      refl refl

abbrev missing : ℕ
missing = 404

raise_if_atomic_http_unsupported_lem_example :
    (((message : Json) × (raise_if_atomic_http_unsupported busy_lib.loads missing [] (codes "INCR")
          ≡ err (http_error (known unsupported_request) message)))
      ↔ IsListed missing)
    × ((raise_if_atomic_http_unsupported busy_lib.loads missing [] (codes "INCR") ≡ ok tt)
        ↔ ¬ (IsListed missing))
raise_if_atomic_http_unsupported_lem_example =
    raise_if_atomic_http_unsupported_lem busy_lib.loads missing [] (codes "INCR")

namespace_headers-normalized_namespace_example :
    namespace_headers (some (codes " team ")) ≡ (codes "X-Ditto-Namespace", codes "team") ∷ []
unfolding normalized_namespace strip rstrip lstrip rstrip_cons is_space contains_pair matches_token
namespace_headers-normalized_namespace_example =
    namespace_headers-normalized_namespace false (some (codes " team ")) (some (codes "team")) refl

http_keyed-Refuses_example :
    Refuses (get busy_lib strict_client (codes "a b") none)
    × Refuses (set busy_lib strict_client (codes "a b") (codes "v") (pos 5) none)
    × Refuses (set_nx busy_lib strict_client (codes "a b") (str_value (codes "v")) (pos 5) none)
    × Refuses (incr busy_lib strict_client (codes "a b") (pos 1) (pos 5) none)
    × Refuses (delete busy_lib strict_client (codes "a b") none)
http_keyed-Refuses_example =
    http_keyed-Refuses busy_lib strict_client (codes "a b") (codes "v") (str_value (codes "v"))
      (pos 1) (pos 5) none refl space_key

http_globs-Refuses_example :
    Refuses (delete_by_pattern busy_lib strict_client (codes "  ") none)
    × Refuses (set_ttl_by_pattern busy_lib strict_client (codes "  ") (pos 5) none)
http_globs-Refuses_example =
    http_globs-Refuses busy_lib strict_client (codes "  ") (pos 5) none refl blank_glob

keyed-Single_example :
    Single busy_lib
      (IsKeyRequest strict_client odd_key none (codes "GET") [] none (ok none))
      (requires
        (validate_core_inputs strict_client.strict_mode (codes "get") (some odd_key) none)
        (requires (key_path odd_key) (ok tt)))
      (get busy_lib strict_client odd_key none)
    × Single busy_lib
        (IsKeyRequest strict_client odd_key none
          (codes "PUT")
          (expiry (codes "?") (pos 5))
          (some (codes "text/plain"))
          (encode_body (encode_utf8 (codes "v"))))
        (requires
          (validate_core_inputs strict_client.strict_mode (codes "set") (some odd_key) none)
          (requires (key_path odd_key) (requires (encode_utf8 (codes "v")) (ok tt))))
        (set busy_lib strict_client odd_key (codes "v") (pos 5) none)
    × Single busy_lib
        (IsKeyRequest strict_client odd_key none
          (codes "POST")
          (codes "?nx=1" ++ expiry (codes "&") (pos 5))
          (some (codes "application/octet-stream"))
          (encode_body (value_bytes (str_value (codes "v")))))
        (requires
          (validate_core_inputs strict_client.strict_mode (codes "set") (some odd_key) none)
          (requires (key_path odd_key) (requires (value_bytes (str_value (codes "v"))) (ok tt))))
        (set_nx busy_lib strict_client odd_key (str_value (codes "v")) (pos 5) none)
    × Single busy_lib
        (IsKeyRequest strict_client odd_key none
          (codes "POST")
          (codes "/incr")
          (some (codes "application/json"))
          (encode_body (encode_utf8 (dumps (incr_payload (pos 1) (pos 5))))))
        (requires
          (validate_core_inputs strict_client.strict_mode (codes "set") (some odd_key) none)
          (requires
            (encode_utf8 (dumps (incr_payload (pos 1) (pos 5))))
            (requires (key_path odd_key) (ok tt))))
        (incr busy_lib strict_client odd_key (pos 1) (pos 5) none)
    × Single busy_lib
        (IsKeyRequest strict_client odd_key none (codes "DELETE") [] none (ok none))
        (requires
          (validate_core_inputs strict_client.strict_mode (codes "delete") (some odd_key) none)
          (requires (key_path odd_key) (ok tt)))
        (delete busy_lib strict_client odd_key none)
keyed-Single_example =
    keyed-Single busy_lib strict_client odd_key (codes "v") (str_value (codes "v")) (pos 1) (pos 5)
      none

keyless-Single_example :
    Single busy_lib
      (IsPathRequest strict_client none (codes "GET") (codes "/ping") none (ok none))
      (ok tt)
      (ping busy_lib strict_client)
    × Single busy_lib
        (IsPathRequest strict_client none (codes "GET") (codes "/stats") none (ok none))
        (ok tt)
        (stats busy_lib strict_client)
    × Single busy_lib
        (IsPostRequest strict_client none
          (codes "/keys/delete-by-pattern")
          (object (member (codes "pattern") (text (codes "k*")) done)))
        (requires
          (validate_pattern_inputs strict_client.strict_mode
            (codes "delete_by_pattern")
            (some (codes "k*"))
            none)
          (requires
            (encode_utf8 (dumps (object (member (codes "pattern") (text (codes "k*")) done))))
            (ok tt)))
        (delete_by_pattern busy_lib strict_client (codes "k*") none)
    × Single busy_lib
        (IsPostRequest strict_client none
          (codes "/keys/ttl-by-pattern")
          (with_number (codes "pattern") (text (codes "k*")) (codes "ttl_secs") (pos 5)))
        (requires
          (validate_pattern_inputs strict_client.strict_mode
            (codes "set_ttl_by_pattern")
            (some (codes "k*"))
            none)
          (requires
            (encode_utf8 (
              dumps (with_number (codes "pattern") (text (codes "k*")) (codes "ttl_secs") (pos 5))))
            (ok tt)))
        (set_ttl_by_pattern busy_lib strict_client (codes "k*") (pos 5) none)
keyless-Single_example = keyless-Single busy_lib strict_client (codes "k*") (pos 5) none
