-- ===== src/Http/Base.antt =====
-- ditto-python-client/src/ditto_client/http_client_base.py: the constructor with its TLS options.
pub mod Laws
use ditto_client.Prelude.{
  ℕ, Option, none, some, Bool, true, false, not, ◌&&◌, ◌||◌, List, [], ◌∷◌, ◌++◌, ◌==◌, ltb, leb,
  if◌then◌else◌, is_empty,
}
use ditto_client.Prelude.Int.{ℤ}
use ditto_client.Python.Text.{Str, Bytes, codes, strip}
use ditto_client.Python.Text.Compare.{text_eq, is_member, lower}
use ditto_client.Python.Decimal.{decimal}
use ditto_client.Python.Utf8.{encode_utf8, decode_utf8}
use ditto_client.Python.Json.Values.{Json, text, or_else, get_or_null, as_object, as_text}
use ditto_client.Python.Errors.{
  Result, ok, err, Exn, ErrorKind, known, other, ErrorCode, node_inactive, no_quorum, key_not_found,
  internal_error, write_timeout, value_too_large, key_limit_reached, rate_limited, circuit_open,
  namespace_quota_exceeded, auth_failed, unsupported_request, type_mismatch, overflow, http_error,
  insecure_tls, raise_if, ◌>>=◌, ◌>>◌,
}
use ditto_client.Python.Base64.{b64encode}

pub record Options : Type 0 where
  pub host : Str
  pub port : ℕ
  pub tls : Bool
  pub username : Option Str
  pub password : Option Str
  pub reject_unauthorized : Bool
  pub dev_insecure_tls : Bool
  pub trusted_cert_path : Option Str
  pub strict_mode : Bool

-- An `ssl.SSLContext`: whether it checks host names and certificates, and the file it was given.
pub record TlsContext : Type 0 where
  pub verifies : Bool
  pub ca_file : Option Str

pub record HttpClient : Type 0 where
  pub base_url : Str
  pub auth_header : Option Str
  pub ssl_ctx : Option TlsContext
  pub strict_mode : Bool

-- `os.getenv(GATE, "").strip().lower() in {"1", "true", "yes", "on"}`
unfoldable pub allow_insecure_tls_dev : Option Str → Bool
unfolding is_member lower strip
allow_insecure_tls_dev none = false
allow_insecure_tls_dev (some value) =
    is_member (lower (strip value)) (codes "1" ∷ codes "true" ∷ codes "yes" ∷ codes "on" ∷ [])

-- `if x and x.strip()`
abbrev pub given_path : Option Str → Option Str
given_path none = none
given_path (some path) = if is_empty (strip path) then none else some (strip path)

-- `username and password`, and the credentials; an empty text counts as none.
unfoldable pub basic_auth : Option Str → Option Str → Result (Option Str)
basic_auth (some (u ∷ us)) (some (p ∷ ps)) = do
  bytes ← encode_utf8 ((u ∷ us) ++ (b':' ∷ p ∷ ps))
  ok (some (codes "Basic " ++ b64encode bytes))
basic_auth _ _ = ok none

-- `ssl.create_default_context()`
abbrev pub default_context : TlsContext
default_context = record { verifies = true; ca_file = none }

-- One of the two options that turn verification off: it needs the gate.
unfoldable pub without_verification : Option Str → Bool → TlsContext → Result TlsContext
unfolding allow_insecure_tls_dev
without_verification gate false ctx = ok ctx
without_verification gate true ctx =
    if allow_insecure_tls_dev gate then ok (record ctx { verifies = false }) else err insecure_tls

-- `ctx.load_verify_locations(cafile=…)`, with the library's call as `load`.
unfoldable pub load_trusted :
    (Str → Result (Unit {0})) → Option Str → TlsContext → Result TlsContext
load_trusted load none ctx = ok ctx
load_trusted load (some path) ctx = do load path; ok (record ctx { ca_file = some path })

-- The block under `if tls:` of the constructor.
unfoldable pub verified_context :
    (Str → Result (Unit {0})) → Option Str → Options → Result (Option TlsContext)
unfolding without_verification load_trusted
verified_context load gate o = do
  ctx ← without_verification gate o.dev_insecure_tls default_context
  ctx' ← without_verification gate (not o.reject_unauthorized) ctx
  ctx'' ← load_trusted load (given_path o.trusted_cert_path) ctx'
  ok (some ctx'')

unfoldable pub tls_context :
    (Str → Result (Unit {0})) → Option Str → Options → Result (Option TlsContext)
unfolding verified_context
tls_context load gate o = elim o.tls [ false ↦ ok none | true ↦ verified_context load gate o ]

unfoldable pub init : (Str → Result (Unit {0})) → Option Str → Options → Result HttpClient
unfolding basic_auth tls_context
init load gate o = do
  auth ← basic_auth o.username o.password
  ctx ← tls_context load gate o
  ok (record {
    base_url =
        (if o.tls then codes "https" else codes "http")
        ++ codes "://"
        ++ o.host
        ++ (b':' ∷ decimal o.port);
    auth_header = auth;
    ssl_ctx = ctx;
    strict_mode = o.strict_mode;
  })
