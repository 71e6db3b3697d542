-- ===== src/Scripts/Security.antt =====
-- scripts/validate_client_security_policy.py, over the files of Scripts.Release.
pub mod Laws
use ditto_client.Prelude.{Bool, true, false, List, [], ◌∷◌}
use ditto_client.Python.Text.{Str, codes, contains}
use ditto_client.Python.Json.Values.{Json, boolean}
use ditto_client.Python.Json.Access.{get_method}
use ditto_client.Python.Errors.{Result, ok, err, ◌>>=◌, ◌>>◌}
use ditto_client.Scripts.Release.{Repo, require, is_equal, get_table}

-- REQUIRED_INSECURE_TLS_POLICY
abbrev pub required_policy : List (Str × Str)
required_policy =
    (codes "nodejs", codes "rejected")
    ∷ (codes "java", codes "rejected")
    ∷ (codes "go", codes "env-gated-dev-only")
    ∷ (codes "python", codes "env-gated-dev-only")
    ∷ (codes "rust", codes "env-gated-dev-only")
    ∷ []

abbrev pub gate : Str
gate = codes "DITTO_CLIENT_ALLOW_INSECURE_TLS_DEV"

abbrev pub no_longer_supported : Str
no_longer_supported = codes "devInsecureTls(true) is insecure and is no longer supported"

-- The files and the text that each must contain.
abbrev pub markers : List (Str × Str)
markers =
    (codes "ditto-nodejs-client/src/http-client-base.ts", no_longer_supported)
    ∷ (
      codes "ditto-java-client/src/main/java/io/ditto/client/DittoHttpClientBase.java",
      no_longer_supported,
    )
    ∷ (codes "ditto-go-client/http_client.go", gate)
    ∷ (codes "ditto-python-client/src/ditto_client/http_client_base.py", gate)
    ∷ (codes "ditto-rust-client/src/http_client.rs", gate)
    ∷ (
      codes "README.md",
      codes "Production clients should use HTTPS with certificate verification enabled",
    )
    ∷ (codes "README.md", codes "Raw TCP does not encrypt tokens or cache payloads")
    ∷ []

-- `x is True`
abbrev pub is_the_true : Json → Bool
is_the_true (boolean b) = b
is_the_true _ = false

-- `for sdk, expected in REQUIRED_INSECURE_TLS_POLICY.items()`
unfoldable pub check_policy : Json → List (Str × Str) → Result (Unit {0})
unfolding get_method
check_policy insecure_tls [] = ok tt
check_policy insecure_tls ((sdk, expected) ∷ rest) = do
  actual ← get_method sdk insecure_tls
  require (is_equal actual expected)
  check_policy insecure_tls rest

module _ (repo : Repo) where
  -- `require_contains`, for one file after the other
  unfoldable pub require_contains : List (Str × Str) → Result (Unit {0})
  unfolding contains
  require_contains [] = ok tt
  require_contains ((path, needle) ∷ rest) = do
    contents ← repo.read_text path
    require (contains contents needle)
    require_contains rest

  -- The rules on the tables of the policy, and the markers behind them.
  unfoldable pub check_tables :
      Json → Json → List (Str × Str) → List (Str × Str) → Result (Unit {0})
  unfolding get_method check_policy require_contains
  check_tables production insecure_tls policies needles = do
    recommended ← get_method (codes "strict_mode_recommended") production
    require (is_the_true recommended)
    verified ← get_method (codes "http_tls_verification_required") production
    require (is_the_true verified)
    plaintext ← get_method (codes "tcp_plaintext_remote_policy") production
    require (is_equal plaintext (codes "loopback-private-or-encrypted-underlay-only"))
    check_policy insecure_tls policies
    require_contains needles

  -- The script; it raises or returns 0.
  unfoldable pub main : Result (Unit {0})
  unfolding get_table check_tables
  main = do
    manifest ← repo.load_json (codes "release-manifest.json")
    policy ← get_table (codes "security_policy") manifest
    production ← get_table (codes "production") policy
    insecure_tls ← get_table (codes "insecure_tls") policy
    check_tables production insecure_tls required_policy markers
