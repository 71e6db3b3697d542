-- ===== src/Http/Base/Laws.antt =====
-- When the constructor of the HTTP client turns certificate checks off.
use ditto_client.Prelude.{
  ◌≡◌, refl, sym, ◌⊎◌, [], ◌∷◌, is_empty, if◌then◌else◌, ap, ◌∙◌, Option, none, some, Bool, true,
  false, not, ◌&&◌, ◌||◌, arith, Bool-cases, inl, inr,
}
use ditto_client.Python.Text.{Str, codes, strip}
use ditto_client.Python.Text.Compare.{is_member, text_eq_iff, lower}
use ditto_client.Python.Errors.{Result, ok, >>=-eq-ok, ok-injective}
use ditto_client.Http.Base.{
  Options, TlsContext, HttpClient, allow_insecure_tls_dev, default_context, without_verification,
  load_trusted, given_path, tls_context, verified_context, basic_auth, init,
}

-- One of the two options asks for no checks.
abbrev pub asks_insecure : Options → Bool
asks_insecure o = o.dev_insecure_tls || not o.reject_unauthorized

-- The environment variable is set, to one of four words once it is stripped and in lower case.
abbrev pub IsYes : Str → Type 0
IsYes s = (s ≡ codes "1") ⊎ (s ≡ codes "true") ⊎ (s ≡ codes "yes") ⊎ (s ≡ codes "on")

abbrev pub GateIsOpen : Option Str → Type 0
GateIsOpen none = ⊥
GateIsOpen (some value) = IsYes (lower (strip value))

-- The path without the spaces around it, if anything is left of it.
abbrev pub expected_file : Option Str → Option Str
expected_file none = none
expected_file (some path) = elim (strip path) [ [] ↦ none | c ∷ rest ↦ some (c ∷ rest) ]

-- The library has loaded the file, if there is one.
abbrev pub IsLoaded : (Str → Result (Unit {0})) → Option Str → Type 0
IsLoaded load none = Unit {0}
IsLoaded load (some path) = load path ≡ ok tt

-- The context that the options ask for, with the gate open if it has no checks.
abbrev pub TlsMatches :
    (Str → Result (Unit {0})) → Option Str → Options → Option TlsContext → Type 0
TlsMatches load gate o none = o.tls ≡ false
TlsMatches load gate o (some ctx) =
    (o.tls ≡ true)
    × (ctx.verifies ≡ not (asks_insecure o))
    × (ctx.ca_file ≡ expected_file o.trusted_cert_path)
    × IsLoaded load (expected_file o.trusted_cert_path)
    × (asks_insecure o ≡ true → GateIsOpen gate)

yes_lem :
    (s : Str)
    → is_member s (codes "1" ∷ codes "true" ∷ codes "yes" ∷ codes "on" ∷ []) ≡ true
    → IsYes s
unfolding is_member
yes_lem s h = ground (
  arith,
  text_eq_iff s (codes "1"),
  text_eq_iff s (codes "true"),
  text_eq_iff s (codes "yes"),
  text_eq_iff s (codes "on"),
)

allow_insecure_tls_dev_lem :
    (gate : Option Str) → allow_insecure_tls_dev gate ≡ true → GateIsOpen gate
unfolding allow_insecure_tls_dev
allow_insecure_tls_dev_lem none h = ground arith
allow_insecure_tls_dev_lem (some value) h = yes_lem (lower (strip value)) h

given_path_lem : (path : Option Str) → given_path path ≡ expected_file path
given_path_lem none = refl
given_path_lem (some path) = same (strip path)
  where
    same :
        (s : Str)
        → (if is_empty s then none else some s)
          ≡ (elim s [ [] ↦ none | c ∷ rest ↦ some (c ∷ rest) ])
    same [] = refl
    same (c ∷ rest) = refl

without_verification_lem :
    (gate : Option Str) (asked : Bool) (ctx ctx' : TlsContext)
    → without_verification gate asked ctx ≡ ok ctx'
    → (ctx'.verifies ≡ (ctx.verifies && not asked))
      × (ctx'.ca_file ≡ ctx.ca_file)
      × (asked ≡ true → allow_insecure_tls_dev gate ≡ true)
unfolding without_verification
without_verification_lem gate asked ctx ctx' h = ground arith

load_trusted_lem :
    (load : Str → Result (Unit {0})) (path : Option Str) (ctx ctx' : TlsContext)
    → ctx.ca_file ≡ none
    → load_trusted load path ctx ≡ ok ctx'
    → (ctx'.verifies ≡ ctx.verifies) × (ctx'.ca_file ≡ path) × IsLoaded load path
unfolding load_trusted
load_trusted_lem load none ctx ctx' fresh h =
    let same = ok-injective h in
    (ap (λ c. c.verifies) (sym same), ap (λ c. c.ca_file) (sym same) ∙ fresh, tt)
load_trusted_lem load (some path) ctx ctx' fresh h =
    let (u, loaded, returned) =
      >>=-eq-ok (load path) (λ _. ok (record ctx { ca_file = some path })) h in
    let same = ok-injective returned in
    (ap (λ c. c.verifies) (sym same), ap (λ c. c.ca_file) (sym same), loaded)

neither_lem : (a b x y z : Bool) → x ≡ (true && not a) → y ≡ (x && not b) → z ≡ y → z ≡ not (a || b)
neither_lem a b x y z p q r = ground arith

either_lem :
    (a b gate : Bool)
    → (a ≡ true → gate ≡ true)
    → (b ≡ true → gate ≡ true)
    → (a || b) ≡ true
    → gate ≡ true
either_lem a b gate p q asked = ground arith

verified_context_lem :
    (load : Str → Result (Unit {0})) (gate : Option Str) (o : Options) (made : Option TlsContext)
    → o.tls ≡ true
    → verified_context load gate o ≡ ok made
    → TlsMatches load gate o made
unfolding verified_context
verified_context_lem load gate o made on h =
    let (ctx, h0, rest) =
      >>=-eq-ok (without_verification gate o.dev_insecure_tls default_context) _ h in
    let (ctx', h1, rest') =
      >>=-eq-ok (without_verification gate (not o.reject_unauthorized) ctx) _ rest in
    let (ctx'', h2, same) =
      >>=-eq-ok (load_trusted load (given_path o.trusted_cert_path) ctx') _ rest' in
    let (verifies, no_file, asked) =
      without_verification_lem gate o.dev_insecure_tls default_context ctx h0 in
    let (verifies', same_file, asked') =
      without_verification_lem gate (not o.reject_unauthorized) ctx ctx' h1 in
    let (verifies'', file, loaded) =
      load_trusted_lem load (given_path o.trusted_cert_path) ctx' ctx'' (same_file ∙ no_file) h2 in
    let same_path = given_path_lem o.trusted_cert_path in
    rw (sym (ok-injective same)) (
      on,
      neither_lem o.dev_insecure_tls (not o.reject_unauthorized) ctx.verifies ctx'.verifies
          ctx''.verifies verifies verifies' verifies'',
      file ∙ same_path,
      rw same_path at loaded,
      (λ insecure. allow_insecure_tls_dev_lem gate (
          either_lem o.dev_insecure_tls (not o.reject_unauthorized) (allow_insecure_tls_dev gate)
            asked asked' insecure)),
    )

tls_context_lem :
    (load : Str → Result (Unit {0})) (gate : Option Str) (o : Options) (made : Option TlsContext)
    → tls_context load gate o ≡ ok made
    → TlsMatches load gate o made
unfolding tls_context
tls_context_lem load gate o made h = elim (Bool-cases o.tls) [
  | inl on ↦ verified_context_lem load gate o made on (rw on at h)
  | inr off ↦ rw (sym (ok-injective (rw off at h))) off
]

-- If the constructor returns, there is no TLS context exactly without `tls`; a context checks the server
-- exactly if neither option asks it not to. Its file of certificates is the given path without the
-- spaces around it, if anything is left of it, and the library loaded that file. If an option asks for
-- no checks, the environment variable is set, and once stripped and in lower case it is `1`, `true`,
-- `yes` or `on`.
pub init-TlsMatches :
    (load : Str → Result (Unit {0})) (gate : Option Str) (o : Options) (client : HttpClient)
    → init load gate o ≡ ok client
    → TlsMatches load gate o client.ssl_ctx
unfolding init
init-TlsMatches load gate o client h =
    let (auth, h0, rest) = >>=-eq-ok (basic_auth o.username o.password) _ h in
    let (made, h1, same) = >>=-eq-ok (tls_context load gate o) _ rest in
    rw (ap (λ c. c.ssl_ctx) (sym (ok-injective same))) (tls_context_lem load gate o made h1)
