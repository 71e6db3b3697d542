-- ===== src/Http/Client/Strict.antt =====
-- Strict mode in http_client.py: what is refused is refused before any request.
use ditto_client.Prelude.{◌≡◌, refl, Option, some, true}
use ditto_client.Prelude.Int.{ℤ}
use ditto_client.Python.Text.{Str, codes}
use ditto_client.Python.Errors.{Result, ok, err, Exn}
use ditto_client.Validation.Laws.{
  KeyIsValid, PatternIsValid, NamespaceIsValid, core-refused, glob-refused,
}
use ditto_client.Tcp.Client.{Value}
use ditto_client.Http.Base.{HttpClient}
use ditto_client.Http.Transport.{Library, Web, Call, lift, ◌>>=◌}
use ditto_client.Http.Client.{get, set, set_nx, incr, delete, delete_by_pattern, set_ttl_by_pattern}

-- From every state, the operation raises, and makes no request.
pub record Refuses {W A : Type 0} (m : Call W A) : Type 0 where
  pub raises : (s : Web W) → (e : Exn) × (m s ≡ (err e, s))

checked-Refuses :
    {W A : Type 0} (valid : Result (Unit {0})) (f : Unit {0} → Call W A)
    → ¬ (valid ≡ ok tt)
    → Refuses (lift valid >>= f)
checked-Refuses (ok u) f h = absurd (h refl)
checked-Refuses (err e) f h = record { raises = λ s. (e, refl) }

module _ {W : Type 0} (lib : Library W) (client : HttpClient) where
  -- In strict mode, if the key is not one of token characters, or the namespace is not valid, each
  -- operation on a key raises and makes no request.
  pub http_keyed-Refuses :
      (key plain : Str) (value : Value) (delta ttl_secs : ℤ) (namespace : Option Str)
      → client.strict_mode ≡ true
      → ¬ (KeyIsValid (some key) × NamespaceIsValid namespace)
      → Refuses (get lib client key namespace)
        × Refuses (set lib client key plain ttl_secs namespace)
        × Refuses (set_nx lib client key value ttl_secs namespace)
        × Refuses (incr lib client key delta ttl_secs namespace)
        × Refuses (delete lib client key namespace)
  unfolding get set set_nx incr delete
  http_keyed-Refuses key plain value delta ttl_secs namespace strict bad =
      let refused = λ (op : Str). core-refused client.strict_mode op key namespace strict bad in
      (
        checked-Refuses _ _ (refused (codes "get")),
        checked-Refuses _ _ (refused (codes "set")),
        checked-Refuses _ _ (refused (codes "set")),
        checked-Refuses _ _ (refused (codes "set")),
        checked-Refuses _ _ (refused (codes "delete")),
      )

  -- In strict mode, if the stripped pattern is not one of pattern characters, or the namespace is not
  -- valid, each operation on a pattern raises and makes no request.
  pub http_globs-Refuses :
      (glob : Str) (ttl_secs : ℤ) (namespace : Option Str)
      → client.strict_mode ≡ true
      → ¬ (PatternIsValid (some glob) × NamespaceIsValid namespace)
      → Refuses (delete_by_pattern lib client glob namespace)
        × Refuses (set_ttl_by_pattern lib client glob ttl_secs namespace)
  unfolding delete_by_pattern set_ttl_by_pattern
  http_globs-Refuses glob ttl_secs namespace strict bad = (
    checked-Refuses _ _
        (glob-refused client.strict_mode (codes "delete_by_pattern") glob namespace strict bad),
    checked-Refuses _ _
        (glob-refused client.strict_mode (codes "set_ttl_by_pattern") glob namespace strict bad),
  )
