-- ===== src/Tcp/Strict.antt =====
-- Strict mode in tcp_client.py: what is refused is refused before anything is sent.
use ditto_client.Prelude.{◌≡◌, refl, Option, some, Bool, true, false}
use ditto_client.Prelude.Int.{ℤ}
use ditto_client.Python.Text.{Str, Bytes, codes}
use ditto_client.Python.Errors.{Result, ok, err, Exn}
use ditto_client.Wire.Response.{ClientResponse}
use ditto_client.Validation.Laws.{
  KeyIsValid, PatternIsValid, NamespaceIsValid, core-refused, glob-refused,
}
use ditto_client.Tcp.Monad.{Net, State, Op}
use ditto_client.Tcp.Connection.{Config}
use ditto_client.Tcp.Client.{
  Value, request, get, set, set_nx, incr, delete, delete_by_pattern, set_ttl_by_pattern, watch,
  unwatch,
}

module _ {W : Type 0} (net : Net W) (config : Config) where
  -- An operation that raised, and left the client and the world as they were.
  abbrev pub Refused : {A : Type 0} → Op W A → State W → Type 0
  Refused m s = (e : Exn) × (m s ≡ (err e, s))

  request-Refused :
      {A : Type 0} (retry_safe : Bool) (valid : Result (Unit {0})) (encoded : Result Bytes)
      (result : ClientResponse → Result A) (s : State W)
      → ¬ (valid ≡ ok tt)
      → Refused (request net config retry_safe valid encoded result) s
  unfolding request
  request-Refused retry_safe (ok u) encoded result s h = absurd (h refl)
  request-Refused retry_safe (err e) encoded result s h = (e, refl)

  -- In strict mode, if the key is not one of token characters, or the namespace is not valid, each
  -- operation on a key raises, and makes no call to the network: the client and the world stay as they are.
  pub keyed-Refused :
      (key : Str) (value : Value) (number ttl_secs : ℤ) (namespace : Option Str) (s : State W)
      → config.strict_mode ≡ true
      → ¬ (KeyIsValid (some key) × NamespaceIsValid namespace)
      → Refused (get net config key namespace) s
        × Refused (set net config key value ttl_secs namespace) s
        × Refused (set_nx net config key value ttl_secs namespace) s
        × Refused (incr net config key number ttl_secs namespace) s
        × Refused (delete net config key namespace) s
        × Refused (watch net config key namespace) s
        × Refused (unwatch net config key namespace) s
  unfolding get set set_nx incr delete watch unwatch
  keyed-Refused key value number ttl_secs namespace s strict bad =
      let refused = λ (op : Str). core-refused config.strict_mode op key namespace strict bad in
      (
        request-Refused true _ _ _ s (refused (codes "get")),
        request-Refused false _ _ _ s (refused (codes "set")),
        request-Refused false _ _ _ s (refused (codes "set")),
        request-Refused false _ _ _ s (refused (codes "set")),
        request-Refused false _ _ _ s (refused (codes "delete")),
        request-Refused false _ _ _ s (refused (codes "watch")),
        request-Refused false _ _ _ s (refused (codes "unwatch")),
      )

  -- In strict mode, if the stripped pattern is not one of pattern characters, or the namespace is not
  -- valid, each operation on a pattern raises, and makes no call to the network: the client and the world
  -- stay as they are.
  pub globs-Refused :
      (glob : Str) (ttl_secs : ℤ) (namespace : Option Str) (s : State W)
      → config.strict_mode ≡ true
      → ¬ (PatternIsValid (some glob) × NamespaceIsValid namespace)
      → Refused (delete_by_pattern net config glob namespace) s
        × Refused (set_ttl_by_pattern net config glob ttl_secs namespace) s
  unfolding delete_by_pattern set_ttl_by_pattern
  globs-Refused glob ttl_secs namespace s strict bad = (
    request-Refused false _ _ _ s
        (glob-refused config.strict_mode (codes "delete_by_pattern") glob namespace strict bad),
    request-Refused false _ _ _ s
        (glob-refused config.strict_mode (codes "set_ttl_by_pattern") glob namespace strict bad),
  )
