-- ===== src/Tcp/Refines.antt =====
-- tcp_client.py over a server that keeps a store: what the client does, as functions on the store.
use ditto_client.Prelude.{
  ℕ, ◌+◌, ◌≤◌, ◌≡◌, refl, sym, ap, ◌∙◌, Option, some, Bool, true, false, [], ◌++◌, length,
  append-nil,
}
use ditto_client.Prelude.Int.{ℤ}
use ditto_client.Python.Text.{Str, Bytes, codes}
use ditto_client.Python.Errors.{Result, ok, err}
use ditto_client.Wire.Response.{ClientResponse}
use ditto_client.Wire.RoundTrip.Server.{server_frame, InRange}
use ditto_client.Tcp.Monad.{Net, done, State, Op}
use ditto_client.Tcp.Connection.{Config, receive}
use ditto_client.Tcp.Client.{
  watch, unwatch, watch_result, unwatch_result, Value, encode_with, request, ping, get, set, set_nx,
  incr, delete, delete_by_pattern, set_ttl_by_pattern, is_pong, get_result, set_result,
  set_nx_result, counter_result, delete_result, deleted_result, updated_result,
}
use ditto_client.Validation.{validate_core_inputs, validate_pattern_inputs}
use ditto_client.Wire.Requests.{
  encode_watch, encode_unwatch, encode_ping, encode_get, encode_set, encode_set_nx, encode_incr,
  encode_delete, encode_delete_by_pattern, encode_set_ttl_by_pattern,
}
use ditto_client.Tcp.Frames.{IsStream}
use ditto_client.Tcp.Exchange.{sent, request-run, receive-server_frame}
use ditto_client.Tcp.Keeps.{receive-Keeps}

-- The checks of a key and of a pattern.
abbrev pub valid_key : Config → Str → Str → Option Str → Result (Unit {0})
valid_key config op key namespace = validate_core_inputs config.strict_mode op (some key) namespace

abbrev pub valid_glob : Config → Str → Str → Option Str → Result (Unit {0})
valid_glob config op glob namespace =
    validate_pattern_inputs config.strict_mode op (some glob) namespace

-- An operation on the store of a server.
abbrev pub OnStore : Type 0 → Type 0 → Type 0
OnStore S A = S → Result A × S

-- A server behind a network: it takes every request, answers it from its store with a response that fits
-- the protocol and the limit, and changes the store only then.
pub record Serves {W S : Type 0} (net : Net W) (config : Config)
    (serve : Bytes → S → ClientResponse × S) : Type 0 where
  pub pending : W → Bytes
  pub store : W → S
  pub stream : IsStream net pending
  pub takes : (sock : ℕ) (frame : Bytes) (w : W) → (net.sendall sock frame w).0 ≡ done tt
  pub stores :
      (sock : ℕ) (frame : Bytes) (w : W)
      → store (net.sendall sock frame w).1 ≡ (serve frame (store w)).1
  pub answers :
      (sock : ℕ) (frame : Bytes) (w : W)
      → (reply : Bytes) × (server_frame (serve frame (store w)).0 ≡ ok reply)
        × InRange (serve frame (store w)).0
        × (length reply ≤ 4 + config.max_frame_bytes)
        × (pending (net.sendall sock frame w).1 ≡ pending w ++ reply)
  pub receives : (sock n : ℕ) (w : W) → store (net.recv sock n w).1 ≡ store w

-- What an operation with these inputs does to the store: nothing if they are refused, and otherwise what
-- the server makes of the request.
abbrev pub ask :
    {S A : Type 0}
    → (Bytes → S → ClientResponse × S)
    → Result (Unit {0})
    → Result Bytes
    → (ClientResponse → Result A)
    → OnStore S A
ask serve (err e) encoded result store = (err e, store)
ask serve (ok u) (err e) result store = (err e, store)
ask serve (ok u) (ok frame) result store = (result (serve frame store).0, (serve frame store).1)

module _ {W S : Type 0} (net : Net W) (config : Config) (serve : Bytes → S → ClientResponse × S)
    (server : Serves net config serve) where
  -- A client that is connected, with no byte pending.
  abbrev pub Idle : State W → Type 0
  Idle s = ((sock : ℕ) × (s.sock ≡ some sock)) × (server.pending s.world ≡ [])

  -- From every idle state, the client's operation does what the operation on the store does, and leaves
  -- the client idle.
  pub record Refines {A : Type 0} (m : Op W A) (a : OnStore S A) : Type 0 where
    pub refines :
        (s : State W)
        → Idle s
        → ((m s).0 ≡ (a (server.store s.world)).0)
          × (server.store (m s).1.world ≡ (a (server.store s.world)).1)
          × Idle (m s).1

  -- Receiving leaves the store as it is.
  receive-store : (s : State W) → server.store (receive net config s).1.world ≡ server.store s.world
  receive-store s =
      (receive-Keeps (λ w. server.store w ≡ server.store s.world) net config
          (λ sock n w h. server.receives sock n w ∙ h)).keeps
        s refl

  -- A request with valid inputs.
  asked :
      {A : Type 0} (retry_safe : Bool) (frame : Bytes) (result : ClientResponse → Result A)
      (sock : ℕ) (s : State W)
      → s.sock ≡ some sock
      → server.pending s.world ≡ []
      → ((request net config retry_safe (ok tt) (ok frame) result s).0
          ≡ result (serve frame (server.store s.world)).0)
        × (server.store (request net config retry_safe (ok tt) (ok frame) result s).1.world
            ≡ (serve frame (server.store s.world)).1)
        × Idle (request net config retry_safe (ok tt) (ok frame) result s).1
  asked retry_safe frame result sock s connected idle =
      let (reply, framed, range, small, arrives) = server.answers sock frame s.world in
      let response = (serve frame (server.store s.world)).0 in
      let next = arrives ∙ ap (λ bytes. bytes ++ reply) idle ∙ sym (append-nil reply) in
      let there = sent net config server.pending server.stream sock frame s in
      let (r, p, k) =
        receive-server_frame net config server.pending server.stream sock response reply [] there
          connected range framed small next in
      let run =
        request-run net config server.pending server.stream retry_safe (ok tt) (ok frame) result
          sock frame response s refl refl connected (server.takes sock frame s.world) r in
      rw run (refl, receive-store there ∙ server.stores sock frame s.world, ((sock, k), p))

  pub request-Refines :
      {A : Type 0} (retry_safe : Bool) (valid : Result (Unit {0})) (encoded : Result Bytes)
      (result : ClientResponse → Result A)
      → Refines
          (request net config retry_safe valid encoded result)
          (ask serve valid encoded result)
  request-Refines retry_safe (err e) encoded result = record {
    refines = λ s idle. unfold request in (refl, refl, idle);
  }
  request-Refines retry_safe (ok u) (err e) result = record {
    refines = λ s idle. unfold request in (refl, refl, idle);
  }
  request-Refines retry_safe (ok u) (ok frame) result = record {
    refines = λ s ((sock, connected), idle). asked retry_safe frame result sock s connected idle;
  }

  -- Connected to a server that answers from a store, with no byte pending: each operation that makes a
  -- request returns or raises what it makes of the server's answer to it, leaves the store as the server
  -- does, or as it was if the inputs are refused, and leaves the client connected with no byte pending.
  pub operations-Refines :
      (key glob : Str) (value : Value) (delta ttl_secs : ℤ) (namespace : Option Str)
      → Refines (ping net config) (ask serve (ok tt) encode_ping (λ resp. ok (is_pong resp)))
        × Refines (get net config key namespace) (
            ask serve
              (valid_key config (codes "get") key namespace)
              (encode_get key namespace)
              get_result)
        × Refines (set net config key value ttl_secs namespace) (
            ask serve
              (valid_key config (codes "set") key namespace)
              (encode_with encode_set key value ttl_secs namespace)
              set_result)
        × Refines (set_nx net config key value ttl_secs namespace) (
            ask serve
              (valid_key config (codes "set") key namespace)
              (encode_with encode_set_nx key value ttl_secs namespace)
              set_nx_result)
        × Refines (incr net config key delta ttl_secs namespace) (
            ask serve
              (valid_key config (codes "set") key namespace)
              (encode_incr key delta ttl_secs namespace)
              counter_result)
        × Refines (delete net config key namespace) (
            ask serve
              (valid_key config (codes "delete") key namespace)
              (encode_delete key namespace)
              delete_result)
        × Refines (delete_by_pattern net config glob namespace) (
            ask serve
              (valid_glob config (codes "delete_by_pattern") glob namespace)
              (encode_delete_by_pattern glob namespace)
              deleted_result)
        × Refines (set_ttl_by_pattern net config glob ttl_secs namespace) (
            ask serve
              (valid_glob config (codes "set_ttl_by_pattern") glob namespace)
              (encode_set_ttl_by_pattern glob ttl_secs namespace)
              updated_result)
        × Refines (watch net config key namespace) (
            ask serve
              (valid_key config (codes "watch") key namespace)
              (encode_watch key namespace)
              watch_result)
        × Refines (unwatch net config key namespace) (
            ask serve
              (valid_key config (codes "unwatch") key namespace)
              (encode_unwatch key namespace)
              unwatch_result)
  unfolding ping get set set_nx incr delete delete_by_pattern set_ttl_by_pattern watch unwatch
  operations-Refines key glob value delta ttl_secs namespace = (
    request-Refines true _ _ _,
    request-Refines true _ _ _,
    request-Refines false _ _ _,
    request-Refines false _ _ _,
    request-Refines false _ _ _,
    request-Refines false _ _ _,
    request-Refines false _ _ _,
    request-Refines false _ _ _,
    request-Refines false _ _ _,
    request-Refines false _ _ _,
  )
