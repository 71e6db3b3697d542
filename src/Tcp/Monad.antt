-- ===== src/Tcp/Monad.antt =====
-- The state of `DittoTcpClient` and the calls of the socket library. The library is a parameter: a
-- record of the calls that the client makes, over a state of the outside world of its own. Each call
-- returns or raises an OSError. The client's trace has every call that it made, the newest first.
use ditto_client.Prelude.{ℕ, Option, Bool, true, false, List, ◌∷◌, ◌≡◌, refl, ap, arith}
use ditto_client.Python.Text.{Str, Bytes}
use ditto_client.Python.Errors.{Result, ok, err, Exn, Errno, os_error}

pub data Call (A : Type 0) : Type 0 where
  done : A → Call A
  failed : Errno → Call A

-- What `context.load_verify_locations` is given: `cadata=` or `cafile=`.
pub data CaCert : Type 0 where
  cadata cafile : Str → CaCert

-- The calls on `socket` and `ssl`; a socket is a number that names it.
pub record Net (W : Type 0) : Type 0 where
  -- socket.create_connection((host, port), timeout), with the options set after it
  pub create_connection : Str → ℕ → W → Call ℕ × W
  -- context.load_verify_locations
  pub load_verify_locations : CaCert → W → Call Unit × W
  -- context.wrap_socket(sock, server_hostname)
  pub wrap_socket : ℕ → Str → W → Call ℕ × W
  -- sock.sendall(frame)
  pub sendall : ℕ → Bytes → W → Call Unit × W
  -- sock.recv(n)
  pub recv : ℕ → ℕ → W → Call Bytes × W
  -- sock.shutdown(SHUT_RDWR)
  pub shutdown : ℕ → W → Call Unit × W
  -- sock.close()
  pub close : ℕ → W → Call Unit × W

pub data Action : Type 0 where
  connecting : Action
  loading wrapping closing : Action
  sending : Bytes → Action
  receiving : ℕ → Action

-- `self._sock`, the trace and the world.
pub record State (W : Type 0) : Type 0 where
  pub sock : Option ℕ
  pub trace : List Action
  pub world : W

abbrev pub Op : Type 0 → Type 0 → Type 0
Op W A = State W → Result A × State W

abbrev pub from_call : {A : Type 0} → Call A → Result A
from_call (done a) = ok a
from_call (failed e) = err (os_error e)

module _ {W A : Type 0} where
  abbrev pub pure : A → Op W A
  pure a s = (ok a, s)

  abbrev pub raise : Exn → Op W A
  raise e s = (err e, s)

  abbrev pub lift : Result A → Op W A
  lift r s = (r, s)

  -- A call of the library, recorded in the trace.
  abbrev pub perform : Action → (W → Call A × W) → Op W A
  perform action f s =
      let (r, w) = f s.world in
      (from_call r, record { sock = s.sock; trace = action ∷ s.trace; world = w })

  -- `try: m` / `except Exception as e: handler(e)`
  abbrev pub try_except : Op W A → (Exn → Op W A) → Op W A
  try_except m handler s = let (r, s') = m s in elim r [ ok a ↦ (ok a, s') | err e ↦ handler e s' ]

module _ {W : Type 0} where
  abbrev pub get_sock : Op W (Option ℕ)
  get_sock s = (ok s.sock, s)

  abbrev pub put_sock : Option ℕ → Op W Unit
  put_sock sock s = (ok tt, record { sock = sock; trace = s.trace; world = s.world })

  -- The guard `if test: raise e`.
  abbrev pub raise_when : Bool → Exn → Op W Unit
  raise_when true e = raise e
  raise_when false e = pure tt

infixl 5 ◌>>=◌ ◌>>◌
abbrev pub ◌>>=◌ : {W A B : Type 0} → Op W A → (A → Op W B) → Op W B
◌>>=◌ m f s = let (r, s') = m s in elim r [ ok a ↦ f a s' | err e ↦ (err e, s') ]

abbrev pub ◌>>◌ : {W B : Type 0} → Op W Unit → Op W B → Op W B
m >> k = m >>= λ _. k

-- A statement that returned, or raised, decides what its block does.
pub >>=-ok :
    {W A B : Type 0} (m : Op W A) (f : A → Op W B) {a : A} {s s' : State W}
    → m s ≡ (ok a, s')
    → (m >>= f) s ≡ f a s'
>>=-ok {W} {A} {B} m f h =
    ap (λ x. elim x.0 as (λ _. Result B × State W) [ ok a ↦ f a x.1 | err e ↦ (err e, x.1) ]) h

pub >>=-err :
    {W A B : Type 0} (m : Op W A) (f : A → Op W B) {e : Exn} {s s' : State W}
    → m s ≡ (err e, s')
    → (m >>= f) s ≡ (err e, s')
>>=-err {W} {A} {B} m f h =
    ap (λ x. elim x.0 as (λ _. Result B × State W) [ ok a ↦ f a x.1 | err e ↦ (err e, x.1) ]) h

pub raise_when-false :
    {W : Type 0} (test : Bool) (e : Exn) (s : State W)
    → test ≡ false
    → raise_when test e s ≡ (ok tt, s)
raise_when-false false e s h = refl
raise_when-false true e s h = ground arith
