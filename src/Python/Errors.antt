-- ===== src/Python/Errors.antt =====
-- Every exception that the modelled code raises, and a call that returns or raises.
-- Sources: ditto-python-client/src/ditto_client/types.py (DittoErrorCode, DittoError), and the
-- `raise` statements of wire.py, validation.py, tcp_client.py and client_internal.py.
use ditto_client.Prelude.{ℕ, ◌≡◌, refl, Bool, true, false, Option}
use ditto_client.Python.Text.{Str}
use ditto_client.Python.Json.Values.{Json}

pub data ErrorCode : Type 0 where
  node_inactive no_quorum key_not_found internal_error write_timeout value_too_large : ErrorCode
  key_limit_reached rate_limited circuit_open namespace_quota_exceeded auth_failed : ErrorCode
  unsupported_request type_mismatch overflow : ErrorCode

-- What a strict-mode check found wrong; the messages of validation.py.
pub data InputFault : Type 0 where
  key_empty key_chars pattern_empty pattern_chars : InputFault
  namespace_blank namespace_double_colon namespace_chars : InputFault

-- The message of a `DittoError`: a text, or `str(resp)` of the decoded `_Error` tuple.
pub data Message : Type 0 where
  text : Str → Message
  repr : ErrorCode → Str → Message

-- The errno of an `OSError`, as far as the client tells them apart.
pub data Errno : Type 0 where
  enotconn ebadf einval timed_out other_errno : Errno

-- `DittoErrorCode | str`
pub data ErrorKind : Type 0 where
  known : ErrorCode → ErrorKind
  other : Str → ErrorKind

pub data Exn : Type 0 where
  negative_varint varint_too_long truncated_varint truncated_field : Exn
  unsupported_wire unsupported_version : ℕ → Exn
  missing_response missing_request no_response_field no_request_field : Exn
  unicode_encode unicode_decode struct_error index_error : Exn
  -- ValueError(f"Invalid {op} request: ..."); no operation is named by `normalized_namespace`
  invalid : Option Str → InputFault → Exn
  -- RuntimeError("Not connected. Call connect() first.")
  not_connected : Exn
  -- AssertionError of `assert self._sock is not None`
  assertion_failed : Exn
  -- RuntimeError(f"Unexpected response: {resp.type}"), and the same of the auth response
  unexpected_response unexpected_auth_response : Exn
  -- ConnectionError: outcome unknown, closed by the server, incoming frame too large
  outcome_unknown closed_by_server : Exn
  frame_too_large : ℕ → ℕ → Exn
  os_error : Errno → Exn
  ditto_error : ErrorCode → Message → Exn
  -- A DittoError of the HTTP client: its code may be a text that is no DittoErrorCode, and its message
  -- is what the payload holds.
  http_error : ErrorKind → Json → Exn
  -- ValueError of the constructor, and of a reply that is no JSON
  insecure_tls json_decode_error : Exn
  -- a dictionary without the key, a method that the value lacks, a value of the wrong type
  key_error attribute_error type_error : Exn
  -- SystemExit(1), of a script's `fail`
  system_exit : Exn
  -- urllib.error.URLError
  url_error : Exn
  -- No Python exception: a modelled loop ran out of fuel.
  out_of_fuel : Exn

-- `except (OSError, ConnectionError)`: a ConnectionError is an OSError.
abbrev pub is_os_error : Exn → Bool
is_os_error outcome_unknown = true
is_os_error closed_by_server = true
is_os_error (frame_too_large n m) = true
is_os_error (os_error e) = true
is_os_error _ = false

pub data Result {ℓ} (A : Type ℓ) : Type ℓ where
  ok : A → Result A
  err : Exn → Result A

-- `raise_if test e`: the guard `if test: raise e`.
abbrev pub raise_if : Bool → Exn → Result (Unit {0})
raise_if true e = err e
raise_if false e = ok tt

-- One statement after the other: the first exception ends the block.
infixl 5 ◌>>=◌
abbrev pub ◌>>=◌ {κ μ} : {S : Type κ} {T : Type μ} → Result S → (S → Result T) → Result T
err raised >>= next = err raised
ok returned >>= next = next returned

infixl 5 ◌>>◌
abbrev pub ◌>>◌ {κ} : {T : Type κ} → Result (Unit {0}) → Result T → Result T
statement >> block = statement >>= λ _. block

pub >>=-eq-ok {κ μ} :
    {S : Type κ} {T : Type μ} (first : Result S) (next : S → Result T) {outcome : T}
    → (first >>= next) ≡ ok outcome
    → (returned : S) × (first ≡ ok returned) × (next returned ≡ ok outcome)
>>=-eq-ok (err raised) next ended = cc
>>=-eq-ok (ok returned) next ended = (returned, refl, ended)

pub ok-injective {ℓ} : {A : Type ℓ} {a b : A} → Result.ok a ≡ ok b → a ≡ b
ok-injective e = cc

-- A result that Python can have here: no loop ran out of fuel, and no index was out of range.
abbrev pub Ends {ℓ} : {A : Type ℓ} → Result A → Type 0
Ends (err out_of_fuel) = ⊥
Ends (err index_error) = ⊥
Ends _ = Unit {0}

-- A call that returns, or raises an exception of which `P` holds.
abbrev pub Raises {ℓ} : {A : Type ℓ} → (Exn → Type 0) → Result A → Type 0
Raises P (ok a) = Unit {0}
Raises P (err e) = P e

pub Raises->>= {ℓ κ} :
    {A : Type ℓ} {B : Type κ} (P : Exn → Type 0) (m : Result A) (f : A → Result B)
    → Raises P m
    → ((a : A) → m ≡ ok a → Raises P (f a))
    → Raises P (m >>= f)
Raises->>= P (ok a) f p q = q a refl
Raises->>= P (err e) f p q = p

pub bind_assoc :
    {S T U : Type 0} (first : Result S) (second : S → Result T) (third : T → Result U)
    → ((first >>= second) >>= third) ≡ (first >>= λ s. second s >>= third)
bind_assoc (err raised) second third = refl
bind_assoc (ok returned) second third = refl
