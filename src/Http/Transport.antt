-- ===== src/Http/Transport.antt =====
-- What http_client_base.py takes from the libraries, as a parameter: `urlopen`, which answers a request,
-- and the readers of JSON, base64 and integers. An operation is a function on the requests that were
-- made, the newest first, and the outside world.
use ditto_client.Prelude.{ℕ, Option, List}
use ditto_client.Prelude.Int.{ℤ}
use ditto_client.Python.Text.{Str, Bytes}
use ditto_client.Python.Json.Values.{Json}
use ditto_client.Python.Errors.{Result, ok, err, Exn}

pub record HttpRequest : Type 0 where
  pub url : Str
  pub method : Str
  pub body : Option Bytes
  pub headers : List (Str × Str)

-- What `urlopen` does: it returns a response, or raises an HTTPError with a status and, if it has a file,
-- a body, or raises another error.
pub data Reply : Type 0 where
  response : ℕ → Bytes → Reply
  http_failure : ℕ → Option Bytes → Reply
  broken : Exn → Reply

pub record Library (W : Type 0) : Type 0 where
  pub urlopen : HttpRequest → W → Reply × W
  -- json.loads; `none` is a ValueError
  pub loads : Str → Option Json
  -- base64.b64decode; `none` is a ValueError
  pub b64decode : Str → Option Bytes
  -- int(x)
  pub to_int : Json → Result ℤ

pub record Web (W : Type 0) : Type 0 where
  pub requests : List HttpRequest
  pub world : W

abbrev pub Call : Type 0 → Type 0 → Type 0
Call W A = Web W → Result A × Web W

module _ {W A : Type 0} where
  abbrev pub lift : Result A → Call W A
  lift r s = (r, s)

infixl 5 ◌>>=◌ ◌>>◌
abbrev pub ◌>>=◌ : {W A B : Type 0} → Call W A → (A → Call W B) → Call W B
◌>>=◌ first next s = let (r, s') = first s in elim r [ ok a ↦ next a s' | err e ↦ (err e, s') ]

abbrev pub ◌>>◌ : {W B : Type 0} → Call W Unit → Call W B → Call W B
first >> next = first >>= λ _. next
