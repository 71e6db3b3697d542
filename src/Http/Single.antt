-- ===== src/Http/Single.antt =====
-- Operations that make one request, or raise before it: the rules of the monad of Http/Transport.
use ditto_client.Prelude.{ℕ, ◌≡◌, refl, Option, Bool, true, false, List, ◌∷◌, ◌++◌}
use ditto_client.Python.Text.{Str, Bytes}
use ditto_client.Python.Errors.{Result, ok, err}
use ditto_client.Http.Base.{HttpClient}
use ditto_client.Http.Request.{build_headers, send_request, request}
use ditto_client.Http.Transport.{HttpRequest, Library, Web, Call, lift, ◌>>=◌}

-- An operation that makes no request, and leaves the world as it is.
pub record Silent {W A : Type 0} (m : Call W A) : Type 0 where
  pub unchanged : (s : Web W) → (m s).1 ≡ s

module _ {W : Type 0} (lib : Library W) where
  -- The state behind a request.
  abbrev pub after : HttpRequest → Web W → Web W
  after r s = record { requests = r ∷ s.requests; world = (lib.urlopen r s.world).1 }

  -- What a run did: the exception of the guard and no request, or exactly one request, of which `P` holds.
  abbrev pub Ran :
      {A : Type 0} → (HttpRequest → Type 0) → Result (Unit {0}) → Web W → Result A × Web W → Type 0
  Ran P (err e) s x = x ≡ (err e, s)
  Ran P (ok u) s x = (r : HttpRequest) × P r × (x.1 ≡ after r s)

  -- From every state, the operation raises what the guard raises and makes no request, or, if the guard
  -- returns, makes exactly one, of which `P` holds.
  pub record Single {A : Type 0} (P : HttpRequest → Type 0) (guard : Result (Unit {0}))
      (m : Call W A) : Type 0 where
    pub once : (s : Web W) → Ran P guard s (m s)

-- What must return before the rest.
abbrev pub requires : {A : Type 0} → Result A → Result (Unit {0}) → Result (Unit {0})
requires (ok a) guard = guard
requires (err e) guard = err e

module _ {W A : Type 0} where
  pub Silent-lift : (r : Result A) → Silent {W = W} (lift r)
  Silent-lift r = record { unchanged = λ s. refl }

  pub Silent-bool :
      (test : Bool) (x y : Call W A)
      → Silent x
      → Silent y
      → Silent (elim test as (λ _. Call W A) [ true ↦ x | false ↦ y ])
  Silent-bool true x y p q = p
  Silent-bool false x y p q = q

module _ {W A B : Type 0} where
  pub Silent-lift->>= :
      (r : Result A) (f : A → Call W B) → ((a : A) → Silent (f a)) → Silent (lift r >>= f)
  Silent-lift->>= (ok a) f p = record { unchanged = (p a).unchanged }
  Silent-lift->>= (err e) f p = record { unchanged = λ s. refl }

  both_unchanged :
      (x : Result A × Web W) (s : Web W) (f : A → Call W B)
      → x.1 ≡ s
      → ((a : A) → Silent (f a))
      → (elim x.0 as (λ _. Result B × Web W) [ ok a ↦ f a x.1 | err e ↦ (err e, x.1) ]).1 ≡ s
  both_unchanged (ok a, t) s f p q = rw ((q a).unchanged t) p
  both_unchanged (err e, t) s f p q = p

  pub Silent->>= :
      (m : Call W A) (f : A → Call W B) → Silent m → ((a : A) → Silent (f a)) → Silent (m >>= f)
  Silent->>= m f p q = record { unchanged = λ s. both_unchanged (m s) s f (p.unchanged s) q }

module _ {W A B : Type 0} (lib : Library W) (P : HttpRequest → Type 0) where
  pub Single-lift->>= :
      (r : Result A) (guard : Result (Unit {0})) (f : A → Call W B)
      → ((a : A) → r ≡ ok a → Single lib P guard (f a))
      → Single lib P (requires r guard) (lift r >>= f)
  Single-lift->>= (ok a) guard f p = record { once = (p a refl).once }
  Single-lift->>= (err e) guard f p = record { once = λ s. refl }

module _ {W B : Type 0} (lib : Library W) (P : HttpRequest → Type 0) where
  behind_reply :
      (x : Result (ℕ × Str) × Web W) (r : HttpRequest) (s : Web W) (f : ℕ × Str → Call W B)
      → P r
      → x.1 ≡ after lib r s
      → ((a : ℕ × Str) → Silent (f a))
      → (made : HttpRequest) × P made
        × ((elim x.0 as (λ _. Result B × Web W) [ ok a ↦ f a x.1 | err e ↦ (err e, x.1) ]).1
            ≡ after lib made s)
  behind_reply (ok a, t) r s f p moved q = (r, p, rw ((q a).unchanged t) moved)
  behind_reply (err e, t) r s f p moved q = (r, p, moved)

  pub Single-request->>= :
      (client : HttpClient) (path method : Str) (body : Option Bytes) (content_type : Option Str)
      (extra : List (Str × Str)) (f : ℕ × Str → Call W B)
      → P (record {
        url = client.base_url ++ path;
        method = method;
        body = body;
        headers = build_headers client content_type extra;
      })
      → ((a : ℕ × Str) → Silent (f a))
      → Single lib P (ok tt) (request lib client path method body content_type extra >>= f)
  unfolding request send_request
  Single-request->>= client path method body content_type extra f p q = record {
    once =
        λ s. behind_reply (request lib client path method body content_type extra s) _ s f p refl q;
  }
