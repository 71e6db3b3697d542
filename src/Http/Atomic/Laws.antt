-- ===== src/Http/Atomic/Laws.antt =====
-- Which statuses mean a server without the atomic operations, and which namespace is sent.
use ditto_client.Prelude.{
  ◌↔◌, Bool-cases, inl, inr, ℕ, ◌≡◌, ◌⊎◌, refl, ap, Option, none, some, Bool, true, false, List, [],
  ◌∷◌, arith, ◌==◌, ◌||◌,
}
use ditto_client.Python.Text.{Str, codes}
use ditto_client.Python.Json.Values.{Json, text, or_else, get_or_null}
use ditto_client.Python.Errors.{ok, err, known, unsupported_request, http_error, ok-injective}
use ditto_client.Validation.{normalized_namespace}
use ditto_client.Http.Atomic.{
  unsupported_atomic_operation_error, namespace_headers, DittoError, unsupported_payload,
  atomic_http_unsupported_error, raise_if_atomic_http_unsupported,
}

atomic_http_unsupported_error-kind :
    (loads : Str → Option Json) (body operation : Str)
    → (atomic_http_unsupported_error loads body operation).0 ≡ known unsupported_request
unfolding atomic_http_unsupported_error unsupported_atomic_operation_error
atomic_http_unsupported_error-kind loads body operation =
    elim (unsupported_payload (loads body))
      as (λ found.
        (elim found as (λ _. DittoError) [
          | none ↦ unsupported_atomic_operation_error operation
          | some d ↦ (
            known unsupported_request,
            or_else (get_or_null (codes "message") d) (text (codes "UnsupportedRequest")),
          )
        ]).0
        ≡ known unsupported_request) [ none ↦ refl | some d ↦ refl ]

-- The statuses of a server without the atomic operations.
abbrev pub IsListed : ℕ → Type 0
IsListed status = (status ≡ 400) ⊎ (status ≡ 404) ⊎ (status ≡ 501)

refused_lem :
    (loads : Str → Option Json) (status : ℕ) (body operation : Str)
    → (status == 400 || status == 404 || status == 501) ≡ true
    → raise_if_atomic_http_unsupported loads status body operation
      ≡ err (
          http_error
            (known unsupported_request)
            (atomic_http_unsupported_error loads body operation).1)
unfolding raise_if_atomic_http_unsupported
refused_lem loads status body operation listed = rw listed (
    ap (λ kind. err (http_error kind (atomic_http_unsupported_error loads body operation).1))
      (atomic_http_unsupported_error-kind loads body operation))

passed_lem :
    (loads : Str → Option Json) (status : ℕ) (body operation : Str)
    → (status == 400 || status == 404 || status == 501) ≡ false
    → raise_if_atomic_http_unsupported loads status body operation ≡ ok tt
unfolding raise_if_atomic_http_unsupported
passed_lem loads status body operation other = rw other refl

-- The check of an atomic operation raises UnsupportedRequest exactly if the status is 400, 404 or 501,
-- whatever error the body names, and returns exactly if it is none of them.
pub raise_if_atomic_http_unsupported_lem :
    (loads : Str → Option Json) (status : ℕ) (body operation : Str)
    → (((message : Json) × (raise_if_atomic_http_unsupported loads status body operation
            ≡ err (http_error (known unsupported_request) message)))
        ↔ IsListed status)
      × ((raise_if_atomic_http_unsupported loads status body operation ≡ ok tt)
          ↔ ¬ (IsListed status))
raise_if_atomic_http_unsupported_lem loads status body operation =
    elim (Bool-cases (status == 400 || status == 404 || status == 501)) [
      | inl listed ↦
          let run = refused_lem loads status body operation listed in
          rw run (
            (
              (λ h. ground (arith, listed)),
              (λ h. ((atomic_http_unsupported_error loads body operation).1, refl)),
            ),
            ((λ h. absurd (ground (arith, h))), (λ h. absurd (h (ground (arith, listed))))),
          )
      | inr other ↦
          let run = passed_lem loads status body operation other in
          rw run (
            (
              (λ (message, h). absurd (ground (arith, h))),
              (λ h. absurd (ground (arith, other, h))),
            ),
            ((λ h h'. ground (arith, other, h')), (λ h. refl)),
          )
    ]

-- The header for a namespace, from its normal form.
abbrev header_of : Option Str → List (Str × Str)
header_of none = []
header_of (some namespace) = (codes "X-Ditto-Namespace", namespace) ∷ []

-- Where normalized_namespace accepts a namespace, strictly or not, the HTTP header carries the namespace
-- that normalized_namespace returns, and there is no header exactly where it returns none.
pub namespace_headers-normalized_namespace :
    (strict_mode : Bool) (namespace normalized : Option Str)
    → normalized_namespace strict_mode namespace ≡ ok normalized
    → namespace_headers namespace ≡ header_of normalized
unfolding namespace_headers normalized_namespace
namespace_headers-normalized_namespace strict_mode none normalized h = ap header_of (ok-injective h)
namespace_headers-normalized_namespace strict_mode (some namespace) normalized h = ground arith
