-- ===== src/Http/Headers.antt =====
-- Which headers `_request` sends: the credentials, the content type and the namespace.
use ditto_client.Prelude.{◌≡◌, refl, Option, none, some, List, [], ◌∷◌, if◌then◌else◌, is_empty}
use ditto_client.Python.Text.{Str, codes, strip}
use ditto_client.Python.Text.Compare.{text_eq}
use ditto_client.Http.Base.{HttpClient}
use ditto_client.Http.Atomic.{namespace_headers}
use ditto_client.Http.Request.{set_header, update_headers, optional_header, build_headers}

-- The value of a header.
pub header : Str → List (Str × Str) → Option Str
unfolding text_eq
header key [] = none
header key ((k, v) ∷ rest) = if text_eq k key then some v else header key rest

-- A text that is not empty.
abbrev pub filled : Option Str → Option Str
filled (some (c ∷ s)) = some (c ∷ s)
filled _ = none

-- A namespace that is not blank, stripped.
abbrev pub sent_namespace : Option Str → Option Str
sent_namespace none = none
sent_namespace (some namespace) = filled (some (strip namespace))

-- The headers of a request: the client's credentials, the content type and the namespace, each exactly
-- where it is given.
abbrev pub HasHeaders : HttpClient → Option Str → Option Str → List (Str × Str) → Type 0
HasHeaders client content_type namespace headers =
    (header (codes "Authorization") headers ≡ filled client.auth_header)
    × (header (codes "Content-Type") headers ≡ filled content_type)
    × (header (codes "X-Ditto-Namespace") headers ≡ sent_namespace namespace)

abbrev headers_of : Str → List (Str × Str)
headers_of [] = []
headers_of (c ∷ namespace) = (codes "X-Ditto-Namespace", c ∷ namespace) ∷ []

namespace_headers-filled :
    (namespace : Str) → namespace_headers (some namespace) ≡ headers_of (strip namespace)
unfolding namespace_headers
namespace_headers-filled namespace =
    elim (strip namespace)
      as (λ s. (if is_empty s then [] else (codes "X-Ditto-Namespace", s) ∷ []) ≡ headers_of s) [
        | [] ↦ refl
        | c ∷ s ↦ refl
      ]

abbrev Headed : Option Str → Option Str → Option Str → List (Str × Str) → Type 0
Headed auth content_type namespace headers =
    (header (codes "Authorization") headers ≡ filled auth)
    × (header (codes "Content-Type") headers ≡ filled content_type)
    × (header (codes "X-Ditto-Namespace") headers ≡ filled namespace)

build_headers-Headed :
    (auth content_type : Option Str) (namespace : Str)
    → Headed auth content_type (some namespace) (
        update_headers
          (optional_header
            (codes "Content-Type")
            content_type
            (optional_header (codes "Authorization") auth []))
          (headers_of namespace))
unfolding header optional_header update_headers set_header text_eq
build_headers-Headed (some (a ∷ s)) (some (b ∷ t)) (c ∷ u) = (refl, refl, refl)
build_headers-Headed (some (a ∷ s)) (some (b ∷ t)) [] = (refl, refl, refl)
build_headers-Headed (some (a ∷ s)) (some []) (c ∷ u) = (refl, refl, refl)
build_headers-Headed (some (a ∷ s)) (some []) [] = (refl, refl, refl)
build_headers-Headed (some (a ∷ s)) none (c ∷ u) = (refl, refl, refl)
build_headers-Headed (some (a ∷ s)) none [] = (refl, refl, refl)
build_headers-Headed (some []) (some (b ∷ t)) (c ∷ u) = (refl, refl, refl)
build_headers-Headed (some []) (some (b ∷ t)) [] = (refl, refl, refl)
build_headers-Headed (some []) (some []) (c ∷ u) = (refl, refl, refl)
build_headers-Headed (some []) (some []) [] = (refl, refl, refl)
build_headers-Headed (some []) none (c ∷ u) = (refl, refl, refl)
build_headers-Headed (some []) none [] = (refl, refl, refl)
build_headers-Headed none (some (b ∷ t)) (c ∷ u) = (refl, refl, refl)
build_headers-Headed none (some (b ∷ t)) [] = (refl, refl, refl)
build_headers-Headed none (some []) (c ∷ u) = (refl, refl, refl)
build_headers-Headed none (some []) [] = (refl, refl, refl)
build_headers-Headed none none (c ∷ u) = (refl, refl, refl)
build_headers-Headed none none [] = (refl, refl, refl)

pub build_headers-HasHeaders :
    (client : HttpClient) (content_type namespace : Option Str)
    → HasHeaders client content_type namespace
        (build_headers client content_type (namespace_headers namespace))
unfolding build_headers
build_headers-HasHeaders client content_type none =
    unfold namespace_headers in build_headers-Headed client.auth_header content_type []
build_headers-HasHeaders client content_type (some namespace) =
    rw (namespace_headers-filled namespace)
      (build_headers-Headed client.auth_header content_type (strip namespace))
