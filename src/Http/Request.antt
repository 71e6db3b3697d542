-- ===== src/Http/Request.antt =====
-- `_request` of http_client_base.py, and how the operations of http_client.py read a JSON reply.
use ditto_client.Prelude.{ℕ, Option, none, some, List, [], ◌∷◌, ◌++◌, if◌then◌else◌}
use ditto_client.Python.Text.{Str, Bytes, codes}
use ditto_client.Python.Text.Compare.{text_eq}
use ditto_client.Python.Utf8.{decode_utf8}
use ditto_client.Python.Json.Values.{Json}
use ditto_client.Python.Errors.{Result, ok, err, json_decode_error}
use ditto_client.Http.Base.{HttpClient}
use ditto_client.Http.Transport.{HttpRequest, Reply, response, http_failure, broken, Library, Call}

-- `headers[key] = value`, and `headers.update(extra)`
unfoldable pub set_header : Str → Str → List (Str × Str) → List (Str × Str)
unfolding text_eq
set_header key value [] = (key, value) ∷ []
set_header key value ((k, v) ∷ rest) =
    if text_eq k key then (k, value) ∷ rest else (k, v) ∷ set_header key value rest

unfoldable pub update_headers : List (Str × Str) → List (Str × Str) → List (Str × Str)
unfolding set_header
update_headers headers [] = headers
update_headers headers ((k, v) ∷ extra) = update_headers (set_header k v headers) extra

-- `if x: headers[key] = x`
unfoldable pub optional_header : Str → Option Str → List (Str × Str) → List (Str × Str)
unfolding set_header
optional_header key (some (c ∷ value)) headers = set_header key (c ∷ value) headers
optional_header key _ headers = headers

unfoldable pub build_headers : HttpClient → Option Str → List (Str × Str) → List (Str × Str)
unfolding optional_header update_headers
build_headers client content_type extra =
    update_headers
      (optional_header (codes "Content-Type") content_type
        (optional_header (codes "Authorization") client.auth_header []))
      extra

-- The status and the text of a reply. Every status from 400 on is an HTTPError.
unfoldable pub read_reply : Reply → Result (ℕ × Str)
read_reply (response status body) = elim (decode_utf8 body) [
  | ok s ↦ ok (status, s)
  | err e ↦ err e
]
read_reply (http_failure code (some body)) = elim (decode_utf8 body) [
  | ok s ↦ ok (code, s)
  | err e ↦ err e
]
read_reply (http_failure code none) = ok (code, [])
read_reply (broken e) = err e

-- `urlopen`, recorded.
unfoldable pub send_request : {W : Type 0} → Library W → HttpRequest → Call W (ℕ × Str)
unfolding read_reply
send_request lib r s =
    let (reply, w) = lib.urlopen r s.world in
    (read_reply reply, record { requests = r ∷ s.requests; world = w })

unfoldable pub request :
    {W : Type 0}
    → Library W
    → HttpClient
    → Str
    → Str
    → Option Bytes
    → Option Str
    → List (Str × Str)
    → Call W (ℕ × Str)
unfolding build_headers send_request
request lib client path method body content_type extra = send_request lib (record {
  url = client.base_url ++ path;
  method = method;
  body = body;
  headers = build_headers client content_type extra;
})

-- `json.loads(body)`
unfoldable pub parse : (Str → Option Json) → Str → Result Json
parse loads body = elim (loads body) [ none ↦ err json_decode_error | some value ↦ ok value ]
