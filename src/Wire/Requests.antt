-- ===== src/Wire/Requests.antt =====
-- The public encoders of wire.py, one for each request.
use ditto_client.Prelude.{Option, []}
use ditto_client.Prelude.Int.{ℤ}
use ditto_client.Python.Text.{Str, Bytes}
use ditto_client.Python.Errors.{Result, ◌>>=◌}
use ditto_client.Wire.Fields.{RequestKind, request_field}
use ditto_client.Wire.Encode.{
  encode_key_namespace, encode_pattern_namespace, encode_set_request, encode_incr_request,
  encode_set_ttl_by_pattern_request, encode_auth_request, wrap_client_request,
}

unfoldable pub encode_get : Str → Option Str → Result Bytes
encode_get key namespace = do
  inner ← encode_key_namespace key namespace
  wrap_client_request (request_field RequestKind.get) inner

unfoldable pub encode_set : Str → Bytes → ℤ → Option Str → Result Bytes
encode_set key value ttl_secs namespace = do
  inner ← encode_set_request key value ttl_secs namespace
  wrap_client_request (request_field RequestKind.set) inner

unfoldable pub encode_delete : Str → Option Str → Result Bytes
encode_delete key namespace = do
  inner ← encode_key_namespace key namespace
  wrap_client_request (request_field RequestKind.delete) inner

unfoldable pub encode_set_nx : Str → Bytes → ℤ → Option Str → Result Bytes
encode_set_nx key value ttl_secs namespace = do
  inner ← encode_set_request key value ttl_secs namespace
  wrap_client_request (request_field RequestKind.set_nx) inner

unfoldable pub encode_incr : Str → ℤ → ℤ → Option Str → Result Bytes
encode_incr key delta ttl_secs_on_create namespace = do
  inner ← encode_incr_request key delta ttl_secs_on_create namespace
  wrap_client_request (request_field RequestKind.incr) inner

unfoldable pub encode_ping : Result Bytes
encode_ping = wrap_client_request (request_field RequestKind.ping) []

unfoldable pub encode_auth : Str → Result Bytes
encode_auth token = do
  inner ← encode_auth_request token
  wrap_client_request (request_field RequestKind.auth) inner

unfoldable pub encode_watch : Str → Option Str → Result Bytes
encode_watch key namespace = do
  inner ← encode_key_namespace key namespace
  wrap_client_request (request_field RequestKind.watch) inner

unfoldable pub encode_unwatch : Str → Option Str → Result Bytes
encode_unwatch key namespace = do
  inner ← encode_key_namespace key namespace
  wrap_client_request (request_field RequestKind.unwatch) inner

unfoldable pub encode_delete_by_pattern : Str → Option Str → Result Bytes
encode_delete_by_pattern pattern_text namespace = do
  inner ← encode_pattern_namespace pattern_text namespace
  wrap_client_request (request_field RequestKind.delete_by_pattern) inner

unfoldable pub encode_set_ttl_by_pattern : Str → ℤ → Option Str → Result Bytes
encode_set_ttl_by_pattern pattern_text ttl_secs namespace = do
  inner ← encode_set_ttl_by_pattern_request pattern_text ttl_secs namespace
  wrap_client_request (request_field RequestKind.set_ttl_by_pattern) inner
