-- ===== src/Wire/Response.antt =====
-- The decoded response containers of wire.py. Each `type` string is a constructor here: `simple`
-- holds the six responses that carry nothing else.
use ditto_client.Prelude.{ℕ, Bool, Option}
use ditto_client.Prelude.Int.{ℤ}
use ditto_client.Python.Text.{Str, Bytes}
use ditto_client.Python.Errors.{ErrorCode}

pub data SimpleType : Type 0 where
  deleted not_found pong auth_ok watching unwatched : SimpleType

pub data ClientResponse : Type 0 where
  -- key, value, version
  value : Str → Bytes → ℕ → ClientResponse
  ok_version : ℕ → ClientResponse
  simple : SimpleType → ClientResponse
  error : ErrorCode → Str → ClientResponse
  -- key, value (`None` for a deleted key), version
  watch_event : Str → Option Bytes → ℕ → ClientResponse
  pattern_deleted : ℕ → ClientResponse
  pattern_ttl_updated : ℕ → ClientResponse
  set_nx : Bool → ℕ → ClientResponse
  counter : ℤ → ℕ → ClientResponse
