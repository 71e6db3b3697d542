-- ===== src/Tcp/Answers.antt =====
-- What each operation of tcp_client.py makes of the server's answer, as tables of the responses.
use ditto_client.Prelude.{ℕ, ◌≡◌, refl, Option, Bool, true, false}
use ditto_client.Prelude.Int.{ℤ}
use ditto_client.Python.Text.{Str, Bytes, codes}
use ditto_client.Python.Errors.{Result, ok, err, ditto_error, repr, unexpected_response}
use ditto_client.Wire.Response.{ClientResponse, SimpleType}
use ditto_client.Wire.Requests.{
  encode_watch, encode_unwatch, encode_ping, encode_get, encode_set, encode_set_nx, encode_incr,
  encode_delete, encode_delete_by_pattern, encode_set_ttl_by_pattern,
}
use ditto_client.Tcp.Monad.{Net, State}
use ditto_client.Tcp.Connection.{Config}
use ditto_client.Tcp.Client.{
  SetNxResult, CounterResult, Value, encode_with, refuse, is_pong, ping, get, set, set_nx, incr,
  delete, delete_by_pattern, set_ttl_by_pattern, watch, unwatch, get_result, set_result,
  set_nx_result, counter_result, delete_result, deleted_result, updated_result, watch_result,
  unwatch_result,
}
use ditto_client.Tcp.Exchange.{Answers, get_result-Answers}
use ditto_client.Tcp.Refines.{Serves, Idle, ask, valid_key, valid_glob, operations-Refines}

-- What is no answer to a request raises: an Error its code and message, any other RuntimeError.
abbrev pub Refusal : {A : Type 0} → ClientResponse → Result A → Type 0
Refusal (ClientResponse.error code message) r = r ≡ err (ditto_error code (repr code message))
Refusal _ r = r ≡ err unexpected_response

abbrev pub PingAnswers : ClientResponse → Result Bool → Type 0
PingAnswers (ClientResponse.simple SimpleType.pong) r = r ≡ ok true
PingAnswers _ r = r ≡ ok false

abbrev pub SetAnswers : ClientResponse → Result ℕ → Type 0
SetAnswers (ClientResponse.ok_version version) r = r ≡ ok version
SetAnswers response r = Refusal response r

abbrev pub SetNxAnswers : ClientResponse → Result SetNxResult → Type 0
SetNxAnswers (ClientResponse.set_nx created version) r =
    r ≡ ok (record { created = created; version = version })
SetNxAnswers response r = Refusal response r

abbrev pub IncrAnswers : ClientResponse → Result CounterResult → Type 0
IncrAnswers (ClientResponse.counter value version) r =
    r ≡ ok (record { value = value; version = version })
IncrAnswers response r = Refusal response r

abbrev pub DeleteAnswers : ClientResponse → Result Bool → Type 0
DeleteAnswers (ClientResponse.simple SimpleType.deleted) r = r ≡ ok true
DeleteAnswers (ClientResponse.simple SimpleType.not_found) r = r ≡ ok false
DeleteAnswers response r = Refusal response r

abbrev pub DeletedAnswers : ClientResponse → Result ℕ → Type 0
DeletedAnswers (ClientResponse.pattern_deleted count) r = r ≡ ok count
DeletedAnswers response r = Refusal response r

abbrev pub UpdatedAnswers : ClientResponse → Result ℕ → Type 0
UpdatedAnswers (ClientResponse.pattern_ttl_updated count) r = r ≡ ok count
UpdatedAnswers response r = Refusal response r

abbrev pub WatchAnswers : ClientResponse → Result (Unit {0}) → Type 0
WatchAnswers (ClientResponse.simple SimpleType.watching) r = r ≡ ok tt
WatchAnswers response r = Refusal response r

abbrev pub UnwatchAnswers : ClientResponse → Result (Unit {0}) → Type 0
UnwatchAnswers (ClientResponse.simple SimpleType.unwatched) r = r ≡ ok tt
UnwatchAnswers response r = Refusal response r

is_pong-PingAnswers : (response : ClientResponse) → PingAnswers response (ok (is_pong response))
unfolding is_pong
is_pong-PingAnswers (ClientResponse.simple SimpleType.pong) = refl
is_pong-PingAnswers _ = refl

set_result-SetAnswers : (response : ClientResponse) → SetAnswers response (set_result response)
unfolding set_result refuse
set_result-SetAnswers (ClientResponse.ok_version version) = refl
set_result-SetAnswers _ = refl

set_nx_result-SetNxAnswers :
    (response : ClientResponse) → SetNxAnswers response (set_nx_result response)
unfolding set_nx_result refuse
set_nx_result-SetNxAnswers (ClientResponse.set_nx created version) = refl
set_nx_result-SetNxAnswers _ = refl

counter_result-IncrAnswers :
    (response : ClientResponse) → IncrAnswers response (counter_result response)
unfolding counter_result refuse
counter_result-IncrAnswers (ClientResponse.counter value version) = refl
counter_result-IncrAnswers _ = refl

delete_result-DeleteAnswers :
    (response : ClientResponse) → DeleteAnswers response (delete_result response)
unfolding delete_result refuse
delete_result-DeleteAnswers (ClientResponse.simple SimpleType.deleted) = refl
delete_result-DeleteAnswers _ = refl

deleted_result-DeletedAnswers :
    (response : ClientResponse) → DeletedAnswers response (deleted_result response)
unfolding deleted_result refuse
deleted_result-DeletedAnswers (ClientResponse.pattern_deleted count) = refl
deleted_result-DeletedAnswers _ = refl

updated_result-UpdatedAnswers :
    (response : ClientResponse) → UpdatedAnswers response (updated_result response)
unfolding updated_result refuse
updated_result-UpdatedAnswers (ClientResponse.pattern_ttl_updated count) = refl
updated_result-UpdatedAnswers _ = refl

watch_result-WatchAnswers :
    (response : ClientResponse) → WatchAnswers response (watch_result response)
unfolding watch_result refuse
watch_result-WatchAnswers (ClientResponse.simple SimpleType.watching) = refl
watch_result-WatchAnswers _ = refl

unwatch_result-UnwatchAnswers :
    (response : ClientResponse) → UnwatchAnswers response (unwatch_result response)
unfolding unwatch_result refuse
unwatch_result-UnwatchAnswers (ClientResponse.simple SimpleType.unwatched) = refl
unwatch_result-UnwatchAnswers _ = refl

-- What an operation returns or raises: what its checks or its encoder raise, and otherwise what the
-- table has for the server's answer to the request.
abbrev pub Outcome :
    {S A : Type 0}
    → (Bytes → S → ClientResponse × S)
    → Result (Unit {0})
    → Result Bytes
    → (ClientResponse → Result A → Type 0)
    → S
    → Result A
    → Type 0
Outcome serve (err e) encoded table store r = r ≡ err e
Outcome serve (ok u) (err e) table store r = r ≡ err e
Outcome serve (ok u) (ok frame) table store r = table (serve frame store).0 r

ask-Outcome :
    {S A : Type 0} (serve : Bytes → S → ClientResponse × S) (valid : Result (Unit {0}))
    (encoded : Result Bytes) (result : ClientResponse → Result A)
    (table : ClientResponse → Result A → Type 0) (store : S) {r : Result A}
    → ((response : ClientResponse) → table response (result response))
    → r ≡ (ask serve valid encoded result store).0
    → Outcome serve valid encoded table store r
ask-Outcome serve (err e) encoded result table store h same = same
ask-Outcome serve (ok u) (err e) result table store h same = same
ask-Outcome serve (ok u) (ok frame) result table store h same = rw same (h (serve frame store).0)

module _ {W S : Type 0} (net : Net W) (config : Config) (serve : Bytes → S → ClientResponse × S)
    (server : Serves net config serve) where
  -- Connected to a server that answers from a store, with no byte pending: each operation that makes a
  -- request returns or raises what the table of its responses has for the server's answer. `ping`
  -- returns whether it is Pong. Every other operation returns the fields of the responses that belong
  -- to it, raises a DittoError with the code and the message of an Error, and raises RuntimeError on
  -- any other response. If the inputs are refused or cannot be encoded, it raises that.
  pub operations-Outcome :
      (key glob : Str) (value : Value) (delta ttl_secs : ℤ) (namespace : Option Str) (s : State W)
      → Idle net config serve server s
      → Outcome serve (ok tt) encode_ping PingAnswers (server.store s.world) (ping net config s).0
        × Outcome serve
            (valid_key config (codes "get") key namespace)
            (encode_get key namespace)
            Answers
            (server.store s.world)
            (get net config key namespace s).0
        × Outcome serve
            (valid_key config (codes "set") key namespace)
            (encode_with encode_set key value ttl_secs namespace)
            SetAnswers
            (server.store s.world)
            (set net config key value ttl_secs namespace s).0
        × Outcome serve
            (valid_key config (codes "set") key namespace)
            (encode_with encode_set_nx key value ttl_secs namespace)
            SetNxAnswers
            (server.store s.world)
            (set_nx net config key value ttl_secs namespace s).0
        × Outcome serve
            (valid_key config (codes "set") key namespace)
            (encode_incr key delta ttl_secs namespace)
            IncrAnswers
            (server.store s.world)
            (incr net config key delta ttl_secs namespace s).0
        × Outcome serve
            (valid_key config (codes "delete") key namespace)
            (encode_delete key namespace)
            DeleteAnswers
            (server.store s.world)
            (delete net config key namespace s).0
        × Outcome serve
            (valid_glob config (codes "delete_by_pattern") glob namespace)
            (encode_delete_by_pattern glob namespace)
            DeletedAnswers
            (server.store s.world)
            (delete_by_pattern net config glob namespace s).0
        × Outcome serve
            (valid_glob config (codes "set_ttl_by_pattern") glob namespace)
            (encode_set_ttl_by_pattern glob ttl_secs namespace)
            UpdatedAnswers
            (server.store s.world)
            (set_ttl_by_pattern net config glob ttl_secs namespace s).0
        × Outcome serve
            (valid_key config (codes "watch") key namespace)
            (encode_watch key namespace)
            WatchAnswers
            (server.store s.world)
            (watch net config key namespace s).0
        × Outcome serve
            (valid_key config (codes "unwatch") key namespace)
            (encode_unwatch key namespace)
            UnwatchAnswers
            (server.store s.world)
            (unwatch net config key namespace s).0
  operations-Outcome key glob value delta ttl_secs namespace s idle =
      let (ping, get, set, set_nx, incr, delete, deleted, updated, watch, unwatch) =
        operations-Refines net config serve server key glob value delta ttl_secs namespace in
      (
        ask-Outcome serve (ok tt) encode_ping (λ resp. ok (is_pong resp)) PingAnswers
            (server.store s.world) is_pong-PingAnswers (ping.refines s idle).0,
        ask-Outcome serve (valid_key config (codes "get") key namespace) (encode_get key namespace)
            get_result Answers (server.store s.world) get_result-Answers (get.refines s idle).0,
        ask-Outcome serve (valid_key config (codes "set") key namespace)
            (encode_with encode_set key value ttl_secs namespace) set_result SetAnswers
            (server.store s.world) set_result-SetAnswers (set.refines s idle).0,
        ask-Outcome serve (valid_key config (codes "set") key namespace)
            (encode_with encode_set_nx key value ttl_secs namespace) set_nx_result SetNxAnswers
            (server.store s.world) set_nx_result-SetNxAnswers (set_nx.refines s idle).0,
        ask-Outcome serve (valid_key config (codes "set") key namespace)
            (encode_incr key delta ttl_secs namespace) counter_result IncrAnswers
            (server.store s.world) counter_result-IncrAnswers (incr.refines s idle).0,
        ask-Outcome serve (valid_key config (codes "delete") key namespace)
            (encode_delete key namespace) delete_result DeleteAnswers (server.store s.world)
            delete_result-DeleteAnswers (delete.refines s idle).0,
        ask-Outcome serve (valid_glob config (codes "delete_by_pattern") glob namespace)
            (encode_delete_by_pattern glob namespace) deleted_result DeletedAnswers
            (server.store s.world) deleted_result-DeletedAnswers (deleted.refines s idle).0,
        ask-Outcome serve (valid_glob config (codes "set_ttl_by_pattern") glob namespace)
            (encode_set_ttl_by_pattern glob ttl_secs namespace) updated_result UpdatedAnswers
            (server.store s.world) updated_result-UpdatedAnswers (updated.refines s idle).0,
        ask-Outcome serve (valid_key config (codes "watch") key namespace)
            (encode_watch key namespace) watch_result WatchAnswers (server.store s.world)
            watch_result-WatchAnswers (watch.refines s idle).0,
        ask-Outcome serve (valid_key config (codes "unwatch") key namespace)
            (encode_unwatch key namespace) unwatch_result UnwatchAnswers (server.store s.world)
            unwatch_result-UnwatchAnswers (unwatch.refines s idle).0,
      )
