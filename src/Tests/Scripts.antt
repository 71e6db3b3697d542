-- ===== src/Tests/Scripts.antt =====
-- The validators at concrete files.
use ditto_client.Prelude.{◌≡◌, ◌↔◌, refl, arith, Option, some, List, [], ◌∷◌, All}
use ditto_client.Python.Text.{Str, codes}
use ditto_client.Python.Json.Values.{
  Json, null, text, array, object, nil, item, done, member, members, items,
}
use ditto_client.Python.Errors.{ok}
use ditto_client.Scripts.Contracts.Laws.{HoldsContract, contracts_main_iff}
use ditto_client.Scripts.Snapshot.Laws.{HoldsSnapshot, snapshot_main_iff}
use ditto_client.Scripts.Parity.{
  Sources, strip_proto_error_code_prefix, error_code_prefix, to_upper_snake,
}
use ditto_client.Scripts.Parity.Names.{Word, to_upper_snake-strip_proto_error_code_prefix}
use ditto_client.Scripts.Parity
use ditto_client.Scripts.Contracts
use ditto_client.Scripts.Snapshot

-- `str` of a text.
abbrev str : Json → Str
str (text s) = s
str _ = []

abbrev a_case : Str → Json
a_case id = object (
    member (codes "id") (text id) (
      member (codes "operation") (text [])
        (member (codes "inputs") null (member (codes "expect") null done))))

-- A contract whose two cases have one id.
abbrev twice : List (Option Json)
twice =
    some (
      object (
        member (codes "version") null (
          member (codes "suite") null (
            member (codes "cases")
              (array (item (a_case (codes "c1")) (item (a_case (codes "c1")) nil))) done))))
    ∷ []

contracts_main_iff_example :
    (Contracts.main str twice ≡ ok 0) ↔ (¬ (twice ≡ []) × All (HoldsContract str) twice)
contracts_main_iff_example = contracts_main_iff str twice

abbrev bare : Option (Option Json)
bare = some (some (object (member (codes "protocol_version") null done)))

snapshot_main_iff_example : (Snapshot.main bare ≡ ok 0) ↔ HoldsSnapshot bare
snapshot_main_iff_example = snapshot_main_iff bare

-- Two cases with one id: the script returns 1.
twice-refused : Contracts.main str twice ≡ ok 1
unfolding Contracts.main members items
twice-refused = refl

-- Every SDK has one code, and Java has it as a constant.
abbrev one_code : Sources
one_code = record {
  node = codes "NoQuorum" ∷ [];
  go = codes "NoQuorum" ∷ [];
  py = codes "NoQuorum" ∷ [];
  rust = codes "NoQuorum" ∷ [];
  java_body = some (codes " NO_QUORUM , ");
}

abbrev code_snapshot : Json
code_snapshot = object (
    member (codes "enums")
      (object
        (member (codes "ErrorCode") (array (item (text (codes "ERROR_CODE_NO_QUORUM")) nil)) done))
      done)

-- The words of `RateLimited`.
abbrev rate_limited_words : List Word
rate_limited_words = (b'R', codes "ate") ∷ (b'L', codes "imited") ∷ []

to_upper_snake-strip_proto_error_code_prefix_example :
    (to_upper_snake (codes "RateLimited") ≡ codes "RATE_LIMITED")
    × (strip_proto_error_code_prefix (codes "ERROR_CODE_RATE_LIMITED") ≡ codes "RateLimited")
to_upper_snake-strip_proto_error_code_prefix_example =
    to_upper_snake-strip_proto_error_code_prefix rate_limited_words (omega arith)
