-- ===== src/Scripts/Parity.antt =====
-- scripts/check_sdk_protocol_parity.py. The regular expressions over the sources of the SDKs, and the
-- snapshot as `json.loads` read it, are arguments.
pub mod Laws
pub mod Names
use ditto_client.Prelude.{
  ℕ, ◌-◌, ◌+◌, Option, none, some, Bool, true, false, not, ◌&&◌, List, [], ◌∷◌, ◌++◌, ltb, ◌==◌,
  if◌then◌else◌, is_empty, drop, length,
}
use ditto_client.Python.Text.{Str, codes, between, strip, starts_with}
use ditto_client.Python.Text.Compare.{text_eq, is_member, lower}
use ditto_client.Python.Json.Values.{Json, text, as_text}
use ditto_client.Python.Json.Access.{subscript, iterate}
use ditto_client.Python.Errors.{Result, ok, err, attribute_error, ◌>>=◌}
use ditto_client.Scripts.Keys.{exit_code}

-- `c.upper()` and `s.upper()` of ASCII letters.
abbrev pub upper_char : ℕ → ℕ
upper_char c = if between b'a' b'z' c then c - 32 else c

unfoldable pub upper : Str → Str
upper [] = []
upper (c ∷ s) = upper_char c ∷ upper s

-- `s.capitalize()`
unfoldable pub capitalize : Str → Str
unfolding lower
capitalize [] = []
capitalize (c ∷ s) = upper_char c ∷ lower s

-- `s.split(sep)`, with the part that is open so far as the second result.
unfoldable pub split_parts : ℕ → Str → Str × List Str
split_parts sep [] = ([], [])
split_parts sep (c ∷ s) =
    let (first, rest) = split_parts sep s in
    if c == sep then ([], first ∷ rest) else (c ∷ first, rest)

unfoldable pub split : ℕ → Str → List Str
unfolding split_parts
split sep s = let (first, rest) = split_parts sep s in first ∷ rest

-- `"".join(part.capitalize() for part in parts)`
unfoldable pub join_capitalized : List Str → Str
unfolding capitalize
join_capitalized [] = []
join_capitalized (part ∷ parts) = capitalize part ++ join_capitalized parts

abbrev pub error_code_prefix : Str
error_code_prefix = codes "ERROR_CODE_"

unfoldable pub strip_proto_error_code_prefix : Str → Str
unfolding starts_with split join_capitalized
strip_proto_error_code_prefix name =
    if starts_with name error_code_prefix
    then join_capitalized (split b'_' (drop (length error_code_prefix) name))
    else name

-- `re.sub(r"(?<!^)(?=[A-Z])", "_", name)` behind the first character
unfoldable pub underscored : Str → Str
underscored [] = []
underscored (c ∷ s) =
    let rest = underscored s in if between b'A' b'Z' c then b'_' ∷ c ∷ rest else c ∷ rest

unfoldable pub to_upper_snake : Str → Str
unfolding underscored upper
to_upper_snake [] = []
to_upper_snake (c ∷ s) = upper (c ∷ underscored s)

-- What the regular expressions find: the codes in the four SDKs, and the body of the Java enumeration.
pub record Sources : Type 0 where
  pub node : List Str
  pub go : List Str
  pub py : List Str
  pub rust : List Str
  pub java_body : Option Str

-- `{token.strip() for token in tokens if token.strip()}`
unfoldable pub stripped : List Str → List Str
unfolding strip
stripped [] = []
stripped (token ∷ tokens) =
    let rest = stripped tokens in if is_empty (strip token) then rest else strip token ∷ rest

unfoldable pub parse_java_constants : Option Str → List Str
unfolding split stripped
parse_java_constants none = []
parse_java_constants (some body) = stripped (split b',' body)

-- The order of texts, and `sorted` of a set: the texts in their order, each once.
unfoldable pub text_lt : Str → Str → Bool
text_lt s [] = false
text_lt [] (d ∷ t) = true
text_lt (c ∷ s) (d ∷ t) = if c == d then text_lt s t else ltb c d

unfoldable pub insert : Str → List Str → List Str
unfolding text_eq text_lt
insert s [] = s ∷ []
insert s (t ∷ texts) =
    let rest = insert s texts in
    if text_eq s t then t ∷ texts else if text_lt s t then s ∷ t ∷ texts else t ∷ rest

unfoldable pub sorted : List Str → List Str
unfolding insert
sorted [] = []
sorted (s ∷ texts) = insert s (sorted texts)

-- Which SDK lacks which code, or constant.
pub data Issue : Type 0 where
  node_missing go_missing python_missing java_missing rust_missing : Str → Issue

abbrev pub unless : Bool → Issue → List Issue
unless true issue = []
unless false issue = issue ∷ []

-- One turn of the loop over the required codes.
unfoldable pub check_code : Sources → Str → List Issue
unfolding is_member to_upper_snake parse_java_constants
check_code sources code =
    unless (is_member code sources.node) (node_missing code)
    ++ (unless (is_member code sources.go) (go_missing code)
        ++ (unless (is_member code sources.py) (python_missing code)
            ++ (unless (is_member (to_upper_snake code) (parse_java_constants sources.java_body))
                  (java_missing (to_upper_snake code))
                ++ unless (is_member code sources.rust) (rust_missing code))))

unfoldable pub check_codes : Sources → List Str → List Issue
unfolding check_code
check_codes sources [] = []
check_codes sources (code ∷ required) = check_code sources code ++ check_codes sources required

-- `{strip_proto_error_code_prefix(c) for c in names}`: a name that is no text has no `startswith`.
unfoldable pub sdk_names : List Json → Result (List Str)
unfolding strip_proto_error_code_prefix
sdk_names [] = ok []
sdk_names (name ∷ names) = elim (as_text name) [
  | none ↦ err attribute_error
  | some s ↦ (do rest ← sdk_names names; ok (strip_proto_error_code_prefix s ∷ rest))
]

unfoldable pub required_codes : Json → Result (List Str)
unfolding subscript iterate sdk_names
required_codes payload = do
  enums ← subscript (codes "enums") payload
  values ← subscript (codes "ErrorCode") enums
  names ← iterate values
  sdk_names names

-- The exit code of the script.
unfoldable pub main : Sources → Json → Result ℕ
unfolding required_codes sorted check_codes
main sources payload = do
  required ← required_codes payload
  ok (exit_code (check_codes sources (sorted required)))
