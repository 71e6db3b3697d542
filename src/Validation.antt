-- ===== src/Validation.antt =====
-- ditto-python-client/src/ditto_client/validation.py: the checks of strict mode. Each check returns,
-- or raises a ValueError that names the operation and what is wrong.
pub mod Laws
use ditto_client.Prelude.{
  ℕ, Option, none, some, Bool, true, false, not, ◌&&◌, ◌||◌, List, [], ◌==◌, if◌then◌else◌,
  is_empty, all,
}
use ditto_client.Python.Text.{Str, between, strip, contains_pair}
use ditto_client.Python.Errors.{
  Result, ok, err, invalid, InputFault, key_empty, key_chars, pattern_empty, pattern_chars,
  namespace_blank, namespace_double_colon, namespace_chars, raise_if, ◌>>=◌, ◌>>◌,
}

-- `[A-Za-z0-9._:-]`, and the same with `*`
unfoldable pub is_token_char : ℕ → Bool
is_token_char c =
    between b'A' b'Z' c
    || between b'a' b'z' c
    || between b'0' b'9' c
    || c == b'.'
    || c == b'_'
    || c == b':'
    || c == b'-'

unfoldable pub is_pattern_char : ℕ → Bool
is_pattern_char c = is_token_char c || c == b'*'

-- `STRICT_TOKEN_RE.fullmatch(s) is not None`: one character or more, all of the class.
unfoldable pub matches_token : Str → Bool
matches_token s = not (is_empty s) && all is_token_char s

unfoldable pub matches_pattern : Str → Bool
matches_pattern s = not (is_empty s) && all is_pattern_char s

unfoldable pub normalized_namespace : Bool → Option Str → Result (Option Str)
normalized_namespace strict_mode none = ok none
normalized_namespace strict_mode (some namespace) =
    let normalized = strip namespace in
    if is_empty normalized
    then (if strict_mode then err (invalid none namespace_blank) else ok none)
    else if strict_mode
    then (do
      raise_if (contains_pair b':' normalized) (invalid none namespace_double_colon)
      raise_if (not (matches_token normalized)) (invalid none namespace_chars)
      ok (some normalized))
    else ok (some normalized)

-- The common end of the two validators: from `if namespace is None` on.
unfoldable pub validate_namespace : Str → Option Str → Result (Unit {0})
validate_namespace op none = ok tt
validate_namespace op (some namespace) =
    let ns = strip namespace in
    (do
      raise_if (is_empty ns) (invalid (some op) namespace_blank)
      raise_if (contains_pair b':' ns) (invalid (some op) namespace_double_colon)
      raise_if (not (matches_token ns)) (invalid (some op) namespace_chars))

-- `key is None or key.strip() == ""`
abbrev pub is_missing : Option Str → Bool
is_missing none = true
is_missing (some text) = is_empty (strip text)

-- A text that is tested behind the check for `None`.
abbrev pub given : Option Str → Str
given none = []
given (some text) = text

unfoldable pub validate_core_inputs : Bool → Str → Option Str → Option Str → Result (Unit {0})
validate_core_inputs false op key namespace = ok tt
validate_core_inputs true op key namespace = do
  raise_if (is_missing key) (invalid (some op) key_empty)
  raise_if (not (matches_token (given key))) (invalid (some op) key_chars)
  validate_namespace op namespace

unfoldable pub validate_pattern_inputs : Bool → Str → Option Str → Option Str → Result (Unit {0})
validate_pattern_inputs false op glob namespace = ok tt
validate_pattern_inputs true op glob namespace = do
  raise_if (is_missing glob) (invalid (some op) pattern_empty)
  raise_if (not (matches_pattern (strip (given glob)))) (invalid (some op) pattern_chars)
  validate_namespace op namespace
