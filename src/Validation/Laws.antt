-- ===== src/Validation/Laws.antt =====
-- What the checks of validation.py accept, and how the strict checks agree with the normalization.
use ditto_client.Prelude.{
  ℕ, ◌≡◌, refl, ◌↔◌, Option, none, some, Bool, true, false, not, [], ◌∷◌, arith, is_empty, all,
}
use ditto_client.Python.Text.{Str, is_space, strip, contains_pair}
use ditto_client.Python.Text.Strip.{NoSpace, strip-NoSpace}
use ditto_client.Python.Errors.{
  Result, Exn, ok, invalid, key_empty, key_chars, pattern_empty, pattern_chars, ◌>>◌, raise_if,
}
use ditto_client.Validation.{
  is_token_char, matches_token, matches_pattern, normalized_namespace, validate_namespace,
  validate_core_inputs, validate_pattern_inputs,
}

-- What strict mode allows as a namespace: none, or one whose stripped text is a token without `::`.
abbrev pub NamespaceIsValid : Option Str → Type 0
NamespaceIsValid none = Unit {0}
NamespaceIsValid (some namespace) =
    (matches_token (strip namespace) ≡ true) × (contains_pair b':' (strip namespace) ≡ false)

-- A key of token characters only, one or more.
abbrev pub KeyIsValid : Option Str → Type 0
KeyIsValid none = ⊥
KeyIsValid (some key) = matches_token key ≡ true

-- A pattern that is one of pattern characters once it is stripped.
abbrev pub PatternIsValid : Option Str → Type 0
PatternIsValid none = ⊥
PatternIsValid (some glob) = matches_pattern (strip glob) ≡ true

token_char-no_space : (c : ℕ) → is_token_char c ≡ true → is_space c ≡ false
unfolding is_token_char is_space
token_char-no_space c h = ground arith

all_token-NoSpace : (s : Str) → all is_token_char s ≡ true → NoSpace s
all_token-NoSpace [] h = tt
all_token-NoSpace (c ∷ s) h =
    (token_char-no_space c (ground arith), all_token-NoSpace s (ground arith))

strip-token : (s : Str) → matches_token s ≡ true → strip s ≡ s
unfolding matches_token
strip-token s h = strip-NoSpace s (all_token-NoSpace s (ground arith))

validate_namespace_iff :
    (op : Str) (namespace : Option Str)
    → (validate_namespace op namespace ≡ ok tt) ↔ NamespaceIsValid namespace
unfolding validate_namespace matches_token
validate_namespace_iff op none = ((λ h. tt), (λ h. refl))
validate_namespace_iff op (some namespace) = ground arith

guard-eq-ok :
    (test : Bool) (e : Exn) (rest : Result (Unit {0}))
    → (raise_if test e >> rest ≡ ok tt) ↔ ((test ≡ false) × (rest ≡ ok tt))
guard-eq-ok true e rest = ground arith
guard-eq-ok false e rest = ((λ h. (refl, h)), (λ h. h.1))

-- A key of token characters is not blank.
token-not_missing : (key : Str) → matches_token key ≡ true → is_empty (strip key) ≡ false
unfolding matches_token
token-not_missing key h = rw (strip-token key h) (ground arith)

core_iff-some :
    (op key : Str) (namespace : Option Str)
    → (validate_core_inputs true op (some key) namespace ≡ ok tt)
      ↔ ((matches_token key ≡ true) × NamespaceIsValid namespace)
unfolding validate_core_inputs
core_iff-some op key namespace =
    let missing = guard-eq-ok (is_empty (strip key)) (invalid (some op) key_empty) (
      raise_if (not (matches_token key)) (invalid (some op) key_chars)
      >> validate_namespace op namespace) in
    let chars =
      guard-eq-ok (not (matches_token key)) (invalid (some op) key_chars)
        (validate_namespace op namespace) in
    let rest = validate_namespace_iff op namespace in
    (
      (λ h. (ground (arith, (chars.0 (missing.0 h).1).0), rest.0 (chars.0 (missing.0 h).1).1)),
      (λ h. missing.1 (token-not_missing key h.0, chars.1 (ground (arith, h.0), rest.1 h.1))),
    )

-- In strict mode the key and the namespace are accepted exactly if the key, as it is, has one token
-- character or more and no other, and the namespace, if there is one, does so once it is stripped,
-- without `::`. A missing key is refused.
pub validate_core_inputs_iff :
    (op : Str) (key namespace : Option Str)
    → (validate_core_inputs true op key namespace ≡ ok tt)
      ↔ (KeyIsValid key × NamespaceIsValid namespace)
unfolding validate_core_inputs
validate_core_inputs_iff op none namespace = ground arith
validate_core_inputs_iff op (some key) namespace = core_iff-some op key namespace

matches_pattern-nonempty : (s : Str) → matches_pattern s ≡ true → is_empty s ≡ false
unfolding matches_pattern
matches_pattern-nonempty s h = ground arith

-- In strict mode the pattern and the namespace are accepted exactly if the pattern, once it is
-- stripped, has one pattern character or more and no other, and the namespace is none or a stripped
-- token without `::`. A missing pattern is refused.
pub validate_pattern_inputs_iff :
    (op : Str) (glob namespace : Option Str)
    → (validate_pattern_inputs true op glob namespace ≡ ok tt)
      ↔ (PatternIsValid glob × NamespaceIsValid namespace)
unfolding validate_pattern_inputs
validate_pattern_inputs_iff op none namespace = ground arith
validate_pattern_inputs_iff op (some glob) namespace =
    let missing = guard-eq-ok (is_empty (strip glob)) (invalid (some op) pattern_empty) (
      raise_if (not (matches_pattern (strip glob))) (invalid (some op) pattern_chars)
      >> validate_namespace op namespace) in
    let chars =
      guard-eq-ok (not (matches_pattern (strip glob))) (invalid (some op) pattern_chars)
        (validate_namespace op namespace) in
    let rest = validate_namespace_iff op namespace in
    (
      (λ h. (ground (arith, (chars.0 (missing.0 h).1).0), rest.0 (chars.0 (missing.0 h).1).1)),
      (λ h.
          missing.1
            (matches_pattern-nonempty (strip glob) h.0, chars.1 (ground (arith, h.0), rest.1 h.1))),
    )

abbrev pub strip_option : Option Str → Option Str
strip_option none = none
strip_option (some namespace) = some (strip namespace)

-- The strict normalization returns exactly on the namespaces that the strict checks accept: none, or a
-- text that is a token without `::` once it is stripped. It then returns none, or the stripped text.
pub normalized_namespace_iff :
    (namespace normalized : Option Str)
    → (normalized_namespace true namespace ≡ ok normalized)
      ↔ (NamespaceIsValid namespace × (normalized ≡ strip_option namespace))
unfolding normalized_namespace matches_token
normalized_namespace_iff none normalized = ground arith
normalized_namespace_iff (some namespace) normalized = ground arith

-- What strict mode refuses.
pub core-refused :
    (strict_mode : Bool) (op key : Str) (namespace : Option Str)
    → strict_mode ≡ true
    → ¬ (KeyIsValid (some key) × NamespaceIsValid namespace)
    → ¬ (validate_core_inputs strict_mode op (some key) namespace ≡ ok tt)
core-refused strict_mode op key namespace strict bad v =
    bad ((validate_core_inputs_iff op (some key) namespace).0 (rw strict at v))

pub glob-refused :
    (strict_mode : Bool) (op glob : Str) (namespace : Option Str)
    → strict_mode ≡ true
    → ¬ (PatternIsValid (some glob) × NamespaceIsValid namespace)
    → ¬ (validate_pattern_inputs strict_mode op (some glob) namespace ≡ ok tt)
glob-refused strict_mode op glob namespace strict bad v =
    bad ((validate_pattern_inputs_iff op (some glob) namespace).0 (rw strict at v))
