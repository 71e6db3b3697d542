-- ===== src/Scripts/Parity/Names.antt =====
-- How scripts/check_sdk_protocol_parity.py spells a code: in the SDKs a name of words like
-- `RateLimited`, in Java and in the protocol upper snake case.
use ditto_client.Prelude.{
  ℕ, ◌-◌, ◌≤◌, ◌≡◌, refl, ap, ◌∙◌, List, [], ◌∷◌, ◌++◌, arith, All, append-nil,
}
use ditto_client.Python.Text.{Str, codes, starts_with}
use ditto_client.Python.Text.Compare.{lower}
use ditto_client.Scripts.Parity.{
  upper, capitalize, split_parts, split, join_capitalized, strip_proto_error_code_prefix,
  underscored, to_upper_snake,
}

-- A word: a capital letter and small letters.
abbrev pub IsSmall : ℕ → Type 0
IsSmall c = (b'a' ≤ c) × (c ≤ b'z')

abbrev pub Word : Type 0
Word = ℕ × Str

abbrev pub IsWord : Word → Type 0
IsWord (c, s) = (b'A' ≤ c) × (c ≤ b'Z') × All IsSmall s

-- The words one after the other.
abbrev pub camel : List Word → Str
camel [] = []
camel ((c, s) ∷ words) = c ∷ s ++ camel words

-- The small letters as capitals.
abbrev pub shout : Str → Str
shout [] = []
shout (c ∷ s) = (c - 32) ∷ shout s

-- The words in capitals, each behind an underscore, and without the first underscore.
abbrev pub snake_tail : List Word → Str
snake_tail [] = []
snake_tail ((c, s) ∷ words) = b'_' ∷ c ∷ shout s ++ snake_tail words

abbrev pub snake : List Word → Str
snake [] = []
snake ((c, s) ∷ words) = c ∷ shout s ++ snake_tail words

underscored-small :
    (s t : Str) → All IsSmall s → upper (underscored (s ++ t)) ≡ shout s ++ upper (underscored t)
unfolding underscored upper
underscored-small [] t h = refl
underscored-small (c ∷ s) t h = ground (arith, underscored-small s t h.1)

underscored-camel :
    (words : List Word) → All IsWord words → upper (underscored (camel words)) ≡ snake_tail words
unfolding underscored upper
underscored-camel [] h = refl
underscored-camel ((c, s) ∷ words) h =
    ground (arith, underscored-small s (camel words) h.0.2, underscored-camel words h.1)

to_upper_snake-camel :
    (words : List Word) → All IsWord words → to_upper_snake (camel words) ≡ snake words
unfolding to_upper_snake upper
to_upper_snake-camel [] h = refl
to_upper_snake-camel ((c, s) ∷ words) h =
    ground (arith, underscored-small s (camel words) h.0.2, underscored-camel words h.1)

-- The parts between the underscores.
abbrev parts : List Word → List Str
parts [] = []
parts ((c, s) ∷ words) = (c ∷ shout s) ∷ parts words

split-small :
    (s t : Str)
    → All IsSmall s
    → split_parts b'_' (shout s ++ t) ≡ (shout s ++ (split_parts b'_' t).0, (split_parts b'_' t).1)
unfolding split_parts
split-small [] t h = refl
split-small (c ∷ s) t h = ground (arith, split-small s t h.1)

split-snake_tail :
    (words : List Word) → All IsWord words → split_parts b'_' (snake_tail words) ≡ ([], parts words)
unfolding split_parts
split-snake_tail [] h = refl
split-snake_tail ((c, s) ∷ words) h = ground (
  arith,
  split-small s (snake_tail words) h.0.2,
  split-snake_tail words h.1,
  append-nil (shout s),
)

split-snake :
    (word : Word) (words : List Word)
    → All IsWord (word ∷ words)
    → split b'_' (snake (word ∷ words)) ≡ parts (word ∷ words)
unfolding split split_parts
split-snake (c, s) words h = ground (
  arith,
  split-small s (snake_tail words) h.0.2,
  split-snake_tail words h.1,
  append-nil (shout s),
)

lower-shout : (s : Str) → All IsSmall s → lower (shout s) ≡ s
unfolding lower
lower-shout [] h = refl
lower-shout (c ∷ s) h = ground (arith, lower-shout s h.1)

capitalize-word : (c : ℕ) (s : Str) → IsWord (c, s) → capitalize (c ∷ shout s) ≡ c ∷ s
unfolding capitalize
capitalize-word c s h = ground (arith, lower-shout s h.2)

join_capitalized-parts :
    (words : List Word) → All IsWord words → join_capitalized (parts words) ≡ camel words
unfolding join_capitalized
join_capitalized-parts [] h = refl
join_capitalized-parts ((c, s) ∷ words) h =
    ap (λ word. word ++ join_capitalized (parts words)) (capitalize-word c s h.0)
    ∙ ap (λ rest. c ∷ s ++ rest) (join_capitalized-parts words h.1)

strip_behind_prefix :
    (s : Str)
    → strip_proto_error_code_prefix (codes "ERROR_CODE_" ++ s) ≡ join_capitalized (split b'_' s)
unfolding strip_proto_error_code_prefix starts_with
strip_behind_prefix s = refl

strip-snake :
    (words : List Word)
    → All IsWord words
    → strip_proto_error_code_prefix (codes "ERROR_CODE_" ++ snake words) ≡ camel words
strip-snake [] h =
    unfold strip_proto_error_code_prefix starts_with split split_parts join_capitalized
      capitalize in
    refl
strip-snake (word ∷ words) h =
    strip_behind_prefix (snake (word ∷ words))
    ∙ ap join_capitalized (split-snake word words h)
    ∙ join_capitalized-parts (word ∷ words) h

-- For a name of words, each a capital letter and small letters: `to_upper_snake` returns the same words
-- in capitals, with an underscore between two of them and nowhere else, and from that text behind the
-- prefix `ERROR_CODE_` the script gets the name back.
pub to_upper_snake-strip_proto_error_code_prefix :
    (words : List Word)
    → All IsWord words
    → (to_upper_snake (camel words) ≡ snake words)
      × (strip_proto_error_code_prefix (codes "ERROR_CODE_" ++ snake words) ≡ camel words)
to_upper_snake-strip_proto_error_code_prefix words h =
    (to_upper_snake-camel words h, strip-snake words h)
