-- ===== src/Python/Utf8.antt =====
-- `str.encode("utf-8")` and `bytes.decode("utf-8")` with strict error handling, and their round trip.
use ditto_client.Prelude.{
  ℕ, zero, suc, ◌+◌, ◌-◌, ◌*◌, ◌/◌, ◌%◌, ◌≡◌, refl, Bool, true, [], ◌∷◌, ◌++◌, arith, ltb,
  if◌then◌else◌, All, All-append, sym, Bool-cases, inl, inr, is_empty,
}
use ditto_client.Python.Text.{Str, Bytes, IsByte, between}
use ditto_client.Python.Errors.{
  Result, ok, err, unicode_encode, unicode_decode, ◌>>=◌, >>=-eq-ok, ok-injective, Exn, Raises,
  Raises->>=,
}

-- A code point that UTF-8 can hold: no surrogate, and at most U+10FFFF.
abbrev pub is_scalar : ℕ → Bool
is_scalar c = if ltb c 0xd800 then true else between 0xe000 0x10ffff c

abbrev pub AllScalar : Str → Type 0
AllScalar s = All (λ c. is_scalar c ≡ true) s

-- The bytes of one scalar value.
unfoldable pub encode_char : ℕ → Bytes
encode_char c =
    if ltb c 0x80
    then c ∷ []
    else if ltb c 0x800
    then (0xc0 + c / 64) ∷ (0x80 + c % 64) ∷ []
    else if ltb c 0x10000
    then (0xe0 + c / 4096) ∷ (0x80 + c / 64 % 64) ∷ (0x80 + c % 64) ∷ []
    else (0xf0 + c / 262144) ∷ (0x80 + c / 4096 % 64) ∷ (0x80 + c / 64 % 64) ∷ (0x80 + c % 64) ∷ []

unfoldable pub encode_utf8 : Str → Result Bytes
unfolding encode_char
encode_utf8 [] = ok []
encode_utf8 (c ∷ s) =
    if is_scalar c
    then (do rest ← encode_utf8 s; ok (encode_char c ++ rest))
    else err unicode_encode

-- The decoder between two bytes: `pending k acc lo hi` waits for k + 1 continuation bytes, the
-- first of them from lo to hi, and has read the bits `acc`.
pub data Utf8State : Type 0 where
  start : Utf8State
  pending : ℕ → ℕ → ℕ → ℕ → Utf8State

pub data Utf8Step : Type 0 where
  bad : Utf8Step
  emit : ℕ → Utf8Step
  wait : Utf8State → Utf8Step

-- The bounds on the second byte rule out long forms, surrogates and values above U+10FFFF.
unfoldable pub lead_byte : ℕ → Utf8Step
lead_byte b =
    if ltb b 0x80
    then emit b
    else if ltb b 0xc2
    then bad
    else if ltb b 0xe0
    then wait (pending 0 (b - 0xc0) 0x80 0xbf)
    else if ltb b 0xf0
    then wait (
        pending 1 (b - 0xe0) (if ltb b 0xe1 then 0xa0 else 0x80)
          (if between 0xed 0xed b then 0x9f else 0xbf))
    else if ltb b 0xf5
    then wait (
        pending 2 (b - 0xf0) (if ltb b 0xf1 then 0x90 else 0x80)
          (if ltb b 0xf4 then 0xbf else 0x8f))
    else bad

unfoldable pub utf8_step : Utf8State → ℕ → Utf8Step
unfolding lead_byte
utf8_step start b = lead_byte b
utf8_step (pending zero acc lo hi) b = if between lo hi b then emit (acc * 64 + (b - 0x80)) else bad
utf8_step (pending (suc k) acc lo hi) b =
    if between lo hi b then wait (pending k (acc * 64 + (b - 0x80)) 0x80 0xbf) else bad

unfoldable pub decode_from : Utf8State → Bytes → Result Str
unfolding utf8_step
decode_from start [] = ok []
decode_from (pending k acc lo hi) [] = err unicode_decode
decode_from state (b ∷ bs) = elim (utf8_step state b) [
  | bad ↦ err unicode_decode
  | emit c ↦ (do rest ← decode_from start bs; ok (c ∷ rest))
  | wait state' ↦ decode_from state' bs
]

unfoldable pub decode_utf8 : Bytes → Result Str
unfolding decode_from
decode_utf8 bs = decode_from start bs

-- One character of the text is read back, whatever follows it.
decode-encode_char :
    (c : ℕ) (bs : Bytes)
    → is_scalar c ≡ true
    → decode_from start (encode_char c ++ bs) ≡ (do rest ← decode_from start bs; ok (c ∷ rest))
unfolding decode_from encode_char
decode-encode_char c bs h = ground arith

-- A text that is encoded decodes to itself.
pub decode-encode_utf8 : (s : Str) (bs : Bytes) → encode_utf8 s ≡ ok bs → decode_utf8 bs ≡ ok s
unfolding encode_utf8 decode_utf8
decode-encode_utf8 [] bs h = unfold decode_from in cc
decode-encode_utf8 (c ∷ s) bs h = elim (Bool-cases (is_scalar c)) [
  | inl scalar ↦
      let (rest, e, f) =
        >>=-eq-ok (encode_utf8 s) (λ r. ok (encode_char c ++ r)) (rw scalar at h) in
      cc (f, decode-encode_char c rest scalar, decode-encode_utf8 s rest e)
  | inr surrogate ↦ cc (rw surrogate at h)
]

encode_char-IsByte : (c : ℕ) → is_scalar c ≡ true → All IsByte (encode_char c)
unfolding encode_char
encode_char-IsByte c h = ground arith

pub encode_utf8-IsByte : (s : Str) (bs : Bytes) → encode_utf8 s ≡ ok bs → All IsByte bs
unfolding encode_utf8
encode_utf8-IsByte [] bs h = rw (sym (ok-injective h)) tt
encode_utf8-IsByte (c ∷ s) bs h = elim (Bool-cases (is_scalar c)) [
  | inl scalar ↦
      let (rest, encoded, whole) =
        >>=-eq-ok (encode_utf8 s) (λ r. ok (encode_char c ++ r)) (rw scalar at h) in
      rw (sym (ok-injective whole)) (
        All-append IsByte (encode_char c) rest (encode_char-IsByte c scalar)
          (encode_utf8-IsByte s rest encoded))
  | inr surrogate ↦ cc (rw surrogate at h)
]

-- A text of scalar values can be encoded, and only such a text.
pub encode_utf8-total : (s : Str) → AllScalar s → (bs : Bytes) × (encode_utf8 s ≡ ok bs)
unfolding encode_utf8
encode_utf8-total [] h = ([], refl)
encode_utf8-total (c ∷ s) h =
    let (bs, e) = encode_utf8-total s h.1 in (encode_char c ++ bs, rw (h.0, e))

accents :
    (do bs ← encode_utf8 (0x41 ∷ 0xe9 ∷ 0x20ac ∷ 0x1f600 ∷ []); decode_utf8 bs)
    ≡ ok (0x41 ∷ 0xe9 ∷ 0x20ac ∷ 0x1f600 ∷ [])
unfolding encode_utf8 decode_utf8
accents = refl

surrogate : encode_utf8 (0xd800 ∷ []) ≡ err unicode_encode
unfolding encode_utf8
surrogate = refl

overlong : decode_utf8 (0xc0 ∷ 0x80 ∷ []) ≡ err unicode_decode
unfolding decode_utf8
overlong = refl

-- Only the empty text has no bytes.
pub is_empty-encode_utf8 : (s : Str) (bs : Bytes) → encode_utf8 s ≡ ok bs → is_empty bs ≡ is_empty s
unfolding encode_utf8 encode_char
is_empty-encode_utf8 [] bs h = ground arith
is_empty-encode_utf8 (c ∷ s) bs h = ground arith

-- The one exception of `decode_utf8`.
abbrev pub NotUtf8 : Exn → Type 0
NotUtf8 e = e ≡ unicode_decode

decode_next-Raises :
    (step : Utf8Step) (bs : Bytes)
    → ((state : Utf8State) → Raises NotUtf8 (decode_from state bs))
    → Raises NotUtf8 (elim step as (λ _. Result Str) [
      | bad ↦ err unicode_decode
      | emit c ↦ (do rest ← decode_from start bs; ok (c ∷ rest))
      | wait state ↦ decode_from state bs
    ])
decode_next-Raises bad bs ih = refl
decode_next-Raises (emit c) bs ih =
    Raises->>= NotUtf8 (decode_from start bs) _ (ih start) (λ s h. tt)
decode_next-Raises (wait state) bs ih = ih state

decode_from-Raises : (state : Utf8State) (bs : Bytes) → Raises NotUtf8 (decode_from state bs)
unfolding decode_from
decode_from-Raises start [] = tt
decode_from-Raises (pending k acc lo hi) [] = refl
decode_from-Raises start (b ∷ bs) =
    decode_next-Raises (utf8_step start b) bs (λ state. decode_from-Raises state bs)
decode_from-Raises (pending k acc lo hi) (b ∷ bs) =
    decode_next-Raises (utf8_step (pending k acc lo hi) b) bs (λ state. decode_from-Raises state bs)

pub decode_utf8-Raises : (bs : Bytes) → Raises NotUtf8 (decode_utf8 bs)
unfolding decode_utf8
decode_utf8-Raises bs = decode_from-Raises start bs
