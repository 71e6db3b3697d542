-- ===== src/Http/Quote.antt =====
-- `DittoHttpClientBase._url_encode`, which is `urllib.parse.quote(s, safe="")`, and what a server that
-- undoes it reads.
use ditto_client.Prelude.{
  ℕ, ◌+◌, ◌-◌, ◌*◌, ◌/◌, ◌%◌, ◌<◌, ◌≡◌, refl, sym, ap, ◌∙◌, Bool, true, false, [], ◌∷◌, ◌++◌, arith,
  ltb, ◌==◌, ◌||◌, if◌then◌else◌, All, Bool-cases, inl, inr,
}
use ditto_client.Python.Text.{Str, Bytes, IsByte, codes, between}
use ditto_client.Python.Utf8.{encode_utf8, decode_utf8, decode-encode_utf8, encode_utf8-IsByte}
use ditto_client.Python.Errors.{Result, ok, ◌>>=◌, >>=-eq-ok, ok-injective}

-- The characters that `quote` leaves alone.
unfoldable pub is_unreserved : ℕ → Bool
is_unreserved b =
    between b'A' b'Z' b
    || between b'a' b'z' b
    || between b'0' b'9' b
    || b == b'_'
    || b == b'.'
    || b == b'-'
    || b == b'~'

-- A digit of an upper-case hexadecimal number.
unfoldable pub upper_hex : ℕ → ℕ
upper_hex d = if ltb d 10 then b'0' + d else b'A' + (d - 10)

unfoldable pub quote_bytes : Bytes → Str
unfolding is_unreserved upper_hex
quote_bytes [] = []
quote_bytes (b ∷ bs) =
    let rest = quote_bytes bs in
    if is_unreserved b then b ∷ rest else b'%' ∷ upper_hex (b / 16) ∷ upper_hex (b % 16) ∷ rest

unfoldable pub url_encode : Str → Result Str
unfolding quote_bytes
url_encode s = do bs ← encode_utf8 s; ok (quote_bytes bs)

-- `/key/{self._url_encode(key)}`
unfoldable pub key_path : Str → Result Str
unfolding url_encode
key_path key = do segment ← url_encode key; ok (codes "/key/" ++ segment)

-- The value of a hexadecimal digit.
pub hex_value : ℕ → ℕ
hex_value c = if ltb c b'A' then c - b'0' else c - b'A' + 10

-- Percent-decoding, by the server.
pub unquote_bytes : Str → Bytes
unfolding hex_value
unquote_bytes [] = []
unquote_bytes (c ∷ []) = c ∷ []
unquote_bytes (c ∷ d ∷ []) = c ∷ d ∷ []
unquote_bytes (c ∷ d ∷ e ∷ s) =
    let rest = unquote_bytes s in
    let rest' = unquote_bytes (d ∷ e ∷ s) in
    if c == b'%' then (hex_value d * 16 + hex_value e) ∷ rest else c ∷ rest'

-- An unreserved character or a percent sign: no delimiter of a URL.
abbrev pub IsUrlSafe : ℕ → Type 0
IsUrlSafe c = (is_unreserved c || c == b'%') ≡ true

hex_value-upper_hex : (d : ℕ) → d < 16 → hex_value (upper_hex d) ≡ d
unfolding hex_value upper_hex
hex_value-upper_hex d h = ground arith

upper_hex-IsUrlSafe : (d : ℕ) → d < 16 → IsUrlSafe (upper_hex d)
unfolding is_unreserved upper_hex
upper_hex-IsUrlSafe d h = ground arith

is_unreserved-ne-percent : (b : ℕ) → is_unreserved b ≡ true → (b == b'%') ≡ false
unfolding is_unreserved
is_unreserved-ne-percent b h = ground arith

unquote_plain :
    (c : ℕ) (s : Str) → (c == b'%') ≡ false → unquote_bytes (c ∷ s) ≡ c ∷ unquote_bytes s
unfolding unquote_bytes
unquote_plain c [] h = refl
unquote_plain c (d ∷ []) h = refl
unquote_plain c (d ∷ e ∷ s) h = rw (unquote_bytes, h)

unquote_escape :
    (d e : ℕ) (s : Str)
    → unquote_bytes (b'%' ∷ d ∷ e ∷ s) ≡ (hex_value d * 16 + hex_value e) ∷ unquote_bytes s
unfolding unquote_bytes
unquote_escape d e s = refl

unquote_bytes-quote_bytes : (bs : Bytes) → All IsByte bs → unquote_bytes (quote_bytes bs) ≡ bs
unfolding quote_bytes
unquote_bytes-quote_bytes [] h = unfold unquote_bytes in refl
unquote_bytes-quote_bytes (b ∷ bs) h = elim (Bool-cases (is_unreserved b)) [
  | inl plain ↦ rw plain (
      unquote_plain b (quote_bytes bs) (is_unreserved-ne-percent b plain)
      ∙ ap (λ rest. b ∷ rest) (unquote_bytes-quote_bytes bs h.1))
  | inr other ↦ rw other (
      unquote_escape (upper_hex (b / 16)) (upper_hex (b % 16)) (quote_bytes bs)
      ∙ rw (hex_value-upper_hex (b / 16) (omega (arith, h.0))) (
          rw (hex_value-upper_hex (b % 16) (omega arith))
            (rw (unquote_bytes-quote_bytes bs h.1) (ap (λ (c : ℕ). c ∷ bs) (omega arith)))))
]

quote_bytes-IsUrlSafe : (bs : Bytes) → All IsByte bs → All IsUrlSafe (quote_bytes bs)
unfolding quote_bytes
quote_bytes-IsUrlSafe [] h = tt
quote_bytes-IsUrlSafe (b ∷ bs) h = elim (Bool-cases (is_unreserved b)) [
  | inl plain ↦ rw plain (ground (arith, plain), quote_bytes-IsUrlSafe bs h.1)
  | inr other ↦ rw other (
    refl,
    (
      upper_hex-IsUrlSafe (b / 16) (omega (arith, h.0)),
      (upper_hex-IsUrlSafe (b % 16) (omega arith), quote_bytes-IsUrlSafe bs h.1),
    ),
  )
]

-- A text that can be encoded becomes a path segment of unreserved characters and percent signs only,
-- from which percent-decoding and UTF-8 decoding give the text back.
pub url_encode_lem :
    (s segment : Str)
    → url_encode s ≡ ok segment
    → All IsUrlSafe segment × (decode_utf8 (unquote_bytes segment) ≡ ok s)
unfolding url_encode
url_encode_lem s segment h =
    let (bs, encoded, same) = >>=-eq-ok (encode_utf8 s) (λ bs. ok (quote_bytes bs)) h in
    let segment_of = ok-injective same in
    let bytes = encode_utf8-IsByte s bs encoded in
    (
      rw (sym segment_of) (quote_bytes-IsUrlSafe bs bytes),
      rw (sym segment_of)
          (rw (unquote_bytes-quote_bytes bs bytes) (decode-encode_utf8 s bs encoded)),
    )

pub key_path_lem :
    (key path : Str)
    → key_path key ≡ ok path
    → (segment : Str) × (codes "/key/" ++ segment ≡ path)
      × All IsUrlSafe segment
      × (decode_utf8 (unquote_bytes segment) ≡ ok key)
unfolding key_path
key_path_lem key path h =
    let (segment, encoded, same) =
      >>=-eq-ok (url_encode key) (λ segment. ok (codes "/key/" ++ segment)) h in
    let (safe, read_back) = url_encode_lem key segment encoded in
    (segment, ok-injective same, safe, read_back)
