-- ===== src/Wire/RoundTrip/Folds.antt =====
-- Which messages the reader can read: every length is bounded by that of the message.
use ditto_client.Prelude.{
  ℕ, zero, suc, ◌+◌, ◌^◌, ◌≤◌, ◌<◌, ◌≡◌, List, [], ◌∷◌, ◌++◌, arith, length, length-append, All,
}
use ditto_client.Python.Text.{Bytes}
use ditto_client.Wire.Message.{
  Field, number, delimited, fixed64, fixed32, print, body_bytes, tag_bytes, Fits, varint_range,
  varint,
}
use ditto_client.Wire.Envelope.{envelope}
use ditto_client.Wire.Printed.{bytes_fields, number_fields}

-- A field with a small number; the length of its bytes is left open.
abbrev pub Narrow : Field → Type 0
Narrow (number n v) = (n < 100) × (v < varint_range)
Narrow (delimited n bs) = n < 100
Narrow (fixed64 n bs) = ⊥
Narrow (fixed32 n bs) = ⊥

length-print-cons :
    (f : Field) (fs : List Field)
    → length (print (f ∷ fs)) ≡ length (tag_bytes f) + length (body_bytes f) + length (print fs)
unfolding print
length-print-cons f fs = omega (
  arith,
  length-append (tag_bytes f) (body_bytes f ++ print fs),
  length-append (body_bytes f) (print fs),
)

length-le-body : (n : ℕ) (bs : Bytes) → length bs ≤ length (body_bytes (delimited n bs))
length-le-body n bs = omega (arith, length-append (varint (length bs)) bs)

pub Narrow-Fits_wide :
    (fs : List Field) → All Narrow fs → length (print fs) < varint_range → All Fits fs
Narrow-Fits_wide [] h k = tt
Narrow-Fits_wide (number n v ∷ fs) h k = (
  (omega arith, h.0.1),
  Narrow-Fits_wide fs h.1 (omega (arith, length-print-cons (number n v) fs)),
)
Narrow-Fits_wide (delimited n bs ∷ fs) h k = (
  (omega arith, omega (arith, length-print-cons (delimited n bs) fs, length-le-body n bs)),
  Narrow-Fits_wide fs h.1 (omega (arith, length-print-cons (delimited n bs) fs)),
)
Narrow-Fits_wide (fixed64 n bs ∷ fs) h k = absurd h.0
Narrow-Fits_wide (fixed32 n bs ∷ fs) h k = absurd h.0

pub Narrow-Fits : (fs : List Field) → All Narrow fs → length (print fs) < 2 ^ 32 → All Fits fs
Narrow-Fits fs h k = Narrow-Fits_wide fs h (omega arith)

pub Narrow-bytes_fields : (n : ℕ) (bs : Bytes) → n < 100 → All Narrow (bytes_fields n bs)
Narrow-bytes_fields n [] h = tt
Narrow-bytes_fields n (b ∷ bs) h = (h, tt)

pub Narrow-number_fields : (n v : ℕ) → n < 100 → v < varint_range → All Narrow (number_fields n v)
Narrow-number_fields n zero h k = tt
Narrow-number_fields n (suc v) h k = ((h, k), tt)

-- An envelope is longer than what it holds.
pub length-envelope :
    (field variant : ℕ) (inner : Bytes)
    → let payload : Bytes = print (delimited variant inner ∷ []) in
      (length payload ≤ length (envelope field (delimited variant inner ∷ [])))
      × (length inner ≤ length payload)
length-envelope field variant inner = omega (
  arith,
  length-print-cons (number 1 1) (delimited field (print (delimited variant inner ∷ [])) ∷ []),
  length-print-cons (delimited field (print (delimited variant inner ∷ []))) [],
  length-le-body field (print (delimited variant inner ∷ [])),
  length-print-cons (delimited variant inner) [],
  length-le-body variant inner,
)
