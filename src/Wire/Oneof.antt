-- ===== src/Wire/Oneof.antt =====
-- The second loop of `decode_response`, and the function on printed envelopes.
use ditto_client.Prelude.{
  ℕ, zero, suc, ◌≤◌, ◌≡◌, ◌∙◌, none, some, true, false, not, ◌&&◌, List, [], ◌∷◌, ◌++◌, arith, ◌==◌,
  if◌then◌else◌, length, length-append, All,
}
use ditto_client.Python.Text.{Bytes}
use ditto_client.Python.Errors.{Result, ok, err, no_response_field, unsupported_version, ◌>>=◌}
use ditto_client.Wire.Message.{
  Field, number, delimited, fixed64, fixed32, number_of, wire_of, body_bytes, tag_bytes, print,
  Fits, length-le-print,
}
use ditto_client.Wire.Reader.{Reader, skip, read_tag, read_ld, has_remaining}
use ditto_client.Wire.Response.{ClientResponse}
use ditto_client.Wire.Cursor.{at, read_ld-delimited}
use ditto_client.Wire.Fold.{skip-body, read_tag-field, has_remaining-field, fold}
use ditto_client.Wire.Meaning.{envelope_step, envelope-print}
use ditto_client.Wire.Decode.{decode_variant, response_loop, check_envelope, decode_response}

-- The response in a ClientResponse message: the first variant that this client knows.
abbrev pub first_variant : List Field → Result ClientResponse
first_variant [] = err no_response_field
first_variant (delimited n bs ∷ fs) = elim (decode_variant n bs) [
  | some result ↦ result
  | none ↦ first_variant fs
]
first_variant (f ∷ fs) = first_variant fs

-- A round of the loop behind a tag that is read.
abbrev respond : ℕ → ℕ → ℕ → Reader → Result ClientResponse
respond fuel field wire r = elim (wire == 2) [
  | false ↦ (do r' ← skip wire r; response_loop fuel r')
  | true ↦ (do
    (inner, r') ← read_ld r
    elim (decode_variant field inner) [ some result ↦ result | none ↦ response_loop fuel r' ])
]

response_round :
    (fuel : ℕ) (r : Reader) {n w : ℕ} {r' : Reader}
    → has_remaining r ≡ true
    → read_tag r ≡ ok (n, w, r')
    → response_loop (suc fuel) r ≡ respond fuel n w r'
unfolding response_loop
response_round fuel r left tag = rw (left, response_loop) (rw tag)

response_step :
    (f : Field) (fs : List Field) (fuel : ℕ) (middle : Bytes)
    → Fits f
    → ((front : Bytes) → response_loop fuel (at front (print fs)) ≡ first_variant fs)
    → respond fuel (number_of f) (wire_of f) (at middle (body_bytes f ++ print fs))
      ≡ first_variant (f ∷ fs)
response_step (number n v) fs fuel middle h ih =
    rw (skip-body (number n v) middle (print fs) h.1) (ih _)
response_step (delimited n bs) fs fuel middle h ih =
    rw (read_ld-delimited bs middle (print fs) h.1) (λ i. elim (decode_variant n bs) [
      | some result ↦ result
      | none ↦ ih (middle ++ body_bytes (delimited n bs)) i
    ])
response_step (fixed64 n bs) fs fuel middle h ih =
    rw (skip-body (fixed64 n bs) middle (print fs) h.1) (ih _)
response_step (fixed32 n bs) fs fuel middle h ih =
    rw (skip-body (fixed32 n bs) middle (print fs) h.1) (ih _)

response_loop-print :
    (fs : List Field) (fuel : ℕ) (front : Bytes)
    → All Fits fs
    → length fs ≤ fuel
    → response_loop fuel (at front (print fs)) ≡ first_variant fs
unfolding print
response_loop-print [] zero front h k =
    unfold response_loop in ground (arith, length-append front [])
response_loop-print [] (suc fuel) front h k =
    unfold response_loop in ground (arith, length-append front [])
response_loop-print (f ∷ fs) zero front h k = absurd (omega arith)
response_loop-print (f ∷ fs) (suc fuel) front h k =
    response_round fuel _ (has_remaining-field f front (body_bytes f ++ print fs))
      (read_tag-field f front (body_bytes f ++ print fs) h.0)
    ∙ response_step f fs fuel (front ++ tag_bytes f) h.0
        (λ front'. response_loop-print fs fuel front' h.1 (omega arith))

-- `decode_response` on a printed envelope, if the last payload in it is present and is itself a printed
-- message, and if the numbers and the sizes of all fields of both messages fit the wire: it raises
-- unless the last version is 0 or 1, and otherwise decodes the first variant in the payload that the
-- client knows, and raises if there is none.
pub decode_response-print :
    (fs gs : List Field) (version : ℕ)
    → All Fits fs
    → All Fits gs
    → fold envelope_step (0, none) fs ≡ ok (version, some (print gs))
    → decode_response (print fs) ≡ (
        if not (version == 0) && not (version == 1)
        then err (unsupported_version version)
        else first_variant gs)
unfolding decode_response check_envelope
decode_response-print fs gs version hf hg e =
    rw (envelope-print fs hf)
      (rw e (ground (arith, response_loop-print gs (length (print gs)) [] hg (length-le-print gs))))
