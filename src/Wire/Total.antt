-- ===== src/Wire/Total.antt =====
-- `decode_response` on every buffer, well formed or not: the fuel of its loops, and what it raises.
pub mod Moves
pub mod Bodies
pub mod Within
use ditto_client.Prelude.{
  ℕ, zero, suc, ◌+◌, ◌≤◌, ◌≡◌, refl, Option, none, some, Bool, true, false, not, arith, ltb, ◌==◌,
  ◌&&◌, if◌then◌else◌, length, Bool-cases, inl, inr,
}
use ditto_client.Python.Text.{Bytes}
use ditto_client.Python.Errors.{
  Result, ok, err, out_of_fuel, unsupported_version, missing_response, Raises, Raises->>=, ◌>>=◌,
  bind_assoc,
}
use ditto_client.Wire.Reader.{Reader, reader, read_varint, read_tag, read_ld, skip, has_remaining}
use ditto_client.Wire.Response.{ClientResponse}
use ditto_client.Wire.Decode.{
  decode_variant, response_loop, check_envelope, decode_response, envelope_body, read_fields,
}
use Moves.{IsWhole, IsOwn, Further, Safe-Raises, read_varint-Safe, read_ld-Safe, skip-Safe}
use Bodies.{Variant, decode_variant-Raises, envelope_body-Safe, read_fields-Raises}

Variant-Raises :
    (o : Option (Result ClientResponse)) (next : Result ClientResponse)
    → Variant o
    → Raises IsOwn next
    → Raises IsOwn (elim o as (λ _. Result ClientResponse) [ some result ↦ result | none ↦ next ])
Variant-Raises none next v h = h
Variant-Raises (some result) next v h = v.ends

module _ (fuel : ℕ) (r : Reader) (w : IsWhole r)
    (next : (r' : Reader) → Further 0 r r' → Raises IsOwn (response_loop fuel r')) where
  skipped_Raises : (wire : ℕ) → Raises IsOwn (do r' ← skip wire r; response_loop fuel r')
  skipped_Raises wire =
      let unit : Unit {0} = tt in
      rw bind_assoc at (
        Safe-Raises (do r' ← skip wire r; ok (unit, r')) (λ p. response_loop fuel p.1) 0 r
          (skip-Safe wire unit r w) (λ _ r' m. next r' m))

  response_round-Raises :
      (b : Bool) (field wire : ℕ)
      → Raises IsOwn (elim b as (λ _. Result ClientResponse) [
        | false ↦ (do r' ← skip wire r; response_loop fuel r')
        | true ↦ (do
          (inner, r') ← read_ld r
          elim (decode_variant field inner) [ some result ↦ result | none ↦ response_loop fuel r' ])
      ])
  response_round-Raises false field wire = skipped_Raises wire
  response_round-Raises true field wire =
      Safe-Raises (read_ld r) _ 1 r (read_ld-Safe r w) λ inner r' m.
        Variant-Raises (decode_variant field inner) (response_loop fuel r')
          (decode_variant-Raises field inner)
          (next r' (record {
            same_buf = m.same_buf;
            same_limit = m.same_limit;
            whole = m.whole;
            forward = omega (arith, m.forward);
          }))

response_loop-Raises :
    (fuel : ℕ) (r : Reader)
    → IsWhole r
    → r.limit ≤ r.off + fuel
    → Raises IsOwn (response_loop fuel r)
unfolding response_loop read_tag
response_loop-Raises zero r w h = elim (Bool-cases (has_remaining r)) [
  | inl left ↦ absurd (ground arith)
  | inr done ↦ rw done tt
]
response_loop-Raises (suc fuel) r w h = elim (Bool-cases (has_remaining r)) [
  | inr done ↦ rw (done, response_loop) tt
  | inl left ↦
      rw (left, response_loop)
        (rw bind_assoc (
          Safe-Raises (read_varint r) _ 1 r (read_varint-Safe r w) λ t r' m.
            response_round-Raises fuel r' m.whole
              (λ r'' m'.
                response_loop-Raises fuel r'' m'.whole
                  (omega (arith, m.forward, m'.forward, m.same_limit, m'.same_limit)))
              _ _ _))
]

check_envelope-Raises : (locals : ℕ × Option Bytes) → Raises IsOwn (check_envelope locals)
unfolding check_envelope
check_envelope-Raises (version, none) = ground arith
check_envelope-Raises (version, some payload) = ground arith

-- On every buffer, well formed or not, `decode_response` returns a response or raises one of these: a
-- truncated or too long varint, a truncated field, an unsupported wire type or protocol version, a
-- missing response payload, a payload without a response field, or text that is not UTF-8. In
-- particular one round for each byte is enough for its loops.
pub decode_response-Raises : (buf : Bytes) → Raises IsOwn (decode_response buf)
unfolding decode_response
decode_response-Raises buf =
    Raises->>= IsOwn (read_fields envelope_body (0, none) buf) _
      (read_fields-Raises envelope_body envelope_body-Safe (0, none) buf)
      λ locals e.
        Raises->>= IsOwn (check_envelope locals) _ (check_envelope-Raises locals)
          λ payload e'. response_loop-Raises (length payload) (reader payload) refl (omega arith)
