-- ===== src/Wire/RoundTrip/Numbers.antt =====
-- The responses that carry numbers alone decode to what the server wrote.
use ditto_client.Prelude.{
  ℕ, zero, suc, ◌^◌, ◌<◌, ◌≡◌, refl, ap, sym, ◌∙◌, some, Bool, true, false, [], ◌∷◌, ◌++◌, arith,
  if◌then◌else◌, length, All, All-append,
}
use ditto_client.Prelude.Int.{ℤ, pos, negsuc, mask64}
use ditto_client.Python.Text.{Bytes}
use ditto_client.Python.Errors.{ok-injective, ok}
use ditto_client.Wire.Message.{number, print, print-append, Fits, varint_range}
use ditto_client.Wire.Response.{ClientResponse, SimpleType}
use ditto_client.Wire.Reader.{signed64}
use ditto_client.Wire.Frames.{
  encode_version_response_inner, encode_set_nx_response_inner, encode_counter_response_inner,
}
use ditto_client.Wire.Decode.{decode_variant, decode_count, decode_ok_response}
use ditto_client.Wire.Fold.{fold}
use ditto_client.Wire.Printed.{number_fields, uint64_field_lem, int64_field_lem}
use ditto_client.Wire.Meaning.{
  count_step, decode_count-print, set_nx_step, decode_set_nx_response-print, counter_step,
  decode_counter_response-print,
}
use ditto_client.Wire.RoundTrip.Folds.{Narrow, Narrow-Fits, Narrow-number_fields}
use ditto_client.Wire.RoundTrip.Server.{server_message, IsU64, IsI64, Decodes}

-- The bits that `& 0xFFFFFFFFFFFFFFFF` keeps stand for the number itself.
signed64-mask64 : (z : ℤ) → IsI64 z → (signed64 (mask64 z) ≡ z) × (mask64 z < 2 ^ 64)
signed64-mask64 (pos n) h = ground arith
signed64-mask64 (negsuc n) h = ground arith

pub simple-Decodes : (kind : SimpleType) → Decodes (ClientResponse.simple kind)
unfolding server_message decode_variant
simple-Decodes SimpleType.deleted inner e small = refl
simple-Decodes kind inner e small = refl

-- One number in field 1.
version_inner :
    (v : ℕ) (inner : Bytes)
    → encode_version_response_inner (pos v) ≡ ok inner
    → inner ≡ print (number_fields 1 v)
unfolding encode_version_response_inner
version_inner v inner e = cc (uint64_field_lem 1 v)

fold-number_fields : (v : ℕ) → fold count_step 0 (number_fields 1 v) ≡ ok v
fold-number_fields zero = refl
fold-number_fields (suc v) = refl

count_inner :
    (v : ℕ) (inner : Bytes)
    → IsU64 v
    → encode_version_response_inner (pos v) ≡ ok inner
    → length inner < 2 ^ 32
    → (decode_count inner ≡ ok v) × (decode_ok_response inner ≡ ok (ClientResponse.ok_version v))
count_inner v inner range e small =
    let shape = version_inner v inner e in
    let fits =
      Narrow-Fits (number_fields 1 v) (Narrow-number_fields 1 v (omega arith) (omega arith))
        (rw shape at small) in
    let (a, b) = decode_count-print (number_fields 1 v) fits in
    (rw shape (a ∙ fold-number_fields v), rw shape (b ∙ rw (fold-number_fields v)))

pub ok_version-Decodes : (v : ℕ) → IsU64 v → Decodes (ClientResponse.ok_version v)
unfolding server_message decode_variant
ok_version-Decodes v range inner e small = ap some (count_inner v inner range e small).1

pub pattern_deleted-Decodes : (v : ℕ) → IsU64 v → Decodes (ClientResponse.pattern_deleted v)
unfolding server_message decode_variant
pattern_deleted-Decodes v range inner e small = rw (count_inner v inner range e small).0

pub pattern_ttl_updated-Decodes : (v : ℕ) → IsU64 v → Decodes (ClientResponse.pattern_ttl_updated v)
unfolding server_message decode_variant
pattern_ttl_updated-Decodes v range inner e small = rw (count_inner v inner range e small).0

-- Two numbers, in the fields 1 and 2.
pair-Fits :
    (a b : ℕ) (inner : Bytes)
    → a < varint_range
    → IsU64 b
    → inner ≡ print (number_fields 1 a ++ number_fields 2 b)
    → length inner < 2 ^ 32
    → All Fits (number_fields 1 a ++ number_fields 2 b)
pair-Fits a b inner ha hb shape small =
    Narrow-Fits (number_fields 1 a ++ number_fields 2 b)
      (All-append Narrow (number_fields 1 a) (number_fields 2 b)
        (Narrow-number_fields 1 a (omega arith) ha)
        (Narrow-number_fields 2 b (omega arith) (omega arith)))
      (rw shape at small)

abbrev flag : Bool → ℕ
flag created = if created then 1 else 0

fold-set_nx :
    (created : Bool) (version : ℕ)
    → fold set_nx_step (false, 0) (number_fields 1 (flag created) ++ number_fields 2 version)
      ≡ ok (created, version)
fold-set_nx true zero = refl
fold-set_nx true (suc version) = refl
fold-set_nx false zero = refl
fold-set_nx false (suc version) = refl

set_nx_inner :
    (created : Bool) (v : ℕ)
    → encode_set_nx_response_inner created (pos v)
      ≡ ok (print (number_fields 1 (flag created) ++ number_fields 2 v))
unfolding encode_set_nx_response_inner
set_nx_inner true v = simp (uint64_field_lem, print-append)
set_nx_inner false v = simp (uint64_field_lem, print-append)

pub set_nx-Decodes : (created : Bool) (v : ℕ) → IsU64 v → Decodes (ClientResponse.set_nx created v)
unfolding server_message decode_variant
set_nx-Decodes created v range inner e small =
    let shape = ok-injective (sym e ∙ set_nx_inner created v) in
    let fits = pair-Fits (flag created) v inner (ground arith) range shape small in
    rw shape (
      rw (decode_set_nx_response-print (number_fields 1 (flag created) ++ number_fields 2 v) fits)
        (rw (fold-set_nx created v)))

fold-counter :
    (bits version : ℕ)
    → fold counter_step (pos 0, 0) (number 1 bits ∷ number_fields 2 version)
      ≡ ok (signed64 bits, version)
fold-counter bits zero = refl
fold-counter bits (suc version) = refl

counter_inner :
    (value : ℤ) (v : ℕ)
    → encode_counter_response_inner value (pos v)
      ≡ ok (print (number 1 (mask64 value) ∷ number_fields 2 v))
unfolding encode_counter_response_inner
counter_inner value v = rw (int64_field_lem 1 value) (
    rw (uint64_field_lem 2 v)
      (ap ok (sym (print-append (number 1 (mask64 value) ∷ []) (number_fields 2 v)))))

pub counter-Decodes :
    (value : ℤ) (v : ℕ) → IsI64 value × IsU64 v → Decodes (ClientResponse.counter value v)
unfolding server_message decode_variant
counter-Decodes value v range inner e small =
    let shape = ok-injective (sym e ∙ counter_inner value v) in
    let (back, bits) = signed64-mask64 value range.0 in
    let fits =
      Narrow-Fits (number 1 (mask64 value) ∷ number_fields 2 v)
        ((omega arith, omega arith), Narrow-number_fields 2 v (omega arith) (omega arith))
        (rw shape at small) in
    rw shape (
      rw (decode_counter_response-print (number 1 (mask64 value) ∷ number_fields 2 v) fits)
        (rw (fold-counter (mask64 value) v) (rw back)))
