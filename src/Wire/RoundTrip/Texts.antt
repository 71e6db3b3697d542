-- ===== src/Wire/RoundTrip/Texts.antt =====
-- The responses that carry texts and bytes decode to what the server wrote.
use ditto_client.Prelude.{
  ℕ, zero, suc, ◌≡◌, refl, sym, ◌∙◌, List, [], ◌∷◌, ◌++◌, arith, All, All-append,
}
use ditto_client.Prelude.Int.{pos}
use ditto_client.Python.Text.{Str, Bytes}
use ditto_client.Python.Utf8.{encode_utf8, decode_utf8, decode_from, decode-encode_utf8}
use ditto_client.Python.Errors.{ok-injective, ok, ◌>>=◌, >>=-eq-ok, ErrorCode}
use ditto_client.Wire.Message.{Field, print}
use ditto_client.Wire.Response.{ClientResponse}
use ditto_client.Wire.Frames.{encode_error_response_inner}
use ditto_client.Wire.Decode.{decode_variant}
use ditto_client.Wire.Fold.{fold}
use ditto_client.Wire.Printed.{bytes_fields, number_fields, uint64_field_lem, enum_field_lem, parts}
use ditto_client.Wire.Meaning.{
  value_step, decode_value_response-print, error_step, decode_error_response-print,
}
use ditto_client.Wire.RoundTrip.Folds.{
  Narrow, Narrow-Fits, Narrow-bytes_fields, Narrow-number_fields,
}
use ditto_client.Wire.RoundTrip.Server.{
  server_message, code_index, code_index-lt, error_code-code_index, IsU64, Decodes,
}

-- A text in field 1 becomes the key, also where it is empty and left out.
key_fold :
    (k : Bytes) (key : Str) (rest : List Field)
    → decode_utf8 k ≡ ok key
    → fold value_step ([], [], 0) (bytes_fields 1 k ++ rest) ≡ fold value_step (key, [], 0) rest
unfolding decode_utf8 decode_from
key_fold [] key rest h = ground arith
key_fold (b ∷ k) key rest h = rw h

value_fold :
    (key : Str) (value : Bytes) (version : ℕ)
    → fold value_step (key, [], 0) (bytes_fields 2 value ++ number_fields 3 version)
      ≡ ok (key, value, version)
value_fold key [] zero = refl
value_fold key [] (suc version) = refl
value_fold key (b ∷ value) zero = refl
value_fold key (b ∷ value) (suc version) = refl

abbrev value_message : Bytes → Bytes → ℕ → List Field
value_message k value version =
    bytes_fields 1 k ++ (bytes_fields 2 value ++ number_fields 3 version)

value-Narrow :
    (k value : Bytes) (version : ℕ) → IsU64 version → All Narrow (value_message k value version)
value-Narrow k value version h =
    All-append Narrow (bytes_fields 1 k) (bytes_fields 2 value ++ number_fields 3 version)
      (Narrow-bytes_fields 1 k (omega arith))
      (All-append Narrow (bytes_fields 2 value) (number_fields 3 version)
        (Narrow-bytes_fields 2 value (omega arith))
        (Narrow-number_fields 3 version (omega arith) (omega arith)))

value_inner :
    (key : Str) (value : Bytes) (version : ℕ)
    → (server_message (ClientResponse.value key value version)).1
      ≡ (do k ← encode_utf8 key; ok (print (value_message k value version)))
unfolding server_message
value_inner key value version = simp (parts, uint64_field_lem)

pub value-Decodes :
    (key : Str) (value : Bytes) (version : ℕ)
    → IsU64 version
    → Decodes (ClientResponse.value key value version)
unfolding decode_variant
value-Decodes key value version range inner e small =
    let (k, he, hk) =
      >>=-eq-ok (encode_utf8 key) (λ k. ok (print (value_message k value version)))
        (sym (value_inner key value version) ∙ e) in
    let shape = sym (ok-injective hk) in
    let decoded = decode-encode_utf8 key k he in
    let fits =
      Narrow-Fits (value_message k value version) (value-Narrow k value version range)
        (rw shape at small) in
    unfold server_message in
    rw shape (
      rw (decode_value_response-print (value_message k value version) fits) (
        rw (key_fold k key (bytes_fields 2 value ++ number_fields 3 version) decoded)
          (rw (value_fold key value version))))

abbrev error_message : ℕ → Bytes → List Field
error_message code m = number_fields 1 code ++ bytes_fields 2 m

error_fold :
    (code : ℕ) (m : Bytes) (message : Str)
    → decode_utf8 m ≡ ok message
    → fold error_step (0, []) (error_message code m) ≡ ok (code, message)
unfolding decode_utf8 decode_from
error_fold zero [] message h = ground arith
error_fold (suc code) [] message h = ground arith
error_fold zero (b ∷ m) message h = rw h
error_fold (suc code) (b ∷ m) message h = rw h

error_inner :
    (code : ℕ) (message : Str)
    → encode_error_response_inner (pos code) message
      ≡ (do m ← encode_utf8 message; ok (print (error_message code m)))
unfolding encode_error_response_inner
error_inner code message = simp (parts, enum_field_lem)

pub error-Decodes : (code : ErrorCode) (message : Str) → Decodes (ClientResponse.error code message)
unfolding server_message decode_variant
error-Decodes code message inner e small =
    let index : ℕ = code_index code in
    let (m, he, hm) =
      >>=-eq-ok (encode_utf8 message) (λ m. ok (print (error_message index m)))
        (sym (error_inner index message) ∙ e) in
    let shape = sym (ok-injective hm) in
    let fits =
      Narrow-Fits (error_message index m)
        (All-append Narrow (number_fields 1 index) (bytes_fields 2 m)
          (Narrow-number_fields 1 index (omega arith) (omega (arith, code_index-lt code)))
          (Narrow-bytes_fields 2 m (omega arith)))
        (rw shape at small) in
    rw shape (
      rw (decode_error_response-print (error_message index m) fits) (
        rw (error_fold index m message (decode-encode_utf8 message m he))
          (rw (error_code-code_index code))))
