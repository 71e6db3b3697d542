-- ===== src/Wire/RoundTrip/Events.antt =====
-- A watch event decodes to what the server wrote: no value and an empty value are told apart.
use ditto_client.Prelude.{
  ℕ, zero, suc, ◌<◌, ◌≡◌, refl, sym, ◌∙◌, Option, none, some, List, [], ◌∷◌, ◌++◌, arith, length,
  All, All-append,
}
use ditto_client.Prelude.Int.{pos}
use ditto_client.Python.Text.{Str, Bytes}
use ditto_client.Python.Utf8.{encode_utf8, decode_utf8, decode_from, decode-encode_utf8}
use ditto_client.Python.Errors.{ok-injective, ok, ◌>>=◌, >>=-eq-ok}
use ditto_client.Wire.Message.{Field, delimited, print, Fits, varint_range}
use ditto_client.Wire.Response.{ClientResponse}
use ditto_client.Wire.Frames.{encode_watch_event_inner, watch_value_part}
use ditto_client.Wire.Decode.{decode_variant, decode_optional_bytes}
use ditto_client.Wire.Fold.{fold}
use ditto_client.Wire.Printed.{
  bytes_fields, number_fields, uint64_field_lem, ld_field_always_lem, parts,
}
use ditto_client.Wire.Meaning.{
  watch_event_step, decode_watch_event-print, decode_optional_bytes-print,
}
use ditto_client.Wire.RoundTrip.Folds.{
  Narrow, Narrow-Fits, Narrow-Fits_wide, Narrow-bytes_fields, Narrow-number_fields,
}
use ditto_client.Wire.RoundTrip.Server.{server_message, IsU64, Decodes}

-- The value of a watch event, in an OptionalBytes that is there for an empty value too.
abbrev event_value : Option Bytes → List Field
event_value none = []
event_value (some value) = delimited 2 (print (bytes_fields 1 value)) ∷ []

abbrev event_message : Bytes → Option Bytes → ℕ → List Field
event_message k value version = bytes_fields 1 k ++ (event_value value ++ number_fields 3 version)

event-Narrow :
    (k : Bytes) (value : Option Bytes) (version : ℕ)
    → IsU64 version
    → All Narrow (event_message k value version)
event-Narrow k value version h =
    All-append Narrow (bytes_fields 1 k) (event_value value ++ number_fields 3 version)
      (Narrow-bytes_fields 1 k (omega arith))
      (All-append Narrow (event_value value) (number_fields 3 version) (narrow_value value)
        (Narrow-number_fields 3 version (omega arith) (omega arith)))
  where
    narrow_value : (value : Option Bytes) → All Narrow (event_value value)
    narrow_value none = tt
    narrow_value (some b) = (omega arith, tt)

optional_value :
    (value : Bytes)
    → length (print (bytes_fields 1 value)) < varint_range
    → decode_optional_bytes (print (bytes_fields 1 value)) ≡ ok value
optional_value [] h = decode_optional_bytes-print [] tt
optional_value (b ∷ bs) h =
    decode_optional_bytes-print (bytes_fields 1 (b ∷ bs))
      (Narrow-Fits_wide (bytes_fields 1 (b ∷ bs)) (Narrow-bytes_fields 1 (b ∷ bs) (omega arith)) h)

event_key_fold :
    (k : Bytes) (key : Str) (rest : List Field)
    → decode_utf8 k ≡ ok key
    → fold watch_event_step ([], none, 0) (bytes_fields 1 k ++ rest)
      ≡ fold watch_event_step (key, none, 0) rest
unfolding decode_utf8 decode_from
event_key_fold [] key rest h = ground arith
event_key_fold (b ∷ k) key rest h = rw h

event_fold :
    (key : Str) (value : Option Bytes) (version : ℕ)
    → All Fits (event_value value)
    → fold watch_event_step (key, none, 0) (event_value value ++ number_fields 3 version)
      ≡ ok (key, value, version)
event_fold key none zero h = refl
event_fold key none (suc version) h = refl
event_fold key (some value) zero h = rw (optional_value value h.0.1)
event_fold key (some value) (suc version) h = rw (optional_value value h.0.1)

event_inner :
    (key : Str) (value : Option Bytes) (version : ℕ)
    → encode_watch_event_inner key value (pos version)
      ≡ (do k ← encode_utf8 key; ok (print (event_message k value version)))
unfolding encode_watch_event_inner watch_value_part
event_inner key none version = unfold print in simp (parts, uint64_field_lem)
event_inner key (some value) version = simp (parts, uint64_field_lem, ld_field_always_lem)

All-tail : (fs gs : List Field) → All Fits (fs ++ gs) → All Fits fs × All Fits gs
All-tail [] gs h = (tt, h)
All-tail (f ∷ fs) gs h = let (a, b) = All-tail fs gs h.1 in ((h.0, a), b)

pub watch_event-Decodes :
    (key : Str) (value : Option Bytes) (version : ℕ)
    → IsU64 version
    → Decodes (ClientResponse.watch_event key value version)
unfolding server_message decode_variant
watch_event-Decodes key value version range inner e small =
    let (k, he, hk) =
      >>=-eq-ok (encode_utf8 key) (λ k. ok (print (event_message k value version)))
        (sym (event_inner key value version) ∙ e) in
    let shape = sym (ok-injective hk) in
    let fits =
      Narrow-Fits (event_message k value version) (event-Narrow k value version range)
        (rw shape at small) in
    let rest = event_value value ++ number_fields 3 version in
    let (_, rest_fits) = All-tail (bytes_fields 1 k) rest fits in
    let (value_fits, _) = All-tail (event_value value) (number_fields 3 version) rest_fits in
    rw shape (
      rw (decode_watch_event-print (event_message k value version) fits) (
        rw (event_key_fold k key rest (decode-encode_utf8 key k he))
          (rw (event_fold key value version value_fits))))
