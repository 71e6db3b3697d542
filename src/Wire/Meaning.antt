-- ===== src/Wire/Meaning.antt =====
-- What each response message means: for every list of fields that a server may print, in any order,
-- with repeats and with fields that this client does not know. The last field of a number wins, a
-- field of another number or wire type is passed over, and a text must be UTF-8.
use ditto_client.Prelude.{
  ℕ, ◌≡◌, Option, none, some, Bool, false, List, [], ◌++◌, arith, ltb, ◌==◌, if◌then◌else◌, All,
  length,
}
use ditto_client.Prelude.Int.{ℤ, pos}
use ditto_client.Python.Text.{Str, Bytes}
use ditto_client.Python.Utf8.{decode_utf8}
use ditto_client.Python.Errors.{Result, ok, ◌>>=◌}
use ditto_client.Wire.Reader.{signed64, read_int64, read_varint, read_ld, skip}
use ditto_client.Wire.Response.{ClientResponse}
use ditto_client.Wire.Message.{
  Field, number, delimited, fixed64, fixed32, print, Fits, BodyFits, varint,
}
use ditto_client.Wire.Cursor.{at, read_varint-varint, read_ld-delimited}
use ditto_client.Wire.Fold.{skip-body, fold, Follows, read_fields-print}
use ditto_client.Wire.Decode.{
  value_body, decode_value_response, count_body, decode_ok_response, decode_count, error_body,
  error_code, decode_error_response, optional_bytes_body, decode_optional_bytes, watch_event_body,
  decode_watch_event, set_nx_body, decode_set_nx_response, counter_body, decode_counter_response,
  envelope_body, read_fields,
}

-- What the reader does at a field: it reads the value, or passes over the field.
abbrev pub Reads : Field → Bytes → Bytes → Type 0
Reads (number n v) front back =
    (read_varint (at front (varint v ++ back)) ≡ ok (v, at (front ++ varint v) back))
    × (skip 0 (at front (varint v ++ back)) ≡ ok (at (front ++ varint v) back))
Reads (delimited n bs) front back =
    let run : Bytes = varint (length bs) ++ bs in
    (read_ld (at front (run ++ back)) ≡ ok (bs, at (front ++ run) back))
    × (skip 2 (at front (run ++ back)) ≡ ok (at (front ++ run) back))
Reads (fixed64 n bs) front back = skip 1 (at front (bs ++ back)) ≡ ok (at (front ++ bs) back)
Reads (fixed32 n bs) front back = skip 5 (at front (bs ++ back)) ≡ ok (at (front ++ bs) back)

pub reads : (f : Field) (front back : Bytes) → BodyFits f → Reads f front back
reads (number n v) front back h =
    (read_varint-varint v front back h, skip-body (number n v) front back h)
reads (delimited n bs) front back h =
    (read_ld-delimited bs front back h, skip-body (delimited n bs) front back h)
reads (fixed64 n bs) front back h = skip-body (fixed64 n bs) front back h
reads (fixed32 n bs) front back h = skip-body (fixed32 n bs) front back h

abbrev pub value_step : Str × Bytes × ℕ → Field → Result (Str × Bytes × ℕ)
value_step (key, value, version) (number n v) =
    ok (if n == 3 then (key, value, v) else (key, value, version))
value_step (key, value, version) (delimited n bs) =
    if n == 1
    then (do k ← decode_utf8 bs; ok (k, value, version))
    else if n == 2
    then ok (key, bs, version)
    else ok (key, value, version)
value_step locals f = ok locals

value_body-Follows : Follows value_body value_step
unfolding value_body
value_body-Follows (number n v) (a, b, c) front back h =
    ground (arith, reads (number n v) front back h)
value_body-Follows f (a, b, c) front back h = ground (arith, reads f front back h)

-- `decode_value_response` folds the fields of any message: key, value and version.
pub decode_value_response-print :
    (fs : List Field)
    → All Fits fs
    → decode_value_response (print fs) ≡ (do
      (key, value, version) ← fold value_step ([], [], 0) fs
      ok (ClientResponse.value key value version))
unfolding decode_value_response
decode_value_response-print fs h =
    rw (read_fields-print value_body value_step value_body-Follows fs ([], [], 0) h)

abbrev pub count_step : ℕ → Field → Result ℕ
count_step m (number n v) = ok (if n == 1 then v else m)
count_step m f = ok m

count_body-Follows : Follows count_body count_step
unfolding count_body
count_body-Follows (number n v) m front back h = ground (arith, reads (number n v) front back h)
count_body-Follows f m front back h = ground (arith, reads f front back h)

-- `_decode_ok_response` and `_decode_count` take the last number in field 1.
pub decode_count-print :
    (fs : List Field)
    → All Fits fs
    → (decode_count (print fs) ≡ fold count_step 0 fs)
      × (decode_ok_response (print fs)
          ≡ (do n ← fold count_step 0 fs; ok (ClientResponse.ok_version n)))
unfolding decode_count decode_ok_response
decode_count-print fs h =
    let e = read_fields-print count_body count_step count_body-Follows fs 0 h in (e, rw e)

abbrev pub error_step : ℕ × Str → Field → Result (ℕ × Str)
error_step (code_idx, message) (number n v) =
    ok (if n == 1 then (v, message) else (code_idx, message))
error_step (code_idx, message) (delimited n bs) =
    if n == 2 then (do m ← decode_utf8 bs; ok (code_idx, m)) else ok (code_idx, message)
error_step locals f = ok locals

error_body-Follows : Follows error_body error_step
unfolding error_body
error_body-Follows (number n v) (a, b) front back h =
    ground (arith, reads (number n v) front back h)
error_body-Follows f (a, b) front back h = ground (arith, reads f front back h)

pub decode_error_response-print :
    (fs : List Field)
    → All Fits fs
    → decode_error_response (print fs) ≡ (do
      (code_idx, message) ← fold error_step (0, []) fs
      ok (ClientResponse.error (error_code code_idx) message))
unfolding decode_error_response
decode_error_response-print fs h =
    rw (read_fields-print error_body error_step error_body-Follows fs (0, []) h)

abbrev pub optional_bytes_step : Bytes → Field → Result Bytes
optional_bytes_step out (delimited n bs) = ok (if n == 1 then bs else out)
optional_bytes_step out f = ok out

optional_bytes_body-Follows : Follows optional_bytes_body optional_bytes_step
unfolding optional_bytes_body
optional_bytes_body-Follows (number n v) out front back h =
    ground (arith, reads (number n v) front back h)
optional_bytes_body-Follows f out front back h = ground (arith, reads f front back h)

pub decode_optional_bytes-print :
    (fs : List Field)
    → All Fits fs
    → decode_optional_bytes (print fs) ≡ fold optional_bytes_step [] fs
unfolding decode_optional_bytes
decode_optional_bytes-print fs h =
    read_fields-print optional_bytes_body optional_bytes_step optional_bytes_body-Follows fs [] h

abbrev pub watch_event_step : Str × Option Bytes × ℕ → Field → Result (Str × Option Bytes × ℕ)
watch_event_step (key, value, version) (number n v) =
    ok (if n == 3 then (key, value, v) else (key, value, version))
watch_event_step (key, value, version) (delimited n bs) =
    if n == 1
    then (do k ← decode_utf8 bs; ok (k, value, version))
    else if n == 2
    then (do v ← decode_optional_bytes bs; ok (key, some v, version))
    else ok (key, value, version)
watch_event_step locals f = ok locals

watch_event_body-Follows : Follows watch_event_body watch_event_step
unfolding watch_event_body
watch_event_body-Follows (number n v) (a, b, c) front back h =
    ground (arith, reads (number n v) front back h)
watch_event_body-Follows f (a, b, c) front back h = ground (arith, reads f front back h)

-- `_decode_watch_event` of a printed message whose fields have numbers and sizes that the wire can
-- carry folds its fields: the last key, the last value if there is one, decoded from its OptionalBytes,
-- and the last version; every other field is passed over.
pub decode_watch_event-print :
    (fs : List Field)
    → All Fits fs
    → decode_watch_event (print fs) ≡ (do
      (key, value, version) ← fold watch_event_step ([], none, 0) fs
      ok (ClientResponse.watch_event key value version))
unfolding decode_watch_event
decode_watch_event-print fs h = rw (
    read_fields-print watch_event_body watch_event_step watch_event_body-Follows fs ([], none, 0) h)

abbrev pub set_nx_step : Bool × ℕ → Field → Result (Bool × ℕ)
set_nx_step (created, version) (number n v) =
    ok (if n == 1 then (ltb 0 v, version) else if n == 2 then (created, v) else (created, version))
set_nx_step locals f = ok locals

set_nx_body-Follows : Follows set_nx_body set_nx_step
unfolding set_nx_body
set_nx_body-Follows (number n v) (a, b) front back h =
    ground (arith, reads (number n v) front back h)
set_nx_body-Follows f (a, b) front back h = ground (arith, reads f front back h)

pub decode_set_nx_response-print :
    (fs : List Field)
    → All Fits fs
    → decode_set_nx_response (print fs) ≡ (do
      (created, version) ← fold set_nx_step (false, 0) fs
      ok (ClientResponse.set_nx created version))
unfolding decode_set_nx_response
decode_set_nx_response-print fs h =
    rw (read_fields-print set_nx_body set_nx_step set_nx_body-Follows fs (false, 0) h)

abbrev pub counter_step : ℤ × ℕ → Field → Result (ℤ × ℕ)
counter_step (value, version) (number n v) =
    ok (if n == 1 then (signed64 v, version) else if n == 2 then (value, v) else (value, version))
counter_step locals f = ok locals

counter_body-Follows : Follows counter_body counter_step
unfolding counter_body read_int64
counter_body-Follows (number n v) (a, b) front back h =
    ground (arith, reads (number n v) front back h)
counter_body-Follows f (a, b) front back h = ground (arith, reads f front back h)

pub decode_counter_response-print :
    (fs : List Field)
    → All Fits fs
    → decode_counter_response (print fs) ≡ (do
      (value, version) ← fold counter_step (pos 0, 0) fs
      ok (ClientResponse.counter value version))
unfolding decode_counter_response
decode_counter_response-print fs h =
    rw (read_fields-print counter_body counter_step counter_body-Follows fs (pos 0, 0) h)

abbrev pub envelope_step : ℕ × Option Bytes → Field → Result (ℕ × Option Bytes)
envelope_step (version, payload) (number n v) =
    ok (if n == 1 then (v, payload) else (version, payload))
envelope_step (version, payload) (delimited n bs) =
    ok (if n == 3 then (version, some bs) else (version, payload))
envelope_step locals f = ok locals

envelope_body-Follows : Follows envelope_body envelope_step
unfolding envelope_body
envelope_body-Follows (number n v) (a, b) front back h =
    ground (arith, reads (number n v) front back h)
envelope_body-Follows f (a, b) front back h = ground (arith, reads f front back h)

pub envelope-print :
    (fs : List Field)
    → All Fits fs
    → read_fields envelope_body (0, none) (print fs) ≡ fold envelope_step (0, none) fs
envelope-print fs h =
    read_fields-print envelope_body envelope_step envelope_body-Follows fs (0, none) h
