-- ===== src/Wire/Total/Bodies.antt =====
-- The loop bodies of the decoders of wire.py that a response needs do not move the cursor back, and
-- raise only what `IsOwn` lists; so do the decoders of its variants.
use ditto_client.Prelude.{
  ℕ, zero, suc, ◌+◌, ◌≤◌, refl, Option, none, some, Bool, true, false, [], arith, if◌then◌else◌,
  length, Bool-cases, inl, inr,
}
use ditto_client.Prelude.Int.{ℤ}
use ditto_client.Python.Text.{Str, Bytes}
use ditto_client.Python.Utf8.{decode_utf8, decode_utf8-Raises, NotUtf8}
use ditto_client.Python.Errors.{Result, ok, err, Raises, Raises->>=, ◌>>=◌, bind_assoc}
use ditto_client.Wire.Reader.{
  Reader, reader, read_varint, read_int64, read_tag, read_ld, has_remaining,
}
use ditto_client.Wire.Response.{ClientResponse}
use ditto_client.Wire.Decode.{
  Body, while_remaining, read_fields, on_varint, on_int64, on_bytes, on_text, on_other, value_body,
  decode_value_response, count_body, decode_ok_response, decode_count, error_body,
  decode_error_response, optional_bytes_body, decode_optional_bytes, watch_event_body,
  decode_watch_event, set_nx_body, decode_set_nx_response, counter_body, decode_counter_response,
  envelope_body, decode_variant,
}
use ditto_client.Wire.Total.Moves.{
  IsWhole, IsOwn, Safe, Safe-map, Safe->>=, Safe-back, Safe-Raises, read_varint-Safe,
  read_int64-Safe, read_ld-Safe, skip-Safe,
}

-- A branch of a loop body. (A record, so that it names the branch.)
pub record Branch {S : Type 0} (r : Reader) (m : Result (S × Reader)) : Type 0 where
  pub safe : Safe 0 r m

-- A loop body that does not move back, and raises only what `IsOwn` lists.
abbrev pub SafeBody : {S : Type 0} → Body S → Type 0
SafeBody {S} body = (n w : ℕ) (s : S) (r : Reader) → IsWhole r → Branch r (body n w s r)

module _ {S : Type 0} (body : Body S) (safe : SafeBody body) where
  while_remaining-Raises :
      (fuel : ℕ) (s : S) (r : Reader)
      → IsWhole r
      → r.limit ≤ r.off + fuel
      → Raises IsOwn (while_remaining body fuel s r)
  unfolding while_remaining read_tag
  while_remaining-Raises zero s r w h = elim (Bool-cases (has_remaining r)) [
    | inl left ↦ absurd (ground arith)
    | inr done ↦ rw done tt
  ]
  while_remaining-Raises (suc fuel) s r w h = elim (Bool-cases (has_remaining r)) [
    | inr done ↦ rw (done, while_remaining) tt
    | inl left ↦
        rw (left, while_remaining)
          (rw bind_assoc (
            Safe-Raises (read_varint r) _ 1 r (read_varint-Safe r w) λ t r' m.
              Safe-Raises (body _ _ s r') _ 0 r' (safe _ _ s r' m.whole).safe λ s' r'' m'.
                while_remaining-Raises fuel s' r'' m'.whole
                  (omega (arith, m.forward, m'.forward, m.same_limit, m'.same_limit))))
  ]

  pub read_fields-Raises : (s : S) (buf : Bytes) → Raises IsOwn (read_fields body s buf)
  unfolding read_fields
  read_fields-Raises s buf = while_remaining-Raises (length buf) s (reader buf) refl (omega arith)

decoded-Safe :
    {T S : Type 0} (v : Result T) (f : T → S) (r : Reader)
    → IsWhole r
    → Raises IsOwn v
    → Safe 0 r (do t ← v; ok (f t, r))
decoded-Safe (ok t) f r w h = record {
  same_buf = refl;
  same_limit = refl;
  whole = w;
  forward = omega arith;
}
decoded-Safe (err e) f r w h = h

module _ {S : Type 0} (r : Reader) where
  Branch-if :
      (b : Bool) (m n : Result (S × Reader))
      → Branch r m
      → Branch r n
      → Branch r (if b then m else n)
  Branch-if true m n p q = p
  Branch-if false m n p q = q

  module _ (w : IsWhole r) where
    varint-Branch : (f : ℕ → S) → Branch r (on_varint f r)
    varint-Branch f = record { safe = Safe-map (read_varint r) f 1 r (read_varint-Safe r w) }

    int64-Branch : (f : ℤ → S) → Branch r (on_int64 f r)
    int64-Branch f = record { safe = Safe-map (read_int64 r) f 1 r (read_int64-Safe r w) }

    bytes-Branch : (f : Bytes → S) → Branch r (on_bytes f r)
    bytes-Branch f = record { safe = Safe-map (read_ld r) f 1 r (read_ld-Safe r w) }

    other-Branch : (wire : ℕ) (s : S) → Branch r (on_other wire s r)
    other-Branch wire s = record { safe = skip-Safe wire s r w }

    -- A value that is decoded out of the bytes read.
    decoded-Branch :
        {T : Type 0} (decode : Bytes → Result T) (f : T → S)
        → ((bs : Bytes) → Raises IsOwn (decode bs))
        → Branch r (do (raw, r') ← read_ld r; v ← decode raw; ok (f v, r'))
    decoded-Branch decode f ends = record {
      safe = Safe-back _ 1 0 r r refl refl (omega arith) (
          Safe->>= (read_ld r) _ 1 0 r (read_ld-Safe r w)
            (λ raw r' w'. decoded-Safe (decode raw) f r' w' (ends raw)));
    }

    text-Branch : (f : Str → S) → Branch r (on_text f r)
    text-Branch f =
        decoded-Branch decode_utf8 f (λ bs. own (decode_utf8 bs) (decode_utf8-Raises bs))
      where
        own : (s : Result Str) → Raises NotUtf8 s → Raises IsOwn s
        own (ok s) h = tt
        own (err e) h = rw h tt

ruleset branches = (Branch-if, varint-Branch, int64-Branch, bytes-Branch, text-Branch, other-Branch)

count_body-Safe : SafeBody count_body
unfolding count_body
count_body-Safe n w s r h = search branches

value_body-Safe : SafeBody value_body
unfolding value_body
value_body-Safe n w (a, b, c) r h = search branches

error_body-Safe : SafeBody error_body
unfolding error_body
error_body-Safe n w (a, b) r h = search branches

optional_bytes_body-Safe : SafeBody optional_bytes_body
unfolding optional_bytes_body
optional_bytes_body-Safe n w s r h = search branches

decode_optional_bytes-Raises : (bs : Bytes) → Raises IsOwn (decode_optional_bytes bs)
unfolding decode_optional_bytes
decode_optional_bytes-Raises bs =
    read_fields-Raises optional_bytes_body optional_bytes_body-Safe [] bs

event-Branch :
    (key : Str) (version : ℕ) (r : Reader)
    → IsWhole r
    → Branch {S = Str × Option Bytes × ℕ} r
        (do (raw, r') ← read_ld r; v ← decode_optional_bytes raw; ok ((key, some v, version), r'))
event-Branch key version r w =
    let put : Bytes → Str × Option Bytes × ℕ = λ v. (key, some v, version) in
    decoded-Branch r w decode_optional_bytes put decode_optional_bytes-Raises

watch_event_body-Safe : SafeBody watch_event_body
unfolding watch_event_body
watch_event_body-Safe n w (a, b, c) r h = search (branches, event-Branch)

set_nx_body-Safe : SafeBody set_nx_body
unfolding set_nx_body
set_nx_body-Safe n w (a, b) r h = search branches

counter_body-Safe : SafeBody counter_body
unfolding counter_body
counter_body-Safe n w (a, b) r h = search branches

pub envelope_body-Safe : SafeBody envelope_body
unfolding envelope_body
envelope_body-Safe n w (a, b) r h = search branches

-- A decoder that maps the locals of its loop to a response.
mapped-Raises :
    {S T : Type 0} (body : Body S) (safe : SafeBody body) (f : S → T) (s : S) (bs : Bytes)
    → Raises IsOwn (read_fields body s bs >>= λ x. ok (f x))
mapped-Raises body safe f s bs =
    Raises->>= IsOwn (read_fields body s bs) _ (read_fields-Raises body safe s bs) (λ a h. tt)

-- The decoder of a variant, if the field has one.
abbrev pub OptionRaises : Option (Result ClientResponse) → Type 0
OptionRaises none = Unit {0}
OptionRaises (some r) = Raises IsOwn r

pub record Variant (o : Option (Result ClientResponse)) : Type 0 where
  pub ends : OptionRaises o

Variant-if :
    (b : Bool) (x y : Option (Result ClientResponse))
    → Variant x
    → Variant y
    → Variant (if b then x else y)
Variant-if true x y p q = p
Variant-if false x y p q = q

Variant-none : Variant none
Variant-none = record { ends = tt }

Variant-ok : (response : ClientResponse) → Variant (some (ok response))
Variant-ok response = record { ends = tt }

Variant-read :
    {S : Type 0} (body : Body S) (f : S → ClientResponse) (s : S) (bs : Bytes)
    → SafeBody body
    → Variant (some (read_fields body s bs >>= λ x. ok (f x)))
Variant-read body f s bs safe = record { ends = mapped-Raises body safe f s bs }

pub decode_variant-Raises : (n : ℕ) (bs : Bytes) → Variant (decode_variant n bs)
unfolding decode_variant decode_value_response decode_ok_response decode_error_response decode_count
    decode_watch_event decode_set_nx_response decode_counter_response
decode_variant-Raises n bs =
    search
      (
        Variant-if, Variant-none, Variant-ok, Variant-read, value_body-Safe, count_body-Safe,
        error_body-Safe, watch_event_body-Safe, set_nx_body-Safe, counter_body-Safe,
      )
      depth 20
