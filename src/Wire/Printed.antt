-- ===== src/Wire/Printed.antt =====
-- The encoding helpers of wire.py print messages: each writes the bytes of a list of fields.
use ditto_client.Prelude.{
  ◌⊎◌, ℕ, zero, suc, ◌+◌, ◌*◌, ◌≤◌, ◌<◌, ◌≡◌, refl, sym, ap, ◌∙◌, Option, none, some, Bool, true,
  false, List, [], ◌∷◌, ◌++◌, arith, ◌==◌, if◌then◌else◌, length, is_empty, append-nil,
  append_assoc, Bool-cases, inl, inr, ◌≢◌,
}
use ditto_client.Prelude.Int.{ℤ, pos, negsuc, mask64}
use ditto_client.Python.Text.{Str, Bytes, strip, lstrip, rstrip}
use ditto_client.Python.Utf8.{encode_utf8, is_empty-encode_utf8}
use ditto_client.Python.Errors.{Result, ok, err, ◌>>=◌, bind_assoc}
use ditto_client.Wire.Message.{
  Field, number, delimited, print, print-append, varint, encode_varint_lem, encode_tag_lem,
  length-le-print,
}
use ditto_client.Wire.Encode.{
  encode_varint, encode_tag, ld_field_always, ld_field, string_field, bytes_field, uint64_field,
  int64_field, enum_field, encode_optional_string, encode_optional_uint64, has_namespace,
  namespace_part, ttl_part,
}

-- A run of bytes and a number in proto3: left out when empty or 0.
abbrev pub bytes_fields : ℕ → Bytes → List Field
bytes_fields n bs = if is_empty bs then [] else delimited n bs ∷ []

abbrev pub number_fields : ℕ → ℕ → List Field
number_fields n zero = []
number_fields n (suc v) = number n (suc v) ∷ []

pub ld_field_always_lem :
    (n : ℕ) (bs : Bytes) → ld_field_always n bs ≡ ok (print (delimited n bs ∷ []))
unfolding ld_field_always print
ld_field_always_lem n bs =
    rw (encode_tag_lem n 2 (omega arith)) (rw encode_varint_lem (rw append-nil (simp append_assoc)))

pub bytes_field_lem : (n : ℕ) (bs : Bytes) → bytes_field n bs ≡ ok (print (bytes_fields n bs))
unfolding bytes_field
bytes_field_lem n [] = unfold print in refl
bytes_field_lem n (b ∷ bs) = unfold ld_field_always in ld_field_always_lem n (b ∷ bs)

pub ld_field_lem : (n : ℕ) (bs : Bytes) → ld_field n bs ≡ ok (print (bytes_fields n bs))
unfolding ld_field
ld_field_lem n [] = unfold print in refl
ld_field_lem n (b ∷ bs) = unfold ld_field_always in ld_field_always_lem n (b ∷ bs)

run-nonempty :
    (n : ℕ) (bs : Bytes)
    → is_empty bs ≡ false
    → ld_field_always n bs ≡ ok (print (bytes_fields n bs))
run-nonempty n [] h = cc
run-nonempty n (b ∷ bs) h = ld_field_always_lem n (b ∷ bs)

-- `_string_field` behind the encoding of its text.
string_run :
    (n : ℕ) (r : Result Bytes)
    → ((bs : Bytes) → r ≡ ok bs → is_empty bs ≡ false)
    → (do raw ← r; ld_field_always n raw) ≡ (do raw ← r; ok (print (bytes_fields n raw)))
string_run n (ok bs) h = run-nonempty n bs (h bs refl)
string_run n (err e) h = refl

pub string_field_lem :
    (n : ℕ) (s : Str) → string_field n s ≡ (do raw ← encode_utf8 s; ok (print (bytes_fields n raw)))
unfolding string_field
string_field_lem n [] = unfold print encode_utf8 in refl
string_field_lem n (c ∷ s) =
    unfold ld_field_always in string_run n (encode_utf8 (c ∷ s)) (is_empty-encode_utf8 (c ∷ s))

number_run :
    (n v : ℕ)
    → (do tag ← encode_tag n 0; body ← encode_varint (pos v); ok (tag ++ body))
      ≡ ok (print (number n v ∷ []))
unfolding print
number_run n v = rw (encode_tag_lem n 0 (omega arith)) (rw encode_varint_lem (rw append-nil))

pub uint64_field_lem : (n v : ℕ) → uint64_field n (pos v) ≡ ok (print (number_fields n v))
unfolding uint64_field
uint64_field_lem n zero = unfold print in refl
uint64_field_lem n (suc v) = number_run n (suc v)

pub enum_field_lem : (n v : ℕ) → enum_field n (pos v) ≡ ok (print (number_fields n v))
unfolding enum_field
enum_field_lem n zero = unfold print in refl
enum_field_lem n (suc v) = number_run n (suc v)

pub int64_field_lem : (n : ℕ) (v : ℤ) → int64_field n v ≡ ok (print (number n (mask64 v) ∷ []))
unfolding int64_field
int64_field_lem n v = number_run n (mask64 v)

-- The optional parts of a request: a positive time to live, and a namespace that is not blank.
abbrev pub ttl_fields : ℕ → ℤ → List Field
ttl_fields n (pos zero) = []
ttl_fields n (pos (suc ttl)) = delimited n (print (number 1 (suc ttl) ∷ [])) ∷ []
ttl_fields n (negsuc ttl) = []

-- No message with a field is empty.
ld_field-print :
    (n : ℕ) (f : Field) (fs : List Field)
    → ld_field n (print (f ∷ fs)) ≡ ok (print (delimited n (print (f ∷ fs)) ∷ []))
ld_field-print n f fs =
    rw (ld_field_lem n (print (f ∷ fs))) (nonempty (print (f ∷ fs)) (length-le-print (f ∷ fs)))
  where
    nonempty :
        (bs : Bytes)
        → suc (length fs) ≤ length bs
        → ok (print (bytes_fields n bs)) ≡ ok (print (delimited n bs ∷ []))
    nonempty [] h = absurd (omega arith)
    nonempty (b ∷ bs) h = refl

pub ttl_part_lem : (n : ℕ) (ttl : ℤ) → ttl_part n ttl ≡ ok (print (ttl_fields n ttl))
unfolding ttl_part encode_optional_uint64
ttl_part_lem n (pos zero) = unfold print in refl
ttl_part_lem n (pos (suc ttl)) =
    rw (uint64_field_lem 1 (suc ttl)) (ld_field-print n (number 1 (suc ttl)) [])
ttl_part_lem n (negsuc ttl) = unfold print in refl

-- The bytes that stand for a namespace: those of the namespace as it is given, unless nothing is left
-- of it once it is stripped.
abbrev pub namespace_bytes : Option Str → Result (Option Bytes)
namespace_bytes none = ok none
namespace_bytes (some s) = elim (strip s) [
  | [] ↦ ok none
  | c ∷ stripped ↦ (do raw ← encode_utf8 s; ok (some raw))
]

abbrev pub namespace_fields : ℕ → Option Bytes → List Field
namespace_fields n none = []
namespace_fields n (some raw) = delimited n (print (delimited 1 raw ∷ [])) ∷ []

namespace_run :
    (n : ℕ) (r : Result Bytes)
    → ((bs : Bytes) → r ≡ ok bs → is_empty bs ≡ false)
    → ((r >>= λ raw. ok (print (bytes_fields 1 raw))) >>= ld_field n)
      ≡ ((r >>= λ raw. ok (some raw)) >>= λ raw. ok (print (namespace_fields n raw)))
namespace_run n (err e) h = refl
namespace_run n (ok []) h = cc (h [] refl)
namespace_run n (ok (b ∷ bs)) h = ld_field-print n (delimited 1 (b ∷ bs)) []

blank-cases : (s : Str) → (s ≡ []) ⊎ ((c : ℕ) × (rest : Str) × (s ≡ c ∷ rest))
blank-cases [] = inl refl
blank-cases (c ∷ rest) = inr (c, rest, refl)

has_namespace_blank : (s : Str) → strip s ≡ [] → has_namespace (some s) ≡ false
unfolding has_namespace
has_namespace_blank s h = rw h refl

has_namespace_given :
    (s : Str) {c : ℕ} {rest : Str} → strip s ≡ c ∷ rest → has_namespace (some s) ≡ true
unfolding has_namespace
has_namespace_given s h = rw h refl

pub namespace_part_lem :
    (n : ℕ) (namespace : Option Str)
    → namespace_part n namespace
      ≡ (do raw ← namespace_bytes namespace; ok (print (namespace_fields n raw)))
unfolding namespace_part encode_optional_string
namespace_part_lem n none = unfold print in refl
namespace_part_lem n (some []) = unfold print has_namespace strip lstrip rstrip in refl
namespace_part_lem n (some (c ∷ s)) = elim (blank-cases (strip (c ∷ s))) [
  | inr (first, rest, given) ↦ rw (has_namespace_given (c ∷ s) given) (
      rw (given, namespace_bytes)
        (rw (string_field_lem 1 (c ∷ s))
          (namespace_run n (encode_utf8 (c ∷ s)) (is_empty-encode_utf8 (c ∷ s)))))
  | inl blank ↦
      rw (has_namespace_blank (c ∷ s) blank) (rw (blank, namespace_bytes) (unfold print in refl))
]

-- For `simp`: each part of a request as a printed message.
pub ruleset parts = (
  string_field_lem, bytes_field_lem, int64_field_lem, ttl_part_lem, namespace_part_lem, bind_assoc,
  print-append, append_assoc,
)
