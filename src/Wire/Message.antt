-- ===== src/Wire/Message.antt =====
-- A specification of the protobuf wire format, independent of wire.py: a message is a list of
-- fields, and its bytes are those of its fields. The encoding helpers are shown to print such lists.
use ditto_client.Prelude.{
  ℕ, zero, suc, ◌+◌, ◌*◌, ◌/◌, ◌%◌, ◌^◌, ◌≤◌, ◌<◌, ◌≡◌, refl, List, [], ◌∷◌, ◌++◌, bit_and, bit_or,
  arith, ltb, if◌then◌else◌, length, length-append, All, append_assoc,
}
use ditto_client.Prelude.Bits.{bit_and-0x7f, bit_or_low, bit_or_high}
use ditto_client.Prelude.Int.{pos}
use ditto_client.Python.Text.{Bytes, IsByte}
use ditto_client.Python.Errors.{ok}
use ditto_client.Wire.Encode.{varint_loop, encode_varint, encode_tag}
use native.Mathlib.Nat.{pow-suc}

-- The groups of seven bits of `v`, lowest first, each but the last with its top bit set; `k + 1`
-- groups at most.
unfoldable pub groups : ℕ → ℕ → Bytes
groups zero v = v ∷ []
groups (suc k) v =
    let rest = groups k (v / 128) in if ltb v 128 then v ∷ [] else (v % 128 + 128) ∷ rest

abbrev pub varint : ℕ → Bytes
varint v = groups v v

groups_any : (k m v : ℕ) → v < 128 ^ suc k → v < 128 ^ suc m → groups k v ≡ groups m v
unfolding groups
groups_any zero zero v p q = refl
groups_any zero (suc m) v p q = ground arith
groups_any (suc k) zero v p q = ground arith
groups_any (suc k) (suc m) v p q = ground (
  arith,
  groups_any k m (v / 128) (omega (arith, pow-suc 128 (suc k)))
      (omega (arith, pow-suc 128 (suc m))),
)

lt-pow : (v : ℕ) → v < 128 ^ suc v
lt-pow zero = omega arith
lt-pow (suc v) = omega (arith, lt-pow v, pow-suc 128 (suc v))

-- As many groups as the value needs give the same bytes.
pub groups-eq-varint : (k v : ℕ) → v < 128 ^ suc k → groups k v ≡ varint v
groups-eq-varint k v h = groups_any k v v h (lt-pow v)

high_group : (v : ℕ) → bit_or (bit_and v 0x7f) 0x80 ≡ v % 128 + 128
high_group v = rw (bit_and-0x7f v) (rw (bit_or_high 7 1 (v % 128) (omega arith)))

-- The loop of `_encode_varint` ends within its fuel and appends the groups.
varint_loop-groups :
    (k v : ℕ) (out : Bytes) → v < 128 ^ suc k → varint_loop (suc k) v out ≡ ok (out ++ groups k v)
unfolding varint_loop groups
varint_loop-groups zero v out h = ground arith
varint_loop-groups (suc k) v out h = ground (
  arith,
  high_group v,
  append_assoc out ((v % 128 + 128) ∷ []) (groups k (v / 128)),
  varint_loop-groups k (v / 128) (out ++ (v % 128 + 128) ∷ []) (omega (arith, pow-suc 128 (suc k))),
)

-- `_encode_varint` of a number that is not negative returns its varint: its groups of seven bits from
-- the lowest, all but the last with the high bit set.
pub encode_varint_lem : (v : ℕ) → encode_varint (pos v) ≡ ok (varint v)
unfolding encode_varint
encode_varint_lem v = varint_loop-groups v v [] (lt-pow v)

pub encode_tag_lem :
    (field wire : ℕ) → wire < 8 → encode_tag field wire ≡ ok (varint (field * 8 + wire))
unfolding encode_tag
encode_tag_lem field wire h = rw (bit_or_low 3 field wire h) (encode_varint_lem _)

pub groups-IsByte : (k v : ℕ) → v < 128 ^ suc k → All IsByte (groups k v)
unfolding groups
groups-IsByte zero v h = omega arith
groups-IsByte (suc k) v h =
    ground (arith, groups-IsByte k (v / 128) (omega (arith, pow-suc 128 (suc k))))

pub length-groups : (k v : ℕ) → (1 ≤ length (groups k v)) × (length (groups k v) ≤ k + 1)
unfolding groups
length-groups zero v = omega arith
length-groups (suc k) v = ground (arith, length-groups k (v / 128))

-- A field of a message: its number, and a number, a run of bytes, or eight or four raw bytes.
pub data Field : Type 0 where
  number : ℕ → ℕ → Field
  delimited fixed64 fixed32 : ℕ → Bytes → Field

abbrev pub number_of : Field → ℕ
number_of (number n v) = n
number_of (delimited n bs) = n
number_of (fixed64 n bs) = n
number_of (fixed32 n bs) = n

abbrev pub wire_of : Field → ℕ
wire_of (number n v) = 0
wire_of (delimited n bs) = 2
wire_of (fixed64 n bs) = 1
wire_of (fixed32 n bs) = 5

-- What stands behind the tag.
abbrev pub body_bytes : Field → Bytes
body_bytes (number n v) = varint v
body_bytes (delimited n bs) = varint (length bs) ++ bs
body_bytes (fixed64 n bs) = bs
body_bytes (fixed32 n bs) = bs

abbrev pub tag_bytes : Field → Bytes
tag_bytes f = varint (number_of f * 8 + wire_of f)

unfoldable pub print : List Field → Bytes
print [] = []
print (f ∷ fs) = tag_bytes f ++ (body_bytes f ++ print fs)

-- The largest numbers that `read_varint` reads: 77 bits in eleven groups.
abbrev pub varint_range : ℕ
varint_range = 2 ^ 77

abbrev pub BodyFits : Field → Type 0
BodyFits (number n v) = v < varint_range
BodyFits (delimited n bs) = length bs < varint_range
BodyFits (fixed64 n bs) = length bs ≡ 8
BodyFits (fixed32 n bs) = length bs ≡ 4

-- A field that the reader can read.
abbrev pub Fits : Field → Type 0
Fits f = (number_of f * 8 + wire_of f < varint_range) × BodyFits f

pub print-append : (fs gs : List Field) → print (fs ++ gs) ≡ print fs ++ print gs
unfolding print
print-append [] gs = refl
print-append (f ∷ fs) gs = rw (print-append fs gs) (simp append_assoc)

-- Every field takes a byte at least.
pub length-le-print : (fs : List Field) → length fs ≤ length (print fs)
unfolding print
length-le-print [] = omega arith
length-le-print (f ∷ fs) = omega (
  arith,
  length-le-print fs,
  (length-groups (number_of f * 8 + wire_of f) (number_of f * 8 + wire_of f)).0,
  length-append (tag_bytes f) (body_bytes f ++ print fs),
  length-append (body_bytes f) (print fs),
)
