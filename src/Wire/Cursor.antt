-- ===== src/Wire/Cursor.antt =====
-- The methods of `_Reader` on bytes that a printed field begins: each reads the field back and
-- moves the cursor behind it.
use ditto_client.Prelude.{
  ℕ, zero, suc, ◌+◌, ◌*◌, ◌/◌, ◌%◌, ◌^◌, ◌≤◌, ◌<◌, ◌≡◌, sym, ap, [], ◌∷◌, ◌++◌, bit_and, arith,
  length, length-append, append_assoc, get_elem?-length-append, take-length-append,
  drop-length-append,
}
use ditto_client.Prelude.Bits.{bit_and-0x7f, bit_and-0x80, bit_and-7, bit_or_high}
use ditto_client.Python.Text.{Bytes}
use ditto_client.Python.Errors.{ok}
use ditto_client.Wire.Reader.{Reader, read_varint_loop, read_varint, read_tag, slice, read_ld}
use ditto_client.Wire.Message.{groups, varint, groups-eq-varint, varint_range}
use native.Mathlib.Nat.{pow-suc, div-add-mod}
use native.Mathlib.Numerals.{towards_suc}

-- The cursor behind `front`, before `back`.
abbrev pub at : Bytes → Bytes → Reader
at front back = record { buf = front ++ back; off = length front; limit = length (front ++ back) }

pub at_move :
    (front xs back : Bytes)
    → record {
      buf = front ++ (xs ++ back);
      off = length front + length xs;
      limit = length (front ++ (xs ++ back));
    }
      ≡ at (front ++ xs) back
at_move front xs back = rw (append_assoc front xs back, length-append front xs)

byte_masks : (b : ℕ) → (bit_and b 0x7f ≡ b % 128) × (bit_and b 0x80 ≡ b / 128 % 2 * 128)
byte_masks b = (bit_and-0x7f b, bit_and-0x80 b)

shift_seven : (s : ℕ) → 2 ^ (s + 7) ≡ 128 * 2 ^ s
shift_seven s = simp towards_suc (omega arith)

before-back : (front : Bytes) (b : ℕ) (back : Bytes) → length front < length (front ++ b ∷ back)
before-back front b back = omega (arith, length-append front (b ∷ back))

-- A round on the byte `b` in the plain arithmetic of its groups.
last_byte :
    (fuel w acc shift : ℕ) (front back : Bytes)
    → w < 128
    → acc < 2 ^ shift
    → read_varint_loop (suc fuel) acc shift (at front (w ∷ back))
      ≡ ok (acc + w * 2 ^ shift, at (front ++ w ∷ []) back)
unfolding read_varint_loop
last_byte fuel w acc shift front back hw ha = ground (
  arith,
  before-back front w back,
  get_elem?-length-append front w back,
  at_move front (w ∷ []) back,
  byte_masks w,
  bit_or_high shift w acc,
)

inner_byte :
    (fuel g acc shift : ℕ) (front back : Bytes)
    → g < 128
    → acc < 2 ^ shift
    → shift + 7 ≤ 70
    → read_varint_loop (suc fuel) acc shift (at front ((g + 128) ∷ back))
      ≡ read_varint_loop fuel (acc + g * 2 ^ shift) (shift + 7) (at (front ++ (g + 128) ∷ []) back)
unfolding read_varint_loop
inner_byte fuel g acc shift front back hg ha hs = ground (
  arith,
  before-back front (g + 128) back,
  get_elem?-length-append front (g + 128) back,
  at_move front ((g + 128) ∷ []) back,
  byte_masks (g + 128),
  bit_or_high shift g acc,
)

-- The sum so far and the next group stay below the next power.
acc_bound : (acc g shift : ℕ) → acc < 2 ^ shift → g < 128 → acc + g * 2 ^ shift < 2 ^ (shift + 7)
acc_bound acc g shift ha hg = grind (arith, shift_seven shift)

-- The lowest group of `w` and the rest, both shifted.
split_group : (v k : ℕ) → v * 2 ^ k ≡ v % 128 * 2 ^ k + v / 128 * 2 ^ (k + 7)
split_group v k =
    let shifted = ap (λ (power : ℕ). v / 128 * power) (shift_seven k) in
    let groups_of = ap (λ (whole : ℕ). whole * 2 ^ k) (div-add-mod v 128) in
    omega (arith, shifted, groups_of)

-- `w` is what is still to be read, from bit `shift` on.
read_varint_loop-groups :
    (k w fuel acc shift : ℕ) (front back : Bytes)
    → w < 128 ^ suc k
    → acc < 2 ^ shift
    → k < fuel
    → shift + 7 * k ≤ 70
    → read_varint_loop fuel acc shift (at front (groups k w ++ back))
      ≡ ok (acc + w * 2 ^ shift, at (front ++ groups k w) back)
unfolding groups
read_varint_loop-groups k w zero acc shift front back hw ha hk hs = absurd (omega arith)
read_varint_loop-groups zero w (suc fuel) acc shift front back hw ha hk hs =
    last_byte fuel w acc shift front back hw ha
read_varint_loop-groups (suc k) w (suc fuel) acc shift front back hw ha hk hs =
    let g : ℕ = w % 128 in
    ground (
      arith,
      last_byte fuel w acc shift front back,
      split_group w shift,
      inner_byte fuel g acc shift front (groups k (w / 128) ++ back),
      append_assoc front ((g + 128) ∷ []) (groups k (w / 128)),
      read_varint_loop-groups k (w / 128) fuel (acc + g * 2 ^ shift) (shift + 7)
          (front ++ (g + 128) ∷ []) back (omega (arith, pow-suc 128 (suc k)))
          (acc_bound acc g shift ha (omega arith)) (omega arith) (omega arith),
    )

-- With the varint of a number below 2 ^ 77 at the cursor, `read_varint` returns the number and moves
-- the cursor right behind the varint, whatever stands in front of it and behind it.
pub read_varint-varint :
    (v : ℕ) (front back : Bytes)
    → v < varint_range
    → read_varint (at front (varint v ++ back)) ≡ ok (v, at (front ++ varint v) back)
unfolding read_varint
read_varint-varint v front back h =
    rw (sym (groups-eq-varint 10 v h))
      (ground (arith, read_varint_loop-groups 10 v 11 0 0 front back (omega arith)))

pub read_tag-varint :
    (n w : ℕ) (front back : Bytes)
    → w < 8
    → n * 8 + w < varint_range
    → read_tag (at front (varint (n * 8 + w) ++ back))
      ≡ ok (n, w, at (front ++ varint (n * 8 + w)) back)
unfolding read_tag
read_tag-varint n w front back hw h =
    rw (read_varint-varint (n * 8 + w) front back h) (rw bit_and-7 (ground arith))

slice-at :
    (bs front back : Bytes)
    → slice (length bs) (at front (bs ++ back)) ≡ ok (bs, at (front ++ bs) back)
unfolding slice
slice-at bs front back =
    rw (drop-length-append front (bs ++ back), take-length-append bs back, at_move front bs back)
      (ground (arith, length-append front (bs ++ back), length-append bs back))

pub read_ld-delimited :
    (bs front back : Bytes)
    → length bs < varint_range
    → read_ld (at front (varint (length bs) ++ bs ++ back))
      ≡ ok (bs, at (front ++ (varint (length bs) ++ bs)) back)
unfolding read_ld
read_ld-delimited bs front back h = rw (append_assoc (varint (length bs)) bs back) (
    rw (read_varint-varint (length bs) front (bs ++ back) h) (
      rw (sym (append_assoc front (varint (length bs)) bs))
        (slice-at bs (front ++ varint (length bs)) back)))
