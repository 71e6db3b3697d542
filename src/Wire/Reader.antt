-- ===== src/Wire/Reader.antt =====
-- `class _Reader` of wire.py: a cursor over a buffer. A method returns its value with the new
-- cursor, or raises. The cursor may pass the end: `skip` does not check a fixed-width field.
use ditto_client.Prelude.{
  ℕ, zero, suc, ◌+◌, ◌-◌, ◌*◌, ◌/◌, ◌^◌, none, some, Bool, bit_and, bit_or, ltb, ◌==◌,
  if◌then◌else◌, get_elem?, take, drop, length,
}
use ditto_client.Prelude.Int.{ℤ, pos, negsuc}
use ditto_client.Python.Text.{Bytes}
use ditto_client.Python.Errors.{
  Result, ok, err, index_error, varint_too_long, truncated_varint, truncated_field,
  unsupported_wire, out_of_fuel, ◌>>=◌,
}
use ditto_client.Wire.Fields.{wt_varint, wt_ld}

pub record Reader : Type 0 where
  pub buf : Bytes
  pub off : ℕ
  pub limit : ℕ

-- `_Reader(buf)`
abbrev pub reader : Bytes → Reader
reader buf = record { buf = buf; off = 0; limit = length buf }

-- `self.remaining() > 0`; the difference may be negative, and is then not above 0.
abbrev pub has_remaining : Reader → Bool
has_remaining r = ltb r.off r.limit

-- The `while self.off < self.end` loop of `read_varint`.
unfoldable pub read_varint_loop : ℕ → ℕ → ℕ → Reader → Result (ℕ × Reader)
read_varint_loop zero result shift r = err out_of_fuel
read_varint_loop (suc fuel) result shift r =
    if ltb r.off r.limit
    then elim (get_elem? r.buf r.off) [
      | none ↦ err index_error
      | some b ↦
          let r' = record r { off = r.off + 1 } in
          let result' = bit_or result (bit_and b 0x7f * 2 ^ shift) in
          let more = read_varint_loop fuel result' (shift + 7) r' in
          if bit_and b 0x80 == 0
          then ok (result', r')
          else if ltb 70 (shift + 7)
          then err varint_too_long
          else more
    ]
    else err truncated_varint

-- The shift passes 70 in the eleventh round at the latest.
unfoldable pub read_varint : Reader → Result (ℕ × Reader)
read_varint r = read_varint_loop 11 0 0 r

-- `v - (1 << 64) if v >= (1 << 63) else v`, on an unbounded non-negative `v`.
abbrev pub signed64 : ℕ → ℤ
signed64 v =
    if ltb v (2 ^ 63)
    then pos v
    else if ltb v (2 ^ 64)
    then negsuc (2 ^ 64 - 1 - v)
    else pos (v - 2 ^ 64)

unfoldable pub read_int64 : Reader → Result (ℤ × Reader)
read_int64 r = do (v, r') ← read_varint r; ok (signed64 v, r')

unfoldable pub read_tag : Reader → Result (ℕ × ℕ × Reader)
read_tag r = do (t, r') ← read_varint r; ok (t / 2 ^ 3, bit_and t 0x7, r')

-- The rest of `read_ld`, behind the length.
unfoldable pub slice : ℕ → Reader → Result (Bytes × Reader)
slice size r =
    if ltb r.limit (r.off + size)
    then err truncated_field
    else ok (take size (drop r.off r.buf), record r { off = r.off + size })

unfoldable pub read_ld : Reader → Result (Bytes × Reader)
read_ld r = do (size, r') ← read_varint r; slice size r'

unfoldable pub skip : ℕ → Reader → Result Reader
skip wire r =
    if wire == wt_varint
    then (do (v, r') ← read_varint r; ok r')
    else if wire == wt_ld
    then (do (v, r') ← read_ld r; ok r')
    else if wire == 1
    then ok (record r { off = r.off + 8 })
    else if wire == 5
    then ok (record r { off = r.off + 4 })
    else err (unsupported_wire wire)
