-- ===== src/Wire/Total/Within.antt =====
-- Where the bytes that `_Reader.read_ld` returns stand in its buffer.
use ditto_client.Prelude.{
  ℕ, ◌+◌, ◌≤◌, ◌<◌, ◌≡◌, sym, ap, ◌∙◌, inl, inr, arith, ltb, length, take, drop, Bool-cases,
  length-take, length-drop,
}
use ditto_client.Python.Text.{Bytes}
use ditto_client.Python.Errors.{Result, ok, err, >>=-eq-ok, ok-injective}
use ditto_client.Wire.Reader.{Reader, read_varint, slice, read_ld}
use ditto_client.Wire.Total.Moves.{IsWhole, Safe, Further, read_varint-Safe}

-- From `r` to `r'`, `bs` is read: it is what the buffer holds from behind the length up to the new
-- offset, which is not behind the end of the buffer.
abbrev pub Within : Reader → Bytes → Reader → Type 0
Within r bs r' =
    (start : ℕ) × (r.off < start)
    × (r'.off ≡ start + length bs)
    × (r'.off ≤ length r.buf)
    × (bs ≡ take (length bs) (drop start r.buf))
    × (r'.buf ≡ r.buf)

moved :
    {A : Type 0} (m : Result (A × Reader)) (k : ℕ) (r : Reader) {a : A} {r' : Reader}
    → Safe k r m
    → m ≡ ok (a, r')
    → Further k r r'
moved (ok (a, r')) k r s h = rw (ap (λ p. p.1) (ok-injective h)) at s
moved (err e) k r s h = cc h

length-piece :
    (size start : ℕ) (buf : Bytes)
    → start + size ≤ length buf
    → length (take size (drop start buf)) ≡ size
length-piece size start buf h =
    omega (arith, length-take size (drop start buf), length-drop start buf)

slice-Within :
    (size : ℕ) (r : Reader) {bs : Bytes} {r' : Reader}
    → r.limit ≡ length r.buf
    → slice size r ≡ ok (bs, r')
    → (r'.off ≡ r.off + length bs)
      × (r'.off ≤ length r.buf)
      × (bs ≡ take (length bs) (drop r.off r.buf))
      × (r'.buf ≡ r.buf)
unfolding slice
slice-Within size r {bs} {r'} w h = elim (Bool-cases (ltb r.limit (r.off + size))) [
  | inl cut ↦ cc (rw cut at h)
  | inr fits ↦
      let same = ok-injective (rw fits at h) in
      let long = length-piece size r.off r.buf (ground arith) in
      let read = sym (ap (λ p. p.0) same) in
      let size_eq = ap length read ∙ long in
      let end = sym (ap (λ p. p.1.off) same) in
      (
        omega (arith, end, size_eq),
        ground (arith, end),
        read ∙ ap (λ n. take n (drop r.off r.buf)) (sym size_eq),
        sym (ap (λ p. p.1.buf) same),
      )
]

-- On a reader over its whole buffer, with any bytes in it: what `read_ld` returns stands in the buffer,
-- behind the old offset and up to the new one, which is not behind the end of the buffer.
pub read_ld-Within :
    (r r' : Reader) (bs : Bytes) → IsWhole r → read_ld r ≡ ok (bs, r') → Within r bs r'
unfolding read_ld
read_ld-Within r r' bs w h =
    let ((size, middle), sized, sliced) =
      >>=-eq-ok (read_varint r) (λ (size, middle). slice size middle) h in
    let m = moved (read_varint r) 1 r (read_varint-Safe r w) sized in
    let (end, inside, piece, same) = slice-Within size middle m.whole sliced in
    (
      middle.off,
      omega (arith, m.forward),
      end,
      rw m.same_buf at inside,
      rw m.same_buf at piece,
      same ∙ m.same_buf,
    )
