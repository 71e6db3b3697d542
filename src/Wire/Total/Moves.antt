-- ===== src/Wire/Total/Moves.antt =====
-- How far the methods of `_Reader` move the cursor, on any buffer.
use mathlib.Core.Logic.{◌≢◌}
use ditto_client.Prelude.{
  ℕ, zero, suc, ◌+◌, ◌*◌, ◌^◌, ◌≤◌, ◌<◌, ◌≡◌, refl, ◌∙◌, none, [], ◌∷◌, arith, ltb, ◌==◌,
  if◌then◌else◌, length, Bool-cases, Option-cases, inl, inr, get_elem?, bit_and, bit_or,
}
use ditto_client.Python.Text.{Bytes}
use ditto_client.Python.Errors.{
  Result, Exn, ok, err, Raises, ◌>>=◌, varint_too_long, truncated_varint, truncated_field,
  unsupported_wire, unsupported_version, missing_response, no_response_field, unicode_decode,
  bind_assoc,
}
use ditto_client.Wire.Reader.{
  Reader, read_varint_loop, read_varint, read_int64, slice, read_ld, skip,
}

-- The cursor is over its whole buffer.
abbrev pub IsWhole : Reader → Type 0
IsWhole r = r.limit ≡ length r.buf

-- At least `k` bytes further in the same buffer.
pub record Further (k : ℕ) (r r' : Reader) : Type 0 where
  pub same_buf : r'.buf ≡ r.buf
  pub same_limit : r'.limit ≡ r.limit
  pub whole : IsWhole r'
  pub forward : r.off + k ≤ r'.off

-- The exceptions of `decode_response`: what a buffer that is no response makes it raise.
abbrev pub IsOwn : Exn → Type 0
IsOwn truncated_varint = Unit {0}
IsOwn varint_too_long = Unit {0}
IsOwn truncated_field = Unit {0}
IsOwn (unsupported_wire n) = Unit {0}
IsOwn (unsupported_version n) = Unit {0}
IsOwn missing_response = Unit {0}
IsOwn no_response_field = Unit {0}
IsOwn unicode_decode = Unit {0}
IsOwn _ = ⊥

-- A call that moves the cursor, or raises one of these.
abbrev pub Safe : {A : Type 0} → ℕ → Reader → Result (A × Reader) → Type 0
Safe k r (ok (a, r')) = Further k r r'
Safe k r (err e) = IsOwn e

get_elem?-lt : (bs : Bytes) (i : ℕ) → i < length bs → get_elem? bs i ≢ none
get_elem?-lt [] i h e = absurd (omega arith)
get_elem?-lt (b ∷ bs) zero h e = cc
get_elem?-lt (b ∷ bs) (suc i) h e = get_elem?-lt bs i (omega arith) e

-- A call from further on is safe from here.
pub Safe-back :
    {A : Type 0} (m : Result (A × Reader)) (j k : ℕ) (r r' : Reader)
    → r'.buf ≡ r.buf
    → r'.limit ≡ r.limit
    → r.off + k ≤ r'.off + j
    → Safe j r' m
    → Safe k r m
Safe-back (ok (a, r'')) j k r r' b e f s = record {
  same_buf = s.same_buf ∙ b;
  same_limit = s.same_limit ∙ e;
  whole = s.whole;
  forward = omega (arith, s.forward);
}
Safe-back (err x) j k r r' b e f s = s

pub Safe->>= :
    {A B : Type 0} (m : Result (A × Reader)) (f : A × Reader → Result (B × Reader)) (j k : ℕ)
    (r : Reader)
    → Safe j r m
    → ((a : A) (r' : Reader) → IsWhole r' → Safe k r' (f (a, r')))
    → Safe (j + k) r (m >>= f)
Safe->>= (ok (a, r')) f j k r s g =
    Safe-back (f (a, r')) k (j + k) r r' s.same_buf s.same_limit (omega (arith, s.forward))
      (g a r' s.whole)
Safe->>= (err e) f j k r s g = s

read_varint_round :
    (b shift : ℕ) (r : Reader) (done more : Result (ℕ × Reader))
    → Safe 1 r done
    → (shift + 7 ≤ 70 → Safe 1 (record r { off = r.off + 1 }) more)
    → Safe 1 r (
        if bit_and b 0x80 == 0
        then done
        else if ltb 70 (shift + 7)
        then err varint_too_long
        else more)
read_varint_round b shift r done more end ih = elim (Bool-cases (bit_and b 0x80 == 0)) [
  | inl last ↦ rw last end
  | inr inner ↦ rw inner (elim (Bool-cases (ltb 70 (shift + 7))) [
    | inl long ↦ rw long tt
    | inr short ↦ rw short (
        Safe-back more 1 1 r (record r { off = r.off + 1 }) refl refl (omega arith)
          (ih (ground arith)))
  ])
]

pub read_varint_loop-Safe :
    (fuel result shift : ℕ) (r : Reader)
    → IsWhole r
    → shift ≤ 70
    → 77 ≤ shift + 7 * fuel
    → Safe 1 r (read_varint_loop fuel result shift r)
unfolding read_varint_loop
read_varint_loop-Safe zero result shift r w a b = absurd (omega arith)
read_varint_loop-Safe (suc fuel) result shift r w a b = elim (Bool-cases (ltb r.off r.limit)) [
  | inr over ↦ rw over tt
  | inl inside ↦ rw inside (elim (Option-cases (get_elem? r.buf r.off)) [
    | inl missing ↦ absurd (get_elem?-lt r.buf r.off (ground arith) missing)
    | inr (byte, e) ↦
        let result' = bit_or result (bit_and byte 0x7f * 2 ^ shift) in
        let r' = record r { off = r.off + 1 } in
        rw e (
          read_varint_round byte shift r (ok (result', r'))
            (read_varint_loop fuel result' (shift + 7) r')
            (record { same_buf = refl; same_limit = refl; whole = w; forward = omega arith })
            (λ h. read_varint_loop-Safe fuel result' (shift + 7) r' w h (omega arith)))
  ])
]

pub read_varint-Safe : (r : Reader) → IsWhole r → Safe 1 r (read_varint r)
unfolding read_varint
read_varint-Safe r w = read_varint_loop-Safe 11 0 0 r w (omega arith) (omega arith)

pub read_int64-Safe : (r : Reader) → IsWhole r → Safe 1 r (read_int64 r)
unfolding read_int64
read_int64-Safe r w =
    Safe->>= (read_varint r) _ 1 0 r (read_varint-Safe r w)
      (λ v r' w'. record { same_buf = refl; same_limit = refl; whole = w'; forward = omega arith })

pub slice-Safe : (size : ℕ) (r : Reader) → IsWhole r → Safe 0 r (slice size r)
unfolding slice
slice-Safe size r w = elim (Bool-cases (ltb r.limit (r.off + size))) [
  | inl cut ↦ rw cut tt
  | inr fits ↦
      rw fits (record { same_buf = refl; same_limit = refl; whole = w; forward = omega arith })
]

pub read_ld-Safe : (r : Reader) → IsWhole r → Safe 1 r (read_ld r)
unfolding read_ld
read_ld-Safe r w = Safe->>= (read_varint r) _ 1 0 r (read_varint-Safe r w) slice-Safe

-- What a decoder makes of the value that a method reads.
pub Safe-map :
    {A B : Type 0} (m : Result (A × Reader)) (f : A → B) (k : ℕ) (r : Reader)
    → Safe k r m
    → Safe 0 r (do (a, r') ← m; ok (f a, r'))
Safe-map (ok (a, r')) f k r s = record {
  same_buf = s.same_buf;
  same_limit = s.same_limit;
  whole = s.whole;
  forward = omega (arith, s.forward);
}
Safe-map (err e) f k r s = s

pub skip-Safe :
    {S : Type 0} (wire : ℕ) (s : S) (r : Reader)
    → IsWhole r
    → Safe 0 r (do r' ← skip wire r; ok (s, r'))
unfolding skip
skip-Safe wire s r w = elim (Bool-cases (wire == 0)) [
  | inl e ↦ rw (e, bind_assoc) (Safe-map (read_varint r) (λ _. s) 1 r (read_varint-Safe r w))
  | inr e ↦ rw e (elim (Bool-cases (wire == 2)) [
    | inl e ↦ rw (e, bind_assoc) (Safe-map (read_ld r) (λ _. s) 1 r (read_ld-Safe r w))
    | inr e ↦ rw e (elim (Bool-cases (wire == 1)) [
      | inl e ↦
          rw e (record { same_buf = refl; same_limit = refl; whole = w; forward = omega arith })
      | inr e ↦ rw e (elim (Bool-cases (wire == 5)) [
        | inl e ↦
            rw e (record { same_buf = refl; same_limit = refl; whole = w; forward = omega arith })
        | inr e ↦ rw e tt
      ])
    ])
  ])
]

pub Safe-Raises :
    {A B : Type 0} (m : Result (A × Reader)) (f : A × Reader → Result B) (k : ℕ) (r : Reader)
    → Safe k r m
    → ((a : A) (r' : Reader) → Further k r r' → Raises IsOwn (f (a, r')))
    → Raises IsOwn (m >>= f)
Safe-Raises (ok (a, r')) f k r s g = g a r' s
Safe-Raises (err e) f k r s g = s
