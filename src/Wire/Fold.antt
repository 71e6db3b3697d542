-- ===== src/Wire/Fold.antt =====
-- A decoder's loop on a printed message is a fold over the fields: one lemma for every decoder.
use ditto_client.Prelude.{
  ℕ, zero, suc, ◌+◌, ◌*◌, ◌≤◌, ◌≡◌, refl, sym, ap, ◌∙◌, List, [], ◌∷◌, ◌++◌, arith, length,
  length-append, All, true,
}
use ditto_client.Python.Text.{Bytes}
use ditto_client.Python.Errors.{Result, ok, err, ◌>>=◌}
use ditto_client.Wire.Message.{
  Field, number, delimited, fixed64, fixed32, number_of, wire_of, body_bytes, tag_bytes, print,
  BodyFits, Fits, length-le-print, length-groups,
}
use ditto_client.Wire.Reader.{Reader, skip, read_tag, has_remaining}
use ditto_client.Wire.Cursor.{at, at_move, read_varint-varint, read_tag-varint, read_ld-delimited}
use ditto_client.Wire.Decode.{Body, while_remaining, read_fields}

-- `skip` passes over any field.
pub skip-body :
    (f : Field) (front back : Bytes)
    → BodyFits f
    → skip (wire_of f) (at front (body_bytes f ++ back)) ≡ ok (at (front ++ body_bytes f) back)
unfolding skip
skip-body (number n v) front back h = rw (read_varint-varint v front back h)
skip-body (delimited n bs) front back h = rw (read_ld-delimited bs front back h)
skip-body (fixed64 n bs) front back h = ap ok (rw (sym h) (at_move front bs back))
skip-body (fixed32 n bs) front back h = ap ok (rw (sym h) (at_move front bs back))

pub read_tag-field :
    (f : Field) (front back : Bytes)
    → Fits f
    → read_tag (at front (tag_bytes f ++ back))
      ≡ ok (number_of f, wire_of f, at (front ++ tag_bytes f) back)
read_tag-field (number n v) front back h = read_tag-varint n 0 front back (omega arith) h.0
read_tag-field (delimited n bs) front back h = read_tag-varint n 2 front back (omega arith) h.0
read_tag-field (fixed64 n bs) front back h = read_tag-varint n 1 front back (omega arith) h.0
read_tag-field (fixed32 n bs) front back h = read_tag-varint n 5 front back (omega arith) h.0

pub has_remaining-field :
    (f : Field) (front back : Bytes) → has_remaining (at front (tag_bytes f ++ back)) ≡ true
has_remaining-field f front back = ground (
  arith,
  length-append front (tag_bytes f ++ back),
  length-append (tag_bytes f) back,
  (length-groups (number_of f * 8 + wire_of f) (number_of f * 8 + wire_of f)).0,
)

module _ {S : Type 0} where
  -- The fold that a loop computes: each field in turn, until one raises.
  abbrev pub fold : (S → Field → Result S) → S → List Field → Result S
  fold step s [] = ok s
  fold step s (f ∷ fs) = step s f >>= λ s'. fold step s' fs

  -- What is left to show of a loop body: behind the tag of any field it does the fold's step.
  abbrev pub Follows : Body S → (S → Field → Result S) → Type 0
  Follows body step =
      (f : Field) (s : S) (front back : Bytes)
      → BodyFits f
      → body (number_of f) (wire_of f) s (at front (body_bytes f ++ back))
        ≡ (step s f >>= λ s'. ok (s', at (front ++ body_bytes f) back))

module _ {S : Type 0} (body : Body S) (step : S → Field → Result S)
    (follows : Follows body step) where
  pair_with : Reader → S → Result (S × Reader)
  pair_with cursor s = ok (s, cursor)

  after_step :
      (r : Result S) (cursor : Reader) (k : S × Reader → Result S) (k' : S → Result S)
      → ((s : S) → k (s, cursor) ≡ k' s)
      → ((r >>= pair_with cursor) >>= k) ≡ (r >>= k')
  unfolding pair_with
  after_step (ok s) cursor k k' h = h s
  after_step (err e) cursor k k' h = refl

  -- A round on a cursor with bytes left.
  one_round :
      (fuel : ℕ) (s : S) (r : Reader) {n w : ℕ} {r' : Reader}
      → has_remaining r ≡ true
      → read_tag r ≡ ok (n, w, r')
      → while_remaining body (suc fuel) s r
        ≡ (body n w s r' >>= λ p. while_remaining body fuel p.0 p.1)
  unfolding while_remaining
  one_round fuel s r left tag = rw (left, while_remaining) (rw tag)

  while_remaining-print :
      (fs : List Field) (fuel : ℕ) (s : S) (front : Bytes)
      → All Fits fs
      → length fs ≤ fuel
      → while_remaining body fuel s (at front (print fs)) ≡ fold step s fs
  unfolding print pair_with
  while_remaining-print [] zero s front h k =
      unfold while_remaining in ground (arith, length-append front [])
  while_remaining-print [] (suc fuel) s front h k =
      unfold while_remaining in ground (arith, length-append front [])
  while_remaining-print (f ∷ fs) zero s front h k = absurd (omega arith)
  while_remaining-print (f ∷ fs) (suc fuel) s front h k =
      let back : Bytes = body_bytes f ++ print fs in
      let middle : Bytes = front ++ tag_bytes f in
      one_round fuel s _ (has_remaining-field f front back) (read_tag-field f front back h.0)
      ∙ rw (follows f s middle (print fs) h.0.1) (
          after_step (step s f) (at (middle ++ body_bytes f) (print fs))
            (λ p. while_remaining body fuel p.0 p.1) (λ s'. fold step s' fs)
            (λ s'. while_remaining-print fs fuel s' (middle ++ body_bytes f) h.1 (omega arith)))

  pub read_fields-print :
      (fs : List Field) (s : S) → All Fits fs → read_fields body s (print fs) ≡ fold step s fs
  unfolding read_fields
  read_fields-print fs s h =
      while_remaining-print fs (length (print fs)) s [] h (length-le-print fs)
