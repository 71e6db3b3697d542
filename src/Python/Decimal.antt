-- ===== src/Python/Decimal.antt =====
-- `str(n)` of an integer, in decimal.
use ditto_client.Prelude.{
  ℕ, zero, suc, ◌+◌, ◌*◌, ◌/◌, ◌%◌, ◌<◌, ◌≡◌, [], ◌∷◌, arith, ltb, if◌then◌else◌, Bool-cases, inl,
  inr, ◌-◌,
}
use ditto_client.Prelude.Int.{ℤ, pos, negsuc}
use ditto_client.Python.Text.{Str}

-- The digits of `n` in front of `out`. A round divides by ten, so `n + 1` rounds are enough.
unfoldable pub digits_loop : ℕ → ℕ → Str → Str
digits_loop zero n out = out
digits_loop (suc fuel) n out =
    let more = digits_loop fuel (n / 10) ((b'0' + n % 10) ∷ out) in
    if ltb n 10 then (b'0' + n) ∷ out else more

unfoldable pub decimal : ℕ → Str
unfolding digits_loop
decimal n = digits_loop (suc n) n []

unfoldable pub decimal_int : ℤ → Str
unfolding decimal
decimal_int (pos n) = decimal n
decimal_int (negsuc n) = b'-' ∷ decimal (suc n)

-- The number that a text of digits stands for, behind the number `acc`.
pub read_digits : ℕ → Str → ℕ
read_digits acc [] = acc
read_digits acc (d ∷ s) = read_digits (acc * 10 + (d - b'0')) s

digits_loop-read_digits :
    (fuel n : ℕ) (out : Str) → n < fuel → read_digits 0 (digits_loop fuel n out) ≡ read_digits n out
unfolding digits_loop read_digits
digits_loop-read_digits zero n out h = absurd (omega (arith, h))
digits_loop-read_digits (suc fuel) n out h = elim (Bool-cases (ltb n 10)) [
  | inl last ↦ rw last (ground arith)
  | inr more ↦
      rw more (ground (arith, digits_loop-read_digits fuel (n / 10) ((b'0' + n % 10) ∷ out)))
]

-- The digits of a number are read back as the number.
pub read_digits-decimal : (n : ℕ) → read_digits 0 (decimal n) ≡ n
unfolding decimal read_digits
read_digits-decimal n = digits_loop-read_digits (suc n) n [] (omega arith)
