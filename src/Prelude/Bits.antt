-- ===== src/Prelude/Bits.antt =====
-- Masks and disjoint fields as plain arithmetic, for every value: the wire code masks seven bits
-- of an unbounded integer, joins a tag's two fields and shifts the groups of a varint together.
use Prim.Native.Nat.{ℕ, zero, suc, ◌+◌, ◌*◌, ◌/◌, ◌%◌, ◌^◌, ◌≤◌, ◌<◌, min, max, bit_and, bit_or}
use Prim.Native.Nat.{digits, bit_and-bitwise, bit_or-bitwise}
use mathlib.Core.Path.{◌≡◌, refl, ap, sym, ◌∙◌}
use native.Mathlib.Omega.{arith}
use native.Mathlib.Nat.{pow-suc}

-- The recursion behind the native operations does not depend on its rounds, once there are enough.
module _ (rest : ℕ → ℕ) (op : ℕ → ℕ → ℕ) where
  no_digits : (rounds y : ℕ) → digits rest op rounds 0 y ≡ rest y
  no_digits zero y = refl
  no_digits (suc rounds) y = refl

  rounds_agree : (k l x y : ℕ) → x ≤ k → x ≤ l → digits rest op k x y ≡ digits rest op l x y
  rounds_agree k l zero y h h' = no_digits k y ∙ sym (no_digits l y)
  rounds_agree zero l (suc x) y h h' = absurd (omega (arith, h))
  rounds_agree (suc k) zero (suc x) y h h' = absurd (omega (arith, h'))
  rounds_agree (suc k) (suc l) (suc x) y h h' =
      let halves = rounds_agree k l (suc x / 2) (y / 2) (omega (arith, h)) (omega (arith, h')) in
      omega (arith, halves)

  lowest_digit :
      (x y : ℕ)
      → digits rest op (suc x) (suc x) y
        ≡ op (suc x % 2) (y % 2) + 2 * digits rest op (suc x / 2) (suc x / 2) (y / 2)
  lowest_digit x y =
      let fewer = rounds_agree x (suc x / 2) (suc x / 2) (y / 2) (omega arith) (omega arith) in
      omega (arith, fewer)

pub zero-bit_or : (y : ℕ) → bit_or 0 y ≡ y
zero-bit_or y = bit_or-bitwise zero y

zero-bit_and : (y : ℕ) → bit_and 0 y ≡ 0
zero-bit_and y = bit_and-bitwise zero y

bit_or_step : (x y : ℕ) → bit_or x y ≡ bit_or (x / 2) (y / 2) * 2 + max (x % 2) (y % 2)
bit_or_step zero y = omega (arith, zero-bit_or (y / 2), zero-bit_or y)
bit_or_step (suc x) y =
    let whole = bit_or-bitwise (suc x) y in
    let half = bit_or-bitwise (suc x / 2) (y / 2) in
    omega (arith, lowest_digit (λ r. r) max x y, whole, half)

bit_and_step : (x y : ℕ) → bit_and x y ≡ bit_and (x / 2) (y / 2) * 2 + min (x % 2) (y % 2)
bit_and_step zero y = omega (arith, zero-bit_and (y / 2), zero-bit_and y)
bit_and_step (suc x) y =
    let whole = bit_and-bitwise (suc x) y in
    let half = bit_and-bitwise (suc x / 2) (y / 2) in
    omega (arith, lowest_digit (λ r. zero) min x y, whole, half)

bit_or-zero_below : (bound x : ℕ) → x ≤ bound → bit_or x 0 ≡ x
bit_or-zero_below bound zero small = zero-bit_or 0
bit_or-zero_below zero (suc x) small = absurd (omega (arith, small))
bit_or-zero_below (suc bound) (suc x) small =
    let half = bit_or-zero_below bound (suc x / 2) (omega (arith, small)) in
    omega (arith, half, bit_or_step (suc x) 0)

bit_and-zero_below : (bound x : ℕ) → x ≤ bound → bit_and x 0 ≡ 0
bit_and-zero_below bound zero small = zero-bit_and 0
bit_and-zero_below zero (suc x) small = absurd (omega (arith, small))
bit_and-zero_below (suc bound) (suc x) small =
    let half = bit_and-zero_below bound (suc x / 2) (omega (arith, small)) in
    omega (arith, half, bit_and_step (suc x) 0)

pub bit_or-zero : (a : ℕ) → bit_or a 0 ≡ a
bit_or-zero a = bit_or-zero_below a a (omega arith)

-- `a & 1`, `a & 7` and `a & 0x7f`.
bit_and-one : (a : ℕ) → bit_and a 1 ≡ a % 2
bit_and-one a = omega (arith, bit_and_step a 1, bit_and-zero_below (a / 2) (a / 2) (omega arith))

pub bit_and-7 : (a : ℕ) → bit_and a 7 ≡ a % 8
bit_and-7 a = omega (arith, bit_and_step a 7, bit_and_step (a / 2) 3, bit_and-one (a / 2 / 2))

bit_and-15 : (a : ℕ) → bit_and a 15 ≡ a % 16
bit_and-15 a = omega (arith, bit_and_step a 15, bit_and-7 (a / 2))

bit_and-31 : (a : ℕ) → bit_and a 31 ≡ a % 32
bit_and-31 a = omega (arith, bit_and_step a 31, bit_and-15 (a / 2))

bit_and-63 : (a : ℕ) → bit_and a 63 ≡ a % 64
bit_and-63 a = omega (arith, bit_and_step a 63, bit_and-31 (a / 2))

pub bit_and-0x7f : (a : ℕ) → bit_and a 0x7f ≡ a % 128
bit_and-0x7f a = omega (arith, bit_and_step a 0x7f, bit_and-63 (a / 2))

-- The bits of `a`, up to `a & 0x80`.
bit_and-bit_2 : (a : ℕ) → bit_and a 2 ≡ a / 2 % 2 * 2
bit_and-bit_2 a = omega (arith, bit_and_step a 2, bit_and-one (a / 2))

bit_and-bit_4 : (a : ℕ) → bit_and a 4 ≡ a / 4 % 2 * 4
bit_and-bit_4 a = omega (arith, bit_and_step a 4, bit_and-bit_2 (a / 2))

bit_and-bit_8 : (a : ℕ) → bit_and a 8 ≡ a / 8 % 2 * 8
bit_and-bit_8 a = omega (arith, bit_and_step a 8, bit_and-bit_4 (a / 2))

bit_and-bit_16 : (a : ℕ) → bit_and a 16 ≡ a / 16 % 2 * 16
bit_and-bit_16 a = omega (arith, bit_and_step a 16, bit_and-bit_8 (a / 2))

bit_and-bit_32 : (a : ℕ) → bit_and a 32 ≡ a / 32 % 2 * 32
bit_and-bit_32 a = omega (arith, bit_and_step a 32, bit_and-bit_16 (a / 2))

bit_and-bit_64 : (a : ℕ) → bit_and a 64 ≡ a / 64 % 2 * 64
bit_and-bit_64 a = omega (arith, bit_and_step a 64, bit_and-bit_32 (a / 2))

pub bit_and-0x80 : (a : ℕ) → bit_and a 0x80 ≡ a / 128 % 2 * 128
bit_and-0x80 a = omega (arith, bit_and_step a 128, bit_and-bit_64 (a / 2))

mul-pow-suc : (q k : ℕ) → q * 2 ^ suc k ≡ 2 * (q * 2 ^ k)
mul-pow-suc q k = omega (arith, ap (λ (t : ℕ). q * t) (pow-suc 2 k))

half_double : (x : ℕ) → 2 * x / 2 ≡ x
half_double x = omega arith

bit_or_double : (r x : ℕ) → bit_or r (2 * x) ≡ bit_or (r / 2) x * 2 + r % 2
bit_or_double r x = omega (arith, bit_or_step r (2 * x), ap (bit_or (r / 2)) (half_double x))

double-bit_or : (x r : ℕ) → bit_or (2 * x) r ≡ bit_or x (r / 2) * 2 + r % 2
double-bit_or x r =
    omega (arith, bit_or_step (2 * x) r, ap (λ (y : ℕ). bit_or y (r / 2)) (half_double x))

one_times : (q : ℕ) → q * 2 ^ 0 ≡ q
one_times q = omega arith

below_one : (r : ℕ) → r < 2 ^ 0 → r ≡ 0
below_one r h = omega arith

half_below : (k r : ℕ) → r < 2 ^ suc k → r / 2 < 2 ^ k
half_below k r h = omega (arith, pow-suc 2 k)

join_halves : (x r m : ℕ) → m ≡ r / 2 + x → m * 2 + r % 2 ≡ r + 2 * x
join_halves x r m h = omega arith

join_halves_low : (x r m : ℕ) → m ≡ x + r / 2 → m * 2 + r % 2 ≡ 2 * x + r
join_halves_low x r m h = omega arith

-- `r | (q << k)` and `(q << k) | r` are sums where `r` fits in `k` bits.
pub bit_or_high : (k q r : ℕ) → r < 2 ^ k → bit_or r (q * 2 ^ k) ≡ r + q * 2 ^ k
bit_or_high zero q r h = rw (one_times q, below_one r h) (zero-bit_or q ∙ omega arith)
bit_or_high (suc k) q r h = rw (mul-pow-suc q k) (
    bit_or_double r (q * 2 ^ k)
    ∙ join_halves (q * 2 ^ k) r (bit_or (r / 2) (q * 2 ^ k))
        (bit_or_high k q (r / 2) (half_below k r h)))

pub bit_or_low : (k q r : ℕ) → r < 2 ^ k → bit_or (q * 2 ^ k) r ≡ q * 2 ^ k + r
bit_or_low zero q r h = rw (one_times q, below_one r h) (bit_or-zero q ∙ omega arith)
bit_or_low (suc k) q r h = rw (mul-pow-suc q k) (
    double-bit_or (q * 2 ^ k) r
    ∙ join_halves_low (q * 2 ^ k) r (bit_or (q * 2 ^ k) (r / 2))
        (bit_or_low k q (r / 2) (half_below k r h)))
