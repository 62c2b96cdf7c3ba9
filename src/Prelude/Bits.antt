-- ===== src/Prelude/Bits.antt =====
-- The bits of a number, and what the native bit operations, shifts and masks do to them.
use Prim.Native.Nat.{
  ℕ, zero, suc, ◌+◌, ◌-◌, ◌*◌, ◌/◌, ◌%◌, ◌^◌, ◌≤◌, ◌<◌, min, max, bit_and, bit_or, digits,
  bit_and-bitwise, bit_or-bitwise,
}
use mathlib.Core.Path.{◌≡◌, refl, sym, ◌∙◌, ap}
use native.Mathlib.Nat.{pow-suc, one-le-pow, mul-one, sub-zero, suc-sub-suc}
use native.Mathlib.Omega.{arith}
use olcrtc.Prelude.Tests.{◌==◌, ltb, if◌then◌else◌}

-- Bit `i` of `x`, 0 or 1.
unfoldable pub bit : ℕ → ℕ → ℕ
bit x zero = x % 2
bit x (suc i) = bit (x / 2) i

pub bit-lt : (x i : ℕ) → bit x i < 2
unfolding bit
bit-lt x zero = omega arith
bit-lt x (suc i) = bit-lt (x / 2) i

-- The native operations work digit by digit, on as much fuel as the first number; any more fuel does.
same_digits :
    (tail : ℕ → ℕ) (join : ℕ → ℕ → ℕ) (x y n m : ℕ)
    → x ≤ min n m
    → digits tail join n x y ≡ digits tail join m x y
same_digits tail join x y zero zero le = refl
same_digits tail join zero y zero (suc m) le = refl
same_digits tail join zero y (suc n) zero le = refl
same_digits tail join zero y (suc n) (suc m) le = refl
same_digits tail join (suc x) y zero m le = absurd (omega arith)
same_digits tail join (suc x) y (suc n) zero le = absurd (omega arith)
same_digits tail join (suc x) y (suc n) (suc m) le =
    ap (λ rest. rest * 2 + join (suc x % 2) (y % 2))
      (same_digits tail join (suc x / 2) (y / 2) n m (omega arith))

-- The lowest digit and the rest.
lowest_digit :
    (tail : ℕ → ℕ) (join : ℕ → ℕ → ℕ) (x y : ℕ)
    → digits tail join (suc x) (suc x) y
      ≡ digits tail join (suc x / 2) (suc x / 2) (y / 2) * 2 + join (suc x % 2) (y % 2)
lowest_digit tail join x y =
    ap (λ rest. rest * 2 + join (suc x % 2) (y % 2))
      (same_digits tail join (suc x / 2) (y / 2) x (suc x / 2) (omega arith))

bit_and_step : (a b : ℕ) → bit_and a b ≡ bit_and (a / 2) (b / 2) * 2 + min (a % 2) (b % 2)
bit_and_step zero y = omega (arith, bit_and-bitwise 0 y, bit_and-bitwise 0 (y / 2))
bit_and_step (suc x) y =
    bit_and-bitwise (suc x) y
    ∙ lowest_digit (λ z. 0) min x y
    ∙ ap (λ rest. rest * 2 + min (suc x % 2) (y % 2)) (sym (bit_and-bitwise (suc x / 2) (y / 2)))

bit_or_step : (a b : ℕ) → bit_or a b ≡ bit_or (a / 2) (b / 2) * 2 + max (a % 2) (b % 2)
bit_or_step zero y = omega (arith, bit_or-bitwise 0 y, bit_or-bitwise 0 (y / 2))
bit_or_step (suc x) y =
    bit_or-bitwise (suc x) y
    ∙ lowest_digit (λ z. z) max x y
    ∙ ap (λ rest. rest * 2 + max (suc x % 2) (y % 2)) (sym (bit_or-bitwise (suc x / 2) (y / 2)))

half_and : (a b : ℕ) → bit_and a b / 2 ≡ bit_and (a / 2) (b / 2)
half_and a b = omega (arith, bit_and_step a b)

half_or : (a b : ℕ) → bit_or a b / 2 ≡ bit_or (a / 2) (b / 2)
half_or a b = omega (arith, bit_or_step a b)

pub bit-bit_and : (a b i : ℕ) → bit (bit_and a b) i ≡ min (bit a i) (bit b i)
unfolding bit
bit-bit_and a b zero = omega (arith, bit_and_step a b)
bit-bit_and a b (suc i) = ap (λ x. bit x i) (half_and a b) ∙ bit-bit_and (a / 2) (b / 2) i

pub bit-bit_or : (a b i : ℕ) → bit (bit_or a b) i ≡ max (bit a i) (bit b i)
unfolding bit
bit-bit_or a b zero = omega (arith, bit_or_step a b)
bit-bit_or a b (suc i) = ap (λ x. bit x i) (half_or a b) ∙ bit-bit_or (a / 2) (b / 2) i

bit_of_zero : (i : ℕ) → bit 0 i ≡ 0
unfolding bit
bit_of_zero zero = refl
bit_of_zero (suc i) = bit_of_zero i

double_half : (x : ℕ) → (x * 2) / 2 ≡ x
double_half x = omega arith

-- `1 << k` has bit k and no other.
pub bit-pow : (k i : ℕ) → bit (2 ^ k) i ≡ (if k == i then 1 else 0)
unfolding bit
bit-pow zero zero = refl
bit-pow zero (suc i) = ground (arith, bit_of_zero i)
bit-pow (suc k) zero = ground (arith, pow-suc 2 k)
bit-pow (suc k) (suc i) =
    ap (λ x. bit (x / 2) i) (pow-suc 2 k)
    ∙ ap (λ x. bit x i) (double_half (2 ^ k))
    ∙ ground (arith, bit-pow k i)

no_digits : (n x : ℕ) → digits (λ z. 0) min n x 0 ≡ 0
no_digits zero x = refl
no_digits (suc n) zero = refl
no_digits (suc n) (suc x) = omega (arith, no_digits n (suc x / 2))

bit_and_zero_right : (a : ℕ) → bit_and a 0 ≡ 0
bit_and_zero_right x = bit_and-bitwise x 0 ∙ no_digits x x

-- A mask test: `s & (1 << k)` is 0 exactly where bit k is.
pub bit_and-pow : (s k : ℕ) → bit s k ≡ 0 → bit_and s (2 ^ k) ≡ 0
unfolding bit
bit_and-pow s zero h = omega (arith, bit_and_step s 1, bit_and_zero_right (s / 2))
bit_and-pow s (suc k) h = rw pow-suc (
    omega (
      arith,
      bit_and_step s (2 ^ k * 2),
      ap (λ x. bit_and (s / 2) x) (double_half (2 ^ k)),
      bit_and-pow (s / 2) k h,
    ))

double_even : (x p : ℕ) → (x * (p * 2)) % 2 ≡ 0
double_even x p = omega arith

shift_half : (x p : ℕ) → x * (p * 2) / 2 ≡ x * p
shift_half x p = omega arith

-- `x << k` moves every bit up by k.
pub bit_shift : (x k i : ℕ) → bit (x * 2 ^ k) i ≡ (if ltb i k then 0 else bit x (i - k))
unfolding bit
bit_shift x zero i = ap (λ y. bit y i) (mul-one x) ∙ ground (arith, ap (bit x) (sub-zero i))
bit_shift x (suc k) zero = ground (arith, pow-suc 2 k, double_even x (2 ^ k))
bit_shift x (suc k) (suc i) =
    ap (λ p. bit (x * p / 2) i) (pow-suc 2 k)
    ∙ ap (λ y. bit y i) (shift_half x (2 ^ k))
    ∙ ground (arith, bit_shift x k i, ap (bit x) (suc-sub-suc i k))

mod_one : (x : ℕ) → x % 1 ≡ 0
mod_one x = omega arith

half_mod : (x m : ℕ) → 0 < m → (x % (m * 2)) / 2 ≡ (x / 2) % m
half_mod x m h = grind arith

low_mod : (x m : ℕ) → 0 < m → (x % (m * 2)) % 2 ≡ x % 2
low_mod x m h = grind arith

-- `x % 2 ^ n` keeps the bits below n.
pub bit_mod : (x n i : ℕ) → bit (x % 2 ^ n) i ≡ (if ltb i n then bit x i else 0)
unfolding bit
bit_mod x zero i = ap (λ y. bit y i) (mod_one x) ∙ ground (arith, bit_of_zero i)
bit_mod x (suc n) zero = ground (arith, pow-suc 2 n, low_mod x (2 ^ n), one-le-pow n 2)
bit_mod x (suc n) (suc i) =
    ap (λ p. bit (x % p / 2) i) (pow-suc 2 n)
    ∙ ap (λ y. bit y i) (half_mod x (2 ^ n) (one-le-pow n 2 (omega arith)))
    ∙ ground (arith, bit_mod (x / 2) n i)

-- `x << k | 1` in 64 bits.
pub bit_push :
    (x k i : ℕ)
    → bit (bit_or (x * 2 ^ k % 2 ^ 64) 1) i
      ≡ (if i == 0 then 1 else if ltb i 64 then if ltb i k then 0 else bit x (i - k) else 0)
bit_push x k i = ground (
  arith,
  bit-bit_or (x * 2 ^ k % 2 ^ 64) 1 i,
  bit_mod (x * 2 ^ k) 64 i,
  bit_shift x k i,
  bit-pow 0 i,
  bit-lt (x * 2 ^ k % 2 ^ 64) i,
)

-- `x | 1 << k`.
pub bit_mark : (x k i : ℕ) → bit (bit_or x (2 ^ k)) i ≡ (if k == i then 1 else bit x i)
bit_mark x k i = ground (arith, bit-bit_or x (2 ^ k) i, bit-pow k i, bit-lt x i)

-- `x & 1 << k` is 0 exactly where bit k is.
pub bit_of_mask : (x k : ℕ) → bit_and x (2 ^ k) ≡ 0 → bit x k ≡ 0
bit_of_mask x k h =
    ground
      (arith, ap (λ y. bit y k) h, bit_of_zero k, bit-bit_and x (2 ^ k) k, bit-pow k k, bit-lt x k)
