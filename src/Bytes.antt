-- ===== src/Bytes.antt =====
-- encoding/binary's BigEndian over byte slices: PutUint16/32/64 into a buffer at an offset, and
-- Uint16/32/64 from one. A byte slice is a list of numbers below 256.
use olcrtc.Prelude.{ℕ, ◌+◌, ◌-◌, ◌*◌, ◌/◌, ◌%◌, ◌^◌, ◌<◌, ◌≡◌, List, get_or, set, take, drop, arith}

-- `data[i]`; every use follows a check of the length.
abbrev pub byte_at : List ℕ → ℕ → ℕ
byte_at xs i = get_or xs i 0

-- `data[from:to]`.
abbrev pub slice : List ℕ → ℕ → ℕ → List ℕ
slice xs from to = take (to - from) (drop from xs)

abbrev pub put_u16 : List ℕ → ℕ → ℕ → List ℕ
put_u16 out off v = set (set out off (v / 2 ^ 8 % 256)) (off + 1) (v % 256)

abbrev pub put_u32 : List ℕ → ℕ → ℕ → List ℕ
put_u32 out off v =
    set
      (set (set (set out off (v / 2 ^ 24 % 256)) (off + 1) (v / 2 ^ 16 % 256)) (off + 2)
        (v / 2 ^ 8 % 256))
      (off + 3) (v % 256)

abbrev pub put_u64 : List ℕ → ℕ → ℕ → List ℕ
put_u64 out off v = put_u32 (put_u32 out off (v / 2 ^ 32)) (off + 4) (v % 2 ^ 32)

abbrev pub u16_at : List ℕ → ℕ → ℕ
u16_at xs off = byte_at xs off * 256 + byte_at xs (off + 1)

abbrev pub u32_at : List ℕ → ℕ → ℕ
u32_at xs off =
    byte_at xs off * 2 ^ 24
    + byte_at xs (off + 1) * 2 ^ 16
    + byte_at xs (off + 2) * 2 ^ 8
    + byte_at xs (off + 3)

abbrev pub u64_at : List ℕ → ℕ → ℕ
u64_at xs off = u32_at xs off * 2 ^ 32 + u32_at xs (off + 4)

-- The bytes of a number are bytes.
pub be16_round : (v : ℕ) → v < 2 ^ 16 → v / 2 ^ 8 % 256 * 256 + v % 256 ≡ v
be16_round v h = omega arith

pub be64_round :
    (n : ℕ)
    → n < 2 ^ 64
    → (n / 2 ^ 56 % 256 * 2 ^ 24
            + n / 2 ^ 48 % 256 * 2 ^ 16
            + n / 2 ^ 40 % 256 * 2 ^ 8
            + n / 2 ^ 32 % 256)
          * 2 ^ 32
        + (n / 2 ^ 24 % 256 * 2 ^ 24
            + n / 2 ^ 16 % 256 * 2 ^ 16
            + n / 2 ^ 8 % 256 * 2 ^ 8
            + n % 256)
      ≡ n
be64_round n h = omega arith

pub be32_round :
    (v : ℕ)
    → v < 2 ^ 32
    → v / 2 ^ 24 % 256 * 2 ^ 24 + v / 2 ^ 16 % 256 * 2 ^ 16 + v / 2 ^ 8 % 256 * 2 ^ 8 + v % 256 ≡ v
be32_round v h = omega arith
