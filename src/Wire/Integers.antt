-- ===== src/Wire/Integers.antt =====
-- The readers and writers of include/hotline/types.h, one after the other.
use lemoniscate.Common.{ℕ, ◌+◌, ◌*◌, ◌/◌, ◌%◌, ◌^◌, ◌<◌, ◌≡◌, ap, ◌∙◌, arith}
use lemoniscate.Common.Bits.{or_of_fields, bit_and_byte}
use lemoniscate.Wire.{Bytes2, Bytes4, IsByte, read_u16, read_u32, write_u16, write_u32}
use Prim.Native.Nat.{bit_or}

pub read_u16-value : (b0 b1 : ℕ) → IsByte b0 → IsByte b1 → read_u16 (b0, b1) ≡ b0 * 256 + b1
unfolding read_u16
read_u16-value b0 b1 h0 h1 = omega (arith, or_of_fields 8 b0 b1 h1)

pub read_u32-value :
    (b0 b1 b2 b3 : ℕ)
    → IsByte b0
    → IsByte b1
    → IsByte b2
    → IsByte b3
    → read_u32 (b0, b1, b2, b3) ≡ b0 * 2 ^ 24 + b1 * 2 ^ 16 + b2 * 2 ^ 8 + b3
unfolding read_u32
read_u32-value b0 b1 b2 b3 h0 h1 h2 h3 = omega (
  arith,
  ap (λ (t : ℕ). bit_or (bit_or t (b2 * 2 ^ 8)) b3) top,
  ap (λ (t : ℕ). bit_or t b3) middle,
  or_of_fields 8 (b0 * 65536 + b1 * 256 + b2) b3 h3,
)
  where
    top : bit_or (b0 * 2 ^ 24) (b1 * 2 ^ 16) ≡ (b0 * 256 + b1) * 2 ^ 16
    top = or_of_fields 24 b0 (b1 * 2 ^ 16) (omega arith) ∙ omega arith

    middle : bit_or ((b0 * 256 + b1) * 2 ^ 16) (b2 * 2 ^ 8) ≡ (b0 * 65536 + b1 * 256 + b2) * 2 ^ 8
    middle = or_of_fields 16 (b0 * 256 + b1) (b2 * 2 ^ 8) (omega arith) ∙ omega arith

pub write_u16-value : (v : ℕ) → write_u16 v ≡ (v / 256 % 256, v % 256)
unfolding write_u16
write_u16-value v = ground (arith, bit_and_byte v)

pub write_u32-value :
    (v : ℕ) → write_u32 v ≡ (v / 2 ^ 24 % 256, v / 2 ^ 16 % 256, v / 2 ^ 8 % 256, v % 256)
unfolding write_u32
write_u32-value v = ground (arith, bit_and_byte v)

pub read_u16-write_u16 : (v : ℕ) → v < 2 ^ 16 → read_u16 (write_u16 v) ≡ v
read_u16-write_u16 v h =
    rw write_u16-value
      (read_u16-value (v / 256 % 256) (v % 256) (omega arith) (omega arith) ∙ omega arith)

pub read_u32-write_u32 : (v : ℕ) → v < 2 ^ 32 → read_u32 (write_u32 v) ≡ v
read_u32-write_u32 v h = rw write_u32-value (
    read_u32-value (v / 2 ^ 24 % 256) (v / 2 ^ 16 % 256) (v / 2 ^ 8 % 256) (v % 256) (omega arith)
      (omega arith) (omega arith) (omega arith)
    ∙ omega arith)

-- What the writers store are bytes, and reading bounds the value.
pub read_u16-lt : (b : Bytes2) → read_u16 b < 2 ^ 16
unfolding read_u16
read_u16-lt (b0, b1) = omega arith

pub read_u32-lt : (b : Bytes4) → read_u32 b < 2 ^ 32
unfolding read_u32
read_u32-lt (b0, b1, b2, b3) = omega arith

-- Storing what was read gives the same two bytes back.
pub write_u16-read_u16 :
    (b0 b1 : ℕ) → IsByte b0 → IsByte b1 → write_u16 (read_u16 (b0, b1)) ≡ (b0, b1)
write_u16-read_u16 b0 b1 h0 h1 = rw (read_u16-value b0 b1 h0 h1, write_u16-value) (ground arith)

-- What is written is read back, a value of 16 bits from two bytes and one of 32 bits from four; and
-- writing what was read from two or four bytes gives the same bytes.
pub reads_writes :
    (v w b0 b1 b2 b3 : ℕ)
    → v < 2 ^ 16
    → w < 2 ^ 32
    → IsByte b0
    → IsByte b1
    → IsByte b2
    → IsByte b3
    → (read_u16 (write_u16 v) ≡ v)
      × (read_u32 (write_u32 w) ≡ w)
      × (write_u16 (read_u16 (b0, b1)) ≡ (b0, b1))
      × (write_u32 (read_u32 (b0, b1, b2, b3)) ≡ (b0, b1, b2, b3))
reads_writes v w b0 b1 b2 b3 hv hw h0 h1 h2 h3 = (
  read_u16-write_u16 v hv,
  read_u32-write_u32 w hw,
  write_u16-read_u16 b0 b1 h0 h1,
  rw (read_u32-value b0 b1 b2 b3 h0 h1 h2 h3, write_u32-value) (ground arith),
)
