-- ===== src/Wire.antt =====
-- include/hotline/types.h: big-endian integers in byte arrays. An array of fixed size is a tuple;
-- a byte is a number below 256, where a theorem needs that.
pub mod Integers
pub mod Reads
pub mod Stores
mod Tests
use lemoniscate.Common.{
  ◌≡◌, true, arith, ℕ, ◌+◌, ◌*◌, ◌/◌, ◌%◌, ◌^◌, ◌<◌, ◌==◌, ◌&&◌, Bool, Outcome,
}
use lemoniscate.Common.{List, [], ◌∷◌, ◌++◌, ok, fault, take, drop, length, leb, within, ◌>>◌}
use Prim.Native.Nat.{bit_and, bit_or}

abbrev pub Bytes2 : Type 0
Bytes2 = ℕ × ℕ

abbrev pub Bytes4 : Type 0
Bytes4 = ℕ × ℕ × ℕ × ℕ

abbrev pub IsByte : ℕ → Type 0
IsByte b = b < 256

-- `(uint16_t)((b[0] << 8) | b[1])`
unfoldable pub read_u16 : Bytes2 → ℕ
read_u16 (b0, b1) = bit_or (b0 * 2 ^ 8) b1 % 2 ^ 16

-- The shifted bytes of a uint32_t, joined by `|` from the left.
unfoldable pub read_u32 : Bytes4 → ℕ
read_u32 (b0, b1, b2, b3) =
    bit_or (bit_or (bit_or (b0 * 2 ^ 24) (b1 * 2 ^ 16)) (b2 * 2 ^ 8)) b3 % 2 ^ 32

unfoldable pub write_u16 : ℕ → Bytes2
write_u16 val = (val / 2 ^ 8 % 256, bit_and val 0xff % 256)

unfoldable pub write_u32 : ℕ → Bytes4
write_u32 val = (val / 2 ^ 24 % 256, val / 2 ^ 16 % 256, val / 2 ^ 8 % 256, bit_and val 0xff % 256)

-- `hl_type_eq`
unfoldable pub type_eq : Bytes2 → Bytes2 → Bool
type_eq (a0, a1) (b0, b1) = (a0 == b0) && (a1 == b1)

-- `memcpy` out of `mem`, which holds the bytes that the caller's buffer really has from the
-- pointer on: a read past them is a fault.
unfoldable pub first2 : List ℕ → Outcome Bytes2
first2 (a ∷ b ∷ rest) = ok (a, b)
first2 _ = fault

unfoldable pub first4 : List ℕ → Outcome Bytes4
first4 (a ∷ b ∷ c ∷ d ∷ rest) = ok (a, b, c, d)
first4 _ = fault

unfoldable pub bytes2_at : List ℕ → ℕ → Outcome Bytes2
bytes2_at mem off = first2 (drop off mem)

unfoldable pub bytes4_at : List ℕ → ℕ → Outcome Bytes4
bytes4_at mem off = first4 (drop off mem)

unfoldable pub bytes_at : List ℕ → ℕ → ℕ → Outcome (List ℕ)
bytes_at mem off n = do within (leb (off + n) (length mem)); ok (take n (drop off mem))

abbrev pub list2 : Bytes2 → List ℕ
list2 (a, b) = a ∷ b ∷ []

abbrev pub list4 : Bytes4 → List ℕ
list4 (a, b, c, d) = a ∷ b ∷ c ∷ d ∷ []

-- `memcpy(mem + off, src, n)` of the `n` bytes `src`: the memory after it, or a fault if it would
-- write past the end.
unfoldable pub store : List ℕ → ℕ → List ℕ → Outcome (List ℕ)
store mem off src = do
  within (leb (off + length src) (length mem))
  ok (take off mem ++ (src ++ drop (off + length src) mem))

-- `memcmp(a, b, 4) == 0`
unfoldable pub eq4 : Bytes4 → Bytes4 → Bool
eq4 (a0, a1, a2, a3) (b0, b1, b2, b3) = (a0 == b0) && (a1 == b1) && (a2 == b2) && (a3 == b3)

pub eq4→eq : (a b : Bytes4) → eq4 a b ≡ true → a ≡ b
unfolding eq4
eq4→eq (a0, a1, a2, a3) (b0, b1, b2, b3) h = ground arith

pub eq4_refl : (a : Bytes4) → eq4 a a ≡ true
unfolding eq4
eq4_refl (a0, a1, a2, a3) = ground arith

pub type_eq→eq : (a b : Bytes2) → type_eq a b ≡ true → a ≡ b
unfolding type_eq
type_eq→eq (a0, a1) (b0, b1) h = ground arith

pub type_eq_refl : (a : Bytes2) → type_eq a a ≡ true
unfolding type_eq
type_eq_refl (a0, a1) = ground arith

pub eq4_sym : (a b : Bytes4) → eq4 a b ≡ eq4 b a
unfolding eq4
eq4_sym (a0, a1, a2, a3) (b0, b1, b2, b3) = ground arith
