-- ===== src/Common/Bits.antt =====
-- C's `|`, `&` on unsigned operands as arithmetic: disjoint fields add up, and a mask of low bits
-- is a remainder. The native operations are known only by their recursion on binary digits.
use Prim.Native.Nat.{ℕ, zero, suc, ◌+◌, ◌*◌, ◌/◌, ◌%◌, ◌^◌, ◌≤◌, ◌<◌, min, max}
use Prim.Native.Nat.{bit_and, bit_or, digits, bit_and-bitwise, bit_or-bitwise}
use mathlib.Core.Path.{◌≡◌, refl, ap, ap₂, sym, ◌∙◌}
use native.Mathlib.Omega.{arith}
use native.Mathlib.Nat.{pow-suc, div-div-eq-div-mul}

-- Any number of rounds that is not below the first operand gives the same digits.
pub digits-enough :
    (z : ℕ → ℕ) (f : ℕ → ℕ → ℕ) (k l x y : ℕ) → x ≤ k → x ≤ l → digits z f k x y ≡ digits z f l x y
digits-enough z f zero zero x y h g = refl
digits-enough z f zero (suc l) zero y h g = refl
digits-enough z f zero (suc l) (suc x) y h g = elim h [ ]
digits-enough z f (suc k) zero zero y h g = refl
digits-enough z f (suc k) zero (suc x) y h g = elim g [ ]
digits-enough z f (suc k) (suc l) zero y h g = refl
digits-enough z f (suc k) (suc l) (suc x) y h g =
    ap (λ (t : ℕ). t * 2 + f (suc x % 2) (y % 2))
      (digits-enough z f k l (suc x / 2) (y / 2) (omega arith) (omega arith))

pub bit_or-low : (x y : ℕ) → bit_or x y ≡ bit_or (x / 2) (y / 2) * 2 + max (x % 2) (y % 2)
bit_or-low zero y = omega (arith, bit_or-bitwise 0 y, bit_or-bitwise 0 (y / 2))
bit_or-low (suc x) y = omega (
  arith,
  bit_or-bitwise (suc x) y,
  bit_or-bitwise (suc x / 2) (y / 2),
  digits-enough (λ b. b) max x (suc x / 2) (suc x / 2) (y / 2) (omega arith) (omega arith),
)

pub bit_and-low : (x y : ℕ) → bit_and x y ≡ bit_and (x / 2) (y / 2) * 2 + min (x % 2) (y % 2)
bit_and-low zero y = omega (arith, bit_and-bitwise 0 y, bit_and-bitwise 0 (y / 2))
bit_and-low (suc x) y = omega (
  arith,
  bit_and-bitwise (suc x) y,
  bit_and-bitwise (suc x / 2) (y / 2),
  digits-enough (λ b. 0) min x (suc x / 2) (suc x / 2) (y / 2) (omega arith) (omega arith),
)

or_zero_below : (k x : ℕ) → x ≤ k → bit_or x 0 ≡ x
or_zero_below zero zero h = refl
or_zero_below zero (suc x) h = elim h [ ]
or_zero_below (suc k) x h = omega (arith, bit_or-low x 0, or_zero_below k (x / 2) (omega arith))

pub bit_or_zero : (x : ℕ) → bit_or x 0 ≡ x
bit_or_zero x = or_zero_below x x (omega arith)

and_zero_below : (k x : ℕ) → x ≤ k → bit_and x 0 ≡ 0
and_zero_below zero zero h = refl
and_zero_below zero (suc x) h = elim h [ ]
and_zero_below (suc k) x h = omega (arith, bit_and-low x 0, and_zero_below k (x / 2) (omega arith))

pub bit_and_zero : (x : ℕ) → bit_and x 0 ≡ 0
bit_and_zero x = and_zero_below x x (omega arith)

times_power_suc : (q k : ℕ) → q * 2 ^ suc k ≡ 2 * (q * 2 ^ k)
times_power_suc q k = omega (arith, ap (λ (t : ℕ). q * t) (pow-suc 2 k))

-- `(hi << k) | lo` where `lo` has no bit from `k` on.
pub or_of_fields : (k hi lo : ℕ) → lo < 2 ^ k → bit_or (hi * 2 ^ k) lo ≡ hi * 2 ^ k + lo
or_of_fields zero hi lo h = ground (arith, bit_or_zero hi)
or_of_fields (suc k) hi lo h = omega (
  arith,
  times_power_suc hi k,
  pow-suc 2 k,
  ap (λ (t : ℕ). bit_or t lo) (times_power_suc hi k),
  bit_or-low (2 * (hi * 2 ^ k)) lo,
  ap (λ (t : ℕ). bit_or t (lo / 2)) halve,
  or_of_fields k hi (lo / 2) (omega (arith, pow-suc 2 k)),
)
  where
    halve : 2 * (hi * 2 ^ k) / 2 ≡ hi * 2 ^ k
    halve = omega arith

-- A mask whose lowest bit is set keeps the lowest bit.
and_odd_mask : (x m : ℕ) → bit_and x (2 * m + 1) ≡ bit_and (x / 2) m * 2 + x % 2
and_odd_mask x m = omega (arith, bit_and-low x (2 * m + 1), ap (λ (t : ℕ). bit_and (x / 2) t) halve)
  where
    halve : (2 * m + 1) / 2 ≡ m
    halve = omega arith

and_one : (x : ℕ) → bit_and x 1 ≡ x % 2
and_one x = omega (arith, and_odd_mask x 0, bit_and_zero (x / 2))

and_fifteen : (x : ℕ) → bit_and x 15 ≡ x % 16
and_fifteen x = omega (
  arith,
  and_odd_mask x 7,
  and_odd_mask (x / 2) 3,
  and_odd_mask (x / 2 / 2) 1,
  and_one (x / 2 / 2 / 2),
)

-- `x & 0xFF`
pub bit_and_byte : (x : ℕ) → bit_and x 0xff ≡ x % 256
bit_and_byte x = omega (
  arith,
  and_odd_mask x 127,
  and_odd_mask (x / 2) 63,
  and_odd_mask (x / 2 / 2) 31,
  and_odd_mask (x / 2 / 2 / 2) 15,
  and_fifteen (x / 2 / 2 / 2 / 2),
)

-- The bit of weight `2 ^ i`, as 0 or 1.
abbrev pub bit : ℕ → ℕ → ℕ
bit i x = x / 2 ^ i % 2

pub bit-suc : (i x : ℕ) → bit (suc i) x ≡ bit i (x / 2)
bit-suc i x =
    ap (λ (t : ℕ). x / t % 2) (pow-suc 2 i ∙ omega arith)
    ∙ ap (λ (t : ℕ). t % 2) (sym (div-div-eq-div-mul x 2 (2 ^ i)))

bit_zero : (x : ℕ) → bit 0 x ≡ x % 2
bit_zero x = omega arith

-- `|` and `&` work on each bit by itself.
pub bit-bit_or : (i x y : ℕ) → bit i (bit_or x y) ≡ max (bit i x) (bit i y)
bit-bit_or zero x y = omega (arith, bit_or-low x y)
bit-bit_or (suc i) x y =
    bit-suc i (bit_or x y)
    ∙ ap (λ (t : ℕ). bit i t)
        (let e : bit_or x y / 2 ≡ bit_or (x / 2) (y / 2) = omega (arith, bit_or-low x y) in e)
    ∙ bit-bit_or i (x / 2) (y / 2)
    ∙ ap₂ max (sym (bit-suc i x)) (sym (bit-suc i y))

pub bit-bit_and : (i x y : ℕ) → bit i (bit_and x y) ≡ min (bit i x) (bit i y)
bit-bit_and zero x y = omega (arith, bit_and-low x y)
bit-bit_and (suc i) x y =
    bit-suc i (bit_and x y)
    ∙ ap (λ (t : ℕ). bit i t)
        (let e : bit_and x y / 2 ≡ bit_and (x / 2) (y / 2) = omega (arith, bit_and-low x y) in e)
    ∙ bit-bit_and i (x / 2) (y / 2)
    ∙ ap₂ min (sym (bit-suc i x)) (sym (bit-suc i y))

-- A mask of one bit leaves that bit.
pub bit_and_power : (i x : ℕ) → bit_and x (2 ^ i) ≡ bit i x * 2 ^ i
bit_and_power zero x = omega (arith, and_one x)
bit_and_power (suc i) x = omega (
  arith,
  bit_and-low x (2 ^ suc i),
  pow-suc 2 i,
  ap (λ (t : ℕ). bit_and (x / 2) t)
      (let e : 2 ^ suc i / 2 ≡ 2 ^ i = omega (arith, pow-suc 2 i) in e),
  bit_and_power i (x / 2),
  ap (λ (t : ℕ). t * 2 ^ suc i) (bit-suc i x),
  ap (λ (t : ℕ). bit i (x / 2) * t) (pow-suc 2 i),
)
