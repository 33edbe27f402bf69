-- ===== src/Access/Bitmap.antt =====
-- Setting, clearing and testing permissions, and the classes of accounts.
use lemoniscate.Common.{ℕ, zero, suc, ◌-◌, ◌*◌, ◌/◌, ◌%◌, ◌^◌, ◌<◌, ◌≡◌, refl, ap, arith}
use lemoniscate.Common.{
  true, false, not, ◌==◌, if◌then◌else◌, bytes_eq→eq, all_below, all_below-at, ==→eq,
}
use lemoniscate.Common.{
  ◌↔◌, List, length, get_elem?, get_elem?-set_self, get_elem?-set_ne, get_elem?-total,
}
use lemoniscate.Common.{ok, ◌>>=◌, some, set as set_elem}
use lemoniscate.Common.Bits.{bit, bit-bit_or, bit-bit_and, bit_and_power}
use lemoniscate.Access.{mask, byte_at, set, is_set, clear, classify, guest, admin}
use lemoniscate.Access.{admin_access_template, guest_access_template}
use Prim.Native.Nat.{bit_and, bit_or}
use native.Mathlib.Nat.{one-le-pow}
use native.Mathlib.Decide.{dec_lt, ℕ_discrete}

-- The bit of a byte that a permission stands for.
abbrev place : ℕ → ℕ
place i = 7 - i % 8

power_bit_table :
    all_below 8 (λ j. all_below 8 (λ k. bit j (2 ^ k % 256) == (if j == k then 1 else 0))) ≡ true
unfolding all_below
power_bit_table = refl

rest_bit_table :
    all_below 8 (λ j. all_below 8 (λ k. bit j (255 - 2 ^ k) == (if j == k then 0 else 1))) ≡ true
unfolding all_below
rest_bit_table = refl

power_bit : (j k : ℕ) → j < 8 → k < 8 → bit j (2 ^ k % 256) ≡ (if j == k then 1 else 0)
power_bit j k hj hk = ==→eq _ _ (all_below-at 8 _ k (all_below-at 8 _ j power_bit_table hj) hk)

rest_bit : (j k : ℕ) → j < 8 → k < 8 → bit j (255 - 2 ^ k) ≡ (if j == k then 0 else 1)
rest_bit j k hj hk = ==→eq _ _ (all_below-at 8 _ k (all_below-at 8 _ j rest_bit_table hj) hk)

-- A byte's own bits survive the conversion to uint8_t.
module _ (P : ℕ → Type 0) where
  below_eight : P 0 → P 1 → P 2 → P 3 → P 4 → P 5 → P 6 → P 7 → (j : ℕ) → j < 8 → P j
  below_eight p0 p1 p2 p3 p4 p5 p6 p7 zero h = p0
  below_eight p0 p1 p2 p3 p4 p5 p6 p7 (suc zero) h = p1
  below_eight p0 p1 p2 p3 p4 p5 p6 p7 (suc (suc zero)) h = p2
  below_eight p0 p1 p2 p3 p4 p5 p6 p7 (suc (suc (suc zero))) h = p3
  below_eight p0 p1 p2 p3 p4 p5 p6 p7 (suc (suc (suc (suc zero)))) h = p4
  below_eight p0 p1 p2 p3 p4 p5 p6 p7 (suc (suc (suc (suc (suc zero))))) h = p5
  below_eight p0 p1 p2 p3 p4 p5 p6 p7 (suc (suc (suc (suc (suc (suc zero)))))) h = p6
  below_eight p0 p1 p2 p3 p4 p5 p6 p7 (suc (suc (suc (suc (suc (suc (suc zero))))))) h = p7
  below_eight p0 p1 p2 p3 p4 p5 p6 p7 (suc (suc (suc (suc (suc (suc (suc (suc j)))))))) h =
      absurd (omega arith)

bit_of_byte : (x j : ℕ) → j < 8 → bit j (x % 256) ≡ bit j x
bit_of_byte x =
    below_eight (λ j. bit j (x % 256) ≡ bit j x) (omega arith) (omega arith) (omega arith)
      (omega arith) (omega arith) (omega arith) (omega arith) (omega arith)

power_pos : (k : ℕ) → 0 < 2 ^ k
power_pos k = one-le-pow k 2 (omega arith)

tested : (x k : ℕ) → not (bit_and x (2 ^ k) == 0) ≡ (bit k x == 1)
tested x k = elim (dec_lt 0 (bit k x)) [
  | yes h ↦ ground (
    arith,
    bit_and_power k x,
    power_pos k,
    ap (λ (t : ℕ). t * 2 ^ k) (let e : bit k x ≡ 1 = omega arith in e),
  )
  | no h ↦
      ground (
        arith,
        bit_and_power k x,
        ap (λ (t : ℕ). t * 2 ^ k) (let e : bit k x ≡ 0 = omega arith in e),
      )
]

byte_set :
    (b i j : ℕ)
    → not (bit_and (bit_or b (mask i % 256) % 256) (mask j) == 0)
      ≡ (if place j == place i then true else not (bit_and b (mask j) == 0))
byte_set b i j =
    rw (tested _ (place j), tested b (place j))
      (ground (
        arith,
        bit_of_byte (bit_or b (mask i % 256)) (place j),
        bit-bit_or (place j) b (mask i % 256),
        power_bit (place j) (place i),
      ))

byte_clear :
    (b i j : ℕ)
    → not (bit_and (bit_and b (255 - mask i) % 256) (mask j) == 0)
      ≡ (if place j == place i then false else not (bit_and b (mask j) == 0))
byte_clear b i j =
    rw (tested _ (place j), tested b (place j))
      (ground (
        arith,
        bit_of_byte (bit_and b (255 - mask i)) (place j),
        bit-bit_and (place j) b (255 - mask i),
        rest_bit (place j) (place i),
      ))

byte_at-total : (bits : List ℕ) (k : ℕ) → k < length bits → (b : ℕ) × (get_elem? bits k ≡ some b)
byte_at-total bits k h = get_elem?-total bits k h

-- One update of the bitmap read at another position: the byte written, or the old one.
read_back :
    (bits : List ℕ) (i j v : ℕ)
    → i < length bits
    → byte_at (set_elem bits i v) j ≡ (if j == i then ok v else byte_at bits j)
read_back bits i j v h = elim (ℕ_discrete i j) [
  | yes e ↦ ground (arith, get_elem?-set_self bits i v h)
  | no ne ↦ ground (arith, get_elem?-set_ne bits i j v ne)
]

module _ (bits : List ℕ) (size : length bits ≡ 8) (i j : ℕ) (hi : i < 64) (hj : j < 64) where
  -- After a permission was set it is set, and every other one is as before.
  pub is_set-set : (set bits i >>= λ b. is_set b j) ≡ (if j == i then ok true else is_set bits j)
  unfolding set is_set
  is_set-set =
      let (b, e) = get_elem?-total bits (i / 8) (omega arith) in
      let (c, f) = get_elem?-total bits (j / 8) (omega arith) in
      ground (
        arith,
        e,
        f,
        read_back bits (i / 8) (j / 8) (bit_or b (mask i % 256) % 256),
        byte_set b i j,
      )

  -- After a permission was cleared it is clear, and every other one is as before.
  pub is_set-clear :
      (clear bits i >>= λ b. is_set b j) ≡ (if j == i then ok false else is_set bits j)
  unfolding clear is_set
  is_set-clear =
      let (b, e) = get_elem?-total bits (i / 8) (omega arith) in
      let (c, f) = get_elem?-total bits (j / 8) (omega arith) in
      ground (
        arith,
        e,
        f,
        read_back bits (i / 8) (j / 8) (bit_and b (255 - mask i) % 256),
        byte_clear b i j,
      )

-- An account has a class exactly if its bitmap is that class's template, byte for byte.
pub classify_iff :
    (access : List ℕ)
    → ((classify access ≡ admin) ↔ (access ≡ admin_access_template))
      × ((classify access ≡ guest) ↔ (access ≡ guest_access_template))
unfolding classify
classify_iff access = (
  (λ e. ground (arith, bytes_eq→eq access admin_access_template), λ e. rw e),
  (λ e. ground (arith, bytes_eq→eq access guest_access_template), λ e. rw e),
)
