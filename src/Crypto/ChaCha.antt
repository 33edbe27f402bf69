-- ===== src/Crypto/ChaCha.antt =====
-- src/hotline/chacha20poly1305.c, ChaCha20: 32-bit words, the block function and the stream.
pub mod Stream
mod Tests
use lemoniscate.Common.{
  ℕ, zero, suc, ◌+◌, ◌-◌, ◌*◌, ◌/◌, ◌%◌, ◌^◌, List, [], ◌∷◌, ◌++◌, take, drop, length, get_or,
}
use Prim.Native.Nat.{bit_or, bit_xor}

unfoldable pub rotl32 : ℕ → ℕ → ℕ
rotl32 v n = bit_or (v * 2 ^ n % 2 ^ 32) (v / 2 ^ (32 - n))

abbrev pub Quad : Type 0
Quad = ℕ × ℕ × ℕ × ℕ

-- One line of the source: `*a += *b; *d ^= *a; *d = rotl32(*d, n);` on (a, b, d).
abbrev pub mix : ℕ → ℕ → ℕ → ℕ → ℕ × ℕ
mix a b d n = let a' = (a + b) % 2 ^ 32 in (a', rotl32 (bit_xor d a') n)

unfoldable pub quarter_round : Quad → Quad
quarter_round (a, b, c, d) =
    let (a1, d1) = mix a b d 16 in
    let (c1, b1) = mix c d1 b 12 in
    let (a2, d2) = mix a1 b1 d1 8 in let (c2, b2) = mix c1 d2 b1 7 in (a2, b2, c2, d2)

-- `p[off ..]`, for a caller that passes an array of enough bytes.
unfoldable pub load32_le : List ℕ → ℕ → ℕ
load32_le p off =
    bit_or
      (bit_or (bit_or (get_or p off 0) (get_or p (off + 1) 0 * 2 ^ 8))
        (get_or p (off + 2) 0 * 2 ^ 16))
      (get_or p (off + 3) 0 * 2 ^ 24)

abbrev pub store32_le : ℕ → List ℕ
store32_le v = v % 256 ∷ v / 2 ^ 8 % 256 ∷ v / 2 ^ 16 % 256 ∷ v / 2 ^ 24 % 256 ∷ []

unfoldable pub store64_le : ℕ → List ℕ
store64_le v = store32_le (v % 2 ^ 32) ++ store32_le (v / 2 ^ 32 % 2 ^ 32)

-- The sixteen words, as the four rows of RFC 8439.
pub record Words : Type 0 where
  pub row_a : Quad
  pub row_b : Quad
  pub row_c : Quad
  pub row_d : Quad

-- The quarter rounds on the four columns.
unfoldable pub column_rounds : Words → Words
column_rounds w =
    let q0 = quarter_round (w.row_a.0, w.row_b.0, w.row_c.0, w.row_d.0) in
    let q1 = quarter_round (w.row_a.1, w.row_b.1, w.row_c.1, w.row_d.1) in
    let q2 = quarter_round (w.row_a.2, w.row_b.2, w.row_c.2, w.row_d.2) in
    let q3 = quarter_round (w.row_a.3, w.row_b.3, w.row_c.3, w.row_d.3) in
    record {
      row_a = (q0.0, q1.0, q2.0, q3.0);
      row_b = (q0.1, q1.1, q2.1, q3.1);
      row_c = (q0.2, q1.2, q2.2, q3.2);
      row_d = (q0.3, q1.3, q2.3, q3.3);
    }

-- The quarter rounds on the four diagonals.
unfoldable pub diagonal_rounds : Words → Words
diagonal_rounds w =
    let q0 = quarter_round (w.row_a.0, w.row_b.1, w.row_c.2, w.row_d.3) in
    let q1 = quarter_round (w.row_a.1, w.row_b.2, w.row_c.3, w.row_d.0) in
    let q2 = quarter_round (w.row_a.2, w.row_b.3, w.row_c.0, w.row_d.1) in
    let q3 = quarter_round (w.row_a.3, w.row_b.0, w.row_c.1, w.row_d.2) in
    record {
      row_a = (q0.0, q1.0, q2.0, q3.0);
      row_b = (q3.1, q0.1, q1.1, q2.1);
      row_c = (q2.2, q3.2, q0.2, q1.2);
      row_d = (q1.3, q2.3, q3.3, q0.3);
    }

unfoldable pub double_rounds : ℕ → Words → Words
double_rounds zero w = w
double_rounds (suc n) w = double_rounds n (diagonal_rounds (column_rounds w))

unfoldable pub initial_state : List ℕ → List ℕ → ℕ → Words
initial_state key nonce counter = record {
  row_a = (0x61707865, 0x3320646e, 0x79622d32, 0x6b206574);
  row_b = (load32_le key 0, load32_le key 4, load32_le key 8, load32_le key 12);
  row_c = (load32_le key 16, load32_le key 20, load32_le key 24, load32_le key 28);
  row_d = (counter, load32_le nonce 0, load32_le nonce 4, load32_le nonce 8);
}

-- `store32_le(out + 4 * i, working[i] + state[i])` on a row.
unfoldable pub add_row : Quad → Quad → List ℕ
add_row (a, b, c, d) (e, f, g, h) =
    store32_le ((a + e) % 2 ^ 32)
    ++ (store32_le ((b + f) % 2 ^ 32)
        ++ (store32_le ((c + g) % 2 ^ 32) ++ store32_le ((d + h) % 2 ^ 32)))

unfoldable pub chacha20_block : List ℕ → List ℕ → ℕ → List ℕ
chacha20_block key nonce counter =
    let state = initial_state key nonce counter in
    let working = double_rounds 10 state in
    add_row working.row_a state.row_a
    ++ (add_row working.row_b state.row_b
        ++ (add_row working.row_c state.row_c ++ add_row working.row_d state.row_d))

-- `out[j] = in[j] ^ block[j]`
unfoldable pub xor_bytes : List ℕ → List ℕ → List ℕ
xor_bytes [] block = []
xor_bytes (b ∷ bs) [] = []
xor_bytes (b ∷ bs) (k ∷ ks) = bit_xor b k ∷ xor_bytes bs ks

-- The loop over the chunks of 64 bytes, with fuel for the bytes.
unfoldable pub xor_from : ℕ → List ℕ → List ℕ → ℕ → List ℕ → List ℕ
xor_from zero key nonce counter input = []
xor_from (suc fuel) key nonce counter [] = []
xor_from (suc fuel) key nonce counter (b ∷ bs) =
    xor_bytes (take 64 (b ∷ bs)) (chacha20_block key nonce counter)
    ++ xor_from fuel key nonce ((counter + 1) % 2 ^ 32) (drop 64 (b ∷ bs))

unfoldable pub chacha20_xor : List ℕ → List ℕ → ℕ → List ℕ → List ℕ
chacha20_xor key nonce counter input = xor_from (length input) key nonce counter input
