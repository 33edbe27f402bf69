-- ===== src/Hope/Rc4.antt =====
-- src/hotline/hope.c, the RC4 stream cipher.
pub mod Stream
pub mod Shuffle
mod Tests
use lemoniscate.Common.{ℕ, zero, suc, ◌+◌, ◌%◌, List, [], ◌∷◌, length, get_or, set}
use Prim.Native.Nat.{bit_xor}

pub record Rc4 : Type 0 where
  pub s : List ℕ
  pub i : ℕ
  pub j : ℕ

-- `tmp = s[i]; s[i] = s[j]; s[j] = tmp;`
unfoldable pub swap : List ℕ → ℕ → ℕ → List ℕ
swap s i j = set (set s i (get_or s j 0)) j (get_or s i 0)

-- `n` bytes from `i` on.
unfoldable pub count_up : ℕ → ℕ → List ℕ
count_up zero i = []
count_up (suc n) i = i ∷ count_up n (i + 1)

-- The second loop of hl_rc4_init, with `n` rounds left. The key has a byte at least.
unfoldable pub schedule : ℕ → ℕ → ℕ → List ℕ → List ℕ → List ℕ
schedule zero i j key s = s
schedule (suc n) i j key s =
    let j' = (j + get_or s i 0 + get_or key (i % length key) 0) % 256 in
    schedule n (i + 1) j' key (swap s i j')

unfoldable pub rc4_init : List ℕ → Rc4
rc4_init key = record { s = schedule 256 0 0 key (count_up 256 0); i = 0; j = 0 }

-- What one round of hl_rc4_process does to the state.
unfoldable pub next : Rc4 → Rc4
next rc4 =
    let i = (rc4.i + 1) % 256 in
    let j = (rc4.j + get_or rc4.s i 0) % 256 in record { s = swap rc4.s i j; i = i; j = j }

-- The byte of the key stream that it then takes.
unfoldable pub key_byte : Rc4 → ℕ
key_byte rc4 = get_or rc4.s ((get_or rc4.s rc4.i 0 + get_or rc4.s rc4.j 0) % 256) 0

-- The state after the bytes, and the bytes.
unfoldable pub rc4_process : Rc4 → List ℕ → Rc4 × List ℕ
rc4_process rc4 [] = (rc4, [])
rc4_process rc4 (b ∷ bs) =
    let (final, out) = rc4_process (next rc4) bs in (final, bit_xor b (key_byte (next rc4)) ∷ out)
