-- ===== src/Hope/Rc4/Stream.antt =====
-- RC4 as a stream that is cut or processed twice.
use lemoniscate.Common.{ℕ, suc, ◌≡◌, refl, ap, ap₂, List, [], ◌∷◌, ◌++◌, length}
use lemoniscate.Common.Xor.{xor_cancel}
use lemoniscate.Hope.Rc4.{Rc4, rc4_process, next, key_byte}
use Prim.Native.Nat.{bit_xor}

-- Bytes processed in two pieces come out as in one, and leave the same state: where the network
-- cuts the stream makes no difference.
pub rc4_process-append :
    (rc4 : Rc4) (a b : List ℕ)
    → rc4_process rc4 (a ++ b) ≡ (
      (rc4_process (rc4_process rc4 a).0 b).0,
      (rc4_process rc4 a).1 ++ (rc4_process (rc4_process rc4 a).0 b).1,
    )
unfolding rc4_process
rc4_process-append rc4 [] b = refl
rc4_process-append rc4 (x ∷ a) b =
    ap (λ p. (p.0, bit_xor x (key_byte (next rc4)) ∷ p.1)) (rc4_process-append (next rc4) a b)

-- Two ends with the same state: what one encrypts the other decrypts, and they stay in step.
pub rc4_process-rc4_process :
    (rc4 : Rc4) (bytes : List ℕ)
    → rc4_process rc4 (rc4_process rc4 bytes).1 ≡ ((rc4_process rc4 bytes).0, bytes)
unfolding rc4_process
rc4_process-rc4_process rc4 [] = refl
rc4_process-rc4_process rc4 (x ∷ bytes) =
    ap₂ (λ p y. (p.0, y ∷ p.1)) (rc4_process-rc4_process (next rc4) bytes)
      (xor_cancel x (key_byte (next rc4)))

pub length-rc4_process :
    (rc4 : Rc4) (bytes : List ℕ) → length (rc4_process rc4 bytes).1 ≡ length bytes
unfolding rc4_process
length-rc4_process rc4 [] = refl
length-rc4_process rc4 (x ∷ bytes) = ap suc (length-rc4_process (next rc4) bytes)
