-- ===== src/Crypto/Aead/Blocks.antt =====
-- Blocks of 16 bytes cut out of a message, and filled with zeros.
use lemoniscate.Common.{ℕ, zero, suc, ◌+◌, ◌≤◌, ◌<◌, ◌≡◌, refl, arith, All}
use lemoniscate.Common.{List, [], ◌∷◌, ◌++◌, take, drop, replicate, get_or}
use lemoniscate.Wire.{IsByte}
use lemoniscate.Crypto.Poly.Limbs.{le_value}

pub get_or-take : (k i : ℕ) (p : List ℕ) → i < k → get_or (take k p) i 0 ≡ get_or p i 0
get_or-take zero i p h = absurd (omega arith)
get_or-take (suc k) i [] h = refl
get_or-take (suc k) zero (x ∷ p) h = refl
get_or-take (suc k) (suc i) (x ∷ p) h = get_or-take k i p (omega arith)

pub le_value-take :
    (n k off : ℕ) (p : List ℕ) → off + n ≤ k → le_value n (take k p) off ≡ le_value n p off
le_value-take zero k off p h = refl
le_value-take (suc n) k off p h =
    omega (arith, get_or-take k off p (omega arith), le_value-take n k (off + 1) p (omega arith))

pub get_or-zeros : (m i : ℕ) → get_or {A = ℕ} (replicate m 0) i 0 ≡ 0
get_or-zeros zero i = refl
get_or-zeros (suc m) zero = refl
get_or-zeros (suc m) (suc i) = get_or-zeros m i

pub get_or-pad : (m i : ℕ) (p : List ℕ) → get_or (p ++ replicate m 0) i 0 ≡ get_or p i 0
get_or-pad m i [] = get_or-zeros m i
get_or-pad m zero (x ∷ p) = refl
get_or-pad m (suc i) (x ∷ p) = get_or-pad m i p

pub le_value-pad :
    (n m off : ℕ) (p : List ℕ) → le_value n (p ++ replicate m 0) off ≡ le_value n p off
le_value-pad zero m off p = refl
le_value-pad (suc n) m off p = omega (arith, get_or-pad m off p, le_value-pad n m (off + 1) p)

pub take-IsByte : (n : ℕ) (p : List ℕ) → All IsByte p → All IsByte (take n p)
take-IsByte zero p h = tt
take-IsByte (suc n) [] h = tt
take-IsByte (suc n) (x ∷ p) h = (h.0, take-IsByte n p h.1)

pub drop-IsByte : (n : ℕ) (p : List ℕ) → All IsByte p → All IsByte (drop n p)
drop-IsByte zero p h = h
drop-IsByte (suc n) [] h = tt
drop-IsByte (suc n) (x ∷ p) h = drop-IsByte n p h.1

pub zeros-IsByte : (n : ℕ) → All IsByte (replicate n 0)
zeros-IsByte zero = tt
zeros-IsByte (suc n) = (omega arith, zeros-IsByte n)
