-- ===== src/Wire/Reads.antt =====
-- Reads inside the memory of a buffer: when they succeed, and what they return.
use lemoniscate.Common.{◌++◌, drop-append_le, ℕ, ◌+◌, ◌≤◌, ◌≡◌, refl, arith, List, [], ◌∷◌}
use lemoniscate.Common.{ok, take, drop, length, length-drop, le→leb}
use lemoniscate.Wire.{Bytes2, Bytes4, bytes2_at, bytes4_at, bytes_at, first2, first4}

first2_total : (l : List ℕ) → 2 ≤ length l → (b : Bytes2) × (first2 l ≡ ok b)
unfolding first2
first2_total [] h = absurd (omega arith)
first2_total (a ∷ []) h = absurd (omega arith)
first2_total (a ∷ b ∷ l) h = ((a, b), refl)

first4_total : (l : List ℕ) → 4 ≤ length l → (b : Bytes4) × (first4 l ≡ ok b)
unfolding first4
first4_total [] h = absurd (omega arith)
first4_total (a ∷ []) h = absurd (omega arith)
first4_total (a ∷ b ∷ []) h = absurd (omega arith)
first4_total (a ∷ b ∷ c ∷ []) h = absurd (omega arith)
first4_total (a ∷ b ∷ c ∷ d ∷ l) h = ((a, b, c, d), refl)

pub bytes2_at_total :
    (mem : List ℕ) (off : ℕ) → off + 2 ≤ length mem → (b : Bytes2) × (bytes2_at mem off ≡ ok b)
unfolding bytes2_at
bytes2_at_total mem off h = first2_total (drop off mem) (omega (arith, length-drop off mem))

pub bytes4_at_total :
    (mem : List ℕ) (off : ℕ) → off + 4 ≤ length mem → (b : Bytes4) × (bytes4_at mem off ≡ ok b)
unfolding bytes4_at
bytes4_at_total mem off h = first4_total (drop off mem) (omega (arith, length-drop off mem))

pub bytes_at_lem :
    (mem : List ℕ) (off n : ℕ)
    → off + n ≤ length mem
    → bytes_at mem off n ≡ ok (take n (drop off mem))
unfolding bytes_at
bytes_at_lem mem off n h = rw (le→leb (off + n) (length mem) h)

-- Bytes behind those that are read make no difference.
first4-append : (l more : List ℕ) → 4 ≤ length l → first4 (l ++ more) ≡ first4 l
unfolding first4
first4-append [] more h = absurd (omega arith)
first4-append (a ∷ []) more h = absurd (omega arith)
first4-append (a ∷ b ∷ []) more h = absurd (omega arith)
first4-append (a ∷ b ∷ c ∷ []) more h = absurd (omega arith)
first4-append (a ∷ b ∷ c ∷ d ∷ l) more h = refl

pub bytes4_at-append :
    (mem more : List ℕ) (off : ℕ)
    → off + 4 ≤ length mem
    → bytes4_at (mem ++ more) off ≡ bytes4_at mem off
unfolding bytes4_at
bytes4_at-append mem more off h =
    rw (drop-append_le off mem more (omega arith))
      (first4-append (drop off mem) more (omega (arith, length-drop off mem)))
