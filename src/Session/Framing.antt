-- ===== src/Session/Framing.antt =====
-- The framing loop on a buffer of whole transactions with the front of a further one behind them.
use lemoniscate.Common.{ℕ, zero, suc, ◌<◌, ◌≡◌, refl, ap, sym, ◌∙◌, arith, Bool, true}
use lemoniscate.Common.{
  List, [], ◌∷◌, ◌++◌, append_assoc, ◌⊎◌, inl, inr, map, All, length, length-append,
  drop-append_len, ok,
}
use lemoniscate.Common.Int.{pos}
use lemoniscate.Wire.{write_u32, bytes4_at, first4}
use lemoniscate.Wire.Reads.{bytes4_at-append}
use lemoniscate.Wire.Integers.{read_u32-write_u32}
use lemoniscate.Transaction
use lemoniscate.Transaction.{
  Transaction, IsWellFormed, Platform, frame_len, wire_size, payload_size,
}
use lemoniscate.Transaction.RoundTrip.{
  image, received, length-image, wire_size_bounds, payload_bound, not_too_large, deserialize-image,
}
use lemoniscate.Transaction.Scan.{scan-image}
use lemoniscate.Common.{le→leb}
use native.Mathlib.Decide.{dec_lt}
use lemoniscate.Session.{stop, frame, parsed, scanned, round, pump}

-- The bytes of transactions sent one after the other.
abbrev pub frames : List Transaction → List ℕ
frames [] = []
frames (t ∷ ts) = image t ++ frames ts

module _ (p : Platform) (malloc : ℕ → Bool) (serves : (n : ℕ) → malloc n ≡ true) where
  scanned-pos :
      (buf : List ℕ) (n : ℕ)
      → 0 < n
      → scanned p malloc buf (ok (pos n)) ≡ parsed p malloc (Transaction.deserialize p malloc buf n)
  unfolding scanned
  scanned-pos buf zero h = absurd (omega arith)
  scanned-pos buf (suc n) h = refl

  round-image :
      {t : Transaction} (w : IsWellFormed t) (rest : List ℕ)
      → round p malloc (image t ++ rest) ≡ ok (frame (received t) (wire_size t))
  unfolding round parsed
  round-image {t} w rest = rw (
    scan-image w p rest (length (image t ++ rest)),
    le→leb (wire_size t) (length (image t ++ rest))
        (omega (arith, length-append (image t) rest, length-image w)),
    scanned-pos (image t ++ rest) (wire_size t) (omega (arith, wire_size_bounds w)),
    deserialize-image w p malloc rest (wire_size t) serves (omega arith),
  )

  -- A transaction that is not yet there as a whole is left in the buffer.
  pub round_front :
      {t : Transaction} (w : IsWellFormed t) (front back : List ℕ)
      → image t ≡ front ++ back
      → 0 < length back
      → round p malloc front ≡ ok (stop front)
  unfolding round scanned Transaction.scan
  round_front {t} w front back e h = elim (dec_lt (length front) 16) [
    | yes short ↦ ground arith
    | no long ↦
        let total : bytes4_at front 12 ≡ ok (write_u32 (payload_size t)) =
          sym (bytes4_at-append front back 12 (omega arith))
          ∙ ap (λ l. bytes4_at l 12) (sym e)
          ∙ unfold bytes4_at first4 in refl in
        let cut : length front < wire_size t =
          omega (arith, length-image w, ap length e, length-append front back) in
        ground (
          arith,
          total,
          read_u32-write_u32 (payload_size t) (payload_bound w),
          not_too_large w p,
          same_size t,
        )
  ]
    where
      same_size : (u : Transaction) → wire_size u ≡ frame_len (payload_size u)
      same_size u = unfold wire_size in refl

  -- Transactions that are buffered whole, with the front of a further one behind them, are
  -- dispatched in the order sent, and the front stays in the buffer.
  pub pump-frames :
      (ts : List Transaction) (front : List ℕ) (fuel : ℕ)
      → All IsWellFormed ts
      → round p malloc front ≡ ok (stop front) ⊎ (front ≡ [])
      → length ts < fuel
      → pump p malloc fuel (frames ts ++ front) ≡ ok (map received ts, front)
  unfolding pump
  pump-frames ts front zero w q h = elim h [ ]
  pump-frames [] [] (suc fuel) w q h = refl
  pump-frames [] (b ∷ bs) (suc fuel) w (inl q) h = rw q
  pump-frames [] (b ∷ bs) (suc fuel) w (inr q) h = cc
  pump-frames (t ∷ ts) front (suc fuel) w q h = rw (
    append_assoc (image t) (frames ts) front,
    round-image w.0 (frames ts ++ front),
    drop-append_len (wire_size t) (image t) (frames ts ++ front) (length-image w.0),
    pump-frames ts front fuel w.1 q (omega arith),
  )
