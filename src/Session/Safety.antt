-- ===== src/Session/Safety.antt =====
-- The framing loop on arbitrary bytes.
use lemoniscate.Common.{
  ◌⊎◌, ℕ, zero, suc, ◌+◌, ◌^◌, ◌≤◌, ◌<◌, ◌≡◌, ◌≢◌, refl, arith, Bool, Bool-cases, inl, inr,
}
use lemoniscate.Common.{
  List, [], ◌∷◌, length, drop, length-drop, Outcome, ok, fail, fault, ◌>>=◌, >>=-ne-fault,
}
use lemoniscate.Common.Int.{ℤ, pos, negsuc, int_of-small}
use lemoniscate.Wire.{Bytes4, read_u32, bytes4_at}
use lemoniscate.Wire.Reads.{bytes4_at_total}
use lemoniscate.Transaction
use lemoniscate.Transaction.{Transaction, Platform, ilp32, lp64, size_mod, frame_len}
use lemoniscate.Transaction.Safety.{deserialize-ne-fault_transaction, deserialize-ok}
use lemoniscate.Session.{Round, stop, frame, parsed, scanned, round, resume, pump}
use native.Mathlib.Decide.{dec_le, dec_lt}

pub fits_size : (q : Platform) (n : ℕ) → n < 2 ^ 31 → n < size_mod q
fits_size ilp32 n h = omega arith
fits_size lp64 n h = omega arith

module _ (p : Platform) (malloc : ℕ → Bool) where
  -- A transaction cut to the length that the scan found is decoded without a fault: where that
  -- length does not cover the header, the decoder refuses it.
  deserialize_scanned :
      (buf : List ℕ) (total : Bytes4)
      → bytes4_at buf 12 ≡ ok total
      → frame_len (read_u32 total) ≤ length buf
      → length buf < 2 ^ 31
      → Transaction.deserialize p malloc buf (frame_len (read_u32 total)) ≢ fault
  deserialize_scanned buf total e h small = elim (dec_le 22 (frame_len (read_u32 total))) [
    | yes k ↦
        deserialize-ne-fault_transaction p malloc buf (frame_len (read_u32 total)) h
          (fits_size p _ (omega arith)) total e k
    | no k ↦ unfold Transaction.deserialize in ground arith
  ]

  parsed-ne-fault : (o : Outcome (Transaction × ℤ)) → o ≢ fault → parsed p malloc o ≢ fault
  unfolding parsed
  parsed-ne-fault (ok (t, pos n)) h = λ e. cc
  parsed-ne-fault (ok (t, negsuc n)) h = λ e. cc
  parsed-ne-fault fail h = λ e. cc
  parsed-ne-fault fault h = absurd (h refl)

  -- What the scan can answer.
  scan_cases :
      (buf : List ℕ)
      → length buf < 2 ^ 31
      → (Transaction.scan p buf (length buf) ≡ fail)
        ⊎ (Transaction.scan p buf (length buf) ≡ ok (pos 0))
        ⊎ ((total : Bytes4) × (bytes4_at buf 12 ≡ ok total)
            × (frame_len (read_u32 total) ≤ length buf)
            × (Transaction.scan p buf (length buf) ≡ ok (pos (frame_len (read_u32 total)))))
  unfolding Transaction.scan
  scan_cases buf small = elim (dec_lt (length buf) 16) [
    | yes h ↦ inr (inl (ground arith))
    | no h ↦
        let (total, et) = bytes4_at_total buf 12 (omega arith) in
        elim (Bool-cases (Transaction.size_would_overflow p (read_u32 total) 20)) [
          | inl big ↦ inl (ground (arith, et, big))
          | inr fine ↦ elim (dec_lt (length buf) (frame_len (read_u32 total))) [
            | yes short ↦ inr (inl (ground (arith, et, fine)))
            | no enough ↦ inr (
                inr (
                  total,
                  et,
                  omega arith,
                  ground (arith, et, fine, int_of-small (frame_len (read_u32 total))),
                ))
          ]
        ]
  ]

  -- A round that dispatches consumes at least a header, and no more than is buffered; and no round
  -- reads outside the buffer.
  taken :
      (buf : List ℕ) (total : Bytes4) (n : ℕ)
      → bytes4_at buf 12 ≡ ok total
      → n ≡ frame_len (read_u32 total)
      → n ≤ length buf
      → length buf < 2 ^ 31
      → (t : Transaction) (k : ℕ) → scanned p malloc buf (ok (pos n)) ≡ ok (frame t k)
      → (22 ≤ k) × (k ≤ length buf)
  unfolding scanned parsed
  taken buf total zero et en h small t k e = cc
  taken buf total (suc n) et en h small t k e =
      go (Transaction.deserialize p malloc buf (suc n)) refl e
    where
      go :
          (o : Outcome (Transaction × ℤ))
          → Transaction.deserialize p malloc buf (suc n) ≡ o
          → parsed p malloc o ≡ ok (frame t k)
          → (22 ≤ k) × (k ≤ length buf)
      go (ok (t', pos c)) eo e' =
          let (a, b, r) =
            deserialize-ok p malloc buf (suc n) h (fits_size p (suc n) (omega arith)) total t'
              (pos c) et eo in
          ground (arith, int_of-small (suc n), en, r, e')
      go (ok (t', negsuc c)) eo e' = cc
      go fail eo e' = cc
      go fault eo e' = cc

  not_taken :
      (buf : List ℕ) (total : Bytes4) (n : ℕ)
      → bytes4_at buf 12 ≡ ok total
      → n ≡ frame_len (read_u32 total)
      → n ≤ length buf
      → length buf < 2 ^ 31
      → scanned p malloc buf (ok (pos n)) ≢ fault
  unfolding scanned
  not_taken buf total zero et en h small = λ e. cc
  not_taken buf total (suc n) et en h small =
      parsed-ne-fault _ (rw en (deserialize_scanned buf total et (rw (← en) h) small))

  pub round_lem :
      (buf : List ℕ)
      → length buf < 2 ^ 31
      → (round p malloc buf ≢ fault)
        × ((t : Transaction) (k : ℕ)
            → round p malloc buf ≡ ok (frame t k)
            → (22 ≤ k) × (k ≤ length buf))
  unfolding round
  round_lem buf small = elim (scan_cases buf small) [
    | inl e ↦ unfold scanned in rw e ((λ q. cc), λ t k q. cc)
    | inr (inl e) ↦ unfold scanned in rw e ((λ q. cc), λ t k q. cc)
    | inr (inr (total, et, h, e)) ↦
        rw e (not_taken buf total _ et refl h small, taken buf total _ et refl h small)
  ]

  -- On a read buffer of any content below 2 ^ 31 bytes, and for any fuel, the loop never reads outside
  -- the buffer.
  pub pump-ne-fault :
      (fuel : ℕ) (buf : List ℕ) → length buf < 2 ^ 31 → pump p malloc fuel buf ≢ fault
  unfolding pump
  pump-ne-fault zero buf small = λ e. cc
  pump-ne-fault (suc fuel) [] small = λ e. cc
  pump-ne-fault (suc fuel) (b ∷ bs) small =
      >>=-ne-fault (round p malloc (b ∷ bs)) (resume (pump p malloc fuel) (b ∷ bs))
        (round_lem (b ∷ bs) small).0 (after (λ buf. pump-ne-fault fuel buf))
    where
      after :
          ((buf : List ℕ) → length buf < 2 ^ 31 → pump p malloc fuel buf ≢ fault)
          → (r : Round) → round p malloc (b ∷ bs) ≡ ok r
          → resume (pump p malloc fuel) (b ∷ bs) r ≢ fault
      after ih (stop rest) e = λ q. cc
      after ih (frame t n) e =
          >>=-ne-fault (pump p malloc fuel (drop n (b ∷ bs))) _
            (ih (drop n (b ∷ bs)) (omega (arith, length-drop n (b ∷ bs)))) (λ a q q'. cc)

  -- Two amounts of fuel that are at least the number of bytes give the same.
  pub pump_settled :
      (fuel more : ℕ) (buf : List ℕ)
      → length buf < 2 ^ 31
      → length buf ≤ fuel
      → length buf ≤ more
      → pump p malloc fuel buf ≡ pump p malloc more buf
  unfolding pump
  pump_settled zero zero buf small h k = refl
  pump_settled zero (suc more) [] small h k = refl
  pump_settled zero (suc more) (b ∷ bs) small h k = absurd (omega arith)
  pump_settled (suc fuel) zero [] small h k = refl
  pump_settled (suc fuel) zero (b ∷ bs) small h k = absurd (omega arith)
  pump_settled (suc fuel) (suc more) [] small h k = refl
  pump_settled (suc fuel) (suc more) (b ∷ bs) small h k =
      after (λ buf. pump_settled fuel more buf) (round p malloc (b ∷ bs)) refl
    where
      after :
          ((buf : List ℕ)
            → length buf < 2 ^ 31
            → length buf ≤ fuel
            → length buf ≤ more
            → pump p malloc fuel buf ≡ pump p malloc more buf)
          → (o : Outcome Round) → round p malloc (b ∷ bs) ≡ o
          → (o >>= resume (pump p malloc fuel) (b ∷ bs))
            ≡ (o >>= resume (pump p malloc more) (b ∷ bs))
      after ih fail e = refl
      after ih fault e = refl
      after ih (ok (stop rest)) e = refl
      after ih (ok (frame t n)) e =
          let (lo, hi) = (round_lem (b ∷ bs) small).1 t n e in
          let left : length (drop n (b ∷ bs)) + 22 ≤ length (b ∷ bs) =
            omega (arith, length-drop n (b ∷ bs), lo, hi) in
          rw
            (ih (drop n (b ∷ bs)) (omega (arith, left)) (omega (arith, left)) (omega (arith, left)))
