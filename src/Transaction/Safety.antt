-- ===== src/Transaction/Safety.antt =====
-- Decoding a transaction of any content: which headers keep the decoder inside its buffer.
use lemoniscate.Common.{ℕ, zero, suc, ◌+◌, ◌-◌, ◌≤◌, ◌<◌, ◌≡◌, ◌≢◌, arith, Bool}
use lemoniscate.Common.{List, ◌∷◌, ok, fault, ◌>>=◌, >>=-ne-fault, drop, length, length-drop}
use native.Mathlib.Decide.{dec_le}
use lemoniscate.Wire.{Bytes4, read_u16, read_u32, bytes4_at}
use lemoniscate.Wire.Reads.{bytes2_at_total, bytes4_at_total}
use lemoniscate.Field
use lemoniscate.Field.{Field}
use lemoniscate.Field.Parse.{deserialize-ne-fault_field, deserialize_field-IsWellFormed}
use lemoniscate.Transaction.{
  Platform, size_mod, sub_size, frame_len, parse_fields, read_fields, deserialize,
}
use lemoniscate.Common.Int.{ℤ, int_of}
use lemoniscate.Transaction.{Transaction}
use lemoniscate.Transaction.Payload.{sub_size-eq}

module _ (p : Platform) (malloc : ℕ → Bool) (buf : List ℕ) (tran_len : ℕ)
    (inside : tran_len ≤ length buf) (small : tran_len < size_mod p) where
  parse_fields-ne-fault :
      (n off : ℕ) → off ≤ tran_len → parse_fields p malloc buf tran_len n off ≢ fault
  unfolding parse_fields
  parse_fields-ne-fault zero off h = λ e. cc
  parse_fields-ne-fault (suc n) off h =
      >>=-ne-fault (Field.deserialize malloc (drop off buf) (sub_size p tran_len off))
        (λ a. parse_fields p malloc buf tran_len n (off + a.1) >>= λ rest. ok (a.0 ∷ rest)) first
        (next (λ off' k. parse_fields-ne-fault n off' k))
    where
      here : sub_size p tran_len off ≡ tran_len - off
      here = sub_size-eq p tran_len off small h

      room : sub_size p tran_len off ≤ length (drop off buf)
      room = omega (arith, here, length-drop off buf)

      first : Field.deserialize malloc (drop off buf) (sub_size p tran_len off) ≢ fault
      first = deserialize-ne-fault_field malloc (drop off buf) (sub_size p tran_len off) room

      next :
          ((off' : ℕ) → off' ≤ tran_len → parse_fields p malloc buf tran_len n off' ≢ fault)
          → (a : Field × ℕ)
          → Field.deserialize malloc (drop off buf) (sub_size p tran_len off) ≡ ok a
          → (parse_fields p malloc buf tran_len n (off + a.1) >>= λ rest. ok (a.0 ∷ rest)) ≢ fault
      next ih (f, c) e =
          let taken =
            deserialize_field-IsWellFormed malloc (drop off buf) (sub_size p tran_len off) room f c
              e in
          >>=-ne-fault (parse_fields p malloc buf tran_len n (off + c)) _
            (ih (off + c) (omega (arith, taken, here))) (λ rest k e'. cc)

  read_fields-ne-fault : (n : ℕ) → 22 ≤ tran_len → read_fields p malloc buf tran_len n ≢ fault
  unfolding read_fields
  read_fields-ne-fault n h = ground (arith, parse_fields-ne-fault n 22)

module _ (p : Platform) (malloc : ℕ → Bool) (buf : List ℕ) (buf_len : ℕ)
    (inside : buf_len ≤ length buf) (small : buf_len < size_mod p) where
  -- The decoder stays inside its buffer if the header's TotalSize covers the parameter count and
  -- does not wrap when the 20 bytes in front of it are added.
  pub deserialize-ne-fault_transaction :
      (total : Bytes4)
      → bytes4_at buf 12 ≡ ok total
      → 22 ≤ frame_len (read_u32 total)
      → deserialize p malloc buf buf_len ≢ fault
  unfolding deserialize
  deserialize-ne-fault_transaction total et h = elim (dec_le (frame_len (read_u32 total)) buf_len) [
    | yes k ↦
        let (count, ec) = bytes2_at_total buf 20 (omega arith) in
        let (b0, e0) = bytes2_at_total buf 0 (omega arith) in
        let (b2, e2) = bytes2_at_total buf 2 (omega arith) in
        let (b4, e4) = bytes4_at_total buf 4 (omega arith) in
        let (b8, e8) = bytes4_at_total buf 8 (omega arith) in
        let (b16, e16) = bytes4_at_total buf 16 (omega arith) in
        ground (
          arith,
          et,
          ec,
          e0,
          e2,
          e4,
          e8,
          e16,
          read_fields-ne-fault p malloc buf (frame_len (read_u32 total)) (omega arith) (omega arith)
              (read_u16 count) h,
        )
    | no k ↦ ground (arith, et)
  ]

  -- A decoded transaction took as many bytes as its header says, which are at most those stated.
  pub deserialize-ok :
      (total : Bytes4) (t : Transaction) (r : ℤ)
      → bytes4_at buf 12 ≡ ok total
      → deserialize p malloc buf buf_len ≡ ok (t, r)
      → (22 ≤ buf_len)
        × (frame_len (read_u32 total) ≤ buf_len)
        × (r ≡ int_of (frame_len (read_u32 total)))
  unfolding deserialize
  deserialize-ok total t r et e = elim (dec_le 22 buf_len) [
    | yes k ↦
        let (count, ec) = bytes2_at_total buf 20 (omega arith) in
        let (b0, e0) = bytes2_at_total buf 0 (omega arith) in
        let (b2, e2) = bytes2_at_total buf 2 (omega arith) in
        let (b4, e4) = bytes4_at_total buf 4 (omega arith) in
        let (b8, e8) = bytes4_at_total buf 8 (omega arith) in
        let (b16, e16) = bytes4_at_total buf 16 (omega arith) in
        ground (arith, et, ec, e0, e2, e4, e8, e16)
    | no k ↦ ground arith
  ]
