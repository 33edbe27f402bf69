-- ===== src/Transaction/Overrun.antt =====
-- What becomes of a header whose TotalSize does not cover the parameter count, in the 64-bit build.
use lemoniscate.Common.{
  ℕ, zero, suc, ◌+◌, ◌-◌, ◌%◌, ◌^◌, ◌*◌, ◌≤◌, ◌<◌, ◌≡◌, arith, Bool, true, List, [], ◌∷◌,
}
use lemoniscate.Common.{ok, fault, drop, drop-nil, length}
use lemoniscate.Wire.{Bytes2, Bytes4, read_u16, read_u32, bytes2_at, bytes4_at, first2}
use lemoniscate.Wire.Reads.{bytes2_at_total, bytes4_at_total}
use lemoniscate.Field
use lemoniscate.Transaction.{
  lp64, frame_len, parse_fields, read_fields, deserialize, size_bytes, size_would_overflow,
}

nothing_left : (buf : List ℕ) (n : ℕ) → length buf ≤ n → drop n buf ≡ []
nothing_left [] n h = drop-nil ℕ n
nothing_left (b ∷ bs) zero h = absurd (omega arith)
nothing_left (b ∷ bs) (suc n) h = nothing_left bs n (omega arith)

module _ (malloc : ℕ → Bool) where
  field_past_end : (buf_len : ℕ) → 4 ≤ buf_len → Field.deserialize malloc [] buf_len ≡ fault
  unfolding Field.deserialize bytes2_at first2
  field_past_end buf_len h = ground arith

  fields_past_end :
      (buf : List ℕ) (tran_len n : ℕ)
      → length buf ≡ 22
      → tran_len < 22
      → 0 < n
      → parse_fields lp64 malloc buf tran_len n 22 ≡ fault
  unfolding parse_fields
  fields_past_end buf tran_len zero e h k = absurd (omega arith)
  fields_past_end buf tran_len (suc n) e h k = rw (
    nothing_left buf 22 (omega arith),
    field_past_end _ (let big : 4 ≤ (tran_len + 2 ^ 64 - 22) % 2 ^ 64 = omega arith in big),
  )

  -- A buffer that holds just a header, whose TotalSize is below 2 or wraps to a frame of fewer than
  -- 22 bytes, and which counts 1 to 128 fields: the decoder passes its checks and reads behind the
  -- buffer.
  pub deserialize_overrun :
      (buf : List ℕ) (total : Bytes4) (count : Bytes2)
      → length buf ≡ 22
      → bytes4_at buf 12 ≡ ok total
      → bytes2_at buf 20 ≡ ok count
      → frame_len (read_u32 total) < 22
      → 0 < read_u16 count
      → read_u16 count ≤ 128
      → malloc (read_u16 count * 24) ≡ true
      → deserialize lp64 malloc buf 22 ≡ fault
  unfolding deserialize size_would_overflow size_bytes read_fields
  deserialize_overrun buf total count e et ec h lo hi serves =
      let (b0, e0) = bytes2_at_total buf 0 (omega arith) in
      let (b2, e2) = bytes2_at_total buf 2 (omega arith) in
      let (b4, e4) = bytes4_at_total buf 4 (omega arith) in
      let (b8, e8) = bytes4_at_total buf 8 (omega arith) in
      let (b16, e16) = bytes4_at_total buf 16 (omega arith) in
      ground (
        arith,
        et,
        ec,
        e0,
        e2,
        e4,
        e8,
        e16,
        serves,
        fields_past_end buf (frame_len (read_u32 total)) (read_u16 count) e h lo,
      )
