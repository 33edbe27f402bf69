-- ===== src/FlatFile/Name.antt =====
-- Which information forks the parser can read safely: the length of the name decides.
use lemoniscate.Common.{ℕ, ◌+◌, ◌≤◌, ◌≡◌, ◌≢◌, ◌↔◌, refl, arith, ltb, if◌then◌else◌}
use lemoniscate.Common.{List, length, ok, fault, >>=-ne-fault, le→leb, lt→ltb}
use lemoniscate.Wire.{Bytes2, read_u16, bytes2_at}
use lemoniscate.Wire.Reads.{bytes2_at_total, bytes4_at_total, bytes_at_lem}
use lemoniscate.FlatFile.{info_fork_deserialize, read_comment, read_tail}
use native.Mathlib.Decide.{dec_le, ℕ_discrete}

module _ (buf : List ℕ) (buf_len : ℕ) (inside : buf_len ≤ length buf) where
  read_comment-ne-fault :
      (pos comment_len : ℕ) → comment_len ≤ 255 → read_comment buf buf_len pos comment_len ≢ fault
  unfolding read_comment
  read_comment-ne-fault pos n h = ground (arith, bytes_at_lem buf pos n)

  read_tail_overflow : (n : ℕ) → 202 ≤ buf_len → n ≡ 128 → read_tail buf buf_len n ≡ fault
  unfolding read_tail
  read_tail_overflow n room e =
      rw e (rw (le→leb 202 buf_len room, bytes_at_lem buf 72 128 (omega arith)) refl)

  read_tail-ne-fault : (n : ℕ) → n ≢ 128 → read_tail buf buf_len n ≢ fault
  unfolding read_tail
  read_tail-ne-fault n other = elim (dec_le (72 + n + 2) buf_len) [
    | no h ↦ ground arith
    | yes h ↦
        let (c, ec) = bytes2_at_total buf (72 + n) (omega arith) in
        elim (dec_le n 127) [
          | no k ↦ ground arith
          | yes k ↦
              rw
                (
                  le→leb n 128 (omega arith),
                  le→leb (72 + n + 2) buf_len h,
                  bytes_at_lem buf 72 n (omega arith),
                  lt→ltb n 128 (omega arith),
                  ec,
                )
                (>>=-ne-fault
                  (read_comment buf buf_len (72 + n + 2)
                    (if ltb 255 (read_u16 c) then 255 else read_u16 c))
                  _ (read_comment-ne-fault (72 + n + 2) _ (capped (read_u16 c))) (λ r q e. cc))
        ]
  ]
    where
      capped : (m : ℕ) → (if ltb 255 m then 255 else m) ≤ 255
      capped m = ground arith

  -- A buffer that holds the fixed fields and room for a name of 128 characters is parsed without an
  -- access outside the buffer and the record's arrays unless the name's stated length is 128: that
  -- length passes the check, and its NUL is written one byte behind the array.
  pub info_fork_deserialize_fault_iff :
      (size : Bytes2)
      → 202 ≤ buf_len
      → bytes2_at buf 70 ≡ ok size
      → (info_fork_deserialize buf buf_len ≡ fault) ↔ (read_u16 size ≡ 128)
  unfolding info_fork_deserialize
  info_fork_deserialize_fault_iff size room e =
      let (p0, e0) = bytes4_at_total buf 0 (omega arith) in
      let (p4, e4) = bytes4_at_total buf 4 (omega arith) in
      let (p8, e8) = bytes4_at_total buf 8 (omega arith) in
      let (p12, e12) = bytes4_at_total buf 12 (omega arith) in
      let (p16, e16) = bytes4_at_total buf 16 (omega arith) in
      let (p68, e68) = bytes2_at_total buf 68 (omega arith) in
      rw
        (
          le→leb 72 buf_len (omega arith),
          e0,
          e4,
          e8,
          e12,
          e16,
          bytes_at_lem buf 20 32 (omega arith),
          bytes_at_lem buf 52 8 (omega arith),
          bytes_at_lem buf 60 8 (omega arith),
          e68,
          e,
        )
        (
          (λ f. elim (ℕ_discrete (read_u16 size) 128) [
            | yes same ↦ same
            | no other ↦ absurd (
                >>=-ne-fault (read_tail buf buf_len (read_u16 size)) _
                  (read_tail-ne-fault (read_u16 size) other) (λ r q k. cc) f)
          ]),
          λ same. rw (read_tail_overflow (read_u16 size) room same) refl,
        )
