-- ===== src/Field/Parse.antt =====
-- Parsing a field of any content: memory safety, what a success means, and agreement with the scan.
use lemoniscate.Common.{
  ◌⊎◌, inl, inr, ℕ, zero, suc, ◌+◌, ◌≤◌, ◌≡◌, ◌≢◌, arith, Bool, true, List, length, take, drop,
}
use lemoniscate.Common.{ok, fail, fault, length-take, length-drop, refl}
use lemoniscate.Wire.{read_u16}
use lemoniscate.Wire.Reads.{bytes2_at_total, bytes_at_lem}
use native.Mathlib.Decide.{dec_le}
use lemoniscate.Field.{Field, IsWellFormed, copy_of, deserialize, scan, wire_size}

copy_of-ne-fault :
    (malloc : ℕ → Bool) (mem : List ℕ) (off n : ℕ)
    → off + n ≤ length mem
    → copy_of malloc mem off n ≢ fault
unfolding copy_of
copy_of-ne-fault malloc mem off n h = ground (arith, bytes_at_lem mem off n h)

-- A copy that succeeds holds the `n` bytes from `off` on.
pub copy_of-ok :
    (malloc : ℕ → Bool) (mem : List ℕ) (off n : ℕ) (bytes : List ℕ)
    → off + n ≤ length mem
    → copy_of malloc mem off n ≡ ok bytes
    → bytes ≡ take n (drop off mem)
unfolding copy_of
copy_of-ok malloc mem off zero bytes h e = ground (arith)
copy_of-ok malloc mem off (suc n) bytes h e = ground (arith, bytes_at_lem mem off (suc n) h)

length-copy_of :
    (malloc : ℕ → Bool) (mem : List ℕ) (off n : ℕ) (bytes : List ℕ)
    → off + n ≤ length mem
    → copy_of malloc mem off n ≡ ok bytes
    → length bytes ≡ n
length-copy_of malloc mem off n bytes h e =
    rw (copy_of-ok malloc mem off n bytes h e)
      (omega (arith, length-take n (drop off mem), length-drop off mem))

pub copy_of_lem :
    (malloc : ℕ → Bool) (mem : List ℕ) (off n : ℕ)
    → ((k : ℕ) → malloc k ≡ true)
    → off + n ≤ length mem
    → copy_of malloc mem off n ≡ ok (take n (drop off mem))
unfolding copy_of
copy_of_lem malloc mem off zero serves h = refl
copy_of_lem malloc mem off (suc n) serves h =
    ground (arith, serves (suc n), bytes_at_lem mem off (suc n) h)

module _ (malloc : ℕ → Bool) (buf : List ℕ) (buf_len : ℕ) (inside : buf_len ≤ length buf) where
  -- A parse that is told no more bytes than the buffer holds never reads outside it, whatever the
  -- bytes say.
  pub deserialize-ne-fault_field : deserialize malloc buf buf_len ≢ fault
  unfolding deserialize
  deserialize-ne-fault_field = elim (dec_le 4 buf_len) [
    | yes h ↦
        let (t, et) = bytes2_at_total buf 0 (omega arith) in
        let (s, es) = bytes2_at_total buf 2 (omega arith) in
        ground (arith, et, es, copy_of-ne-fault malloc buf 4 (read_u16 s))
    | no h ↦ ground arith
  ]

  -- A field that was parsed is well formed, and took between 4 and `buf_len` bytes.
  pub deserialize_field-IsWellFormed :
      (f : Field) (n : ℕ)
      → deserialize malloc buf buf_len ≡ ok (f, n)
      → IsWellFormed f × (n ≡ wire_size f) × (4 ≤ n) × (n ≤ buf_len)
  unfolding deserialize wire_size
  deserialize_field-IsWellFormed f n e = elim (dec_le 4 buf_len) [
    | yes h ↦
        let (t, et) = bytes2_at_total buf 0 (omega arith) in
        let (s, es) = bytes2_at_total buf 2 (omega arith) in
        ground (arith, et, es, length-copy_of malloc buf 4 (read_u16 s) f.bytes)
    | no h ↦ ground arith
  ]

  -- With an allocator that serves the request, the scan of the same bytes is the parse's count: it
  -- asks for more bytes exactly where the parse fails.
  pub scan-deserialize :
      ((n : ℕ) → malloc n ≡ true)
      → ((f : Field) × (n : ℕ) × (deserialize malloc buf buf_len ≡ ok (f, n))
          × (scan buf buf_len ≡ ok n))
        ⊎ ((deserialize malloc buf buf_len ≡ fail) × (scan buf buf_len ≡ ok 0))
  unfolding deserialize scan
  scan-deserialize serves = elim (dec_le 4 buf_len) [
    | yes h ↦
        let (t, et) = bytes2_at_total buf 0 (omega arith) in
        let (s, es) = bytes2_at_total buf 2 (omega arith) in
        elim (dec_le (4 + read_u16 s) buf_len) [
          | yes k ↦ inl (
            record {
              type = t;
              field_size = s;
              bytes = take (read_u16 s) (drop 4 buf);
              data_len = read_u16 s;
            },
            4 + read_u16 s,
            ground (arith, et, es, copy_of_lem malloc buf 4 (read_u16 s) serves),
            ground (arith, et, es),
          )
          | no k ↦ inr (ground (arith, et, es), ground (arith, et, es))
        ]
    | no h ↦ inr (ground arith, ground arith)
  ]
