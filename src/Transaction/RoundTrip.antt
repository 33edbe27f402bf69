-- ===== src/Transaction/RoundTrip.antt =====
-- A transaction that is encoded and decoded again.
use lemoniscate.Common.{
  All, zero-ltb-suc, ℕ, ◌+◌, ◌*◌, ◌^◌, ◌≤◌, ◌<◌, ◌≡◌, refl, arith, Bool, true, false,
}
use lemoniscate.Common.{
  List, [], ◌∷◌, ◌++◌, append_assoc, Outcome, ok, fail, ◌>>=◌, take, drop, length, le→leb,
}
use lemoniscate.Common.Int.{ℤ, pos, int_of, int_of-small}
use lemoniscate.Wire.{
  Bytes4, list2, list4, write_u16, write_u32, bytes2_at, bytes4_at, first2, first4,
}
use lemoniscate.Wire.Integers.{read_u16-write_u16, read_u32-write_u32}
use lemoniscate.Wire.Stores.{store_lem, store_next}
use lemoniscate.Field
use lemoniscate.Field.{Field}
use lemoniscate.Transaction.{
  Transaction, IsWellFormed, Platform, ilp32, lp64, size_mod, field_struct,
}
use lemoniscate.Transaction.{
  size_bytes, size_would_overflow, deserialize, read_fields, serialize, payload_size, wire_size,
}
use lemoniscate.Transaction.Payload.{images, sizes, length-images, sizes-le, payload_from-sizes}
use lemoniscate.Transaction.Payload.{write_fields_lem, parse_fields-images}

-- The 22 bytes in front of the fields.
abbrev pub header : Transaction → List ℕ
header t =
    t.flags
    ∷ t.is_reply
    ∷ (list2 t.type
        ++ (list4 t.id
            ++ (list4 t.error_code
                ++ (list4 (write_u32 (payload_size t))
                    ++ (list4 (write_u32 (payload_size t))
                        ++ list2 (write_u16 (length t.fields)))))))

abbrev pub image : Transaction → List ℕ
image t = header t ++ images t.fields

-- The transaction as the peer sees it: the sizes and the count are those of the header that was
-- sent, and the internal client id is gone.
abbrev pub received : Transaction → Transaction
received t = record t {
  total_size = write_u32 (payload_size t);
  data_size = write_u32 (payload_size t);
  param_count = write_u16 (length t.fields);
  client_id = (0, 0);
}

read_fields-images :
    (p : Platform) (malloc : ℕ → Bool) (fs : List Field) (buf pre rest : List ℕ) (tran_len : ℕ)
    → ((n : ℕ) → malloc n ≡ true)
    → All Field.IsWellFormed fs
    → buf ≡ pre ++ (images fs ++ rest)
    → 22 ≡ length pre
    → 22 + sizes fs ≤ tran_len
    → tran_len < size_mod p
    → read_fields p malloc buf tran_len (length fs) ≡ ok fs
unfolding read_fields
read_fields-images p malloc [] buf pre rest tran_len serves w b e h small = refl
read_fields-images p malloc (f ∷ fs) buf pre rest tran_len serves w b e h small =
    rw (zero-ltb-suc (length fs), serves (length (f ∷ fs) * field_struct p))
      (parse_fields-images p malloc (f ∷ fs) buf pre rest 22 tran_len serves w b e h small)

module _ {t : Transaction} (w : IsWellFormed t) where
  sizes_bound : sizes t.fields ≤ 8388992
  sizes_bound = omega (arith, sizes-le t.fields w.fields_formed)

  pub payload_size_lem : payload_size t ≡ 2 + sizes t.fields
  unfolding payload_size
  payload_size_lem = payload_from-sizes 2 t.fields (omega (arith, sizes_bound))

  pub wire_size_lem : wire_size t ≡ 22 + sizes t.fields
  unfolding wire_size
  wire_size_lem = omega (arith, payload_size_lem, sizes_bound)

  pub length-image : length (image t) ≡ wire_size t
  length-image = omega (arith, wire_size_lem, length-images t.fields w.fields_formed)

  pub wire_size_bounds : (22 ≤ wire_size t) × (wire_size t ≤ 8389014)
  wire_size_bounds = omega (arith, wire_size_lem, sizes_bound)

  int_of-wire_size : int_of (wire_size t) ≡ pos (wire_size t)
  int_of-wire_size = int_of-small (wire_size t) (omega (arith, wire_size_bounds))

  -- A well-formed transaction is written whole into any buffer that is long enough, and nothing
  -- behind it is touched.
  pub serialize_lem :
      (p : Platform) (buf : List ℕ) (buf_len : ℕ)
      → wire_size t ≤ buf_len
      → buf_len ≤ length buf
      → buf_len < size_mod p
      → serialize p t buf buf_len ≡ ok (image t ++ drop (wire_size t) buf, pos (wire_size t))
  unfolding serialize
  serialize_lem p buf buf_len h inside small = rw (
    le→leb (wire_size t) buf_len h,
    store_lem buf (t.flags ∷ []) 0 (room 1 (omega arith)),
    store_next buf (take 1 (header t)) (t.is_reply ∷ []) 1 2 refl refl (room 2 (omega arith)),
    store_next buf (take 2 (header t)) (list2 t.type) 2 4 refl refl (room 4 (omega arith)),
    store_next buf (take 4 (header t)) (list4 t.id) 4 8 refl refl (room 8 (omega arith)),
    store_next buf (take 8 (header t)) (list4 t.error_code) 8 12 refl refl (room 12 (omega arith)),
    store_next buf (take 12 (header t)) (list4 size) 12 16 refl refl (room 16 (omega arith)),
    store_next buf (take 16 (header t)) (list4 size) 16 20 refl refl (room 20 (omega arith)),
    store_next buf (take 20 (header t)) (list2 (write_u16 (length t.fields))) 20 22 refl refl
        (room 22 (omega arith)),
    write_fields_lem p t.fields buf (header t) 22 buf_len w.fields_formed refl
        (omega (arith, wire_size_lem)) inside small,
    int_of-wire_size,
    ← wire_size_lem,
  )
    where
      room : (k : ℕ) → k ≤ 22 → k ≤ length buf
      room k e = omega (arith, wire_size_bounds)

      size : Bytes4
      size = write_u32 (payload_size t)

  -- A buffer that is too short is refused before anything is written.
  pub serialize_short :
      (p : Platform) (buf : List ℕ) (buf_len : ℕ)
      → buf_len < wire_size t
      → serialize p t buf buf_len ≡ fail
  unfolding serialize
  serialize_short p buf buf_len h = ground arith

  pub payload_bound : payload_size t < 2 ^ 32
  payload_bound = omega (arith, payload_size_lem, sizes_bound)

  pub not_too_large : (p : Platform) → size_would_overflow p (payload_size t) 20 ≡ false
  unfolding size_would_overflow size_bytes
  not_too_large ilp32 = ground (arith, payload_size_lem, sizes_bound)
  not_too_large lp64 = refl

  -- The bytes of a transaction, with anything behind them, are decoded to the transaction as its
  -- peer sees it.
  pub deserialize-image :
      (p : Platform) (malloc : ℕ → Bool) (rest : List ℕ) (buf_len : ℕ)
      → ((n : ℕ) → malloc n ≡ true)
      → wire_size t ≤ buf_len
      → deserialize p malloc (image t ++ rest) buf_len ≡ ok (received t, pos (wire_size t))
  unfolding deserialize bytes2_at bytes4_at first2 first4 wire_size
  deserialize-image p malloc rest buf_len serves h = rw (
    le→leb 22 buf_len (omega (arith, wire_size_bounds)),
    read_u32-write_u32 (payload_size t) (omega (arith, payload_size_lem, sizes_bound)),
    not_too_large p,
    le→leb (wire_size t) buf_len h,
    read_u16-write_u16 (length t.fields) (omega (arith, w.few)),
    le→leb (length t.fields) 128 w.few,
    read_fields-images p malloc t.fields (image t ++ rest) (header t) rest (wire_size t) serves
        w.fields_formed (append_assoc (header t) (images t.fields) rest) refl
        (omega (arith, wire_size_lem)) (platform_bound p),
    int_of-wire_size,
  )
    where
      platform_bound : (q : Platform) → wire_size t < size_mod q
      platform_bound ilp32 = omega (arith, wire_size_bounds)
      platform_bound lp64 = omega (arith, wire_size_bounds)

  -- The transaction encoded into a buffer and decoded from it, with what both return.
  abbrev pub sent_and_read : Platform → (ℕ → Bool) → List ℕ → ℕ → Outcome (ℤ × (Transaction × ℤ))
  sent_and_read p malloc buf buf_len = do
    (buf', written) ← serialize p t buf buf_len
    read ← deserialize p malloc buf' buf_len
    ok (written, read)

  -- What `serialize` left in a large enough buffer of a well-formed transaction is decoded to that
  -- transaction as its peer sees it, where the allocator serves every request; the encoder and the
  -- decoder both return the number of its bytes on the wire.
  pub deserialize-serialize_transaction :
      (p : Platform) (malloc : ℕ → Bool) (buf : List ℕ) (buf_len : ℕ)
      → ((n : ℕ) → malloc n ≡ true)
      → wire_size t ≤ buf_len
      → buf_len ≤ length buf
      → buf_len < size_mod p
      → sent_and_read p malloc buf buf_len ≡ ok (pos (wire_size t), (received t, pos (wire_size t)))
  deserialize-serialize_transaction p malloc buf buf_len serves h inside small = rw (
    serialize_lem p buf buf_len h inside small,
    deserialize-image p malloc (drop (wire_size t) buf) buf_len serves h,
  )
