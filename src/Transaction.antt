-- ===== src/Transaction.antt =====
-- src/hotline/transaction.c: the frames of the protocol. A header of 22 bytes,
--   Flags(1) IsReply(1) Type(2) ID(4) ErrorCode(4) TotalSize(4) DataSize(4) ParamCount(2),
-- is followed by the fields. TotalSize counts from ParamCount on. Additions to a uint32_t wrap at
-- 2 ^ 32, also where the result is then stored in a size_t.
pub mod Payload
pub mod RoundTrip
pub mod Safety
pub mod Overrun
pub mod Scan
pub mod Names
mod Tests
use lemoniscate.Common.{ℕ, zero, suc, ◌+◌, ◌-◌, ◌*◌, ◌%◌, ◌^◌, Bool, true, ◌&&◌, not, ◌≤◌, All}
use lemoniscate.Common.{Option, none, some, List, [], ◌∷◌, ◌++◌, take, drop, length}
use lemoniscate.Common.{Outcome, ok, require, ◌>>=◌, ◌>>◌, ltb, leb, if◌then◌else◌}
use lemoniscate.Common.Int.{ℤ, int_of}
use lemoniscate.Wire.{Bytes2, Bytes4, list2, list4, read_u16, read_u32, write_u16, write_u32}
use lemoniscate.Wire.{type_eq, bytes2_at, bytes4_at, bytes_at, store}
use lemoniscate.Field
use lemoniscate.Field.{Field}

abbrev pub tran_header_len : ℕ
tran_header_len = 22

abbrev pub tran_max_fields : ℕ
tran_max_fields = 128

-- `hl_transaction_t`. `fields` is the array of `field_count` fields.
pub record Transaction : Type 0 where
  pub flags : ℕ
  pub is_reply : ℕ
  pub type : Bytes2
  pub id : Bytes4
  pub error_code : Bytes4
  pub total_size : Bytes4
  pub data_size : Bytes4
  pub param_count : Bytes2
  pub fields : List Field
  pub client_id : Bytes2

-- The two builds: size_t of 32 bits and of 64 bits.
pub data Platform : Type 0 where
  ilp32 lp64 : Platform

unfoldable pub size_bytes : Platform → ℕ
size_bytes ilp32 = 4
size_bytes lp64 = 8

abbrev pub size_mod : Platform → ℕ
size_mod ilp32 = 2 ^ 32
size_mod lp64 = 2 ^ 64

-- `sizeof(hl_field_t)`
abbrev pub field_struct : Platform → ℕ
field_struct ilp32 = 12
field_struct lp64 = 24

unfoldable pub size_would_overflow : Platform → ℕ → ℕ → Bool
size_would_overflow p val addend = leb (size_bytes p) 4 && ltb (size_mod p - 1 - addend) val

-- A difference of two size_t.
abbrev pub sub_size : Platform → ℕ → ℕ → ℕ
sub_size p a b = (a + size_mod p - b) % size_mod p

-- `20 + total_size`, of an int and a uint32_t.
abbrev pub frame_len : ℕ → ℕ
frame_len total_size = (20 + total_size) % 2 ^ 32

module _ (p : Platform) (malloc : ℕ → Bool) where
  -- The loop over `param_count` fields, from `offset` on.
  unfoldable pub parse_fields : List ℕ → ℕ → ℕ → ℕ → Outcome (List Field)
  parse_fields buf tran_len zero offset = ok []
  parse_fields buf tran_len (suc n) offset = do
    (f, consumed) ← Field.deserialize malloc (drop offset buf) (sub_size p tran_len offset)
    rest ← parse_fields buf tran_len n (offset + consumed)
    ok (f ∷ rest)

  -- `if (param_count > 0)`: the array is allocated and filled.
  unfoldable pub read_fields : List ℕ → ℕ → ℕ → Outcome (List Field)
  read_fields buf tran_len param_count =
      if ltb 0 param_count
      then (do
        require (malloc (param_count * field_struct p))
        parse_fields buf tran_len param_count tran_header_len)
      else ok []

  unfoldable pub deserialize : List ℕ → ℕ → Outcome (Transaction × ℤ)
  deserialize buf buf_len = do
    require (leb tran_header_len buf_len)
    total ← bytes4_at buf 12
    let total_size = read_u32 total
    require (not (size_would_overflow p total_size 20))
    let tran_len = frame_len total_size
    require (leb tran_len buf_len)
    count ← bytes2_at buf 20
    let param_count = read_u16 count
    require (leb param_count tran_max_fields)
    (flags, is_reply) ← bytes2_at buf 0
    type ← bytes2_at buf 2
    id ← bytes4_at buf 4
    error_code ← bytes4_at buf 8
    data_size ← bytes4_at buf 16
    fields ← read_fields buf tran_len param_count
    ok (
      record {
        flags = flags;
        is_reply = is_reply;
        type = type;
        id = id;
        error_code = error_code;
        total_size = total;
        data_size = data_size;
        param_count = count;
        fields = fields;
        client_id = (0, 0);
      },
      int_of tran_len,
    )

-- The loop of `hl_transaction_payload_size`, from `size` on.
unfoldable pub payload_from : ℕ → List Field → ℕ
payload_from size [] = size
payload_from size (f ∷ fs) = payload_from ((size + Field.wire_size f % 2 ^ 32) % 2 ^ 32) fs

unfoldable pub payload_size : Transaction → ℕ
payload_size t = payload_from 2 t.fields

unfoldable pub wire_size : Transaction → ℕ
wire_size t = frame_len (payload_size t)

module _ (p : Platform) where
  unfoldable pub write_fields : List Field → List ℕ → ℕ → ℕ → Outcome (List ℕ)
  write_fields [] buf offset buf_len = ok buf
  write_fields (f ∷ fs) buf offset buf_len = do
    (sub, written) ← Field.serialize f (drop offset buf) (sub_size p buf_len offset)
    write_fields fs (take offset buf ++ sub) (offset + written) buf_len

  unfoldable pub serialize : Transaction → List ℕ → ℕ → Outcome (List ℕ × ℤ)
  serialize t buf buf_len = do
    let needed = wire_size t
    require (leb needed buf_len)
    let payload = payload_size t
    buf ← store buf 0 (t.flags ∷ [])
    buf ← store buf 1 (t.is_reply ∷ [])
    buf ← store buf 2 (list2 t.type)
    buf ← store buf 4 (list4 t.id)
    buf ← store buf 8 (list4 t.error_code)
    buf ← store buf 12 (list4 (write_u32 payload))
    buf ← store buf 16 (list4 (write_u32 payload))
    buf ← store buf 20 (list2 (write_u16 (length t.fields)))
    buf ← write_fields t.fields buf tran_header_len buf_len
    ok (buf, int_of needed)

  -- 0 asks for more bytes.
  unfoldable pub scan : List ℕ → ℕ → Outcome ℤ
  scan buf buf_len = if ltb buf_len 16 then ok (int_of 0) else (do
    total ← bytes4_at buf 12
    require (not (size_would_overflow p (read_u32 total) 20))
    let tran_len = frame_len (read_u32 total)
    ok (if ltb buf_len tran_len then int_of 0 else int_of tran_len))

unfoldable pub get_field : List Field → Bytes2 → Option Field
get_field [] type = none
get_field (f ∷ fs) type = if type_eq f.type type then some f else get_field fs type

module _ (malloc : ℕ → Bool) where
  -- `hl_field_new` on each field in turn.
  unfoldable pub copy_fields : List Field → Outcome (List Field)
  copy_fields [] = ok []
  copy_fields (f ∷ fs) = do
    f' ← Field.new malloc f.type f.bytes f.data_len
    rest ← copy_fields fs
    ok (f' ∷ rest)

  -- `random_id` is what `arc4random` returned.
  unfoldable pub new : Platform → ℕ → Bytes2 → Bytes2 → List Field → Outcome Transaction
  new p random_id type client_id fields = do
    require (if ltb 0 (length fields) then malloc (length fields * field_struct p) else true)
    copies ← copy_fields fields
    ok (record {
      flags = 0;
      is_reply = 0;
      type = type;
      id = write_u32 random_id;
      error_code = (0, 0, 0, 0);
      total_size = (0, 0, 0, 0);
      data_size = (0, 0, 0, 0);
      param_count = (0, 0);
      fields = copies;
      client_id = client_id;
    })

-- What the encoder relies on: well-formed fields, at most as many as the decoder accepts.
pub record IsWellFormed (t : Transaction) : Type 0 where
  pub fields_formed : All Field.IsWellFormed t.fields
  pub few : length t.fields ≤ tran_max_fields
