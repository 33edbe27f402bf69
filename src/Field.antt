-- ===== src/Field.antt =====
-- src/hotline/field.c and include/hotline/field.h: a typed value inside a transaction,
-- Type(2) + FieldSize(2) + Data. A function that returns -1 is `fail`; one that would read or
-- write outside its buffer is `fault`. What an `int` result counts here is below 65540, so it is a
-- number. `malloc n` says whether the allocator serves a request for `n` bytes.
pub mod Parse
pub mod RoundTrip
pub mod Decode
mod Tests
use lemoniscate.Common.{ℕ, ◌+◌, ◌-◌, ◌%◌, ◌^◌, ◌≡◌, ◌<◌, Bool, true, false, ◌&&◌, not}
use lemoniscate.Common.{List, [], ◌∷◌, ◌++◌, map, take, length, ltb, leb, ◌==◌, if◌then◌else◌}
use lemoniscate.Common.{Outcome, ok, fail, fault, require, within, ◌>>=◌, ◌>>◌}
use lemoniscate.Common.Int.{ℤ, pos, negsuc, int_of}
use lemoniscate.Wire.{Bytes2, list2, read_u16, read_u32, write_u16}
use lemoniscate.Wire.{bytes2_at, bytes4_at, bytes_at, store}

abbrev pub min_field_len : ℕ
min_field_len = 4

-- `hl_field_t`. `bytes` is the memory behind the pointer `data`, and `[]` is NULL: the code never
-- keeps an allocation of no bytes.
pub record Field : Type 0 where
  pub type : Bytes2
  pub field_size : Bytes2
  pub bytes : List ℕ
  pub data_len : ℕ

-- `malloc` followed by `memcpy` of `n` bytes from `mem + off`, and NULL for no bytes.
unfoldable pub copy_of : (ℕ → Bool) → List ℕ → ℕ → ℕ → Outcome (List ℕ)
copy_of malloc mem off n = if ltb 0 n then (do require (malloc n); bytes_at mem off n) else ok []

unfoldable pub new : (ℕ → Bool) → Bytes2 → List ℕ → ℕ → Outcome Field
new malloc type src data_len = do
  bytes ← copy_of malloc src 0 data_len
  ok (record { type = type; field_size = write_u16 data_len; bytes = bytes; data_len = data_len })

-- `buf` is the memory from the pointer on, `buf_len` the length that the caller states.
unfoldable pub deserialize : (ℕ → Bool) → List ℕ → ℕ → Outcome (Field × ℕ)
deserialize malloc buf buf_len = do
  require (leb min_field_len buf_len)
  type ← bytes2_at buf 0
  field_size ← bytes2_at buf 2
  let data_size = read_u16 field_size
  require (leb (min_field_len + data_size) buf_len)
  bytes ← copy_of malloc buf 4 data_size
  ok (
    record { type = type; field_size = field_size; bytes = bytes; data_len = data_size },
    min_field_len + data_size,
  )

unfoldable pub wire_size : Field → ℕ
wire_size f = min_field_len + f.data_len

unfoldable pub not_null : List ℕ → Bool
not_null [] = false
not_null (b ∷ bs) = true

-- The memory at `buf` afterwards, and the number of bytes that the field takes.
unfoldable pub serialize : Field → List ℕ → ℕ → Outcome (List ℕ × ℕ)
serialize f buf buf_len = do
  let needed = wire_size f
  require (leb needed buf_len)
  buf ← store buf 0 (list2 f.type)
  buf ← store buf 2 (list2 f.field_size)
  buf ←
      (if ltb 0 f.data_len && not_null f.bytes
        then (bytes_at f.bytes 0 f.data_len >>= store buf 4)
        else ok buf)
  ok (buf, needed)

-- 0 asks for more bytes.
unfoldable pub scan : List ℕ → ℕ → Outcome ℕ
scan buf buf_len = if ltb buf_len min_field_len then ok 0 else (do
  field_size ← bytes2_at buf 2
  let needed = min_field_len + read_u16 field_size
  ok (if ltb buf_len needed then 0 else needed))

unfoldable pub decode_int : Field → Outcome ℤ
decode_int f =
    if f.data_len == 2
    then (bytes2_at f.bytes 0 >>= λ b. ok (int_of (read_u16 b)))
    else (if f.data_len == 4
        then (bytes4_at f.bytes 0 >>= λ b. ok (int_of (read_u32 b)))
        else ok (negsuc 0))

-- The character 255 - b, as a byte.
abbrev pub rotate : ℕ → ℕ
rotate b = (255 + 256 - b) % 256

-- What is written to `out`: at most `out_max` bytes, and nothing if `out_max` is 0.
unfoldable pub decode_obfuscated_string : Field → ℕ → Outcome (List ℕ)
decode_obfuscated_string f out_max = if out_max == 0 then ok [] else (do
  let room = (out_max - 1) % 2 ^ 16
  let len = if ltb f.data_len room then f.data_len else room
  src ← bytes_at f.bytes 0 len
  ok (map rotate src ++ (0 ∷ [])))

-- The cached length, the size bytes and the allocation agree.
pub record IsWellFormed (f : Field) : Type 0 where
  pub sized : read_u16 f.field_size ≡ f.data_len
  pub allocated : length f.bytes ≡ f.data_len
