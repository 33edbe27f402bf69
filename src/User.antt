-- ===== src/User.antt =====
-- src/hotline/user.c and include/hotline/user.h: an entry of the user list,
-- ID(2) + Icon(2) + Flags(2) + NameLen(2) + Name. The name is its bytes, which `name_len` of the
-- source counts.
pub mod Codec
mod Tests
use lemoniscate.Common.{
  ℕ, ◌+◌, ◌-◌, ◌^◌, ◌/◌, ◌%◌, Bool, ◌==◌, if◌then◌else◌, leb, List, [], ◌∷◌, map, length,
}
use lemoniscate.Common.{Outcome, ok, require, ◌>>=◌, ◌>>◌}
use lemoniscate.Wire.{Bytes2, list2, read_u16, write_u16, bytes2_at, bytes_at, store}
use Prim.Native.Nat.{bit_and, bit_or}

abbrev pub user_name_max : ℕ
user_name_max = 128

-- `hl_user_t`
pub record User : Type 0 where
  pub id : Bytes2
  pub icon : Bytes2
  pub flags : Bytes2
  pub name : List ℕ

-- The memory at `buf` afterwards, and the number of bytes that the user takes.
unfoldable pub serialize : User → List ℕ → ℕ → Outcome (List ℕ × ℕ)
serialize u buf buf_len = do
  let needed = 8 + length u.name
  require (leb needed buf_len)
  buf ← store buf 0 (list2 u.id)
  buf ← store buf 2 (list2 u.icon)
  buf ← store buf 4 (list2 u.flags)
  buf ← store buf 6 (list2 (write_u16 (length u.name)))
  buf ← store buf 8 u.name
  ok (buf, needed)

unfoldable pub deserialize : List ℕ → ℕ → Outcome (User × ℕ)
deserialize buf buf_len = do
  require (leb 8 buf_len)
  size ← bytes2_at buf 6
  let name_len = read_u16 size
  require (leb (8 + name_len) buf_len)
  require (leb name_len user_name_max)
  id ← bytes2_at buf 0
  icon ← bytes2_at buf 2
  flags ← bytes2_at buf 4
  name ← bytes_at buf 8 name_len
  ok (record { id = id; icon = icon; flags = flags; name = name }, 8 + name_len)

-- `out` for the `len` bytes `in`.
unfoldable pub encode_string : List ℕ → List ℕ
encode_string [] = []
encode_string (b ∷ bs) = (255 - b) ∷ encode_string bs

-- `(val >> bit) & 1`
unfoldable pub user_flags_is_set : Bytes2 → ℕ → ℕ
user_flags_is_set flags bit = bit_and (read_u16 flags / 2 ^ bit) 1

-- The complement of a mask below 2 ^ 16, as a uint16_t, is 65535 - mask.
unfoldable pub user_flags_set : Bytes2 → ℕ → Bool → Bytes2
user_flags_set flags bit val =
    let v = read_u16 flags in
    let one = 2 ^ bit % 2 ^ 16 in
    write_u16 (if val then bit_or v one % 2 ^ 16 else bit_and v (65535 - one) % 2 ^ 16)
