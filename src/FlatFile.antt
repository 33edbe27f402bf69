-- ===== src/FlatFile.antt =====
-- src/hotline/flattened_file_object.c: the FILP envelope of a file in transfer, a header of 24 bytes,
-- the information fork behind a fork header of 16, and the data fork's header.
pub mod Name
mod Tests
use lemoniscate.Common.{
  ℕ, ◌+◌, ◌-◌, ◌%◌, ◌^◌, Bool, leb, ltb, if◌then◌else◌, List, [], ◌∷◌, ◌++◌, length, take, drop,
  replicate,
}
use lemoniscate.Common.{Outcome, ok, require, within, ◌>>=◌, ◌>>◌}
use lemoniscate.Wire.{
  Bytes2, Bytes4, list2, list4, read_u16, read_u32, write_u16, bytes2_at, bytes4_at, bytes_at,
  store,
}

abbrev pub name_array : ℕ
name_array = 128

abbrev pub comment_array : ℕ
comment_array = 256

-- `hl_info_fork_t`. `name` is the bytes that `name_len` counts; `comment` is the whole array, since
-- `comment_len` can exceed what was copied into it.
pub record InfoFork : Type 0 where
  pub platform : Bytes4
  pub type_signature : Bytes4
  pub creator_signature : Bytes4
  pub flags : Bytes4
  pub platform_flags : Bytes4
  pub rsvd : List ℕ
  pub create_date : List ℕ
  pub modify_date : List ℕ
  pub name_script : Bytes2
  pub name : List ℕ
  pub comment : List ℕ
  pub comment_len : ℕ

-- `hl_flat_fork_header_t`
pub record ForkHeader : Type 0 where
  pub fork_type : Bytes4
  pub compression_type : Bytes4
  pub rsvd : Bytes4
  pub data_size : Bytes4

abbrev pub fork_header_bytes : ForkHeader → List ℕ
fork_header_bytes h =
    list4 h.fork_type ++ (list4 h.compression_type ++ (list4 h.rsvd ++ list4 h.data_size))

-- `hl_flattened_file_object_t`, without the resource fork's header, which no function here touches;
-- `header` is the 24 bytes of `hl_flat_file_header_t`.
pub record FlattenedFile : Type 0 where
  pub header : List ℕ
  pub info_fork_header : ForkHeader
  pub info_fork : InfoFork
  pub data_fork_header : ForkHeader

unfoldable pub info_fork_data_size : InfoFork → ℕ
info_fork_data_size info = 72 + length info.name + 2 + info.comment_len

-- The memory at `buf` afterwards, and the number of bytes written.
unfoldable pub info_fork_serialize : InfoFork → List ℕ → ℕ → Outcome (List ℕ × ℕ)
info_fork_serialize info buf buf_len = do
  let data_size = info_fork_data_size info
  require (leb data_size buf_len)
  buf ← store buf 0 (list4 info.platform)
  buf ← store buf 4 (list4 info.type_signature)
  buf ← store buf 8 (list4 info.creator_signature)
  buf ← store buf 12 (list4 info.flags)
  buf ← store buf 16 (list4 info.platform_flags)
  buf ← store buf 20 info.rsvd
  buf ← store buf 52 info.create_date
  buf ← store buf 60 info.modify_date
  buf ← store buf 68 (list2 info.name_script)
  buf ← store buf 70 (list2 (write_u16 (length info.name)))
  buf ← store buf 72 info.name
  buf ← store buf (72 + length info.name) (list2 (write_u16 info.comment_len))
  buf ←
      (if ltb 0 info.comment_len
        then (bytes_at info.comment 0 info.comment_len >>= store buf (72 + length info.name + 2))
        else ok buf)
  ok (buf, data_size)

-- The comment array and the position behind the comment: copied if all of it is there.
unfoldable pub read_comment : List ℕ → ℕ → ℕ → ℕ → Outcome (List ℕ × ℕ)
read_comment buf buf_len pos comment_len =
    if leb (pos + comment_len) buf_len
    then (do
      bytes ← bytes_at buf pos comment_len
      within (ltb comment_len comment_array)
      ok (bytes ++ replicate (comment_array - comment_len) 0, pos + comment_len))
    else ok (replicate comment_array 0, pos)

-- What stands behind the fixed fields: the name, the comment array, the comment's length, and the
-- position behind them.
pub record Tail : Type 0 where
  pub name : List ℕ
  pub comment : List ℕ
  pub comment_len : ℕ
  pub pos : ℕ

-- The NUL behind the name is written into the array of 128 characters.
unfoldable pub read_tail : List ℕ → ℕ → ℕ → Outcome Tail
read_tail buf buf_len name_len = do
  require (leb name_len 128)
  require (leb (72 + name_len + 2) buf_len)
  name ← bytes_at buf 72 name_len
  within (ltb name_len name_array)
  comment_size ← bytes2_at buf (72 + name_len)
  let stated = read_u16 comment_size
  let comment_len = if ltb 255 stated then 255 else stated
  (comment, pos) ← read_comment buf buf_len (72 + name_len + 2) comment_len
  ok (record { name = name; comment = comment; comment_len = comment_len; pos = pos })

unfoldable pub info_fork_deserialize : List ℕ → ℕ → Outcome (InfoFork × ℕ)
info_fork_deserialize buf buf_len = do
  require (leb 72 buf_len)
  platform ← bytes4_at buf 0
  type_signature ← bytes4_at buf 4
  creator_signature ← bytes4_at buf 8
  flags ← bytes4_at buf 12
  platform_flags ← bytes4_at buf 16
  rsvd ← bytes_at buf 20 32
  create_date ← bytes_at buf 52 8
  modify_date ← bytes_at buf 60 8
  name_script ← bytes2_at buf 68
  name_size ← bytes2_at buf 70
  tail ← read_tail buf buf_len (read_u16 name_size)
  ok (
    record {
      platform = platform;
      type_signature = type_signature;
      creator_signature = creator_signature;
      flags = flags;
      platform_flags = platform_flags;
      rsvd = rsvd;
      create_date = create_date;
      modify_date = modify_date;
      name_script = name_script;
      name = tail.name;
      comment = tail.comment;
      comment_len = tail.comment_len;
    },
    tail.pos,
  )

unfoldable pub ffo_serialize_header : FlattenedFile → List ℕ → ℕ → Outcome (List ℕ × ℕ)
ffo_serialize_header ffo buf buf_len = do
  let needed = 24 + 16 + info_fork_data_size ffo.info_fork + 16
  require (leb needed buf_len)
  buf ← store buf 0 ffo.header
  buf ← store buf 24 (fork_header_bytes ffo.info_fork_header)
  (sub, written) ← info_fork_serialize ffo.info_fork (drop 40 buf) (buf_len - 40)
  let pos = 40 + written
  buf ← store (take 40 buf ++ sub) pos (fork_header_bytes ffo.data_fork_header)
  ok (buf, pos + 16)

unfoldable pub read_fork_header : List ℕ → ℕ → Outcome ForkHeader
read_fork_header buf pos = do
  fork_type ← bytes4_at buf pos
  compression_type ← bytes4_at buf (pos + 4)
  rsvd ← bytes4_at buf (pos + 8)
  data_size ← bytes4_at buf (pos + 12)
  ok (record {
    fork_type = fork_type;
    compression_type = compression_type;
    rsvd = rsvd;
    data_size = data_size;
  })

unfoldable pub ffo_deserialize : List ℕ → ℕ → Outcome (FlattenedFile × ℕ)
ffo_deserialize buf buf_len = do
  require (leb 24 buf_len)
  header ← bytes_at buf 0 24
  require (leb 16 (buf_len - 24))
  info_fork_header ← read_fork_header buf 24
  let info_size = read_u32 info_fork_header.data_size
  require (leb info_size (buf_len - 40))
  (info_fork, consumed) ← info_fork_deserialize (drop 40 buf) info_size
  let pos = 40 + info_size
  require (leb 16 (buf_len - pos))
  data_fork_header ← read_fork_header buf pos
  ok (
    record {
      header = header;
      info_fork_header = info_fork_header;
      info_fork = info_fork;
      data_fork_header = data_fork_header;
    },
    pos + 16,
  )
