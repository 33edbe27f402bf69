-- ===== src/FileResume.antt =====
-- src/hotline/file_resume_data.c: the RFLT record of an interrupted transfer, a header of 42 bytes,
-- Format(4) Version(2) Reserved(34) ForkCount(2), and 16 bytes for each of at most three forks.
pub mod Codec
mod Tests
use lemoniscate.Common.{ℕ, zero, suc, ◌+◌, ◌*◌, ◌%◌, Bool, leb, ltb, if◌then◌else◌}
use lemoniscate.Common.{
  List, [], ◌∷◌, ◌++◌, take, length, replicate, Outcome, ok, require, within, ◌>>=◌, ◌>>◌,
}
use lemoniscate.Wire.{Bytes2, Bytes4, list2, list4, bytes2_at, bytes4_at, store}

abbrev pub file_resume_header_size : ℕ
file_resume_header_size = 42

abbrev pub max_fork_count : ℕ
max_fork_count = 3

-- "RFLT"
abbrev pub format_rflt : Bytes4
format_rflt = (0x52, 0x46, 0x4c, 0x54)

-- `hl_fork_info_t`, and its 16 bytes in memory.
pub record ForkInfo : Type 0 where
  pub fork : Bytes4
  pub data_size : Bytes4
  pub rsvd_a : Bytes4
  pub rsvd_b : Bytes4

abbrev pub fork_bytes : ForkInfo → List ℕ
fork_bytes f = list4 f.fork ++ (list4 f.data_size ++ (list4 f.rsvd_a ++ list4 f.rsvd_b))

-- `hl_file_resume_data_t`; `fork_info_count` counts `fork_info`.
pub record ResumeData : Type 0 where
  pub format : Bytes4
  pub version : Bytes2
  pub rsvd : List ℕ
  pub fork_count : Bytes2
  pub fork_info : List ForkInfo

abbrev pub clamp : ℕ → ℕ
clamp count = if ltb max_fork_count count then max_fork_count else count

unfoldable pub file_resume_data_new : List ForkInfo → ℕ → Outcome ResumeData
file_resume_data_new forks count = do
  within (leb (clamp count) (length forks))
  ok (record {
    format = format_rflt;
    version = (0, 1);
    rsvd = replicate 34 0;
    fork_count = (0, clamp count % 256);
    fork_info = take (clamp count) forks;
  })

-- The loop over the forks, which also ends after `slots` of them.
unfoldable pub write_forks : ℕ → List ForkInfo → List ℕ → ℕ → Outcome (List ℕ)
write_forks zero forks buf offset = ok buf
write_forks (suc slots) [] buf offset = ok buf
write_forks (suc slots) (f ∷ fs) buf offset = do
  buf ← store buf offset (fork_bytes f)
  write_forks slots fs buf (offset + 16)

-- The memory at `buf` afterwards, and the number of bytes that the record takes.
unfoldable pub marshal : ResumeData → List ℕ → ℕ → Outcome (List ℕ × ℕ)
marshal d buf buf_len = do
  let needed = file_resume_header_size + length d.fork_info * 16
  require (leb needed buf_len)
  buf ← store buf 0 (list4 d.format)
  buf ← store buf 4 (list2 d.version)
  buf ← store buf 6 d.rsvd
  buf ← store buf 40 (list2 d.fork_count)
  buf ← write_forks max_fork_count d.fork_info buf file_resume_header_size
  ok (buf, needed)

unfoldable pub read_fork : List ℕ → ℕ → Outcome ForkInfo
read_fork buf start = do
  fork ← bytes4_at buf start
  data_size ← bytes4_at buf (start + 4)
  rsvd_a ← bytes4_at buf (start + 8)
  rsvd_b ← bytes4_at buf (start + 12)
  ok (record { fork = fork; data_size = data_size; rsvd_a = rsvd_a; rsvd_b = rsvd_b })

unfoldable pub read_forks : List ℕ → ℕ → ℕ → Outcome (List ForkInfo)
read_forks buf zero start = ok []
read_forks buf (suc n) start = do
  f ← read_fork buf start
  fs ← read_forks buf n (start + 16)
  ok (f ∷ fs)

-- The reserved bytes are skipped, so they are zeros.
unfoldable pub unmarshal : List ℕ → ℕ → Outcome ResumeData
unmarshal buf buf_len = do
  require (leb file_resume_header_size buf_len)
  format ← bytes4_at buf 0
  version ← bytes2_at buf 4
  fork_count ← bytes2_at buf 40
  let count = clamp fork_count.1
  require (leb (file_resume_header_size + count * 16) buf_len)
  forks ← read_forks buf count file_resume_header_size
  ok (record {
    format = format;
    version = version;
    rsvd = replicate 34 0;
    fork_count = fork_count;
    fork_info = forks;
  })
