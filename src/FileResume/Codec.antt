-- ===== src/FileResume/Codec.antt =====
-- A resume record that is written and read back, and reading one of any content.
use lemoniscate.Common.{ℕ, zero, suc, ◌+◌, ◌*◌, ◌%◌, ◌≤◌, ◌≡◌, refl, ap, sym, ◌∙◌, arith, le→leb}
use lemoniscate.Common.{
  List, [], ◌∷◌, ◌++◌, append_assoc, append-nil, length, length-append, length-take, take,
  take-length, drop, replicate,
}
use lemoniscate.Common.{ok, ◌>>=◌, drop-append_len, drop-add}
use lemoniscate.Wire.{list2, list4, bytes2_at, bytes4_at, first2, first4}
use lemoniscate.Wire.Stores.{store_lem, store_next}
use lemoniscate.FileResume.{
  format_rflt, ForkInfo, ResumeData, fork_bytes, clamp, file_resume_data_new, write_forks, marshal,
  read_fork, read_forks, unmarshal,
}
use native.Mathlib.Decide.{dec_le}

abbrev images : List ForkInfo → List ℕ
images [] = []
images (f ∷ fs) = fork_bytes f ++ images fs

length-images : (fs : List ForkInfo) → length (images fs) ≡ length fs * 16
length-images [] = refl
length-images (f ∷ fs) = omega (arith, length-images fs)

write_forks_lem :
    (fs : List ForkInfo) (slots : ℕ) (mem pre : List ℕ) (off : ℕ)
    → length fs ≤ slots
    → off ≡ length pre
    → off + length fs * 16 ≤ length mem
    → write_forks slots fs (pre ++ drop off mem) off
      ≡ ok ((pre ++ images fs) ++ drop (off + length fs * 16) mem)
unfolding write_forks
write_forks_lem [] zero mem pre off s e h =
    rw append-nil (ap (λ n. ok (pre ++ drop n mem)) (omega arith))
write_forks_lem [] (suc slots) mem pre off s e h =
    rw append-nil (ap (λ n. ok (pre ++ drop n mem)) (omega arith))
write_forks_lem (f ∷ fs) zero mem pre off s e h = absurd (omega arith)
write_forks_lem (f ∷ fs) (suc slots) mem pre off s e h =
    rw (store_next mem pre (fork_bytes f) off (off + 16) e refl (omega arith)) (
      write_forks_lem fs slots mem (pre ++ fork_bytes f) (off + 16) (omega arith)
        (omega (arith, length-append pre (fork_bytes f))) (omega arith)
      ∙ ap (λ l. ok (l ++ drop (off + 16 + length fs * 16) mem))
          (append_assoc pre (fork_bytes f) (images fs))
      ∙ ap (λ n. ok ((pre ++ images (f ∷ fs)) ++ drop n mem)) (omega arith))

at_fork :
    (f : ForkInfo) (pre more : List ℕ) (off : ℕ)
    → length pre ≡ off
    → read_fork (pre ++ (fork_bytes f ++ more)) off ≡ ok f
unfolding read_fork bytes4_at first4
at_fork f pre more off e = rw (behind 4, behind 8, behind 12, at_start) refl
  where
    behind :
        (k : ℕ) → drop (off + k) (pre ++ (fork_bytes f ++ more)) ≡ drop k (fork_bytes f ++ more)
    behind k =
        drop-add off k (pre ++ (fork_bytes f ++ more))
        ∙ ap (drop k) (drop-append_len off pre (fork_bytes f ++ more) e)

    at_start : drop off (pre ++ (fork_bytes f ++ more)) ≡ fork_bytes f ++ more
    at_start = drop-append_len off pre (fork_bytes f ++ more) e

read_forks-images :
    (fs : List ForkInfo) (buf pre rest : List ℕ) (off : ℕ)
    → buf ≡ pre ++ (images fs ++ rest)
    → length pre ≡ off
    → read_forks buf (length fs) off ≡ ok fs
unfolding read_forks
read_forks-images [] buf pre rest off b e = refl
read_forks-images (f ∷ fs) buf pre rest off b e =
    rw
      (
        here,
        read_forks-images fs buf (pre ++ fork_bytes f) rest (off + 16) regroup
            (omega (arith, length-append pre (fork_bytes f))),
      )
      refl
  where
    spread : buf ≡ pre ++ (fork_bytes f ++ (images fs ++ rest))
    spread = b ∙ ap (λ l. pre ++ l) (append_assoc (fork_bytes f) (images fs) rest)

    here : read_fork buf off ≡ ok f
    here = ap (λ l. read_fork l off) spread ∙ at_fork f pre (images fs ++ rest) off e

    regroup : buf ≡ (pre ++ fork_bytes f) ++ (images fs ++ rest)
    regroup = spread ∙ sym (append_assoc pre (fork_bytes f) (images fs ++ rest))

abbrev head : ResumeData → List ℕ
head d = list4 d.format ++ (list2 d.version ++ (d.rsvd ++ list2 d.fork_count))

-- The record for at most three forks.
abbrev made : List ForkInfo → ResumeData
made fs = record {
  format = format_rflt;
  version = (0, 1);
  rsvd = replicate 34 0;
  fork_count = (0, length fs % 256);
  fork_info = fs;
}

clamped : (n : ℕ) → n ≤ 3 → clamp (n % 256) ≡ n
clamped n h = ground arith

unmarshal-marshal-made :
    (fs : List ForkInfo) (buf : List ℕ) (buf_len : ℕ)
    → length fs ≤ 3
    → 90 ≤ buf_len
    → buf_len ≤ length buf
    → (marshal (made fs) buf buf_len >>= λ (buf', n). unmarshal buf' buf_len) ≡ ok (made fs)
unfolding marshal unmarshal bytes2_at bytes4_at first2 first4
unmarshal-marshal-made fs buf buf_len few room inside =
    rw
      (
        le→leb (42 + length fs * 16) buf_len (omega arith),
        store_lem buf (list4 format_rflt) 0 (omega arith),
        store_next buf (take 4 (head (made fs))) (0 ∷ 1 ∷ []) 4 6 refl refl (omega arith),
        store_next buf (take 6 (head (made fs))) (replicate 34 0) 6 40 refl refl (omega arith),
        store_next buf (take 40 (head (made fs))) (0 ∷ length fs % 256 ∷ []) 40 42 refl refl
            (omega arith),
        write_forks_lem fs 3 buf (head (made fs)) 42 few refl (omega arith),
        le→leb 42 buf_len (omega arith),
        clamped (length fs) few,
        le→leb (42 + length fs * 16) buf_len (omega arith),
        read_forks-images fs ((head (made fs) ++ images fs) ++ drop (42 + length fs * 16) buf)
            (head (made fs)) (drop (42 + length fs * 16) buf) 42 refl refl,
      )
      refl

-- A record made for any number of forks keeps the first three of them; written into a buffer of at
-- least 90 bytes, it is read back as the same record, with no bytes swapped: both directions copy
-- the bytes in their order, where the comments in file_resume_data.h tell of two byte orders.
pub unmarshal-marshal_new :
    (forks : List ForkInfo) (buf : List ℕ) (buf_len : ℕ)
    → 90 ≤ buf_len
    → buf_len ≤ length buf
    → (d : ResumeData) × (file_resume_data_new forks (length forks) ≡ ok d)
      × (d.fork_info ≡ take 3 forks)
      × ((marshal d buf buf_len >>= λ (buf', n). unmarshal buf' buf_len) ≡ ok d)
unfolding file_resume_data_new
unmarshal-marshal_new forks buf buf_len room inside = elim (dec_le (length forks) 3) [
  | yes few ↦
      let n : clamp (length forks) ≡ length forks = ground arith in
      let all_kept : take 3 forks ≡ forks = take_all forks few in
      (
        made forks,
        rw (n, le→leb (length forks) (length forks) (omega arith), take-length forks) refl,
        sym all_kept,
        unmarshal-marshal-made forks buf buf_len few room inside,
      )
  | no many ↦
      let n : clamp (length forks) ≡ 3 = ground arith in
      let three : length (take 3 forks) ≡ 3 = omega (arith, length-take 3 forks) in
      (
        made (take 3 forks),
        rw (n, le→leb 3 (length forks) (omega arith), three) refl,
        refl,
        unmarshal-marshal-made (take 3 forks) buf buf_len (omega (arith, three)) room inside,
      )
]
  where
    take_all : (fs : List ForkInfo) → length fs ≤ 3 → take 3 fs ≡ fs
    take_all [] h = refl
    take_all (a ∷ []) h = refl
    take_all (a ∷ b ∷ []) h = refl
    take_all (a ∷ b ∷ c ∷ []) h = refl
    take_all (a ∷ b ∷ c ∷ d ∷ fs) h = absurd (omega arith)
