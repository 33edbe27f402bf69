-- ===== src/User/Codec.antt =====
-- The codec of users, and the flags.
use lemoniscate.Common.{ℕ, ◌+◌, ◌≤◌, ◌≡◌, ◌≢◌, refl, ap₂, arith, le→leb, All}
use lemoniscate.Common.{
  List, [], ◌∷◌, ◌++◌, length, length-append, length-take, length-drop, take, take-append, drop,
}
use lemoniscate.Common.{Outcome, ok, fault, ◌>>=◌}
use lemoniscate.Wire.{IsByte, list2, read_u16, write_u16, bytes2_at, first2}
use lemoniscate.Wire.Integers.{read_u16-write_u16}
use lemoniscate.Wire.Reads.{bytes2_at_total, bytes_at_lem}
use lemoniscate.Wire.Stores.{store_lem, store_next}
use lemoniscate.User.{User, serialize, deserialize, encode_string}
use native.Mathlib.Decide.{dec_le}

-- The 8 bytes in front of the name, and the whole user.
abbrev head : User → List ℕ
head u = list2 u.id ++ (list2 u.icon ++ (list2 u.flags ++ list2 (write_u16 (length u.name))))

abbrev pub image : User → List ℕ
image u = head u ++ u.name

serialize-image :
    (u : User) (buf : List ℕ) (buf_len : ℕ)
    → 8 + length u.name ≤ buf_len
    → buf_len ≤ length buf
    → serialize u buf buf_len ≡ ok (image u ++ drop (8 + length u.name) buf, 8 + length u.name)
unfolding serialize
serialize-image u buf buf_len h inside =
    rw
      (
        le→leb (8 + length u.name) buf_len h,
        store_lem buf (list2 u.id) 0 (omega arith),
        store_next buf (take 2 (head u)) (list2 u.icon) 2 4 refl refl (omega arith),
        store_next buf (take 4 (head u)) (list2 u.flags) 4 6 refl refl (omega arith),
        store_next buf (take 6 (head u)) (list2 (write_u16 (length u.name))) 6 8 refl refl
            (omega arith),
        store_next buf (head u) u.name 8 (8 + length u.name) refl refl (omega arith),
      )
      refl

-- A user written into a buffer and parsed from it, with what both return.
abbrev pub sent_and_read : User → List ℕ → ℕ → Outcome (ℕ × (User × ℕ))
sent_and_read u buf buf_len = do
  (buf', written) ← serialize u buf buf_len
  read ← deserialize buf' buf_len
  ok (written, read)

-- A user with a name of at most 128 bytes that is written into a large enough buffer is parsed back
-- to the same user, and the encoder and the parser both return the number of its bytes.
pub deserialize-serialize_user :
    (u : User) (buf : List ℕ) (buf_len : ℕ)
    → length u.name ≤ 128
    → 8 + length u.name ≤ buf_len
    → buf_len ≤ length buf
    → sent_and_read u buf buf_len ≡ ok (8 + length u.name, (u, 8 + length u.name))
unfolding deserialize bytes2_at first2
deserialize-serialize_user u buf buf_len short h inside =
    rw
      (
        serialize-image u buf buf_len h inside,
        le→leb 8 buf_len (omega arith),
        read_u16-write_u16 (length u.name) (omega arith),
        le→leb (8 + length u.name) buf_len h,
        le→leb (length u.name) 128 short,
        bytes_at_lem (image u ++ drop (8 + length u.name) buf) 8 (length u.name)
            (omega (arith, length-append u.name (drop (8 + length u.name) buf))),
        take-append u.name (drop (8 + length u.name) buf),
      )
      refl

-- Parsing a user from a buffer of at least the stated length never reads outside it, and a name
-- that is delivered has at most 128 bytes, which the array has room for.
pub deserialize_user-safe :
    (buf : List ℕ) (buf_len : ℕ) (u : User) (n : ℕ)
    → buf_len ≤ length buf
    → (deserialize buf buf_len ≢ fault)
      × (deserialize buf buf_len ≡ ok (u, n)
          → (length u.name ≤ 128) × (n ≡ 8 + length u.name) × (n ≤ buf_len))
unfolding deserialize
deserialize_user-safe buf buf_len u n inside = elim (dec_le 8 buf_len) [
  | no h ↦ (ground arith, λ e. ground arith)
  | yes h ↦
      let (s, es) = bytes2_at_total buf 6 (omega arith) in
      let (a, ea) = bytes2_at_total buf 0 (omega arith) in
      let (b, eb) = bytes2_at_total buf 2 (omega arith) in
      let (c, ec) = bytes2_at_total buf 4 (omega arith) in
      let len = read_u16 s in
      elim (dec_le (8 + len) buf_len) [
        | no k ↦ (ground (arith, es), λ e. ground (arith, es))
        | yes k ↦
            let size : length (take len (drop 8 buf)) ≡ len =
              omega (arith, length-take len (drop 8 buf), length-drop 8 buf) in
            (
              ground (arith, es, ea, eb, ec, bytes_at_lem buf 8 len (omega arith)),
              λ e. ground (arith, es, ea, eb, ec, bytes_at_lem buf 8 len (omega arith), size),
            )
      ]
]

-- Turning the bytes of a string round twice gives the string.
pub encode_string-encode_string : (s : List ℕ) → All IsByte s → encode_string (encode_string s) ≡ s
unfolding encode_string
encode_string-encode_string [] w = refl
encode_string-encode_string (b ∷ s) w =
    ap₂ (λ x l. x ∷ l) (omega (arith, w.0)) (encode_string-encode_string s w.1)
