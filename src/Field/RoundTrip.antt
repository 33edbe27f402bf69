-- ===== src/Field/RoundTrip.antt =====
-- A field that is written and read back.
use lemoniscate.Common.{
  take-append_len, zero-ltb-suc, ℕ, suc, ◌+◌, ◌≤◌, ◌<◌, ◌≡◌, refl, arith, Bool, true,
}
use lemoniscate.Common.{List, [], ◌∷◌, ◌++◌, drop, length, length-append, length-drop}
use lemoniscate.Common.{ok, fail, ◌>>=◌, drop-add, take-length, if◌then◌else◌, ◌&&◌, le→leb, ltb}
use lemoniscate.Wire.{list2, store, bytes_at, bytes2_at, first2}
use lemoniscate.Wire.Reads.{bytes_at_lem}
use lemoniscate.Wire.Stores.{store_lem, store-append}
use lemoniscate.Field.{Field, IsWellFormed, deserialize, serialize, wire_size, not_null}
use lemoniscate.Field.Parse.{copy_of_lem}

-- The bytes of a field on the wire.
abbrev pub image : Field → List ℕ
image f = list2 f.type ++ (list2 f.field_size ++ f.bytes)

pub length-image : {f : Field} → IsWellFormed f → length (image f) ≡ wire_size f
unfolding wire_size
length-image w = omega arith

payload_stored :
    (bytes pre rest : List ℕ) (n : ℕ)
    → length bytes ≡ n
    → length pre ≡ 4
    → n ≤ length rest
    → (if ltb 0 n && not_null bytes
        then (bytes_at bytes 0 n >>= store (pre ++ rest) 4)
        else ok (pre ++ rest))
      ≡ ok (pre ++ (bytes ++ drop n rest))
unfolding not_null
payload_stored [] pre rest n e p h = rw (← e)
payload_stored (b ∷ bs) pre rest n e p h = rw (← e) (
    rw
      (
        zero-ltb-suc (length bs),
        bytes_at_lem (b ∷ bs) 0 (suc (length bs)) (omega arith),
        take-length bs,
      )
      (store-append pre rest (b ∷ bs) 4 (omega arith) (omega arith)))

-- A well-formed field is written whole, and nothing behind it is touched.
pub serialize_lem :
    (f : Field) (buf : List ℕ) (buf_len : ℕ)
    → IsWellFormed f
    → wire_size f ≤ buf_len
    → buf_len ≤ length buf
    → serialize f buf buf_len ≡ ok (image f ++ drop (wire_size f) buf, wire_size f)
unfolding serialize wire_size
serialize_lem f buf buf_len w h inside = rw (
  le→leb (4 + f.data_len) buf_len h,
  store_lem buf (list2 f.type) 0 (omega arith),
  store-append (list2 f.type) (drop 2 buf) (list2 f.field_size) 2 refl
      (omega (arith, length-drop 2 buf)),
  ← drop-add 2 2 buf,
  payload_stored f.bytes (list2 f.type ++ list2 f.field_size) (drop 4 buf) f.data_len w.allocated
      refl (omega (arith, length-drop 4 buf)),
  ← drop-add 4 f.data_len buf,
)

-- A buffer that is too short is refused before anything is written.
pub serialize_short :
    (f : Field) (buf : List ℕ) (buf_len : ℕ)
    → buf_len < wire_size f
    → serialize f buf buf_len ≡ fail
unfolding serialize wire_size
serialize_short f buf buf_len h = ground arith

pub deserialize-image :
    (malloc : ℕ → Bool) (f : Field) (rest : List ℕ) (buf_len : ℕ)
    → ((n : ℕ) → malloc n ≡ true)
    → IsWellFormed f
    → wire_size f ≤ buf_len
    → deserialize malloc (image f ++ rest) buf_len ≡ ok (f, wire_size f)
unfolding deserialize wire_size bytes2_at first2
deserialize-image malloc f rest buf_len serves w h = rw (
  le→leb 4 buf_len (omega arith),
  w.sized,
  le→leb (4 + f.data_len) buf_len h,
  copy_of_lem malloc (image f ++ rest) 4 f.data_len serves
      (omega (arith, length-append f.bytes rest)),
  take-append_len f.data_len f.bytes rest w.allocated,
)

-- What `serialize` wrote over a buffer is parsed back to the same field, from the buffer as it is
-- then, and both report the field's size.
pub deserialize-serialize_field :
    (malloc : ℕ → Bool) (f : Field) (buf : List ℕ) (buf_len : ℕ)
    → ((n : ℕ) → malloc n ≡ true)
    → IsWellFormed f
    → wire_size f ≤ buf_len
    → buf_len ≤ length buf
    → (serialize f buf buf_len >>= λ (buf', n). deserialize malloc buf' buf_len)
      ≡ ok (f, wire_size f)
deserialize-serialize_field malloc f buf buf_len serves w h inside =
    rw (serialize_lem f buf buf_len w h inside)
      (deserialize-image malloc f (drop (wire_size f) buf) buf_len serves w h)
