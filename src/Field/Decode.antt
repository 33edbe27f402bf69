-- ===== src/Field/Decode.antt =====
-- Reading the data of a field: integers, and logins and passwords with their bits turned round.
use lemoniscate.Common.{ℕ, ◌+◌, ◌^◌, ◌≤◌, ◌<◌, ◌≡◌, refl, ap, ap₂, sym, ◌∙◌, arith, Bool, true}
use lemoniscate.Common.{List, [], ◌∷◌, ◌++◌, map, All, take, take-length, ok, ◌>>=◌}
use lemoniscate.Common.Int.{pos, int_of, int_of-small}
use lemoniscate.Wire.{
  Bytes2, IsByte, list2, list4, write_u16, write_u32, bytes2_at, bytes4_at, first2, first4,
  bytes_at,
}
use lemoniscate.Wire.Integers.{read_u16-write_u16, read_u32-write_u32}
use lemoniscate.Wire.Reads.{bytes_at_lem}
use lemoniscate.Field.{
  Field, IsWellFormed, new, copy_of, decode_int, rotate, decode_obfuscated_string,
}

-- A field made of an integer's two or four big-endian bytes decodes to that integer, which from
-- 2 ^ 31 on is the negative `int` of its bits.
pub decode_int-new :
    (malloc : ℕ → Bool) (type : Bytes2) (v w : ℕ)
    → ((n : ℕ) → malloc n ≡ true)
    → v < 2 ^ 16
    → w < 2 ^ 32
    → ((new malloc type (list2 (write_u16 v)) 2 >>= decode_int) ≡ ok (pos v))
      × ((new malloc type (list4 (write_u32 w)) 4 >>= decode_int) ≡ ok (int_of w))
unfolding new copy_of decode_int bytes_at bytes2_at bytes4_at first2 first4
decode_int-new malloc type v w serves h k = (
  rw (serves 2, read_u16-write_u16 v h) (ap ok (int_of-small v (omega arith))),
  rw (serves 4, read_u32-write_u32 w k) refl,
)

map-rotate : (s : List ℕ) → All IsByte s → map rotate (map rotate s) ≡ s
map-rotate [] w = refl
map-rotate (b ∷ s) w = ap₂ (λ x l. x ∷ l) (omega (arith, w.0)) (map-rotate s w.1)

-- A string that was sent with every byte turned round is delivered as it was, with a NUL behind it,
-- into any output that has room for both.
pub decode_obfuscated_string-rotate :
    (f : Field) (s : List ℕ) (out_max : ℕ)
    → IsWellFormed f
    → f.bytes ≡ map rotate s
    → All IsByte s
    → f.data_len + 1 < out_max
    → out_max ≤ 2 ^ 16
    → decode_obfuscated_string f out_max ≡ ok (s ++ (0 ∷ []))
unfolding decode_obfuscated_string
decode_obfuscated_string-rotate f s out_max w e bytes room small =
    ground (arith, bytes_at_lem f.bytes 0 f.data_len (omega (arith, w.allocated)), whole, turned)
  where
    whole : take f.data_len f.bytes ≡ f.bytes
    whole = ap (λ n. take n f.bytes) (sym w.allocated) ∙ take-length f.bytes

    turned : map rotate f.bytes ≡ s
    turned = ap (map rotate) e ∙ map-rotate s bytes
