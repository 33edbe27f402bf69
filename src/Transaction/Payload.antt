-- ===== src/Transaction/Payload.antt =====
-- The payload of a transaction: its size, its bytes, and the loops over its fields.
use lemoniscate.Common.{ℕ, suc, ◌+◌, ◌-◌, ◌*◌, ◌%◌, ◌^◌, ◌≤◌, ◌<◌, ◌≡◌, refl, ap, sym, ◌∙◌, arith}
use lemoniscate.Common.{Bool, true, List, [], ◌∷◌, ◌++◌, append_assoc, append-nil, All, ok}
use lemoniscate.Common.{drop, length, length-append, drop-add, length-drop}
use lemoniscate.Common.{take-append_len, drop-append_len}
use native.Mathlib.Nat.{add_assoc}
use lemoniscate.Field
use lemoniscate.Field.{Field}
use lemoniscate.Field.RoundTrip.{image, length-image, serialize_lem, deserialize-image}
use lemoniscate.Wire.Integers.{read_u16-lt}
use lemoniscate.Transaction.{
  Platform, ilp32, lp64, size_mod, sub_size, parse_fields, write_fields, payload_from,
}

-- The bytes of the fields, one after the other, and their number.
abbrev pub images : List Field → List ℕ
images [] = []
images (f ∷ fs) = image f ++ images fs

abbrev pub sizes : List Field → ℕ
sizes [] = 0
sizes (f ∷ fs) = Field.wire_size f + sizes fs

pub length-images : (fs : List Field) → All Field.IsWellFormed fs → length (images fs) ≡ sizes fs
length-images [] w = refl
length-images (f ∷ fs) w =
    omega (arith, length-append (image f) (images fs), length-image w.0, length-images fs w.1)

wire_size-le : {f : Field} → Field.IsWellFormed f → Field.wire_size f ≤ 65539
unfolding Field.wire_size
wire_size-le {f} w = omega (arith, w.sized, read_u16-lt f.field_size)

pub sizes-le : (fs : List Field) → All Field.IsWellFormed fs → sizes fs ≤ 65539 * length fs
sizes-le [] w = omega arith
sizes-le (f ∷ fs) w = omega (arith, wire_size-le w.0, sizes-le fs w.1)

-- Without a wrap the loop adds the sizes up.
pub payload_from-sizes :
    (size : ℕ) (fs : List Field) → size + sizes fs < 2 ^ 32 → payload_from size fs ≡ size + sizes fs
unfolding payload_from
payload_from-sizes size [] h = omega arith
payload_from-sizes size (f ∷ fs) h =
    ap (λ k. payload_from k fs)
      (let e : (size + Field.wire_size f % 2 ^ 32) % 2 ^ 32 ≡ size + Field.wire_size f =
          omega arith in
        e)
    ∙ payload_from-sizes (size + Field.wire_size f) fs (omega arith)
    ∙ omega arith

pub sub_size-eq : (p : Platform) (a b : ℕ) → a < size_mod p → b ≤ a → sub_size p a b ≡ a - b
sub_size-eq ilp32 a b h k = omega arith
sub_size-eq lp64 a b h k = omega arith

module _ (p : Platform) where
  -- The loop of the encoder lays the fields down from the end of a prefix on.
  pub write_fields_lem :
      (fs : List Field) (mem pre : List ℕ) (off buf_len : ℕ)
      → All Field.IsWellFormed fs
      → off ≡ length pre
      → off + sizes fs ≤ buf_len
      → buf_len ≤ length mem
      → buf_len < size_mod p
      → write_fields p fs (pre ++ drop off mem) off buf_len
        ≡ ok ((pre ++ images fs) ++ drop (off + sizes fs) mem)
  unfolding write_fields
  write_fields_lem [] mem pre off buf_len w e h inside small =
      rw append-nil (ap (λ n. ok (pre ++ drop n mem)) (omega arith))
  write_fields_lem (f ∷ fs) mem pre off buf_len w e h inside small =
      rw
        (
          drop-append_len off pre (drop off mem) (sym e),
          sub_size-eq p buf_len off small (omega arith),
          serialize_lem f (drop off mem) (buf_len - off) w.0 (omega arith)
              (omega (arith, length-drop off mem)),
          take-append_len off pre (drop off mem) (sym e),
        )
        (rw (← append_assoc, ← drop-add)
          (write_fields_lem fs mem (pre ++ image f) (off + Field.wire_size f) buf_len w.1
              (omega (arith, length-append pre (image f), length-image w.0)) (omega arith) inside
              small
            ∙ rw (add_assoc off (Field.wire_size f) (sizes fs)) (simp append_assoc)))

  module _ (malloc : ℕ → Bool) where
    parse_fields-cons :
        (buf : List ℕ) (tran_len n off c : ℕ) (f : Field) (fs : List Field)
        → Field.deserialize malloc (drop off buf) (sub_size p tran_len off) ≡ ok (f, c)
        → parse_fields p malloc buf tran_len n (off + c) ≡ ok fs
        → parse_fields p malloc buf tran_len (suc n) off ≡ ok (f ∷ fs)
    unfolding parse_fields
    parse_fields-cons buf tran_len n off c f fs e k = rw (e, k)

    -- The loop of the decoder reads them back.
    pub parse_fields-images :
        (fs : List Field) (buf pre rest : List ℕ) (off tran_len : ℕ)
        → ((n : ℕ) → malloc n ≡ true)
        → All Field.IsWellFormed fs
        → buf ≡ pre ++ (images fs ++ rest)
        → off ≡ length pre
        → off + sizes fs ≤ tran_len
        → tran_len < size_mod p
        → parse_fields p malloc buf tran_len (length fs) off ≡ ok fs
    parse_fields-images [] buf pre rest off tran_len serves w b e h small =
        unfold parse_fields in refl
    parse_fields-images (f ∷ fs) buf pre rest off tran_len serves w b e h small =
        parse_fields-cons buf tran_len (length fs) off (Field.wire_size f) f fs first (
          parse_fields-images fs buf (pre ++ image f) rest (off + Field.wire_size f) tran_len serves
            w.1 (b ∙ simp append_assoc)
            (omega (arith, length-append pre (image f), length-image w.0)) (omega arith) small)
      where
        first :
            Field.deserialize malloc (drop off buf) (sub_size p tran_len off)
            ≡ ok (f, Field.wire_size f)
        first =
            rw
              (
                b,
                drop-append_len off pre (images (f ∷ fs) ++ rest) (sym e),
                sub_size-eq p tran_len off small (omega arith),
                append_assoc (image f) (images fs) rest,
              )
              (deserialize-image malloc f (images fs ++ rest) (tran_len - off) serves w.0
                (omega arith))
