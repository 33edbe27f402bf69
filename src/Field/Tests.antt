-- ===== src/Field/Tests.antt =====
-- Runs of the field codec and instances of its theorems, on the field 101 with the bytes 1, 2, 3.
use lemoniscate.Common.{ℕ, ◌≡◌, refl, Bool, true, List, [], ◌∷◌}
use lemoniscate.Common.{ok, fail, fault}
use lemoniscate.Common.Int.{negsuc}
use lemoniscate.Field.{
  Field, IsWellFormed, deserialize, serialize, scan, wire_size, new, decode_int,
  decode_obfuscated_string,
}
use lemoniscate.Wire.{read_u16, list2, list4, write_u16, write_u32}

abbrev always : ℕ → Bool
always n = true

abbrev sample : Field
sample = record { type = (0, 101); field_size = (0, 3); bytes = 1 ∷ 2 ∷ 3 ∷ []; data_len = 3 }

abbrev wire : List ℕ
wire = 0 ∷ 101 ∷ 0 ∷ 3 ∷ 1 ∷ 2 ∷ 3 ∷ 9 ∷ []

abbrev blank : List ℕ
blank = 7 ∷ 7 ∷ 7 ∷ 7 ∷ 7 ∷ 7 ∷ 7 ∷ 7 ∷ []

sample-IsWellFormed : IsWellFormed sample
unfolding read_u16
sample-IsWellFormed = record { sized = refl; allocated = refl }

wire_parsed : deserialize always wire 8 ≡ ok (sample, 7)
unfolding deserialize read_u16 lemoniscate.Wire.bytes2_at lemoniscate.Wire.first2
    lemoniscate.Field.copy_of lemoniscate.Wire.bytes_at
wire_parsed = refl

-- Of 6 bytes the field is not whole, and one that claims more bytes than there are is refused.
wire_cut : (deserialize always wire 6 ≡ fail) × (scan wire 6 ≡ ok 0) × (scan wire 8 ≡ ok 7)
unfolding deserialize scan read_u16 lemoniscate.Wire.bytes2_at lemoniscate.Wire.first2
wire_cut = (refl, refl, refl)

-- A stated length beyond the buffer is undefined behaviour.
wire_overstated : deserialize always (0 ∷ 101 ∷ 0 ∷ 3 ∷ []) 7 ≡ fault
unfolding deserialize read_u16 lemoniscate.Wire.bytes2_at lemoniscate.Wire.first2
    lemoniscate.Field.copy_of lemoniscate.Wire.bytes_at
wire_overstated = refl

decode_three_bytes : decode_int sample ≡ ok (negsuc 0)
unfolding decode_int
decode_three_bytes = refl

-- "abc", turned round
abbrev turned : Field
turned = record { type = (0, 105); field_size = (0, 3); bytes = 158 ∷ 157 ∷ 156 ∷ []; data_len = 3 }
