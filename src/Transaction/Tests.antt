-- ===== src/Transaction/Tests.antt =====
-- Runs of the transaction codec and instances of its theorems, on a chat message of one field.
use lemoniscate.Common.{ℕ, ◌≡◌, ◌≢◌, refl, arith, Bool, true, List, [], ◌∷◌, ◌++◌}
use lemoniscate.Common.{ok, fault}
use lemoniscate.Common.Int.{pos}
use lemoniscate.Wire.{read_u16, read_u32}
use lemoniscate.Field.{Field}
use lemoniscate.Transaction.{
  Transaction, IsWellFormed, Platform, ilp32, lp64, frame_len, deserialize, serialize, scan,
  wire_size,
}
use lemoniscate.Transaction.RoundTrip.{received, sent_and_read, deserialize-serialize_transaction}
use lemoniscate.Transaction.Safety.{deserialize-ne-fault_transaction}
use lemoniscate.Transaction.Overrun.{deserialize_overrun}
use lemoniscate.Transaction.Names.{type_name, type_name-injective}
use lemoniscate.Wire.{Bytes2}
use text.Mathlib.Text.{◌==◌ as str_eq}
use lemoniscate.Common.{false, ap, sym, ◌∙◌}

abbrev always : ℕ → Bool
always n = true

-- "hi" in the field 101 of a transaction of type 105
abbrev message : Transaction
message = record {
  flags = 0;
  is_reply = 0;
  type = (0, 105);
  id = (0, 0, 0, 7);
  error_code = (0, 0, 0, 0);
  total_size = (0, 0, 0, 0);
  data_size = (0, 0, 0, 0);
  param_count = (0, 0);
  fields =
      record { type = (0, 101); field_size = (0, 2); bytes = 104 ∷ 105 ∷ []; data_len = 2 } ∷ [];
  client_id = (0, 3);
}

abbrev wire : List ℕ
wire =
    0 ∷ 0 ∷ 0 ∷ 105 ∷ 0 ∷ 0 ∷ 0 ∷ 7 ∷ 0 ∷ 0 ∷ 0 ∷ 0 ∷ 0 ∷ 0 ∷ 0 ∷ 8 ∷ 0 ∷ 0 ∷ 0 ∷ 8 ∷ 0 ∷ 1 ∷ 0
    ∷ 101 ∷ 0 ∷ 2 ∷ 104 ∷ 105 ∷ []

-- A header that counts one field, with a TotalSize of 0.
abbrev short_header : List ℕ
short_header =
    0 ∷ 0 ∷ 0 ∷ 105 ∷ 0 ∷ 0 ∷ 0 ∷ 7 ∷ 0 ∷ 0 ∷ 0 ∷ 0 ∷ 0 ∷ 0 ∷ 0 ∷ 0 ∷ 0 ∷ 0 ∷ 0 ∷ 0 ∷ 0 ∷ 1 ∷ []

message-IsWellFormed : IsWellFormed message
unfolding read_u16
message-IsWellFormed = record {
  fields_formed = (record { sized = refl; allocated = refl }, tt);
  few = omega arith;
}

message-size : wire_size message ≡ 28
unfolding wire_size lemoniscate.Transaction.payload_size lemoniscate.Transaction.payload_from
    lemoniscate.Field.wire_size
message-size = refl

message_written : serialize lp64 message (wire ++ (9 ∷ [])) 29 ≡ ok (wire ++ (9 ∷ []), pos 28)
unfolding serialize wire_size lemoniscate.Transaction.payload_size
    lemoniscate.Transaction.payload_from lemoniscate.Field.wire_size lemoniscate.Wire.store
    lemoniscate.Transaction.write_fields lemoniscate.Field.serialize lemoniscate.Field.not_null
    lemoniscate.Wire.bytes_at lemoniscate.Wire.write_u32 lemoniscate.Wire.write_u16
message_written = refl

message_scanned :
    (scan lp64 wire 28 ≡ ok (pos 28))
    × (scan lp64 wire 27 ≡ ok (pos 0))
    × (scan lp64 [] 0 ≡ ok (pos 0))
unfolding scan lemoniscate.Wire.bytes4_at lemoniscate.Wire.first4
    lemoniscate.Transaction.size_would_overflow lemoniscate.Transaction.size_bytes read_u32
message_scanned = (refl, refl, refl)

message_read : deserialize lp64 always wire 28 ≡ ok (received message, pos 28)
unfolding deserialize lemoniscate.Wire.bytes4_at lemoniscate.Wire.first4
    lemoniscate.Transaction.size_would_overflow lemoniscate.Transaction.size_bytes read_u32
    lemoniscate.Wire.bytes2_at lemoniscate.Wire.first2 read_u16 lemoniscate.Transaction.read_fields
    lemoniscate.Transaction.parse_fields lemoniscate.Field.deserialize lemoniscate.Field.copy_of
    lemoniscate.Wire.bytes_at lemoniscate.Wire.write_u32 lemoniscate.Wire.write_u16
    lemoniscate.Transaction.payload_size lemoniscate.Transaction.payload_from
    lemoniscate.Field.wire_size
message_read = refl

deserialize-serialize_transaction_example :
    sent_and_read message-IsWellFormed ilp32 always (wire ++ wire) 40
    ≡ ok (pos (wire_size message), (received message, pos (wire_size message)))
deserialize-serialize_transaction_example =
    deserialize-serialize_transaction message-IsWellFormed ilp32 always (wire ++ wire) 40
      (λ n. refl) (omega (arith, message-size)) (omega arith) (omega arith)

deserialize-ne-fault_transaction_example : deserialize lp64 always wire 28 ≢ fault
deserialize-ne-fault_transaction_example =
    deserialize-ne-fault_transaction lp64 always wire 28 (omega arith) (omega arith) (0, 0, 0, 8)
      (unfold lemoniscate.Wire.bytes4_at lemoniscate.Wire.first4 in refl)
      (unfold read_u32 in omega arith)

deserialize_overrun_example : deserialize lp64 always short_header 22 ≡ fault
deserialize_overrun_example =
    deserialize_overrun always short_header (0, 0, 0, 0) (0, 1) refl
      (unfold lemoniscate.Wire.bytes4_at lemoniscate.Wire.first4 in refl)
      (unfold lemoniscate.Wire.bytes2_at lemoniscate.Wire.first2 in refl)
      (unfold read_u32 in omega arith) (unfold read_u16 in omega arith)
      (unfold read_u16 in omega arith) refl

abbrev keep_alive_type : Bytes2
keep_alive_type = (1, 244)

keep_alive_name : type_name keep_alive_type ≡ "Keepalive"
unfolding type_name read_u16 lemoniscate.Transaction.Names.find_type
keep_alive_name = refl

unknown_name : type_name (0, 1) ≡ "Unknown"
unfolding type_name read_u16 lemoniscate.Transaction.Names.find_type
unknown_name = refl

known : type_name keep_alive_type ≢ "Unknown"
known e = let d : false ≡ true = ap (λ s. str_eq s "Unknown") (sym keep_alive_name ∙ e) in cc
