-- ===== src/Session/Tests.antt =====
-- Runs of the framing loop and instances of its theorems, on transactions without fields.
use lemoniscate.Common.{
  ℕ, ◌+◌, ◌≤◌, ◌≡◌, ◌≢◌, refl, ap, sym, ◌<◌, ◌⊎◌, arith, Bool, true, List, [], ◌∷◌, ◌++◌, map,
  length, take, drop,
}
use lemoniscate.Common.{ok, fault}
use lemoniscate.Common.Int.{pos}
use lemoniscate.Transaction.{Transaction, IsWellFormed, lp64, ilp32, wire_size, payload_size}
use lemoniscate.Transaction.RoundTrip.{image, received}
use lemoniscate.Session.{pump, serve, read_login}
use lemoniscate.Session.Safety.{pump-ne-fault, pump_settled}
use lemoniscate.Session.Framing.{frames}
use lemoniscate.Session.Reads.{IsBefore, IsBufferable, serve-frames}
use lemoniscate.Hope.Frame.{Aead}
use lemoniscate.Session.Sealed.{aead_pump}
use lemoniscate.Session.Sealed.Delivery.{sealed_frames, advance, aead_pump-sealed_frames}
use lemoniscate.Session.Login.{read_login-ne-fault, read_login-image}

abbrev always : ℕ → Bool
always n = true

abbrev keep_alive : Transaction
keep_alive = record {
  flags = 0;
  is_reply = 0;
  type = (1, 244);
  id = (0, 0, 0, 7);
  error_code = (0, 0, 0, 0);
  total_size = (0, 0, 0, 0);
  data_size = (0, 0, 0, 0);
  param_count = (0, 0);
  fields = [];
  client_id = (0, 3);
}

keep_alive-IsWellFormed : IsWellFormed keep_alive
keep_alive-IsWellFormed = record { fields_formed = tt; few = omega arith }

abbrev wire : List ℕ
wire = 0 ∷ 0 ∷ 1 ∷ 244 ∷ 0 ∷ 0 ∷ 0 ∷ 7 ∷ 0 ∷ 0 ∷ 0 ∷ 0 ∷ 0 ∷ 0 ∷ 0 ∷ 2 ∷ 0 ∷ 0 ∷ 0 ∷ 2 ∷ 0 ∷ 0 ∷ []

image-keep_alive : image keep_alive ≡ wire
unfolding lemoniscate.Wire.write_u32 lemoniscate.Wire.write_u16 payload_size
    lemoniscate.Transaction.payload_from
image-keep_alive = refl

-- A frame that is too short for a header empties the buffer.
bad_frame : pump lp64 always 30 (take 12 wire ++ (0 ∷ 0 ∷ 0 ∷ 1 ∷ []) ++ wire) ≡ ok ([], [])
unfolding pump lemoniscate.Session.round lemoniscate.Session.scanned lemoniscate.Transaction.scan
    lemoniscate.Wire.bytes4_at lemoniscate.Wire.first4 lemoniscate.Transaction.size_would_overflow
    lemoniscate.Transaction.size_bytes lemoniscate.Wire.read_u32 lemoniscate.Session.parsed
    lemoniscate.Transaction.deserialize
bad_frame = refl

keep_alive-IsBufferable : IsBufferable keep_alive
keep_alive-IsBufferable = (
  keep_alive-IsWellFormed,
  unfold wire_size payload_size lemoniscate.Transaction.payload_from in omega arith,
)

-- Two transactions, of which the second is cut in its header and in front of its last byte.
serve-frames_example :
    (us : List Transaction) × (ws : List Transaction) × (front : List ℕ) × (unread : List ℕ)
    × (serve lp64 always ((image keep_alive ++ take 9 wire) ∷ take 12 (drop 9 wire) ∷ []) [] []
        ≡ ok (map received us, (front, unread)))
    × (keep_alive ∷ keep_alive ∷ [] ≡ us ++ ws)
    × (front ++ (unread ++ drop 21 wire) ≡ frames ws)
    × IsBefore front ws
    × ((0 < length (unread ++ drop 21 wire)) ⊎ (ws ≡ []))
serve-frames_example =
    serve-frames lp64 always (λ n. refl) (keep_alive ∷ keep_alive ∷ [])
      ((image keep_alive ++ take 9 wire) ∷ take 12 (drop 9 wire) ∷ []) (drop 21 wire)
      (keep_alive-IsBufferable, (keep_alive-IsBufferable, tt)) (omega arith, (omega arith, tt))
      (ap (λ l. image keep_alive ++ l) (sym image-keep_alive))

pump-ne-fault_example : pump ilp32 always 30 wire ≢ fault
pump-ne-fault_example = pump-ne-fault ilp32 always 30 wire (omega arith)

pump_settled_example : pump lp64 always 22 wire ≡ pump lp64 always 50 wire
pump_settled_example = pump_settled lp64 always 22 50 wire (omega arith) (omega arith) (omega arith)

read_login-ne-fault_example : read_login lp64 always wire ≢ fault
read_login-ne-fault_example = read_login-ne-fault lp64 always wire

keep_alive-payload_size : payload_size keep_alive ≡ 2
unfolding payload_size lemoniscate.Transaction.payload_from
keep_alive-payload_size = refl

read_login-image_example :
    read_login lp64 always (image keep_alive ++ (1 ∷ 2 ∷ []))
    ≡ ok ((received keep_alive, pos (wire_size keep_alive)), 1 ∷ 2 ∷ [])
read_login-image_example =
    read_login-image lp64 always keep_alive-IsWellFormed (1 ∷ 2 ∷ []) (λ n. refl)
      (omega (arith, keep_alive-payload_size))

abbrev sealed_session : Aead
sealed_session = record {
  encode_key = 1 ∷ [];
  decode_key = 2 ∷ [];
  send_counter = 0;
  recv_counter = 5;
}

aead_pump-sealed_frames_example :
    aead_pump lp64 always 9 sealed_session
      (sealed_frames sealed_session (keep_alive ∷ keep_alive ∷ []))
    ≡ ok (record {
      connected = true;
      aead = advance 2 sealed_session;
      dispatched = received keep_alive ∷ received keep_alive ∷ [];
      buffered = [];
    })
aead_pump-sealed_frames_example =
    aead_pump-sealed_frames lp64 always (λ n. refl) sealed_session (keep_alive ∷ keep_alive ∷ []) 9
      ((keep_alive-IsWellFormed, small), ((keep_alive-IsWellFormed, small), tt)) (omega arith)
  where
    small : wire_size keep_alive + 20 ≤ 65536
    small = unfold wire_size payload_size lemoniscate.Transaction.payload_from in omega arith
