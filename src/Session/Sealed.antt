-- ===== src/Session/Sealed.antt =====
-- src/hotline/server.c: the frame loop of `process_client_data` for a connection with AEAD
-- encryption.
pub mod Delivery
use lemoniscate.Common.{
  ℕ, zero, suc, ◌+◌, Bool, true, false, List, [], ◌∷◌, drop, length, Option, none, some, Outcome,
  ok, fail, fault, ◌>>=◌, ◌>>◌, require,
}
use lemoniscate.Common.Int.{ℤ, pos, negsuc}
use lemoniscate.Transaction
use lemoniscate.Transaction.{Transaction, Platform}
use lemoniscate.Session.{read_buf_size}
use lemoniscate.Hope.Frame.{Aead, aead_scan_frame, aead_decrypt_frame, aead_encrypt_transaction}

-- A round of the loop: it waits for more bytes, it disconnects the client, or it consumes a frame and
-- dispatches the transaction in it, if it holds one.
pub data Turn : Type 0 where
  wait : Turn
  disconnect : Turn
  took : Aead → Option Transaction → ℕ → Turn

-- What a call of process_client_data leaves: whether the client is still connected, the state, the
-- transactions dispatched in their order, and the bytes buffered.
pub record Left : Type 0 where
  pub connected : Bool
  pub aead : Aead
  pub dispatched : List Transaction
  pub buffered : List ℕ

abbrev pub with_first : Option Transaction → Left → Left
with_first none l = l
with_first (some t) l = record {
  connected = l.connected;
  aead = l.aead;
  dispatched = t ∷ l.dispatched;
  buffered = l.buffered;
}

unfoldable pub go_on : (Aead → List ℕ → Outcome Left) → Aead → List ℕ → Turn → Outcome Left
go_on loop a buf wait = ok (record { connected = true; aead = a; dispatched = []; buffered = buf })
go_on loop a buf disconnect =
    ok (record { connected = false; aead = a; dispatched = []; buffered = buf })
go_on loop a buf (took a' t n) = do l ← loop a' (drop n buf); ok (with_first t l)

module _ (p : Platform) (malloc : ℕ → Bool) where
  -- An error of the parser drops the frame and goes on.
  unfoldable pub opened_turn : Aead → ℕ → Outcome (Transaction × ℤ) → Outcome Turn
  opened_turn a n (ok (t, pos consumed)) = ok (took a (some t) n)
  opened_turn a n (ok (t, negsuc k)) = ok (took a none n)
  opened_turn a n fail = ok (took a none n)
  opened_turn a n fault = fault

  unfoldable pub decrypted : ℕ → Outcome (Aead × List ℕ) → Outcome Turn
  decrypted n (ok (a, plaintext)) =
      opened_turn a n (Transaction.deserialize p malloc plaintext (length plaintext))
  decrypted n fail = ok disconnect
  decrypted n fault = fault

  unfoldable pub seen : Aead → List ℕ → Outcome ℤ → Outcome Turn
  seen a buf (ok (pos zero)) = ok wait
  seen a buf (ok (pos (suc n))) = decrypted (suc n) (aead_decrypt_frame a buf (suc n))
  seen a buf (ok (negsuc k)) = ok disconnect
  seen a buf fail = ok disconnect
  seen a buf fault = fault

  unfoldable pub turn : Aead → List ℕ → Outcome Turn
  turn a buf = seen a buf (aead_scan_frame buf read_buf_size)

  -- The loop, with fuel for its rounds.
  unfoldable pub aead_pump : ℕ → Aead → List ℕ → Outcome Left
  aead_pump zero a buf = ok (record { connected = true; aead = a; dispatched = []; buffered = buf })
  aead_pump (suc fuel) a [] =
      ok (record { connected = true; aead = a; dispatched = []; buffered = [] })
  aead_pump (suc fuel) a (b ∷ bs) =
      turn a (b ∷ bs) >>= go_on (λ s rest. aead_pump fuel s rest) a (b ∷ bs)
