-- ===== src/Session/Sealed/Delivery.antt =====
-- The frame loop on transactions that a client seals.
use lemoniscate.Common.{
  ℕ, zero, suc, ◌+◌, ◌%◌, ◌^◌, ◌≤◌, ◌<◌, ◌≡◌, refl, ap, sym, ◌∙◌, arith, Bool, true, Option, some,
}
use lemoniscate.Common.{
  List, [], ◌∷◌, ◌++◌, append-nil, map, All, length, length-append, drop, drop-append_len, ok,
  ◌>>=◌,
}
use lemoniscate.Common.Int.{pos}
use lemoniscate.Transaction
use lemoniscate.Transaction.{Transaction, IsWellFormed, Platform, wire_size}
use lemoniscate.Transaction.RoundTrip.{image, received, length-image, deserialize-image}
use lemoniscate.Session.{read_buf_size}
use lemoniscate.Hope.Frame.{Aead, frame, client_to_server, aead_decrypt_frame}
use lemoniscate.Session.{read_buf_size}
use lemoniscate.Hope.Frame.RoundTrip.{length-frame, aead_scan_frame-frame, aead_decrypt_frame-frame}
use lemoniscate.Session.Sealed.{
  took, Left, opened_turn, decrypted, seen, turn, with_first, go_on, aead_pump,
}

-- The state after `n` more frames have been received.
unfoldable pub advance : ℕ → Aead → Aead
advance zero a = a
advance (suc n) a = advance n (record {
  encode_key = a.encode_key;
  decode_key = a.decode_key;
  send_counter = a.send_counter;
  recv_counter = (a.recv_counter + 1) % 2 ^ 64;
})

-- What a client sends that seals its transactions under the key of the session, one frame each, with
-- the counter that the server is to use next.
unfoldable pub sealed_frames : Aead → List Transaction → List ℕ
sealed_frames a [] = []
sealed_frames a (t ∷ ts) =
    frame a.decode_key client_to_server a.recv_counter (image t) ++ sealed_frames (advance 1 a) ts

-- A transaction whose frame fits the read buffer.
abbrev pub IsSendable : Transaction → Type 0
IsSendable t = IsWellFormed t × (wire_size t + 20 ≤ read_buf_size)

module _ (p : Platform) (malloc : ℕ → Bool) (serves : (n : ℕ) → malloc n ≡ true) where
  seen-pos :
      (a : Aead) (buf : List ℕ) (n : ℕ)
      → 0 < n
      → seen p malloc a buf (ok (pos n)) ≡ decrypted p malloc n (aead_decrypt_frame a buf n)
  unfolding seen
  seen-pos a buf zero h = absurd (omega arith)
  seen-pos a buf (suc n) h = refl

  turn-frame :
      (a : Aead) (t : Transaction) (rest : List ℕ)
      → IsSendable t
      → turn p malloc a (frame a.decode_key client_to_server a.recv_counter (image t) ++ rest)
        ≡ ok (took (advance 1 a) (some (received t)) (20 + wire_size t))
  unfolding turn decrypted opened_turn advance
  turn-frame a t rest (w, small) =
      let len = length-image w in
      let buf = frame a.decode_key client_to_server a.recv_counter (image t) ++ rest in
      ap (seen p malloc a buf) (
        aead_scan_frame-frame a.decode_key client_to_server a.recv_counter (image t)
          (omega (arith, len)) rest read_buf_size (omega (arith, len)))
      ∙ seen-pos a buf (20 + length (image t)) (omega arith)
      ∙ ap (decrypted p malloc (20 + length (image t)))
          (aead_decrypt_frame-frame a (image t) rest (omega (arith, len)))
      ∙ ap (opened_turn p malloc (advance 1 a) (20 + length (image t))) (whole len)
      ∙ ap (λ (n : ℕ). ok (took (advance 1 a) (some (received t)) (20 + n))) len
    where
      whole :
          length (image t) ≡ wire_size t
          → Transaction.deserialize p malloc (image t) (length (image t))
            ≡ ok (received t, pos (wire_size t))
      whole len =
          ap (λ l. Transaction.deserialize p malloc l (length (image t)))
            (sym (append-nil (image t)))
          ∙ deserialize-image w p malloc [] (length (image t)) serves (omega (arith, len))

  -- A loop that goes on behind a frame.
  pump_cons :
      (fuel n : ℕ) (a a' : Aead) (t : Option Transaction) (buf rest : List ℕ) (l : Left)
      → 0 < length buf
      → turn p malloc a buf ≡ ok (took a' t n)
      → drop n buf ≡ rest
      → aead_pump p malloc fuel a' rest ≡ ok l
      → aead_pump p malloc (suc fuel) a buf ≡ ok (with_first t l)
  unfolding aead_pump go_on
  pump_cons fuel n a a' t [] rest l full e d k = absurd (omega arith)
  pump_cons fuel n a a' t (b ∷ bs) rest l full e d k =
      ap (λ o. o >>= go_on (λ s r. aead_pump p malloc fuel s r) a (b ∷ bs)) e
      ∙ ap (λ r. aead_pump p malloc fuel a' r >>= λ l'. ok (with_first t l')) d
      ∙ ap (λ o. o >>= λ l'. ok (with_first t l')) k

  -- Transactions that a client seals one after the other, each in a frame of its own that fits the
  -- buffer, are all dispatched as they were sent and in their order, the client stays connected,
  -- nothing is left in the buffer, and the counter of the server has kept in step.
  pub aead_pump-sealed_frames :
      (a : Aead) (ts : List Transaction) (fuel : ℕ)
      → All IsSendable ts
      → length ts < fuel
      → aead_pump p malloc fuel a (sealed_frames a ts)
        ≡ ok (record {
          connected = true;
          aead = advance (length ts) a;
          dispatched = map received ts;
          buffered = [];
        })
  unfolding sealed_frames advance
  aead_pump-sealed_frames a ts zero w f = absurd (omega arith)
  aead_pump-sealed_frames a [] (suc fuel) w f = unfold aead_pump in refl
  aead_pump-sealed_frames a (t ∷ ts) (suc fuel) (w, ws) f =
      let len : length (frame a.decode_key client_to_server a.recv_counter (image t))
          ≡ 20 + wire_size t =
        length-frame a.decode_key client_to_server a.recv_counter (image t)
          (omega (arith, length-image w.0))
        ∙ ap (λ (n : ℕ). 20 + n) (length-image w.0) in
      let more = sealed_frames (advance 1 a) ts in
      pump_cons fuel (20 + wire_size t) a (advance 1 a) (some (received t)) _ more _
        (omega (
          arith,
          len,
          length-append (frame a.decode_key client_to_server a.recv_counter (image t)) more,
        ))
        (turn-frame a t more w)
        (drop-append_len (20 + wire_size t)
          (frame a.decode_key client_to_server a.recv_counter (image t)) more len)
        (aead_pump-sealed_frames (advance 1 a) ts fuel ws (omega arith))
