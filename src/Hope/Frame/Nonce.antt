-- ===== src/Hope/Frame/Nonce.antt =====
-- The nonces under which the server seals its transactions.
use lemoniscate.Common.{ℕ, ◌+◌, ◌%◌, ◌^◌, ◌<◌, ◌≡◌, ◌≢◌, ap, ◌∙◌, arith, get_or}
use lemoniscate.Common.{List, [], ◌∷◌, length, Outcome, ok, ◌>>=◌, >>=-eq-ok}
use lemoniscate.Hope.Frame.{
  Aead, server_to_client, frame, aead_build_nonce, aead_encrypt_transaction,
}

-- Nonces that are equal come from the same direction and the same counter of 64 bits.
pub aead_build_nonce-injective :
    (d e m n : ℕ)
    → m < 2 ^ 64
    → n < 2 ^ 64
    → aead_build_nonce d m ≡ aead_build_nonce e n
    → (d ≡ e) × (m ≡ n)
unfolding aead_build_nonce
aead_build_nonce-injective d e m n hm hn h =
    let at : (i : ℕ) → get_or (aead_build_nonce d m) i 0 ≡ get_or (aead_build_nonce e n) i 0 =
      λ i. ap (λ l. get_or l i 0) h in
    (at 0, omega (arith, at 4, at 5, at 6, at 7, at 8, at 9, at 10, at 11))

-- The server encrypts transactions one after the other.
unfoldable pub encrypt_all : Aead → List (List ℕ) → ℕ → Outcome Aead
encrypt_all a [] out_buf_size = ok a
encrypt_all a (tx ∷ txs) out_buf_size = do
  (a', out) ← aead_encrypt_transaction a tx out_buf_size
  encrypt_all a' txs out_buf_size

-- One encryption: the frame, the key kept, and the counter moved on.
encrypted :
    (a a' : Aead) (tx out : List ℕ) (size : ℕ)
    → aead_encrypt_transaction a tx size ≡ ok (a', out)
    → (out ≡ frame a.encode_key server_to_client a.send_counter tx)
      × (a'.encode_key ≡ a.encode_key)
      × (a'.send_counter ≡ (a.send_counter + 1) % 2 ^ 64)
unfolding aead_encrypt_transaction
encrypted a a' tx out size h = ground arith

counter_after :
    (a a' : Aead) (txs : List (List ℕ)) (size : ℕ)
    → a.send_counter < 2 ^ 64
    → encrypt_all a txs size ≡ ok a'
    → (a'.encode_key ≡ a.encode_key) × (a'.send_counter ≡ (a.send_counter + length txs) % 2 ^ 64)
unfolding encrypt_all
counter_after a a' [] size small h = ground (arith, h)
counter_after a a' (tx ∷ txs) size small h =
    let ((a1, out), e, rest) =
      >>=-eq-ok (aead_encrypt_transaction a tx size) (λ (x, out). encrypt_all x txs size) h in
    let (frame_eq, key, counter) = encrypted a a1 tx out size e in
    let (key', counter') = counter_after a1 a' txs size (omega (arith, counter)) rest in
    (key' ∙ key, omega (arith, counter, counter'))

-- Two transactions that the server encrypts in one session, with any others between them but fewer
-- than 2 ^ 64 - 1, are both sealed under the session's key and under nonces that differ.
pub aead_encrypt_transaction-fresh :
    (a a1 later a2 : Aead) (tx out : List ℕ) (between : List (List ℕ)) (tx2 out2 : List ℕ)
    (size : ℕ)
    → a.send_counter < 2 ^ 64
    → length between + 1 < 2 ^ 64
    → aead_encrypt_transaction a tx size ≡ ok (a1, out)
    → encrypt_all a1 between size ≡ ok later
    → aead_encrypt_transaction later tx2 size ≡ ok (a2, out2)
    → (out ≡ frame a.encode_key server_to_client a.send_counter tx)
      × (out2 ≡ frame a.encode_key server_to_client later.send_counter tx2)
      × (aead_build_nonce server_to_client a.send_counter
          ≢ aead_build_nonce server_to_client later.send_counter)
aead_encrypt_transaction-fresh a a1 later a2 tx out between tx2 out2 size small few e run e2 =
    let (framed, key, counter) = encrypted a a1 tx out size e in
    let (key', counter') = counter_after a1 later between size (omega (arith, counter)) run in
    let (framed2, key2, counter2) = encrypted later a2 tx2 out2 size e2 in
    (
      framed,
      framed2 ∙ ap (λ k. frame k server_to_client later.send_counter tx2) (key' ∙ key),
      λ same.
          let (d, n) =
            aead_build_nonce-injective server_to_client server_to_client a.send_counter
              later.send_counter small (omega (arith, counter')) same in
          omega (arith, n, counter, counter', small, few),
    )
