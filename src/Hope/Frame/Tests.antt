-- ===== src/Hope/Frame/Tests.antt =====
-- Instances of the theorems on frames.
use lemoniscate.Common.{
  ℕ, ◌+◌, ◌%◌, ◌^◌, ◌≡◌, ◌≢◌, refl, arith, List, [], ◌∷◌, ◌++◌, length, ok, fault,
}
use lemoniscate.Hope.Frame.{
  Aead, frame, client_to_server, server_to_client, aead_build_nonce, aead_encrypt_transaction,
  aead_decrypt_frame,
}
use lemoniscate.Hope.Frame.Nonce.{encrypt_all, aead_encrypt_transaction-fresh}
use lemoniscate.Hope.Frame.RoundTrip.{
  aead_decrypt_frame-frame, aead_decrypt_frame-ne-fault, aead_scan_frame-frame,
}

abbrev session : Aead
session = record { encode_key = 1 ∷ []; decode_key = 2 ∷ []; send_counter = 0; recv_counter = 5 }

abbrev hello : List ℕ
hello = 104 ∷ 101 ∷ 108 ∷ 108 ∷ 111 ∷ []

abbrev buffer : List ℕ
buffer = frame session.decode_key client_to_server session.recv_counter hello ++ 0 ∷ 0 ∷ []

abbrev counted : ℕ → Aead
counted n = record { encode_key = 1 ∷ []; decode_key = 2 ∷ []; send_counter = n; recv_counter = 5 }

aead_encrypt_transaction-fresh_example :
    (frame (1 ∷ []) server_to_client 0 hello ≡ frame (1 ∷ []) server_to_client 0 hello)
    × (frame (1 ∷ []) server_to_client 2 hello ≡ frame (1 ∷ []) server_to_client 2 hello)
    × (aead_build_nonce server_to_client 0 ≢ aead_build_nonce server_to_client 2)
unfolding aead_encrypt_transaction encrypt_all
aead_encrypt_transaction-fresh_example =
    aead_encrypt_transaction-fresh (counted 0) (counted 1) (counted 2) (counted 3) hello
      (frame (1 ∷ []) server_to_client 0 hello) ((7 ∷ []) ∷ []) hello
      (frame (1 ∷ []) server_to_client 2 hello) 100 (omega arith) (omega arith) refl refl refl

aead_decrypt_frame-frame_example :
    aead_decrypt_frame session buffer (20 + length hello)
    ≡ ok (
      record {
        encode_key = 1 ∷ [];
        decode_key = 2 ∷ [];
        send_counter = 0;
        recv_counter = (5 + 1) % 2 ^ 64;
      },
      hello,
    )
aead_decrypt_frame-frame_example = aead_decrypt_frame-frame session hello (0 ∷ 0 ∷ []) (omega arith)

aead_decrypt_frame-ne-fault_example : aead_decrypt_frame session buffer 25 ≢ fault
aead_decrypt_frame-ne-fault_example = aead_decrypt_frame-ne-fault session buffer 65536 24 (
    aead_scan_frame-frame session.decode_key client_to_server session.recv_counter hello
      (omega arith) (0 ∷ 0 ∷ []) 65536 (omega arith))
