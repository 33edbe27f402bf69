-- ===== src/Hope/Frame/RoundTrip.antt =====
-- Frames that are scanned and opened.
use lemoniscate.Common.{
  ℕ, suc, ◌+◌, ◌-◌, ◌%◌, ◌^◌, ◌≤◌, ◌<◌, ◌≡◌, ◌≢◌, refl, ap, ◌∙◌, arith, Option, none, some, le→leb,
}
use lemoniscate.Common.{
  List, ◌++◌, append_assoc, take, drop, length, length-append, take-append_len, drop-append_len,
  drop-append_ge, ok, fault,
}
use lemoniscate.Common.Int.{pos}
use lemoniscate.Wire.{Bytes4, write_u32, read_u32, list4, bytes4_at, bytes_at, first4}
use lemoniscate.Wire.Integers.{read_u32-write_u32}
use lemoniscate.Wire.Reads.{bytes_at_lem, bytes4_at_total}
use lemoniscate.Crypto.Aead.{chacha20_poly1305_encrypt}
use lemoniscate.Crypto.Aead.Laws.{decrypt-encrypt, length-encrypt}
use lemoniscate.Hope.Stream.Cases.{not_less}
use lemoniscate.Hope.Frame.{
  Aead, frame, aead_build_nonce, client_to_server, aead_scan_frame, aead_decrypt_frame, opened,
}

module _ (key : List ℕ) (direction counter : ℕ) (tx : List ℕ)
    (short : length tx + 16 < 2 ^ 32) where
  abbrev sealed : List ℕ × List ℕ
  sealed = chacha20_poly1305_encrypt key (aead_build_nonce direction counter) tx

  ciphertext_len : length sealed.0 ≡ length tx
  ciphertext_len = (length-encrypt key (aead_build_nonce direction counter) tx).0

  tag_len : length sealed.1 ≡ 16
  tag_len = (length-encrypt key (aead_build_nonce direction counter) tx).1

  pub length-frame : length (frame key direction counter tx) ≡ 20 + length tx
  unfolding frame
  length-frame = omega (arith, length-append sealed.0 sealed.1, ciphertext_len, tag_len)

  prefix_at :
      (rest : List ℕ)
      → bytes4_at (frame key direction counter tx ++ rest) 0
        ≡ ok (write_u32 ((length tx + 16) % 2 ^ 32))
  unfolding frame bytes4_at first4
  prefix_at rest = refl

  payload_len : read_u32 (write_u32 ((length tx + 16) % 2 ^ 32)) ≡ length tx + 16
  payload_len = omega (arith, read_u32-write_u32 ((length tx + 16) % 2 ^ 32) (omega arith))

  ciphertext_at :
      (rest : List ℕ)
      → bytes_at (frame key direction counter tx ++ rest) 4 (length tx) ≡ ok sealed.0
  unfolding frame
  ciphertext_at rest =
      bytes_at_lem (frame key direction counter tx ++ rest) 4 (length tx)
        (omega (arith, length-append (frame key direction counter tx) rest, length-frame))
      ∙ ap (λ l. ok (take (length tx) l)) (append_assoc sealed.0 sealed.1 rest)
      ∙ ap ok (take-append_len (length tx) sealed.0 (sealed.1 ++ rest) ciphertext_len)

  tag_at :
      (rest : List ℕ)
      → bytes_at (frame key direction counter tx ++ rest) (4 + length tx) 16 ≡ ok sealed.1
  unfolding frame
  tag_at rest =
      bytes_at_lem (frame key direction counter tx ++ rest) (4 + length tx) 16
        (omega (arith, length-append (frame key direction counter tx) rest, length-frame))
      ∙ ap (λ l. ok (take 16 l))
          (drop_prefix (length tx)
            ∙ ap (drop (length tx)) (append_assoc sealed.0 sealed.1 rest)
            ∙ drop-append_len (length tx) sealed.0 (sealed.1 ++ rest) ciphertext_len)
      ∙ ap ok (take-append_len 16 sealed.1 rest tag_len)
    where
      drop_prefix :
          (n : ℕ)
          → drop (4 + n) (frame key direction counter tx ++ rest)
            ≡ drop n ((sealed.0 ++ sealed.1) ++ rest)
      drop_prefix n =
          drop-append_ge (4 + n) (list4 (write_u32 ((length tx + 16) % 2 ^ 32)))
            ((sealed.0 ++ sealed.1) ++ rest) (omega arith)
          ∙ ap (λ k. drop k ((sealed.0 ++ sealed.1) ++ rest)) (omega arith)

  -- A frame in the read buffer, whatever follows it, is found whole if it is not above the limit.
  pub aead_scan_frame-frame :
      (rest : List ℕ) (max_frame_size : ℕ)
      → 20 + length tx ≤ max_frame_size
      → aead_scan_frame (frame key direction counter tx ++ rest) max_frame_size
        ≡ ok (pos (20 + length tx))
  unfolding aead_scan_frame
  aead_scan_frame-frame rest max_frame_size m =
      let total = length-append (frame key direction counter tx) rest in
      rw
        (
          not_less (length (frame key direction counter tx ++ rest)) 4
              (omega (arith, total, length-frame)),
          prefix_at rest,
          payload_len,
        )
        (rw
          (
            not_less (length tx + 16) 16 (omega arith),
            not_less max_frame_size (4 + (length tx + 16)) (omega arith),
            not_less (length (frame key direction counter tx ++ rest)) (4 + (length tx + 16))
                (omega (arith, total, length-frame)),
          )
          (ap (λ (n : ℕ). ok (pos n)) (omega arith)))

-- The frame that the client seals under the key and the counter that the server expects is found and
-- opened to what the client sent, and the counter moves on by one.
pub aead_decrypt_frame-frame :
    (a : Aead) (tx rest : List ℕ)
    → length tx + 16 < 2 ^ 32
    → aead_decrypt_frame a
        (frame a.decode_key client_to_server a.recv_counter tx ++ rest)
        (20 + length tx)
      ≡ ok (
        record {
          encode_key = a.encode_key;
          decode_key = a.decode_key;
          send_counter = a.send_counter;
          recv_counter = (a.recv_counter + 1) % 2 ^ 64;
        },
        tx,
      )
unfolding aead_decrypt_frame opened
aead_decrypt_frame-frame a tx rest short =
    rw
      (
        le→leb 20 (20 + length tx) (omega arith),
        prefix_at a.decode_key client_to_server a.recv_counter tx short rest,
        payload_len a.decode_key client_to_server a.recv_counter tx short,
      )
      (rw
        (
          le→leb 16 (length tx + 16) (omega arith),
          (let e : length tx + 16 - 16 ≡ length tx = omega arith in e),
        )
        (rw
          (
            ciphertext_at a.decode_key client_to_server a.recv_counter tx short rest,
            tag_at a.decode_key client_to_server a.recv_counter tx short rest,
          )
          (ap (opened a)
            (decrypt-encrypt a.decode_key (aead_build_nonce client_to_server a.recv_counter) tx))))

-- What the scan has seen of a frame that it reports.
scan_found :
    (buf : List ℕ) (max_frame_size n : ℕ) (b : Bytes4)
    → bytes4_at buf 0 ≡ ok b
    → 4 ≤ length buf
    → aead_scan_frame buf max_frame_size ≡ ok (pos (suc n))
    → (16 ≤ read_u32 b) × (suc n ≡ 4 + read_u32 b) × (4 + read_u32 b ≤ length buf)
unfolding aead_scan_frame
scan_found buf max_frame_size n b e l h = ground arith

scan_long :
    (buf : List ℕ) (max_frame_size n : ℕ)
    → aead_scan_frame buf max_frame_size ≡ ok (pos (suc n))
    → 4 ≤ length buf
unfolding aead_scan_frame
scan_long buf max_frame_size n h = ground arith

opened-ne-fault : (a : Aead) (o : Option (List ℕ)) → opened a o ≢ fault
unfolding opened
opened-ne-fault a none = λ e. cc
opened-ne-fault a (some plaintext) = λ e. cc

-- A frame that the scan has found is opened without an access outside the buffer, whatever its bytes:
-- the length in it is not below that of a tag, and does not reach beyond what was received.
pub aead_decrypt_frame-ne-fault :
    (a : Aead) (buf : List ℕ) (max_frame_size n : ℕ)
    → aead_scan_frame buf max_frame_size ≡ ok (pos (suc n))
    → aead_decrypt_frame a buf (suc n) ≢ fault
unfolding aead_decrypt_frame
aead_decrypt_frame-ne-fault a buf max_frame_size n h =
    let (b, e) = bytes4_at_total buf 0 (scan_long buf max_frame_size n h) in
    let (low, size, high) =
      scan_found buf max_frame_size n b e (scan_long buf max_frame_size n h) h in
    let v = read_u32 b in
    let two = bytes_at_lem buf 4 (v - 16) (omega arith) in
    let three = bytes_at_lem buf (4 + (v - 16)) 16 (omega arith) in
    rw (le→leb 20 (suc n) (omega arith), e)
      (rw (le→leb 16 v low) (rw (two, three) (opened-ne-fault a _)))
