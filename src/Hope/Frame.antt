-- ===== src/Hope/Frame.antt =====
-- src/hotline/hope.c, the frames of the AEAD transport: a length of 4 bytes, the ciphertext and the
-- tag, with a counter for each direction in the nonce.
pub mod Nonce
pub mod RoundTrip
mod Tests
use lemoniscate.Common.{
  ℕ, zero, suc, ◌+◌, ◌-◌, ◌/◌, ◌%◌, ◌^◌, Bool, true, false, leb, ltb, if◌then◌else◌, Option, none,
  some,
}
use lemoniscate.Common.{
  List, [], ◌∷◌, ◌++◌, take, drop, length, Outcome, ok, fail, fault, ◌>>=◌, ◌>>◌, require, within,
}
use lemoniscate.Common.Int.{ℤ, pos, negsuc}
use lemoniscate.Wire.{write_u32, read_u32, list4, bytes4_at, bytes_at}
use lemoniscate.Crypto.Aead.{chacha20_poly1305_encrypt, chacha20_poly1305_decrypt}

-- What the two directions use of hl_hope_aead_state_t.
pub record Aead : Type 0 where
  pub encode_key : List ℕ
  pub decode_key : List ℕ
  pub send_counter : ℕ
  pub recv_counter : ℕ

abbrev pub server_to_client : ℕ
server_to_client = 0

abbrev pub client_to_server : ℕ
client_to_server = 1

unfoldable pub aead_build_nonce : ℕ → ℕ → List ℕ
aead_build_nonce direction counter =
    direction
    ∷ 0
    ∷ 0
    ∷ 0
    ∷ counter / 2 ^ 56 % 256
    ∷ counter / 2 ^ 48 % 256
    ∷ counter / 2 ^ 40 % 256
    ∷ counter / 2 ^ 32 % 256
    ∷ counter / 2 ^ 24 % 256
    ∷ counter / 2 ^ 16 % 256
    ∷ counter / 2 ^ 8 % 256
    ∷ counter % 256
    ∷ []

-- A frame of the plaintext for a direction.
unfoldable pub frame : List ℕ → ℕ → ℕ → List ℕ → List ℕ
frame key direction counter tx =
    let sealed = chacha20_poly1305_encrypt key (aead_build_nonce direction counter) tx in
    let frame_payload = (length tx + 16) % 2 ^ 32 in
    list4 (write_u32 frame_payload) ++ (sealed.0 ++ sealed.1)

-- The frame, whose length is what the function returns, and the state after it.
unfoldable pub aead_encrypt_transaction : Aead → List ℕ → ℕ → Outcome (Aead × List ℕ)
aead_encrypt_transaction a tx out_buf_size = do
  require (leb (4 + length tx + 16) out_buf_size)
  ok (
    record {
      encode_key = a.encode_key;
      decode_key = a.decode_key;
      send_counter = (a.send_counter + 1) % 2 ^ 64;
      recv_counter = a.recv_counter;
    },
    frame a.encode_key server_to_client a.send_counter tx,
  )

-- The length of the frame at the start of the buffer; 0 for more bytes to wait for, -1 for a frame
-- that cannot be.
unfoldable pub aead_scan_frame : List ℕ → ℕ → Outcome ℤ
aead_scan_frame buf max_frame_size = if ltb (length buf) 4 then ok (pos 0) else (do
  prefix ← bytes4_at buf 0
  let payload_len = read_u32 prefix
  let total = 4 + payload_len
  if ltb payload_len 16
      then ok (negsuc 0)
      else if ltb max_frame_size total
      then ok (negsuc 0)
      else if ltb (length buf) total
      then ok (pos 0)
      else ok (pos total))

-- What the outcome of the AEAD leaves: -1 for a tag that does not fit, with the state as it was.
unfoldable pub opened : Aead → Option (List ℕ) → Outcome (Aead × List ℕ)
opened a none = fail
opened a (some plaintext) = ok (
  record {
    encode_key = a.encode_key;
    decode_key = a.decode_key;
    send_counter = a.send_counter;
    recv_counter = (a.recv_counter + 1) % 2 ^ 64;
  },
  plaintext,
)

-- `payload_len - 16` wraps around below 16, and the ciphertext then lies outside of every buffer.
unfoldable pub aead_decrypt_frame : Aead → List ℕ → ℕ → Outcome (Aead × List ℕ)
aead_decrypt_frame a buf frame_len = do
  require (leb 20 frame_len)
  prefix ← bytes4_at buf 0
  let payload_len = read_u32 prefix
  within (leb 16 payload_len)
  let ct_len = payload_len - 16
  ciphertext ← bytes_at buf 4 ct_len
  tag ← bytes_at buf (4 + ct_len) 16
  opened a (
      chacha20_poly1305_decrypt a.decode_key (aead_build_nonce client_to_server a.recv_counter)
        ciphertext tag)
