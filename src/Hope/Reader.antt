-- ===== src/Hope/Reader.antt =====
-- src/hotline/hope.c, the reader of file transfers over AEAD frames. The connection is the list of
-- the bytes that the peer has yet to send; a read past its end fails.
pub mod Delivery
mod Tests
use lemoniscate.Common.{
  ℕ, zero, suc, ◌+◌, ◌-◌, ◌*◌, ◌%◌, ◌^◌, Bool, leb, ltb, if◌then◌else◌, ◌&&◌, ◌==◌, Option, none,
  some, min,
}
use lemoniscate.Common.{
  List, [], ◌∷◌, ◌++◌, take, drop, length, Outcome, ok, fail, fault, ◌>>=◌, ◌>>◌, require,
}
use lemoniscate.Wire.{read_u32, bytes4_at}
use lemoniscate.Conn.{conn_read_full}
use lemoniscate.Hope.Frame.{aead_build_nonce, client_to_server}
use lemoniscate.Crypto.Aead.{chacha20_poly1305_decrypt}

-- `buffer_len` is the length of the buffer.
pub record Reader : Type 0 where
  pub conn : List ℕ
  pub key : List ℕ
  pub recv_counter : ℕ
  pub buffer : List ℕ
  pub buffer_off : ℕ

abbrev pub aead_reader_init : List ℕ → List ℕ → Reader
aead_reader_init conn key = record {
  conn = conn;
  key = key;
  recv_counter = 0;
  buffer = [];
  buffer_off = 0;
}

-- The state behind a frame whose tag fits.
unfoldable pub filled : Reader → List ℕ → Option (List ℕ) → Outcome Reader
filled r conn none = fail
filled r conn (some plaintext) = ok (record {
  conn = conn;
  key = r.key;
  recv_counter = (r.recv_counter + 1) % 2 ^ 64;
  buffer = plaintext;
  buffer_off = 0;
})

module _ (malloc : ℕ → Bool) where
  unfoldable pub aead_reader_fill : Reader → Outcome Reader
  aead_reader_fill r = do
    (len_buf, conn) ← conn_read_full r.conn 4
    prefix ← bytes4_at len_buf 0
    let payload_len = read_u32 prefix
    require (leb 16 payload_len && leb payload_len (16 * 1024 * 1024))
    require (malloc payload_len)
    (frame_data, conn) ← conn_read_full conn payload_len
    let ct_len = payload_len - 16
    require (malloc ct_len)
    filled r conn (
        chacha20_poly1305_decrypt r.key (aead_build_nonce client_to_server r.recv_counter)
          (take ct_len frame_data) (take 16 (drop ct_len frame_data)))

  abbrev pub moved : Reader → ℕ → Reader
  moved r n = record {
    conn = r.conn;
    key = r.key;
    recv_counter = r.recv_counter;
    buffer = r.buffer;
    buffer_off = r.buffer_off + n;
  }

  -- The loop for the `len` bytes that are still to be read, with fuel for its rounds.
  unfoldable pub read_from : ℕ → Reader → ℕ → Outcome (Reader × List ℕ)
  read_from fuel r zero = ok (r, [])
  read_from zero r (suc len) = fail
  read_from (suc fuel) r (suc len) =
      let avail = length r.buffer - r.buffer_off in
      let to_copy = min (suc len) avail in
      if ltb 0 avail
      then (do
        (r', out) ← read_from fuel (moved r to_copy) (suc len - to_copy)
        ok (r', take to_copy (drop r.buffer_off r.buffer) ++ out))
      else (do r' ← aead_reader_fill r; read_from fuel r' (suc len))

  -- A round either copies a byte at least or consumes a frame of 20 bytes at least.
  unfoldable pub aead_reader_read_full : Reader → ℕ → Outcome (Reader × List ℕ)
  aead_reader_read_full r len = read_from (len + length r.conn) r len

  unfoldable pub copy_some : Reader → ℕ → Reader × List ℕ
  copy_some r len =
      let to_copy = min len (length r.buffer - r.buffer_off) in
      (moved r to_copy, take to_copy (drop r.buffer_off r.buffer))

  unfoldable pub aead_reader_read : Reader → ℕ → Outcome (Reader × List ℕ)
  aead_reader_read r len =
      if length r.buffer == r.buffer_off
      then (do r' ← aead_reader_fill r; ok (copy_some r' len))
      else ok (copy_some r len)
