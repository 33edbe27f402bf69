-- ===== src/Handshake.antt =====
-- src/hotline/handshake.c: the exchange that opens a connection. A peer is the bytes that it has yet
-- to send before it closes the connection, and the bytes that it takes before a write to it fails.
-- `read_full` and `write_full` retry a short read or write, so they move all the bytes or fail.
pub mod Exchange
mod Tests
use lemoniscate.Common.{
  ℕ, Bool, ◌&&◌, ◌==◌, leb, if◌then◌else◌, bytes_eq, List, [], ◌∷◌, take, drop, length,
}
use lemoniscate.Common.{Outcome, ok, fail, require, ◌>>=◌, ◌>>◌}
use lemoniscate.Conn.{conn_read_full, conn_write_all}
use lemoniscate.Wire.{Bytes2, Bytes4, eq4, bytes2_at, bytes4_at}

abbrev pub proto_trtp : Bytes4
proto_trtp = (0x54, 0x52, 0x54, 0x50)

abbrev pub proto_hotl : Bytes4
proto_hotl = (0x48, 0x4f, 0x54, 0x4c)

abbrev pub client_handshake : List ℕ
client_handshake = 0x54 ∷ 0x52 ∷ 0x54 ∷ 0x50 ∷ 0x48 ∷ 0x4f ∷ 0x54 ∷ 0x4c ∷ 0 ∷ 1 ∷ 0 ∷ 2 ∷ []

abbrev pub server_handshake_response : List ℕ
server_handshake_response = 0x54 ∷ 0x52 ∷ 0x54 ∷ 0x50 ∷ 0 ∷ 0 ∷ 0 ∷ 0 ∷ []

-- `hl_handshake_t`
pub record Handshake : Type 0 where
  pub protocol : Bytes4
  pub sub_protocol : Bytes4
  pub version : Bytes2
  pub sub_version : Bytes2

unfoldable pub parse : List ℕ → ℕ → Outcome Handshake
parse buf buf_len = do
  require (buf_len == 12)
  protocol ← bytes4_at buf 0
  sub_protocol ← bytes4_at buf 4
  version ← bytes2_at buf 8
  sub_version ← bytes2_at buf 10
  ok (record {
    protocol = protocol;
    sub_protocol = sub_protocol;
    version = version;
    sub_version = sub_version;
  })

unfoldable pub valid : Handshake → Bool
valid h = eq4 h.protocol proto_trtp && eq4 h.sub_protocol proto_hotl

-- The bytes read, and what the peer has yet to send.
unfoldable pub read_full : List ℕ → ℕ → Outcome (List ℕ × List ℕ)
read_full input n = if leb n (length input) then ok (take n input, drop n input) else fail

-- What was written; `room` is how many bytes the peer still takes before a write to it fails.
unfoldable pub write_full : ℕ → List ℕ → Outcome (List ℕ)
write_full room bytes = if leb (length bytes) room then ok bytes else fail

-- What the server writes, and what the peer has yet to send.
unfoldable pub perform_server : List ℕ → ℕ → Outcome (List ℕ × List ℕ)
perform_server input room = do
  (buf, rest) ← read_full input 12
  h ← parse buf 12
  require (valid h)
  written ← write_full room server_handshake_response
  ok (written, rest)

-- The same over the wrapper of a connection.
unfoldable pub perform_server_conn : List ℕ → ℕ → Outcome (List ℕ × List ℕ)
perform_server_conn conn room = do
  (buf, rest) ← conn_read_full conn 12
  h ← parse buf 12
  require (valid h)
  written ← conn_write_all room server_handshake_response
  ok (written, rest)

-- What the client writes, and what the server has yet to send.
unfoldable pub perform_client : List ℕ → ℕ → Outcome (List ℕ × List ℕ)
perform_client input room = do
  written ← write_full room client_handshake
  (reply, rest) ← read_full input 8
  require (bytes_eq reply server_handshake_response)
  ok (written, rest)
