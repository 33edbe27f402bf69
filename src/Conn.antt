-- ===== src/Conn.antt =====
-- src/hotline/platform/tls_openssl.c, the two calls of a connection that move all of their bytes or
-- fail. What comes in is the list of the bytes that the peer has yet to send, and `room` is how many
-- bytes the connection still takes before a write on it fails. The retries of a short or interrupted
-- call have no effect on either.
use lemoniscate.Common.{ℕ, leb, if◌then◌else◌, List, take, drop, length, Outcome, ok, fail}

-- The bytes read, and what the peer has yet to send.
unfoldable pub conn_read_full : List ℕ → ℕ → Outcome (List ℕ × List ℕ)
conn_read_full conn n = if leb n (length conn) then ok (take n conn, drop n conn) else fail

-- What was written.
unfoldable pub conn_write_all : ℕ → List ℕ → Outcome (List ℕ)
conn_write_all room bytes = if leb (length bytes) room then ok bytes else fail
