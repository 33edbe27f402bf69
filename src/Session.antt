-- ===== src/Session.antt =====
-- src/hotline/server.c: how a connection's bytes become transactions. `read_login` is the part of
-- `handle_new_connection` that reads the login; `pump` is the framing loop of `process_client_data`
-- for a connection without HOPE encryption. Dispatch to the handlers is what `pump` delivers: the
-- transactions, in the order of their dispatch.
pub mod Safety
pub mod Framing
pub mod Reads
pub mod Login
pub mod Sealed
mod Tests
use lemoniscate.Common.{ℕ, zero, suc, ◌+◌, ◌-◌, min, Bool, ◌&&◌, leb, ltb, if◌then◌else◌}
use lemoniscate.Common.{
  List, [], ◌∷◌, ◌++◌, take, drop, length, Outcome, ok, fail, fault, require, within, ◌>>=◌, ◌>>◌,
}
use lemoniscate.Common.Int.{ℤ, pos, negsuc}
use lemoniscate.Wire.{read_u32, bytes4_at}
use lemoniscate.Conn.{conn_read_full}
use lemoniscate.Transaction
use lemoniscate.Transaction.{Transaction, Platform}

-- The read buffer holds 65536 bytes.
abbrev pub read_buf_size : ℕ
read_buf_size = 65536

-- One round of the framing loop: it ends with these bytes buffered, or it dispatches a transaction
-- and consumes this many bytes.
pub data Round : Type 0 where
  stop : List ℕ → Round
  frame : Transaction → ℕ → Round

-- After a round: the loop ends, or goes on with what is behind the bytes consumed.
abbrev pub resume :
    (List ℕ → Outcome (List Transaction × List ℕ))
    → List ℕ
    → Round
    → Outcome (List Transaction × List ℕ)
resume loop buf (stop rest) = ok ([], rest)
resume loop buf (frame t n) = do (ts, rest) ← loop (drop n buf); ok (t ∷ ts, rest)

module _ (p : Platform) (malloc : ℕ → Bool) where
  -- An error of the parser empties the buffer.
  unfoldable pub parsed : Outcome (Transaction × ℤ) → Outcome Round
  parsed (ok (t, pos consumed)) = ok (frame t consumed)
  parsed (ok (t, negsuc n)) = ok (stop [])
  parsed fail = ok (stop [])
  parsed fault = fault

  -- And so does an error of the scan, while 0 leaves the buffer as it is.
  unfoldable pub scanned : List ℕ → Outcome ℤ → Outcome Round
  scanned buf (ok (pos zero)) = ok (stop buf)
  scanned buf (ok (pos (suc n))) = parsed (Transaction.deserialize p malloc buf (suc n))
  scanned buf (ok (negsuc n)) = ok (stop [])
  scanned buf fail = ok (stop [])
  scanned buf fault = fault

  unfoldable pub round : List ℕ → Outcome Round
  round buf = scanned buf (Transaction.scan p buf (length buf))

  -- The loop, with fuel for its rounds: the transactions dispatched, and the bytes left in the buffer.
  unfoldable pub pump : ℕ → List ℕ → Outcome (List Transaction × List ℕ)
  pump zero buf = ok ([], buf)
  pump (suc fuel) [] = ok ([], [])
  pump (suc fuel) (b ∷ bs) = round (b ∷ bs) >>= resume (pump fuel) (b ∷ bs)

  -- `process_client_data` for a connection without encryption, which has these bytes buffered and on
  -- which these have arrived: one read, of as many as the buffer has room for, and the framing loop.
  -- It delivers the transactions dispatched, and the bytes that are buffered and that have not been
  -- read. `fail` disconnects the client; a read that a signal interrupts changes nothing.
  unfoldable pub process_client_data :
      List ℕ → List ℕ → Outcome (List Transaction × (List ℕ × List ℕ))
  process_client_data read_buf pending = do
    require (ltb (length read_buf) read_buf_size)
    let n = min (length pending) (read_buf_size - length read_buf)
    require (ltb 0 n)
    let buf = read_buf ++ take n pending
    (ts, rest) ← pump (length buf) buf
    ok (ts, (rest, drop n pending))

  -- A call of it for every arrival of bytes.
  unfoldable pub serve :
      List (List ℕ) → List ℕ → List ℕ → Outcome (List Transaction × (List ℕ × List ℕ))
  serve [] read_buf pending = ok ([], (read_buf, pending))
  serve (bytes ∷ arrivals) read_buf pending = do
    (ts, (read_buf', pending')) ← process_client_data read_buf (pending ++ bytes)
    (us, left) ← serve arrivals read_buf' pending'
    ok (ts ++ us, left)

  -- The login behind a header that was accepted: the allocation, the copy of the header into it, the
  -- rest of the bytes and the decoding.
  unfoldable pub read_rest : List ℕ → List ℕ → ℕ → Outcome ((Transaction × ℤ) × List ℕ)
  read_rest header input total_size = do
    let full_len = 20 + total_size
    require (malloc full_len)
    within (leb 22 full_len)
    (body, input) ←
        (if ltb 22 full_len then conn_read_full input (full_len - 22) else ok ([], input))
    login ← Transaction.deserialize p malloc (header ++ body) full_len
    ok (login, input)

  -- The login and what the peer has yet to send; `fail` closes the connection.
  unfoldable pub read_login : List ℕ → Outcome ((Transaction × ℤ) × List ℕ)
  read_login input = do
    (header, input) ← conn_read_full input 22
    total ← bytes4_at header 12
    let total_size = read_u32 total
    require (leb total_size 65535 && leb 2 total_size)
    read_rest header input total_size
