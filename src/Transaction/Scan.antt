-- ===== src/Transaction/Scan.antt =====
-- Finding the end of a frame in a stream.
use lemoniscate.Common.{ℕ, ◌≡◌, arith, List, ◌++◌, ok, if◌then◌else◌, leb}
use lemoniscate.Common.Int.{pos, int_of-small}
use lemoniscate.Wire.{bytes4_at, first4}
use lemoniscate.Wire.Integers.{read_u32-write_u32}
use lemoniscate.Transaction.{Transaction, IsWellFormed, Platform, scan, wire_size, payload_size}
use lemoniscate.Transaction.RoundTrip.{image, wire_size_bounds, not_too_large, payload_bound}

-- In front of whatever follows it, a whole transaction is found with its size on the wire; of a
-- stated length that cuts it short, the scan asks for more once the 16 bytes up to TotalSize are
-- there, and before.
pub scan-image :
    {t : Transaction} (w : IsWellFormed t) (p : Platform) (rest : List ℕ) (buf_len : ℕ)
    → scan p (image t ++ rest) buf_len
      ≡ ok (if leb (wire_size t) buf_len then pos (wire_size t) else pos 0)
unfolding scan bytes4_at first4 wire_size
scan-image {t} w p rest buf_len = ground (
  arith,
  read_u32-write_u32 (payload_size t),
  payload_bound w,
  not_too_large w p,
  wire_size_bounds w,
  int_of-small (wire_size t),
)
