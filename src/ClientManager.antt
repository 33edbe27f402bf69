-- ===== src/ClientManager.antt =====
-- src/hotline/client_manager.c: the connected clients as a linked list, newest first, with the
-- counter that ids are drawn from. A client is its connection's pointer and the id that is written
-- into the connection; `next_id` is the bit pattern of the int32_t. The critical sections are under
-- the manager's mutex, and the counter is atomic.
pub mod Lookup
pub mod Invariant
pub mod Wrap
mod Tests
use lemoniscate.Common.{
  ℕ, ◌+◌, ◌-◌, ◌%◌, ◌^◌, Bool, ltb, if◌then◌else◌, Option, none, some, List, [], ◌∷◌,
}
use lemoniscate.Common.Int.{ℤ, pos, negsuc}
use lemoniscate.Wire.{Bytes2, read_u16, write_u16, type_eq}

pub record Client : Type 0 where
  pub conn : ℕ
  pub id : Bytes2

pub record Manager : Type 0 where
  pub clients : List Client
  pub next_id : ℕ

unfoldable pub mem_client_mgr_new : Manager
mem_client_mgr_new = record { clients = []; next_id = 0 }

-- `(ia > ib) - (ia < ib)`
unfoldable pub cmp_client_id : Client → Client → ℤ
cmp_client_id a b =
    if ltb (read_u16 b.id) (read_u16 a.id)
    then pos 1
    else (if ltb (read_u16 a.id) (read_u16 b.id) then negsuc 0 else pos 0)

-- `none` is NULL with a count of 0. `serves` says whether `malloc` succeeds, and `qsort` is the C
-- library's.
unfoldable pub list :
    ((Client → Client → ℤ) → List Client → List Client) → Bool → Manager → Option (List Client)
list qsort serves m = elim m.clients [
  | [] ↦ none
  | c ∷ cs ↦ if serves then some (qsort cmp_client_id (c ∷ cs)) else none
]

unfoldable pub find : List Client → Bytes2 → Option Client
find [] id = none
find (c ∷ cs) id = if type_eq c.id id then some c else find cs id

unfoldable pub get : Manager → Bytes2 → Option Client
get m id = find m.clients id

-- `(uint16_t)new_id`, as bytes.
abbrev pub drawn_id : Manager → Bytes2
drawn_id m = write_u16 ((m.next_id + 1) % 2 ^ 16)

-- The manager, and the client with its id.
unfoldable pub add : Bool → Manager → ℕ → Manager × Client
add serves m conn =
    let c : Client = record { conn = conn; id = drawn_id m } in
    let next : ℕ = (m.next_id + 1) % 2 ^ 32 in
    if serves
    then (record { clients = c ∷ m.clients; next_id = next }, c)
    else (record m { next_id = next }, c)

unfoldable pub unlink : List Client → Bytes2 → List Client
unlink [] id = []
unlink (c ∷ cs) id = if type_eq c.id id then cs else c ∷ unlink cs id

unfoldable pub del : Manager → Bytes2 → Manager
del m id = record m { clients = unlink m.clients id }

-- The entries of the manager's vtable that change its state.
pub data Call : Type 0 where
  add_call : Bool → ℕ → Call
  del_call : Bytes2 → Call

unfoldable pub call : Manager → Call → Manager
call m (add_call serves conn) = (add serves m conn).0
call m (del_call id) = del m id

unfoldable pub calls : Manager → List Call → Manager
calls m [] = m
calls m (c ∷ cs) = calls (call m c) cs
