-- ===== src/ClientManager/Invariant.antt =====
-- The ids of the clients under the calls of the manager; the id 0 means "no particular client"
-- elsewhere.
use lemoniscate.Common.{
  ℕ, ◌+◌, ◌%◌, ◌^◌, ◌≤◌, ◌<◌, ◌≡◌, refl, arith, ap, ◌∙◌, Bool, true, false, Bool-cases, inl, inr,
}
use lemoniscate.Common.{none, List, [], ◌∷◌, All, length}
use lemoniscate.Wire.{Bytes2, read_u16, write_u16, type_eq, type_eq→eq}
use lemoniscate.Wire.Integers.{read_u16-write_u16}
use lemoniscate.ClientManager.{
  Client, Manager, mem_client_mgr_new, find, drawn_id, add, unlink, del,
}
use lemoniscate.ClientManager.{Call, add_call, del_call, call, calls}
use lemoniscate.ClientManager.Lookup.{Distinct, Distinct-unlink}

-- An id that the counter has passed, and not 0.
abbrev pub WasDrawn : ℕ → Client → Type 0
WasDrawn n c = (1 ≤ read_u16 c.id) × (read_u16 c.id ≤ n)

pub record IsValid (m : Manager) : Type 0 where
  pub distinct : Distinct m.clients
  pub drawn : All (WasDrawn m.next_id) m.clients

undrawn :
    (cs : List Client) (n : ℕ) (id : Bytes2)
    → All (WasDrawn n) cs
    → n < read_u16 id
    → find cs id ≡ none
unfolding find
undrawn [] n id w h = refl
undrawn (c ∷ cs) n id w h = ground (arith, undrawn cs n id w.1 h, type_eq→eq c.id id, ap read_u16)

All-later : (cs : List Client) (n k : ℕ) → n ≤ k → All (WasDrawn n) cs → All (WasDrawn k) cs
All-later [] n k h w = tt
All-later (c ∷ cs) n k h w = (omega arith, All-later cs n k h w.1)

All-unlink :
    (cs : List Client) (n : ℕ) (id : Bytes2) → All (WasDrawn n) cs → All (WasDrawn n) (unlink cs id)
unfolding unlink
All-unlink [] n id w = tt
All-unlink (c ∷ cs) n id w = elim (Bool-cases (type_eq c.id id)) [
  | inl here ↦ rw here w.1
  | inr there ↦ rw there (w.0, All-unlink cs n id w.1)
]

add-IsValid :
    (m : Manager)
    → IsValid m
    → (serves : Bool) (conn : ℕ) → m.next_id < 65535
    → IsValid (add serves m conn).0
unfolding add
add-IsValid m v true conn small =
    let n : read_u16 (write_u16 ((m.next_id + 1) % 2 ^ 16)) ≡ m.next_id + 1 =
      read_u16-write_u16 ((m.next_id + 1) % 2 ^ 16) (omega arith) ∙ omega arith in
    let next : (m.next_id + 1) % 2 ^ 32 ≡ m.next_id + 1 = omega arith in
    record {
      distinct = (undrawn m.clients m.next_id (drawn_id m) v.drawn (omega (arith, n)), v.distinct);
      drawn = (
        omega (arith, n),
        All-later m.clients m.next_id ((m.next_id + 1) % 2 ^ 32) (omega arith) v.drawn,
      );
    }
add-IsValid m v false conn small =
    let next : (m.next_id + 1) % 2 ^ 32 ≡ m.next_id + 1 = omega arith in
    record {
      distinct = v.distinct;
      drawn = All-later m.clients m.next_id ((m.next_id + 1) % 2 ^ 32) (omega arith) v.drawn;
    }

-- A call moves the counter by at most one.
next_id-call : (m : Manager) (c : Call) → m.next_id < 65535 → (call m c).next_id ≤ m.next_id + 1
unfolding call add del
next_id-call m (add_call true conn) h = omega arith
next_id-call m (add_call false conn) h = omega arith
next_id-call m (del_call id) h = omega arith

call-IsValid : (m : Manager) (c : Call) → IsValid m → m.next_id < 65535 → IsValid (call m c)
unfolding call del
call-IsValid m (add_call serves conn) v h = add-IsValid m v serves conn h
call-IsValid m (del_call id) v h = record {
  distinct = Distinct-unlink m.clients id v.distinct;
  drawn = All-unlink m.clients m.next_id id v.drawn;
}

calls-IsValid :
    (cs : List Call) (m : Manager)
    → IsValid m
    → m.next_id + length cs < 65536
    → IsValid (calls m cs)
unfolding calls
calls-IsValid [] m v h = v
calls-IsValid (c ∷ cs) m v h =
    calls-IsValid cs (call m c) (call-IsValid m c v (omega arith))
      (omega (arith, next_id-call m c (omega arith)))

-- After any sequence of fewer than 65536 additions and deletions on a new manager, with and without
-- memory for the nodes: the clients' ids are pairwise different, none is 0, and none is above the
-- counter.
pub calls-IsValid_client :
    (cs : List Call) → length cs < 65536 → IsValid (calls mem_client_mgr_new cs)
unfolding mem_client_mgr_new
calls-IsValid_client cs h =
    calls-IsValid cs mem_client_mgr_new (record { distinct = tt; drawn = tt }) (omega arith)
