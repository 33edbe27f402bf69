-- ===== src/ClientManager/Wrap.antt =====
-- Ids as 16 bits of a longer counter.
use lemoniscate.Common.{ℕ, ◌+◌, ◌%◌, ◌^◌, ◌≡◌, arith, ap, sym, ◌∙◌, true, some}
use lemoniscate.Wire.{write_u16, type_eq_refl}
use lemoniscate.ClientManager.{Client, Manager, get, add, drawn_id}
use lemoniscate.ClientManager.Lookup.{get-add}

-- A client that got its id as the k-th one loses it to the client that is added when 65536 further
-- ids have been drawn, whether or not it is still connected: both have the same id, and the
-- manager answers for that id with the newer one. The 65536th id is 0.
pub add_reuses_id :
    (m : Manager) (old : Client) (k conn : ℕ)
    → old.id ≡ write_u16 (k % 2 ^ 16)
    → m.next_id + 1 ≡ k + 65536
    → ((add true m conn).1.id ≡ old.id)
      × (get (add true m conn).0 old.id ≡ some (add true m conn).1)
unfolding add
add_reuses_id m old k conn e h =
    let same : drawn_id m ≡ old.id =
      ap (λ n. write_u16 n) (let r : (m.next_id + 1) % 2 ^ 16 ≡ k % 2 ^ 16 = omega arith in r)
      ∙ sym e in
    (same, ground (arith, get-add m conn old.id, same, type_eq_refl old.id))
