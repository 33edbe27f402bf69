-- ===== src/ClientManager/Tests.antt =====
-- Runs of the client manager and instances of its theorems.
use lemoniscate.Common.{◌≡◌, refl, arith, true, false, some, List, [], ◌∷◌}
use lemoniscate.Wire.{write_u16, type_eq}
use lemoniscate.ClientManager.{
  Client, Manager, mem_client_mgr_new, get, add, del, Call, add_call, del_call, calls,
}
use lemoniscate.ClientManager.Lookup.{Distinct}
use lemoniscate.ClientManager.Invariant.{IsValid, calls-IsValid_client}
use lemoniscate.ClientManager.Wrap.{add_reuses_id}

abbrev first : Client
first = record { conn = 70; id = (0, 1) }

abbrev second : Client
second = record { conn = 71; id = (0, 2) }

abbrev two_clients : Manager
two_clients = record { clients = second ∷ first ∷ []; next_id = 2 }

abbrev script : List Call
script = add_call true 70 ∷ add_call true 71 ∷ add_call false 72 ∷ del_call (0, 1) ∷ []

script_run : calls mem_client_mgr_new script ≡ record { clients = second ∷ []; next_id = 3 }
unfolding calls lemoniscate.ClientManager.call del lemoniscate.ClientManager.unlink add type_eq
    mem_client_mgr_new write_u16
script_run = refl

two_clients-Distinct : Distinct two_clients.clients
unfolding lemoniscate.ClientManager.find type_eq
two_clients-Distinct = (refl, (refl, tt))

calls-IsValid_client_example : IsValid (calls mem_client_mgr_new script)
calls-IsValid_client_example = calls-IsValid_client script (omega arith)

-- The first client is still connected when the 65537th arrives.
abbrev late : Manager
late = record { clients = first ∷ []; next_id = 65536 }

add_reuses_id_example :
    ((add true late 99).1.id ≡ first.id)
    × (get (add true late 99).0 first.id ≡ some (add true late 99).1)
add_reuses_id_example = add_reuses_id late first 1 99 (unfold write_u16 in refl) refl
