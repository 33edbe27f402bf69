-- ===== src/ClientManager/Lookup.antt =====
-- The manager as a map from ids to clients.
use lemoniscate.Common.{
  ℕ, ◌≡◌, refl, arith, true, Bool-cases, inl, inr, if◌then◌else◌, none, some, List, [], ◌∷◌,
}
use lemoniscate.Wire.{Bytes2, type_eq, type_eq→eq, type_eq_refl}
use lemoniscate.ClientManager.{Client, Manager, find, get, add, unlink, del}

type_eq_sym : (a b : Bytes2) → type_eq a b ≡ type_eq b a
unfolding type_eq
type_eq_sym (a0, a1) (b0, b1) = ground arith

-- Where memory is served, the client added is found under the id that it was given, and under every
-- other id the same client as before.
pub get-add :
    (m : Manager) (conn : ℕ) (j : Bytes2)
    → get (add true m conn).0 j
      ≡ (if type_eq (add true m conn).1.id j then some (add true m conn).1 else get m j)
unfolding get add find
get-add m conn j = refl

-- The ids of the clients are pairwise different.
abbrev pub Distinct : List Client → Type 0
Distinct [] = Unit
Distinct (c ∷ cs) = (find cs c.id ≡ none) × Distinct cs

find-unlink :
    (cs : List Client) (id j : Bytes2)
    → Distinct cs
    → find (unlink cs id) j ≡ (if type_eq id j then none else find cs j)
unfolding find unlink
find-unlink [] id j d = ground arith
find-unlink (c ∷ cs) id j d = elim (Bool-cases (type_eq c.id id)) [
  | inl here ↦ ground (arith, here, type_eq→eq c.id id, type_eq→eq id j, d.0)
  | inr there ↦ ground (
    arith,
    there,
    find-unlink cs id j d.1,
    type_eq→eq id j,
    type_eq→eq c.id j,
    type_eq_refl id,
    type_eq_sym c.id id,
  )
]

-- Where the clients' ids differ, a deleted id is found no more, and every other id as before.
pub get-del :
    (m : Manager) (id j : Bytes2)
    → Distinct m.clients
    → get (del m id) j ≡ (if type_eq id j then none else get m j)
unfolding get del
get-del m id j d = find-unlink m.clients id j d

pub Distinct-unlink : (cs : List Client) (id : Bytes2) → Distinct cs → Distinct (unlink cs id)
unfolding unlink
Distinct-unlink [] id d = tt
Distinct-unlink (c ∷ cs) id d = elim (Bool-cases (type_eq c.id id)) [
  | inl here ↦ rw here d.1
  | inr there ↦
      rw there (ground (arith, find-unlink cs id c.id d.1, d.0), Distinct-unlink cs id d.1)
]
