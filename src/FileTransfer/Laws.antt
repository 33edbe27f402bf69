-- ===== src/FileTransfer/Laws.antt =====
-- The manager as a map from reference numbers to transfers.
use lemoniscate.Common.{◌≡◌, arith, true, Bool-cases, inl, inr, if◌then◌else◌}
use lemoniscate.Common.{none, List, [], ◌∷◌}
use lemoniscate.Wire.{Bytes4, eq4, eq4→eq, eq4_sym}
use lemoniscate.FileTransfer.{Transfer, has_ref, get, del}

-- No two transfers in use have one reference number.
abbrev pub Distinct : List Transfer → Type 0
Distinct [] = Unit
Distinct (t ∷ ts) = (t.active ≡ true → get ts t.ref_num ≡ none) × Distinct ts

-- Where transfers in use have distinct reference numbers, a deleted number is found no more, and
-- every other number as before.
pub get-del_transfer :
    (ts : List Transfer) (id j : Bytes4)
    → Distinct ts
    → get (del ts id) j ≡ (if eq4 j id then none else get ts j)
unfolding get del
get-del_transfer [] id j d = ground arith
get-del_transfer (t ∷ ts) id j d = elim (Bool-cases (has_ref t id)) [
  | inl here ↦ ground (arith, here, eq4→eq t.ref_num id, eq4→eq j id, eq4_sym id j, d.0)
  | inr there ↦ ground (arith, there, get-del_transfer ts id j d.1, eq4→eq j id)
]
