-- ===== src/FileTransfer/Tests.antt =====
-- Runs of the transfer manager and instances of its theorems, on two slots.
use lemoniscate.Common.{refl, true, List, [], ◌∷◌}
use lemoniscate.Wire.{Bytes4}
use lemoniscate.FileTransfer.{Transfer, unused, get}
use lemoniscate.FileTransfer.Laws.{Distinct}

abbrev ref : Bytes4
ref = (1, 2, 3, 4)

abbrev waiting : Transfer
waiting = record unused { ref_num = (9, 9, 9, 9); active = true; file_name = 97 ∷ [] }

abbrev slots : List Transfer
slots = waiting ∷ unused ∷ []

slots-Distinct : Distinct slots
unfolding get
slots-Distinct = ((λ a. refl), ((λ a. refl), tt))
