-- ===== src/FlatFile/Tests.antt =====
-- Runs of the information fork's parser and an instance of its theorem.
use lemoniscate.Common.{ℕ, ◌≡◌, ◌↔◌, refl, arith, List, ◌∷◌, ◌++◌, replicate, fail, fault}
use lemoniscate.Wire.{read_u16}
use lemoniscate.FlatFile.{info_fork_deserialize, ffo_deserialize}
use lemoniscate.FlatFile.Name.{info_fork_deserialize_fault_iff}

-- A fork of 202 bytes with a name of 128 characters.
abbrev long_name : List ℕ
long_name = replicate 70 0 ++ (0 ∷ 128 ∷ replicate 130 97)

no_header : ffo_deserialize long_name 20 ≡ fail
unfolding ffo_deserialize
no_header = refl

info_fork_deserialize_fault_iff_example :
    (info_fork_deserialize long_name 202 ≡ fault) ↔ (read_u16 (0, 128) ≡ 128)
info_fork_deserialize_fault_iff_example =
    info_fork_deserialize_fault_iff long_name 202 (omega arith) (0, 128) (omega arith)
      (unfold lemoniscate.Wire.bytes2_at lemoniscate.Wire.first2 in refl)
