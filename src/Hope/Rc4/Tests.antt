-- ===== src/Hope/Rc4/Tests.antt =====
-- The published test vector of RC4 for the key "Key" and the text "Plaintext".
use lemoniscate.Common.{◌≡◌, refl, [], ◌∷◌}
use lemoniscate.Hope.Rc4.{Rc4, rc4_init, rc4_process}
use lemoniscate.Hope.Rc4.Shuffle.{IsShuffle, rc4_process-rc4_init}

vector :
    (rc4_process
      (rc4_init (0x4b ∷ 0x65 ∷ 0x79 ∷ []))
      (0x50 ∷ 0x6c ∷ 0x61 ∷ 0x69 ∷ 0x6e ∷ 0x74 ∷ 0x65 ∷ 0x78 ∷ 0x74 ∷ [])).1
    ≡ 0xbb ∷ 0xf3 ∷ 0x16 ∷ 0xe8 ∷ 0xd9 ∷ 0x40 ∷ 0xaf ∷ 0x0a ∷ 0xd3 ∷ []
unfolding rc4_process lemoniscate.Hope.Rc4.key_byte lemoniscate.Hope.Rc4.next
    lemoniscate.Hope.Rc4.swap rc4_init lemoniscate.Hope.Rc4.schedule lemoniscate.Hope.Rc4.count_up
vector = refl

rc4_process-rc4_init_example : IsShuffle (rc4_process (rc4_init (0x4b ∷ [])) (1 ∷ 2 ∷ [])).0.s
rc4_process-rc4_init_example = rc4_process-rc4_init (0x4b ∷ []) (1 ∷ 2 ∷ [])
