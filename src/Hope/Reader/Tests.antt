-- ===== src/Hope/Reader/Tests.antt =====
-- A reader run on a connection that carries three pieces, one of them empty.
use lemoniscate.Common.{ℕ, ◌≡◌, refl, arith, Bool, true}
use lemoniscate.Common.{List, [], ◌∷◌, take, ok}
use lemoniscate.Hope.Reader.{Reader, aead_reader_init, aead_reader_read_full}
use lemoniscate.Hope.Reader.Delivery.{sealed_pieces, joined, aead_reader_read_full-sealed_pieces}

abbrev always : ℕ → Bool
always n = true

abbrev transfer_key : List ℕ
transfer_key = 1 ∷ []

abbrev three_pieces : List (List ℕ)
three_pieces = (104 ∷ 101 ∷ []) ∷ [] ∷ (108 ∷ []) ∷ []

aead_reader_read_full-sealed_pieces_example :
    (r : Reader) × (aead_reader_read_full always
        (aead_reader_init (sealed_pieces transfer_key 0 three_pieces) transfer_key)
        3
      ≡ ok (r, take 3 (joined three_pieces)))
aead_reader_read_full-sealed_pieces_example =
    aead_reader_read_full-sealed_pieces always (λ n. refl) transfer_key three_pieces 3
      (omega arith, (omega arith, (omega arith, tt))) (omega arith)
