-- ===== src/User/Tests.antt =====
-- Runs of the user codec and instances of its theorems.
use lemoniscate.Common.{ℕ, ◌+◌, ◌≡◌, refl, arith, true, List, [], ◌∷◌, length, ok}
use lemoniscate.User.{User, user_flags_set, user_flags_is_set}
use lemoniscate.User.Codec.{sent_and_read, deserialize-serialize_user}

abbrev sample : User
sample = record { id = (0, 1); icon = (0, 128); flags = (0, 2); name = 97 ∷ 98 ∷ [] }

abbrev blank : List ℕ
blank = 7 ∷ 7 ∷ 7 ∷ 7 ∷ 7 ∷ 7 ∷ 7 ∷ 7 ∷ 7 ∷ 7 ∷ 7 ∷ []

flag_set : user_flags_is_set (user_flags_set (0, 0) 3 true) 3 ≡ 1
unfolding user_flags_is_set user_flags_set lemoniscate.Wire.read_u16 lemoniscate.Wire.write_u16
flag_set = refl

deserialize-serialize_user_example :
    sent_and_read sample blank 11 ≡ ok (8 + length sample.name, (sample, 8 + length sample.name))
deserialize-serialize_user_example =
    deserialize-serialize_user sample blank 11 (omega arith) (omega arith) (omega arith)
