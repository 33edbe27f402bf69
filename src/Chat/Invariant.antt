-- ===== src/Chat/Invariant.antt =====
-- The well-formedness of the slots under the calls of the manager.
use lemoniscate.Common.{ℕ, zero, suc, ◌≤◌, ◌≡◌, refl, arith, true, Bool-cases, inl, inr}
use lemoniscate.Common.{
  some, Option-cases, List, [], ◌∷◌, All, length, length-append, length-take, length-replicate,
}
use lemoniscate.Common.{◌∙◌, replicate, subst}
use lemoniscate.Wire.{Bytes2, Bytes4}
use lemoniscate.Chat.{
  Room, Member, is_room, change_chat, fresh_room, take_slot, new_chat, put_subject, set_subject,
}
use lemoniscate.Chat.{add_member, join, shift_out, drop_member, leave, mem_chat_mgr_new, unused}
use lemoniscate.Chat.{Call, new_chat_call, set_subject_call, join_call, leave_call, call, calls}

pub record RoomIsValid (r : Room) : Type 0 where
  pub occupied : r.active ≡ true → 1 ≤ length r.members
  pub room_for : length r.members ≤ 64
  pub subject_fits : length r.subject ≤ 255

pub record IsValid (rooms : List Room) : Type 0 where
  pub slots : length rooms ≡ 64
  pub each : All RoomIsValid rooms

add_member-IsValid : (cc : Member) (r : Room) → RoomIsValid r → RoomIsValid (add_member cc r)
unfolding add_member
add_member-IsValid cc r v = ground (arith, length-append r.members (cc ∷ []), v.occupied)

put_subject-IsValid : (s : List ℕ) (r : Room) → RoomIsValid r → RoomIsValid (put_subject s r)
put_subject-IsValid s r v = record {
  occupied = v.occupied;
  room_for = v.room_for;
  subject_fits = omega (arith, length-take 255 s);
}

shift_out-length :
    (ms : List Member) (c : Bytes2) (ms' : List Member)
    → shift_out ms c ≡ some ms'
    → length ms ≡ suc (length ms')
unfolding shift_out
shift_out-length [] c ms' e = cc
shift_out-length ((p, id) ∷ ms) c ms' e = elim (Option-cases (shift_out ms c)) [
  | inl n ↦ ground (arith, n)
  | inr (rest, s) ↦ ground (arith, s, shift_out-length ms c rest)
]

drop_member-IsValid : (c : Bytes2) (r : Room) → RoomIsValid r → RoomIsValid (drop_member c r)
unfolding drop_member
drop_member-IsValid c r v = elim (Option-cases (shift_out r.members c)) [
  | inl n ↦ rw (n, drop_member) v
  | inr ([], s) ↦
      rw (s, drop_member)
        (record { occupied = λ a. cc; room_for = omega arith; subject_fits = v.subject_fits })
  | inr (m ∷ ms, s) ↦
      rw (s, drop_member)
        (record {
          occupied = λ a. omega arith;
          room_for = omega (arith, shift_out-length r.members c (m ∷ ms) s, v.room_for);
          subject_fits = v.subject_fits;
        })
]

change_chat-IsValid :
    (rooms : List Room) (id : Bytes4) (f : Room → Room)
    → ((r : Room) → RoomIsValid r → RoomIsValid (f r))
    → All RoomIsValid rooms
    → All RoomIsValid (change_chat rooms id f) × (length (change_chat rooms id f) ≡ length rooms)
unfolding change_chat
change_chat-IsValid [] id f k v = (tt, refl)
change_chat-IsValid (r ∷ rs) id f k v = elim (Bool-cases (is_room r id)) [
  | inl here ↦ rw here ((k r v.0, v.1), refl)
  | inr there ↦
      let (vs, n) = change_chat-IsValid rs id f k v.1 in rw there ((v.0, vs), omega (arith, n))
]

take_slot-IsValid :
    (rooms : List Room) (cc : Member) (id : Bytes4) (rooms' : List Room)
    → All RoomIsValid rooms
    → take_slot rooms cc id ≡ some rooms'
    → All RoomIsValid rooms' × (length rooms' ≡ length rooms)
unfolding take_slot
take_slot-IsValid [] c id rooms' v e = cc
take_slot-IsValid (r ∷ rs) c id rooms' v e = elim (Bool-cases r.active) [
  | inr free ↦
      let h : fresh_room c id ∷ rs ≡ rooms' = ground (arith, free) in
      subst (λ l. All RoomIsValid l × (length l ≡ suc (length rs))) h
        (
          (
            record {
              occupied = λ a. omega arith;
              room_for = omega arith;
              subject_fits = omega arith;
            },
            v.1,
          ),
          refl,
        )
  | inl used ↦ elim (Option-cases (take_slot rs c id)) [
    | inl n ↦ ground (arith, used, n)
    | inr (more, s) ↦
        let h : r ∷ more ≡ rooms' = ground (arith, used, s) in
        let (vs, n) = take_slot-IsValid rs c id more v.1 s in
        subst (λ l. All RoomIsValid l × (length l ≡ suc (length rs))) h
          ((v.0, vs), omega (arith, n))
  ]
]

-- A new manager is valid.
fresh_manager : (n : ℕ) → All RoomIsValid (replicate n unused)
fresh_manager zero = tt
fresh_manager (suc n) = (
  record { occupied = λ a. cc; room_for = omega arith; subject_fits = omega arith },
  fresh_manager n,
)

module _ {rooms : List Room} (v : IsValid rooms) where
  kept :
      (id : Bytes4) (f : Room → Room)
      → ((r : Room) → RoomIsValid r → RoomIsValid (f r))
      → IsValid (change_chat rooms id f)
  kept id f k =
      let (each, n) = change_chat-IsValid rooms id f k v.each in
      record { slots = n ∙ v.slots; each = each }

  new_chat-IsValid : (c : Member) (random_id : Bytes4) → IsValid (new_chat rooms c random_id).0
  unfolding new_chat
  new_chat-IsValid c random_id = elim (Option-cases (take_slot rooms c random_id)) [
    | inl n ↦ rw (n, new_chat) v
    | inr (rooms', s) ↦
        let (each, n) = take_slot-IsValid rooms c random_id rooms' v.each s in
        rw (s, new_chat) (record { slots = n ∙ v.slots; each = each })
  ]

mem_chat_mgr_new-IsValid : IsValid mem_chat_mgr_new
unfolding mem_chat_mgr_new
mem_chat_mgr_new-IsValid = record { slots = length-replicate 64 unused; each = fresh_manager 64 }

call-IsValid : (rooms : List Room) (c : Call) → IsValid rooms → IsValid (call rooms c)
unfolding call set_subject join leave
call-IsValid rooms (new_chat_call c random_id) v = new_chat-IsValid v c random_id
call-IsValid rooms (set_subject_call id subject) v =
    kept v id (put_subject subject) (put_subject-IsValid subject)
call-IsValid rooms (join_call id c) v = kept v id (add_member c) (add_member-IsValid c)
call-IsValid rooms (leave_call id client_id) v =
    kept v id (drop_member client_id) (drop_member-IsValid client_id)

calls-IsValid : (cs : List Call) (rooms : List Room) → IsValid rooms → IsValid (calls rooms cs)
unfolding calls
calls-IsValid [] rooms v = v
calls-IsValid (c ∷ cs) rooms v = calls-IsValid cs (call rooms c) (call-IsValid rooms c v)

-- After any sequence of calls on a new manager, with any ids and any arguments: there are 64 slots,
-- a room in use has 1 to 64 members, and its subject fits its array with the NUL.
pub calls-IsValid_chat : (cs : List Call) → IsValid (calls mem_chat_mgr_new cs)
calls-IsValid_chat cs = calls-IsValid cs mem_chat_mgr_new mem_chat_mgr_new-IsValid
