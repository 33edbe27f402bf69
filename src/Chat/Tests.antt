-- ===== src/Chat/Tests.antt =====
-- Runs of the chat manager and instances of its theorems, on few slots.
use lemoniscate.Common.{◌≡◌, refl, true, if◌then◌else◌}
use lemoniscate.Common.{none, some, List, [], ◌∷◌}
use lemoniscate.Wire.{Bytes2, Bytes4, eq4}
use lemoniscate.Chat.{
  Room, Member, unused, find_chat, fresh_room, new_chat, get_subject, set_subject, add_member,
  drop_member, join, leave,
}
use lemoniscate.Chat.{
  members, mem_chat_mgr_new, Call, new_chat_call, set_subject_call, join_call, leave_call, calls,
}
use lemoniscate.Chat.Lookup.{Distinct}
use lemoniscate.Common.{false, ◌++◌}
use lemoniscate.Wire.{type_eq}
use lemoniscate.Chat.{is_empty}
use lemoniscate.Chat.Invariant.{IsValid, calls-IsValid_chat}
use lemoniscate.Chat.Laws.{find_chat-leave_member}

abbrev alice : Member
alice = (70, (0, 1))

abbrev bob : Member
bob = (71, (0, 2))

abbrev room_id : Bytes4
room_id = (0, 0, 0, 5)

-- A room with one member, in the first of three slots.
abbrev rooms : List Room
rooms = fresh_room alice room_id ∷ unused ∷ unused ∷ []

abbrev script : List Call
script =
    new_chat_call alice room_id
    ∷ join_call room_id bob
    ∷ set_subject_call room_id (104 ∷ 105 ∷ [])
    ∷ leave_call room_id (0, 1)
    ∷ []

script_run :
    (members (calls mem_chat_mgr_new script) room_id true ≡ some (bob ∷ []))
    × (get_subject (calls mem_chat_mgr_new script) room_id ≡ 104 ∷ 105 ∷ [])
unfolding calls members find_chat lemoniscate.Chat.call leave lemoniscate.Chat.change_chat
    set_subject join new_chat lemoniscate.Chat.take_slot mem_chat_mgr_new eq4 add_member drop_member
    lemoniscate.Chat.shift_out lemoniscate.Wire.type_eq get_subject
script_run = (refl, refl)

rooms-Distinct : Distinct rooms
unfolding find_chat
rooms-Distinct = ((λ a. refl), ((λ a. refl), ((λ a. refl), tt)))

no_room : find_chat rooms (0, 0, 0, 6) ≡ none
unfolding find_chat eq4
no_room = refl

calls-IsValid_chat_example : IsValid (calls mem_chat_mgr_new script)
calls-IsValid_chat_example = calls-IsValid_chat script

abbrev busy_room : Room
busy_room = record (fresh_room alice room_id) { members = alice ∷ bob ∷ [] }

abbrev busy : List Room
busy = busy_room ∷ unused ∷ unused ∷ []

busy-Distinct : Distinct busy
unfolding find_chat
busy-Distinct = ((λ a. refl), ((λ a. refl), ((λ a. refl), tt)))

other_client : type_eq (0, 1) (0, 2) ≡ false
unfolding type_eq
other_client = refl

busy_found : find_chat busy room_id ≡ some busy_room
unfolding find_chat eq4
busy_found = refl

find_chat-leave_member_example : find_chat (leave busy room_id (0, 2)) room_id ≡ (
    if eq4 room_id room_id
    then (if is_empty ((alice ∷ []) ++ [])
        then none
        else some (record busy_room { members = (alice ∷ []) ++ [] }))
    else find_chat busy room_id)
find_chat-leave_member_example =
    find_chat-leave_member busy room_id room_id busy_room (alice ∷ []) [] 71 (0, 2) busy-Distinct
      busy_found refl (other_client, tt)
