-- ===== src/Chat.antt =====
-- src/hotline/chat.c: private chat rooms in 64 slots. A room's two parallel arrays are one list of
-- members, of which `member_count` is the length; a member is the connection's pointer with the id
-- that the connection had when it joined. Each function holds the manager's mutex throughout.
pub mod Lookup
pub mod Laws
pub mod Invariant
mod Tests
use lemoniscate.Common.{ℕ, ◌-◌, Bool, true, false, ltb, if◌then◌else◌}
use lemoniscate.Common.{Option, none, some, List, [], ◌∷◌, ◌++◌, length, take, replicate}
use lemoniscate.Wire.{Bytes2, Bytes4, eq4, type_eq}

abbrev pub chat_subject_max : ℕ
chat_subject_max = 256

abbrev pub chat_max_members : ℕ
chat_max_members = 64

abbrev pub chat_max_rooms : ℕ
chat_max_rooms = 64

abbrev pub Member : Type 0
Member = ℕ × Bytes2

-- `private_chat_t`; the subject is the string in front of its NUL.
pub record Room : Type 0 where
  pub id : Bytes4
  pub subject : List ℕ
  pub members : List Member
  pub active : Bool

abbrev pub is_room : Room → Bytes4 → Bool
is_room r id = if r.active then eq4 r.id id else false

unfoldable pub find_chat : List Room → Bytes4 → Option Room
find_chat [] id = none
find_chat (r ∷ rs) id = if is_room r id then some r else find_chat rs id

-- What is done to the room that `find_chat` returns, in its slot.
unfoldable pub change_chat : List Room → Bytes4 → (Room → Room) → List Room
change_chat [] id f = []
change_chat (r ∷ rs) id f = if is_room r id then f r ∷ rs else r ∷ change_chat rs id f

abbrev pub fresh_room : Member → Bytes4 → Room
fresh_room cc id = record { id = id; subject = []; members = cc ∷ []; active = true }

-- The first slot that is not in use is taken; `none` if there is no such slot.
unfoldable pub take_slot : List Room → Member → Bytes4 → Option (List Room)
take_slot [] cc id = none
take_slot (r ∷ rs) cc id =
    if r.active
    then elim (take_slot rs cc id) [ none ↦ none | some rs' ↦ some (r ∷ rs') ]
    else some (fresh_room cc id ∷ rs)

-- `random_id` is what `random_chat_id` draws. The id handed back is zero if no slot is free.
unfoldable pub new_chat : List Room → Member → Bytes4 → List Room × Bytes4
new_chat rooms cc random_id = elim (take_slot rooms cc random_id) [
  | none ↦ (rooms, (0, 0, 0, 0))
  | some rooms' ↦ (rooms', random_id)
]

unfoldable pub get_subject : List Room → Bytes4 → List ℕ
get_subject rooms id = elim (find_chat rooms id) [ none ↦ [] | some r ↦ r.subject ]

-- `strncpy` of at most 255 characters, and the NUL.
abbrev pub put_subject : List ℕ → Room → Room
put_subject subject r = record r { subject = take (chat_subject_max - 1) subject }

unfoldable pub set_subject : List Room → Bytes4 → List ℕ → List Room
set_subject rooms id subject = change_chat rooms id (put_subject subject)

unfoldable pub add_member : Member → Room → Room
add_member cc r =
    if ltb (length r.members) chat_max_members
    then record r { members = r.members ++ (cc ∷ []) }
    else r

unfoldable pub join : List Room → Bytes4 → Member → List Room
join rooms id cc = change_chat rooms id (add_member cc)

-- The members with the first one of that id shifted out, if there is one.
unfoldable pub shift_out : List Member → Bytes2 → Option (List Member)
shift_out [] client_id = none
shift_out ((cc, id) ∷ rest) client_id =
    if type_eq id client_id
    then some rest
    else elim (shift_out rest client_id) [ none ↦ none | some rest' ↦ some ((cc, id) ∷ rest') ]

abbrev pub is_empty : List Member → Bool
is_empty [] = true
is_empty (m ∷ ms) = false

unfoldable pub drop_member : Bytes2 → Room → Room
drop_member client_id r = elim (shift_out r.members client_id) [
  | none ↦ r
  | some rest ↦ record r { members = rest; active = if is_empty rest then false else r.active }
]

unfoldable pub leave : List Room → Bytes4 → Bytes2 → List Room
leave rooms id client_id = change_chat rooms id (drop_member client_id)

-- `none` is NULL with a count of 0. `serves` says whether `malloc` succeeds.
unfoldable pub members : List Room → Bytes4 → Bool → Option (List Member)
members rooms id serves = elim (find_chat rooms id) [
  | none ↦ none
  | some r ↦ if is_empty r.members then none else (if serves then some r.members else none)
]

abbrev pub unused : Room
unused = record { id = (0, 0, 0, 0); subject = []; members = []; active = false }

-- `calloc` of the manager.
unfoldable pub mem_chat_mgr_new : List Room
mem_chat_mgr_new = replicate chat_max_rooms unused

-- The entries of the manager's vtable that change its state, as the server calls them.
pub data Call : Type 0 where
  new_chat_call : Member → Bytes4 → Call
  set_subject_call : Bytes4 → List ℕ → Call
  join_call : Bytes4 → Member → Call
  leave_call : Bytes4 → Bytes2 → Call

unfoldable pub call : List Room → Call → List Room
call rooms (new_chat_call c random_id) = (new_chat rooms c random_id).0
call rooms (set_subject_call id subject) = set_subject rooms id subject
call rooms (join_call id c) = join rooms id c
call rooms (leave_call id client_id) = leave rooms id client_id

unfoldable pub calls : List Room → List Call → List Room
calls rooms [] = rooms
calls rooms (c ∷ cs) = calls (call rooms c) cs
