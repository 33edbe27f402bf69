-- ===== src/Chat/Laws.antt =====
-- The operations of the chat manager as updates of the map from room ids to rooms.
use lemoniscate.Common.{ℕ, ◌≡◌, ◌⊎◌, refl, arith, true, Bool-cases, inl, inr}
use lemoniscate.Common.{none, some, Option-cases, List, [], ◌∷◌, take, if◌then◌else◌, All}
use lemoniscate.Wire.{Bytes2, Bytes4, eq4, eq4→eq}
use lemoniscate.Chat.{
  Room, Member, find_chat, fresh_room, take_slot, new_chat, put_subject, get_subject, set_subject,
}
use lemoniscate.Chat.{add_member, join, shift_out, drop_member, leave}
use lemoniscate.Chat.{is_room, is_empty}
use lemoniscate.Wire.{type_eq, type_eq_refl}
use lemoniscate.Common.{ap, subst, ◌∙◌, false, true, ◌++◌}
use lemoniscate.Chat.Lookup.{
  find_chat-change_chat, find_chat-change-Distinct, Distinct, in_use, Distinct-change,
  take_slot-find, Distinct-take_slot,
}
use mathlib.Core.Option

add_member_keeps :
    (c : Member) (r : Room) → ((add_member c r).id ≡ r.id) × ((add_member c r).active ≡ r.active)
unfolding add_member
add_member_keeps c r = ground arith

drop_member_keeps :
    (c : Bytes2) (r : Room)
    → ((drop_member c r).id ≡ r.id) × ((drop_member c r).active ≡ true → r.active ≡ true)
unfolding drop_member
drop_member_keeps c r = elim (Option-cases (shift_out r.members c)) [
  | inl n ↦ ground (arith, n)
  | inr (ms, s) ↦ ground (arith, s)
]

-- Joining a room appends the member to that room, if it has fewer than 64, and touches no other.
pub find_chat-join :
    (rooms : List Room) (id j : Bytes4) (c : Member)
    → find_chat (join rooms id c) j
      ≡ (if eq4 j id then Option.map (add_member c) (find_chat rooms j) else find_chat rooms j)
unfolding join
find_chat-join rooms id j c = find_chat-change_chat rooms id j (add_member c) (add_member_keeps c)

-- After a subject was set the room, if there is one, has its first 255 characters, and every other
-- room has the subject it had.
pub get_subject-set_subject :
    (rooms : List Room) (id j : Bytes4) (subject : List ℕ)
    → get_subject (set_subject rooms id subject) j ≡ (
        if eq4 j id
        then elim (find_chat rooms id) [ none ↦ [] | some r ↦ take 255 subject ]
        else get_subject rooms j)
unfolding get_subject set_subject
get_subject-set_subject rooms id j subject = elim (Bool-cases (eq4 j id)) [
  | inl e ↦ ground (
    arith,
    e,
    eq4→eq j id,
    find_chat-change_chat rooms id j (put_subject subject) (λ r. (refl, refl)),
  )
  | inr e ↦
      ground (arith, e, find_chat-change_chat rooms id j (put_subject subject) (λ r. (refl, refl)))
]

-- Where the rooms in use have distinct ids, leaving a room takes the first member with the client's
-- id out of that room; a room left without members is found no more; no other room changes.
pub find_chat-leave :
    (rooms : List Room) (id j : Bytes4) (client_id : Bytes2)
    → Distinct rooms
    → find_chat (leave rooms id client_id) j ≡ (
        if eq4 j id
        then in_use (Option.map (drop_member client_id) (find_chat rooms j))
        else find_chat rooms j)
unfolding leave
find_chat-leave rooms id j client_id d =
    find_chat-change-Distinct rooms id j (drop_member client_id)
      (λ r. (drop_member_keeps client_id r).0) d

shift_out-first :
    (before after : List Member) (conn : ℕ) (id : Bytes2)
    → All (λ (m : Member). type_eq m.1 id ≡ false) before
    → shift_out (before ++ ((conn, id) ∷ after)) id ≡ some (before ++ after)
unfolding shift_out
shift_out-first [] after conn id w = ground (arith, type_eq_refl id)
shift_out-first ((c, k) ∷ before) after conn id w =
    rw (w.0, shift_out-first before after conn id w.1) refl

find_chat-active :
    (rooms : List Room) (id : Bytes4) (r : Room) → find_chat rooms id ≡ some r → r.active ≡ true
unfolding find_chat
find_chat-active [] id r e = cc
find_chat-active (s ∷ rooms) id r e = elim (Bool-cases (is_room s id)) [
  | inl here ↦
      let same : s ≡ r = ground (arith, here) in
      subst (λ t. t.active ≡ true) same (ground (arith, here))
  | inr there ↦ find_chat-active rooms id r (rw there at e)
]

dropped :
    (client_id : Bytes2) (r : Room) (l : List Member)
    → shift_out r.members client_id ≡ some l
    → drop_member client_id r
      ≡ record r { members = l; active = if is_empty l then false else r.active }
unfolding drop_member
dropped client_id r l e = rw (e, drop_member) refl

finished :
    (r : Room)
    → r.active ≡ true
    → (l : List Member)
    → in_use (some (record r { members = l; active = if is_empty l then false else r.active }))
      ≡ (if is_empty l then none else some (record r { members = l }))
finished r u [] = refl
finished r u (m ∷ l) = ground (arith, u)

-- Where the rooms in use have distinct ids, leaving a room takes the first entry with the client's id
-- out of its members. All other entries stay in their order, also a later entry with the same id,
-- which a client that joined twice has; a room left without members is found no more; no other room
-- changes.
pub find_chat-leave_member :
    (rooms : List Room) (id j : Bytes4) (r : Room) (before after : List Member) (conn : ℕ)
    (client_id : Bytes2)
    → Distinct rooms
    → find_chat rooms id ≡ some r
    → r.members ≡ before ++ ((conn, client_id) ∷ after)
    → All (λ (m : Member). type_eq m.1 client_id ≡ false) before
    → find_chat (leave rooms id client_id) j ≡ (
        if eq4 j id
        then (if is_empty (before ++ after)
            then none
            else some (record r { members = before ++ after }))
        else find_chat rooms j)
find_chat-leave_member rooms id j r before after conn client_id d found ms others =
    find_chat-leave rooms id j client_id d ∙ elim (Bool-cases (eq4 j id)) [
      | inr e ↦ rw e refl
      | inl e ↦
          let here : find_chat rooms j ≡ some r = ap (find_chat rooms) (eq4→eq j id e) ∙ found in
          rw (e, here)
            (ap (λ t. in_use (some t)) (dropped client_id r (before ++ after) taken)
              ∙ finished r (find_chat-active rooms id r found) (before ++ after))
    ]
  where
    taken : shift_out r.members client_id ≡ some (before ++ after)
    taken = ap (λ l. shift_out l client_id) ms ∙ shift_out-first before after conn client_id others

-- Only where every slot is in use is none taken.
slots_full :
    (rooms : List Room) (c : Member) (id : Bytes4)
    → take_slot rooms c id ≡ none
    → All (λ r. r.active ≡ true) rooms
unfolding take_slot
slots_full [] c id e = tt
slots_full (r ∷ rs) c id e = elim (Bool-cases r.active) [
  | inr free ↦ ground (arith, free)
  | inl used ↦ elim (Option-cases (take_slot rs c id)) [
    | inl m ↦ (used, slots_full rs c id m)
    | inr (more, s) ↦ ground (arith, used, s)
  ]
]

-- A new chat under an id that no room in use has: either every slot is in use, and then nothing
-- changes and the id handed back is zero; or the id is handed back, a room of that id with the
-- creator as its only member is found, and no other room changes.
pub find_chat-new_chat :
    (rooms : List Room) (c : Member) (id j : Bytes4)
    → find_chat rooms id ≡ none
    → (All (λ r. r.active ≡ true) rooms × (new_chat rooms c id ≡ (rooms, (0, 0, 0, 0))))
      ⊎ (((new_chat rooms c id).1 ≡ id)
          × (find_chat (new_chat rooms c id).0 j
              ≡ (if eq4 j id then some (fresh_room c id) else find_chat rooms j)))
unfolding new_chat
find_chat-new_chat rooms c id j n = elim (Option-cases (take_slot rooms c id)) [
  | inl full ↦ inl (slots_full rooms c id full, ground (arith, full))
  | inr (rooms', s) ↦
      inr (ground (arith, s), ground (arith, s, take_slot-find rooms c id j rooms' s n))
]

-- Where the rooms in use have distinct ids, they still do after a subject is set, a member joins or
-- leaves, on any id, and after a chat is opened under an id that no room in use has.
pub operations-Distinct :
    (rooms : List Room) (id : Bytes4) (c : Member) (subject : List ℕ) (client_id : Bytes2)
    → Distinct rooms
    → find_chat rooms id ≡ none
    → (j : Bytes4)
    → Distinct (new_chat rooms c id).0
      × Distinct (set_subject rooms j subject)
      × Distinct (join rooms j c)
      × Distinct (leave rooms j client_id)
unfolding set_subject join leave new_chat
operations-Distinct rooms id c subject client_id d n j = (
  opened,
  Distinct-change rooms j (put_subject subject) (λ r. (refl, λ a. a)) d,
  Distinct-change rooms j (add_member c) (λ r. ground (arith, add_member_keeps c r)) d,
  Distinct-change rooms j (drop_member client_id) (drop_member_keeps client_id) d,
)
  where
    opened : Distinct (new_chat rooms c id).0
    opened = elim (Option-cases (take_slot rooms c id)) [
      | inl full ↦ rw (full, new_chat) d
      | inr (rooms', s) ↦ rw (s, new_chat) (Distinct-take_slot rooms c id rooms' s n d)
    ]
