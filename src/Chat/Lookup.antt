-- ===== src/Chat/Lookup.antt =====
-- What each operation does to each room, seen through `find_chat`: the map that a manager stands
-- for, in which a room is found while it has a member.
use lemoniscate.Common.{◌≡◌, refl, arith, subst, true, Bool-cases, inl, inr}
use lemoniscate.Common.{Option, none, some, Option-cases, List, [], ◌∷◌, if◌then◌else◌}
use lemoniscate.Wire.{Bytes4, eq4, eq4→eq, eq4_refl, eq4_sym}
use lemoniscate.Chat.{Room, Member, is_room, find_chat, change_chat, fresh_room, take_slot}
use mathlib.Core.Option

-- A room in use is told apart from another by its id.
is_room_other : (r : Room) (id j : Bytes4) → is_room r id ≡ true → is_room r j ≡ eq4 j id
is_room_other r id j h = ground (arith, eq4→eq r.id id, eq4_sym id j)

-- A change that keeps the id and the use of a room shows in that room alone.
pub find_chat-change_chat :
    (rooms : List Room) (id j : Bytes4) (f : Room → Room)
    → ((r : Room) → ((f r).id ≡ r.id) × ((f r).active ≡ r.active))
    → find_chat (change_chat rooms id f) j
      ≡ (if eq4 j id then Option.map f (find_chat rooms j) else find_chat rooms j)
unfolding find_chat change_chat
find_chat-change_chat [] id j f k = ground arith
find_chat-change_chat (r ∷ rs) id j f k = elim (Bool-cases (is_room r id)) [
  | inl here ↦ ground (arith, here, k r, is_room_other r id j here)
  | inr there ↦ ground (arith, there, find_chat-change_chat rs id j f k, eq4→eq j id)
]

-- No two rooms in use have one id.
abbrev pub Distinct : List Room → Type 0
Distinct [] = Unit
Distinct (r ∷ rs) = (r.active ≡ true → find_chat rs r.id ≡ none) × Distinct rs

-- A room as it is found after a change: not at all, if the change took it out of use.
abbrev pub in_use : Option Room → Option Room
in_use none = none
in_use (some r) = if r.active then some r else none

-- A change that may end the use of a room, in a manager with distinct ids.
pub find_chat-change-Distinct :
    (rooms : List Room) (id j : Bytes4) (f : Room → Room)
    → ((r : Room) → (f r).id ≡ r.id)
    → Distinct rooms
    → find_chat (change_chat rooms id f) j
      ≡ (if eq4 j id then in_use (Option.map f (find_chat rooms j)) else find_chat rooms j)
unfolding find_chat change_chat
find_chat-change-Distinct [] id j f k d = ground arith
find_chat-change-Distinct (r ∷ rs) id j f k d = elim (Bool-cases (is_room r id)) [
  | inl here ↦
      ground
        (arith, here, k r, is_room_other r id j here, eq4→eq j id, eq4→eq r.id id, d.0, eq4_refl id)
  | inr there ↦ ground (arith, there, find_chat-change-Distinct rs id j f k d.1, eq4→eq j id)
]

absent-change :
    (rooms : List Room) (id j : Bytes4) (f : Room → Room)
    → ((r : Room) → ((f r).id ≡ r.id) × ((f r).active ≡ true → r.active ≡ true))
    → find_chat rooms j ≡ none
    → find_chat (change_chat rooms id f) j ≡ none
unfolding find_chat change_chat
absent-change [] id j f k e = refl
absent-change (r ∷ rs) id j f k e = elim (Bool-cases (is_room r id)) [
  | inl here ↦ ground (arith, here, k r)
  | inr there ↦ ground (arith, there, absent-change rs id j f k)
]

pub Distinct-change :
    (rooms : List Room) (id : Bytes4) (f : Room → Room)
    → ((r : Room) → ((f r).id ≡ r.id) × ((f r).active ≡ true → r.active ≡ true))
    → Distinct rooms
    → Distinct (change_chat rooms id f)
unfolding change_chat
Distinct-change [] id f k d = tt
Distinct-change (r ∷ rs) id f k d = elim (Bool-cases (is_room r id)) [
  | inl here ↦ rw here ((λ a. rw ((k r).0) (d.0 ((k r).1 a))), d.1)
  | inr there ↦
      rw there ((λ a. absent-change rs id r.id f k (d.0 a)), Distinct-change rs id f k d.1)
]

pub take_slot-find :
    (rooms : List Room) (c : Member) (id j : Bytes4) (rooms' : List Room)
    → take_slot rooms c id ≡ some rooms'
    → find_chat rooms id ≡ none
    → find_chat rooms' j ≡ (if eq4 j id then some (fresh_room c id) else find_chat rooms j)
unfolding find_chat take_slot
take_slot-find [] c id j rooms' e n = cc
take_slot-find (r ∷ rs) c id j rooms' e n = elim (Bool-cases r.active) [
  | inr free ↦
      let h : fresh_room c id ∷ rs ≡ rooms' = ground (arith, free) in
      rw (← h) (ground (arith, free, eq4_sym j id))
  | inl used ↦ elim (Option-cases (take_slot rs c id)) [
    | inl m ↦ ground (arith, used, m)
    | inr (more, s) ↦
        let h : r ∷ more ≡ rooms' = ground (arith, used, s) in
        rw (← h) (ground (arith, used, take_slot-find rs c id j more s, eq4→eq j id))
  ]
]

pub Distinct-take_slot :
    (rooms : List Room) (c : Member) (id : Bytes4) (rooms' : List Room)
    → take_slot rooms c id ≡ some rooms'
    → find_chat rooms id ≡ none
    → Distinct rooms
    → Distinct rooms'
unfolding find_chat take_slot
Distinct-take_slot [] c id rooms' e n d = cc
Distinct-take_slot (r ∷ rs) c id rooms' e n d = elim (Bool-cases r.active) [
  | inr free ↦
      let h : fresh_room c id ∷ rs ≡ rooms' = ground (arith, free) in
      subst Distinct h ((λ a. ground (arith, free)), d.1)
  | inl used ↦ elim (Option-cases (take_slot rs c id)) [
    | inl m ↦ ground (arith, used, m)
    | inr (more, s) ↦
        let h : r ∷ more ≡ rooms' = ground (arith, used, s) in
        subst Distinct h (
          (λ a.
              ground (
                arith,
                used,
                take_slot-find rs c id r.id more s,
                d.0,
                eq4→eq r.id id,
                eq4_refl id,
              )),
          Distinct-take_slot rs c id more s (ground (arith, used)) d.1,
        )
  ]
]
