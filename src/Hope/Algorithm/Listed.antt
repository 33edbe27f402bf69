-- ===== src/Hope/Algorithm/Listed.antt =====
-- The names that the list in a HOPE field holds.
use lemoniscate.Common.{
  ℕ, zero, suc, ◌<◌, ◌≡◌, ◌⊎◌, inl, inr, refl, ap, ap₂, sym, ◌∙◌, arith, Bool, true, false, ◌||◌,
  ltb, Option, none, some, Bool-cases, lt→ltb,
}
use lemoniscate.Common.{
  List, [], ◌∷◌, ◌++◌, append_assoc, map, take, drop, length, length-take, take-append-drop,
  bytes_eq, bytes_eq→eq,
}
use native.Mathlib.Decide.{dec_lt}
use lemoniscate.Wire.{read_u16}
use lemoniscate.Hope.Algorithm.{any_name, field_contains, tolower, is_rc4, is_chacha20}

-- Names one behind the other, each behind its length.
abbrev packed : List (List ℕ) → List ℕ
packed [] = []
packed (name ∷ names) = length name ∷ (name ++ packed names)

-- A name of this kind stands in the list, among the first ones, as many as the field counts.
abbrev pub Names : (List ℕ → Type 0) → Option (List ℕ) → Type 0
Names IsKind field =
    (a : ℕ) × (b : ℕ) × (before : List (List ℕ)) × (name : List ℕ) × (after : List ℕ) × (field
      ≡ some (a ∷ b ∷ (packed before ++ (length name ∷ (name ++ after)))))
    × (length before < read_u16 (a, b))
    × IsKind name

-- "rc4", "rc4-128" or "arcfour", in letters of either case
abbrev pub IsRc4 : List ℕ → Type 0
IsRc4 name =
    (map tolower name ≡ 114 ∷ 99 ∷ 52 ∷ [])
    ⊎ ((map tolower name ≡ 114 ∷ 99 ∷ 52 ∷ 45 ∷ 49 ∷ 50 ∷ 56 ∷ [])
        ⊎ (map tolower name ≡ 97 ∷ 114 ∷ 99 ∷ 102 ∷ 111 ∷ 117 ∷ 114 ∷ []))

-- "chacha20-poly1305", "chacha20poly1305" or "chacha20", in letters of either case
abbrev pub IsChacha20 : List ℕ → Type 0
IsChacha20 name =
    (map tolower name
      ≡ 99 ∷ 104 ∷ 97 ∷ 99 ∷ 104 ∷ 97 ∷ 50 ∷ 48 ∷ 45 ∷ 112 ∷ 111 ∷ 108 ∷ 121 ∷ 49 ∷ 51 ∷ 48 ∷ 53
        ∷ [])
    ⊎ ((map tolower name
          ≡ 99 ∷ 104 ∷ 97 ∷ 99 ∷ 104 ∷ 97 ∷ 50 ∷ 48 ∷ 112 ∷ 111 ∷ 108 ∷ 121 ∷ 49 ∷ 51 ∷ 48 ∷ 53
            ∷ [])
        ⊎ (map tolower name ≡ 99 ∷ 104 ∷ 97 ∷ 99 ∷ 104 ∷ 97 ∷ 50 ∷ 48 ∷ []))

pub or-true : (x y : Bool) → (x || y) ≡ true → (x ≡ true) ⊎ (y ≡ true)
or-true true y h = inl refl
or-true false y h = inr h

one_of_three :
    (name x y z : List ℕ)
    → (bytes_eq name x || (bytes_eq name y || bytes_eq name z)) ≡ true
    → (name ≡ x) ⊎ ((name ≡ y) ⊎ (name ≡ z))
one_of_three name x y z h = elim (or-true (bytes_eq name x) _ h) [
  | inl e ↦ inl (bytes_eq→eq name x e)
  | inr more ↦ elim (or-true (bytes_eq name y) _ more) [
    | inl e ↦ inr (inl (bytes_eq→eq name y e))
    | inr e ↦ inr (inr (bytes_eq→eq name z e))
  ]
]

pub is_rc4_lem : (name : List ℕ) → is_rc4 name ≡ true → IsRc4 name
unfolding is_rc4
is_rc4_lem name h = one_of_three (map tolower name) _ _ _ h

pub is_chacha20_lem : (name : List ℕ) → is_chacha20 name ≡ true → IsChacha20 name
unfolding is_chacha20
is_chacha20_lem name h = one_of_three (map tolower name) _ _ _ h

first_name :
    (n : ℕ) (bytes : List ℕ)
    → ltb (length bytes) n ≡ false
    → n ∷ bytes ≡ length (take n bytes) ∷ (take n bytes ++ drop n bytes)
first_name n bytes fits = ap₂ (λ x l. x ∷ l) whole (sym (take-append-drop n bytes))
  where
    whole : n ≡ length (take n bytes)
    whole = elim (dec_lt (length bytes) n) [
      | yes h ↦ let no : true ≡ false = sym (lt→ltb (length bytes) n h) ∙ fits in absurd cc
      | no h ↦ omega (arith, length-take n bytes)
    ]

any_name_lem :
    (test : List ℕ → Bool) (c : ℕ) (bytes : List ℕ)
    → any_name test c bytes ≡ true
    → (before : List (List ℕ)) × (name : List ℕ) × (after : List ℕ) × (bytes
        ≡ packed before ++ (length name ∷ (name ++ after)))
      × (length before < c)
      × (test name ≡ true)
unfolding any_name
any_name_lem test zero bytes h = absurd cc
any_name_lem test (suc c) [] h = absurd cc
any_name_lem test (suc c) (n ∷ bytes) h = elim (Bool-cases (ltb (length bytes) n)) [
  | inl short ↦ let no : false ≡ true = rw short at h in absurd cc
  | inr fits ↦ elim (Bool-cases (test (take n bytes))) [
    | inl found ↦ ([], take n bytes, drop n bytes, first_name n bytes fits, omega arith, found)
    | inr other ↦
        let (before, name, after, e, few, found) =
          any_name_lem test c (drop n bytes) (rw (fits, other) at h) in
        (
          take n bytes ∷ before,
          name,
          after,
          first_name n bytes fits
              ∙ ap (λ l. length (take n bytes) ∷ (take n bytes ++ l)) e
              ∙ ap (λ l. length (take n bytes) ∷ l)
                  (sym
                    (append_assoc (take n bytes) (packed before) (length name ∷ (name ++ after)))),
          omega arith,
          found,
        )
  ]
]

-- A field that passes the test of the code holds a name that does.
pub field_contains-Names :
    (test : List ℕ → Bool) (IsKind : List ℕ → Type 0) (field : Option (List ℕ))
    → ((name : List ℕ) → test name ≡ true → IsKind name)
    → field_contains test field ≡ true
    → Names IsKind field
unfolding field_contains
field_contains-Names test IsKind none kind h = absurd cc
field_contains-Names test IsKind (some []) kind h = absurd cc
field_contains-Names test IsKind (some (a ∷ [])) kind h = absurd cc
field_contains-Names test IsKind (some (a ∷ b ∷ bytes)) kind h =
    let (before, name, after, e, few, found) = any_name_lem test (read_u16 (a, b)) bytes h in
    (a, b, before, name, after, ap (λ l. some (a ∷ b ∷ l)) e, few, kind name found)
