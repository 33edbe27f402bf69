-- ===== src/Access/Names.antt =====
-- The names of permissions, and what the templates grant.
use lemoniscate.Common.{
  ℕ, ◌<◌, ◌≡◌, refl, arith, Bool, true, false, not, ◌==◌, all_below, all_below-at,
}
use lemoniscate.Common.{
  none, some, List, [], ◌∷◌, Outcome, ok, fail, fault, ap, ◌∙◌, ◌||◌, All, length, get_elem?-total,
  ◌/◌, ◌*◌,
}
use lemoniscate.Access.{
  is_set, bit_name, name_to_bit, find_name, find_bit, access_name_map, admin_access_template,
  guest_access_template,
}
use Prim.Native.String.{String}

abbrev found : ℕ → Bool
found i = elim (bit_name i) [
  | none ↦ true
  | some name ↦ elim (name_to_bit name) [ none ↦ false | some b ↦ b == i ]
]

found_table : all_below 64 found ≡ true
unfolding all_below bit_name name_to_bit find_name find_bit
found_table = refl

names_below :
    (m : List (String × ℕ))
    → All (λ e. e.1 < 64) m
    → (i : ℕ) (name : String) → find_name m i ≡ some name
    → i < 64
unfolding find_name
names_below [] h i name e = cc
names_below ((n, b) ∷ m) h i name e = ground (arith, names_below m h.1 i name)

bit_name-lt : (i : ℕ) (name : String) → bit_name i ≡ some name → i < 64
unfolding bit_name
bit_name-lt i name e = names_below access_name_map (omega arith) i name e

-- The name of a permission leads back to its bit.
pub name_to_bit-bit_name :
    (i : ℕ) (name : String) → bit_name i ≡ some name → name_to_bit name ≡ some i
name_to_bit-bit_name i name e =
    ground (arith, e, all_below-at 64 found i found_table (bit_name-lt i name e))

-- Whether a bit has a name.
abbrev pub named : ℕ → Bool
named i = elim (bit_name i) [ none ↦ false | some name ↦ true ]

-- What a test of the bitmap answers, and `false` where there is no answer.
abbrev granted : Outcome Bool → Bool
granted (ok b) = b
granted fail = false
granted fault = false

abbrev same : Bool → Bool → Bool
same true b = b
same false b = not b

admin_table : all_below 64 (λ i. same (granted (is_set admin_access_template i)) (named i)) ≡ true
unfolding all_below bit_name find_name is_set
admin_table = refl

abbrev pub guest_bits : ℕ → Bool
guest_bits i =
    i == 2
    || i == 9
    || i == 10
    || i == 11
    || i == 13
    || i == 20
    || i == 21
    || i == 24
    || i == 39
    || i == 40

guest_table :
    all_below 64 (λ i. same (granted (is_set guest_access_template i)) (guest_bits i)) ≡ true
unfolding all_below is_set
guest_table = refl

same→eq : (a b : Bool) → same a b ≡ true → a ≡ b
same→eq a b h = ground arith

answered :
    (bits : List ℕ) (i : ℕ) → i < 8 * length bits → is_set bits i ≡ ok (granted (is_set bits i))
unfolding is_set
answered bits i h = let (b, e) = get_elem?-total bits (i / 8) (omega arith) in ground (arith, e)

-- The administrator's template grants exactly the permissions that have a name.
pub admin_grants_named : (i : ℕ) → i < 64 → is_set admin_access_template i ≡ ok (named i)
admin_grants_named i h =
    answered admin_access_template i h
    ∙ ap ok (same→eq _ (named i) (all_below-at 64 _ i admin_table h))

-- The guest's template grants exactly the ten permissions of `guest_bits`.
pub guest_grants : (i : ℕ) → i < 64 → is_set guest_access_template i ≡ ok (guest_bits i)
guest_grants i h =
    answered guest_access_template i h
    ∙ ap ok (same→eq _ (guest_bits i) (all_below-at 64 _ i guest_table h))
