-- ===== src/Hope/Algorithm/Spelling.antt =====
-- How the names of the algorithms are spelled.
use lemoniscate.Common.{
  ℕ, ◌≡◌, refl, ap, sym, ◌∙◌, arith, Bool, true, false, ◌==◌, ◌&&◌, ◌||◌, if◌then◌else◌, bytes_eq,
  bytes_eq→eq, Option, none, some, Bool-cases, inl, inr,
}
use lemoniscate.Common.{List, [], ◌∷◌, map, length, get_or, ◌≢◌}
use lemoniscate.Hope.Mac.{MacAlg, hmac_sha256, hmac_sha1, sha1, hmac_md5, md5, inverse}
use lemoniscate.Hope.Algorithm.{
  tolower, mac_algs, mac_alg_name, mac_index, parse_from, parse_algorithm_name,
}

-- In lower case.
abbrev pub spelled : MacAlg → List ℕ
spelled hmac_sha256 = 104 ∷ 109 ∷ 97 ∷ 99 ∷ 45 ∷ 115 ∷ 104 ∷ 97 ∷ 50 ∷ 53 ∷ 54 ∷ []
spelled hmac_sha1 = 104 ∷ 109 ∷ 97 ∷ 99 ∷ 45 ∷ 115 ∷ 104 ∷ 97 ∷ 49 ∷ []
spelled sha1 = 115 ∷ 104 ∷ 97 ∷ 49 ∷ []
spelled hmac_md5 = 104 ∷ 109 ∷ 97 ∷ 99 ∷ 45 ∷ 109 ∷ 100 ∷ 53 ∷ []
spelled md5 = 109 ∷ 100 ∷ 53 ∷ []
spelled inverse = 105 ∷ 110 ∷ 118 ∷ 101 ∷ 114 ∷ 115 ∷ 101 ∷ []

lower_name : (a : MacAlg) → map tolower (mac_alg_name a) ≡ spelled a
unfolding mac_alg_name
lower_name hmac_sha256 = refl
lower_name hmac_sha1 = refl
lower_name sha1 = refl
lower_name hmac_md5 = refl
lower_name md5 = refl
lower_name inverse = refl

-- The lengths of the names tell the algorithms apart.
abbrev by_length : ℕ → ℕ
by_length n =
    if n == 11
    then 0
    else if n == 9
    then 1
    else if n == 4
    then 2
    else if n == 8
    then 3
    else if n == 3
    then 4
    else 5

by_length_lem : (a : MacAlg) → by_length (length (spelled a)) ≡ mac_index a
by_length_lem hmac_sha256 = refl
by_length_lem hmac_sha1 = refl
by_length_lem sha1 = refl
by_length_lem hmac_md5 = refl
by_length_lem md5 = refl
by_length_lem inverse = refl

abbrev is_in : MacAlg → List MacAlg → Bool
is_in a [] = false
is_in a (b ∷ bs) = (mac_index b == mac_index a) || is_in a bs

is_listed : (a : MacAlg) → is_in a mac_algs ≡ true
is_listed hmac_sha256 = refl
is_listed hmac_sha1 = refl
is_listed sha1 = refl
is_listed hmac_md5 = refl
is_listed md5 = refl
is_listed inverse = refl

abbrev pub is_some_alg : MacAlg → Option MacAlg → Bool
is_some_alg a none = false
is_some_alg a (some b) = mac_index b == mac_index a

at_index : (a : MacAlg) → get_or mac_algs (mac_index a) inverse ≡ a
at_index hmac_sha256 = refl
at_index hmac_sha1 = refl
at_index sha1 = refl
at_index hmac_md5 = refl
at_index md5 = refl
at_index inverse = refl

same_index : (a b : MacAlg) → (mac_index b == mac_index a) ≡ true → a ≡ b
same_index a b h =
    let e : mac_index a ≡ mac_index b = ground (arith, h) in
    sym (at_index a) ∙ ap (λ n. get_or mac_algs n inverse) e ∙ at_index b

other_index : (a b : MacAlg) → (mac_index b == mac_index a) ≡ false → spelled a ≢ spelled b
other_index a b h same =
    let e : mac_index a ≡ mac_index b =
      sym (by_length_lem a) ∙ ap (λ l. by_length (length l)) same ∙ by_length_lem b in
    ground (arith, h, e)

pub and_false : (x : Bool) → (x && false) ≡ false
and_false true = refl
and_false false = refl

-- The head of the list is met.
met :
    (a b : MacAlg) (rest : Bool) (l : List ℕ)
    → bytes_eq (spelled b) l ≡ true
    → (mac_index b == mac_index a)
      ≡ (((mac_index b == mac_index a) || rest) && bytes_eq (spelled a) l)
met a b rest l e = elim (Bool-cases (mac_index b == mac_index a)) [
  | inl t ↦ rw t (sym (ap (λ x. bytes_eq (spelled x) l) (same_index a b t) ∙ e))
  | inr f ↦ elim (Bool-cases (bytes_eq (spelled a) l)) [
    | inl both ↦
        absurd
          (other_index a b f (bytes_eq→eq (spelled a) l both ∙ sym (bytes_eq→eq (spelled b) l e)))
    | inr g ↦ rw (f, g) (sym (and_false rest))
  ]
]

-- It is not.
passed :
    (a b : MacAlg) (rest : Bool) (l : List ℕ)
    → bytes_eq (spelled b) l ≡ false
    → (rest && bytes_eq (spelled a) l)
      ≡ (((mac_index b == mac_index a) || rest) && bytes_eq (spelled a) l)
passed a b rest l e = elim (Bool-cases (mac_index b == mac_index a)) [
  | inl t ↦
      let g : bytes_eq (spelled a) l ≡ false =
        ap (λ x. bytes_eq (spelled x) l) (same_index a b t) ∙ e in
      rw (t, g) (and_false rest)
  | inr f ↦ rw f refl
]

parse_from_lem :
    (algs : List MacAlg) (name : List ℕ) (a : MacAlg)
    → is_some_alg a (parse_from algs name)
      ≡ (is_in a algs && bytes_eq (spelled a) (map tolower name))
unfolding parse_from
parse_from_lem [] name a = refl
parse_from_lem (b ∷ bs) name a = elim (Bool-cases (bytes_eq (spelled b) (map tolower name))) [
  | inl e ↦ rw (lower_name b, e) (met a b (is_in a bs) (map tolower name) e)
  | inr e ↦
      rw (lower_name b, e) (parse_from_lem bs name a ∙ passed a b (is_in a bs) (map tolower name) e)
]

-- A name is taken for an algorithm exactly if it is spelled that way, in letters of either case.
pub parse_algorithm_name_lem :
    (name : List ℕ) (a : MacAlg)
    → is_some_alg a (parse_algorithm_name name) ≡ bytes_eq (spelled a) (map tolower name)
unfolding parse_algorithm_name
parse_algorithm_name_lem name a =
    parse_from_lem mac_algs name a
    ∙ ap (λ x. x && bytes_eq (spelled a) (map tolower name)) (is_listed a)
