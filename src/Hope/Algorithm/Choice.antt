-- ===== src/Hope/Algorithm/Choice.antt =====
-- What the choice of the algorithm guarantees.
use lemoniscate.Common.{
  ℕ, zero, suc, ◌≡◌, refl, sym, ap, ◌∙◌, Bool, true, false, ◌&&◌, ◌||◌, ltb, ◌==◌, ◌⊎◌,
  if◌then◌else◌, Option, none, some, Bool-cases, inl, inr,
}
use lemoniscate.Common.{List, map, bytes_eq, [], ◌∷◌, take, drop, length}
use lemoniscate.Hope.Mac.{MacAlg, hmac_sha256, hmac_sha1, sha1, hmac_md5, md5, inverse}
use lemoniscate.Hope.Algorithm.{
  parse_algorithm_name, tolower, algorithm_allowed, any_name, field_contains, mac_algs, mac_index,
  mark, supported_from, first_allowed, fallback, select_best_algorithm,
}
use lemoniscate.Hope.Algorithm.Spelling.{spelled, is_some_alg, and_false, parse_algorithm_name_lem}
use lemoniscate.Wire.{read_u16}
use mathlib.Core.Option.{some-injective, none-ne-some}

-- The name is spelled like the algorithm's, in letters of either case.
abbrev pub names_alg : MacAlg → List ℕ → Bool
names_alg a name = bytes_eq (spelled a) (map tolower name)

-- The client's list names the algorithm.
abbrev pub offers : List ℕ → MacAlg → Bool
offers bytes a = field_contains (names_alg a) (some bytes)

-- What is accepted, the strongest first: all algorithms in legacy mode and the HMACs in strict mode.
abbrev pub acceptable : Bool → List MacAlg
acceptable true = hmac_sha256 ∷ hmac_sha1 ∷ sha1 ∷ hmac_md5 ∷ md5 ∷ inverse ∷ []
acceptable false = hmac_sha256 ∷ hmac_sha1 ∷ hmac_md5 ∷ []

abbrev pub otherwise : Bool → Option MacAlg
otherwise true = some inverse
otherwise false = none

-- The first of the algorithms that is offered.
unfoldable pub strongest : List MacAlg → (MacAlg → Bool) → Option MacAlg → Option MacAlg
strongest [] offered default = default
strongest (a ∷ as') offered default = if offered a then some a else strongest as' offered default

supported_lem :
    (c : ℕ) (bytes : List ℕ) (supported : MacAlg → Bool) (a : MacAlg)
    → supported_from c bytes supported a ≡ any_name (names_alg a) c bytes || supported a
unfolding supported_from any_name
supported_lem zero bytes supported a = refl
supported_lem (suc c) [] supported a = refl
supported_lem (suc c) (n ∷ bytes) supported a =
    let o = parse_algorithm_name (take n bytes) in
    elim (Bool-cases (ltb (length bytes) n)) [
      | inl e ↦ rw e refl
      | inr e ↦ rw e (
          supported_lem c (drop n bytes) (mark o supported) a
          ∙ noted o
          ∙ ap
              (λ (x : Bool).
                (if x then true else any_name (names_alg a) c (drop n bytes)) || supported a)
              (parse_algorithm_name_lem (take n bytes) a))
    ]
  where
    noted :
        (o : Option MacAlg)
        → (any_name (names_alg a) c (drop n bytes) || mark o supported a) ≡ (
            (if is_some_alg a o then true else any_name (names_alg a) c (drop n bytes))
            || supported a)
    noted none = refl
    noted (some b) = elim (Bool-cases (mac_index b == mac_index a)) [
      | inl e ↦ rw e (or_true (any_name (names_alg a) c (drop n bytes)))
      | inr e ↦ rw e refl
    ]
      where
        or_true : (x : Bool) → (x || true) ≡ true
        or_true true = refl
        or_true false = refl

and_true : (x : Bool) → (x && true) ≡ x
and_true true = refl
and_true false = refl

first_allowed_lem :
    (s t : MacAlg → Bool) (legacy_mode : Bool)
    → ((a : MacAlg) → s a ≡ t a)
    → first_allowed mac_algs s legacy_mode
      ≡ strongest (acceptable legacy_mode) t (otherwise legacy_mode)
unfolding first_allowed strongest algorithm_allowed
first_allowed_lem s t true h =
    rw
      (
        h hmac_sha256,
        h hmac_sha1,
        h sha1,
        h hmac_md5,
        h md5,
        h inverse,
        and_true (t hmac_sha256),
        and_true (t hmac_sha1),
        and_true (t sha1),
        and_true (t hmac_md5),
        and_true (t md5),
        and_true (t inverse),
      )
      refl
first_allowed_lem s t false h =
    rw
      (
        h hmac_sha256,
        h hmac_sha1,
        h sha1,
        h hmac_md5,
        h md5,
        h inverse,
        and_true (t hmac_sha256),
        and_true (t hmac_sha1),
        and_false (t sha1),
        and_true (t hmac_md5),
        and_false (t md5),
        and_false (t inverse),
      )
      refl

or_false : (x : Bool) → (x || false) ≡ x
or_false true = refl
or_false false = refl

-- A field with no room for the count.
no_list :
    (legacy_mode : Bool)
    → fallback legacy_mode ≡ strongest (acceptable legacy_mode) (λ a. false) (otherwise legacy_mode)
unfolding strongest
no_list true = refl
no_list false = refl

-- The algorithm that the server selects from a client's list is the strongest acceptable one that the
-- list names, in letters of either case. Acceptable are, from the strongest on, HMAC-SHA256,
-- HMAC-SHA1, SHA1, HMAC-MD5, MD5 and INVERSE in legacy mode, and HMAC-SHA256, HMAC-SHA1 and HMAC-MD5
-- in strict mode, where the comment in hope.h leaves HMAC-SHA256 out. With no such name it is INVERSE
-- in legacy mode and none in strict mode. This holds for every list of bytes, cut short or malformed ones included.
pub select_best_algorithm-strongest :
    (bytes : List ℕ) (legacy_mode : Bool)
    → select_best_algorithm bytes legacy_mode
      ≡ strongest (acceptable legacy_mode) (offers bytes) (otherwise legacy_mode)
unfolding select_best_algorithm field_contains
select_best_algorithm-strongest [] legacy_mode = no_list legacy_mode
select_best_algorithm-strongest (a ∷ []) legacy_mode = no_list legacy_mode
select_best_algorithm-strongest (a ∷ b ∷ bytes) legacy_mode =
    first_allowed_lem _ _ legacy_mode (λ alg.
      supported_lem (read_u16 (a, b)) bytes (λ x. false) alg
      ∙ or_false (any_name (names_alg alg) (read_u16 (a, b)) bytes))

abbrev pub IsHmac : MacAlg → Type 0
IsHmac alg = (alg ≡ hmac_sha256) ⊎ ((alg ≡ hmac_sha1) ⊎ (alg ≡ hmac_md5))

pub strongest-IsHmac :
    (offered : MacAlg → Bool) (a : MacAlg)
    → strongest (acceptable false) offered none ≡ some a
    → IsHmac a
unfolding strongest
strongest-IsHmac offered a h = elim (Bool-cases (offered hmac_sha256)) [
  | inl e ↦ inl (sym (some-injective hmac_sha256 a (rw e at h)))
  | inr e ↦ elim (Bool-cases (offered hmac_sha1)) [
    | inl f ↦ inr (inl (sym (some-injective hmac_sha1 a (rw (e, f) at h))))
    | inr f ↦ elim (Bool-cases (offered hmac_md5)) [
      | inl g ↦ inr (inr (sym (some-injective hmac_md5 a (rw (e, f, g) at h))))
      | inr g ↦ absurd (none-ne-some a (rw (e, f, g) at h))
    ]
  ]
]
