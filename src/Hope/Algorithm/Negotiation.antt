-- ===== src/Hope/Algorithm/Negotiation.antt =====
-- What the negotiation of the algorithm and of the cipher mode guarantees.
use lemoniscate.Common.{
  ℕ, ◌≡◌, refl, ap, sym, ◌∙◌, Bool, true, false, ◌&&◌, ◌||◌, not, ◌⊎◌, Option, none, some,
  Option-cases, subst, inl, inr,
}
use lemoniscate.Common.{List}
use lemoniscate.Hope.Mac.{is_inverse, MacAlg}
use lemoniscate.Hope.Algorithm.{
  field_contains, field_contains_rc4, field_contains_chacha20, select_best_algorithm, CipherPolicy,
  prefer_aead, require_aead, rc4_only, CipherMode, mode_none, mode_rc4, mode_aead, choose_mode,
  settle, negotiate,
}
use lemoniscate.Hope.Algorithm.Listed.{
  Names, IsRc4, IsChacha20, is_rc4_lem, is_chacha20_lem, or-true, field_contains-Names,
}
use mathlib.Core.Option.{some-injective, none-ne-some}
use lemoniscate.Hope.Algorithm.Choice.{
  offers, IsHmac, strongest-IsHmac, select_best_algorithm-strongest,
}

-- What a policy lets the cipher mode be.
abbrev pub meets : CipherPolicy → CipherMode → Bool
meets prefer_aead mode = true
meets require_aead mode_aead = true
meets require_aead _ = false
meets rc4_only mode_aead = false
meets rc4_only _ = true

-- A cipher needs an algorithm that keys can be derived with, and a client that named the cipher.
abbrev backed_by : Bool → Bool → Bool → CipherMode → Bool
backed_by rc4 aead keyed mode_none = true
backed_by rc4 aead keyed mode_rc4 = keyed && rc4
backed_by rc4 aead keyed mode_aead = keyed && aead

abbrev backed : MacAlg → Option (List ℕ) → Option (List ℕ) → CipherMode → Bool
backed alg f_ccip f_scip mode =
    backed_by (field_contains_rc4 f_ccip || field_contains_rc4 f_scip)
      (field_contains_chacha20 f_ccip || field_contains_chacha20 f_scip) (not (is_inverse alg)) mode

same_mode :
    (policy : CipherPolicy) (rc4 aead keyed : Bool) (m mode : CipherMode)
    → Path (Option CipherMode) (some m) (some mode)
    → (meets policy m ≡ true) × (backed_by rc4 aead keyed m ≡ true)
    → (meets policy mode ≡ true) × (backed_by rc4 aead keyed mode ≡ true)
same_mode policy rc4 aead keyed m mode h =
    subst (λ x. (meets policy x ≡ true) × (backed_by rc4 aead keyed x ≡ true))
      (some-injective m mode h)

choose_mode_lem :
    (policy : CipherPolicy) (rc4 aead keyed : Bool) (mode : CipherMode)
    → choose_mode policy rc4 aead keyed ≡ some mode
    → (meets policy mode ≡ true) × (backed_by rc4 aead keyed mode ≡ true)
unfolding choose_mode
choose_mode_lem prefer_aead rc4 true true mode h =
    same_mode prefer_aead rc4 true true mode_aead mode h (refl, refl)
choose_mode_lem prefer_aead true false true mode h =
    same_mode prefer_aead true false true mode_rc4 mode h (refl, refl)
choose_mode_lem prefer_aead false false true mode h =
    same_mode prefer_aead false false true mode_none mode h (refl, refl)
choose_mode_lem prefer_aead true true false mode h =
    same_mode prefer_aead true true false mode_none mode h (refl, refl)
choose_mode_lem prefer_aead true false false mode h =
    same_mode prefer_aead true false false mode_none mode h (refl, refl)
choose_mode_lem prefer_aead false true false mode h =
    same_mode prefer_aead false true false mode_none mode h (refl, refl)
choose_mode_lem prefer_aead false false false mode h =
    same_mode prefer_aead false false false mode_none mode h (refl, refl)
choose_mode_lem require_aead rc4 true true mode h =
    same_mode require_aead rc4 true true mode_aead mode h (refl, refl)
choose_mode_lem require_aead rc4 false keyed mode h = absurd (none-ne-some mode h)
choose_mode_lem require_aead rc4 true false mode h = absurd (none-ne-some mode h)
choose_mode_lem rc4_only true aead true mode h =
    same_mode rc4_only true aead true mode_rc4 mode h (refl, refl)
choose_mode_lem rc4_only false aead keyed mode h =
    same_mode rc4_only false aead keyed mode_none mode h (refl, refl)
choose_mode_lem rc4_only true aead false mode h =
    same_mode rc4_only true aead false mode_none mode h (refl, refl)

settle_lem :
    (selected : Option MacAlg) (f_ccip f_scip : Option (List ℕ)) (policy : CipherPolicy)
    (alg : MacAlg) (mode : CipherMode)
    → settle selected f_ccip f_scip policy ≡ some (alg, mode)
    → (selected ≡ some alg) × (meets policy mode ≡ true) × (backed alg f_ccip f_scip mode ≡ true)
unfolding settle
settle_lem none f_ccip f_scip policy alg mode h = absurd (none-ne-some (alg, mode) h)
settle_lem (some a) f_ccip f_scip policy alg mode h =
    let rc4 = field_contains_rc4 f_ccip || field_contains_rc4 f_scip in
    let aead = field_contains_chacha20 f_ccip || field_contains_chacha20 f_scip in
    elim (Option-cases (choose_mode policy rc4 aead (not (is_inverse a)))) [
      | inl e ↦ absurd (none-ne-some (alg, mode) (rw (e, settle) at h))
      | inr (m, e) ↦
          let same : (a, m) ≡ (alg, mode) =
            some-injective (a, m) (alg, mode) (rw (e, settle) at h) in
          let (k, l) = choose_mode_lem policy rc4 aead (not (is_inverse a)) m e in
          (
            ap (λ p. some p.0) same,
            ap (λ p. meets policy p.1) (sym same) ∙ k,
            ap (λ p. backed p.0 f_ccip f_scip p.1) (sym same) ∙ l,
          )
    ]

-- A cipher is used only for a client that named it in one of the two fields.
abbrev pub IsNamed : Option (List ℕ) → Option (List ℕ) → CipherMode → Type 0
IsNamed f_ccip f_scip mode_none = Unit
IsNamed f_ccip f_scip mode_rc4 = Names IsRc4 f_ccip ⊎ Names IsRc4 f_scip
IsNamed f_ccip f_scip mode_aead = Names IsChacha20 f_ccip ⊎ Names IsChacha20 f_scip

either_field :
    (test : List ℕ → Bool) (IsKind : List ℕ → Type 0) (f g : Option (List ℕ)) (keyed : Bool)
    → ((name : List ℕ) → test name ≡ true → IsKind name)
    → (keyed && (field_contains test f || field_contains test g)) ≡ true
    → Names IsKind f ⊎ Names IsKind g
either_field test IsKind f g false kind h = absurd cc
either_field test IsKind f g true kind h =
    elim (or-true (field_contains test f) (field_contains test g) h) [
      | inl e ↦ inl (field_contains-Names test IsKind f kind e)
      | inr e ↦ inr (field_contains-Names test IsKind g kind e)
    ]

backed-IsNamed :
    (alg : MacAlg) (f_ccip f_scip : Option (List ℕ)) (mode : CipherMode)
    → backed alg f_ccip f_scip mode ≡ true
    → IsNamed f_ccip f_scip mode
backed-IsNamed alg f_ccip f_scip mode_none h = tt
backed-IsNamed alg f_ccip f_scip mode_rc4 h = either_field _ IsRc4 f_ccip f_scip _ is_rc4_lem h
backed-IsNamed alg f_ccip f_scip mode_aead h =
    either_field _ IsChacha20 f_ccip f_scip _ is_chacha20_lem h

-- What the server settles on in strict mode: the algorithm is HMAC-SHA256, HMAC-SHA1 or HMAC-MD5, of
-- which the comment in hope.h leaves the first out; the cipher mode is one that the policy lets it
-- be; and RC4 or ChaCha20 is used only if one of the client's two lists of ciphers holds one of the
-- names for it. It holds for all fields of the probe, malformed ones included.
pub negotiate_lem :
    (f_mac f_ccip f_scip : Option (List ℕ)) (policy : CipherPolicy) (alg : MacAlg)
    (mode : CipherMode)
    → negotiate f_mac f_ccip f_scip false policy ≡ some (alg, mode)
    → IsHmac alg × (meets policy mode ≡ true) × IsNamed f_ccip f_scip mode
unfolding negotiate
negotiate_lem none f_ccip f_scip policy alg mode h =
    absurd (none-ne-some alg (settle_lem none f_ccip f_scip policy alg mode h).0)
negotiate_lem (some bytes) f_ccip f_scip policy alg mode h =
    let (e, k, l) =
      settle_lem (select_best_algorithm bytes false) f_ccip f_scip policy alg mode h in
    (
      strongest-IsHmac (offers bytes) alg (sym (select_best_algorithm-strongest bytes false) ∙ e),
      k,
      backed-IsNamed alg f_ccip f_scip mode l,
    )
