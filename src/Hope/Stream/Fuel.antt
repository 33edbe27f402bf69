-- ===== src/Hope/Stream/Fuel.antt =====
-- The fuel of the decryption loop.
use lemoniscate.Common.{
  ℕ, zero, suc, ◌+◌, ◌*◌, ◌≤◌, ◌<◌, ◌≡◌, refl, ap, sym, ◌∙◌, arith, inl, inr, lt_or_le,
}
use lemoniscate.Common.{List, [], ◌∷◌, take, drop, length, length-drop}
use lemoniscate.Hope.Mac.{MacAlg, Hashes}
use lemoniscate.Hope.Stream.{
  Inbound, Result, Phase, phase_header, phase_body_prefix, phase_body_rest, prefix_read, rest_read,
  prefix_len, header_case, prefix_case, rest_case, switch, decrypt_from, decrypt_rest, after,
}
use lemoniscate.Hope.Stream.Cases.{
  header_next, header_bytes, some_bytes, prefix_next, rest_next, header_short, header_full,
  prefix_short, prefix_full, rest_short, rest_full,
}

abbrev pub weight : Phase → ℕ
weight phase_header = 0
weight phase_body_prefix = 1
weight phase_body_rest = 1

pub weight_le : (p : Phase) → weight p ≤ 1
weight_le phase_header = omega arith
weight_le phase_body_prefix = omega arith
weight_le phase_body_rest = omega arith

module _ (h : Hashes) (mac_alg : MacAlg) (session_key : List ℕ) where
  -- A body whose prefix is empty has no rest.
  pub prefix_next-weight :
      (st : Inbound) (buf : List ℕ)
      → weight (prefix_next h mac_alg session_key st buf).decrypt_phase ≤ prefix_len st
  unfolding prefix_read
  prefix_next-weight st buf = ground arith

  -- The loops agree wherever fewer than `n` rounds can be left.
  abbrev Agree : (f g : Inbound → List ℕ → Result) → ℕ → Type 0
  Agree f g n =
      (st : Inbound) (buf : List ℕ)
      → 2 * length buf + weight st.decrypt_phase < n
      → f st buf ≡ g st buf

  module _ (f g : Inbound → List ℕ → Result) (st : Inbound) (buf : List ℕ)
      (pos : 0 < length buf) where
    header_same :
        Agree f g (2 * length buf)
        → header_case h mac_alg session_key f st buf ≡ header_case h mac_alg session_key g st buf
    header_same same =
        let next = header_next h mac_alg session_key st (take 20 buf) in
        elim (lt_or_le (length buf) 20) [
          | inl l ↦
              header_short h mac_alg session_key f st buf l
              ∙ sym (header_short h mac_alg session_key g st buf l)
          | inr l ↦
              header_full h mac_alg session_key f st buf l
              ∙ ap (after (header_bytes h mac_alg session_key st (take 20 buf))) (
                  same next (drop 20 buf)
                    (omega (arith, length-drop 20 buf, weight_le next.decrypt_phase)))
              ∙ sym (header_full h mac_alg session_key g st buf l)
        ]

    prefix_same :
        Agree f g (2 * length buf + 1)
        → prefix_case h mac_alg session_key f st buf ≡ prefix_case h mac_alg session_key g st buf
    prefix_same same =
        let n = prefix_len st in
        let next = prefix_next h mac_alg session_key st (take n buf) in
        elim (lt_or_le (length buf) n) [
          | inl l ↦
              prefix_short h mac_alg session_key f st buf l
              ∙ sym (prefix_short h mac_alg session_key g st buf l)
          | inr l ↦
              prefix_full h mac_alg session_key f st buf l
              ∙ ap (after (some_bytes h mac_alg session_key st (take n buf))) (
                  same next (drop n buf)
                    (omega (arith, length-drop n buf, prefix_next-weight st (take n buf))))
              ∙ sym (prefix_full h mac_alg session_key g st buf l)
        ]

    rest_less :
        (n : ℕ)
        → 2 * length (drop n buf)
            + weight (rest_next h mac_alg session_key st (take n buf)).decrypt_phase
          < 2 * length buf + 1
    unfolding rest_read
    rest_less n = omega (arith, length-drop n buf)

    rest_same :
        Agree f g (2 * length buf + 1)
        → rest_case h mac_alg session_key f st buf ≡ rest_case h mac_alg session_key g st buf
    rest_same same =
        let n = st.body_rest_remaining in
        let next = rest_next h mac_alg session_key st (take n buf) in
        elim (lt_or_le (length buf) n) [
          | inl l ↦
              rest_short h mac_alg session_key f st buf l
              ∙ sym (rest_short h mac_alg session_key g st buf l)
          | inr l ↦
              rest_full h mac_alg session_key f st buf l
              ∙ ap (after (some_bytes h mac_alg session_key st (take n buf)))
                  (same next (drop n buf) (rest_less n))
              ∙ sym (rest_full h mac_alg session_key g st buf l)
        ]

  switch_same :
      (p : Phase) (f g : Inbound → List ℕ → Result) (st : Inbound) (buf : List ℕ)
      → 0 < length buf
      → Agree f g (2 * length buf + weight p)
      → switch h mac_alg session_key p f st buf ≡ switch h mac_alg session_key p g st buf
  switch_same phase_header f g st buf pos same =
      header_same f g st buf pos (λ s b lt. same s b (omega arith))
  switch_same phase_body_prefix f g st buf pos same = prefix_same f g st buf pos same
  switch_same phase_body_rest f g st buf pos same = rest_same f g st buf pos same

  decrypt_from-enough :
      (m n : ℕ) (st : Inbound) (buf : List ℕ)
      → 2 * length buf + weight st.decrypt_phase ≤ m
      → 2 * length buf + weight st.decrypt_phase ≤ n
      → decrypt_from h mac_alg session_key m st buf ≡ decrypt_from h mac_alg session_key n st buf
  unfolding decrypt_from
  decrypt_from-enough zero zero st [] a b = refl
  decrypt_from-enough zero (suc n) st [] a b = refl
  decrypt_from-enough (suc m) zero st [] a b = refl
  decrypt_from-enough (suc m) (suc n) st [] a b = refl
  decrypt_from-enough zero n st (x ∷ buf) a b = absurd (omega arith)
  decrypt_from-enough (suc m) zero st (x ∷ buf) a b = absurd (omega arith)
  decrypt_from-enough (suc m) (suc n) st (x ∷ buf) a b =
      switch_same st.decrypt_phase (λ s r. decrypt_from h mac_alg session_key m s r)
        (λ s r. decrypt_from h mac_alg session_key n s r) st (x ∷ buf) (omega arith)
        (λ s r lt. decrypt_from-enough m n s r (omega arith) (omega arith))

  -- The fuel that decrypt_incremental gives always suffices: its loop is the switch followed by the
  -- loop, with no count of rounds.
  pub decrypt_rest-step :
      (st : Inbound) (x : ℕ) (buf : List ℕ)
      → decrypt_rest h mac_alg session_key st (x ∷ buf)
        ≡ switch h mac_alg session_key st.decrypt_phase
            (decrypt_rest h mac_alg session_key)
            st
            (x ∷ buf)
  unfolding decrypt_rest decrypt_from
  decrypt_rest-step st x buf =
      decrypt_from-enough (2 * length (x ∷ buf) + 1) (suc (2 * length (x ∷ buf) + 1)) st (x ∷ buf)
        (omega (arith, weight_le st.decrypt_phase)) (omega (arith, weight_le st.decrypt_phase))
      ∙ switch_same st.decrypt_phase
          (λ s r. decrypt_from h mac_alg session_key (2 * length (x ∷ buf) + 1) s r)
          (decrypt_rest h mac_alg session_key) st (x ∷ buf) (omega arith)
          (λ s r lt.
            decrypt_from-enough (2 * length (x ∷ buf) + 1) (2 * length r + 1) s r
              (omega (arith, weight_le st.decrypt_phase))
              (omega (arith, weight_le s.decrypt_phase)))
