-- ===== src/Hope/Stream/RoundTrip.antt =====
-- encrypt_transaction at one end and the decryption loop at the other.
use lemoniscate.Common.{
  ℕ, suc, ◌-◌, ◌≡◌, refl, ap, ap₂, sym, ◌∙◌, arith, Bool, true, false, leb, ltb, ◌==◌,
  if◌then◌else◌,
}
use lemoniscate.Common.{
  List, [], ◌∷◌, ◌++◌, take, drop, length, get_or, length-append, take-append_len, drop-append_len,
}
use lemoniscate.Hope.Rc4.{Rc4, rc4_process}
use lemoniscate.Hope.Mac.{MacAlg, Hashes}
use lemoniscate.Hope.Stream.{
  Inbound, phase_header, phase_body_prefix, phase_body_rest, header_read, prefix_read, rotate_times,
  with_rc4, decrypt_rest, after, encrypt_transaction,
}
use lemoniscate.Hope.Stream.Cases.{not_less}
use lemoniscate.Hope.Stream.Stale.{D, D-nil, inbound}
use lemoniscate.Wire.{read_u32}
use lemoniscate.Hope.Stream.Back.{with_state, rest_back, header_back, prefix_back}

-- The body length that a header gives.
abbrev pub body_len_of : List ℕ → ℕ
body_len_of header =
    read_u32 (get_or header 16 0, get_or header 17 0, get_or header 18 0, get_or header 19 0)

long_eq : (n : ℕ) → (suc (suc (suc n)) == 0) ≡ false
long_eq n = ground arith

long_ltb : (n : ℕ) → ltb (suc (suc (suc n))) 2 ≡ false
long_ltb n = ground arith

long_leb : (n : ℕ) → leb (suc (suc (suc n))) 2 ≡ false
long_leb n = ground arith

module _ (h : Hashes) (mac_alg : MacAlg) (session_key : List ℕ) where
  abbrev sealed_parts : Rc4 → List ℕ → List ℕ → Rc4 × List ℕ
  sealed_parts rc4 header body =
      let one = rc4_process rc4 header in
      let two = rc4_process one.0 (take 2 body) in
      let three = rc4_process two.0 (drop 2 body) in (three.0, one.1 ++ (two.1 ++ three.1))

  encrypt_lem :
      (rc4 : Rc4) (header body : List ℕ)
      → length header ≡ 20
      → encrypt_transaction rc4 (header ++ body) ≡ sealed_parts rc4 header body
  unfolding encrypt_transaction
  encrypt_lem rc4 header body len =
      rw (not_less (length (header ++ body)) 20 (omega (arith, length-append header body, len))) (
        ap₂ (λ t u. sealed_parts rc4 t u) (take-append_len 20 header body len)
          (drop-append_len 20 header body len))

  -- The state after a header that announces a body, and after one that does not.
  header_read_lem :
      (st : Inbound) (rc4 : Rc4) (header : List ℕ) (n : ℕ)
      → get_or header 0 0 ≡ 0
      → body_len_of header ≡ n
      → header_read h mac_alg session_key st rc4 header
        ≡ inbound
            (with_rc4 st.decrypt rc4)
            (if n == 0 then phase_header else phase_body_prefix)
            n
            st.body_rest_remaining
            0
  unfolding header_read rotate_times
  header_read_lem st rc4 header n z e =
      rw (z, e)
        (ap
          (λ c.
            inbound c (if n == 0 then phase_header else phase_body_prefix) n st.body_rest_remaining
              0)
          (same (n == 0)))
    where
      same :
          (b : Bool)
          → (if b then with_rc4 st.decrypt rc4 else with_rc4 st.decrypt rc4)
            ≡ with_rc4 st.decrypt rc4
      same true = refl
      same false = refl

  -- The body, from the state that its header leaves.
  body_back :
      (key : List ℕ) (rc4 : Rc4) (r : ℕ) (body : List ℕ)
      → (s : ℕ) × (D h mac_alg session_key
            (inbound
              (with_state h mac_alg session_key key rc4)
              (if length body == 0 then phase_header else phase_body_prefix)
              (length body)
              r
              0)
            ((rc4_process rc4 (take 2 body)).1
              ++ (rc4_process (rc4_process rc4 (take 2 body)).0 (drop 2 body)).1)
          ≡ (
            inbound
                (with_state h mac_alg session_key key
                  (rc4_process (rc4_process rc4 (take 2 body)).0 (drop 2 body)).0)
                phase_header
                (length body)
                s
                0,
            body,
            [],
          ))
  unfolding rc4_process prefix_read rotate_times
  body_back key rc4 r [] = (r, D-nil h mac_alg session_key _)
  body_back key rc4 r (a ∷ []) = (
    r,
    prefix_back h mac_alg session_key key rc4 1 r (a ∷ []) [] (omega arith) refl
        ∙ ap (after (a ∷ [])) (D-nil h mac_alg session_key _),
  )
  body_back key rc4 r (a ∷ b ∷ []) = (
    r,
    prefix_back h mac_alg session_key key rc4 2 r (a ∷ b ∷ []) [] (omega arith) refl
        ∙ ap (after (a ∷ b ∷ [])) (D-nil h mac_alg session_key _),
  )
  body_back key rc4 r (a ∷ b ∷ x ∷ q) =
      let K = D h mac_alg session_key in
      let n = length (a ∷ b ∷ x ∷ q) in
      let two = rc4_process rc4 (a ∷ b ∷ []) in
      let more = (rc4_process two.0 (x ∷ q)).1 in
      let st = inbound (with_state h mac_alg session_key key rc4) phase_body_prefix n r 0 in
      (
        length (x ∷ q),
        ap
              (λ (t : Bool).
                K
                  (inbound (with_state h mac_alg session_key key rc4)
                    (if t then phase_header else phase_body_prefix) n r 0)
                  (two.1 ++ more))
              (long_eq (length q))
            ∙ prefix_back h mac_alg session_key key rc4 n r (a ∷ b ∷ []) more (omega arith)
                (ap (λ (t : Bool). if t then n else 2) (long_ltb (length q)))
            ∙ ap
                (λ (t : Bool). after (a ∷ b ∷ []) (
                  K
                    (inbound (with_state h mac_alg session_key key two.0)
                      (if t then phase_header else phase_body_rest) n (if t then r else n - 2) 0)
                    more))
                (long_leb (length q))
            ∙ ap
                (λ (t : ℕ). after (a ∷ b ∷ []) (
                  K (inbound (with_state h mac_alg session_key key two.0) phase_body_rest n t 0)
                    more))
                (omega arith)
            ∙ ap (after (a ∷ b ∷ [])) (rest_back h mac_alg session_key key two.0 n 0 x q),
      )

  -- A transaction that one end encrypts, with no flags and with the length of its body in its header,
  -- comes out of the decryption loop of the other end as it was, and leaves the two ciphers in step h mac_alg session_key
  -- and the loop before the next header.
  pub decrypt_rest-encrypt_transaction :
      (key : List ℕ) (rc4 : Rc4) (l r k : ℕ) (header body : List ℕ)
      → length header ≡ 20
      → get_or header 0 0 ≡ 0
      → body_len_of header ≡ length body
      → (s : ℕ) × (decrypt_rest h mac_alg session_key
            (inbound (with_state h mac_alg session_key key rc4) phase_header l r k)
            (encrypt_transaction rc4 (header ++ body)).1
          ≡ (
            inbound
                (with_state h mac_alg session_key key (encrypt_transaction rc4 (header ++ body)).0)
                phase_header
                (length body)
                s
                0,
            header ++ body,
            [],
          ))
  decrypt_rest-encrypt_transaction key rc4 l r k header body len zero_flags size =
      let one = rc4_process rc4 header in
      let more =
        (rc4_process one.0 (take 2 body)).1
        ++ (rc4_process (rc4_process one.0 (take 2 body)).0 (drop 2 body)).1 in
      let st = inbound (with_state h mac_alg session_key key rc4) phase_header l r k in
      let (s, e) = body_back key one.0 r body in
      (
        s,
        ap (λ p. D h mac_alg session_key st p.1) (encrypt_lem rc4 header body len)
            ∙ header_back h mac_alg session_key key rc4 l r k header more len zero_flags
            ∙ ap (λ t. after header (D h mac_alg session_key t more))
                (header_read_lem st one.0 header (length body) zero_flags size)
            ∙ ap (after header) e
            ∙ ap
                (λ p. (
                  inbound (with_state h mac_alg session_key key p.0) phase_header (length body) s 0,
                  header ++ body,
                  [],
                ))
                (sym (encrypt_lem rc4 header body len)),
      )
