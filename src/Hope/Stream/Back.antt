-- ===== src/Hope/Stream/Back.antt =====
-- The parts of a transaction, encrypted and read back.
use lemoniscate.Common.{ℕ, ◌<◌, ◌≡◌, refl, ap, ap₂, sym, ◌∙◌, arith}
use lemoniscate.Common.{
  List, [], ◌∷◌, ◌++◌, append-nil, length, get_or, set, length-append, take-append_len,
  drop-append_len, take-beyond, drop-beyond,
}
use lemoniscate.Hope.Rc4.{Rc4, rc4_process}
use lemoniscate.Hope.Rc4.Stream.{rc4_process-rc4_process, length-rc4_process}
use lemoniscate.Hope.Mac.{MacAlg, Hashes}
use lemoniscate.Hope.Stream.{
  Cipher, Inbound, phase_header, phase_body_prefix, phase_body_rest, header_read, prefix_read,
  rest_read, prefix_len, switch, after,
}
use lemoniscate.Hope.Stream.Cases.{
  header_next, header_bytes, some_bytes, prefix_next, rest_next, header_full, prefix_full,
  rest_full,
}
use lemoniscate.Hope.Stream.Fuel.{decrypt_rest-step}
use lemoniscate.Hope.Stream.Stale.{D, D-nil, inbound}

set_zero : (l : List ℕ) → get_or l 0 0 ≡ 0 → set l 0 0 ≡ l
set_zero [] e = refl
set_zero (x ∷ l) e = ap (λ y. y ∷ l) (sym e)

module _ (h : Hashes) (mac_alg : MacAlg) (session_key : List ℕ) where
  pub step :
      (st : Inbound) (buf : List ℕ)
      → 0 < length buf
      → D h mac_alg session_key st buf
        ≡ switch h mac_alg session_key st.decrypt_phase (D h mac_alg session_key) st buf
  step st [] pos = absurd (omega arith)
  step st (x ∷ buf) pos = decrypt_rest-step h mac_alg session_key st x buf

  abbrev pub with_state : List ℕ → Rc4 → Cipher
  with_state key rc4 = record { rc4 = rc4; current_key = key }

  -- One call of the cipher's other end gives the bytes back.
  pub back :
      (rc4 : Rc4) (bytes : List ℕ)
      → rc4_process rc4 (rc4_process rc4 bytes).1 ≡ ((rc4_process rc4 bytes).0, bytes)
  back rc4 bytes = rc4_process-rc4_process rc4 bytes

  -- The rest of a body, sent in one piece.
  pub rest_back :
      (key : List ℕ) (rc4 : Rc4) (l k x : ℕ) (q : List ℕ)
      → D h mac_alg session_key
          (inbound (with_state key rc4) phase_body_rest l (length (x ∷ q)) k)
          (rc4_process rc4 (x ∷ q)).1
        ≡ (
          inbound (with_state key (rc4_process rc4 (x ∷ q)).0) phase_header l (length (x ∷ q)) k,
          x ∷ q,
          [],
        )
  unfolding rest_read
  rest_back key rc4 l k x q =
      let K = D h mac_alg session_key in
      let n = length (x ∷ q) in
      let st = inbound (with_state key rc4) phase_body_rest l n k in
      let c = (rc4_process rc4 (x ∷ q)).1 in
      let len = length-rc4_process rc4 (x ∷ q) in
      step st c (omega (arith, len))
      ∙ rest_full h mac_alg session_key K st c (omega (arith, len))
      ∙ ap₂
          (λ t u.
            after (some_bytes h mac_alg session_key st t)
              (K (rest_next h mac_alg session_key st t) u))
          (take-beyond n c (omega (arith, len))) (drop-beyond n c (omega (arith, len)))
      ∙ ap (λ p. after p.1 (K (rest_read st phase_header n p.0) [])) (back rc4 (x ∷ q))
      ∙ ap (after (x ∷ q))
          (D-nil h mac_alg session_key (rest_read st phase_header n (rc4_process rc4 (x ∷ q)).0))
      ∙ ap (λ t. (inbound (with_state key (rc4_process rc4 (x ∷ q)).0) phase_header l n k, t, []))
          (append-nil (x ∷ q))

  -- The header.
  pub header_back :
      (key : List ℕ) (rc4 : Rc4) (l r k : ℕ) (header more : List ℕ)
      → length header ≡ 20
      → get_or header 0 0 ≡ 0
      → D h mac_alg session_key
          (inbound (with_state key rc4) phase_header l r k)
          ((rc4_process rc4 header).1 ++ more)
        ≡ after header (
            D h mac_alg session_key
              (header_read h mac_alg session_key
                (inbound (with_state key rc4) phase_header l r k)
                (rc4_process rc4 header).0
                header)
              more)
  header_back key rc4 l r k header more len zero_flags =
      let K = D h mac_alg session_key in
      let st = inbound (with_state key rc4) phase_header l r k in
      let c = (rc4_process rc4 header).1 in
      let size = length-append c more in
      let clen = length-rc4_process rc4 header in
      step st (c ++ more) (omega (arith, size, clen, len))
      ∙ header_full h mac_alg session_key K st (c ++ more) (omega (arith, size, clen, len))
      ∙ ap₂
          (λ t u.
            after (header_bytes h mac_alg session_key st t)
              (K (header_next h mac_alg session_key st t) u))
          (take-append_len 20 c more (clen ∙ len)) (drop-append_len 20 c more (clen ∙ len))
      ∙ ap (λ p. after (set p.1 0 0) (K (header_read h mac_alg session_key st p.0 p.1) more))
          (back rc4 header)
      ∙ ap
          (λ t.
            after t
              (K (header_read h mac_alg session_key st (rc4_process rc4 header).0 header) more))
          (set_zero header zero_flags)

  -- The prefix.
  pub prefix_back :
      (key : List ℕ) (rc4 : Rc4) (l r : ℕ) (p more : List ℕ)
      → 0 < length p
      → prefix_len (inbound (with_state key rc4) phase_body_prefix l r 0) ≡ length p
      → D h mac_alg session_key
          (inbound (with_state key rc4) phase_body_prefix l r 0)
          ((rc4_process rc4 p).1 ++ more)
        ≡ after p (
            D h mac_alg session_key
              (prefix_read h mac_alg session_key
                (inbound (with_state key rc4) phase_body_prefix l r 0)
                (rc4_process rc4 p).0)
              more)
  prefix_back key rc4 l r p more pos n =
      let K = D h mac_alg session_key in
      let st = inbound (with_state key rc4) phase_body_prefix l r 0 in
      let c = (rc4_process rc4 p).1 in
      let size = length-append c more in
      let clen = length-rc4_process rc4 p in
      step st (c ++ more) (omega (arith, size, clen))
      ∙ prefix_full h mac_alg session_key K st (c ++ more) (omega (arith, size, clen, n))
      ∙ ap₂
          (λ t u.
            after (some_bytes h mac_alg session_key st t)
              (K (prefix_next h mac_alg session_key st t) u))
          (take-append_len (prefix_len st) c more (clen ∙ sym n))
          (drop-append_len (prefix_len st) c more (clen ∙ sym n))
      ∙ ap (λ o. after o.1 (K (prefix_read h mac_alg session_key st o.0) more)) (back rc4 p)
