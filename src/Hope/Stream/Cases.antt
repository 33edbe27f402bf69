-- ===== src/Hope/Stream/Cases.antt =====
-- The rounds of the decryption loop as equations.
use lemoniscate.Common.{ℕ, ◌-◌, ◌≤◌, ◌<◌, ◌≡◌, arith, false, ltb, lt→ltb}
use lemoniscate.Common.{List, [], take, drop, length, set}
use lemoniscate.Hope.Rc4.{rc4_process}
use lemoniscate.Hope.Mac.{MacAlg, Hashes}
use lemoniscate.Hope.Stream.{
  Inbound, Result, phase_header, phase_body_rest, header_read, prefix_read, rest_read, prefix_len,
  header_case, prefix_case, rest_case, after,
}

pub not_less : (a b : ℕ) → b ≤ a → ltb a b ≡ false
not_less a b h = ground arith

module _ (h : Hashes) (mac_alg : MacAlg) (session_key : List ℕ) where
  -- What a round decrypts, and the state that it leaves.
  abbrev pub header_bytes : Inbound → List ℕ → List ℕ
  header_bytes st bytes = set (rc4_process st.decrypt.rc4 bytes).1 0 0

  abbrev pub header_next : Inbound → List ℕ → Inbound
  header_next st bytes =
      header_read h mac_alg session_key st (rc4_process st.decrypt.rc4 bytes).0
        (rc4_process st.decrypt.rc4 bytes).1

  abbrev pub some_bytes : Inbound → List ℕ → List ℕ
  some_bytes st bytes = (rc4_process st.decrypt.rc4 bytes).1

  abbrev pub prefix_next : Inbound → List ℕ → Inbound
  prefix_next st bytes = prefix_read h mac_alg session_key st (rc4_process st.decrypt.rc4 bytes).0

  abbrev pub rest_next : Inbound → List ℕ → Inbound
  rest_next st bytes =
      rest_read st phase_header st.body_rest_remaining (rc4_process st.decrypt.rc4 bytes).0

  module _ (loop : Inbound → List ℕ → Result) (st : Inbound) (buf : List ℕ) where
    pub header_short :
        length buf < 20 → header_case h mac_alg session_key loop st buf ≡ (st, [], buf)
    unfolding header_case
    header_short l = rw (lt→ltb (length buf) 20 l, header_case)

    pub header_full :
        20 ≤ length buf
        → header_case h mac_alg session_key loop st buf
          ≡ after
              (header_bytes st (take 20 buf))
              (loop (header_next st (take 20 buf)) (drop 20 buf))
    unfolding header_case
    header_full l = rw (not_less (length buf) 20 l, header_case)

    pub prefix_short :
        length buf < prefix_len st → prefix_case h mac_alg session_key loop st buf ≡ (st, [], buf)
    unfolding prefix_case
    prefix_short l = rw (lt→ltb (length buf) (prefix_len st) l, prefix_case)

    pub prefix_full :
        prefix_len st ≤ length buf
        → prefix_case h mac_alg session_key loop st buf
          ≡ after
              (some_bytes st (take (prefix_len st) buf))
              (loop (prefix_next st (take (prefix_len st) buf)) (drop (prefix_len st) buf))
    unfolding prefix_case
    prefix_full l = rw (not_less (length buf) (prefix_len st) l, prefix_case)

    pub rest_short :
        length buf < st.body_rest_remaining
        → rest_case h mac_alg session_key loop st buf ≡ (
          rest_read st phase_body_rest
              (st.body_rest_remaining - length buf)
              (rc4_process st.decrypt.rc4 buf).0,
          (rc4_process st.decrypt.rc4 buf).1,
          [],
        )
    unfolding rest_case
    rest_short l = rw (lt→ltb (length buf) st.body_rest_remaining l, rest_case)

    pub rest_full :
        st.body_rest_remaining ≤ length buf
        → rest_case h mac_alg session_key loop st buf
          ≡ after (some_bytes st (take st.body_rest_remaining buf)) (
              loop
                (rest_next st (take st.body_rest_remaining buf))
                (drop st.body_rest_remaining buf))
    unfolding rest_case
    rest_full l = rw (not_less (length buf) st.body_rest_remaining l, rest_case)
