-- ===== src/Hope/Stream.antt =====
-- src/hotline/hope.c, the RC4 transport: key rotation, the encryption of a transaction and the
-- decryption of what has been read so far.
pub mod Cases
pub mod Fuel
pub mod Stale
pub mod Rounds
pub mod Pieces
mod Back
pub mod RoundTrip
mod Tests
use lemoniscate.Common.{
  ℕ, zero, suc, ◌+◌, ◌-◌, ◌*◌, Bool, true, false, leb, ltb, ◌==◌, if◌then◌else◌, min,
}
use lemoniscate.Common.{List, [], ◌∷◌, ◌++◌, take, drop, length, get_or, set}
use lemoniscate.Hope.Rc4.{Rc4, rc4_init, rc4_process}
use lemoniscate.Hope.Mac.{MacAlg, Hashes, hope_mac}
use lemoniscate.Wire.{read_u32}

-- `current_key` is its first `key_len` bytes.
pub record Cipher : Type 0 where
  pub rc4 : Rc4
  pub current_key : List ℕ

pub data Phase : Type 0 where
  phase_header phase_body_prefix phase_body_rest : Phase

-- The part of hl_hope_state_t that decryption reads and writes, but for the offset.
pub record Inbound : Type 0 where
  pub decrypt : Cipher
  pub decrypt_phase : Phase
  pub current_body_len : ℕ
  pub body_rest_remaining : ℕ
  pub rotation_count : ℕ

-- The state, the bytes that were decrypted, and those that were left as they are.
abbrev pub Result : Type 0
Result = Inbound × List ℕ × List ℕ

abbrev pub after : List ℕ → Result → Result
after out r = (r.0, out ++ r.1, r.2)

abbrev pub with_rc4 : Cipher → Rc4 → Cipher
with_rc4 c rc4 = record { rc4 = rc4; current_key = c.current_key }

abbrev pub prefix_len : Inbound → ℕ
prefix_len st = if ltb st.current_body_len 2 then st.current_body_len else 2

-- The state after bytes of the rest of a body.
unfoldable pub rest_read : Inbound → Phase → ℕ → Rc4 → Inbound
rest_read st phase remaining rc4 = record {
  decrypt = with_rc4 st.decrypt rc4;
  decrypt_phase = phase;
  current_body_len = st.current_body_len;
  body_rest_remaining = remaining;
  rotation_count = st.rotation_count;
}

module _ (h : Hashes) (mac_alg : MacAlg) (session_key : List ℕ) where
  unfoldable pub rotate_cipher_key : Cipher → Cipher
  rotate_cipher_key c =
      let new_key = hope_mac h mac_alg session_key c.current_key in
      record { rc4 = rc4_init new_key; current_key = new_key }

  unfoldable pub rotate_times : ℕ → Cipher → Cipher
  rotate_times zero c = c
  rotate_times (suc r) c = rotate_times r (rotate_cipher_key c)

  -- The state after a header of 20 bytes, decrypted.
  unfoldable pub header_read : Inbound → Rc4 → List ℕ → Inbound
  header_read st rc4 out =
      let rotations = get_or out 0 0 in
      let body_len =
        read_u32 (get_or out 16 0, get_or out 17 0, get_or out 18 0, get_or out 19 0) in
      let c = with_rc4 st.decrypt rc4 in
      record {
        decrypt = if body_len == 0 then rotate_times rotations c else c;
        decrypt_phase = if body_len == 0 then phase_header else phase_body_prefix;
        current_body_len = body_len;
        body_rest_remaining = st.body_rest_remaining;
        rotation_count = rotations;
      }

  -- The state after the prefix of a body.
  unfoldable pub prefix_read : Inbound → Rc4 → Inbound
  prefix_read st rc4 = record {
    decrypt = rotate_times st.rotation_count (with_rc4 st.decrypt rc4);
    decrypt_phase = if leb st.current_body_len 2 then phase_header else phase_body_rest;
    current_body_len = st.current_body_len;
    body_rest_remaining =
        if leb st.current_body_len 2 then st.body_rest_remaining else st.current_body_len - 2;
    rotation_count = st.rotation_count;
  }

  -- The three cases of the switch; `loop` is the rest of the loop.
  unfoldable pub header_case : (Inbound → List ℕ → Result) → Inbound → List ℕ → Result
  header_case loop st buf = elim (ltb (length buf) 20) [
    | true ↦ (st, [], buf)
    | false ↦
        let (rc4, out) = rc4_process st.decrypt.rc4 (take 20 buf) in
        after (set out 0 0) (loop (header_read st rc4 out) (drop 20 buf))
  ]

  unfoldable pub prefix_case : (Inbound → List ℕ → Result) → Inbound → List ℕ → Result
  prefix_case loop st buf = elim (ltb (length buf) (prefix_len st)) [
    | true ↦ (st, [], buf)
    | false ↦
        let (rc4, out) = rc4_process st.decrypt.rc4 (take (prefix_len st) buf) in
        after out (loop (prefix_read st rc4) (drop (prefix_len st) buf))
  ]

  unfoldable pub rest_case : (Inbound → List ℕ → Result) → Inbound → List ℕ → Result
  rest_case loop st buf = elim (ltb (length buf) st.body_rest_remaining) [
    | true ↦
        let (rc4, out) = rc4_process st.decrypt.rc4 buf in
        (rest_read st phase_body_rest (st.body_rest_remaining - length buf) rc4, out, [])
    | false ↦
        let (rc4, out) = rc4_process st.decrypt.rc4 (take st.body_rest_remaining buf) in
        after out (
          loop (rest_read st phase_header st.body_rest_remaining rc4)
            (drop st.body_rest_remaining buf))
  ]

  abbrev pub switch : Phase → (Inbound → List ℕ → Result) → Inbound → List ℕ → Result
  switch phase_header loop st buf = header_case loop st buf
  switch phase_body_prefix loop st buf = prefix_case loop st buf
  switch phase_body_rest loop st buf = rest_case loop st buf

  -- The loop on the bytes that are not decrypted yet.
  unfoldable pub decrypt_from : ℕ → Inbound → List ℕ → Result
  decrypt_from zero st buf = (st, [], buf)
  decrypt_from (suc fuel) st [] = (st, [], [])
  decrypt_from (suc fuel) st (b ∷ bs) =
      switch st.decrypt_phase (λ s rest. decrypt_from fuel s rest) st (b ∷ bs)

  -- Two rounds for each byte are enough, and one more: a round that takes no byte is followed by a
  -- header.
  unfoldable pub decrypt_rest : Inbound → List ℕ → Result
  decrypt_rest st buf = decrypt_from (2 * length buf + 1) st buf

  -- On the read buffer, of which `decrypt_offset` bytes are decrypted already: the state, the new
  -- offset and the buffer.
  unfoldable pub decrypt_incremental : Inbound → ℕ → List ℕ → Inbound × ℕ × List ℕ
  decrypt_incremental st decrypt_offset buf =
      let (st', out, left) = decrypt_rest st (drop decrypt_offset buf) in
      (st', decrypt_offset + length out, take decrypt_offset buf ++ (out ++ left))

unfoldable pub adjust_offset : ℕ → ℕ → ℕ
adjust_offset decrypt_offset consumed =
    if leb decrypt_offset consumed then 0 else decrypt_offset - consumed

-- The key stream runs through the header, the first two bytes and the rest.
unfoldable pub encrypt_transaction : Rc4 → List ℕ → Rc4 × List ℕ
encrypt_transaction rc4 buf =
    let (rc4_1, header) = rc4_process rc4 (take 20 buf) in
    let body = drop 20 buf in
    let (rc4_2, first) = rc4_process rc4_1 (take 2 body) in
    let (rc4_3, rest) = rc4_process rc4_2 (drop 2 body) in
    if ltb (length buf) 20 then (rc4, buf) else (rc4_3, header ++ (first ++ rest))
