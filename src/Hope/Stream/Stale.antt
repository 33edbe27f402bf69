-- ===== src/Hope/Stream/Stale.antt =====
-- The old value that the code leaves in `body_rest_remaining`.
use lemoniscate.Common.{
  ℕ, zero, suc, ◌+◌, ◌-◌, ◌*◌, ◌≤◌, ◌≡◌, refl, ap, sym, ◌∙◌, arith, Bool, true, false, leb, ◌==◌,
  if◌then◌else◌, inl, inr, lt_or_le,
}
use lemoniscate.Common.{List, [], ◌∷◌, take, drop, length, length-drop}
use lemoniscate.Hope.Mac.{MacAlg, Hashes}
use lemoniscate.Hope.Stream.{
  Cipher, Inbound, Result, Phase, phase_header, phase_body_prefix, phase_body_rest, header_read,
  prefix_read, prefix_len, decrypt_from, decrypt_rest, after,
}
use lemoniscate.Hope.Stream.Cases.{
  header_next, header_bytes, some_bytes, prefix_next, header_short, header_full, prefix_short,
  prefix_full,
}
use lemoniscate.Hope.Stream.Fuel.{weight, weight_le, prefix_next-weight, decrypt_rest-step}

-- `body_rest_remaining` counts only while the rest of a body is read; the code leaves the old value
-- in it otherwise.
abbrev pub live : Phase → ℕ → ℕ
live phase_header r = 0
live phase_body_prefix r = 0
live phase_body_rest r = r

abbrev pub settled : Inbound → Inbound
settled st = record {
  decrypt = st.decrypt;
  decrypt_phase = st.decrypt_phase;
  current_body_len = st.current_body_len;
  body_rest_remaining = live st.decrypt_phase st.body_rest_remaining;
  rotation_count = st.rotation_count;
}

abbrev pub view : Result → Result
view r = (settled r.0, r.1, r.2)

abbrev pub inbound : Cipher → Phase → ℕ → ℕ → ℕ → Inbound
inbound c p l r k = record {
  decrypt = c;
  decrypt_phase = p;
  current_body_len = l;
  body_rest_remaining = r;
  rotation_count = k;
}

live_if_header :
    (b : Bool) (r s : ℕ)
    → live (if b then phase_header else phase_body_prefix) r
      ≡ live (if b then phase_header else phase_body_prefix) s
live_if_header true r s = refl
live_if_header false r s = refl

live_if_rest :
    (b : Bool) (r s x : ℕ)
    → live (if b then phase_header else phase_body_rest) (if b then r else x)
      ≡ live (if b then phase_header else phase_body_rest) (if b then s else x)
live_if_rest true r s x = refl
live_if_rest false r s x = refl

module _ (h : Hashes) (mac_alg : MacAlg) (session_key : List ℕ) where
  abbrev pub D : Inbound → List ℕ → Result
  D st buf = decrypt_rest h mac_alg session_key st buf

  pub D-nil : (st : Inbound) → D st [] ≡ (st, [], [])
  unfolding decrypt_rest decrypt_from
  D-nil st = refl

  abbrev pub Stale : ℕ → Type 0
  Stale n =
      (c : Cipher) (p : Phase) (l r s k : ℕ) (buf : List ℕ)
      → live p r ≡ live p s
      → 2 * length buf + weight p ≤ n
      → view (D (inbound c p l r k) buf) ≡ view (D (inbound c p l s k) buf)

  old_header :
      (n : ℕ)
      → Stale n
      → (c : Cipher) (l r s k x : ℕ) (buf : List ℕ) → 2 * length (x ∷ buf) ≤ suc n
      → view (D (inbound c phase_header l r k) (x ∷ buf))
        ≡ view (D (inbound c phase_header l s k) (x ∷ buf))
  unfolding header_read
  old_header n ih c l r s k x buf m =
      let one = inbound c phase_header l r k in
      let two = inbound c phase_header l s k in
      let next = header_next h mac_alg session_key one (take 20 (x ∷ buf)) in
      ap view (decrypt_rest-step h mac_alg session_key one x buf)
      ∙ (elim (lt_or_le (length (x ∷ buf)) 20) [
        | inl short ↦
            ap view (header_short h mac_alg session_key D one (x ∷ buf) short)
            ∙ ap view (sym (header_short h mac_alg session_key D two (x ∷ buf) short))
        | inr full ↦
            ap view (header_full h mac_alg session_key D one (x ∷ buf) full)
            ∙ ap (after (header_bytes h mac_alg session_key one (take 20 (x ∷ buf)))) (
                ih next.decrypt next.decrypt_phase next.current_body_len r s next.rotation_count
                  (drop 20 (x ∷ buf)) (live_if_header (next.current_body_len == 0) r s)
                  (omega (arith, length-drop 20 (x ∷ buf), weight_le next.decrypt_phase)))
            ∙ ap view (sym (header_full h mac_alg session_key D two (x ∷ buf) full))
      ])
      ∙ ap view (sym (decrypt_rest-step h mac_alg session_key two x buf))

  old_prefix :
      (n : ℕ)
      → Stale n
      → (c : Cipher) (l r s k x : ℕ) (buf : List ℕ) → 2 * length (x ∷ buf) + 1 ≤ suc n
      → view (D (inbound c phase_body_prefix l r k) (x ∷ buf))
        ≡ view (D (inbound c phase_body_prefix l s k) (x ∷ buf))
  unfolding prefix_read
  old_prefix n ih c l r s k x buf m =
      let one = inbound c phase_body_prefix l r k in
      let two = inbound c phase_body_prefix l s k in
      let len = prefix_len one in
      let next = prefix_next h mac_alg session_key one (take len (x ∷ buf)) in
      ap view (decrypt_rest-step h mac_alg session_key one x buf)
      ∙ (elim (lt_or_le (length (x ∷ buf)) len) [
        | inl short ↦
            ap view (prefix_short h mac_alg session_key D one (x ∷ buf) short)
            ∙ ap view (sym (prefix_short h mac_alg session_key D two (x ∷ buf) short))
        | inr full ↦
            ap view (prefix_full h mac_alg session_key D one (x ∷ buf) full)
            ∙ ap (after (some_bytes h mac_alg session_key one (take len (x ∷ buf)))) (
                ih next.decrypt next.decrypt_phase l _ _ k (drop len (x ∷ buf))
                  (live_if_rest (leb l 2) r s (l - 2))
                  (omega (
                    arith,
                    length-drop len (x ∷ buf),
                    prefix_next-weight h mac_alg session_key one (take len (x ∷ buf)),
                  )))
            ∙ ap view (sym (prefix_full h mac_alg session_key D two (x ∷ buf) full))
      ])
      ∙ ap view (sym (decrypt_rest-step h mac_alg session_key two x buf))

  pub old_count : (n : ℕ) → Stale n
  old_count n c p l r s k [] e m =
      ap view (D-nil (inbound c p l r k))
      ∙ ap (λ v. (inbound c p l v k, [], [])) e
      ∙ ap view (sym (D-nil (inbound c p l s k)))
  old_count zero c p l r s k (x ∷ buf) e m = absurd (omega arith)
  old_count (suc n) c phase_header l r s k (x ∷ buf) e m =
      old_header n (old_count n) c l r s k x buf (omega arith)
  old_count (suc n) c phase_body_prefix l r s k (x ∷ buf) e m =
      old_prefix n (old_count n) c l r s k x buf m
  old_count (suc n) c phase_body_rest l r s k (x ∷ buf) e m =
      ap (λ v. view (D (inbound c phase_body_rest l v k) (x ∷ buf))) e
