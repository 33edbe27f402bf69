-- ===== src/Hope/Stream/Pieces.antt =====
-- Decryption of a stream that is cut in two.
use lemoniscate.Common.{
  ℕ, zero, suc, ◌+◌, ◌-◌, ◌*◌, ◌≤◌, ◌<◌, ◌≡◌, refl, ap, ap₂, sym, ◌∙◌, arith, inl, inr, lt_or_le,
}
use lemoniscate.Common.{
  List, [], ◌∷◌, ◌++◌, append_assoc, append-nil, take, drop, length, length-append, length-drop,
  take-append_le, take-append_ge, drop-append_le, drop-append_ge,
}
use lemoniscate.Hope.Rc4.{rc4_process}
use lemoniscate.Hope.Rc4.Stream.{rc4_process-append}
use lemoniscate.Hope.Mac.{MacAlg, Hashes}
use lemoniscate.Hope.Stream.{
  Cipher, Inbound, phase_header, phase_body_prefix, phase_body_rest, rest_read, decrypt_rest, after,
}
use lemoniscate.Hope.Stream.Cases.{some_bytes, rest_next, rest_short, rest_full}
use lemoniscate.Hope.Stream.Fuel.{weight, decrypt_rest-step}
use lemoniscate.Hope.Stream.Stale.{D, D-nil, old_count, inbound, view}
use lemoniscate.Hope.Stream.Rounds.{in_two, two_after, Pieces, cut_header, cut_prefix}

module _ (h : Hashes) (mac_alg : MacAlg) (session_key : List ℕ) where
  -- The part of a body that came in the first read, and the one in the second.
  rest_in_two :
      (c : Cipher) (l r k x : ℕ) (a b : List ℕ)
      → length (x ∷ a) < r
      → view (D h mac_alg session_key (inbound c phase_body_rest l r k) ((x ∷ a) ++ b))
        ≡ view (
            after (rc4_process c.rc4 (x ∷ a)).1 (
              D h mac_alg session_key
                (rest_read
                  (inbound c phase_body_rest l r k)
                  phase_body_rest
                  (r - length (x ∷ a))
                  (rc4_process c.rc4 (x ∷ a)).0)
                b))
  unfolding rest_read
  rest_in_two c l r k x a [] short =
      ap (λ t. view (D h mac_alg session_key (inbound c phase_body_rest l r k) t))
        (append-nil (x ∷ a))
      ∙ ap view (
          decrypt_rest-step h mac_alg session_key (inbound c phase_body_rest l r k) x a
          ∙ rest_short h mac_alg session_key (D h mac_alg session_key)
              (inbound c phase_body_rest l r k) (x ∷ a) short)
      ∙ ap
          (λ t. (
            inbound (record { rc4 = (rc4_process c.rc4 (x ∷ a)).0; current_key = c.current_key })
                phase_body_rest l (r - length (x ∷ a)) k,
            t,
            [],
          ))
          (sym (append-nil (rc4_process c.rc4 (x ∷ a)).1))
      ∙ ap (λ t. view (after (rc4_process c.rc4 (x ∷ a)).1 t)) (sym (D-nil h mac_alg session_key _))
  rest_in_two c l r k x a (y ∷ b) short =
      let K = D h mac_alg session_key in
      let st = inbound c phase_body_rest l r k in
      let one = rc4_process c.rc4 (x ∷ a) in
      let st1 = rest_read st phase_body_rest (r - length (x ∷ a)) one.0 in
      let m = r - length (x ∷ a) in
      let c2 : Cipher = record {
        rc4 = (rc4_process one.0 (take m (y ∷ b))).0;
        current_key = c.current_key;
      } in
      let last : ℕ → Inbound = λ j. inbound c2 phase_header l j k in
      ap view (decrypt_rest-step h mac_alg session_key st x (a ++ y ∷ b))
      ∙ (elim (lt_or_le (length ((x ∷ a) ++ y ∷ b)) r) [
        | inl both ↦
            ap view (rest_short h mac_alg session_key K st ((x ∷ a) ++ y ∷ b) both)
            ∙ ap₂ (λ p j. (rest_read st phase_body_rest j p.0, p.1, []))
                (rc4_process-append c.rc4 (x ∷ a) (y ∷ b))
                (let e : r - length ((x ∷ a) ++ y ∷ b) ≡ m - length (y ∷ b) =
                    omega (arith, length-append (x ∷ a) (y ∷ b)) in
                  e)
            ∙ ap (λ t. view (after one.1 t))
                (sym (
                  rest_short h mac_alg session_key K st1 (y ∷ b)
                    (omega (arith, length-append (x ∷ a) (y ∷ b)))))
        | inr full ↦
            ap view (rest_full h mac_alg session_key K st ((x ∷ a) ++ y ∷ b) full)
            ∙ ap₂
                (λ t u. view (
                  after (some_bytes h mac_alg session_key st t)
                    (K (rest_next h mac_alg session_key st t) u)))
                (take-append_ge r (x ∷ a) (y ∷ b) (omega arith))
                (drop-append_ge r (x ∷ a) (y ∷ b) (omega arith))
            ∙ ap (λ p. view (after p.1 (K (rest_read st phase_header r p.0) (drop m (y ∷ b)))))
                (rc4_process-append c.rc4 (x ∷ a) (take m (y ∷ b)))
            ∙ ap (after (one.1 ++ (rc4_process one.0 (take m (y ∷ b))).1)) (
                old_count h mac_alg session_key (2 * length (drop m (y ∷ b))) c2 phase_header l r m
                  k (drop m (y ∷ b)) refl (omega arith))
            ∙ ap (λ t. view ((K (last m) (drop m (y ∷ b))).0, t, (K (last m) (drop m (y ∷ b))).2))
                (append_assoc one.1 (rc4_process one.0 (take m (y ∷ b))).1
                  (K (last m) (drop m (y ∷ b))).1)
            ∙ ap (λ t. view (after one.1 t))
                (sym (
                  rest_full h mac_alg session_key K st1 (y ∷ b)
                    (omega (arith, length-append (x ∷ a) (y ∷ b)))))
      ])
      ∙ ap (λ t. view (after one.1 t)) (sym (decrypt_rest-step h mac_alg session_key st1 y b))

  cut_rest :
      (n : ℕ)
      → Pieces h mac_alg session_key n
      → (c : Cipher) (l r k x : ℕ) (a b : List ℕ) → 2 * length (x ∷ a) + 1 ≤ suc n
      → view (D h mac_alg session_key (inbound c phase_body_rest l r k) ((x ∷ a) ++ b))
        ≡ view (in_two h mac_alg session_key (inbound c phase_body_rest l r k) (x ∷ a) b)
  unfolding rest_read
  cut_rest n ih c l r k x a b m =
      let K = D h mac_alg session_key in
      let st = inbound c phase_body_rest l r k in
      let next = rest_next h mac_alg session_key st (take r (x ∷ a)) in
      let rest = drop r (x ∷ a) in
      elim (lt_or_le (length (x ∷ a)) r) [
        | inl short ↦
            rest_in_two c l r k x a b short
            ∙ ap (λ t. view (after t.1 (K t.0 (t.2 ++ b))))
                (sym (
                  decrypt_rest-step h mac_alg session_key st x a
                  ∙ rest_short h mac_alg session_key K st (x ∷ a) short))
        | inr full ↦
            ap view (decrypt_rest-step h mac_alg session_key st x (a ++ b))
            ∙ ap view (
                rest_full h mac_alg session_key K st ((x ∷ a) ++ b)
                  (omega (arith, length-append (x ∷ a) b)))
            ∙ ap₂
                (λ t u. view (
                  after (some_bytes h mac_alg session_key st t)
                    (K (rest_next h mac_alg session_key st t) u)))
                (take-append_le r (x ∷ a) b full) (drop-append_le r (x ∷ a) b full)
            ∙ ap (after (some_bytes h mac_alg session_key st (take r (x ∷ a))))
                (ih next.decrypt phase_header l r k rest b (omega (arith, length-drop r (x ∷ a))))
            ∙ ap view (
                sym (
                  two_after h mac_alg session_key st next (x ∷ a) rest
                    (some_bytes h mac_alg session_key st (take r (x ∷ a))) b
                    (decrypt_rest-step h mac_alg session_key st x a
                      ∙ rest_full h mac_alg session_key K st (x ∷ a) full)))
      ]

  cut_anywhere : (n : ℕ) → Pieces h mac_alg session_key n
  cut_anywhere n c p l r k [] b m =
      ap (λ t. view (after t.1 (D h mac_alg session_key t.0 (t.2 ++ b))))
        (sym (D-nil h mac_alg session_key (inbound c p l r k)))
  cut_anywhere zero c p l r k (x ∷ a) b m = absurd (omega arith)
  cut_anywhere (suc n) c phase_header l r k (x ∷ a) b m =
      cut_header h mac_alg session_key n (cut_anywhere n) c l r k x a b (omega arith)
  cut_anywhere (suc n) c phase_body_prefix l r k (x ∷ a) b m =
      cut_prefix h mac_alg session_key n (cut_anywhere n) c l r k x a b m
  cut_anywhere (suc n) c phase_body_rest l r k (x ∷ a) b m =
      cut_rest n (cut_anywhere n) c l r k x a b m

  -- Wherever the network cuts what the client sends, decryption of the two pieces, the second behind
  -- what the first call left, gives the bytes and the state of one call on the whole: the same
  -- keys, the same phase, and the same count of the body where the phase reads it.
  pub decrypt_rest-append :
      (st : Inbound) (a b : List ℕ)
      → view (decrypt_rest h mac_alg session_key st (a ++ b))
        ≡ view (in_two h mac_alg session_key st a b)
  decrypt_rest-append st a b =
      cut_anywhere (2 * length a + weight st.decrypt_phase) st.decrypt st.decrypt_phase
        st.current_body_len st.body_rest_remaining st.rotation_count a b (omega arith)
