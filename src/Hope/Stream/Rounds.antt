-- ===== src/Hope/Stream/Rounds.antt =====
-- A read that ends in a full round, or before one.
use lemoniscate.Common.{ℕ, suc, ◌+◌, ◌*◌, ◌≤◌, ◌≡◌, ap, ap₂, sym, ◌∙◌, arith, inl, inr, lt_or_le}
use lemoniscate.Common.{
  List, [], ◌∷◌, ◌++◌, append_assoc, take, drop, length, length-append, length-drop, take-append_le,
  drop-append_le,
}
use lemoniscate.Hope.Mac.{MacAlg, Hashes}
use lemoniscate.Hope.Stream.{
  Cipher, Inbound, Result, Phase, phase_header, phase_body_prefix, prefix_len, decrypt_rest, after,
}
use lemoniscate.Hope.Stream.Cases.{
  header_next, header_bytes, some_bytes, prefix_next, header_short, header_full, prefix_short,
  prefix_full,
}
use lemoniscate.Hope.Stream.Fuel.{weight, weight_le, prefix_next-weight, decrypt_rest-step}
use lemoniscate.Hope.Stream.Stale.{D, inbound, view}

module _ (h : Hashes) (mac_alg : MacAlg) (session_key : List ℕ) where
  -- What two calls give, the second on what the first left with more behind it.
  abbrev pub in_two : Inbound → List ℕ → List ℕ → Result
  in_two st a b =
      let r = decrypt_rest h mac_alg session_key st a in
      after r.1 (decrypt_rest h mac_alg session_key r.0 (r.2 ++ b))

  -- A first call that ends in a full round goes on as the call for what is left.
  pub two_after :
      (st next : Inbound) (a rest out b : List ℕ)
      → D h mac_alg session_key st a ≡ after out (D h mac_alg session_key next rest)
      → in_two st a b ≡ after out (in_two next rest b)
  two_after st next a rest out b e =
      ap (λ r. after r.1 (D h mac_alg session_key r.0 (r.2 ++ b))) e
      ∙ ap
          (λ l. (
            (D h mac_alg session_key (D h mac_alg session_key next rest).0
                ((D h mac_alg session_key next rest).2 ++ b)).0,
            l,
            (D h mac_alg session_key (D h mac_alg session_key next rest).0
                ((D h mac_alg session_key next rest).2 ++ b)).2,
          ))
          (append_assoc out (D h mac_alg session_key next rest).1
            (D h mac_alg session_key (D h mac_alg session_key next rest).0
              ((D h mac_alg session_key next rest).2 ++ b)).1)

  -- A first call that can do nothing leaves it all to the second.
  pub two_none :
      (st : Inbound) (a b : List ℕ)
      → D h mac_alg session_key st a ≡ (st, [], a)
      → in_two st a b ≡ D h mac_alg session_key st (a ++ b)
  two_none st a b e = ap (λ r. after r.1 (D h mac_alg session_key r.0 (r.2 ++ b))) e

  abbrev pub Pieces : ℕ → Type 0
  Pieces n =
      (c : Cipher) (p : Phase) (l r k : ℕ) (a b : List ℕ)
      → 2 * length a + weight p ≤ n
      → view (D h mac_alg session_key (inbound c p l r k) (a ++ b))
        ≡ view (in_two (inbound c p l r k) a b)

  pub cut_header :
      (n : ℕ)
      → Pieces n
      → (c : Cipher) (l r k x : ℕ) (a b : List ℕ) → 2 * length (x ∷ a) ≤ suc n
      → view (D h mac_alg session_key (inbound c phase_header l r k) ((x ∷ a) ++ b))
        ≡ view (in_two (inbound c phase_header l r k) (x ∷ a) b)
  cut_header n ih c l r k x a b m =
      let st = inbound c phase_header l r k in
      let next = header_next h mac_alg session_key st (take 20 (x ∷ a)) in
      let out = header_bytes h mac_alg session_key st (take 20 (x ∷ a)) in
      let rest = drop 20 (x ∷ a) in
      elim (lt_or_le (length (x ∷ a)) 20) [
        | inl short ↦ ap view (
            sym (
              two_none st (x ∷ a) b (
                decrypt_rest-step h mac_alg session_key st x a
                ∙ header_short h mac_alg session_key (D h mac_alg session_key) st (x ∷ a) short)))
        | inr full ↦
            ap view (decrypt_rest-step h mac_alg session_key st x (a ++ b))
            ∙ ap view (
                header_full h mac_alg session_key (D h mac_alg session_key) st ((x ∷ a) ++ b)
                  (omega (arith, length-append (x ∷ a) b)))
            ∙ ap₂
                (λ t u. view (
                  after (header_bytes h mac_alg session_key st t)
                    (D h mac_alg session_key (header_next h mac_alg session_key st t) u)))
                (take-append_le 20 (x ∷ a) b full) (drop-append_le 20 (x ∷ a) b full)
            ∙ ap (after out) (
                ih next.decrypt next.decrypt_phase next.current_body_len next.body_rest_remaining
                  next.rotation_count rest b
                  (omega (arith, length-drop 20 (x ∷ a), weight_le next.decrypt_phase)))
            ∙ ap view (
                sym (
                  two_after st next (x ∷ a) rest out b (
                    decrypt_rest-step h mac_alg session_key st x a
                    ∙ header_full h mac_alg session_key (D h mac_alg session_key) st (x ∷ a) full)))
      ]

  pub cut_prefix :
      (n : ℕ)
      → Pieces n
      → (c : Cipher) (l r k x : ℕ) (a b : List ℕ) → 2 * length (x ∷ a) + 1 ≤ suc n
      → view (D h mac_alg session_key (inbound c phase_body_prefix l r k) ((x ∷ a) ++ b))
        ≡ view (in_two (inbound c phase_body_prefix l r k) (x ∷ a) b)
  cut_prefix n ih c l r k x a b m =
      let st = inbound c phase_body_prefix l r k in
      let len = prefix_len st in
      let next = prefix_next h mac_alg session_key st (take len (x ∷ a)) in
      let out = some_bytes h mac_alg session_key st (take len (x ∷ a)) in
      let rest = drop len (x ∷ a) in
      elim (lt_or_le (length (x ∷ a)) len) [
        | inl short ↦ ap view (
            sym (
              two_none st (x ∷ a) b (
                decrypt_rest-step h mac_alg session_key st x a
                ∙ prefix_short h mac_alg session_key (D h mac_alg session_key) st (x ∷ a) short)))
        | inr full ↦
            ap view (decrypt_rest-step h mac_alg session_key st x (a ++ b))
            ∙ ap view (
                prefix_full h mac_alg session_key (D h mac_alg session_key) st ((x ∷ a) ++ b)
                  (omega (arith, length-append (x ∷ a) b)))
            ∙ ap₂
                (λ t u. view (
                  after (some_bytes h mac_alg session_key st t)
                    (D h mac_alg session_key (prefix_next h mac_alg session_key st t) u)))
                (take-append_le len (x ∷ a) b full) (drop-append_le len (x ∷ a) b full)
            ∙ ap (after out) (
                ih next.decrypt next.decrypt_phase next.current_body_len next.body_rest_remaining
                  next.rotation_count rest b
                  (omega (
                    arith,
                    length-drop len (x ∷ a),
                    prefix_next-weight h mac_alg session_key st (take len (x ∷ a)),
                  )))
            ∙ ap view (
                sym (
                  two_after st next (x ∷ a) rest out b (
                    decrypt_rest-step h mac_alg session_key st x a
                    ∙ prefix_full h mac_alg session_key (D h mac_alg session_key) st (x ∷ a) full)))
      ]
