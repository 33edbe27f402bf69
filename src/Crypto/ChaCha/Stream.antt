-- ===== src/Crypto/ChaCha/Stream.antt =====
-- The stream cipher applied twice.
use lemoniscate.Common.{
  ℕ, zero, suc, ◌+◌, ◌%◌, ◌^◌, ◌≤◌, ◌≡◌, refl, ap, ap₂, ◌∙◌, arith, ◌⊎◌, inl, inr, append-nil,
  take-beyond, drop-beyond, drop-cases,
}
use lemoniscate.Common.{
  List, [], ◌∷◌, ◌++◌, take, drop, length, length-append, length-take, length-drop, take-append_len,
  drop-append_len, take-append-drop,
}
use lemoniscate.Common.Xor.{xor_cancel}
use lemoniscate.Crypto.ChaCha.{xor_bytes, xor_from, chacha20_xor, chacha20_block, add_row}

length-chacha20_block :
    (key nonce : List ℕ) (counter : ℕ) → length (chacha20_block key nonce counter) ≡ 64
unfolding chacha20_block add_row
length-chacha20_block key nonce counter = refl

length-xor_bytes : (a k : List ℕ) → length a ≤ length k → length (xor_bytes a k) ≡ length a
unfolding xor_bytes
length-xor_bytes [] k h = refl
length-xor_bytes (x ∷ a) [] h = absurd (omega arith)
length-xor_bytes (x ∷ a) (y ∷ k) h = omega (arith, length-xor_bytes a k (omega arith))

xor_bytes_twice : (a k : List ℕ) → length a ≤ length k → xor_bytes (xor_bytes a k) k ≡ a
unfolding xor_bytes
xor_bytes_twice [] k h = refl
xor_bytes_twice (x ∷ a) [] h = absurd (omega arith)
xor_bytes_twice (x ∷ a) (y ∷ k) h =
    ap₂ (λ b l. b ∷ l) (xor_cancel x y) (xor_bytes_twice a k (omega arith))

module _ (key nonce : List ℕ) where
  chunk_fits :
      (counter : ℕ) (input : List ℕ)
      → length (take 64 input) ≤ length (chacha20_block key nonce counter)
  chunk_fits counter input =
      omega (arith, length-take 64 input, length-chacha20_block key nonce counter)

  length-xor_from :
      (fuel counter : ℕ) (input : List ℕ)
      → length input ≤ fuel
      → length (xor_from fuel key nonce counter input) ≡ length input
  unfolding xor_from
  length-xor_from zero counter [] h = refl
  length-xor_from zero counter (b ∷ bs) h = absurd (omega arith)
  length-xor_from (suc fuel) counter [] h = refl
  length-xor_from (suc fuel) counter (b ∷ bs) h = omega (
    arith,
    length-append (xor_bytes (take 64 (b ∷ bs)) (chacha20_block key nonce counter))
        (xor_from fuel key nonce ((counter + 1) % 2 ^ 32) (drop 64 (b ∷ bs))),
    length-xor_bytes (take 64 (b ∷ bs)) (chacha20_block key nonce counter)
        (chunk_fits counter (b ∷ bs)),
    length-take 64 (b ∷ bs),
    length-drop 64 (b ∷ bs),
    length-xor_from fuel ((counter + 1) % 2 ^ 32) (drop 64 (b ∷ bs))
        (omega (arith, length-drop 64 (b ∷ bs))),
  )

  pub length-chacha20_xor :
      (counter : ℕ) (input : List ℕ) → length (chacha20_xor key nonce counter input) ≡ length input
  unfolding chacha20_xor
  length-chacha20_xor counter input = length-xor_from (length input) counter input (omega arith)

  -- A run over what a run left, chunk by chunk.
  xor_step :
      (fuel counter : ℕ) (chunk rest : List ℕ)
      → length chunk ≡ 64
      → xor_from (suc fuel) key nonce counter (chunk ++ rest)
        ≡ xor_bytes chunk (chacha20_block key nonce counter)
          ++ xor_from fuel key nonce ((counter + 1) % 2 ^ 32) rest
  unfolding xor_from
  xor_step fuel counter [] rest e = absurd (omega arith)
  xor_step fuel counter (c ∷ chunk) rest e =
      rw (take-append_len 64 (c ∷ chunk) rest e, drop-append_len 64 (c ∷ chunk) rest e) refl

  -- A run over a last chunk, which may be short.
  xor_last :
      (fuel counter : ℕ) (chunk : List ℕ)
      → length chunk ≤ 64
      → xor_from (suc fuel) key nonce counter (chunk ++ [])
        ≡ xor_bytes chunk (chacha20_block key nonce counter)
          ++ xor_from fuel key nonce ((counter + 1) % 2 ^ 32) []
  unfolding xor_from xor_bytes
  xor_last zero counter [] h = refl
  xor_last (suc fuel) counter [] h = refl
  xor_last fuel counter (c ∷ chunk) h =
      ap (xor_from (suc fuel) key nonce counter) (append-nil (c ∷ chunk))
      ∙ ap₂
          (λ x y.
            xor_bytes x (chacha20_block key nonce counter)
            ++ xor_from fuel key nonce ((counter + 1) % 2 ^ 32) y)
          (take-beyond 64 (c ∷ chunk) h) (drop-beyond 64 (c ∷ chunk) h)

  xor_chunk :
      (fuel counter : ℕ) (chunk rest : List ℕ)
      → (length chunk ≡ 64) ⊎ ((length chunk ≤ 64) × (rest ≡ []))
      → xor_from (suc fuel) key nonce counter (chunk ++ rest)
        ≡ xor_bytes chunk (chacha20_block key nonce counter)
          ++ xor_from fuel key nonce ((counter + 1) % 2 ^ 32) rest
  xor_chunk fuel counter chunk rest (inl e) = xor_step fuel counter chunk rest e
  xor_chunk fuel counter chunk rest (inr (h, e)) = rw e (xor_last fuel counter chunk h)

  xor_from-nil : (fuel counter : ℕ) → xor_from fuel key nonce counter [] ≡ []
  unfolding xor_from
  xor_from-nil zero counter = refl
  xor_from-nil (suc fuel) counter = refl

  xor_from_twice :
      (fuel counter : ℕ) (input : List ℕ)
      → length input ≤ fuel
      → xor_from fuel key nonce counter (xor_from fuel key nonce counter input) ≡ input
  unfolding xor_from
  xor_from_twice zero counter [] h = refl
  xor_from_twice zero counter (b ∷ bs) h = absurd (omega arith)
  xor_from_twice (suc fuel) counter [] h = refl
  xor_from_twice (suc fuel) counter (b ∷ bs) h =
      let chunk = take 64 (b ∷ bs) in
      let rest = drop 64 (b ∷ bs) in
      let next = (counter + 1) % 2 ^ 32 in
      let fits = chunk_fits counter (b ∷ bs) in
      let block = chacha20_block key nonce counter in
      xor_chunk fuel counter (xor_bytes chunk block) (xor_from fuel key nonce next rest)
        (elim (drop-cases 64 (b ∷ bs)) [
          | inl e ↦ inl (length-xor_bytes chunk block fits ∙ e)
          | inr e ↦ inr (
            omega (arith, length-xor_bytes chunk block fits, length-take 64 (b ∷ bs)),
            ap (xor_from fuel key nonce next) e ∙ xor_from-nil fuel next,
          )
        ])
      ∙ ap₂ (λ x y. x ++ y) (xor_bytes_twice chunk block fits)
          (xor_from_twice fuel next rest (omega (arith, length-drop 64 (b ∷ bs))))
      ∙ take-append-drop 64 (b ∷ bs)

  -- The cipher run twice from the same counter gives the input back, whatever its length: the same
  -- operation encrypts and decrypts.
  pub chacha20_xor-chacha20_xor :
      (counter : ℕ) (input : List ℕ)
      → chacha20_xor key nonce counter (chacha20_xor key nonce counter input) ≡ input
  unfolding chacha20_xor
  chacha20_xor-chacha20_xor counter input =
      ap (λ n. xor_from n key nonce counter (xor_from (length input) key nonce counter input))
        (length-xor_from (length input) counter input (omega arith))
      ∙ xor_from_twice (length input) counter input (omega arith)
