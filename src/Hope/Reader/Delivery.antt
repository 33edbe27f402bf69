-- ===== src/Hope/Reader/Delivery.antt =====
-- The reader on data that a client seals in any number of frames.
use lemoniscate.Common.{
  ℕ, zero, suc, ◌+◌, ◌-◌, ◌*◌, ◌%◌, ◌^◌, ◌≤◌, ◌≡◌, refl, ap, ap₂, sym, ◌∙◌, arith, Bool, true, min,
  le→leb, lt→ltb, inl, inr, lt_or_le,
}
use lemoniscate.Common.{
  List, [], ◌∷◌, ◌++◌, take, drop, length, All, length-append, length-drop, take-append_len,
  drop-append_len, take-beyond, drop-beyond, drop-add, ok, ◌>>=◌,
}
use lemoniscate.Wire.{write_u32, read_u32, list4, bytes4_at, first4}
use lemoniscate.Wire.Integers.{read_u32-write_u32}
use lemoniscate.Crypto.Aead.{chacha20_poly1305_encrypt, chacha20_poly1305_decrypt}
use lemoniscate.Crypto.Aead.Laws.{decrypt-encrypt, length-encrypt}
use lemoniscate.Hope.Frame.RoundTrip.{length-frame}
use lemoniscate.Hope.Stream.Cases.{not_less}
use lemoniscate.Conn.{conn_read_full}
use lemoniscate.Hope.Frame.{aead_build_nonce, client_to_server, frame}
use lemoniscate.Hope.Reader.{
  Reader, filled, aead_reader_fill, aead_reader_init, read_from, aead_reader_read_full,
}

-- What the client sends: its pieces, each sealed in a frame, under consecutive counters.
unfoldable pub sealed_pieces : List ℕ → ℕ → List (List ℕ) → List ℕ
sealed_pieces key counter [] = []
sealed_pieces key counter (c ∷ cs) =
    frame key client_to_server counter c ++ sealed_pieces key ((counter + 1) % 2 ^ 64) cs

abbrev pub joined : List (List ℕ) → List ℕ
joined [] = []
joined (c ∷ cs) = c ++ joined cs

abbrev pub Fits : List ℕ → Type 0
Fits c = length c + 16 ≤ 16 * 1024 * 1024

take_split :
    (n m : ℕ) (xs ys : List ℕ)
    → n ≤ length xs
    → n ≤ m
    → take n xs ++ take (m - n) (drop n xs ++ ys) ≡ take m (xs ++ ys)
take_split zero m xs ys h k = ap (λ i. take i (xs ++ ys)) (omega arith)
take_split (suc n) m [] ys h k = absurd (omega arith)
take_split (suc n) zero (x ∷ xs) ys h k = absurd (omega arith)
take_split (suc n) (suc m) (x ∷ xs) ys h k =
    ap (λ l. x ∷ l)
      (ap (λ i. take n xs ++ take i (drop n xs ++ ys)) (omega arith)
        ∙ take_split n m xs ys (omega arith) (omega arith))

module _ (malloc : ℕ → Bool) (serves : (n : ℕ) → malloc n ≡ true) where
  conn_read_full_lem : (a b : List ℕ) (n : ℕ) → length a ≡ n → conn_read_full (a ++ b) n ≡ ok (a, b)
  unfolding conn_read_full
  conn_read_full_lem a b n e =
      rw
        (
          le→leb n (length (a ++ b)) (omega (arith, length-append a b)),
          take-append_len n a b e,
          drop-append_len n a b e,
        )
        refl

  fill-frame :
      (key : List ℕ) (counter : ℕ) (c rest buffer : List ℕ) (off : ℕ)
      → Fits c
      → aead_reader_fill malloc (record {
        conn = frame key client_to_server counter c ++ rest;
        key = key;
        recv_counter = counter;
        buffer = buffer;
        buffer_off = off;
      })
        ≡ ok (record {
          conn = rest;
          key = key;
          recv_counter = (counter + 1) % 2 ^ 64;
          buffer = c;
          buffer_off = 0;
        })
  unfolding aead_reader_fill frame bytes4_at first4 filled
  fill-frame key counter c rest buffer off fits =
      let sealed = chacha20_poly1305_encrypt key (aead_build_nonce client_to_server counter) c in
      let (len0, len1) = length-encrypt key (aead_build_nonce client_to_server counter) c in
      let prefix : List ℕ = list4 (write_u32 ((length c + 16) % 2 ^ 32)) in
      let v : read_u32 (write_u32 ((length c + 16) % 2 ^ 32)) ≡ length c + 16 =
        omega (arith, read_u32-write_u32 ((length c + 16) % 2 ^ 32) (omega arith)) in
      rw (conn_read_full_lem prefix ((sealed.0 ++ sealed.1) ++ rest) 4 refl) (
        rw
          (
            v,
            le→leb 16 (length c + 16) (omega arith),
            le→leb (length c + 16) (16 * 1024 * 1024) fits,
            serves (length c + 16),
          )
          (rw
            (conn_read_full_lem (sealed.0 ++ sealed.1) rest (length c + 16)
              (omega (arith, length-append sealed.0 sealed.1, len0, len1)))
            (rw ((let e : length c + 16 - 16 ≡ length c = omega arith in e), serves (length c))
              (ap₂
                  (λ t u.
                    filled
                      (record {
                        conn = frame key client_to_server counter c ++ rest;
                        key = key;
                        recv_counter = counter;
                        buffer = buffer;
                        buffer_off = off;
                      })
                      rest
                      (chacha20_poly1305_decrypt key (aead_build_nonce client_to_server counter) t
                        u))
                  (take-append_len (length c) sealed.0 sealed.1 len0)
                  (ap (take 16) (drop-append_len (length c) sealed.0 sealed.1 len0)
                    ∙ take-beyond 16 sealed.1 (omega (arith, len1)))
                ∙ ap
                    (filled
                      (record {
                        conn = frame key client_to_server counter c ++ rest;
                        key = key;
                        recv_counter = counter;
                        buffer = buffer;
                        buffer_off = off;
                      })
                      rest)
                    (decrypt-encrypt key (aead_build_nonce client_to_server counter) c)))))

  abbrev at : List ℕ → List ℕ → ℕ → List ℕ → ℕ → Reader
  at conn key counter buffer off = record {
    conn = conn;
    key = key;
    recv_counter = counter;
    buffer = buffer;
    buffer_off = off;
  }

  abbrev Reads : ℕ → Type 0
  Reads fuel =
      (key : List ℕ) (counter : ℕ) (cs : List (List ℕ)) (buffer : List ℕ) (off len : ℕ)
      → All Fits cs
      → len + length cs ≤ fuel
      → len ≤ length (drop off buffer ++ joined cs)
      → (r : Reader) × (read_from malloc fuel
            (at (sealed_pieces key counter cs) key counter buffer off) len
          ≡ ok (r, take len (drop off buffer ++ joined cs)))

  -- An empty buffer is filled with the next piece.
  refill :
      (fuel : ℕ) (key : List ℕ) (counter : ℕ) (cs : List (List ℕ)) (buffer : List ℕ) (off len : ℕ)
      → All Fits cs
      → suc len + length cs ≤ suc fuel
      → Reads fuel
      → length buffer ≤ off
      → suc len ≤ length (joined cs)
      → (r : Reader) × (read_from malloc
            (suc fuel)
            (at (sealed_pieces key counter cs) key counter buffer off)
            (suc len)
          ≡ ok (r, take (suc len) (drop off buffer ++ joined cs)))
  unfolding read_from sealed_pieces
  refill fuel key counter [] buffer off len fits f ih empty l = absurd (omega arith)
  refill fuel key counter (c ∷ cs) buffer off len (fit, fits) f ih empty l =
      let next = (counter + 1) % 2 ^ 64 in
      let (r, e) = ih key next cs c 0 (suc len) fits (omega arith) l in
      (
        r,
        rw
            (
              not_less 0 (length buffer - off) (omega arith),
              fill-frame key counter c (sealed_pieces key next cs) buffer off fit,
            )
            (e
              ∙ ap (λ t. ok (r, take (suc len) (t ++ (c ++ joined cs))))
                  (sym (drop-beyond off buffer empty))),
      )

  -- What the reader has yet to deliver is the rest of its buffer and the pieces to come.
  read_from-sealed_pieces : (fuel : ℕ) → Reads fuel
  unfolding read_from sealed_pieces
  read_from-sealed_pieces zero key counter cs buffer off zero fits f l =
      (at (sealed_pieces key counter cs) key counter buffer off, refl)
  read_from-sealed_pieces (suc fuel) key counter cs buffer off zero fits f l =
      (at (sealed_pieces key counter cs) key counter buffer off, refl)
  read_from-sealed_pieces zero key counter cs buffer off (suc len) fits f l = absurd (omega arith)
  read_from-sealed_pieces (suc fuel) key counter cs buffer off (suc len) fits f l =
      elim (lt_or_le (length buffer - off) 1) [
        | inr some_left ↦
            let n = min (suc len) (length buffer - off) in
            let (r, e) =
              read_from-sealed_pieces fuel key counter cs buffer (off + n) (suc len - n) fits
                (omega arith)
                (omega (
                  arith,
                  length-append (drop (off + n) buffer) (joined cs),
                  length-append (drop off buffer) (joined cs),
                  length-drop off buffer,
                  length-drop (off + n) buffer,
                )) in
            (
              r,
              rw (lt→ltb 0 (length buffer - off) (omega arith)) (
                  ap (λ o. o >>= λ (r', out). ok (r', take n (drop off buffer) ++ out)) e
                  ∙ ap
                      (λ t. ok (r, take n (drop off buffer) ++ take (suc len - n) (t ++ joined cs)))
                      (drop-add off n buffer)
                  ∙ ap (λ t. ok (r, t))
                      (take_split n (suc len) (drop off buffer) (joined cs)
                        (omega (arith, length-drop off buffer)) (omega arith))),
            )
        | inl empty ↦
            refill fuel key counter cs buffer off len fits f (read_from-sealed_pieces fuel)
              (omega arith)
              (let e : suc len ≤ length (joined cs) =
                  omega
                    (arith, length-append (drop off buffer) (joined cs), length-drop off buffer) in
                e)
      ]

  length-sealed_pieces :
      (key : List ℕ) (counter : ℕ) (cs : List (List ℕ))
      → All Fits cs
      → length cs ≤ length (sealed_pieces key counter cs)
  unfolding sealed_pieces
  length-sealed_pieces key counter [] fits = omega arith
  length-sealed_pieces key counter (c ∷ cs) (fit, fits) =
      let next = (counter + 1) % 2 ^ 64 in
      omega (
        arith,
        length-append (frame key client_to_server counter c) (sealed_pieces key next cs),
        length-sealed_pieces key next cs fits,
        length-frame key client_to_server counter c (omega arith),
      )

  -- A new reader on a connection over which a client sends its data in sealed pieces, of at most 16 MB
  -- each and any of them empty, delivers the first bytes of that data, as many as are asked for and
  -- however the pieces cut them, where the allocator serves every request.
  pub aead_reader_read_full-sealed_pieces :
      (key : List ℕ) (cs : List (List ℕ)) (len : ℕ)
      → All Fits cs
      → len ≤ length (joined cs)
      → (r : Reader) × (aead_reader_read_full malloc
            (aead_reader_init (sealed_pieces key 0 cs) key)
            len
          ≡ ok (r, take len (joined cs)))
  unfolding aead_reader_read_full
  aead_reader_read_full-sealed_pieces key cs len fits l =
      read_from-sealed_pieces (len + length (sealed_pieces key 0 cs)) key 0 cs [] 0 len fits
        (omega (arith, length-sealed_pieces key 0 cs fits)) l
