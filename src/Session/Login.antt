-- ===== src/Session/Login.antt =====
-- Reading the login of a new connection.
use lemoniscate.Common.{
  le→leb, lt→ltb, take-append_len, drop-append_len, append-nil, ℕ, ◌+◌, ◌-◌, ◌≤◌, ◌≡◌, ◌≢◌, refl,
  ap, sym, ◌∙◌, arith, Bool, true,
}
use lemoniscate.Common.{
  List, [], ◌∷◌, ◌++◌, length, length-append, take, drop, length-take, ok, fault, ◌>>=◌,
}
use lemoniscate.Common.Int.{pos}
use lemoniscate.Wire.{read_u32, bytes4_at, first4}
use lemoniscate.Wire.Reads.{bytes4_at_total, bytes4_at-append}
use lemoniscate.Wire.Integers.{read_u32-write_u32}
use lemoniscate.Transaction
use lemoniscate.Transaction.{
  Transaction, Platform, IsWellFormed, frame_len, payload_size, wire_size,
}
use lemoniscate.Transaction.RoundTrip.{
  image, received, header, payload_size_lem, wire_size_lem, deserialize-image,
}
use lemoniscate.Transaction.Payload.{images, length-images}
use lemoniscate.Wire.{Bytes4}
use lemoniscate.Transaction.Safety.{deserialize-ne-fault_transaction}
use lemoniscate.Conn.{conn_read_full}
use lemoniscate.Session.{read_rest, read_login}
use lemoniscate.Session.Safety.{fits_size}
use native.Mathlib.Decide.{dec_le, dec_lt}

module _ (p : Platform) (malloc : ℕ → Bool) where
  decoded-ne-fault :
      (header body : List ℕ) (total : Bytes4)
      → length header ≡ 22
      → bytes4_at header 12 ≡ ok total
      → 2 ≤ read_u32 total
      → read_u32 total ≤ 65535
      → length body + 22 ≡ 20 + read_u32 total
      → Transaction.deserialize p malloc (header ++ body) (20 + read_u32 total) ≢ fault
  decoded-ne-fault header body total size et lo hi whole =
      deserialize-ne-fault_transaction p malloc (header ++ body) (20 + read_u32 total)
        (omega (arith, length-append header body)) (fits_size p (20 + read_u32 total) (omega arith))
        total (bytes4_at-append header body 12 (omega arith) ∙ et) (omega arith)

  rest-ne-fault :
      (header rest : List ℕ) (total : Bytes4)
      → length header ≡ 22
      → bytes4_at header 12 ≡ ok total
      → 2 ≤ read_u32 total
      → read_u32 total ≤ 65535
      → read_rest p malloc header rest (read_u32 total) ≢ fault
  unfolding read_rest conn_read_full
  rest-ne-fault header rest total size et lo hi =
      let more : ℕ = 20 + read_u32 total - 22 in
      rw (le→leb 22 (20 + read_u32 total) (omega arith)) (
        ground (
          arith,
          length-take more rest,
          decoded-ne-fault header (take more rest) total size et lo hi,
          decoded-ne-fault header [] total size et lo hi,
        ))

  -- Whatever a peer sends as its login, and however much of it, reading and decoding it never
  -- reaches outside the memory that was allocated for it.
  pub read_login-ne-fault : (input : List ℕ) → read_login p malloc input ≢ fault
  unfolding read_login conn_read_full
  read_login-ne-fault input = elim (dec_le 22 (length input)) [
    | no h ↦ ground arith
    | yes h ↦
        let size : length (take 22 input) ≡ 22 = omega (arith, length-take 22 input) in
        let (total, et) = bytes4_at_total (take 22 input) 12 (omega (arith, size)) in
        ground (arith, et, rest-ne-fault (take 22 input) (drop 22 input) total size et)
  ]

  -- A well-formed login of at most 65535 bytes of payload is decoded to what was sent, where the
  -- allocator serves every request, and exactly what follows it is left for the session.
  pub read_login-image :
      {t : Transaction} (w : IsWellFormed t) (rest : List ℕ)
      → ((n : ℕ) → malloc n ≡ true)
      → payload_size t ≤ 65535
      → read_login p malloc (image t ++ rest) ≡ ok ((received t, pos (wire_size t)), rest)
  unfolding read_login read_rest conn_read_full bytes4_at first4
  read_login-image {t} w rest serves small =
      rw
        (
          le→leb 22 (length (image t ++ rest)) (omega arith),
          read_u32-write_u32 (payload_size t) (omega arith),
          le→leb (payload_size t) 65535 small,
          le→leb 2 (payload_size t) (omega (arith, payload_size_lem w)),
          serves (20 + payload_size t),
          le→leb 22 (20 + payload_size t) (omega (arith, payload_size_lem w)),
        )
        (elim (dec_lt 22 (20 + payload_size t)) [
          | yes long ↦
              rw
                (
                  lt→ltb 22 (20 + payload_size t) long,
                  le→leb (20 + payload_size t - 22) (length (images t.fields ++ rest)) room,
                  take-append_len (20 + payload_size t - 22) (images t.fields) rest count,
                )
                (ap
                    (λ o. o >>= λ login.
                      ok (login, drop (20 + payload_size t - 22) (images t.fields ++ rest)))
                    whole
                  ∙ ap (λ l. ok ((received t, pos (wire_size t)), l))
                      (drop-append_len (20 + payload_size t - 22) (images t.fields) rest count))
          | no short ↦ ground (arith, nothing (images t.fields) (omega (arith, count)), whole)
        ])
    where
      count : length (images t.fields) ≡ 20 + payload_size t - 22
      count = omega (arith, payload_size_lem w, length-images t.fields w.fields_formed)

      room : 20 + payload_size t - 22 ≤ length (images t.fields ++ rest)
      room = omega (arith, count, length-append (images t.fields) rest)

      nothing : (l : List ℕ) → length l ≡ 0 → l ≡ []
      nothing [] e = refl
      nothing (x ∷ l) e = absurd (omega arith)

      full : 20 + payload_size t ≡ wire_size t
      full = omega (arith, payload_size_lem w, wire_size_lem w)

      whole :
          Transaction.deserialize p malloc (image t) (20 + payload_size t)
          ≡ ok (received t, pos (wire_size t))
      whole = rw (full) (
          ap (λ l. Transaction.deserialize p malloc l (wire_size t)) (sym (append-nil (image t)))
          ∙ deserialize-image w p malloc [] (wire_size t) serves (omega arith))
