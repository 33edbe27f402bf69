-- ===== src/Session/Reads.antt =====
-- A stream of transactions that arrives in pieces at a connection without encryption.
use lemoniscate.Common.{
  ℕ, ◌-◌, ◌*◌, ◌≤◌, ◌<◌, ◌≡◌, refl, ap, sym, ◌∙◌, arith, Bool, true, min, lt→ltb, subst,
}
use lemoniscate.Common.{
  List, [], ◌∷◌, ◌++◌, append_assoc, ◌⊎◌, inl, inr, map, take, drop, All, length, length-append,
  length-take, drop-append_len, drop-append_le, take-append_le, take-append_len, take-append-drop,
  ok, ◌>>=◌,
}
use lemoniscate.Transaction.{Transaction, IsWellFormed, Platform, wire_size}
use lemoniscate.Transaction.RoundTrip.{image, received, length-image, wire_size_bounds}
use native.Mathlib.Decide.{dec_lt}
use mathlib.Core.List.{map-append}
use lemoniscate.Session.{stop, round, pump, process_client_data, serve, read_buf_size}
use lemoniscate.Session.Framing.{frames, round_front, pump-frames}

abbrev pub arrived : List (List ℕ) → List ℕ
arrived [] = []
arrived (bytes ∷ arrivals) = bytes ++ arrived arrivals

-- These bytes end before the first of these transactions does.
abbrev pub IsBefore : List ℕ → List Transaction → Type 0
IsBefore front [] = length front ≡ 0
IsBefore front (t ∷ ts) = length front < wire_size t

-- Two ways to cut a list, of which the second cuts it no later.
recut :
    (b s x r : List ℕ)
    → b ++ s ≡ x ++ r
    → length x ≤ length b
    → (b ≡ x ++ drop (length x) b) × (drop (length x) b ++ s ≡ r)
recut b s x r e h = (
  sym (take-append-drop (length x) b)
      ∙ ap (λ l. l ++ drop (length x) b)
          (sym (take-append_le (length x) b s h)
            ∙ ap (take (length x)) e
            ∙ take-append_len (length x) x r refl),
  sym (drop-append_le (length x) b s h)
      ∙ ap (drop (length x)) e
      ∙ drop-append_len (length x) x r refl,
)

-- What is buffered of a stream: some whole transactions, and a front that ends before the next.
split :
    (b s : List ℕ) (vs : List Transaction)
    → All IsWellFormed vs
    → b ++ s ≡ frames vs
    → (us : List Transaction) × (ws : List Transaction) × (front : List ℕ) × (vs ≡ us ++ ws)
      × (b ≡ frames us ++ front)
      × (front ++ s ≡ frames ws)
      × IsBefore front ws
split b s [] w e = ([], [], b, refl, refl, e, omega (arith, ap length e, length-append b s))
split b s (v ∷ vs) w e = elim (dec_lt (length b) (wire_size v)) [
  | yes cut ↦ ([], v ∷ vs, b, refl, refl, e, cut)
  | no whole ↦
      let (first, others) = recut b s (image v) (frames vs) e (omega (arith, length-image w.0)) in
      let (us, ws, front, e1, e2, e3, before) = split (drop (length (image v)) b) s vs w.1 others in
      (
        v ∷ us,
        ws,
        front,
        ap (λ l. v ∷ l) e1,
        first ∙ ap (λ l. image v ++ l) e2 ∙ sym (append_assoc (image v) (frames us) front),
        e3,
        before,
      )
]

All-parts :
    (P : Transaction → Type 0) (us ws : List Transaction) → All P (us ++ ws) → All P us × All P ws
All-parts P [] ws h = (tt, h)
All-parts P (u ∷ us) ws h = let (a, b) = All-parts P us ws h.1 in ((h.0, a), b)

abbrev pub IsBufferable : Transaction → Type 0
IsBufferable t = IsWellFormed t × (wire_size t ≤ read_buf_size)

formed : (ts : List Transaction) → All IsBufferable ts → All IsWellFormed ts
formed [] w = tt
formed (t ∷ ts) w = (w.0.0, formed ts w.1)

room :
    (buf : List ℕ) (ts : List Transaction)
    → All IsBufferable ts
    → IsBefore buf ts
    → length buf < read_buf_size
room buf [] w h = omega arith
room buf (t ∷ ts) w h = omega (arith, w.0.1)

module _ (p : Platform) (malloc : ℕ → Bool) (serves : (n : ℕ) → malloc n ≡ true) where
  waits :
      (front s : List ℕ) (ws : List Transaction)
      → All IsWellFormed ws
      → front ++ s ≡ frames ws
      → IsBefore front ws
      → (round p malloc front ≡ ok (stop front)) ⊎ (front ≡ [])
  waits [] s ws w e h = inr refl
  waits (b ∷ bs) s [] w e h = absurd (omega arith)
  waits (b ∷ bs) s (t ∷ ts) w e h =
      let (first, others) =
        recut (image t) (frames ts) (b ∷ bs) s (sym e) (omega (arith, length-image w.0)) in
      inl (
        round_front p malloc serves w.0 (b ∷ bs) (drop (length (b ∷ bs)) (image t)) first (
          omega (
            arith,
            ap length first,
            length-append (b ∷ bs) (drop (length (b ∷ bs)) (image t)),
            length-image w.0,
          )))

  -- The loop on what a read has left in the buffer.
  pump-split :
      (us ws : List Transaction) (front s : List ℕ)
      → All IsWellFormed us
      → All IsWellFormed ws
      → front ++ s ≡ frames ws
      → IsBefore front ws
      → 0 < length (frames us ++ front)
      → pump p malloc (length (frames us ++ front)) (frames us ++ front)
        ≡ ok (map received us, front)
  pump-split us ws front s wu ww e h some_bytes =
      pump-frames p malloc serves us front (length (frames us ++ front)) wu
        (waits front s ws ww e h)
        (omega (arith, enough us wu, length-append (frames us) front, some_bytes))
    where
      enough : (vs : List Transaction) → All IsWellFormed vs → 22 * length vs ≤ length (frames vs)
      enough [] v = omega arith
      enough (t ∷ vs) v = omega (
        arith,
        enough vs v.1,
        length-append (image t) (frames vs),
        length-image v.0,
        wire_size_bounds v.0,
      )

  -- One call: what it dispatches and leaves, where the read finds bytes and the buffer is not full.
  one_call :
      (ts : List Transaction) (buf pending to_come : List ℕ)
      → All IsBufferable ts
      → IsBefore buf ts
      → 0 < length pending
      → buf ++ (pending ++ to_come) ≡ frames ts
      → (us : List Transaction) × (ws : List Transaction) × (front : List ℕ) × (unread : List ℕ)
        × (process_client_data p malloc buf pending ≡ ok (map received us, (front, unread)))
        × (ts ≡ us ++ ws)
        × (front ++ (unread ++ to_come) ≡ frames ws)
        × IsBefore front ws
  unfolding process_client_data
  one_call ts buf pending to_come w before some_bytes e =
      let n = min (length pending) (read_buf_size - length buf) in
      let small = room buf ts w before in
      let stream : (buf ++ take n pending) ++ (drop n pending ++ to_come) ≡ frames ts =
        append_assoc buf (take n pending) (drop n pending ++ to_come)
        ∙ ap (λ l. buf ++ l)
            (sym (append_assoc (take n pending) (drop n pending) to_come)
              ∙ ap (λ l. l ++ to_come) (take-append-drop n pending))
        ∙ e in
      let (us, ws, front, e1, e2, e3, before') =
        split (buf ++ take n pending) (drop n pending ++ to_come) ts (formed ts w) stream in
      let (wu, ww) = All-parts IsWellFormed us ws (subst (All IsWellFormed) e1 (formed ts w)) in
      let looped : pump p malloc (length (buf ++ take n pending)) (buf ++ take n pending)
          ≡ ok (map received us, front) =
        ap (λ l. pump p malloc (length l) l) e2
        ∙ pump-split us ws front (drop n pending ++ to_come) wu ww e3 before' (
            omega (
              arith,
              ap length e2,
              length-append buf (take n pending),
              length-take n pending,
              small,
              some_bytes,
            )) in
      (
        us,
        ws,
        front,
        drop n pending,
        rw (lt→ltb (length buf) read_buf_size small, lt→ltb 0 n (omega (arith, small, some_bytes)))
            (ap (λ o. o >>= λ (ts, rest). ok (ts, (rest, drop n pending))) looped),
        e1,
        e3,
        before',
      )

  serve-from :
      (arrivals : List (List ℕ)) (ts : List Transaction) (buf pending later : List ℕ)
      → All IsBufferable ts
      → IsBefore buf ts
      → All (λ (bytes : List ℕ). 0 < length bytes) arrivals
      → buf ++ (pending ++ (arrived arrivals ++ later)) ≡ frames ts
      → (us : List Transaction) × (ws : List Transaction) × (front : List ℕ) × (unread : List ℕ)
        × (serve p malloc arrivals buf pending ≡ ok (map received us, (front, unread)))
        × (ts ≡ us ++ ws)
        × (front ++ (unread ++ later) ≡ frames ws)
        × IsBefore front ws
  unfolding serve
  serve-from [] ts buf pending later w before some_bytes e =
      ([], ts, buf, pending, refl, refl, e, before)
  serve-from (bytes ∷ arrivals) ts buf pending later w before some_bytes e =
      let to_come = arrived arrivals ++ later in
      let (us, ws, front, unread, e1, e2, e3, before') =
        one_call ts buf (pending ++ bytes) to_come w before
          (omega (arith, length-append pending bytes, some_bytes.0))
          (ap (λ l. buf ++ l)
              (append_assoc pending bytes to_come
                ∙ ap (λ l. pending ++ l) (sym (append_assoc bytes (arrived arrivals) later)))
            ∙ e) in
      let (us', ws', front', unread', d1, d2, d3, before'') =
        serve-from arrivals ws front unread later
          (All-parts IsBufferable us ws (subst (All IsBufferable) e2 w)).1 before' some_bytes.1
          e3 in
      (
        us ++ us',
        ws',
        front',
        unread',
        rw (e1, d1, map-append received us us') refl,
        e2 ∙ ap (λ l. us ++ l) d2 ∙ sym (append_assoc us us' ws'),
        d3,
        before'',
      )

  -- A client without encryption sends well-formed transactions, each of which fits the read buffer of
  -- 65536 bytes, and its bytes arrive in pieces, however they are cut and however long each is, none
  -- of them empty; others may be still to come. The server, which is called once for each piece, stays
  -- connected, and has dispatched the first of the transactions, in the order sent and as their peer
  -- sees them; the bytes buffered, those not yet read and those to come are exactly the others, and
  -- what is buffered ends before the first of them does; either bytes are unread or to come, or there
  -- are no others. The allocator serves every request.
  pub serve-frames :
      (ts : List Transaction) (arrivals : List (List ℕ)) (later : List ℕ)
      → All IsBufferable ts
      → All (λ (bytes : List ℕ). 0 < length bytes) arrivals
      → arrived arrivals ++ later ≡ frames ts
      → (us : List Transaction) × (ws : List Transaction) × (front : List ℕ) × (unread : List ℕ)
        × (serve p malloc arrivals [] [] ≡ ok (map received us, (front, unread)))
        × (ts ≡ us ++ ws)
        × (front ++ (unread ++ later) ≡ frames ws)
        × IsBefore front ws
        × ((0 < length (unread ++ later)) ⊎ (ws ≡ []))
  serve-frames ts arrivals later w some_bytes e =
      let (us, ws, front, unread, e1, e2, e3, before) =
        serve-from arrivals ts [] [] later w (at_start ts w) some_bytes e in
      (
        us,
        ws,
        front,
        unread,
        e1,
        e2,
        e3,
        before,
        settled (unread ++ later) ws front
            (formed ws (All-parts IsBufferable us ws (subst (All IsBufferable) e2 w)).1) before e3,
      )
    where
      at_start : (vs : List Transaction) → All IsBufferable vs → IsBefore [] vs
      at_start [] v = refl
      at_start (t ∷ vs) v = omega (arith, wire_size_bounds v.0.0)

      settled :
          (rest : List ℕ) (vs : List Transaction) (front : List ℕ)
          → All IsWellFormed vs
          → IsBefore front vs
          → front ++ rest ≡ frames vs
          → (0 < length rest) ⊎ (vs ≡ [])
      settled rest [] front v before e = inr refl
      settled rest (t ∷ vs) front v before e = inl (
          omega (
            arith,
            ap length e,
            length-append front rest,
            length-append (image t) (frames vs),
            length-image v.0,
            before,
          ))
