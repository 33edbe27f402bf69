-- ===== src/Wire/Stores.antt =====
-- Writes into a buffer: what a write leaves, and consecutive writes as one.
use lemoniscate.Common.{ℕ, ◌+◌, ◌≤◌, ◌<◌, ◌≡◌, ap, sym, ◌∙◌, arith}
use lemoniscate.Common.{List, ◌++◌, append_assoc, ok, fault, ◌>>=◌}
use lemoniscate.Common.{take, drop, length, length-append, length-take, length-drop, drop-add}
use lemoniscate.Common.{take-append, drop-append, le→leb}
use lemoniscate.Wire.{store}
use native.Mathlib.Decide.{dec_le}

module _ (mem src : List ℕ) (off : ℕ) where
  pub store_lem :
      off + length src ≤ length mem
      → store mem off src ≡ ok (take off mem ++ (src ++ drop (off + length src) mem))
  unfolding store
  store_lem h = rw (le→leb (off + length src) (length mem) h)

  pub store_past_end : length mem < off + length src → store mem off src ≡ fault
  unfolding store
  store_past_end h = ground arith

-- A write behind a known prefix.
pub store-append :
    (pre rest src : List ℕ) (off : ℕ)
    → off ≡ length pre
    → length src ≤ length rest
    → store (pre ++ rest) off src ≡ ok (pre ++ (src ++ drop (length src) rest))
store-append pre rest src off e h = rw e (
    store_lem (pre ++ rest) src (length pre) (omega (arith, length-append pre rest))
    ∙ rw (take-append pre rest, drop-add, drop-append pre rest))

drop_past_prefix :
    (pre rest : List ℕ) (n k : ℕ) → n ≡ length pre + k → drop n (pre ++ rest) ≡ drop k rest
drop_past_prefix pre rest n k e = rw (e, drop-add, drop-append pre rest)

-- A second write at the end of the first extends it, in the range and beyond it.
module _ (mem a b : List ℕ) (off off' : ℕ) (next : off' ≡ off + length a) where
  both_stored :
      off' + length b ≤ length mem
      → (store mem off a >>= λ m. store m off' b) ≡ store mem off (a ++ b)
  both_stored h =
      rw (store_lem mem a off (omega arith), store_lem mem (a ++ b) off fits)
        (rw regroup (
          store-append (take off mem ++ a) (drop (off + length a) mem) b off' place room
          ∙ ap ok layout))
    where
      fits : off + length (a ++ b) ≤ length mem
      fits = omega (arith, length-append a b)

      regroup :
          take off mem ++ (a ++ drop (off + length a) mem)
          ≡ (take off mem ++ a) ++ drop (off + length a) mem
      regroup = sym (append_assoc (take off mem) a (drop (off + length a) mem))

      place : off' ≡ length (take off mem ++ a)
      place = omega (arith, length-append (take off mem) a, length-take off mem)

      room : length b ≤ length (drop (off + length a) mem)
      room = omega (arith, length-drop (off + length a) mem)

      tail : drop (length b) (drop (off + length a) mem) ≡ drop (off + length (a ++ b)) mem
      tail =
          sym (drop-add (off + length a) (length b) mem)
          ∙ ap (λ n. drop n mem) (omega (arith, length-append a b))

      layout :
          (take off mem ++ a) ++ (b ++ drop (length b) (drop (off + length a) mem))
          ≡ take off mem ++ ((a ++ b) ++ drop (off + length (a ++ b)) mem)
      layout = rw tail (simp append_assoc)

  past_first : length mem < off + length a → (store mem off a >>= λ m. store m off' b) ≡ fault
  past_first h = rw (store_past_end mem a off h)

  past_second :
      off + length a ≤ length mem
      → length mem < off' + length b
      → (store mem off a >>= λ m. store m off' b) ≡ fault
  past_second h k = rw (store_lem mem a off h) (store_past_end _ b off' (omega (arith, total)))
    where
      total : length (take off mem ++ (a ++ drop (off + length a) mem)) ≡ length mem
      total = omega (
        arith,
        length-append (take off mem) (a ++ drop (off + length a) mem),
        length-append a (drop (off + length a) mem),
        length-take off mem,
        length-drop (off + length a) mem,
      )

  pub store-store : (store mem off a >>= λ m. store m off' b) ≡ store mem off (a ++ b)
  store-store = elim (dec_le (off' + length b) (length mem)) [
    | yes h ↦ both_stored h
    | no h ↦ elim (dec_le (off + length a) (length mem)) [
      | yes k ↦ past_second k (omega arith) ∙ sym (beyond (omega arith))
      | no k ↦ past_first (omega arith) ∙ sym (beyond (omega arith))
    ]
  ]
    where
      beyond : length mem < off' + length b → store mem off (a ++ b) ≡ fault
      beyond h = store_past_end mem (a ++ b) off (omega (arith, length-append a b))

-- A write that continues a prefix already written over `mem`.
pub store_next :
    (mem pre src : List ℕ) (off end : ℕ)
    → off ≡ length pre
    → end ≡ off + length src
    → end ≤ length mem
    → store (pre ++ drop off mem) off src ≡ ok ((pre ++ src) ++ drop end mem)
store_next mem pre src off end e k h =
    store-append pre (drop off mem) src off e (omega (arith, length-drop off mem))
    ∙ ap (λ l. ok (pre ++ (src ++ l)))
        (sym (drop-add off (length src) mem) ∙ ap (λ n. drop n mem) (sym k))
    ∙ ap ok (sym (append_assoc pre src (drop end mem)))
