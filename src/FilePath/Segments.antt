-- ===== src/FilePath/Segments.antt =====
-- Joining the components of a path and splitting a string at '/'.
use lemoniscate.Common.{ℕ, zero, suc, ◌+◌, ◌≤◌, ◌<◌, ◌≡◌, refl, ap, sym, ◌∙◌, arith}
use lemoniscate.Common.{
  List, [], ◌∷◌, ◌++◌, append_assoc, append-nil, length, length-append, drop, drop-append_len, All,
}
use lemoniscate.FilePath.{slash, segment, split_from, skip_slash, from_string}
use lemoniscate.FilePath.Safety.{IsSafe, IsWellFormed, HasNoSeparator}
use lemoniscate.FilePath.Platform.{joined}

segment_alone : (name : List ℕ) → HasNoSeparator name → segment name ≡ name
unfolding segment
segment_alone [] h = refl
segment_alone (c ∷ cs) h = ground (arith, segment_alone cs h.1, h.0.0)

segment_before :
    (name more : List ℕ) → HasNoSeparator name → segment (name ++ (slash ∷ more)) ≡ name
unfolding segment
segment_before [] more h = refl
segment_before (c ∷ cs) more h = ground (arith, segment_before cs more h.1, h.0.0)

behind_slash : (name more : List ℕ) → drop (length name + 1) (name ++ (slash ∷ more)) ≡ more
behind_slash name more =
    ap (drop (length name + 1)) (sym (append_assoc name (slash ∷ []) more))
    ∙ drop-append_len (length name + 1) (name ++ (slash ∷ [])) more
        (omega (arith, length-append name (slash ∷ [])))

split_last :
    (fuel : ℕ) (name : List ℕ) (items : List (List ℕ))
    → IsSafe name
    → length name ≤ 255
    → length items < 32
    → split_from (suc fuel) name items ≡ items ++ (name ∷ [])
unfolding split_from
split_last fuel [] items s h k = absurd (s.not_empty refl)
split_last fuel (c ∷ cs) items s h k = ground (arith, segment_alone (c ∷ cs) s.plain)

split_next :
    (fuel : ℕ) (name more : List ℕ) (items : List (List ℕ))
    → IsSafe name
    → length name ≤ 255
    → length items < 32
    → split_from (suc fuel) (name ++ (slash ∷ more)) items
      ≡ split_from fuel more (items ++ (name ∷ []))
unfolding split_from
split_next fuel [] more items s h k = absurd (s.not_empty refl)
split_next fuel (c ∷ cs) more items s h k = ground (
  arith,
  segment_before (c ∷ cs) more s.plain,
  behind_slash (c ∷ cs) more,
  length-append cs (slash ∷ more),
)

-- Splitting what was joined gives the components, appended to those found before.
split_joined :
    (fp : List (List ℕ)) (fuel : ℕ) (items : List (List ℕ))
    → All (λ name. IsSafe name × (length name ≤ 255)) fp
    → length items + length fp ≤ 32
    → length (joined fp) < fuel
    → split_from fuel (joined fp) items ≡ items ++ fp
split_joined fp zero items w h k = absurd (omega arith)
split_joined [] (suc fuel) items w h k = unfold split_from in sym (append-nil items)
split_joined (name ∷ []) (suc fuel) items w h k =
    split_last fuel name items w.0.0 w.0.1 (omega arith)
split_joined (name ∷ next ∷ rest) (suc fuel) items w h k =
    split_next fuel name (joined (next ∷ rest)) items w.0.0 w.0.1 (omega arith)
    ∙ split_joined (next ∷ rest) fuel (items ++ (name ∷ [])) w.1
        (omega (arith, length-append items (name ∷ [])))
        (omega (arith, length-append name (slash ∷ joined (next ∷ rest))))
    ∙ append_assoc items (name ∷ []) (next ∷ rest)

skip_plain : (name more : List ℕ) → IsSafe name → skip_slash (name ++ more) ≡ name ++ more
skip_plain [] more s = absurd (s.not_empty refl)
skip_plain (c ∷ cs) more s = ground (arith, s.plain.0.0)

skip_joined :
    (fp : List (List ℕ))
    → All (λ name. IsSafe name × (length name ≤ 255)) fp
    → skip_slash (joined fp) ≡ joined fp
skip_joined [] w = refl
skip_joined (name ∷ []) w = rw append-nil at (skip_plain name [] w.0.0)
skip_joined (name ∷ next ∷ rest) w = skip_plain name (slash ∷ joined (next ∷ rest)) w.0.0

-- The components of a decoded path, joined by '/', with or without a '/' in front, are split into
-- the same components.
pub from_string-joined :
    (fp : List (List ℕ))
    → IsWellFormed fp
    → (from_string (joined fp) ≡ fp) × (from_string (slash ∷ joined fp) ≡ fp)
unfolding from_string
from_string-joined fp w =
    let plain : split_from (length (joined fp) + 1) (joined fp) [] ≡ fp =
      split_joined fp (length (joined fp) + 1) [] w.safe (omega (arith, w.few)) (omega arith) in
    (rw (skip_joined fp w.safe) plain, plain)
