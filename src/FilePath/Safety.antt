-- ===== src/FilePath/Safety.antt =====
-- What the decoder accepts.
use lemoniscate.Common.{ℕ, zero, suc, ◌+◌, ◌≤◌, ◌<◌, ◌≡◌, ◌≢◌, refl, arith, true}
use lemoniscate.Common.{
  sym, ap, ◌∙◌, ◌↔◌, ◌⊎◌, inl, inr, length-take, length-drop, Bool-cases, le→leb, List, [], ◌∷◌,
  All, length, take, drop, get_elem?-total,
}
use lemoniscate.Common.{Outcome, ok, fail, fault, ◌>>=◌, >>=-ne-fault}
use lemoniscate.Wire.{read_u16}
use lemoniscate.Wire.Reads.{bytes2_at_total, bytes_at_lem}
use lemoniscate.FilePath.{
  slash, no_separator, is_safe_path_component, byte_at, parse_items, deserialize,
}
use native.Mathlib.Decide.{dec_le}

-- No '/', no '\' and no NUL.
abbrev pub HasNoSeparator : List ℕ → Type 0
HasNoSeparator = All (λ c. (c ≢ slash) × (c ≢ 92) × (c ≢ 0))

-- A name that stays in its folder: it is not empty, neither "." nor "..", and has no separator.
pub record IsSafe (name : List ℕ) : Type 0 where
  pub not_empty : name ≢ []
  pub not_dot : name ≢ b'.' ∷ []
  pub not_dot_dot : name ≢ b'.' ∷ b'.' ∷ []
  pub plain : HasNoSeparator name

no_separator→ : (cs : List ℕ) → no_separator cs ≡ true → HasNoSeparator cs
unfolding no_separator
no_separator→ [] h = tt
no_separator→ (c ∷ cs) h = (ground arith, no_separator→ cs (ground arith))

no_separator← : (cs : List ℕ) → HasNoSeparator cs → no_separator cs ≡ true
unfolding no_separator
no_separator← [] h = refl
no_separator← (c ∷ cs) h = ground (arith, no_separator← cs h.1)

component_sound : (name : List ℕ) → is_safe_path_component name ≡ true → IsSafe name
unfolding is_safe_path_component
component_sound [] h = cc
component_sound (a ∷ []) h = record {
  not_empty = λ e. cc;
  not_dot = λ e. ground arith;
  not_dot_dot = λ e. cc;
  plain = no_separator→ (a ∷ []) (ground arith);
}
component_sound (a ∷ b ∷ []) h = record {
  not_empty = λ e. cc;
  not_dot = λ e. cc;
  not_dot_dot = λ e. ground arith;
  plain = no_separator→ (a ∷ b ∷ []) (ground arith);
}
component_sound (a ∷ b ∷ c ∷ cs) h = record {
  not_empty = λ e. cc;
  not_dot = λ e. cc;
  not_dot_dot = λ e. cc;
  plain = no_separator→ (a ∷ b ∷ c ∷ cs) (ground arith);
}

component_complete : (name : List ℕ) → IsSafe name → is_safe_path_component name ≡ true
unfolding is_safe_path_component
component_complete [] s = absurd (s.not_empty refl)
component_complete (a ∷ []) s = ground (arith, no_separator← (a ∷ []) s.plain, s.not_dot)
component_complete (a ∷ b ∷ []) s =
    ground (arith, no_separator← (a ∷ b ∷ []) s.plain, s.not_dot_dot)
component_complete (a ∷ b ∷ c ∷ cs) s = ground (arith, no_separator← (a ∷ b ∷ c ∷ cs) s.plain)

-- The check accepts exactly the names that stay in their folder.
pub is_safe_path_component_iff :
    (name : List ℕ) → (is_safe_path_component name ≡ true) ↔ IsSafe name
is_safe_path_component_iff name = (component_sound name, component_complete name)

-- A path that the decoder delivers.
pub record IsWellFormed (fp : List (List ℕ)) : Type 0 where
  pub safe : All (λ name. IsSafe name × (length name ≤ 255)) fp
  pub few : length fp ≤ 32

byte_at-total : (buf : List ℕ) (off : ℕ) → off < length buf → (b : ℕ) × (byte_at buf off ≡ ok b)
unfolding byte_at
byte_at-total buf off h = let (b, e) = get_elem?-total buf off h in (b, ground (arith, e))

consed :
    (name : List ℕ) (m : Outcome (List (List ℕ))) (fp : List (List ℕ))
    → (m >>= λ rest. ok (name ∷ rest)) ≡ ok fp
    → (rest : List (List ℕ)) × (m ≡ ok rest) × (fp ≡ name ∷ rest)
consed name (ok rest) fp e = (rest, refl, cc)
consed name fail fp e = cc
consed name fault fp e = cc

module _ (buf : List ℕ) (buf_len : ℕ) (inside : buf_len ≤ length buf) where
  -- One round of the loop: it fails, or it takes a safe name.
  parse_items-suc :
      (n off : ℕ)
      → (parse_items buf buf_len (suc n) off ≡ fail)
        ⊎ ((name : List ℕ) × (is_safe_path_component name ≡ true)
            × (length name ≤ 255)
            × (off + 3 + length name ≤ buf_len)
            × (parse_items buf buf_len (suc n) off ≡ (
                parse_items buf buf_len n (off + (3 + length name)) >>= λ rest. ok (name ∷ rest))))
  unfolding parse_items
  parse_items-suc n off = elim (dec_le (off + 3) buf_len) [
    | no h ↦ inl (ground arith)
    | yes h ↦
        let (len, el) = byte_at-total buf (off + 2) (omega arith) in
        elim (dec_le (off + 3 + len) buf_len) [
          | no k ↦ inl (ground (arith, el))
          | yes k ↦ elim (dec_le len 255) [
            | no g ↦ inl (ground (arith, el))
            | yes g ↦
                let room : off + 3 + len ≤ length buf = omega arith in
                let name = take len (drop (off + 3) buf) in
                let size : length name ≡ len =
                  omega (arith, length-take len (drop (off + 3) buf), length-drop (off + 3) buf) in
                elim (Bool-cases (is_safe_path_component name)) [
                  | inr bad ↦ inl (ground (arith, el, bad, bytes_at_lem buf (off + 3) len room))
                  | inl safe ↦ inr (
                    name,
                    safe,
                    omega (arith, size),
                    omega (arith, size),
                    rw (
                      le→leb (off + 3) buf_len h,
                      el,
                      le→leb (off + 3 + len) buf_len k,
                      le→leb len 255 g,
                      bytes_at_lem buf (off + 3) len room,
                      safe,
                      size,
                    ),
                  )
                ]
          ]
        ]
  ]

  parse_items-IsSafe :
      (n off : ℕ) (fp : List (List ℕ))
      → parse_items buf buf_len n off ≡ ok fp
      → All (λ name. IsSafe name × (length name ≤ 255)) fp × (length fp ≡ n)
  parse_items-IsSafe zero off fp e = unfold parse_items in ground arith
  parse_items-IsSafe (suc n) off fp e = elim (parse_items-suc n off) [
    | inl f ↦ cc
    | inr (name, safe, short, fits, step) ↦
        let (rest, er, ef) =
          consed name (parse_items buf buf_len n (off + (3 + length name))) fp (sym step ∙ e) in
        let ih = parse_items-IsSafe n (off + (3 + length name)) rest er in
        rw ef (((component_sound name safe, short), ih.0), ap suc ih.1)
  ]

  parse_items-ne-fault : (n off : ℕ) → parse_items buf buf_len n off ≢ fault
  parse_items-ne-fault zero off = unfold parse_items in λ e. cc
  parse_items-ne-fault (suc n) off = elim (parse_items-suc n off) [
    | inl f ↦ λ e. cc
    | inr (name, safe, short, fits, step) ↦ rw step (
        >>=-ne-fault (parse_items buf buf_len n (off + (3 + length name)))
          (λ rest. ok (name ∷ rest)) (parse_items-ne-fault n (off + (3 + length name)))
          (λ rest k e. cc))
  ]

  -- A path decoded from a buffer of at least the stated length has at most 32 components, each of
  -- at most 255 bytes, and every one stays in its folder: it is not empty, neither "." nor "..", and
  -- has no '/', no '\' and no NUL.
  pub deserialize_path-IsWellFormed :
      (fp : List (List ℕ)) → deserialize buf buf_len ≡ ok fp → IsWellFormed fp
  unfolding deserialize
  deserialize_path-IsWellFormed fp e = elim (dec_le 2 buf_len) [
    | no h ↦ ground arith
    | yes h ↦
        let (head, eh) = bytes2_at_total buf 0 (omega arith) in
        ground (arith, eh, parse_items-IsSafe (read_u16 head) 2 fp)
  ]

  -- Told no more bytes than the buffer holds, the path decoder never reads outside it.
  pub deserialize-ne-fault_path : deserialize buf buf_len ≢ fault
  unfolding deserialize
  deserialize-ne-fault_path = elim (dec_le 2 buf_len) [
    | no h ↦ ground arith
    | yes h ↦
        let (head, eh) = bytes2_at_total buf 0 (omega arith) in
        ground (arith, eh, parse_items-ne-fault (read_u16 head) 2)
  ]
