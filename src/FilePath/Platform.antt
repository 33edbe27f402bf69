-- ===== src/FilePath/Platform.antt =====
-- The platform path of a decoded path: what it is, and where the buffer does not suffice.
use lemoniscate.Common.{ℕ, ◌+◌, ◌<◌, ◌≡◌, ◌≢◌, ap, ◌∙◌, arith, false, ltb, if◌then◌else◌}
use lemoniscate.Common.{List, [], ◌∷◌, ◌++◌, append_assoc, append-nil, length, length-append}
use lemoniscate.Common.{ok, fault, within, ◌>>=◌, >>=-eq-ok, >>=-ne-fault, lt→ltb}
use lemoniscate.FilePath.{slash, last_is_slash, put_root, put_items, to_platform}

-- The components with a '/' between them.
abbrev pub joined : List (List ℕ) → List ℕ
joined [] = []
joined (name ∷ []) = name
joined (name ∷ next ∷ rest) = name ++ (slash ∷ joined (next ∷ rest))

-- The root with a '/' behind it, unless it is empty or ends with one.
abbrev pub rooted : List ℕ → List ℕ
rooted [] = []
rooted (c ∷ cs) = if last_is_slash (c ∷ cs) then c ∷ cs else (c ∷ cs) ++ (slash ∷ [])

put_root-ok :
    (root : List ℕ) (out_len : ℕ) (out : List ℕ)
    → put_root root out_len ≡ ok out
    → out ≡ rooted root
unfolding put_root
put_root-ok [] out_len out e = ground arith
put_root-ok (c ∷ cs) out_len out e = ground arith

put_items-ok :
    (fp : List (List ℕ)) (out : List ℕ) (out_len : ℕ) (r : List ℕ)
    → put_items fp out out_len ≡ ok r
    → r ≡ out ++ joined fp
unfolding put_items
put_items-ok [] out out_len r e = ground (arith, append-nil out)
put_items-ok (name ∷ []) out out_len r e = ground arith
put_items-ok (name ∷ next ∷ rest) out out_len r e = ground (
  arith,
  put_items-ok (next ∷ rest) (out ++ (name ++ (slash ∷ []))) out_len r,
  append_assoc out (name ++ (slash ∷ [])) (joined (next ∷ rest)),
  append_assoc name (slash ∷ []) (joined (next ∷ rest)),
)

put_items-cases :
    (fp : List (List ℕ)) (out : List ℕ) (out_len : ℕ) → put_items fp out out_len ≢ fault
unfolding put_items
put_items-cases [] out out_len e = cc
put_items-cases (name ∷ []) out out_len e = ground arith
put_items-cases (name ∷ next ∷ rest) out out_len e =
    ground (arith, put_items-cases (next ∷ rest) (out ++ (name ++ (slash ∷ []))) out_len)

put_items-fits :
    (name : List ℕ) (fp : List (List ℕ)) (out : List ℕ) (out_len : ℕ) (r : List ℕ)
    → put_items (name ∷ fp) out out_len ≡ ok r
    → length r < out_len
unfolding put_items
put_items-fits name [] out out_len r e = ground (arith, length-append out name)
put_items-fits name (next ∷ rest) out out_len r e =
    ground (arith, put_items-fits next rest (out ++ (name ++ (slash ∷ []))) out_len r)

put_root-ne-fault : (root : List ℕ) (out_len : ℕ) → put_root root out_len ≢ fault
unfolding put_root
put_root-ne-fault [] out_len e = cc
put_root-ne-fault (c ∷ cs) out_len e = ground arith

finish-ok :
    (out r : List ℕ) (out_len : ℕ)
    → (within (ltb (length out) out_len) >>= λ _. ok out) ≡ ok r
    → (r ≡ out) × (length out < out_len)
finish-ok out r out_len e = ground arith

-- A string that is delivered is the root, then the components with a '/' between them, and leaves
-- room for its NUL.
pub to_platform-ok :
    (fp : List (List ℕ)) (root : List ℕ) (out_len : ℕ) (out : List ℕ)
    → to_platform fp root out_len ≡ ok out
    → (out ≡ rooted root ++ joined fp) × (length out < out_len)
unfolding to_platform
to_platform-ok fp root out_len out e =
    let (o1, e1, k1) = >>=-eq-ok (put_root root out_len) _ e in
    let (o2, e2, k2) = >>=-eq-ok (put_items fp o1 out_len) _ k1 in
    let (same, fits) = finish-ok o2 out out_len k2 in
    (
      same
          ∙ put_items-ok fp o1 out_len o2 e2
          ∙ ap (λ l. l ++ joined fp) (put_root-ok root out_len o1 e1),
      rw same fits,
    )

-- A path with a component never writes outside the output, whatever its length.
pub to_platform-ne-fault :
    (name : List ℕ) (fp : List (List ℕ)) (root : List ℕ) (out_len : ℕ)
    → to_platform (name ∷ fp) root out_len ≢ fault
unfolding to_platform
to_platform-ne-fault name fp root out_len =
    >>=-ne-fault (put_root root out_len) _ (put_root-ne-fault root out_len) λ o1 e1.
      >>=-ne-fault (put_items (name ∷ fp) o1 out_len) _ (put_items-cases (name ∷ fp) o1 out_len)
        λ o2 e2. rw (lt→ltb (length o2) out_len (put_items-fits name fp o1 out_len o2 e2)) (λ e. cc)

-- The empty path under a root that fills the output up to its last byte and ends with no '/': the
-- NUL is written one byte past the output.
pub to_platform_overflow :
    (c : ℕ) (cs : List ℕ) (out_len : ℕ)
    → last_is_slash (c ∷ cs) ≡ false
    → length (c ∷ cs) + 1 ≡ out_len
    → to_platform [] (c ∷ cs) out_len ≡ fault
unfolding to_platform put_root put_items
to_platform_overflow c cs out_len e h = ground (arith, length-append cs (slash ∷ []))
