-- ===== src/FilePath/Codec.antt =====
-- A path that is encoded and decoded again.
use lemoniscate.Common.{ℕ, ◌+◌, ◌%◌, ◌≤◌, ◌≡◌, refl, ap, ap₂, take-append, sym, ◌∙◌, arith, le→leb}
use lemoniscate.Common.{
  List, [], ◌∷◌, ◌++◌, append_assoc, append-nil, All, length, length-append, take, drop,
  get_elem?-append_right,
}
use lemoniscate.Common.{drop-append_len, ok, ◌>>=◌}
use lemoniscate.Wire.{list2, write_u16, bytes2_at, bytes_at, first2}
use lemoniscate.Wire.Integers.{read_u16-write_u16}
use lemoniscate.Wire.Reads.{bytes_at_lem}
use lemoniscate.Wire.Stores.{store_lem, store_next}
use lemoniscate.FilePath.{byte_at, parse_items, deserialize, items_size, write_items, serialize}
use lemoniscate.FilePath.Safety.{IsSafe, IsWellFormed, is_safe_path_component_iff}

-- The bytes of the components, and of the whole path.
abbrev pub images : List (List ℕ) → List ℕ
images [] = []
images (name ∷ rest) = (0 ∷ 0 ∷ length name ∷ name) ++ images rest

abbrev pub image : List (List ℕ) → List ℕ
image fp = list2 (write_u16 (length fp)) ++ images fp

abbrev IsShort : List (List ℕ) → Type 0
IsShort = All (λ name. IsSafe name × (length name ≤ 255))

pub length-images : (fp : List (List ℕ)) → length (images fp) ≡ items_size fp
unfolding items_size
length-images [] = refl
length-images (name ∷ rest) = omega (arith, length-append name (images rest), length-images rest)

write_items_lem :
    (fp : List (List ℕ)) (mem pre : List ℕ) (off : ℕ)
    → IsShort fp
    → off ≡ length pre
    → off + items_size fp ≤ length mem
    → write_items fp (pre ++ drop off mem) off
      ≡ ok ((pre ++ images fp) ++ drop (off + items_size fp) mem)
unfolding write_items items_size
write_items_lem [] mem pre off w e h =
    rw append-nil (ap (λ n. ok (pre ++ drop n mem)) (omega arith))
write_items_lem (name ∷ rest) mem pre off w e h =
    let p1 = pre ++ (0 ∷ []) in
    let p2 = p1 ++ (0 ∷ []) in
    let p3 = p2 ++ (length name % 256 ∷ []) in
    let p4 = p3 ++ name in
    let l1 : length p1 ≡ off + 1 = omega (arith, length-append pre (0 ∷ [])) in
    let l2 : length p2 ≡ off + 2 = omega (arith, length-append p1 (0 ∷ [])) in
    let l3 : length p3 ≡ off + 3 = omega (arith, length-append p2 (length name % 256 ∷ [])) in
    let l4 : length p4 ≡ off + (3 + length name) = omega (arith, length-append p3 name) in
    rw
      (
        store_next mem pre (0 ∷ []) off (off + 1) e refl (omega arith),
        store_next mem p1 (0 ∷ []) (off + 1) (off + 2) (sym l1) (omega arith) (omega arith),
        store_next mem p2 (length name % 256 ∷ []) (off + 2) (off + 3) (sym l2) (omega arith)
            (omega arith),
        store_next mem p3 name (off + 3) (off + (3 + length name)) (sym l3) (omega arith)
            (omega arith),
      )
      (write_items_lem rest mem p4 (off + (3 + length name)) w.1 (sym l4) (omega arith)
        ∙ ap₂ (λ l n. ok (l ++ drop n mem))
            (rw (let small : length name % 256 ≡ length name = omega (arith, w.0.1) in small)
              (simp append_assoc))
            (omega arith))

-- A path is written whole into any buffer that is long enough, and nothing behind it is touched.
pub serialize_lem :
    (fp : List (List ℕ)) (buf : List ℕ) (buf_len : ℕ)
    → IsWellFormed fp
    → 2 + items_size fp ≤ buf_len
    → buf_len ≤ length buf
    → serialize fp buf buf_len ≡ ok (image fp ++ drop (2 + items_size fp) buf, 2 + items_size fp)
unfolding serialize
serialize_lem fp buf buf_len w h inside = rw (
  le→leb (2 + items_size fp) buf_len h,
  store_lem buf (list2 (write_u16 (length fp))) 0 (omega arith),
  write_items_lem fp buf (list2 (write_u16 (length fp))) 2 w.safe refl (omega arith),
)

byte_at-behind :
    (pre ys : List ℕ) (a b c off : ℕ)
    → off ≡ length pre
    → byte_at (pre ++ (a ∷ b ∷ c ∷ ys)) (off + 2) ≡ ok c
unfolding byte_at
byte_at-behind pre ys a b c off e =
    ground (arith, get_elem?-append_right pre (a ∷ b ∷ c ∷ ys) (off + 2) 2)

parse_items-images :
    (fp : List (List ℕ)) (buf pre rest : List ℕ) (off buf_len : ℕ)
    → IsShort fp
    → buf ≡ pre ++ (images fp ++ rest)
    → off ≡ length pre
    → off + items_size fp ≤ buf_len
    → parse_items buf buf_len (length fp) off ≡ ok fp
unfolding parse_items items_size
parse_items-images [] buf pre rest off buf_len w b e h = refl
parse_items-images (name ∷ more) buf pre rest off buf_len w b e h = rw (
  le→leb (off + 3) buf_len (omega arith),
  head,
  le→leb (off + 3 + length name) buf_len (omega arith),
  le→leb (length name) 255 w.0.1,
  taken,
  (is_safe_path_component_iff name).1 w.0.0,
  parse_items-images more buf p4 rest (off + (3 + length name)) buf_len w.1 (b ∙ regroup) l4
      (omega arith),
)
  where
    p3 : List ℕ
    p3 = pre ++ (0 ∷ 0 ∷ length name ∷ [])

    p4 : List ℕ
    p4 = p3 ++ name

    l4 : off + (3 + length name) ≡ length p4
    l4 = omega (arith, length-append p3 name, length-append pre (0 ∷ 0 ∷ length name ∷ []))

    behind : pre ++ (images (name ∷ more) ++ rest) ≡ p3 ++ (name ++ (images more ++ rest))
    behind = simp append_assoc

    regroup : pre ++ (images (name ∷ more) ++ rest) ≡ p4 ++ (images more ++ rest)
    regroup = simp append_assoc

    head : byte_at buf (off + 2) ≡ ok (length name)
    head = rw b (byte_at-behind pre ((name ++ images more) ++ rest) 0 0 (length name) off e)

    l3 : length p3 ≡ off + 3
    l3 = omega (arith, length-append pre (0 ∷ 0 ∷ length name ∷ []))

    taken : bytes_at buf (off + 3) (length name) ≡ ok name
    taken =
        rw (b, behind)
          (bytes_at_lem _ (off + 3) (length name) (
              omega (
                arith,
                length-append p3 (name ++ (images more ++ rest)),
                length-append name (images more ++ rest),
                l3,
              ))
            ∙ ap (λ l. ok (take (length name) l))
                (drop-append_len (off + 3) p3 (name ++ (images more ++ rest)) l3)
            ∙ ap ok (take-append (name) (images more ++ rest)))

-- What `serialize` left in a buffer is decoded to the same path.
pub deserialize-serialize_path :
    (fp : List (List ℕ)) (buf : List ℕ) (buf_len : ℕ)
    → IsWellFormed fp
    → 2 + items_size fp ≤ buf_len
    → buf_len ≤ length buf
    → (serialize fp buf buf_len >>= λ (buf', n). deserialize buf' buf_len) ≡ ok fp
unfolding deserialize bytes2_at first2
deserialize-serialize_path fp buf buf_len w h inside = rw (
  serialize_lem fp buf buf_len w h inside,
  le→leb 2 buf_len (omega arith),
  read_u16-write_u16 (length fp) (omega (arith, w.few)),
  le→leb (length fp) 32 w.few,
  parse_items-images fp (image fp ++ drop (2 + items_size fp) buf) (list2 (write_u16 (length fp)))
      (drop (2 + items_size fp) buf) 2 buf_len w.safe refl refl h,
)
