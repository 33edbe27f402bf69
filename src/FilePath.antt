-- ===== src/FilePath.antt =====
-- src/hotline/file_path.c: paths below the file root, as the wire carries them and as the platform
-- writes them. A component is its bytes, which `name_len` of the source counts; a path is its
-- components, which `item_count` counts.
pub mod Safety
pub mod Codec
pub mod Platform
pub mod Segments
mod Tests
use lemoniscate.Common.{
  ℕ, zero, suc, ◌+◌, ◌-◌, ◌%◌, ◌^◌, Bool, true, false, not, ◌&&◌, ◌||◌, ◌==◌, ltb, leb,
  if◌then◌else◌,
}
use lemoniscate.Common.{List, [], ◌∷◌, ◌++◌, length, take, drop, get_elem?, none, some}
use lemoniscate.Common.{Outcome, ok, fail, fault, require, within, ◌>>=◌, ◌>>◌}
use lemoniscate.Wire.{read_u16, write_u16, list2, bytes2_at, bytes_at, store}

abbrev pub file_path_max_items : ℕ
file_path_max_items = 32

abbrev pub file_path_name_max : ℕ
file_path_name_max = 255

abbrev pub slash : ℕ
slash = b'/'

-- The loop over the characters: no '/', no '\', no NUL.
unfoldable pub no_separator : List ℕ → Bool
no_separator [] = true
no_separator (c ∷ cs) = not (c == slash || c == 92 || c == 0) && no_separator cs

abbrev first_is_dot : List ℕ → Bool
first_is_dot [] = false
first_is_dot (c ∷ cs) = c == b'.'

abbrev second_is_dot : List ℕ → Bool
second_is_dot [] = false
second_is_dot (c ∷ cs) = first_is_dot cs

unfoldable pub is_safe_path_component : List ℕ → Bool
is_safe_path_component name =
    let len = length name in
    if len == 0
    then false
    else (if len == 1 && first_is_dot name
        then false
        else (if len == 2 && first_is_dot name && second_is_dot name
            then false
            else no_separator name))

-- `buf[off]`
unfoldable pub byte_at : List ℕ → ℕ → Outcome ℕ
byte_at buf off = elim (get_elem? buf off) [ none ↦ fault | some b ↦ ok b ]

-- The loop over `count` items, from `offset` on.
unfoldable pub parse_items : List ℕ → ℕ → ℕ → ℕ → Outcome (List (List ℕ))
parse_items buf buf_len zero offset = ok []
parse_items buf buf_len (suc n) offset = do
  require (leb (offset + 3) buf_len)
  name_len ← byte_at buf (offset + 2)
  require (leb (offset + 3 + name_len) buf_len)
  require (leb name_len file_path_name_max)
  name ← bytes_at buf (offset + 3) name_len
  require (is_safe_path_component name)
  rest ← parse_items buf buf_len n (offset + (3 + name_len))
  ok (name ∷ rest)

unfoldable pub deserialize : List ℕ → ℕ → Outcome (List (List ℕ))
deserialize buf buf_len = do
  require (leb 2 buf_len)
  head ← bytes2_at buf 0
  let count = read_u16 head
  require (leb count file_path_max_items)
  parse_items buf buf_len count 2

unfoldable pub items_size : List (List ℕ) → ℕ
items_size [] = 0
items_size (name ∷ rest) = 3 + length name + items_size rest

unfoldable pub write_items : List (List ℕ) → List ℕ → ℕ → Outcome (List ℕ)
write_items [] buf offset = ok buf
write_items (name ∷ rest) buf offset = do
  buf ← store buf offset (0 ∷ [])
  buf ← store buf (offset + 1) (0 ∷ [])
  buf ← store buf (offset + 2) (length name % 256 ∷ [])
  buf ← store buf (offset + 3) name
  write_items rest buf (offset + (3 + length name))

-- The memory at `buf` afterwards, and the number of bytes that the path takes.
unfoldable pub serialize : List (List ℕ) → List ℕ → ℕ → Outcome (List ℕ × ℕ)
serialize fp buf buf_len = do
  let needed = 2 + items_size fp
  require (leb needed buf_len)
  buf ← store buf 0 (list2 (write_u16 (length fp)))
  buf ← write_items fp buf 2
  ok (buf, needed)

abbrev last_is_slash : List ℕ → Bool
last_is_slash [] = false
last_is_slash (c ∷ []) = c == slash
last_is_slash (c ∷ d ∷ cs) = last_is_slash (d ∷ cs)

-- The writes to `out` are given by the string so far: it fits below `out_len`, or the write is a
-- fault. First the root, and a '/' behind it if it ends with none.
unfoldable pub put_root : List ℕ → ℕ → Outcome (List ℕ)
put_root [] out_len = ok []
put_root (c ∷ cs) out_len =
    let root = c ∷ cs in
    do
      require (not (leb out_len (length root)))
      if last_is_slash root
          then ok root
          else (do require (not (leb out_len (length root))); ok (root ++ (slash ∷ [])))

-- The loop over the items, with a '/' behind each but the last.
unfoldable pub put_items : List (List ℕ) → List ℕ → ℕ → Outcome (List ℕ)
put_items [] out out_len = ok out
put_items (name ∷ []) out out_len = do
  require (not (leb out_len (length out + length name + 1)))
  ok (out ++ name)
put_items (name ∷ next ∷ rest) out out_len = do
  require (not (leb out_len (length out + length name + 1)))
  put_items (next ∷ rest) (out ++ (name ++ (slash ∷ []))) out_len

-- The string that ends up in `out`, without the NUL behind it: `out[pos] = '\0'` is a fault where
-- `pos` is `out_len`.
unfoldable pub to_platform : List (List ℕ) → List ℕ → ℕ → Outcome (List ℕ)
to_platform fp root out_len = do
  out ← put_root root out_len
  out ← put_items fp out out_len
  within (ltb (length out) out_len)
  ok out

-- `strchr(p, '/')`: the segment in front of the next '/', and what is behind it, if there is one.
unfoldable pub segment : List ℕ → List ℕ
segment [] = []
segment (c ∷ cs) = if c == slash then [] else c ∷ segment cs

-- An append to the path, unless the segment is empty or too long.
abbrev keep : List ℕ → List (List ℕ) → List (List ℕ)
keep seg items =
    if ltb 0 (length seg) && leb (length seg) file_path_name_max then items ++ (seg ∷ []) else items

-- The loop of `hl_file_path_from_string`, with `p` the rest of the string (which ends before its
-- NUL) and fuel for its characters.
unfoldable pub split_from : ℕ → List ℕ → List (List ℕ) → List (List ℕ)
split_from zero p items = items
split_from (suc fuel) [] items = items
split_from (suc fuel) (c ∷ cs) items =
    let p = c ∷ cs in
    let seg = segment p in
    let items' = keep seg items in
    let more = split_from fuel (drop (length seg + 1) p) items' in
    if ltb (length items) file_path_max_items
    then (if length seg == length p then items' else more)
    else items

abbrev skip_slash : List ℕ → List ℕ
skip_slash [] = []
skip_slash (c ∷ cs) = if c == slash then cs else c ∷ cs

unfoldable pub from_string : List ℕ → List (List ℕ)
from_string path = let p = skip_slash path in split_from (length p + 1) p []
