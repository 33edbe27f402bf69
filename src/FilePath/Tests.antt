-- ===== src/FilePath/Tests.antt =====
-- Runs of the path functions and instances of their theorems.
use lemoniscate.Common.{ℕ, ◌<◌, ◌≡◌, ◌↔◌, refl, arith, true, List, [], ◌∷◌, ◌++◌}
use lemoniscate.Common.{ok, fail, fault, ◌>>=◌}
use lemoniscate.FilePath.{
  slash, is_safe_path_component, deserialize, serialize, to_platform, from_string,
}
use lemoniscate.FilePath.Safety.{
  IsSafe, IsWellFormed, is_safe_path_component_iff, deserialize_path-IsWellFormed,
}
use lemoniscate.FilePath.Codec.{deserialize-serialize_path}
use lemoniscate.FilePath.Platform.{joined, rooted, to_platform-ok, to_platform_overflow}

-- a/bc
abbrev sample : List (List ℕ)
sample = (97 ∷ []) ∷ (98 ∷ 99 ∷ []) ∷ []

abbrev wire : List ℕ
wire = 0 ∷ 2 ∷ 0 ∷ 0 ∷ 1 ∷ 97 ∷ 0 ∷ 0 ∷ 2 ∷ 98 ∷ 99 ∷ []

-- One component, "..".
abbrev climbing : List ℕ
climbing = 0 ∷ 1 ∷ 0 ∷ 0 ∷ 2 ∷ 46 ∷ 46 ∷ []

wire_parsed : deserialize wire 11 ≡ ok sample
unfolding deserialize lemoniscate.Wire.bytes2_at lemoniscate.Wire.first2 lemoniscate.Wire.read_u16
    lemoniscate.FilePath.parse_items lemoniscate.FilePath.byte_at lemoniscate.Wire.bytes_at
    is_safe_path_component lemoniscate.FilePath.no_separator
wire_parsed = refl

climbing_refused : deserialize climbing 7 ≡ fail
unfolding deserialize lemoniscate.Wire.bytes2_at lemoniscate.Wire.first2 lemoniscate.Wire.read_u16
    lemoniscate.FilePath.parse_items lemoniscate.FilePath.byte_at lemoniscate.Wire.bytes_at
    is_safe_path_component
climbing_refused = refl

sample_written : to_platform sample (47 ∷ 114 ∷ []) 16 ≡ ok (47 ∷ 114 ∷ 47 ∷ 97 ∷ 47 ∷ 98 ∷ 99 ∷ [])
unfolding to_platform lemoniscate.FilePath.put_root lemoniscate.FilePath.put_items
sample_written = refl

-- "//a/" has one component: empty segments are left out.
from_string-slashes : from_string (47 ∷ 47 ∷ 97 ∷ 47 ∷ []) ≡ (97 ∷ []) ∷ []
unfolding from_string lemoniscate.FilePath.split_from lemoniscate.FilePath.segment
from_string-slashes = refl

is_safe_path_component_iff_example :
    (is_safe_path_component (97 ∷ 46 ∷ []) ≡ true) ↔ IsSafe (97 ∷ 46 ∷ [])
is_safe_path_component_iff_example = is_safe_path_component_iff (97 ∷ 46 ∷ [])

deserialize_path-IsWellFormed_example : IsWellFormed sample
deserialize_path-IsWellFormed_example =
    deserialize_path-IsWellFormed wire 11 (omega arith) sample wire_parsed

sample-IsWellFormed : IsWellFormed sample
sample-IsWellFormed = deserialize_path-IsWellFormed wire 11 (omega arith) sample wire_parsed

deserialize-serialize_path_example :
    (serialize sample (climbing ++ climbing) 14 >>= λ (buf', n). deserialize buf' 14) ≡ ok sample
deserialize-serialize_path_example =
    deserialize-serialize_path sample (climbing ++ climbing) 14 sample-IsWellFormed
      (unfold lemoniscate.FilePath.items_size in omega arith) (omega arith)

to_platform-ok_example :
    (47 ∷ 114 ∷ 47 ∷ 97 ∷ 47 ∷ 98 ∷ 99 ∷ [] ≡ rooted (47 ∷ 114 ∷ []) ++ joined sample) × (7 < 16)
to_platform-ok_example =
    to_platform-ok sample (47 ∷ 114 ∷ []) 16 (47 ∷ 114 ∷ 47 ∷ 97 ∷ 47 ∷ 98 ∷ 99 ∷ []) sample_written

-- The root "/r" and an output of 3 bytes.
to_platform_overflow_example : to_platform [] (47 ∷ 114 ∷ []) 3 ≡ fault
to_platform_overflow_example = to_platform_overflow 47 (114 ∷ []) 3 refl (omega arith)
