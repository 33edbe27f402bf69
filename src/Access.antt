-- ===== src/Access.antt =====
-- include/hotline/access.h and src/hotline/access.c: the permission bitmap of an account, 8 bytes in
-- which bit 0 is the highest bit of byte 0, the classes of accounts, and the names of the bits.
pub mod Bitmap
pub mod Names
mod Tests
use lemoniscate.Common.{set as set_elem}
use lemoniscate.Common.{ℕ, ◌-◌, ◌/◌, ◌%◌, ◌^◌, Bool, not, ◌==◌, if◌then◌else◌, bytes_eq}
use lemoniscate.Common.{Option, none, some, List, [], ◌∷◌, get_elem?, Outcome, ok, fault, ◌>>=◌}
use Prim.Native.Nat.{bit_and, bit_or}
use Prim.Native.String.{String}
use text.Mathlib.Text.{◌==◌ as str_eq}

-- `1 << (7 - (i % 8))`
abbrev pub mask : ℕ → ℕ
mask i = 2 ^ (7 - i % 8)

-- `bits[k]`
abbrev pub byte_at : List ℕ → ℕ → Outcome ℕ
byte_at bits k = elim (get_elem? bits k) [ none ↦ fault | some b ↦ ok b ]

unfoldable pub set : List ℕ → ℕ → Outcome (List ℕ)
set bits i = do b ← byte_at bits (i / 8); ok (set_elem bits (i / 8) (bit_or b (mask i % 256) % 256))

unfoldable pub is_set : List ℕ → ℕ → Outcome Bool
is_set bits i = do b ← byte_at bits (i / 8); ok (not (bit_and b (mask i) == 0))

-- `(uint8_t)~m` of a mask below 256 is 255 - m.
unfoldable pub clear : List ℕ → ℕ → Outcome (List ℕ)
clear bits i = do
  b ← byte_at bits (i / 8)
  ok (set_elem bits (i / 8) (bit_and b (255 - mask i) % 256))

abbrev pub admin_access_template : List ℕ
admin_access_template = 0xff ∷ 0xff ∷ 0xef ∷ 0xff ∷ 0xff ∷ 0x80 ∷ 0x00 ∷ 0x00 ∷ []

abbrev pub guest_access_template : List ℕ
guest_access_template = 0x20 ∷ 0x74 ∷ 0x0c ∷ 0x80 ∷ 0x01 ∷ 0x80 ∷ 0x00 ∷ 0x00 ∷ []

pub data AccountClass : Type 0 where
  custom guest admin : AccountClass

unfoldable pub classify : List ℕ → AccountClass
classify access =
    if bytes_eq access admin_access_template
    then admin
    else (if bytes_eq access guest_access_template then guest else custom)

abbrev pub access_name_map : List (String × ℕ)
access_name_map =
    ("DeleteFile", 0)
    ∷ ("UploadFile", 1)
    ∷ ("DownloadFile", 2)
    ∷ ("RenameFile", 3)
    ∷ ("MoveFile", 4)
    ∷ ("CreateFolder", 5)
    ∷ ("DeleteFolder", 6)
    ∷ ("RenameFolder", 7)
    ∷ ("MoveFolder", 8)
    ∷ ("ReadChat", 9)
    ∷ ("SendChat", 10)
    ∷ ("OpenChat", 11)
    ∷ ("CloseChat", 12)
    ∷ ("ShowInList", 13)
    ∷ ("CreateUser", 14)
    ∷ ("DeleteUser", 15)
    ∷ ("OpenUser", 16)
    ∷ ("ModifyUser", 17)
    ∷ ("ChangeOwnPass", 18)
    ∷ ("NewsReadArt", 20)
    ∷ ("NewsPostArt", 21)
    ∷ ("DisconnectUser", 22)
    ∷ ("CannotBeDisconnected", 23)
    ∷ ("GetClientInfo", 24)
    ∷ ("UploadAnywhere", 25)
    ∷ ("AnyName", 26)
    ∷ ("NoAgreement", 27)
    ∷ ("SetFileComment", 28)
    ∷ ("SetFolderComment", 29)
    ∷ ("ViewDropBoxes", 30)
    ∷ ("MakeAlias", 31)
    ∷ ("Broadcast", 32)
    ∷ ("NewsDeleteArt", 33)
    ∷ ("NewsCreateCat", 34)
    ∷ ("NewsDeleteCat", 35)
    ∷ ("NewsCreateFldr", 36)
    ∷ ("NewsDeleteFldr", 37)
    ∷ ("UploadFolder", 38)
    ∷ ("DownloadFolder", 39)
    ∷ ("SendPrivMsg", 40)
    ∷ []

-- The two searches of the table; `none` is NULL in one and -1 in the other.
unfoldable pub find_name : List (String × ℕ) → ℕ → Option String
find_name [] i = none
find_name ((name, b) ∷ rest) i = if b == i then some name else find_name rest i

unfoldable pub find_bit : List (String × ℕ) → String → Option ℕ
find_bit [] name = none
find_bit ((n, b) ∷ rest) name = if str_eq n name then some b else find_bit rest name

unfoldable pub bit_name : ℕ → Option String
bit_name = find_name access_name_map

unfoldable pub name_to_bit : String → Option ℕ
name_to_bit = find_bit access_name_map
