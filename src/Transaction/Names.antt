-- ===== src/Transaction/Names.antt =====
-- src/hotline/transaction.c, `hl_transaction_type_name`: what a type of transaction is called.
use lemoniscate.Common.{
  ℕ, ◌≡◌, ◌≢◌, refl, arith, ap, sym, ◌∙◌, subst, Bool, true, false, ◌&&◌, ◌==◌, ==→eq,
  if◌then◌else◌, Bool-cases, inl, inr,
}
use lemoniscate.Common.{Option, none, some, Option-cases, List, [], ◌∷◌}
use lemoniscate.Wire.{Bytes2, IsByte, read_u16, write_u16}
use lemoniscate.Wire.Integers.{write_u16-read_u16}
use Prim.Native.String.{String}
use text.Mathlib.Text.{◌==◌ as str_eq}

-- The cases of the switch.
abbrev pub type_names : List (ℕ × String)
type_names =
    (0, "Error")
    ∷ (101, "Get messages")
    ∷ (102, "New message")
    ∷ (103, "Post to message board")
    ∷ (104, "Server Message")
    ∷ (105, "Send chat")
    ∷ (106, "Receive chat")
    ∷ (107, "Log In")
    ∷ (108, "Send message")
    ∷ (109, "Show agreement")
    ∷ (110, "Disconnect user")
    ∷ (111, "Disconnect message")
    ∷ (112, "Invite to new chat")
    ∷ (113, "Invite to chat")
    ∷ (114, "Decline chat invite")
    ∷ (115, "Join chat")
    ∷ (116, "Leave chat")
    ∷ (117, "User change (chat)")
    ∷ (118, "User left (chat)")
    ∷ (119, "Chat subject changed")
    ∷ (120, "Set chat subject")
    ∷ (121, "Accept agreement")
    ∷ (122, "Server banner")
    ∷ (200, "Get file list")
    ∷ (202, "Download file")
    ∷ (203, "Upload file")
    ∷ (204, "Delete file")
    ∷ (205, "Create folder")
    ∷ (206, "Get file info")
    ∷ (207, "Set file info")
    ∷ (208, "Move file")
    ∷ (209, "Make file alias")
    ∷ (210, "Download folder")
    ∷ (211, "Download info")
    ∷ (212, "Download banner")
    ∷ (213, "Upload folder")
    ∷ (300, "Get user list")
    ∷ (301, "User change")
    ∷ (302, "User left")
    ∷ (303, "Get client info")
    ∷ (304, "Set client user info")
    ∷ (348, "List user accounts")
    ∷ (349, "Update user account")
    ∷ (350, "Create user account")
    ∷ (351, "Delete user account")
    ∷ (352, "Get user")
    ∷ (353, "Set user")
    ∷ (354, "User access")
    ∷ (355, "Send broadcast")
    ∷ (370, "Get news categories")
    ∷ (371, "Get news article list")
    ∷ (380, "Delete news item")
    ∷ (381, "Create news bundle")
    ∷ (382, "Create news category")
    ∷ (400, "Get news article")
    ∷ (410, "Create news article")
    ∷ (411, "Delete news article")
    ∷ (500, "Keepalive")
    ∷ (700, "Get chat history")
    ∷ []

unfoldable pub find_type : List (ℕ × String) → ℕ → Option String
find_type [] code = none
find_type ((c, name) ∷ rest) code = if c == code then some name else find_type rest code

unfoldable pub type_name : Bytes2 → String
type_name type = elim (find_type type_names (read_u16 type)) [ none ↦ "Unknown" | some name ↦ name ]

-- The first code that a name stands at.
abbrev find_code : List (ℕ × String) → String → Option ℕ
find_code [] name = none
find_code ((c, n) ∷ rest) name = if str_eq n name then some c else find_code rest name

-- Whether each name of the list leads back to its code.
abbrev code_is : Option ℕ → ℕ → Bool
code_is none c = false
code_is (some d) c = d == c

abbrev leads_back : List (ℕ × String) → List (ℕ × String) → Bool
leads_back full [] = true
leads_back full ((c, n) ∷ rest) = code_is (find_code full n) c && leads_back full rest

table : leads_back type_names type_names ≡ true
table = refl

code_is→eq : (o : Option ℕ) (c : ℕ) → code_is o c ≡ true → o ≡ some c
code_is→eq none c h = cc
code_is→eq (some d) c h = ap some (==→eq d c h)

both : (a b : Bool) → (a && b) ≡ true → (a ≡ true) × (b ≡ true)
both a b h = ground arith

leads_back-at :
    (full m : List (ℕ × String)) (code : ℕ) (name : String)
    → leads_back full m ≡ true
    → find_type m code ≡ some name
    → find_code full name ≡ some code
unfolding find_type
leads_back-at full [] code name h e = cc
leads_back-at full ((c, n) ∷ rest) code name h e =
    let (first, others) = both (code_is (find_code full n) c) (leads_back full rest) h in
    elim (Bool-cases (c == code)) [
      | inl here ↦ found (==→eq c code here) (rw here at e) first
      | inr there ↦ leads_back-at full rest code name others (rw there at e)
    ]
  where
    found :
        c ≡ code
        → (let r : Option String = some n in r) ≡ some name
        → code_is (find_code full n) c ≡ true
        → find_code full name ≡ some code
    found ec en k = code_is→eq (find_code full name) code (
        subst (λ x. code_is (find_code full name) x ≡ true) ec
          (subst (λ o. code_is (elim o [ none ↦ none | some x ↦ find_code full x ]) c ≡ true) en k))

-- A name other than "Unknown" stands at its code.
named_code :
    (code : ℕ) (name : String)
    → elim (find_type type_names code) [ none ↦ "Unknown" | some n ↦ n ] ≡ name
    → name ≢ "Unknown"
    → find_type type_names code ≡ some name
named_code code name e known = elim (Option-cases (find_type type_names code)) [
  | inl none_there ↦ absurd (known (sym (rw none_there at e)))
  | inr (n, there) ↦ there ∙ ap some (rw there at e)
]

-- Two types that are called the same, other than "Unknown", are the same type.
pub type_name-injective :
    (a b : Bytes2)
    → IsByte a.0 × IsByte a.1
    → IsByte b.0 × IsByte b.1
    → type_name a ≡ type_name b
    → type_name a ≢ "Unknown"
    → a ≡ b
unfolding type_name
type_name-injective a b ha hb same known =
    let ea =
      leads_back-at type_names type_names (read_u16 a) (type_name a) table
        (named_code (read_u16 a) (type_name a) refl known) in
    let eb =
      leads_back-at type_names type_names (read_u16 b) (type_name a) table
        (named_code (read_u16 b) (type_name a) (sym same) known) in
    sym (write_u16-read_u16 a.0 a.1 ha.0 ha.1)
    ∙ ap write_u16 (some-injective (sym ea ∙ eb))
    ∙ write_u16-read_u16 b.0 b.1 hb.0 hb.1
  where
    some-injective : {m n : ℕ} → (let r : Option ℕ = some m in r) ≡ some n → m ≡ n
    some-injective e = cc
