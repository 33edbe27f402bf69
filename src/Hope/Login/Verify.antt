-- ===== src/Hope/Login/Verify.antt =====
-- Whom the verification of a login accepts, and when it stays inside its buffer.
use lemoniscate.Common.{
  ℕ, suc, ◌<◌, ◌≡◌, ◌≢◌, refl, subst, ap, ◌∙◌, arith, Bool, true, false, leb, if◌then◌else◌,
  bytes_eq, bytes_eq→eq, Bool-cases, ◌⊎◌, inl, inr, Option, none, some, le→leb,
}
use lemoniscate.Common.{List, [], ◌∷◌, length, get_elem?, map, Outcome, ok, fault, >>=-eq-ok}
use lemoniscate.Hope.Mac.{
  is_inverse, MacAlg, inverse, Hashes, IsPlatform, hope_mac, mac_into, invert, hope_mac-digest,
  length-invert,
}
use mathlib.Core.Option.{some-injective, none-ne-some}
use lemoniscate.Hope.Login.{
  Account, is_hashed, is_empty, check_password, verify_accounts, verify_login,
}

abbrev pub sent : Option (List ℕ) → List ℕ
sent none = []
sent (some l) = l

module _ (h : Hashes) (mac_alg : MacAlg) (session_key : List ℕ) where
  -- What a client has to show for an account: the MAC of its login, and the MAC of its password, or
  -- no password at all for an account that has none.
  abbrev pub Proves : Account → List ℕ → Option (List ℕ) → Type 0
  Proves a f_login f_password =
      (is_hashed a.password ≡ false)
      × (hope_mac h mac_alg session_key a.login ≡ f_login)
      × ((hope_mac h mac_alg session_key a.password ≡ sent f_password)
          ⊎ ((sent f_password ≡ []) × (a.password ≡ [])))

  mac_into-value :
      (msg key mac : List ℕ)
      → mac_into h mac_alg msg key ≡ ok mac
      → hope_mac h mac_alg msg key ≡ mac
  unfolding mac_into
  mac_into-value msg key mac e = ground arith

  ok_some : {x y : Option Account} → Path (Outcome (Option Account)) (ok x) (ok y) → x ≡ y
  ok_some e = cc

  empty_at :
      (l : List ℕ) (a b : Account)
      → Path (Option Account) (if is_empty l then some a else none) (some b)
      → (l ≡ []) × (a ≡ b)
  empty_at [] a b e = (refl, some-injective a b e)
  empty_at (x ∷ l) a b e = absurd (none-ne-some b e)

  check_password_lem :
      (a b : Account) (f_password : Option (List ℕ))
      → check_password h mac_alg session_key a f_password ≡ ok (some b)
      → (a ≡ b)
        × ((hope_mac h mac_alg session_key a.password ≡ sent f_password)
            ⊎ ((sent f_password ≡ []) × (a.password ≡ [])))
  unfolding check_password
  check_password_lem a b none e =
      let (f, g) = empty_at a.password a b (ok_some e) in (g, inr (refl, f))
  check_password_lem a b (some []) e =
      let (f, g) = empty_at a.password a b (ok_some e) in (g, inr (refl, f))
  check_password_lem a b (some (x ∷ xs)) e =
      let (mac, f, g) =
        >>=-eq-ok (mac_into h mac_alg session_key a.password)
          (λ mac. ok (if bytes_eq mac (x ∷ xs) then some a else none)) e in
      elim (Bool-cases (bytes_eq mac (x ∷ xs))) [
        | inl same ↦ (
          some-injective a b (ok_some (rw same at g)),
          inl (mac_into-value session_key a.password mac f ∙ bytes_eq→eq mac (x ∷ xs) same),
        )
        | inr differ ↦ absurd (none-ne-some b (ok_some (rw differ at g)))
      ]

  accepts :
      (f_login : List ℕ) (f_password : Option (List ℕ)) (accounts : List Account) (b : Account)
      → verify_accounts h mac_alg session_key f_login f_password accounts ≡ ok (some b)
      → (i : ℕ) × (get_elem? accounts i ≡ some b) × Proves b f_login f_password
  unfolding verify_accounts
  accepts f_login f_password [] b e = absurd (none-ne-some b (ok_some e))
  accepts f_login f_password (a ∷ accounts) b e =
      let later : verify_accounts h mac_alg session_key f_login f_password accounts ≡ ok (some b)
          → (i : ℕ) × (get_elem? (a ∷ accounts) i ≡ some b) × Proves b f_login f_password =
        λ k. let (i, at, p) = accepts f_login f_password accounts b k in (suc i, at, p) in
      elim (Bool-cases (is_hashed a.password)) [
        | inl hashed ↦ later (rw hashed at e)
        | inr plain ↦
            let (mac, f, g) =
              >>=-eq-ok (mac_into h mac_alg session_key a.login)
                (λ mac.
                  if bytes_eq mac f_login
                  then check_password h mac_alg session_key a f_password
                  else verify_accounts h mac_alg session_key f_login f_password accounts)
                (rw plain at e) in
            elim (Bool-cases (bytes_eq mac f_login)) [
              | inl same ↦
                  let (eq, p) = check_password_lem a b f_password (rw same at g) in
                  (
                    0,
                    ap some eq,
                    subst (λ x. Proves x f_login f_password) eq
                        (
                          plain,
                          mac_into-value session_key a.login mac f ∙ bytes_eq→eq mac f_login same,
                          p,
                        ),
                  )
              | inr differ ↦ later (rw differ at g)
            ]
      ]

  -- Only a client that proves it knows an account's password is let in as that account: the account
  -- is in the list, its password is not kept as a hash, and the MACs of its login and password
  -- under this session's key are the ones that were sent.
  pub verify_login-Proves :
      (f_login : List ℕ) (f_password : Option (List ℕ)) (accounts : List Account) (a : Account)
      → verify_login h mac_alg session_key (some f_login) f_password accounts ≡ ok (some a)
      → (i : ℕ) × (get_elem? accounts i ≡ some a) × Proves a f_login f_password
  unfolding verify_login
  verify_login-Proves f_login f_password accounts a e = accepts f_login f_password accounts a e

  mac_into-total :
      (msg key : List ℕ)
      → IsPlatform h
      → is_inverse mac_alg ≡ false
      → mac_into h mac_alg msg key ≡ ok (hope_mac h mac_alg msg key)
  unfolding mac_into
  mac_into-total msg key p e =
      rw (le→leb (length (hope_mac h mac_alg msg key)) 64 (hope_mac-digest h mac_alg msg key p e))

  check_password-ne-fault :
      (a : Account) (f_password : Option (List ℕ))
      → IsPlatform h
      → is_inverse mac_alg ≡ false
      → check_password h mac_alg session_key a f_password ≢ fault
  unfolding check_password
  check_password-ne-fault a none p e = λ k. cc
  check_password-ne-fault a (some []) p e = λ k. cc
  check_password-ne-fault a (some (x ∷ xs)) p e =
      rw (mac_into-total session_key a.password p e) (λ k. cc)

  verify_accounts-ne-fault :
      (f_login : List ℕ) (f_password : Option (List ℕ)) (accounts : List Account)
      → IsPlatform h
      → is_inverse mac_alg ≡ false
      → verify_accounts h mac_alg session_key f_login f_password accounts ≢ fault
  unfolding verify_accounts
  verify_accounts-ne-fault f_login f_password [] p e = λ k. cc
  verify_accounts-ne-fault f_login f_password (a ∷ accounts) p e =
      rw (mac_into-total session_key a.login p e) (
        either (is_hashed a.password) (bytes_eq (hope_mac h mac_alg session_key a.login) f_login)
          (check_password h mac_alg session_key a f_password)
          (verify_accounts h mac_alg session_key f_login f_password accounts)
          (check_password-ne-fault a f_password p e)
          (verify_accounts-ne-fault f_login f_password accounts p e))
    where
      either :
          (x y : Bool) (s t : Outcome (Option Account))
          → s ≢ fault
          → t ≢ fault
          → (if x then t else (if y then s else t)) ≢ fault
      either true y s t hs ht = ht
      either false true s t hs ht = hs
      either false false s t hs ht = ht

  -- With a hash as the algorithm, the verification stays inside its buffer of 64 bytes, whatever the
  -- account strings and whatever was sent.
  pub verify_login-ne-fault :
      (f_login f_password : Option (List ℕ)) (accounts : List Account)
      → IsPlatform h
      → is_inverse mac_alg ≡ false
      → verify_login h mac_alg session_key f_login f_password accounts ≢ fault
  unfolding verify_login
  verify_login-ne-fault none f_password accounts p e = λ k. cc
  verify_login-ne-fault (some f_login) f_password accounts p e =
      verify_accounts-ne-fault f_login f_password accounts p e

-- With INVERSE, which legacy mode allows, the output is as long as the account's login: one of more
-- than 64 bytes overruns the buffer on the stack, for whatever the client sent as its login.
pub verify_login-overrun :
    (h : Hashes) (session_key f_login : List ℕ) (f_password : Option (List ℕ)) (a : Account)
    (accounts : List Account)
    → is_hashed a.password ≡ false
    → 64 < length a.login
    → verify_login h inverse session_key (some f_login) f_password (a ∷ accounts) ≡ fault
unfolding verify_login verify_accounts mac_into hope_mac
verify_login-overrun h session_key f_login f_password a accounts plain long = rw (plain, too_long)
  where
    too_long : leb (length (map invert a.login)) 64 ≡ false
    too_long = gt_leb (length (map invert a.login)) (omega (arith, length-invert a.login))
      where
        gt_leb : (n : ℕ) → 64 < n → leb n 64 ≡ false
        gt_leb n g = ground arith
