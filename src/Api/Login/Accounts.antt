-- ===== src/Api/Login/Accounts.antt =====
-- Registrations (src/quads/server/blueprints/auth.py) and the accounts: who registers can log in with the
-- password, and no account that has a password is changed.
use mathlib.Core.Path.{subst}
use quads.Base.{
  ℕ, String, ◌≡◌, ◌≢◌, refl, sym, ap, ◌∙◌, Bool, true, Option, none, some, List, [], ◌∷◌, ◌++◌,
  ◌==◌, ==_iff, str_eq, eq_iff, first, amend, arith, pass, require_some, continue_inv,
  continue_success, try_again, Bool-cases, Option-cases, inl, inr,
}
use quads.Api.Access.{Account, Directory, Guard, account_of_email, verify_password}
use quads.Api.Tokens.Roundtrip.{HaveIds, first-id}
use quads.Api.Login.{
  Issuer, register_checks, new_account, create_user, set_password, known_user, register_user,
  register,
}

first-append :
    (p : Account → Bool) (xs ys : List Account) (a : Account)
    → first p xs ≡ some a
    → first p (xs ++ ys) ≡ some a
first-append p [] ys a h = cc
first-append p (x ∷ xs) ys a h = ground (arith, first-append p xs ys a)

first-append-none :
    (p : Account → Bool) (xs : List Account) (a : Account)
    → first p xs ≡ none
    → p a ≡ true
    → first p (xs ++ a ∷ []) ≡ some a
first-append-none p [] a h k = rw k refl
first-append-none p (x ∷ xs) a h k = ground (arith, first-append-none p xs a)

abbrev given_password : String → Account → Account
given_password hash x = record x { password_hash = some hash }

-- The account of another key.
first-amend-other :
    (email hash : String) (k : ℕ) (xs : List Account) (a : Account)
    → first (λ x. str_eq x.email email) xs ≡ some a
    → a.id ≢ k
    → first (λ x. str_eq x.email email) (amend (λ x. x.id == k) (given_password hash) xs) ≡ some a
first-amend-other email hash k [] a h differs = cc
first-amend-other email hash k (x ∷ xs) a h differs =
    ground (arith, ==_iff x.id k, first-amend-other email hash k xs a)

-- The account itself.
first-amend-same :
    (email hash : String) (xs : List Account) (a : Account)
    → first (λ x. str_eq x.email email) xs ≡ some a
    → first (λ x. str_eq x.email email) (amend (λ x. x.id == a.id) (given_password hash) xs)
      ≡ some (given_password hash a)
first-amend-same email hash [] a h = cc
first-amend-same email hash (x ∷ xs) a h =
    ground (arith, ==_iff x.id a.id, first-amend-same email hash xs a)

-- The account of the address `e`, and its password.
abbrev HasKept : String → Account → Directory → Type 0
HasKept e a d' = account_of_email e d' ≡ some a

create_user-HasKept :
    (guard : Guard) (issuer : Issuer) (email password e : String) (d : Directory) (a : Account)
    → account_of_email e d ≡ some a
    → HasKept e a (create_user guard issuer email password d).1
unfolding create_user account_of_email
create_user-HasKept guard issuer email password e d a h =
    continue_inv (HasKept e a)
      (require_some (first (λ r. str_eq r.name "user") d.roles) 401 try_again) d _ h
      (λ role found.
        let added =
          first-append (λ x. str_eq x.email e) d.accounts
            (new_account issuer role email password ∷ []) a h in
        elim (Bool-cases guard.commits) [ inl kept ↦ rw kept added | inr lost ↦ rw lost h ])

set_password-HasKept :
    (guard : Guard) (issuer : Issuer) (b : Account) (password e : String) (d : Directory)
    (a : Account)
    → account_of_email e d ≡ some a
    → a.id ≢ b.id
    → HasKept e a (set_password guard issuer b password d).1
unfolding set_password account_of_email
set_password-HasKept guard issuer b password e d a h differs =
    let other = first-amend-other e (issuer.hash_password password) b.id d.accounts a h differs in
    elim (Bool-cases guard.commits) [ inl kept ↦ rw kept other | inr lost ↦ rw lost h ]

-- Two accounts of which one has a password and one has none have different keys.
differ :
    (e email hash : String) (d : Directory) (a b : Account)
    → HaveIds d.accounts
    → account_of_email e d ≡ some a
    → account_of_email email d ≡ some b
    → a.password_hash ≡ some hash
    → b.password_hash ≡ none
    → a.id ≢ b.id
unfolding account_of_email
differ e email hash d a b ids found_a found_b with_password without same =
    let here = first-id (λ x. str_eq x.email e) d.accounts a ids found_a in
    let there = first-id (λ x. str_eq x.email email) d.accounts b ids found_b in
    let equal : some a ≡ some b =
      sym here ∙ ap (λ k. first (λ x. x.id == k) d.accounts) same ∙ there in
    cc

-- A known account with a password, or without.
known_user-HasKept :
    (guard : Guard) (issuer : Issuer) (b : Account) (secret e hash address : String) (d : Directory)
    (a : Account)
    → HaveIds d.accounts
    → account_of_email e d ≡ some a
    → account_of_email address d ≡ some b
    → a.password_hash ≡ some hash
    → (o : Option String) → b.password_hash ≡ o
    → HasKept e a (known_user guard issuer b o secret d).1
known_user-HasKept guard issuer b secret e hash address d a ids found known with_password none
      without =
    set_password-HasKept guard issuer b secret e d a found
      (differ e address hash d a b ids found known with_password without)
known_user-HasKept guard issuer b secret e hash address d a ids found known with_password (some old)
      kept =
    found

-- However a registration ends, an account that has a password is found by its address as it was, provided
-- that keys are not shared.
pub register-account_of_email :
    (guard : Guard) (issuer : Issuer) (email password : Option String) (d : Directory)
    (e hash : String) (a : Account)
    → HaveIds d.accounts
    → account_of_email e d ≡ some a
    → a.password_hash ≡ some hash
    → account_of_email e (register guard issuer email password d).1 ≡ some a
unfolding register
register-account_of_email guard issuer email password d e hash a ids found with_password =
    continue_inv (HasKept e a) (register_checks issuer email password) d _ found
      (λ (address, secret) passed. elim (Option-cases (account_of_email address d)) [
        | inl new ↦ rw new (create_user-HasKept guard issuer address secret e d a found)
        | inr (b, known) ↦ rw known (
            known_user-HasKept guard issuer b secret e hash address d a ids found known
              with_password b.password_hash refl)
      ])

-- The account of the address has the password.
abbrev HasPassword : Guard → String → String → Directory → Type 0
HasPassword guard email password d' =
    (a : Account) × (account_of_email email d' ≡ some a) × (verify_password guard a password ≡ true)

create_user-HasPassword :
    (guard : Guard) (issuer : Issuer) (email password : String) (d : Directory) {token : String}
    → ((p : String) → guard.check_hash (issuer.hash_password p) p ≡ true)
    → account_of_email email d ≡ none
    → (create_user guard issuer email password d).0 ≡ pass token
    → HasPassword guard email password (create_user guard issuer email password d).1
unfolding create_user account_of_email verify_password
create_user-HasPassword guard issuer email password d hashes new h =
    continue_success (HasPassword guard email password)
      (require_some (first (λ r. str_eq r.name "user") d.roles) 401 try_again) d _ h
      (λ role found committed.
        let made = new_account issuer role email password in
        let added =
          first-append-none (λ x. str_eq x.email email) d.accounts made new
            ((eq_iff email email).1 refl) in
        elim (Bool-cases guard.commits) [
          | inl kept ↦ rw kept (made, added, hashes password)
          | inr lost ↦ ground arith
        ])

set_password-HasPassword :
    (guard : Guard) (issuer : Issuer) (email password : String) (d : Directory) (a : Account)
    {token : String}
    → ((p : String) → guard.check_hash (issuer.hash_password p) p ≡ true)
    → account_of_email email d ≡ some a
    → (set_password guard issuer a password d).0 ≡ pass token
    → HasPassword guard email password (set_password guard issuer a password d).1
unfolding set_password account_of_email verify_password
set_password-HasPassword guard issuer email password d a hashes known h =
    let hash = issuer.hash_password password in
    let set = first-amend-same email hash d.accounts a known in
    elim (Bool-cases guard.commits) [
      | inl kept ↦ rw kept (given_password hash a, set, hashes password)
      | inr lost ↦ ground arith
    ]

known_user-HasPassword :
    (guard : Guard) (issuer : Issuer) (email password : String) (d : Directory) (a : Account)
    (o : Option String) {token : String}
    → ((p : String) → guard.check_hash (issuer.hash_password p) p ≡ true)
    → account_of_email email d ≡ some a
    → (known_user guard issuer a o password d).0 ≡ pass token
    → HasPassword guard email password (known_user guard issuer a o password d).1
known_user-HasPassword guard issuer email password d a none hashes known h =
    set_password-HasPassword guard issuer email password d a hashes known h
known_user-HasPassword guard issuer email password d a (some old) hashes known h = cc

-- What has passed the checks is what was given.
checked_pair :
    (issuer : Issuer) (email password : String) (pair : String × String)
    → register_checks issuer (some email) (some password) ≡ pass pair
    → (email, password) ≡ pair
unfolding register_checks
checked_pair issuer email password pair h = ground arith

register_user-HasPassword :
    (guard : Guard) (issuer : Issuer) (email password : String) (d : Directory) (o : Option Account)
    {token : String}
    → ((p : String) → guard.check_hash (issuer.hash_password p) p ≡ true)
    → account_of_email email d ≡ o
    → (register_user guard issuer o email password d).0 ≡ pass token
    → HasPassword guard email password (register_user guard issuer o email password d).1
register_user-HasPassword guard issuer email password d none hashes new h =
    create_user-HasPassword guard issuer email password d hashes new h
register_user-HasPassword guard issuer email password d (some a) hashes known h =
    known_user-HasPassword guard issuer email password d a a.password_hash hashes known h

-- After a registration that was answered with success, the account of the address has the password of the
-- registration, provided that the check of a password accepts its own hash.
pub register-verify_password :
    (guard : Guard) (issuer : Issuer) (email password : String) (d : Directory) (token : String)
    → ((p : String) → guard.check_hash (issuer.hash_password p) p ≡ true)
    → (register guard issuer (some email) (some password) d).0 ≡ pass token
    → (a : Account) × (account_of_email email
          (register guard issuer (some email) (some password) d).1
        ≡ some a)
      × (verify_password guard a password ≡ true)
unfolding register
register-verify_password guard issuer email password d token hashes h =
    continue_success (HasPassword guard email password)
      (register_checks issuer (some email) (some password)) d _ h
      (λ (address, secret) passed done.
        let same = checked_pair issuer email password (address, secret) passed in
        let left = (register_user guard issuer (account_of_email address d) address secret d).1 in
        subst (λ pair. HasPassword guard pair.0 pair.1 left) (sym same)
          (register_user-HasPassword guard issuer address secret d (account_of_email address d)
            hashes refl done))
