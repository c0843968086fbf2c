-- ===== src/Api/Login/Tokens.antt =====
-- The web tokens of src/quads/server/blueprints/auth.py against the guard that accepts them: those of a login
-- are accepted, and those of a logout no more.
use quads.Base.{
  String, ◌≡◌, ◌≢◌, refl, sym, ap, ◌∙◌, true, false, not, Option, none, some, List, [], ◌∷◌, str_eq,
  eq_iff, first, any, All, first_sound, arith, pass, refuse, ◌>>=◌, ◌>>◌, require, require_some,
  attribute_of, >>=-eq-pass, require-eq-pass, require_some-eq-pass, continue_success,
  invalid_credentials, invalid_token, account_disabled, token_error, Bool-cases, ◌⊎◌, All-map, inl,
  inr,
}
use quads.Api.Access.{
  Account, Directory, Guard, Request, claims, account_of_email, verify_password, decode_auth_token,
  enabled, bearer, blacklisted_error, expired_error, invalid_error,
}
use quads.Api.Access.Authenticated.{IsPlain}
use quads.Api.Login.{
  Issuer, name_of_first, login, logout_token, is_token_error, logout_checks, logout,
}

-- No account has the address.
unknown :
    (email : String) (accounts : List Account)
    → All (λ a. a.email ≢ email) accounts
    → first (λ a. str_eq a.email email) accounts ≡ none
unknown email [] h = refl
unknown email (a ∷ accounts) h =
    ground (arith, eq_iff a.email email, unknown email accounts h.1, h.0)

-- A token in the blacklist decodes to the text of an error.
decode_auth_token-error :
    (guard : Guard) (token : String) (d : Directory)
    → any (λ t. str_eq t token) d.blacklist ≡ true
    → (decode_auth_token guard token d ≡ some blacklisted_error)
      ⊎ ((decode_auth_token guard token d ≡ some expired_error)
          ⊎ (decode_auth_token guard token d ≡ some invalid_error))
unfolding decode_auth_token
decode_auth_token-error guard token d listed = ground arith

bearer-error :
    (guard : Guard) (token error : String) (d : Directory)
    → guard.starts_with token "qat_" ≡ false
    → All (λ a. a.email ≢ error) d.accounts
    → decode_auth_token guard token d ≡ some error
    → (bearer guard token d).0 ≡ refuse 401 invalid_token
unfolding bearer account_of_email
bearer-error guard token error d web plain h = rw (web, h, unknown error d.accounts plain) refl

-- A web token in the blacklist is refused.
bearer-blacklist :
    (guard : Guard) (token : String) (d : Directory)
    → guard.starts_with token "qat_" ≡ false
    → All IsPlain d.accounts
    → any (λ t. str_eq t token) d.blacklist ≡ true
    → (bearer guard token d).0 ≡ refuse 401 invalid_token
bearer-blacklist guard token d web plain listed =
    elim (decode_auth_token-error guard token d listed) [
      | inl h ↦
          bearer-error guard token blacklisted_error d web (All-map d.accounts (λ a p. p.0) plain) h
      | inr (inl h) ↦
          bearer-error guard token expired_error d web (All-map d.accounts (λ a p. p.1) plain) h
      | inr (inr h) ↦
          bearer-error guard token invalid_error d web (All-map d.accounts (λ a p. p.2) plain) h
    ]

-- What a logout leaves: its token is refused.
abbrev IsLoggedOut : Request → Directory → Directory → Type 0
IsLoggedOut req d d' =
    (token : String) × (logout_token req.authorization ≡ pass token)
    × (any (λ t. str_eq t token) d'.blacklist ≡ true)
    × (d'.accounts ≡ d.accounts)

passed_same : {a b : String} → pass a ≡ pass b → a ≡ b
passed_same h = cc

-- The token that has passed the checks.
checked_token :
    (guard : Guard) (d : Directory) (t token : String)
    → (attribute_of (decode_auth_token guard t d) >>= λ email.
        require (not (is_token_error email)) 401 (token_error email)
        >> (require_some (account_of_email email d) 401 (token_error email) >>= λ _. pass t))
      ≡ pass token
    → t ≡ token
checked_token guard d t token h =
    let (email, decoded, rest) = >>=-eq-pass (attribute_of (decode_auth_token guard t d)) _ h in
    let (u, plain, rest₁) =
      >>=-eq-pass (require (not (is_token_error email)) 401 (token_error email)) _ rest in
    let (a, found, rest₂) =
      >>=-eq-pass (require_some (account_of_email email d) 401 (token_error email)) _ rest₁ in
    passed_same rest₂

logout-IsLoggedOut :
    (guard : Guard) (req : Request) (d : Directory)
    → (logout guard req d).0 ≡ pass tt
    → IsLoggedOut req d (logout guard req d).1
unfolding logout logout_checks
logout-IsLoggedOut guard req d h =
    continue_success (IsLoggedOut req d) (logout_checks guard req d) d _ h
      (λ token passed committed.
        let (t, given, rest) = >>=-eq-pass (logout_token req.authorization) _ passed in
        let same : t ≡ token = checked_token guard d t token rest in
        elim (Bool-cases guard.commits) [
          | inl kept ↦
              rw kept (token, given ∙ ap pass same, ground (arith, eq_iff token token), refl)
          | inr lost ↦ ground arith
        ])

-- After a logout that was answered with success, its token is refused: whatever the clock and the keys are
-- then, the guard takes no request with this token for a user's, as long as the token is no API token and
-- no account has the text of a token error for its address.
pub logout-bearer :
    (guard guard₂ : Guard) (req : Request) (d : Directory) (token : String)
    → All IsPlain d.accounts
    → logout_token req.authorization ≡ pass token
    → guard₂.starts_with token "qat_" ≡ false
    → (logout guard req d).0 ≡ pass tt
    → (bearer guard₂ token (logout guard req d).1).0 ≡ refuse 401 invalid_token
logout-bearer guard guard₂ req d token plain given web h =
    let (t, named, listed, kept) = logout-IsLoggedOut guard req d h in
    let same : t ≡ token = passed_same (sym named ∙ given) in
    let there : any (λ x. str_eq x token) (logout guard req d).1.blacklist ≡ true =
      rw same at listed in
    bearer-blacklist guard₂ token (logout guard req d).1 web (rw kept plain) there

account_of_email-email :
    (email : String) (d : Directory) (a : Account)
    → account_of_email email d ≡ some a
    → a.email ≡ email
unfolding account_of_email
account_of_email-email email d a h =
    (eq_iff a.email email).0 (first_sound (λ b. str_eq b.email email) d.accounts a h)

decoded_name :
    (guard : Guard) (token name : String) (d : Directory)
    → guard.jwt token ≡ claims (some name)
    → any (λ t. str_eq t token) d.blacklist ≡ false
    → decode_auth_token guard token d ≡ some name
unfolding decode_auth_token
decoded_name guard token name d known fresh = ground arith

-- A token that was made for an active account.
accepted :
    (guard : Guard) (issuer : Issuer) (token name : String) (d : Directory) (a : Account)
    → issuer.encode a.email (name_of_first d a.role_ids) ≡ token
    → account_of_email name d ≡ some a
    → a.active ≡ true
    → ((email : String) (role : Option String)
        → guard.jwt (issuer.encode email role) ≡ claims (some email))
    → guard.starts_with token "qat_" ≡ false
    → any (λ t. str_eq t token) d.blacklist ≡ false
    → (bearer guard token d).0 ≡ pass a
unfolding bearer enabled
accepted guard issuer token name d a made owner active decodes web fresh =
    let named = account_of_email-email name d a owner in
    let known : guard.jwt token ≡ claims (some name) =
      ap guard.jwt (sym made)
      ∙ decodes a.email (name_of_first d a.role_ids)
      ∙ ap (λ e. claims (some e)) named in
    rw (web, decoded_name guard token name d known fresh, owner, active) refl

-- After a login that was answered with success, the guard takes a request with its token for the same user's,
-- and the account is active, as long as the token is no API token and is not in the blacklist, its decoding
-- gives the address that was encoded.
pub login-bearer :
    (guard : Guard) (issuer : Issuer) (req : Request) (d : Directory) (token : String)
    → login guard issuer req d ≡ pass token
    → ((email : String) (role : Option String)
        → guard.jwt (issuer.encode email role) ≡ claims (some email))
    → guard.starts_with token "qat_" ≡ false
    → any (λ t. str_eq t token) d.blacklist ≡ false
    → (name : String) × (password : String) × (a : Account) × (req.basic ≡ some (name, password))
      × (account_of_email name d ≡ some a)
      × (verify_password guard a password ≡ true)
      × ((bearer guard token d).0 ≡ pass a)
unfolding login
login-bearer guard issuer req d token h decodes web fresh =
    let ((name, password), given, h₁) =
      >>=-eq-pass (require_some req.basic 401 invalid_credentials) _ h in
    let (a, found, h₂) =
      >>=-eq-pass (require_some (account_of_email name d) 401 invalid_credentials) _ h₁ in
    let (u, checked, h₃) =
      >>=-eq-pass (require (verify_password guard a password) 401 invalid_credentials) _ h₂ in
    let (v, active, h₄) = >>=-eq-pass (require a.active 403 account_disabled) _ h₃ in
    let owner = require_some-eq-pass (account_of_email name d) 401 invalid_credentials found in
    (
      name,
      password,
      a,
      require_some-eq-pass req.basic 401 invalid_credentials given,
      owner,
      require-eq-pass (verify_password guard a password) 401 invalid_credentials checked,
      accepted guard issuer token name d a (passed_same h₄) owner
          (require-eq-pass a.active 403 account_disabled active) decodes web fresh,
    )
