-- ===== src/Api/Login.antt =====
-- src/quads/server/blueprints/auth.py: registration, login and logout, with `is_valid_domain` of
-- src/quads/server/blueprints/__init__.py.
pub mod Tokens
pub mod Accounts
use quads.Base.{
  ℕ, String, Bool, true, false, not, Option, none, some, List, [], ◌∷◌, ◌++◌, str_eq, ◌==◌, first,
  any, amend, Outcome, pass, refuse, crash, ◌>>=◌, ◌>>◌, require, require_some, raise_unless,
  attribute_of, continue, invalid_credentials, account_disabled, commit_failed,
  registration_disabled, missing_credentials, invalid_email, domain_restricted, user_exists,
  try_again, no_token, token_error, if◌then◌else◌,
}
use quads.Api.Access.{
  Account, Role, Directory, Guard, Request, account_of_email, verify_password, decode_auth_token,
  blacklisted_error, expired_error, invalid_error,
}

-- The configuration, and what comes from outside: `encode` is `jwt.encode` of the address and the role with
-- the program's key, `hash_password` is `generate_password_hash`, `is_email` is `validators.email`,
-- `split_at_sign` splits a text at its `@`, and `new_id` is the key of a new account.
pub record Issuer : Type 0 where
  pub require_auth_provider : Bool
  pub domain : Option String
  pub encode : String → Option String → String
  pub hash_password : String → String
  pub is_email : String → Bool
  pub split_at_sign : String → List String
  pub new_id : ℕ

-- `if not text: ...`
abbrev pub nonempty : String → Bool
nonempty text = not (str_eq text "")

abbrev pub ends_in : String → List String → Bool
ends_in domain (user ∷ host ∷ []) = str_eq host domain
ends_in domain _ = false

abbrev pub in_domain : Issuer → String → Option String → Bool
in_domain issuer email none = true
in_domain issuer email (some domain) =
    if str_eq domain "" then true else ends_in domain (issuer.split_at_sign email)

-- `is_valid_domain`
unfoldable pub is_valid_domain : Issuer → String → Bool
is_valid_domain issuer email = in_domain issuer email issuer.domain

-- The text of the domain in the refusal.
abbrev pub domain_text : Option String → String
domain_text none = ""
domain_text (some domain) = domain

-- `user.roles[0].name if user.roles else None`
abbrev pub role_name : Option Role → Option String
role_name none = none
role_name (some r) = some r.name

abbrev pub name_of_first : Directory → List ℕ → Option String
name_of_first d [] = none
name_of_first d (id ∷ ids) = role_name (first (λ r. r.id == id) d.roles)

-- The checks of a registration: the address and the password.
unfoldable pub register_checks : Issuer → Option String → Option String → Outcome (String × String)
unfolding is_valid_domain
register_checks issuer email password = do
  require (not issuer.require_auth_provider) 403 registration_disabled
  address ← attribute_of email
  require (nonempty address) 401 missing_credentials
  secret ← attribute_of password
  require (nonempty secret) 401 missing_credentials
  require (issuer.is_email address) 401 invalid_email
  require (is_valid_domain issuer address) 403 (domain_restricted (domain_text issuer.domain))
  pass (address, secret)

abbrev pub new_account : Issuer → Role → String → String → Account
new_account issuer role email password = record {
  id = issuer.new_id;
  email = email;
  password_hash = some (issuer.hash_password password);
  active = true;
  role_ids = role.id ∷ [];
}

-- An address that is not known: what raises before or in the commit answers with 401.
unfoldable pub create_user :
    Guard → Issuer → String → String → Directory → Outcome String × Directory
create_user guard issuer email password d =
    continue (require_some (first (λ r. str_eq r.name "user") d.roles) 401 try_again) d λ role.
      if guard.commits
      then (
        pass (issuer.encode email (some role.name)),
        record d { accounts = d.accounts ++ new_account issuer role email password ∷ [] },
      )
      else (refuse 401 try_again, d)

abbrev pub role_text : Option String → Option String
role_text none = some "user"
role_text (some name) = some name

-- An account that has no password gets the one that is given; a commit that fails raises.
unfoldable pub set_password :
    Guard → Issuer → Account → String → Directory → Outcome String × Directory
set_password guard issuer a password d =
    if guard.commits
    then (
      pass (issuer.encode a.email (role_text (name_of_first d a.role_ids))),
      record d {
        accounts =
            amend (λ x. x.id == a.id)
              (λ x. record x { password_hash = some (issuer.hash_password password) }) d.accounts;
      },
    )
    else (crash, d)

abbrev pub known_user :
    Guard → Issuer → Account → Option String → String → Directory → Outcome String × Directory
known_user guard issuer a none password d = set_password guard issuer a password d
known_user guard issuer a (some hash) password d = (refuse 401 user_exists, d)

abbrev pub register_user :
    Guard → Issuer → Option Account → String → String → Directory → Outcome String × Directory
register_user guard issuer none email password d = create_user guard issuer email password d
register_user guard issuer (some a) email password d =
    known_user guard issuer a a.password_hash password d

-- POST /register: `pass` holds the token of the answer
unfoldable pub register :
    Guard → Issuer → Option String → Option String → Directory → Outcome String × Directory
register guard issuer email password d =
    continue (register_checks issuer email password) d
      λ (address, secret). register_user guard issuer (account_of_email address d) address secret d

-- POST /login, behind `basic_auth.login_required`, whose check is `verify_password` of
-- src/quads/server/app.py
unfoldable pub login : Guard → Issuer → Request → Directory → Outcome String
login guard issuer req d = do
  given ← require_some req.basic 401 invalid_credentials
  a ← require_some (account_of_email given.0 d) 401 invalid_credentials
  require (verify_password guard a given.1) 401 invalid_credentials
  require a.active 403 account_disabled
  pass (issuer.encode a.email (name_of_first d a.role_ids))

-- The token of a logout, `auth_header.split(" ")[1]`.
unfoldable pub logout_token : Option (List String) → Outcome String
logout_token none = refuse 403 no_token
logout_token (some []) = refuse 403 no_token
logout_token (some (scheme ∷ [])) = if str_eq scheme "" then refuse 403 no_token else crash
logout_token (some (scheme ∷ token ∷ _)) =
    if str_eq token "" then refuse 403 no_token else pass token

-- `resp in AUTH_TOKEN_ERRORS`
abbrev pub is_token_error : String → Bool
is_token_error text =
    any (λ e. str_eq e text) (blacklisted_error ∷ expired_error ∷ invalid_error ∷ [])

-- The token of a user who may log out.
unfoldable pub logout_checks : Guard → Request → Directory → Outcome String
logout_checks guard req d = do
  token ← logout_token req.authorization
  email ← attribute_of (decode_auth_token guard token d)
  require (not (is_token_error email)) 401 (token_error email)
  _ ← require_some (account_of_email email d) 401 (token_error email)
  pass token

-- POST /logout
unfoldable pub logout : Guard → Request → Directory → Outcome (Unit {0}) × Directory
logout guard req d = continue (logout_checks guard req d) d λ token.
    if guard.commits
    then (pass tt, record d { blacklist = token ∷ d.blacklist })
    else (refuse 500 commit_failed, d)
