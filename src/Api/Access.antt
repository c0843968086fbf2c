-- ===== src/Api/Access.antt =====
-- `check_access` of src/quads/server/blueprints/__init__.py, which guards every route that changes
-- something, with `ApiTokenDao.authenticate_token` of src/quads/server/dao/api_token.py and `User` and
-- `Role` of src/quads/server/models.py.
pub mod Authenticated
use quads.Base.{
  ℕ, ◌+◌, String, ◌≡◌, Bool, true, false, not, ◌||◌, ◌&&◌, Option, none, some, List, [], ◌∷◌, map,
  arith, str_eq, ==_iff, ◌==◌, Outcome, pass, refuse, crash, ◌>>=◌, ◌>>◌, require, require_some,
  attribute_of, first, any, amend, something_wrong, header_malformed, invalid_token,
  invalid_credentials, account_disabled, no_role, no_authentication, if◌then◌else◌,
}

pub record Account : Type 0 where
  pub id : ℕ
  pub email : String
  pub password_hash : Option String
  pub active : Bool
  pub role_ids : List ℕ

pub record Role : Type 0 where
  pub id : ℕ
  pub name : String

pub record ApiToken : Type 0 where
  pub id : ℕ
  pub name : String
  pub token_hash : String
  pub user_id : ℕ
  pub last_used : Option ℕ

-- What decoding a web token comes to: its `sub`, `none` where it has none, or an error.
pub data Jwt : Type 0 where
  claims : Option String → Jwt
  expired invalid : Jwt

-- `blacklist` holds the tokens of those who have logged out.
pub record Directory : Type 0 where
  pub accounts : List Account
  pub roles : List Role
  pub tokens : List ApiToken
  pub blacklist : List String
  pub next_token : ℕ

-- What the guard takes from outside: `sha256` is `hashlib.sha256(...).hexdigest()`, `jwt` is
-- `jwt.decode` with the program's key, `check_hash` is `check_password_hash`, `starts_with` is `str.startswith`, `lower` is `str.lower`, `now` the time of
-- the request and `commits` whether the update of a token's last use is committed.
pub record Guard : Type 0 where
  pub sha256 : String → String
  pub jwt : String → Jwt
  pub check_hash : String → String → Bool
  pub starts_with : String → String → Bool
  pub lower : String → String
  pub now : ℕ
  pub commits : Bool

-- `authorization` is the header, split at its spaces; `basic` is what `request.authorization` reads
-- from it: the name and the password, or `none` where it holds none.
pub record Request : Type 0 where
  pub authorization : Option (List String)
  pub basic : Option (String × String)

unfoldable pub account_of_email : String → Directory → Option Account
account_of_email email d = first (λ a. str_eq a.email email) d.accounts

unfoldable pub account_of_id : ℕ → Directory → Option Account
account_of_id id d = first (λ a. a.id == id) d.accounts

unfoldable pub token_of : Guard → String → Directory → Option ApiToken
token_of guard raw_token d = first (λ t. str_eq t.token_hash (guard.sha256 raw_token)) d.tokens

-- A token that is used: its time is kept if the commit succeeds.
unfoldable pub used : Guard → ApiToken → Directory → Directory
used guard token d =
    if guard.commits
    then record d {
      tokens =
          amend (λ t. str_eq t.token_hash token.token_hash)
            (λ t. record t { last_used = some guard.now }) d.tokens;
    }
    else d

-- `ApiTokenDao.authenticate_token`
unfoldable pub authenticate_token : Guard → String → Directory → Option Account × Directory
unfolding token_of used account_of_id
authenticate_token guard raw_token d = elim (token_of guard raw_token d) [
  | none ↦ (none, d)
  | some token ↦ (account_of_id token.user_id d, used guard token d)
]

-- `User.verify_password`
unfoldable pub verify_password : Guard → Account → String → Bool
verify_password guard a password = elim (a.password_hash) [
  | none ↦ false
  | some hash ↦ guard.check_hash hash password
]

-- `if not current_user.active`
unfoldable pub enabled : Account → Outcome Account
enabled a = require a.active 403 account_disabled >> pass a

-- `AUTH_TOKEN_ERRORS`
abbrev pub blacklisted_error : String
blacklisted_error = "Token blacklisted. Please log in again."

abbrev pub expired_error : String
expired_error = "Signature expired. Please log in again."

abbrev pub invalid_error : String
invalid_error = "Invalid token. Please log in again."

-- `User.decode_auth_token`, with `none` where reading `sub` raises
unfoldable pub decode_auth_token : Guard → String → Directory → Option String
decode_auth_token guard token d = elim (guard.jwt token) [
  | claims sub ↦ if any (λ t. str_eq t token) d.blacklist then some blacklisted_error else sub
  | expired ↦ some expired_error
  | invalid ↦ some invalid_error
]

-- `auth_value[0].lower() == "bearer"`
unfoldable pub bearer : Guard → String → Directory → Outcome Account × Directory
unfolding authenticate_token account_of_email enabled decode_auth_token
bearer guard token d =
    if guard.starts_with token "qat_"
    then (let found = authenticate_token guard token d in
        (require_some found.0 401 invalid_token >>= enabled, found.1))
    else (
      require_some (decode_auth_token guard token d) 500 something_wrong >>= λ username.
          require_some (account_of_email username d) 401 invalid_token >>= enabled,
      d,
    )

-- `auth_value[0].lower() == "basic"`
unfoldable pub basic_login : Guard → Request → Directory → Outcome Account
unfolding account_of_email verify_password enabled
basic_login guard req d = attribute_of req.basic >>= λ login.
    require_some (account_of_email login.0 d) 401 invalid_credentials >>= λ a.
    require (verify_password guard a login.1) 401 invalid_credentials >> enabled a

-- The user that the header names. With another scheme `current_user` is never bound, and reading
-- it raises.
unfoldable pub current_user :
    Guard → Request → List String → Directory → Outcome Account × Directory
current_user guard req (scheme ∷ credentials ∷ rest) d =
    if str_eq (guard.lower scheme) "bearer"
    then bearer guard credentials d
    else if str_eq (guard.lower scheme) "basic"
    then (basic_login guard req d, d)
    else (crash, d)
current_user guard req _ d = (refuse 400 header_malformed, d)

-- `role_obj in current_user.roles`
unfoldable pub holds : Directory → Account → String → Bool
holds d a role = elim (first (λ r. str_eq r.name role) d.roles) [
  | none ↦ false
  | some r ↦ any (λ id. id == r.id) a.role_ids
]

unfoldable pub has_role : List String → Directory → Account → Bool
has_role roles d a = any (holds d a) roles

-- `check_access(roles)`: the user that the route goes on with.
unfoldable pub check_access :
    Guard → List String → Request → Directory → Outcome Account × Directory
unfolding current_user has_role
check_access guard roles req d = elim (req.authorization) [
  | none ↦ (refuse 400 no_authentication, d)
  | some parts ↦
      let found = current_user guard req parts d in
      (found.0 >>= λ a. require (has_role roles d a) 403 no_role >> pass a, found.1)
]
