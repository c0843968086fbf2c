-- ===== src/Api/Access/Authenticated.antt =====
-- Who gets past `check_access` (src/quads/server/blueprints/__init__.py), and with what proof.
use quads.Base.{
  ℕ, String, ◌≡◌, ◌≢◌, ap, sym, ◌∙◌, true, false, some, List, [], ◌∷◌, arith, All, str_eq, eq_iff,
  ==_iff, ◌==◌, any, first_sound, All-first, Bool-cases, Option-cases, inl, inr, pass, ◌>>=◌,
  >>=-eq-pass, require, require-eq-pass, require_some, require_some-eq-pass, something_wrong,
  invalid_token, invalid_credentials, no_role,
}
use quads.Api.Access.{
  Account, ApiToken, Directory, Guard, Request, claims, account_of_email, account_of_id, token_of,
  authenticate_token, verify_password, enabled, decode_auth_token, bearer, basic_login,
  current_user, has_role, check_access, blacklisted_error, expired_error, invalid_error,
}

-- The request's header has the scheme, in any case of its letters, and the credentials after it.
abbrev pub Shows : Guard → Request → String → String → Type 0
Shows guard req scheme credentials =
    (word : String) × (rest : List String) × (req.authorization ≡ some (word ∷ credentials ∷ rest))
    × (guard.lower word ≡ scheme)

-- The ways to show who one is, in the header of the request: a token of one's own, a web token of the
-- program that names one and is not revoked, or one's password.
pub data IsVouched (guard : Guard) (req : Request) (d : Directory) (a : Account) : Type 0 where
  by_api_token :
      (token : String) (t : ApiToken)
      → Shows guard req "bearer" token
      → token_of guard token d ≡ some t
      → t.token_hash ≡ guard.sha256 token
      → t.user_id ≡ a.id
      → IsVouched guard req d a
  by_web_token :
      (token : String)
      → Shows guard req "bearer" token
      → guard.jwt token ≡ claims (some a.email)
      → any (λ t. str_eq t token) d.blacklist ≡ false
      → IsVouched guard req d a
  by_password :
      (password hash credentials : String)
      → Shows guard req "basic" credentials
      → req.basic ≡ some (a.email, password)
      → a.password_hash ≡ some hash
      → guard.check_hash hash password ≡ true
      → IsVouched guard req d a

-- No account has a text of `AUTH_TOKEN_ERRORS` for an address.
abbrev pub IsPlain : Account → Type 0
IsPlain a = (a.email ≢ blacklisted_error) × (a.email ≢ expired_error) × (a.email ≢ invalid_error)

account_of_email-email :
    (email : String) (d : Directory) (a : Account)
    → account_of_email email d ≡ some a
    → a.email ≡ email
unfolding account_of_email
account_of_email-email email d a h =
    (eq_iff a.email email).0 (first_sound (λ b. str_eq b.email email) d.accounts a h)

account_of_id-id : (id : ℕ) (d : Directory) (a : Account) → account_of_id id d ≡ some a → a.id ≡ id
unfolding account_of_id
account_of_id-id id d a h = (==_iff a.id id).0 (first_sound (λ b. b.id == id) d.accounts a h)

token_of-hash :
    (guard : Guard) (token : String) (d : Directory) (t : ApiToken)
    → token_of guard token d ≡ some t
    → t.token_hash ≡ guard.sha256 token
unfolding token_of
token_of-hash guard token d t h =
    (eq_iff t.token_hash (guard.sha256 token)).0
      (first_sound (λ b. str_eq b.token_hash (guard.sha256 token)) d.tokens t h)

enabled-active : (a b : Account) → enabled a ≡ pass b → (a ≡ b) × (b.active ≡ true)
unfolding enabled
enabled-active a b h = ground arith

decode_auth_token-claims :
    (guard : Guard) (token : String) (d : Directory) (sub : String)
    → sub ≢ blacklisted_error
    → sub ≢ expired_error
    → sub ≢ invalid_error
    → decode_auth_token guard token d ≡ some sub
    → (guard.jwt token ≡ claims (some sub)) × (any (λ t. str_eq t token) d.blacklist ≡ false)
unfolding decode_auth_token
decode_auth_token-claims guard token d sub x y z h = ground arith

account_of_email-IsPlain :
    (email : String) (d : Directory) (a : Account)
    → All IsPlain d.accounts
    → account_of_email email d ≡ some a
    → IsPlain a
unfolding account_of_email
account_of_email-IsPlain email d a plain h = All-first IsPlain _ d.accounts a plain h

authenticate_token-IsVouched :
    (guard : Guard) (req : Request) (token : String) (d : Directory) (a : Account)
    → Shows guard req "bearer" token
    → (authenticate_token guard token d).0 ≡ some a
    → IsVouched guard req d a
unfolding authenticate_token
authenticate_token-IsVouched guard req token d a shows h =
    elim (Option-cases (token_of guard token d)) [
      | inl missing ↦ ground arith
      | inr (t, found) ↦
          let owner : account_of_id t.user_id d ≡ some a = ground arith in
          by_api_token token t shows found (token_of-hash guard token d t found)
            (sym (account_of_id-id t.user_id d a owner))
    ]

bearer-IsVouched :
    (guard : Guard) (req : Request) (token : String) (d : Directory) (a : Account)
    → All IsPlain d.accounts
    → Shows guard req "bearer" token
    → (bearer guard token d).0 ≡ pass a
    → IsVouched guard req d a × (a.active ≡ true)
unfolding bearer
bearer-IsVouched guard req token d a plain shows h =
    elim (Bool-cases (guard.starts_with token "qat_")) [
      | inl api ↦
          let shown : (require_some (authenticate_token guard token d).0 401 invalid_token
                >>= enabled)
              ≡ pass a =
            ground arith in
          let (b, found, on) =
            >>=-eq-pass (require_some (authenticate_token guard token d).0 401 invalid_token)
              enabled shown in
          let (same, active) = enabled-active b a on in
          let owner =
            require_some-eq-pass (authenticate_token guard token d).0 401 invalid_token found in
          (authenticate_token-IsVouched guard req token d a shows (owner ∙ ap some same), active)
      | inr web ↦
          let shown : (require_some (decode_auth_token guard token d) 500 something_wrong
                >>= λ username.
                    require_some (account_of_email username d) 401 invalid_token >>= enabled)
              ≡ pass a =
            ground arith in
          let (sub, decoded, shown₁) =
            >>=-eq-pass (require_some (decode_auth_token guard token d) 500 something_wrong) _
              shown in
          let (b, found, on) =
            >>=-eq-pass (require_some (account_of_email sub d) 401 invalid_token) enabled shown₁ in
          let (same, active) = enabled-active b a on in
          let owner =
            require_some-eq-pass (account_of_email sub d) 401 invalid_token found ∙ ap some same in
          let named = account_of_email-email sub d a owner in
          let (x, y, z) = account_of_email-IsPlain sub d a plain owner in
          let read =
            require_some-eq-pass (decode_auth_token guard token d) 500 something_wrong decoded
            ∙ ap some (sym named) in
          let (claim, kept) = decode_auth_token-claims guard token d a.email x y z read in
          (by_web_token token shows claim kept, active)
    ]

verify_password-hash :
    (guard : Guard) (a : Account) (password : String)
    → verify_password guard a password ≡ true
    → (hash : String) × (a.password_hash ≡ some hash) × (guard.check_hash hash password ≡ true)
unfolding verify_password
verify_password-hash guard a password h = elim (Option-cases a.password_hash) [
  | inl missing ↦ ground arith
  | inr (hash, kept) ↦ (hash, kept, ground arith)
]

basic_login-IsVouched :
    (guard : Guard) (req : Request) (credentials : String) (d : Directory) (a : Account)
    → Shows guard req "basic" credentials
    → basic_login guard req d ≡ pass a
    → IsVouched guard req d a × (a.active ≡ true)
unfolding basic_login
basic_login-IsVouched guard req credentials d a shows h = elim (Option-cases req.basic) [
  | inl missing ↦ ground arith
  | inr ((name, password), given) ↦
      let shown : (require_some (account_of_email name d) 401 invalid_credentials >>= λ b.
      require (verify_password guard b password) 401 invalid_credentials >>= λ _. enabled b)
          ≡ pass a =
        ground arith in
      let (b, found, rest) =
        >>=-eq-pass (require_some (account_of_email name d) 401 invalid_credentials) _ shown in
      let (u, checked, on) =
        >>=-eq-pass (require (verify_password guard b password) 401 invalid_credentials) _ rest in
      let (same, active) = enabled-active b a on in
      let owner =
        require_some-eq-pass (account_of_email name d) 401 invalid_credentials found
        ∙ ap some same in
      let right =
        require-eq-pass (verify_password guard b password) 401 invalid_credentials checked in
      let (hash, kept, fits) =
        verify_password-hash guard a password
          (sym (ap (λ x. verify_password guard x password) same) ∙ right) in
      let named = account_of_email-email name d a owner in
      (
        by_password password hash credentials shows
            (given ∙ ap (λ n. some (n, password)) (sym named)) kept fits,
        active,
      )
]

current_user-IsVouched :
    (guard : Guard) (req : Request) (parts : List String) (d : Directory) (a : Account)
    → All IsPlain d.accounts
    → req.authorization ≡ some parts
    → (current_user guard req parts d).0 ≡ pass a
    → IsVouched guard req d a × (a.active ≡ true)
unfolding current_user
current_user-IsVouched guard req [] d a plain given h = ground arith
current_user-IsVouched guard req (scheme ∷ []) d a plain given h = ground arith
current_user-IsVouched guard req (scheme ∷ credentials ∷ rest) d a plain given h =
    elim (Bool-cases (str_eq (guard.lower scheme) "bearer")) [
      | inl token ↦
          bearer-IsVouched guard req credentials d a plain
            (scheme, rest, given, (eq_iff (guard.lower scheme) "bearer").0 token) (rw token at h)
      | inr other ↦ elim (Bool-cases (str_eq (guard.lower scheme) "basic")) [
        | inl password ↦
            basic_login-IsVouched guard req credentials d a
              (scheme, rest, given, (eq_iff (guard.lower scheme) "basic").0 password)
              (rw (other, password) at h)
        | inr unknown ↦ ground arith
      ]
    ]

-- Whoever gets past the guard has an active account, holds one of the roles that the route asks for and
-- has shown who they are in the header of the request: with an API token of their own, with a web token of
-- the program that names them and is not revoked, or with their password, where no account has the text of a token error for its address.
pub check_access-IsVouched :
    (guard : Guard) (roles : List String) (req : Request) (d : Directory) (a : Account)
    → All IsPlain d.accounts
    → (check_access guard roles req d).0 ≡ pass a
    → IsVouched guard req d a × (a.active ≡ true) × (has_role roles d a ≡ true)
unfolding check_access
check_access-IsVouched guard roles req d a plain h = elim (Option-cases req.authorization) [
  | inl missing ↦ ground arith
  | inr (parts, given) ↦
      let shown : ((current_user guard req parts d).0 >>= λ b.
      require (has_role roles d b) 403 no_role >>= λ _. pass b)
          ≡ pass a =
        ground arith in
      let (b, found, rest) = >>=-eq-pass (current_user guard req parts d).0 _ shown in
      let (u, role, same) = >>=-eq-pass (require (has_role roles d b) 403 no_role) _ rest in
      let held = require-eq-pass (has_role roles d b) 403 no_role role in
      let equal : b ≡ a = ground arith in
      let (vouched, active) =
        current_user-IsVouched guard req parts d a plain given (found ∙ ap pass equal) in
      (vouched, active, sym (ap (has_role roles d) equal) ∙ held)
]
