-- ===== src/Tests/Access.antt =====
-- Runs of the guard.
use quads.Base.{if◌then◌else◌, String, ◌≡◌, refl, true, none, some, List, [], ◌∷◌, str_eq, crash}
use quads.Api.Access.{
  Account, Directory, Guard, Request, claims, invalid, has_role, holds, enabled, account_of_email,
  decode_auth_token, authenticate_token, bearer, current_user, check_access, blacklisted_error,
  expired_error, invalid_error,
}
use quads.Api.Access.Authenticated.{IsVouched, check_access-IsVouched}
use quads.Api.Access.{token_of}
use quads.Api.Tokens.{
  Maker, resolve_user, token_checks, get_token_by_id, create_token, delete_checks, delete_token,
}
use quads.Api.Tokens.Roundtrip.{
  IsAuthenticated, create_token-IsAuthenticated, delete_token-authenticate_token,
}
use quads.Tests.{str_differs}

abbrev ann : Account
ann = record {
  id = 1;
  email = "ann@lab";
  password_hash = some "h";
  active = true;
  role_ids = 2 ∷ [];
}

abbrev directory : Directory
directory = record {
  accounts = ann ∷ [];
  roles = record { id = 1; name = "admin" } ∷ record { id = 2; name = "user" } ∷ [];
  tokens = record { id = 1; name = "ci"; token_hash = "t"; user_id = 1; last_used = none } ∷ [];
  blacklist = [];
  next_token = 2;
}

-- A password is right if it is the hash; every other text hashes to "t".
abbrev guard : Guard
guard = record {
  sha256 = λ _. "t";
  jwt = λ t. if str_eq t "web" then claims (some "ann@lab") else invalid;
  check_hash = λ hash password. str_eq hash password;
  starts_with = λ t _. str_eq t "qat_1";
  lower = λ t. t;
  now = 5;
  commits = true;
}

abbrev with_header : List String → Request
with_header parts = record { authorization = some parts; basic = none }

abbrev by_web : Request
by_web = with_header ("bearer" ∷ "web" ∷ [])

check_access-IsVouched_example :
    IsVouched guard by_web directory ann
    × (ann.active ≡ true)
    × (has_role ("user" ∷ []) directory ann ≡ true)
unfolding check_access current_user bearer authenticate_token decode_auth_token account_of_email
    enabled has_role holds
check_access-IsVouched_example =
    check_access-IsVouched guard ("user" ∷ []) by_web directory ann
      (
        (
          str_differs "ann@lab" blacklisted_error refl,
          str_differs "ann@lab" expired_error refl,
          str_differs "ann@lab" invalid_error refl,
        ),
        tt,
      )
      refl

-- With another scheme the guard reads a variable that was never bound.
other_scheme_crashes :
    (check_access guard ("user" ∷ []) (with_header ("digest" ∷ "x" ∷ [])) directory).0 ≡ crash
unfolding check_access current_user
other_scheme_crashes = refl

-- The web token of the guard is for `ann`, whose new token is "qat_1".
abbrev maker : Maker
maker = record { raw = "qat_1"; strip = λ t. t; characters = λ _. 3 }

abbrev empty : Directory
empty = record directory { tokens = [] }

create_token-IsAuthenticated_example :
    IsAuthenticated guard "ann@lab" "qat_1" empty
      (create_token guard maker ann "ann@lab" (some "ci") empty).1
unfolding create_token token_checks resolve_user account_of_email holds
create_token-IsAuthenticated_example =
    create_token-IsAuthenticated guard maker ann "ann@lab" (some "ci") empty refl tt (tt, tt) refl
      refl

delete_token-authenticate_token_example :
    (authenticate_token guard "qat_1" (delete_token guard ann "ann@lab" 1 directory).1).0 ≡ none
unfolding delete_token delete_checks resolve_user account_of_email get_token_by_id token_of holds
delete_token-authenticate_token_example =
    delete_token-authenticate_token guard ann "ann@lab" 1 "qat_1" directory
      (record { id = 1; name = "ci"; token_hash = "t"; user_id = 1; last_used = none }) refl
      (tt, tt) refl refl refl
