-- ===== src/Tests/Login.antt =====
-- A registration, a login and a logout (src/quads/server/blueprints/auth.py).
use quads.Base.{
  String, ◌≡◌, refl, true, false, none, some, [], ◌∷◌, pass, refuse, str_eq, eq_iff, invalid_token,
  user_exists,
}
use quads.Api.Access.{
  Account, Directory, Guard, Request, claims, account_of_email, verify_password, decode_auth_token,
  bearer, blacklisted_error, expired_error, invalid_error,
}
use quads.Api.Login.{
  Issuer, is_valid_domain, register_checks, create_user, register, login, logout_token,
  logout_checks, logout,
}
use quads.Api.Login.Accounts.{register-account_of_email, register-verify_password}
use quads.Api.Login.Tokens.{login-bearer, logout-bearer}
use quads.Tests.{str_differs}

abbrev ann : Account
ann = record {
  id = 1;
  email = "ann@lab";
  password_hash = some "h";
  active = true;
  role_ids = 2 ∷ [];
}

abbrev directory : Directory
directory = record {
  accounts = ann ∷ [];
  roles = record { id = 1; name = "admin" } ∷ record { id = 2; name = "user" } ∷ [];
  tokens = [];
  blacklist = [];
  next_token = 1;
}

-- A token is its address, and a hash its password.
abbrev guard : Guard
guard = record {
  sha256 = λ t. t;
  jwt = λ t. claims (some t);
  check_hash = λ hash password. str_eq hash password;
  starts_with = λ t word. false;
  lower = λ t. t;
  now = 5;
  commits = true;
}

abbrev issuer : Issuer
issuer = record {
  require_auth_provider = false;
  domain = some "lab";
  encode = λ email role. email;
  hash_password = λ p. p;
  is_email = λ t. true;
  split_at_sign = λ t. "bob" ∷ "lab" ∷ [];
  new_id = 2;
}

abbrev by_password : Request
by_password = record { authorization = none; basic = some ("ann@lab", "h") }

abbrev by_token : Request
by_token = record { authorization = some ("Bearer" ∷ "ann@lab" ∷ []); basic = none }

taken : (register guard issuer (some "ann@lab") (some "x") directory).0 ≡ refuse 401 user_exists
unfolding register register_checks is_valid_domain account_of_email
taken = refl

register-account_of_email_example :
    account_of_email "ann@lab" (register guard issuer (some "ann@lab") (some "x") directory).1
    ≡ some ann
unfolding account_of_email
register-account_of_email_example =
    register-account_of_email guard issuer (some "ann@lab") (some "x") directory "ann@lab" "h" ann
      (tt, tt) refl refl

register-verify_password_example :
    (a : Account) × (account_of_email "bob@lab"
        (register guard issuer (some "bob@lab") (some "x") directory).1
      ≡ some a)
    × (verify_password guard a "x" ≡ true)
unfolding register register_checks is_valid_domain create_user account_of_email
register-verify_password_example =
    register-verify_password guard issuer "bob@lab" "x" directory "bob@lab"
      (λ p. (eq_iff p p).1 refl) refl

login-bearer_example :
    (name : String) × (password : String) × (a : Account) × (by_password.basic
      ≡ some (name, password))
    × (account_of_email name directory ≡ some a)
    × (verify_password guard a password ≡ true)
    × ((bearer guard "ann@lab" directory).0 ≡ pass a)
unfolding login account_of_email verify_password
login-bearer_example =
    login-bearer guard issuer by_password directory "ann@lab" refl (λ email role. refl) refl refl

logout-bearer_example :
    (bearer guard "ann@lab" (logout guard by_token directory).1).0 ≡ refuse 401 invalid_token
unfolding logout logout_checks logout_token decode_auth_token account_of_email
logout-bearer_example =
    logout-bearer guard guard by_token directory "ann@lab"
      (
        (
          str_differs "ann@lab" blacklisted_error refl,
          str_differs "ann@lab" expired_error refl,
          str_differs "ann@lab" invalid_error refl,
        ),
        tt,
      )
      refl refl refl
