-- ===== src/Api/Tokens.antt =====
-- The API tokens of a user: src/quads/server/dao/api_token.py and the routes of
-- src/quads/server/blueprints/api_tokens.py that create and delete one.
pub mod Roundtrip
use quads.Base.{
  ℕ, ◌+◌, String, Bool, true, false, not, ◌&&◌, ◌||◌, Option, none, some, List, [], ◌∷◌, ◌++◌, leb,
  ltb, str_eq, ◌==◌, present, is_some, first, remove, any, length, Outcome, pass, refuse, ◌>>=◌,
  ◌>>◌, require, require_some, argument, continue, no_permission, user_not_found, missing_argument,
  invalid_argument, already_exists, token_not_found, if◌then◌else◌,
}
use quads.Api.Access.{Account, Role, ApiToken, Directory, Guard, account_of_email, holds}

-- What the routes take from outside: the raw text that `ApiToken.generate_token` makes, whose hash is the
-- guard's `sha256`, `str.strip`, and the number of characters of a text.
pub record Maker : Type 0 where
  pub raw : String
  pub strip : String → String
  pub characters : String → ℕ

-- `_resolve_user`: an administrator, or the user themselves.
unfoldable pub resolve_user : Account → String → Directory → Outcome Account
resolve_user caller email d = do
  require (holds d caller "admin" || str_eq caller.email email) 403 (no_permission email)
  require_some (account_of_email email d) 404 (user_not_found email)

abbrev pub named_by : ℕ → String → ApiToken → Bool
named_by user_id name t = t.user_id == user_id && str_eq t.name name

unfoldable pub new_token : Guard → Maker → ℕ → String → Directory → ApiToken
new_token guard maker user_id name d = record {
  id = d.next_token;
  name = name;
  token_hash = guard.sha256 maker.raw;
  user_id = user_id;
  last_used = none;
}

-- The directory after `ApiTokenDao.create_token`, whose commit is not looked at.
unfoldable pub with_token : Guard → ApiToken → Directory → Directory
with_token guard token d =
    if guard.commits
    then record d { tokens = d.tokens ++ token ∷ []; next_token = d.next_token + 1 }
    else d

-- `if not name`, `if len(name) > 256` and the names that the user has
unfoldable pub token_checks :
    Account → String → Maker → Option String → Directory → Outcome (Account × String)
token_checks caller email maker name d = do
  user ← resolve_user caller email d
  given ← argument name "name"
  stripped ← argument (some (maker.strip given)) "name"
  require (leb (maker.characters stripped) 256) 400 (invalid_argument "name")
  require (not (any (named_by user.id stripped) d.tokens)) 400 (already_exists stripped)
  pass (user, stripped)

-- The answer holds the raw text; `pass` is a 201.
unfoldable pub create_token :
    Guard → Maker → Account → String → Option String → Directory → Outcome String × Directory
create_token guard maker caller email name d =
    continue (token_checks caller email maker name d) d λ (user, stripped).
      (pass maker.raw, with_token guard (new_token guard maker user.id stripped d) d)

-- `ApiTokenDao.get_token_by_id`
unfoldable pub get_token_by_id : ℕ → ℕ → Directory → Option ApiToken
get_token_by_id id user_id d = first (λ t. t.id == id && t.user_id == user_id) d.tokens

unfoldable pub delete_checks : Account → String → ℕ → Directory → Outcome ApiToken
delete_checks caller email id d = do
  user ← resolve_user caller email d
  require_some (get_token_by_id id user.id d) 404 (token_not_found id)

-- The commit is not looked at; `pass` is a 200.
unfoldable pub delete_token :
    Guard → Account → String → ℕ → Directory → Outcome (Unit {0}) × Directory
delete_token guard caller email id d = continue (delete_checks caller email id d) d λ token. (
  pass tt,
  if guard.commits then record d { tokens = remove (λ t. t.id == token.id) d.tokens } else d,
)
