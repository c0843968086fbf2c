-- ===== src/Api/Tokens/Roundtrip.antt =====
-- API tokens (src/quads/server/dao/api_token.py) against the guard that accepts them.
use mathlib.Core.Path.{subst}
use quads.Base.{
  >>=-eq-pass, require_some-eq-pass, token_not_found, ℕ, String, ◌≡◌, ◌≢◌, refl, ap, sym, ◌∙◌, Bool,
  true, ◌&&◌, Option, none, some, List, [], ◌∷◌, ◌++◌, arith, All, str_eq, eq_iff, ◌==◌, ==_iff,
  first, first_sound, All-first, remove, pass, refuse, account_disabled, continue_success,
  Bool-cases, inl, inr, if◌then◌else◌,
}
use quads.Api.Access.{
  Account, ApiToken, Directory, Guard, account_of_id, account_of_email, token_of,
  authenticate_token, bearer, enabled,
}
use quads.Api.Tokens.{
  Maker, resolve_user, new_token, with_token, token_checks, create_token, get_token_by_id,
  delete_checks, delete_token,
}

-- No token has the hash.
abbrev pub IsFresh : String → Directory → Type 0
IsFresh hash d = All (λ t. t.token_hash ≢ hash) d.tokens

first-append_one :
    (hash : String) (tokens : List ApiToken) (t : ApiToken)
    → All (λ x. x.token_hash ≢ hash) tokens
    → t.token_hash ≡ hash
    → first (λ x. str_eq x.token_hash hash) (tokens ++ t ∷ []) ≡ some t
first-append_one hash [] t fresh same = rw ((eq_iff t.token_hash hash).1 same) refl
first-append_one hash (x ∷ tokens) t fresh same =
    ground (arith, eq_iff x.token_hash hash, fresh.0, first-append_one hash tokens t fresh.1 same)

-- No two accounts share a key.
abbrev pub HaveIds : List Account → Type 0
HaveIds [] = Unit
HaveIds (a ∷ accounts) = All (λ k. k.id ≢ a.id) accounts × HaveIds accounts

-- No two tokens share a hash.
abbrev pub HaveHashes : List ApiToken → Type 0
HaveHashes [] = Unit
HaveHashes (t ∷ tokens) = All (λ k. k.token_hash ≢ t.token_hash) tokens × HaveHashes tokens

pub first-id :
    (p : Account → Bool) (accounts : List Account) (a : Account)
    → HaveIds accounts
    → first p accounts ≡ some a
    → first (λ k. k.id == a.id) accounts ≡ some a
first-id p [] a u h = cc
first-id p (x ∷ accounts) a u h = elim (Bool-cases (p x)) [
  | inl e ↦
      let same : x ≡ a = ground arith in
      rw ((==_iff x.id a.id).1 (ap (λ k. k.id) same)) (ap some same)
  | inr e ↦
      let rest : first p accounts ≡ some a = ground arith in
      let other : a.id ≢ x.id = All-first (λ k. k.id ≢ x.id) p accounts a u.0 rest in
      elim (Bool-cases (x.id == a.id)) [
        | inl equal ↦ absurd (other (sym ((==_iff x.id a.id).0 equal)))
        | inr differs ↦ rw differs (first-id p accounts a u.1 rest)
      ]
]

token_checks-user :
    (caller : Account) (email : String) (maker : Maker) (name : Option String) (d : Directory)
    (user : Account) (stripped : String)
    → token_checks caller email maker name d ≡ pass (user, stripped)
    → account_of_email email d ≡ some user
unfolding token_checks resolve_user
token_checks-user caller email maker name d user stripped h = ground arith

with_token-token_of :
    (guard : Guard) (token : ApiToken) (raw : String) (d : Directory)
    → guard.commits ≡ true
    → IsFresh (guard.sha256 raw) d
    → token.token_hash ≡ guard.sha256 raw
    → token_of guard raw (with_token guard token d) ≡ some token
unfolding with_token token_of
with_token-token_of guard token raw d stored fresh same =
    let found = first-append_one (guard.sha256 raw) d.tokens token fresh same in ground arith

with_token-account_of_id :
    (guard : Guard) (token : ApiToken) (id : ℕ) (d : Directory)
    → account_of_id id (with_token guard token d) ≡ account_of_id id d
unfolding with_token account_of_id
with_token-account_of_id guard token id d = ground arith

authenticate_token-owner :
    (guard : Guard) (raw : String) (d : Directory) (t : ApiToken)
    → token_of guard raw d ≡ some t
    → (authenticate_token guard raw d).0 ≡ account_of_id t.user_id d
unfolding authenticate_token
authenticate_token-owner guard raw d t found = ground arith

account_of_email-account_of_id :
    (email : String) (d : Directory) (user : Account)
    → HaveIds d.accounts
    → account_of_email email d ≡ some user
    → account_of_id user.id d ≡ some user
unfolding account_of_email account_of_id
account_of_email-account_of_id email d user ids named = first-id _ d.accounts user ids named

-- The user for whom a token was made is the one whom the guard finds by the token, and lets in if the
-- account is active.
pub record IsAuthenticated (guard : Guard) (email raw : String) (d d' : Directory) : Type 0 where
  pub user : Account
  pub named : account_of_email email d ≡ some user
  pub shown :
      (bearer guard raw d').0 ≡ (if user.active then pass user else refuse 403 account_disabled)

created-shown :
    (guard : Guard) (maker : Maker) (user : Account) (name : String) (d : Directory)
    → guard.commits ≡ true
    → IsFresh (guard.sha256 maker.raw) d
    → account_of_id user.id d ≡ some user
    → (authenticate_token guard maker.raw
        (with_token guard (new_token guard maker user.id name d) d)).0
      ≡ some user
unfolding new_token
created-shown guard maker user name d stored fresh owner =
    let token = new_token guard maker user.id name d in
    authenticate_token-owner guard maker.raw _ token
      (with_token-token_of guard token maker.raw d stored fresh refl)
    ∙ with_token-account_of_id guard token user.id d
    ∙ owner

-- A user found by a bearer.
bearer-owner :
    (guard : Guard) (raw : String) (d : Directory) (user : Account)
    → guard.starts_with raw "qat_" ≡ true
    → (authenticate_token guard raw d).0 ≡ some user
    → (bearer guard raw d).0 ≡ (if user.active then pass user else refuse 403 account_disabled)
unfolding bearer enabled
bearer-owner guard raw d user prefix found = ground arith

-- A token whose creation is answered with success and committed is, as a bearer, taken by the guard for the
-- user for whom it was made: it lets that user in where the account is active, and answers 403 where it is
-- disabled, if no token had its hash, no two accounts share a key, and the token begins with qat_.
pub create_token-IsAuthenticated :
    (guard : Guard) (maker : Maker) (caller : Account) (email : String) (name : Option String)
    (d : Directory) {raw : String}
    → guard.commits ≡ true
    → IsFresh (guard.sha256 maker.raw) d
    → HaveIds d.accounts
    → guard.starts_with maker.raw "qat_" ≡ true
    → (create_token guard maker caller email name d).0 ≡ pass raw
    → IsAuthenticated guard email raw d (create_token guard maker caller email name d).1
unfolding create_token
create_token-IsAuthenticated guard maker caller email name d {raw} stored fresh ids prefix h =
    continue_success (IsAuthenticated guard email raw d) (token_checks caller email maker name d) d
      _ h
      λ (user, stripped) checked answer.
        let named = token_checks-user caller email maker name d user stripped checked in
        let token = new_token guard maker user.id stripped d in
        let same : maker.raw ≡ raw = ground arith in
        record {
          user = user;
          named = named;
          shown =
              subst
                (λ text.
                  (bearer guard text (with_token guard token d)).0
                  ≡ (if user.active then pass user else refuse 403 account_disabled))
                same
                (bearer-owner guard maker.raw _ user prefix (
                  created-shown guard maker user stripped d stored fresh
                    (account_of_email-account_of_id email d user ids named)));
        }

first-other :
    (hash : String) (id : ℕ) (tokens : List ApiToken)
    → All (λ k. k.token_hash ≢ hash) tokens
    → first (λ x. str_eq x.token_hash hash) (remove (λ x. x.id == id) tokens) ≡ none
first-other hash id [] h = refl
first-other hash id (x ∷ tokens) h =
    ground (arith, eq_iff x.token_hash hash, h.0, first-other hash id tokens h.1)

first-removed :
    (hash : String) (id : ℕ) (tokens : List ApiToken) (t : ApiToken)
    → HaveHashes tokens
    → first (λ x. str_eq x.token_hash hash) tokens ≡ some t
    → t.id ≡ id
    → first (λ x. str_eq x.token_hash hash) (remove (λ x. x.id == id) tokens) ≡ none
first-removed hash id [] t u h same = cc
first-removed hash id (x ∷ tokens) t u h same = elim (Bool-cases (str_eq x.token_hash hash)) [
  | inl own ↦
      let equal : x ≡ t = ground arith in
      let key : x.id ≡ id = ap (λ k. k.id) equal ∙ same in
      rw ((==_iff x.id id).1 key) (
        first-other hash id tokens (
          subst (λ text. All (λ k. k.token_hash ≢ text) tokens) ((eq_iff x.token_hash hash).0 own)
            u.0))
  | inr other ↦
      let rest = first-removed hash id tokens t u.1 (rw other at h) same in
      elim (Bool-cases (x.id == id)) [ inl e ↦ rw e rest | inr e ↦ rw (e, other) rest ]
]

get_token_by_id-id :
    (id user_id : ℕ) (d : Directory) (t : ApiToken)
    → get_token_by_id id user_id d ≡ some t
    → t.id ≡ id
unfolding get_token_by_id
get_token_by_id-id id user_id d t h =
    let test = first_sound (λ (x : ApiToken). x.id == id && x.user_id == user_id) d.tokens t h in
    (==_iff t.id id).0 (ground arith)

delete_checks-id :
    (caller : Account) (email : String) (id : ℕ) (d : Directory) (t : ApiToken)
    → delete_checks caller email id d ≡ pass t
    → t.id ≡ id
unfolding delete_checks
delete_checks-id caller email id d t h =
    let (user, _, found) = >>=-eq-pass (resolve_user caller email d) _ h in
    get_token_by_id-id id user.id d t
      (require_some-eq-pass (get_token_by_id id user.id d) 404 (token_not_found id) found)

authenticate_token-none :
    (guard : Guard) (raw : String) (d : Directory)
    → token_of guard raw d ≡ none
    → (authenticate_token guard raw d).0 ≡ none
unfolding authenticate_token
authenticate_token-none guard raw d missing = ground arith

deleted-token_of :
    (guard : Guard) (raw : String) (id : ℕ) (d : Directory)
    → guard.commits ≡ true
    → first (λ x. str_eq x.token_hash (guard.sha256 raw)) (remove (λ x. x.id == id) d.tokens) ≡ none
    → token_of guard raw
        (if guard.commits then record d { tokens = remove (λ x. x.id == id) d.tokens } else d)
      ≡ none
unfolding token_of
deleted-token_of guard raw id d stored gone = ground arith

-- A token whose deletion is answered with success and committed lets nobody in any more, if no two
-- tokens share a hash.
pub delete_token-authenticate_token :
    (guard : Guard) (caller : Account) (email : String) (id : ℕ) (raw : String) (d : Directory)
    (t : ApiToken)
    → guard.commits ≡ true
    → HaveHashes d.tokens
    → token_of guard raw d ≡ some t
    → t.id ≡ id
    → (delete_token guard caller email id d).0 ≡ pass tt
    → (authenticate_token guard raw (delete_token guard caller email id d).1).0 ≡ none
unfolding delete_token token_of
delete_token-authenticate_token guard caller email id raw d t stored unique found key h =
    continue_success (λ (d' : Directory). (authenticate_token guard raw d').0 ≡ none)
      (delete_checks caller email id d) d _ h
      λ token checked _.
        let same = delete_checks-id caller email id d token checked in
        let gone =
          first-removed (guard.sha256 raw) token.id d.tokens t unique found (key ∙ sym same) in
        authenticate_token-none guard raw _ (deleted-token_of guard raw token.id d stored gone)
