-- ===== src/Cli.antt =====
-- `--extend` and `--shrink` of src/quads/cli/cli.py: a client that asks the API's routes, one request
-- after the other, and decides by their answers. The client runs alone: nothing else writes between its
-- requests, and it may call every route.
pub mod Chosen
pub mod Resized
pub mod Extend
pub mod Shrink
use quads.Base.{
  ◌≤◌, arith, ℕ, zero, suc, ◌+◌, ◌-◌, ◌*◌, ◌/◌, String, ◌≡◌, refl, Bool, true, false, ◌&&◌, Option,
  none, some, List, [], ◌∷◌, ltb, ◌==◌, present, Outcome, pass, refuse, crash, if◌then◌else◌,
}
use quads.Models.{Schedule, Db}
use quads.Session.{Env}
use quads.Api.Available.{minute}
use quads.Api.Schedules.Update.{UpdateRequest, only_end, update_schedule}

-- How an action ends before its end: it returns, it raises `CliException`, or another exception.
pub data Ended : Type 0 where
  returned cli_exception uncaught : Ended

pub data Step {ℓ} (A : Type ℓ) : Type ℓ where
  goes : A → Step A
  ends : Ended → Step A

infixl 5 ◌>>=◌ ◌>>◌
abbrev pub ◌>>=◌ {ℓ κ} : {A : Type ℓ} {B : Type κ} → Step A → (A → Step B) → Step B
goes a >>= f = f a
ends e >>= f = ends e

abbrev pub ◌>>◌ {ℓ} : {B : Type ℓ} → Step (Unit {0}) → Step B → Step B
m >> k = m >>= λ _. k

-- `if not b: ...`, which ends the action
abbrev pub demand : Bool → Ended → Step (Unit {0})
demand true e = goes tt
demand false e = ends e

abbrev pub demand_some {ℓ} : {A : Type ℓ} → Option A → Ended → Step A
demand_some none e = ends e
demand_some (some a) e = goes a

-- The routes asked here refuse with 400, which `QuadsBase` makes an `APIBadRequest`; an exception of the
-- server is a 500, an `APIServerException`. Either ends the action.
abbrev pub asked_or {ℓ} : {A : Type ℓ} → Ended → Outcome A → Step A
asked_or failed (pass a) = goes a
asked_or failed (refuse status m) = ends failed
asked_or failed crash = ends failed

-- `except (APIServerException, APIBadRequest) as ex: raise CliException(str(ex))`
abbrev pub asked {ℓ} : {A : Type ℓ} → Outcome A → Step A
asked m = asked_or cli_exception m

-- Inversion of a chain of steps that went through.
pub >>=-eq-goes {ℓ κ} :
    {A : Type ℓ} {B : Type κ} (m : Step A) (f : A → Step B) {b : B}
    → (m >>= f) ≡ goes b
    → (a : A) × (m ≡ goes a) × (f a ≡ goes b)
>>=-eq-goes (goes a) f h = (a, refl, h)
>>=-eq-goes (ends e) f h = cc

pub demand-eq-goes : (b : Bool) (e : Ended) {u : Unit {0}} → demand b e ≡ goes u → b ≡ true
demand-eq-goes true e h = refl
demand-eq-goes false e h = cc

pub goes_and : (a b : Bool) → goes (a && b) ≡ goes true → (a ≡ true) × (b ≡ true)
goes_and true true h = (refl, refl)
goes_and true false h = cc
goes_and false b h = cc

pub goes_same {ℓ} : {A : Type ℓ} (a b : A) → goes a ≡ goes b → a ≡ b
goes_same a b h = cc

-- A step and the database that it leaves: the action goes on, or ends in that state.
abbrev pub within {ℓ κ} : {A : Type ℓ} {B : Type κ} → Step A → Db → (A → Step B × Db) → Step B × Db
within (goes a) db k = k a
within (ends e) db k = (ends e, db)

pub within_inv {ℓ κ μ} :
    {A : Type ℓ} {B : Type κ} (P : Db → Type μ) (m : Step A) (db : Db) (k : A → Step B × Db)
    → P db
    → ((a : A) → m ≡ goes a → P (k a).1)
    → P (within m db k).1
within_inv P (goes a) db k here after = after a refl
within_inv P (ends e) db k here after = here

pub data ℤ : Type 0 where
  pos negsuc : ℕ → ℤ

-- What the action meets. `env i` is what the request numbered `i` meets; `now 0` is the clock as `--now`
-- reads it, `now 1` as the threshold does; `confirms 0` is what the user answers to the question about
-- schedules to come, `confirms 1` to the one about shrinking; `int` and `strptime` are Python's, with `none`
-- for `ValueError`; `iso d` is `":".join(d.isoformat().split(":")[:-1])`, and `mentions_true` tells whether
-- "true" is in a host's name in lower case.
pub record Client : Type 0 where
  pub env : ℕ → Env
  pub now : ℕ → ℕ
  pub confirms : ℕ → Bool
  pub int : String → Option ℤ
  pub strptime : String → String → Option ℕ
  pub iso : ℕ → String
  pub mentions_true : String → Bool

-- `self.cli_args`
pub record Arguments : Type 0 where
  pub weeks : Option String
  pub date : Option String
  pub now : Bool
  pub cloud : Option String
  pub host : Option String
  pub check : Bool

abbrev pub second : ℕ
second = 1000000

abbrev pub week : ℕ
week = 604800000000

-- The text of a date has no seconds.
abbrev pub floor_minute : ℕ → ℕ
floor_minute d = d / minute * minute

-- `if weeks`: 0 is false.
abbrev pub nonzero : ℤ → Option ℤ
nonzero (pos zero) = none
nonzero (pos (suc n)) = some (pos (suc n))
nonzero (negsuc n) = some (negsuc n)

pub floor_minute_le : (a b : ℕ) → a ≤ b → floor_minute a ≤ b
floor_minute_le a b h = omega arith

-- The number of weeks, `none` without the option or for 0.
unfoldable pub weeks_of : Client → Option String → Step (Option ℤ)
weeks_of c none = goes none
weeks_of c (some text) =
    if present (some text)
    then (demand_some (c.int text) cli_exception >>= λ n. goes (nonzero n))
    else goes none

-- `datetime.strptime(date_arg, "%Y-%m-%d %H:%M")`, which raises on `None` and on another format
unfoldable pub date_of : Client → Option String → Step ℕ
date_of c none = ends uncaught
date_of c (some text) = demand_some (c.strptime "%Y-%m-%d %H:%M" text) uncaught

-- `d - n`, which raises before the first date
abbrev before : ℕ → ℕ → Step ℕ
before d n = if ltb d n then ends uncaught else goes (d - n)

-- `d + timedelta(weeks=w)`; Python's last date is left out.
unfoldable pub weeks_after : ℕ → ℤ → Step ℕ
weeks_after d (pos n) = goes (d + n * week)
weeks_after d (negsuc n) = before d (suc n * week)

-- `d - timedelta(weeks=w)`
unfoldable pub weeks_before : ℕ → ℤ → Step ℕ
weeks_before d (pos n) = before d (n * week)
weeks_before d (negsuc n) = goes (d + suc n * week)

-- The loop that sends the new ends: the first request that fails ends it, with what `failed` tells.
unfoldable pub write_ends :
    Client → Ended → (Schedule → Step ℕ) → ℕ → List Schedule → Db → Step (Unit {0}) × Db
write_ends c failed target i [] db = (goes tt, db)
write_ends c failed target i (s ∷ rest) db = within (target s) db λ end.
    let (answer, d) = update_schedule (c.env i) s.id (only_end (c.iso end)) db in
    within (asked_or failed answer) d λ _. write_ends c failed target (suc i) rest d
