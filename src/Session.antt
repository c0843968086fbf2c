-- ===== src/Session.antt =====
-- The SQLAlchemy session of a request (`db.session`), `BaseDao.safe_commit` of
-- src/quads/server/dao/baseDao.py, and what a request takes from outside the program.
use quads.Base.{ℕ, String, ◌≡◌, arith, Bool, true, false, Option, List, if◌then◌else◌}
use quads.Models.{Db}

-- The values of the configuration (`quads.config.Config`) that the modelled code reads.
-- `ssm_default_lifetime` is a number of days in the file; here it is the length in microseconds.
-- `ssm_deadline_day` is in lower case; `ssm_description_max` is `none` where it is no integer.
pub record Config : Type 0 where
  pub spare_pool_name : String
  pub ssm_enable : Bool
  pub ssm_host_limit : ℕ
  pub ssm_user_cloud_limit : ℕ
  pub ssm_deadline_day : String
  pub ssm_deadline_hour : ℕ
  pub ssm_default_lifetime : ℕ
  pub ssm_jira_create_ticket : Bool
  pub ssm_description_max : Option ℕ
  pub ssm_description_prefix : String
  pub default_os : String
  pub default_boot_order : String

-- What one request meets. `clock i` is what its `i`-th call of `datetime.now()` in the program's
-- order returns; `commits i` tells whether its `i`-th commit succeeds; `others i` is what the other
-- transactions commit while it waits for its `i`-th row lock; `integrity i` tells whether a failed
-- commit failed by an `IntegrityError`; `strptime format text` is `datetime.strptime`, with `none` for
-- `ValueError`; `lower` and `strip` are those of `str`, and `split pattern text` is `re.split`;
-- `ticket_created` is what the ticketing dispatcher answers to `create_ticket`: `none` where none is
-- configured, `some none` where it raises or gives no key.
pub record Env : Type 0 where
  pub config : Config
  pub clock : ℕ → ℕ
  pub commits : ℕ → Bool
  pub others : ℕ → Db → Db
  pub integrity : ℕ → Bool
  pub strptime : String → String → Option ℕ
  pub lower : String → String
  pub split : String → String → List String
  pub strip : String → String
  pub ticket_created : Option (Option String)

-- `saved` is what is committed, `work` what the transaction sees.
pub record Session : Type 0 where
  pub saved : Db
  pub work : Db

unfoldable pub rollback : Session → Session
rollback s = record s { work = s.saved }

-- `db.session.commit()`, which raises if it fails; `safe_commit` turns that into a rollback and `false`.
unfoldable pub safe_commit : Env → ℕ → Session → Bool × Session
unfolding rollback
safe_commit env i s =
    if env.commits i then (true, record s { saved = s.work }) else (false, rollback s)

-- A commit leaves a session whose work is saved, whichever way it goes.
pub safe_commit-clean :
    (env : Env) (i : ℕ) (s : Session) → (safe_commit env i s).1.work ≡ (safe_commit env i s).1.saved
unfolding safe_commit
safe_commit-clean env i s = ground arith
