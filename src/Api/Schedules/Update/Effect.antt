-- ===== src/Api/Schedules/Update/Effect.antt =====
-- What a PATCH of a schedule (src/quads/server/blueprints/schedules.py) writes.
use quads.Base.{
  ◌↔◌, ◌⊎◌, ◌≢◌, String, Option, none, ℕ, ◌<◌, ◌≡◌, true, false, ◌||◌, some, arith, is_some, amend,
  ◌==◌, pass,
}
use quads.Models.{Schedule, Db}
use quads.Session.{Env, Session}
use quads.Dao.Schedule.{ScheduleChange, chosen, get_schedule, change_schedule}
use quads.Api.Schedules.Update.{UpdateRequest, later, change_checks}

-- The changes that pass: at least one date is given, and the dates that result are in order.
pub record IsOrdered (r : Schedule) (c : ScheduleChange) : Type 0 where
  pub given :
      (is_some c.start || is_some c.end || is_some c.build_start || is_some c.build_end) ≡ true
  pub range :
      (is_some c.start || is_some c.end) ≡ true → chosen c.start r.start < chosen c.end r.end
  pub build : later c.build_start c.build_end ≡ false
  pub start_build : later c.start c.build_start ≡ false
  pub build_end : later c.build_end c.end ≡ false

-- A change of a schedule is accepted exactly when it gives a date, the start and the end that result
-- from a change of either are in order, and the dates given for building do not run backwards or
-- outside the dates given for the schedule.
pub change_checks_iff :
    (r : Schedule) (c : ScheduleChange) → (change_checks r c ≡ pass tt) ↔ IsOrdered r c
unfolding change_checks
change_checks_iff r c = (
  λ h. record {
    given = ground arith;
    range = λ t. ground arith;
    build = ground arith;
    start_build = ground arith;
    build_end = ground arith;
  },
  λ h. ground arith,
)

-- The date that a key of the request gives: none where it is missing or empty.
abbrev pub Gives : Env → Option String → Option ℕ → Type 0
Gives env none date = date ≡ none
Gives env (some t) date =
    ((t ≡ "") × (date ≡ none))
    ⊎ ((t ≢ "") × (d : ℕ) × (env.strptime "%Y-%m-%dT%H:%M" t ≡ some d) × (date ≡ some d))

-- Each date of the change is what the request gives for it.
pub record IsAsked (env : Env) (req : UpdateRequest) (c : ScheduleChange) : Type 0 where
  pub start : Gives env req.start c.start
  pub end : Gives env req.end c.end
  pub build_start : Gives env req.build_start c.build_start
  pub build_end : Gives env req.build_end c.build_end

-- What a PATCH of the schedule `id` has done when it is answered with `changed`.
pub record HasChanged (env : Env) (req : UpdateRequest) (db : Db) (id : ℕ) (changed : Schedule)
    (d : Db) : Type 0 where
  pub row : Schedule
  pub change : ScheduleChange
  pub asked : IsAsked env req change
  pub found : get_schedule db id ≡ some row
  pub ordered : IsOrdered row change
  pub answer : changed ≡ change_schedule change row
  pub written : d.schedules ≡ amend (λ x. x.id == row.id) (change_schedule change) db.schedules
