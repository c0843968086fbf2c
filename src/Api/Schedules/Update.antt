-- ===== src/Api/Schedules/Update.antt =====
-- `update_schedule` of src/quads/server/blueprints/schedules.py (PATCH /schedules/<id>), with
-- `ScheduleDao.update_schedule`.
pub mod Effect
pub mod Ending
use quads.Base.{
  ℕ, String, Bool, true, false, not, ◌&&◌, ◌||◌, Option, none, some, ltb, leb, present, is_some,
  Outcome, pass, refuse, crash, ◌>>=◌, ◌>>◌, require, require_some, attribute_of, raise_unless,
  continue, cloud_not_found, host_not_found, schedule_not_found, missing_argument,
  invalid_date_format, invalid_date_range, if◌then◌else◌,
}
use quads.Models.{Assignment, Schedule, Db}
use quads.Session.{Env, Session, safe_commit}
use quads.Dao.Cloud.{get_cloud}
use quads.Dao.Host.{get_host}
use quads.Dao.Assignment.{get_assignment}
use quads.Dao.Schedule.{
  ScheduleChange, valid_range, chosen, get_schedule, change_schedule, write_schedule,
}
use quads.Api.Schedules.Create.{clear_pre}

-- The JSON body; a key may be missing.
pub record UpdateRequest : Type 0 where
  pub hostname : Option String
  pub cloud : Option String
  pub start : Option String
  pub end : Option String
  pub build_start : Option String
  pub build_end : Option String

-- A body that gives an end and nothing else.
abbrev pub only_end : String → UpdateRequest
only_end text = record {
  hostname = none;
  cloud = none;
  start = none;
  end = some text;
  build_start = none;
  build_end = none;
}

-- `if value: datetime.strptime(value, "%Y-%m-%dT%H:%M")`
unfoldable pub parsed : Env → Option String → Outcome (Option ℕ)
parsed env none = pass none
parsed env (some t) =
    if present (some t)
    then (do
      d ← require_some (env.strptime "%Y-%m-%dT%H:%M" t) 400 invalid_date_format
      pass (some d))
    else pass none

-- Both dates are there and the first is later than the second.
abbrev pub later : Option ℕ → Option ℕ → Bool
later (some a) (some b) = ltb b a
later (some a) none = false
later none b = false

abbrev known {ℓ} :
    {A : Type ℓ}
    → Option String
    → (String → Option A)
    → (String → Outcome (Unit {0}))
    → Outcome (Unit {0})
known none find answer = pass tt
known (some t) find answer =
    if present (some t) then (if is_some (find t) then pass tt else answer t) else pass tt

-- The checks on the dates, in the order of the source.
unfoldable pub change_checks : Schedule → ScheduleChange → Outcome (Unit {0})
change_checks r c = do
  require (is_some c.start || is_some c.end || is_some c.build_start || is_some c.build_end) 400
      (missing_argument "start, end, build_start or build_end")
  require
      (not (is_some c.start || is_some c.end) || ltb (chosen c.start r.start) (chosen c.end r.end))
      400 invalid_date_range
  require (not (later c.build_start c.build_end)) 400 invalid_date_range
  require (not (later c.start c.build_start)) 400 invalid_date_range
  require (not (later c.build_end c.end)) 400 invalid_date_range

unfoldable pub update_checks : Env → ℕ → UpdateRequest → Db → Outcome (Schedule × ScheduleChange)
update_checks env id req db = do
  schedule ← require_some (get_schedule db id) 400 (schedule_not_found id)
  known req.cloud (get_cloud db) (λ name. refuse 400 (cloud_not_found name))
  known req.hostname (get_host db) (λ name. refuse 400 (host_not_found name))
  start ← parsed env req.start
  end ← parsed env req.end
  build_start ← parsed env req.build_start
  build_end ← parsed env req.build_end
  let change : ScheduleChange = record {
    start = start;
    end = end;
    build_start = build_start;
    build_end = build_end;
  }
  change_checks schedule change
  pass (schedule, change)

-- `ScheduleDao.update_schedule`: an empty range and a failed commit raise, and nothing catches that.
unfoldable pub update_row : Env → ℕ → Schedule → ScheduleChange → Db → Outcome Session
update_row env i schedule change db = do
  let changed = change_schedule change schedule
  raise_unless (valid_range changed.start changed.end)
  raise_unless (env.commits i)
  let d = write_schedule db schedule.id change
  pass (record { saved = d; work = d })

-- The response and the database after it; `pass` is a 200.
unfoldable pub update_schedule : Env → ℕ → UpdateRequest → Db → Outcome Schedule × Db
update_schedule env id req db = continue (update_checks env id req db) db λ (schedule, change).
    continue (update_row env 0 schedule change db) db λ s.
      continue (attribute_of (get_assignment s.work schedule.assignment_id)) s.saved λ assignment.
        let (answer, d) = clear_pre env 1 assignment s in
        (answer >>= (λ _. pass (change_schedule change schedule)), d)
