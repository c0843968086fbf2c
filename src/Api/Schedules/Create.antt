-- ===== src/Api/Schedules/Create.antt =====
-- `create_schedule` of src/quads/server/blueprints/schedules.py (POST /schedules) and
-- `ScheduleDao.create_schedule`. Before the insertion nothing is written, so that a `rollback` leaves
-- what is committed.
pub mod Booking
pub mod Stored
use quads.Base.{
  ℕ, String, Bool, true, false, not, ◌&&◌, ◌||◌, Option, none, some, List, [], ◌∷◌, length, leb,
  ltb, Outcome, pass, refuse, crash, ◌>>=◌, ◌>>◌, require, require_some, attribute_of, argument,
  continue, cloud_not_found, host_not_found, no_active_assignment, no_permission,
  host_limit_reached, not_self_schedulable, invalid_date_format, invalid_date_range,
  host_unavailable, commit_failed, if◌then◌else◌,
}
use quads.Models.{Cloud, Assignment, Host, Schedule, Notification, Db}
use quads.Session.{Config, Env, Session, safe_commit}
use quads.Dao.Cloud.{get_cloud}
use quads.Dao.Host.{get_host, get_hosts_for_update, host_map_get, contains}
use quads.Dao.Assignment.{get_active_cloud_assignment}
use quads.Dao.Notification.{no_flags, get_assignment_notification, update_notification}
use quads.Dao.Schedule.{
  valid_range, new_schedule, insert_schedule, is_host_available, get_current_schedule,
  every_current,
}
use quads.Api.Schedules.Window.{parse_datetime_with_now, self_window}

-- `g.current_user`: the address and the names of the roles.
pub record User : Type 0 where
  pub email : String
  pub roles : List String

abbrev pub is_admin : User → Bool
is_admin user = contains user.roles "admin"

-- The JSON body; a key may be missing.
pub record ScheduleRequest : Type 0 where
  pub hostname : Option String
  pub cloud : Option String
  pub start : Option String
  pub end : Option String

-- What the checks settle.
pub record Plan : Type 0 where
  pub start : ℕ
  pub end : ℕ
  pub assignment : Assignment
  pub host : Host

-- Before any lock: the cloud's and the host's name.
unfoldable pub request_checks : Db → ScheduleRequest → Outcome (String × String)
request_checks db req = do
  cloud ← argument req.cloud "cloud"
  _cloud ← require_some (get_cloud db cloud) 400 (cloud_not_found cloud)
  hostname ← argument req.hostname "hostname"
  _host ← require_some (get_host db hostname) 400 (host_not_found hostname)
  pass (cloud, hostname)

-- With the cloud's row locked: the active assignment, and whether the user may add to it.
unfoldable pub cloud_checks : Env → User → String → Db → Outcome Assignment
cloud_checks env user cloud db = do
  locked ← require_some (get_cloud db cloud) 400 (cloud_not_found cloud)
  assignment ← require_some (get_active_cloud_assignment db locked) 400 (no_active_assignment cloud)
  require (assignment.is_self_schedule || is_admin user) 403 (no_permission cloud)
  let existing =
      get_current_schedule db (record every_current { cloud = some locked }) (env.clock 0)
  require (not (assignment.is_self_schedule && leb env.config.ssm_host_limit (length existing))) 400
      (host_limit_reached cloud)
  pass assignment

-- `_parse_datetime_with_now` of both dates; a `ValueError` is a response.
unfoldable pub parsed_dates : Env → ScheduleRequest → Outcome (ℕ × ℕ)
parsed_dates env req = do
  start ← argument req.start "start or end"
  end ← argument req.end "start or end"
  _start ← require_some (parse_datetime_with_now env 2 start) 400 invalid_date_format
  _end ← require_some (parse_datetime_with_now env 3 end) 400 invalid_date_format
  pass (_start, _end)

unfoldable pub self_dates : Env → String → Host → Outcome (ℕ × ℕ)
self_dates env hostname host = do
  require host.can_self_schedule 400 (not_self_schedulable hostname)
  self_window env.config (env.clock 1)

-- With the host's row locked too: the dates, and whether the host is free.
unfoldable pub host_checks : Env → String → ScheduleRequest → Assignment → Db → Outcome Plan
host_checks env hostname req assignment db = do
  host ←
      require_some (host_map_get (get_hosts_for_update db (hostname ∷ [])) hostname) 400
        (host_not_found hostname)
  dates ← if assignment.is_self_schedule then self_dates env hostname host else parsed_dates env req
  require (ltb dates.0 dates.1) 400 invalid_date_range
  require (is_host_available db hostname dates.0 dates.1 none) 400 host_unavailable
  pass (record { start = dates.0; end = dates.1; assignment = assignment; host = host })

-- `ScheduleDao.create_schedule`; `_validate_range` raises where the range is empty, and the result of
-- `safe_commit` is not looked at.
unfoldable pub create_schedule_row : Env → ℕ → Plan → Db → Outcome (Schedule × Session)
unfolding safe_commit insert_schedule
create_schedule_row env i plan db =
    if valid_range plan.start plan.end
    then pass (
      new_schedule db.next_schedule plan.start plan.end plan.assignment plan.host,
      (safe_commit env i (record {
        saved = db;
        work = insert_schedule db plan.start plan.end plan.assignment plan.host;
      })).1,
    )
    else crash

-- `if _assignment.notification.pre: NotificationDao.update_notification(..., pre=False)`
unfoldable pub clear_pre : Env → ℕ → Assignment → Session → Outcome (Unit {0}) × Db
unfolding safe_commit
clear_pre env i assignment s = elim (get_assignment_notification s.work assignment.id) [
  | none ↦ (crash, s.saved)
  | some n ↦
      if n.pre
      then (let (done, s') = safe_commit env i (record s {
        work = update_notification s.work n.id (record no_flags { pre = some false });
      }) in
          (require done 400 commit_failed, s'.saved))
      else (pass tt, s.saved)
]

-- The stores of a request that went through its checks.
unfoldable pub store_schedule : Env → Plan → Db → Outcome Schedule × Db
store_schedule env plan db = continue (create_schedule_row env 0 plan db) db λ (row, s).
    let (answer, d) = clear_pre env 1 plan.assignment s in (answer >>= (λ _. pass row), d)

-- The response and the database after it; `pass` is a 201.
unfoldable pub create_schedule : Env → User → ScheduleRequest → Db → Outcome Schedule × Db
create_schedule env user req db = continue (request_checks db req) db λ (cloud, hostname).
    let d = env.others 0 db in
    continue (cloud_checks env user cloud d) d λ assignment.
      let d' = env.others 1 d in
      continue (host_checks env hostname req assignment d') d' λ plan. store_schedule env plan d'
