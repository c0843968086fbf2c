-- ===== src/Api/Schedules/Current.antt =====
-- `get_current_schedule` and `get_future_schedule` of src/quads/server/blueprints/schedules.py
use quads.Base.{
  ℕ, ◌*◌, ◌/◌, String, Bool, false, Option, none, some, List, ltb, present, Outcome, pass, ◌>>=◌,
  require_some, invalid_date_format, if◌then◌else◌,
}
use quads.Models.{Cloud, Host, Schedule, Db}
use quads.Session.{Env}
use quads.Dao.Cloud.{get_cloud}
use quads.Dao.Host.{get_host}
use quads.Dao.Schedule.{get_current_schedule, get_future_schedules}
use quads.Api.Available.{minute}

abbrev pub asked_host : Db → Option String → Option Host
asked_host db none = none
asked_host db (some name) = if present (some name) then get_host db name else none

abbrev pub asked_cloud : Db → Option String → Option Cloud
asked_cloud db none = none
asked_cloud db (some name) = if present (some name) then get_cloud db name else none

-- `if date: datetime.strptime(date, "%Y-%m-%dT%H:%M")`
abbrev pub asked_date : Env → Option String → Outcome (Option ℕ)
asked_date env none = pass none
asked_date env (some text) =
    if present (some text)
    then (require_some (env.strptime "%Y-%m-%dT%H:%M" text) 400 invalid_date_format >>= λ d.
        pass (some d))
    else pass none

-- A date before the current minute asks for the inactive assignments too.
abbrev pub asks_past : Env → Option ℕ → Bool
asks_past env none = false
asks_past env (some d) = ltb d (env.clock 0 / minute * minute)

abbrev pub date_or_now : Env → Option ℕ → ℕ
date_or_now env none = env.clock 1
date_or_now env (some d) = d

-- GET /schedules/current
unfoldable pub current_schedules :
    Env → Option String → Option String → Option String → Db → Outcome (List Schedule)
current_schedules env date host cloud db = asked_date env date >>= λ d. pass (
    get_current_schedule db
      (record {
        host = asked_host db host;
        cloud = asked_cloud db cloud;
        assignment_id = none;
        include_inactive = asks_past env d;
      })
      (date_or_now env d))

-- GET /schedules/future
unfoldable pub future_schedules : Env → Option String → Option String → Db → List Schedule
future_schedules env host cloud db =
    get_future_schedules db (asked_host db host) (asked_cloud db cloud) (env.clock 0)
