-- ===== src/Cli/Chosen.antt =====
-- The schedules that `--extend` and `--shrink` of src/quads/cli/cli.py take: those of a cloud or of a host,
-- as `QuadsApi` of src/quads/quads_api.py reads them from the API.
pub mod Rows
use quads.Base.{
  ℕ, ◌*◌, ◌/◌, String, Bool, true, false, not, ◌||◌, Option, none, some, List, [], ◌∷◌, ◌==◌,
  present, is_some, first, select, map, Outcome, pass, attribute_of, if◌then◌else◌,
}
use quads.Models.{Cloud, Assignment, Notification, Host, Schedule, Db}
use quads.Dao.Cloud.{get_cloud}
use quads.Dao.Host.{get_host}
use quads.Dao.Assignment.{get_assignment}
use quads.Dao.Notification.{get_assignment_notification}
use quads.Api.Schedules.Current.{asked_host, asked_cloud, current_schedules, future_schedules}
use quads.Cli.{
  Client, Arguments, Step, goes, ends, ◌>>=◌, ◌>>◌, demand, asked, returned, cli_exception, second,
}
use quads.Base.{◌>>=◌ as and_then}

-- A schedule as a response of the API holds it, with its host and its assignment's notification. Dates
-- travel as whole seconds, in one time zone.
pub record ScheduleView : Type 0 where
  pub row : Schedule
  pub host : Host
  pub notification : Option Notification

abbrev pub whole_seconds : Schedule → Schedule
whole_seconds r = record r { start = r.start / second * second; end = r.end / second * second }

-- `as_dict` of an assignment raises without its notification.
abbrev pub notified : Db → Option Assignment → Outcome (Option Notification)
notified db none = pass none
notified db (some a) =
    and_then (attribute_of (get_assignment_notification db a.id)) λ n. pass (some n)

-- `as_dict` and `from_dict` of a schedule; without its host the server raises.
unfoldable pub listed : Db → Schedule → Outcome ScheduleView
listed db r = and_then (attribute_of (first (λ h. h.id == r.host_id) db.hosts)) λ host.
    and_then (notified db (get_assignment db r.assignment_id))
      λ n. pass (record { row = whole_seconds r; host = host; notification = n })

unfoldable pub all_listed : Db → List Schedule → Outcome (List ScheduleView)
all_listed db [] = pass []
all_listed db (r ∷ rows) =
    and_then (listed db r) λ x. and_then (all_listed db rows) λ xs. pass (x ∷ xs)

-- `QuadsApi.get_current_schedules` leaves out the hosts that are retired or broken.
abbrev pub is_usable : ScheduleView → Bool
is_usable x = not (x.host.retired || x.host.broken)

-- `data_dispatch`: the host is asked for only without a cloud.
abbrev pub host_of : Arguments → Option String
host_of args = if present args.cloud then none else args.host

abbrev pub current_request : Client → Arguments → Db → Outcome (List ScheduleView)
current_request c args db =
    and_then (current_schedules (c.env 0) none (host_of args) args.cloud db) (all_listed db)

abbrev pub future_request : Client → Arguments → Db → Outcome (List ScheduleView)
future_request c args db = all_listed db (future_schedules (c.env 1) (host_of args) args.cloud db)

-- The schedules to come, if there are any and the user agrees.
unfoldable pub agreed : Client → List ScheduleView → Step (List ScheduleView)
agreed c [] = ends returned
agreed c (x ∷ xs) = demand (c.confirms 0) returned >> goes (x ∷ xs)

-- The current schedules, if there are any, and otherwise those to come.
unfoldable pub current_or_future :
    Client → Arguments → Db → List ScheduleView → Step (List ScheduleView)
current_or_future c args db (x ∷ xs) = goes (x ∷ xs)
current_or_future c args db [] = asked (future_request c args db) >>= λ future. agreed c future

-- Whether the cloud, or without one the host, is there.
abbrev pub dispatched : Arguments → Db → Bool
dispatched args db =
    if present args.cloud
    then is_some (asked_cloud db args.cloud)
    else is_some (asked_host db args.host)

unfoldable pub chosen_schedules : Client → Arguments → Db → Step (List ScheduleView)
chosen_schedules c args db = do
  demand (dispatched args db) cli_exception
  current ← asked (current_request c args db)
  current_or_future c args db (select is_usable current)
