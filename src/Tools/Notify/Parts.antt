-- ===== src/Tools/Notify/Parts.antt =====
-- The two parts of `main` in src/quads/tools/notify.py: the assignments that are active and validated, and
-- the clouds.
use quads.Base.{
  ℕ, suc, ◌+◌, ◌*◌, String, true, false, not, ◌&&◌, Option, none, some, List, [], ◌∷◌, str_eq,
  select, Outcome, pass, refuse, crash, ◌>>=◌, if◌then◌else◌,
}
use quads.Models.{Cloud, Notification, Assignment, Db}
use quads.Dao.Assignment.{get_active_cloud_assignment}
use quads.Api.Schedules.Window.{day}
use quads.Cli.Chosen.{ScheduleView}
use quads.Tools.Notify.{
  Days, days_value, all_days, flag, Sent, Notifier, Ran, proceed, announce, ask_current, leaving,
  expiring, Fetched, fetched, all_fetched, initial, pre_initial, pre, expires,
}

-- One day of the first part: the message about the hosts that are not booked on the day, or the rest.
abbrev pub expiration :
    Notifier
    → Notification
    → String
    → Days
    → ℕ
    → List ScheduleView
    → Option (List ScheduleView)
    → Sent
    → Ran
    → Ran
expiration c n cloud d future now none s rest = rest
expiration c n cloud d future now (some later) s rest =
    if expiring (leaving now later) future now && not (flag (expires d) n)
    then announce c (expires d) n cloud (leaving now later) s
    else rest

-- The loop over the days of the first part; it ends with the first message.
unfoldable pub expirations :
    Notifier → Notification → String → List ScheduleView → List Days → Sent → Ran
expirations c n cloud now [] s = (true, s)
expirations c n cloud now (d ∷ days) s =
    let future = c.now s.requests + days_value d * day in
    let (answer, s') = ask_current c cloud (some (c.text_of future)) s in
    expiration c n cloud d future now answer s' (expirations c n cloud now days s')

-- The message on the first day, and the plugins of that day.
unfoldable pub initially : Notifier → Notification → String → Sent → Ran
initially c n cloud s =
    if flag initial n
    then (true, s)
    else proceed (announce c initial n cloud [] s) λ s'. (c.first_day s'.requests, s')

abbrev pub expirations_of : Notifier → Fetched → String → List ScheduleView → Sent → Ran
expirations_of c x cloud now s =
    if c.email && not x.assignment.is_self_schedule
    then expirations c x.notification cloud now all_days s
    else (true, s)

abbrev pub work_on : Notifier → Fetched → String → Option (List ScheduleView) × Sent → Ran
work_on c x cloud (none, s) = (true, s)
work_on c x cloud (some now, s) =
    proceed (initially c x.notification cloud s) (expirations_of c x cloud now)

-- One turn of the first part.
unfoldable pub notify_assignment : Notifier → Fetched → Sent → Ran
notify_assignment c x s = elim x.cloud [
  | none ↦ (false, s)
  | some cloud ↦ work_on c x cloud.name (ask_current c cloud.name none s)
]

unfoldable pub notify_assignments : Notifier → List Fetched → Sent → Ran
notify_assignments c [] s = (true, s)
notify_assignments c (x ∷ xs) s = proceed (notify_assignment c x s) (notify_assignments c xs)

-- The message about the hosts that are not booked on the day, if there are any.
abbrev pub future_message :
    Notifier → Fetched → String → List String → List ScheduleView → Sent → Ran → Ran
future_message c x cloud hosts [] s rest = rest
future_message c x cloud [] (y ∷ ys) s rest = rest
future_message c x cloud (h ∷ hosts) (y ∷ ys) s rest =
    announce c pre x.notification cloud (h ∷ hosts) s

abbrev pub future_day :
    Notifier → Fetched → String → List ScheduleView → Option (List ScheduleView) → Sent → Ran → Ran
future_day c x cloud now none s rest = rest
future_day c x cloud now (some later) s rest =
    future_message c x cloud (leaving now later) later s rest

-- The loop over the days of the second part; it ends with the message.
unfoldable pub future_messages :
    Notifier → Fetched → String → List ScheduleView → List Days → Sent → Ran
future_messages c x cloud now [] s = (true, s)
future_messages c x cloud now (d ∷ days) s =
    let future = c.now s.requests + days_value d * day in
    let (answer, s') = ask_current c cloud (some (c.text_of future)) s in
    if not (flag pre x.notification) && x.assignment.validated
    then future_day c x cloud now answer s' (future_messages c x cloud now days s')
    else future_messages c x cloud now days s

-- The second part for an assignment that is active in the cloud.
abbrev pub future_of : Notifier → Fetched → String → List ScheduleView → Sent → Ran
future_of c x cloud now s =
    proceed
      (if not (flag pre_initial x.notification) && c.email
        then announce c pre_initial x.notification cloud [] s
        else (true, s))
      (future_messages c x cloud now all_days)

abbrev pub plan_for : Notifier → Fetched → String → Option (List ScheduleView) × Sent → Ran
plan_for c x cloud (none, s) = (true, s)
plan_for c x cloud (some now, s) = future_of c x cloud now s

abbrev pub fetched_if : Db → Option Assignment → Outcome (Option Fetched)
fetched_if db none = pass none
fetched_if db (some a) = fetched db a >>= λ x. pass (some x)

-- `quads.get_active_cloud_assignment(cloud.name)`, whose exceptions nothing catches
unfoldable pub ask_active : Db → Cloud → Outcome (Option Fetched)
ask_active db cloud = fetched_if db (get_active_cloud_assignment db cloud)

abbrev pub plan_or_end : Notifier → Cloud → Outcome (Option Fetched) → Sent → Ran
plan_or_end c cloud (refuse _ _) s = (false, s)
plan_or_end c cloud crash s = (false, s)
plan_or_end c cloud (pass none) s = (true, s)
plan_or_end c cloud (pass (some x)) s =
    if str_eq x.assignment.owner "quads"
    then (true, s)
    else plan_for c x cloud.name (ask_current c cloud.name none s)

-- One turn of the second part.
unfoldable pub notify_cloud : Notifier → Cloud → Sent → Ran
notify_cloud c cloud s =
    plan_or_end c cloud (ask_active s.db cloud) (record s { requests = suc s.requests })

unfoldable pub notify_clouds : Notifier → List Cloud → Sent → Ran
notify_clouds c [] s = (true, s)
notify_clouds c (x ∷ xs) s = proceed (notify_cloud c x s) (notify_clouds c xs)

-- The two parts, once the assignments are fetched.
abbrev pub both_parts : Notifier → List Cloud → Outcome (List Fetched) → Sent → Ran
both_parts c clouds (pass xs) s = proceed (notify_assignments c xs s) (notify_clouds c clouds)
both_parts c clouds (refuse _ _) s = (false, s)
both_parts c clouds crash s = (false, s)

-- `main`; the clouds come in the table's order for the order by name.
unfoldable pub main : Notifier → String → Sent → Ran
main c spare s =
    both_parts c (select (λ x. not (str_eq x.name spare)) s.db.clouds)
      (all_fetched s.db (select (λ a. a.active && a.validated) s.db.assignments))
      (record s { requests = s.requests + 2 })
