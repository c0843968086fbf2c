-- ===== src/Tools/Notify.antt =====
-- src/quads/tools/notify.py: the messages about assignments. What a message says is left out; which
-- messages go out is kept.
pub mod Parts
pub mod Announced
pub mod Expirations
pub mod Futures
pub mod Once
use quads.Base.{
  ℕ, suc, ◌+◌, ◌*◌, String, Bool, true, false, not, ◌&&◌, Option, none, some, List, [], ◌∷◌, ltb,
  str_eq, select, any, map, first, Outcome, pass, refuse, crash, attribute_of, ◌>>=◌, if◌then◌else◌,
}
use quads.Models.{Cloud, Notification, Assignment, Host, Schedule, Db}
use quads.Session.{Env}
use quads.Dao.Cloud.{cloud_by_id}
use quads.Dao.Assignment.{get_active_cloud_assignment}
use quads.Dao.Notification.{Flags, no_flags, get_assignment_notification}
use quads.Api.Notifications.{patch_notification}
use quads.Api.Schedules.Current.{current_schedules}
use quads.Api.Schedules.Window.{day}
use quads.Cli.Chosen.{ScheduleView, all_listed, is_usable}

pub data Days : Type 0 where
  one_day three_days five_days seven_days : Days

abbrev pub days_value : Days → ℕ
days_value one_day = 1
days_value three_days = 3
days_value five_days = 5
days_value seven_days = 7

abbrev pub all_days : List Days
all_days = one_day ∷ three_days ∷ five_days ∷ seven_days ∷ []

-- The kinds of message, each with its flag in the row of the notification.
pub data Kind : Type 0 where
  initial pre_initial pre : Kind
  expires : Days → Kind

unfoldable pub flag : Kind → Notification → Bool
flag initial n = n.initial
flag pre_initial n = n.pre_initial
flag pre n = n.pre
flag (expires one_day) n = n.one_day
flag (expires three_days) n = n.three_days
flag (expires five_days) n = n.five_days
flag (expires seven_days) n = n.seven_days

-- The body of the PATCH: `{"initial": True}` and so on
unfoldable pub setting : Kind → Flags
setting initial = record no_flags { initial = some true }
setting pre_initial = record no_flags { pre_initial = some true }
setting pre = record no_flags { pre = some true }
setting (expires one_day) = record no_flags { one_day = some true }
setting (expires three_days) = record no_flags { three_days = some true }
setting (expires five_days) = record no_flags { five_days = some true }
setting (expires seven_days) = record no_flags { seven_days = some true }

pub record Announcement : Type 0 where
  pub kind : Kind
  pub notification : ℕ
  pub cloud : String
  pub hosts : List String

-- The database, the messages that went out, the newest first, and the number of requests so far.
pub record Sent : Type 0 where
  pub db : Db
  pub messages : List Announcement
  pub requests : ℕ

-- What the tool meets at its `i`-th request: the server's circumstances, the clock, whether a message goes
-- out or raises, whether what follows the e-mail of an initial message goes through (the address for reports
-- is configured, and the chat takes its message), and whether the plugins for the first day go through. `text_of` is the text of a date at
-- 22:00 of its day; `email` is `Config.plugins["email"]["enabled"]`.
pub record Notifier : Type 0 where
  pub env : ℕ → Env
  pub now : ℕ → ℕ
  pub delivers : ℕ → Bool
  pub posts : ℕ → Bool
  pub first_day : ℕ → Bool
  pub text_of : ℕ → String
  pub email : Bool

-- A step's state; `false` when an exception ends the tool there.
abbrev pub Ran : Type 0
Ran = Bool × Sent

abbrev pub proceed : Ran → (Sent → Ran) → Ran
proceed (true, s) k = k s
proceed (false, s) k = (false, s)

-- Whether nothing raises after a message went out.
abbrev pub finishes : Notifier → Kind → ℕ → Bool
finishes c initial i = c.posts i
finishes c _ i = true

-- A message, and the flag that tells that it went out; a PATCH that fails is logged. What raises after the
-- message went out keeps the flag from being set.
unfoldable pub announce : Notifier → Kind → Notification → String → List String → Sent → Ran
announce c kind n cloud hosts s =
    let message : Announcement = record {
      kind = kind;
      notification = n.id;
      cloud = cloud;
      hosts = hosts;
    } in
    let sent = record s { messages = message ∷ s.messages } in
    if c.delivers s.requests
    then if finishes c kind s.requests
      then (
        true,
        record {
          db = (patch_notification (c.env s.requests) n.id (setting kind) s.db).1;
          messages = message ∷ s.messages;
          requests = suc s.requests;
        },
      )
      else (false, sent)
    else (false, s)

-- `quads.get_current_schedules(payload)`; `none` where the API refuses or fails
unfoldable pub ask_current :
    Notifier → String → Option String → Sent → Option (List ScheduleView) × Sent
ask_current c cloud date s =
    let answer =
      current_schedules (c.env s.requests) date none (some cloud) s.db >>= all_listed s.db in
    (
      elim answer [ pass xs ↦ some (select is_usable xs) | refuse _ _ ↦ none | crash ↦ none ],
      record s { requests = suc s.requests },
    )

-- `set(current_hosts) - set(future_hosts)`, as a list
unfoldable pub leaving : List ScheduleView → List ScheduleView → List String
leaving now later =
    select (λ n. not (any (λ m. str_eq m n) (map (λ x. x.host.name) later)))
      (map (λ x. x.host.name) now)

-- `host_list and future > current_schedules[0].end`
abbrev pub expiring : List String → ℕ → List ScheduleView → Bool
expiring [] future now = false
expiring (h ∷ hosts) future [] = false
expiring (h ∷ hosts) future (x ∷ _) = ltb x.row.end future

-- An assignment as a response holds it, with its notification and its cloud.
pub record Fetched : Type 0 where
  pub assignment : Assignment
  pub notification : Notification
  pub cloud : Option Cloud

abbrev pub cloud_of : Db → Assignment → Option Cloud
cloud_of db a = elim a.cloud_id [ none ↦ none | some id ↦ cloud_by_id db id ]

-- `as_dict` of an assignment raises without its notification.
unfoldable pub fetched : Db → Assignment → Outcome Fetched
fetched db a = attribute_of (get_assignment_notification db a.id) >>= λ n.
    pass (record { assignment = a; notification = n; cloud = cloud_of db a })

unfoldable pub all_fetched : Db → List Assignment → Outcome (List Fetched)
all_fetched db [] = pass []
all_fetched db (a ∷ rows) = fetched db a >>= λ x. all_fetched db rows >>= λ xs. pass (x ∷ xs)
