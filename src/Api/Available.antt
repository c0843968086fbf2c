-- ===== src/Api/Available.antt =====
-- src/quads/server/blueprints/available.py: the hosts that are free in an interval. Parameters other than
-- `cloud`, `start` and `end`, which filter the hosts before, are left out.
pub mod Free
use quads.Base.{
  ℕ, suc, ◌+◌, ◌*◌, String, Bool, true, false, Option, none, some, List, [], ◌∷◌, ltb, str_eq,
  present, Outcome, pass, refuse, crash, ◌>>=◌, ◌>>◌, require_some, attribute_of,
  invalid_date_format, if◌then◌else◌,
}
use quads.Models.{Host, Schedule, Db}
use quads.Session.{Env}
use quads.Dao.Cloud.{cloud_by_id}
use quads.Dao.Assignment.{get_assignment}
use quads.Dao.Schedule.{every_current, get_current_schedule, is_host_available}

-- The parameters of GET /available.
pub record AvailableRequest : Type 0 where
  pub cloud : Option String
  pub start : Option String
  pub end : Option String

abbrev pub minute : ℕ
minute = 60000000

-- A date that is given, or now.
abbrev pub date_or : Env → Option String → ℕ → Outcome ℕ
date_or env none now = pass now
date_or env (some text) now =
    if str_eq text ""
    then pass now
    else require_some (env.strptime "%Y-%m-%dT%H:%M" text) 400 invalid_date_format

-- The interval that is asked for: an interval that ends before it starts becomes a minute.
unfoldable pub asked_interval : Env → Option String → Option String → Outcome (ℕ × ℕ)
asked_interval env start end = do
  from ← date_or env start (env.clock 0)
  to ← date_or env end (env.clock 0)
  pass (from, if ltb to from then from + minute else to)

-- `_sched_cloud[0].assignment.cloud.name if _sched_cloud else None`
abbrev pub cloud_name_of : Db → List Schedule → Outcome (Option String)
cloud_name_of db [] = pass none
cloud_name_of db (r ∷ _) = do
  a ← attribute_of (get_assignment db r.assignment_id)
  id ← attribute_of a.cloud_id
  c ← attribute_of (cloud_by_id db id)
  pass (some c.name)

abbrev pub equals_text : Option String → String → Bool
equals_text none word = false
equals_text (some text) word = str_eq text word

-- `if _cloud: ...`: whether the host stays in the list
abbrev pub stays : Db → Option String → ℕ → Host → Outcome Bool
stays db none now h = pass true
stays db (some cloud) now h =
    if str_eq cloud ""
    then pass true
    else (cloud_name_of db (get_current_schedule db (record every_current { host = some h }) now)
        >>= λ name. pass (equals_text name cloud))

-- The loop over the hosts; `i` numbers the readings of the clock.
unfoldable pub available_names :
    Env → ℕ → Db → Option String → ℕ → ℕ → List Host → Outcome (List String)
available_names env i db cloud start end [] = pass []
available_names env i db cloud start end (h ∷ hosts) =
    let rest = available_names env (suc i) db cloud start end hosts in
    if is_host_available db h.name start end none
    then (stays db cloud (env.clock i) h >>= λ kept.
        rest >>= λ names. pass (if kept then h.name ∷ names else names))
    else rest

-- GET /available
unfoldable pub get_available : Env → AvailableRequest → Db → Outcome (List String)
get_available env req db = asked_interval env req.start req.end >>= λ interval.
    available_names env 1 db req.cloud interval.0 interval.1 db.hosts

-- GET /available/<hostname>
unfoldable pub is_available : Env → String → Option String → Option String → Db → Outcome Bool
is_available env hostname start end db = asked_interval env start end >>= λ interval.
    pass (is_host_available db hostname interval.0 interval.1 none)
