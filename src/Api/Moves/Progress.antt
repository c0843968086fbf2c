-- ===== src/Api/Moves/Progress.antt =====
-- The progress of a move: `update_move_status`, `start_move_batch`, `get_active_moves` and
-- `get_active_move_by_hostname` of src/quads/server/dao/schedule.py and their routes in
-- src/quads/server/blueprints/moves.py.
pub mod Newest
pub mod Bookings
use quads.Base.{
  ℕ, suc, ◌+◌, String, Bool, true, false, not, ◌&&◌, ◌||◌, Option, none, some, List, [], ◌∷◌, leb,
  ltb, ◌==◌, str_eq, is_some, any, amend, select, Outcome, pass, refuse, crash, ◌>>=◌, ◌>>◌,
  require, require_some, attribute_of, continue, schedule_not_found, invalid_status,
  missing_argument, no_active_move, if◌then◌else◌,
}
use quads.Models.{Cloud, Assignment, Host, Schedule, MoveStatus, pending, completed, Db}
use quads.Models.Stages.{value, of_value, is_final}
use quads.Session.{Env, Session, safe_commit}
use quads.Dao.Cloud.{cloud_by_id}
use quads.Dao.Host.{get_host}
use quads.Dao.Assignment.{get_assignment}
use quads.Dao.Schedule.{get_schedule, every_current, get_current_schedule}

-- What a PATCH of the progress gives: `status` is `none` where the key is missing, and a message that is
-- missing or `None` is left as it is.
pub record ProgressRequest : Type 0 where
  pub status : Option String
  pub message : Option String
  pub error_message : Option String

abbrev pub parsed_status : Option String → Outcome (Option MoveStatus)
parsed_status none = pass none
parsed_status (some t) = do s ← require_some (of_value t) 400 (invalid_status t); pass (some s)

abbrev pub text_given : Option String → Option String → Option String
text_given none old = old
text_given (some t) old = some t

-- `if move_status is not None: ...`; a final status ends the build.
abbrev pub with_status : ℕ → Option MoveStatus → Schedule → Schedule
with_status now none r = r
with_status now (some s) r = record r {
  move_status = some s;
  build_end = if is_final s then some now else r.build_end;
}

unfoldable pub set_progress : ℕ → Option MoveStatus → ProgressRequest → Schedule → Schedule
set_progress now status req r = record (with_status now status r) {
  move_message = text_given req.message r.move_message;
  move_error = text_given req.error_message r.move_error;
}

-- The result of `safe_commit` is not looked at; `pass` is a 200.
unfoldable pub update_move_status : Env → ℕ → ProgressRequest → Db → Outcome (Unit {0}) × Db
unfolding safe_commit set_progress
update_move_status env id req db = continue (parsed_status req.status) db λ status.
    continue (require_some (get_schedule db id) 404 (schedule_not_found id)) db λ r. (
      pass tt,
      (safe_commit env 0 (record {
        saved = db;
        work = record db {
          schedules =
              amend (λ x. x.id == r.id) (set_progress (env.clock 0) status req) db.schedules;
        };
      })).1.saved,
    )

-- The fields of a schedule whose move begins.
unfoldable pub begin_move : ℕ → String → Schedule → Schedule
begin_move now source r = record r {
  move_status = some pending;
  move_message = none;
  move_error = none;
  move_source_cloud = some source;
  build_start = some now;
}

-- `result[hostname] = schedule.id`
unfoldable pub put : String → ℕ → List (String × ℕ) → List (String × ℕ)
put k v [] = (k, v) ∷ []
put k v ((j, w) ∷ d) = if str_eq j k then (k, v) ∷ d else (j, w) ∷ put k v d

abbrev pub moved :
    Env
    → ℕ
    → Db
    → List (String × ℕ)
    → String
    → Host
    → List Schedule
    → Outcome (List (String × ℕ) × Db)
moved env now db result hostname host [] = pass (result, db)
moved env now db result hostname host (r ∷ _) = do
  source ← attribute_of (cloud_by_id db host.cloud_id)
  pass (
    put hostname r.id result,
    record db { schedules = amend (λ x. x.id == r.id) (begin_move now source.name) db.schedules },
  )

-- The loop of `start_move_batch`; `i` numbers the calls of `datetime.now()` in its queries. An unknown
-- host raises `EntryNotFound`, which nothing catches.
unfoldable pub start_moves :
    Env → ℕ → List String → List (String × ℕ) → Db → Outcome (List (String × ℕ) × Db)
unfolding begin_move put
start_moves env i [] result db = pass (result, db)
start_moves env i (n ∷ names) result db = do
  host ← attribute_of (get_host db n)
  step ←
      moved env (env.clock 0) db result n host
        (get_current_schedule db (record every_current { host = some host }) (env.clock i))
  start_moves env (i + 1) names step.0 step.1

abbrev pub some_names : List String → Outcome (List String)
some_names [] = refuse 400 (missing_argument "hostnames")
some_names (n ∷ names) = pass (n ∷ names)

-- What is not committed is lost; `pass` is a 201.
unfoldable pub start_move_batch : Env → List String → Db → Outcome (List (String × ℕ)) × Db
unfolding safe_commit
start_move_batch env hostnames db = continue (some_names hostnames) db λ names.
    continue (start_moves env 1 names [] db) db λ (result, work).
      (pass result, (safe_commit env 0 (record { saved = db; work = work })).1.saved)

abbrev unfinished : Option MoveStatus → Bool
unfinished none = false
unfinished (some s) = not (str_eq (value s) (value completed))

-- In flight: begun, not completed, and its schedule does not end before now.
unfoldable pub is_active_move : ℕ → Schedule → Bool
unfolding value
is_active_move now r = unfinished r.move_status && leb now r.end

abbrev of_cloud_named : Db → Option String → Schedule → Bool
of_cloud_named db none r = true
of_cloud_named db (some name) r = elim (get_assignment db r.assignment_id) [
  | none ↦ false
  | some a ↦ named_key a.cloud_id
]
  where
    named : Option Cloud → Bool
    named none = false
    named (some c) = str_eq c.name name

    named_key : Option ℕ → Bool
    named_key none = false
    named_key (some id) = named (cloud_by_id db id)

abbrev has_status : Option MoveStatus → Schedule → Bool
has_status none r = true
has_status (some s) r = elim r.move_status [ none ↦ false | some t ↦ str_eq (value t) (value s) ]

unfoldable pub get_active_moves : Db → Option String → Option MoveStatus → ℕ → List Schedule
unfolding is_active_move
get_active_moves db cloud status now =
    select (λ r. is_active_move now r && of_cloud_named db cloud r && has_status status r)
      db.schedules

abbrev newer : Schedule → Option Schedule → Option Schedule
newer r none = some r
newer r (some s) = if ltb s.id r.id then some r else some s

-- `order_by(Schedule.id.desc()).first()`
unfoldable pub newest : List Schedule → Option Schedule
newest [] = none
newest (r ∷ rows) = newer r (newest rows)

abbrev pub of_host_named : Db → String → Schedule → Bool
of_host_named db hostname r = any (λ h. h.id == r.host_id && str_eq h.name hostname) db.hosts

unfoldable pub get_active_move_by_hostname : Db → String → ℕ → Option Schedule
unfolding newest is_active_move
get_active_move_by_hostname db hostname now =
    newest (select (λ r. of_host_named db hostname r && is_active_move now r) db.schedules)
