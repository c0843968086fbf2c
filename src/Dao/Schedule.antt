-- ===== src/Dao/Schedule.antt =====
-- src/quads/server/dao/schedule.py: the queries on schedules, and the writes that take one step.
pub mod Availability
pub mod Bookings
use quads.Base.{
  ℕ, ◌+◌, ◌*◌, String, Bool, true, false, not, ◌&&◌, ◌||◌, Option, none, some, List, [], ◌∷◌, ◌++◌,
  ltb, leb, ◌==◌, str_eq, is_some, first, select, any, amend, remove, if◌then◌else◌,
}
use quads.Models.{Cloud, Assignment, Host, Schedule, MoveStatus, completed, Db}
use quads.Models.Stages.{value, is_final}
use quads.Dao.Cloud.{refers_to}
use quads.Dao.Host.{get_host}
use quads.Dao.Assignment.{get_assignment}

-- `_validate_range` on two dates that are there: `true` where it raises nothing.
abbrev pub valid_range : ℕ → ℕ → Bool
valid_range start end = ltb start end

unfoldable pub get_schedule : Db → ℕ → Option Schedule
get_schedule db id = first (λ r. r.id == id) db.schedules

-- The row that `create_schedule` adds: the build dates and the progress of a move are NULL.
unfoldable pub new_schedule : ℕ → ℕ → ℕ → Assignment → Host → Schedule
new_schedule id start end assignment host = record {
  id = id;
  start = start;
  end = end;
  build_start = none;
  build_end = none;
  move_status = none;
  move_message = none;
  move_error = none;
  move_source_cloud = none;
  assignment_id = assignment.id;
  host_id = host.id;
}

-- `db.session.add` of a new row.
unfoldable pub insert_schedule : Db → ℕ → ℕ → Assignment → Host → Db
unfolding new_schedule
insert_schedule db start end assignment host = record db {
  schedules = db.schedules ++ new_schedule db.next_schedule start end assignment host ∷ [];
  next_schedule = db.next_schedule + 1;
}

-- One input of `create_schedules`: start, end, assignment, host.
abbrev pub ScheduleInput : Type 0
ScheduleInput = ℕ × ℕ × Assignment × Host

unfoldable pub insert_schedules : Db → List ScheduleInput → Db
unfolding insert_schedule
insert_schedules db [] = db
insert_schedules db ((start, end, assignment, host) ∷ rest) =
    insert_schedules (insert_schedule db start end assignment host) rest

-- `create_schedules` with `commit=False`: every range is checked before any row is added.
unfoldable pub create_schedules : Db → List ScheduleInput → Option Db
unfolding insert_schedules
create_schedules db inputs =
    if any (λ i. not (valid_range i.0 i.1)) inputs then none else some (insert_schedules db inputs)

unfoldable pub delete_schedule_row : Db → ℕ → Db
delete_schedule_row db id = record db { schedules = remove (λ r. r.id == id) db.schedules }

-- The three tests in the loop of `is_host_available`: the row meets start..end.
abbrev pub blocks : ℕ → ℕ → Schedule → Bool
blocks start end r =
    leb r.start start && ltb start r.end
    || ltb r.start end && leb end r.end
    || ltb start r.start && ltb r.end end

-- The row covers an instant.
abbrev pub covers : ℕ → Schedule → Bool
covers date r = leb r.start date && ltb date r.end

-- `if exclude: query.filter(Schedule.id != exclude)`; 0 is false in Python.
abbrev pub kept : Option ℕ → Schedule → Bool
kept none r = true
kept (some id) r = id == 0 || not (r.id == id)

abbrev pub bookings : Db → Host → Option ℕ → List Schedule
bookings db host exclude = select (λ r. r.host_id == host.id && kept exclude r) db.schedules

abbrev pub free_host : Db → Host → ℕ → ℕ → Option ℕ → Bool
free_host db host start end exclude =
    if host.broken || host.retired
    then false
    else if start == end
    then not (any (covers start) (bookings db host exclude))
    else not (any (blocks start end) (bookings db host exclude))

abbrev pub free_host? : Db → Option Host → ℕ → ℕ → Option ℕ → Bool
free_host? db none start end exclude = false
free_host? db (some host) start end exclude = free_host db host start end exclude

unfoldable pub is_host_available : Db → String → ℕ → ℕ → Option ℕ → Bool
is_host_available db hostname start end exclude =
    free_host? db (get_host db hostname) start end exclude

-- The filters of `get_current_schedule` besides the date.
pub record CurrentQuery : Type 0 where
  pub host : Option Host
  pub cloud : Option Cloud
  pub assignment_id : Option ℕ
  pub include_inactive : Bool

abbrev pub every_current : CurrentQuery
every_current = record { host = none; cloud = none; assignment_id = none; include_inactive = false }

abbrev on_host : Option Host → Schedule → Bool
on_host none r = true
on_host (some h) r = r.host_id == h.id

abbrev of_cloud : Option Cloud → Assignment → Bool
of_cloud none a = true
of_cloud (some c) a = refers_to c.id a.cloud_id

-- `if assignment_id:` is false for 0 too.
abbrev asks_assignment : Option ℕ → Bool
asks_assignment none = false
asks_assignment (some n) = not (n == 0)

abbrev of_id : Option ℕ → Assignment → Bool
of_id none a = true
of_id (some n) a = n == 0 || a.id == n

-- The inner join with the assignments, where the query makes it, and its filters.
abbrev pub joined : CurrentQuery → Option Assignment → Bool
joined q none = q.include_inactive && not (is_some q.cloud || asks_assignment q.assignment_id)
joined q (some a) =
    (q.include_inactive || a.active) && of_cloud q.cloud a && of_id q.assignment_id a

unfoldable pub is_current : Db → CurrentQuery → ℕ → Schedule → Bool
is_current db q date r =
    joined q (get_assignment db r.assignment_id) && on_host q.host r && covers date r

unfoldable pub get_current_schedule : Db → CurrentQuery → ℕ → List Schedule
unfolding is_current
get_current_schedule db q date = select (is_current db q date) db.schedules

abbrev in_cloud : Db → Option Cloud → Schedule → Bool
in_cloud db none r = true
in_cloud db (some c) r = elim (get_assignment db r.assignment_id) [
  | none ↦ false
  | some a ↦ refers_to c.id a.cloud_id
]

unfoldable pub get_future_schedules : Db → Option Host → Option Cloud → ℕ → List Schedule
get_future_schedules db host cloud now =
    select (λ r. leb now r.start && on_host host r && in_cloud db cloud r) db.schedules

-- The four keys that the route passes to `update_schedule`.
pub record ScheduleChange : Type 0 where
  pub start : Option ℕ
  pub end : Option ℕ
  pub build_start : Option ℕ
  pub build_end : Option ℕ

abbrev pub chosen : Option ℕ → ℕ → ℕ
chosen none old = old
chosen (some n) old = n

abbrev pub overwritten : Option ℕ → Option ℕ → Option ℕ
overwritten none old = old
overwritten (some n) old = some n

-- The `setattr` loop of `update_schedule`.
unfoldable pub change_schedule : ScheduleChange → Schedule → Schedule
change_schedule c r = record r {
  start = chosen c.start r.start;
  end = chosen c.end r.end;
  build_start = overwritten c.build_start r.build_start;
  build_end = overwritten c.build_end r.build_end;
}

unfoldable pub write_schedule : Db → ℕ → ScheduleChange → Db
unfolding change_schedule
write_schedule db id c = record db {
  schedules = amend (λ r. r.id == id) (change_schedule c) db.schedules;
}
