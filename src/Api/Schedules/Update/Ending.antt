-- ===== src/Api/Schedules/Update/Ending.antt =====
-- What a PATCH of a schedule (src/quads/server/blueprints/schedules.py) leaves, however it ends, and what
-- one is that gives an end.
use quads.Base.{
  ℕ, ◌<◌, String, ◌≡◌, true, some, List, arith, amend, ◌==◌, present, attribute_of, pass,
  continue_inv,
}
use quads.Models.{Assignment, Host, Schedule, Db}
use quads.Session.{Env, Session}
use quads.Dao.Assignment.{get_assignment}
use quads.Dao.Notification.{update_notification}
use quads.Dao.Schedule.{ScheduleChange, get_schedule, change_schedule, write_schedule}
use quads.Api.Schedules.Create.{clear_pre}
use quads.Api.Schedules.Update.{
  UpdateRequest, change_checks, update_checks, only_end, update_row, update_schedule, parsed,
}

cleared-schedules :
    (env : Env) (i : ℕ) (a : Assignment) (s : Session)
    → s.work.schedules ≡ s.saved.schedules
    → (clear_pre env i a s).1.schedules ≡ s.saved.schedules
unfolding clear_pre update_notification
cleared-schedules env i a s same = ground arith

cleared-hosts :
    (env : Env) (i : ℕ) (a : Assignment) (s : Session)
    → s.work.hosts ≡ s.saved.hosts
    → (clear_pre env i a s).1.hosts ≡ s.saved.hosts
unfolding clear_pre update_notification
cleared-hosts env i a s same = ground arith

-- What `update_row` stores.
record IsWritten (r : Schedule) (c : ScheduleChange) (db : Db) (s : Session) : Type 0 where
  clean : s.work.schedules ≡ s.saved.schedules
  rows : s.saved.schedules ≡ amend (λ x. x.id == r.id) (change_schedule c) db.schedules
  still : s.work.hosts ≡ s.saved.hosts
  hosts : s.saved.hosts ≡ db.hosts

update_row-IsWritten :
    (env : Env) (r : Schedule) (c : ScheduleChange) (db : Db) (s : Session)
    → update_row env 0 r c db ≡ pass s
    → IsWritten r c db s
unfolding update_row write_schedule
update_row-IsWritten env r c db s e = record {
  clean = ground arith;
  rows = ground arith;
  still = ground arith;
  hosts = ground arith;
}

-- A PATCH, however it ends, leaves the rows as they were or makes one checked change of them, and
-- leaves the hosts.
pub update_schedule-inv :
    (Q : List Schedule → List Host → Type 0) (env : Env) (db : Db) (id : ℕ) (req : UpdateRequest)
    → Q db.schedules db.hosts
    → ((r : Schedule) (c : ScheduleChange)
        → update_checks env id req db ≡ pass (r, c)
        → Q (amend (λ x. x.id == r.id) (change_schedule c) db.schedules) db.hosts)
    → Q (update_schedule env id req db).1.schedules (update_schedule env id req db).1.hosts
unfolding update_schedule
update_schedule-inv Q env db id req same changed =
    let P : Db → Type 0 = λ d. Q d.schedules d.hosts in
    continue_inv P (update_checks env id req db) db _ same λ (r, c) checked.
      continue_inv P (update_row env 0 r c db) db _ same λ s made.
        let w = update_row-IsWritten env r c db s made in
        let saved : P s.saved = rw (w.rows, w.hosts) (changed r c checked) in
        continue_inv P (attribute_of (get_assignment s.work r.assignment_id)) s.saved _ saved
          λ a _. rw (cleared-schedules env 1 a s w.clean, cleared-hosts env 1 a s w.still) saved

-- The change of a request that gives an end and nothing else, and passes its checks.
pub record IsEnding (n : ℕ) (db : Db) (id : ℕ) (r : Schedule) (c : ScheduleChange) : Type 0 where
  pub found : get_schedule db id ≡ some r
  pub change : (x : Schedule) → change_schedule c x ≡ record x { end = n }
  pub range : r.start < n

pub update_checks-IsEnding :
    (env : Env) (db : Db) (id : ℕ) (text : String) (n : ℕ) (r : Schedule) (c : ScheduleChange)
    → present (some text) ≡ true
    → env.strptime "%Y-%m-%dT%H:%M" text ≡ some n
    → update_checks env id (only_end text) db ≡ pass (r, c)
    → IsEnding n db id r c
unfolding update_checks parsed change_checks change_schedule
update_checks-IsEnding env db id text n r c p e h = record {
  found = ground arith;
  change = λ x. ground arith;
  range = ground arith;
}
