-- ===== src/Api/Schedules/Batch/Duplicates.antt =====
-- A batch that names one host twice (src/quads/server/blueprints/schedules.py): nothing removes the
-- repetition, and the host is booked twice for the same time.
use mathlib.Core.Path.{subst}
use quads.Base.{
  ℕ, ◌+◌, ◌<◌, String, ◌≡◌, refl, sym, some, Option, List, [], ◌∷◌, ◌++◌, arith, pass, >>=-eq-pass,
  continue_success,
}
use quads.Models.{Assignment, Host, Schedule, Db}
use quads.Session.{Env}
use quads.Dao.Host.{get_hosts_for_update, host_map_get}
use quads.Dao.Schedule.{ScheduleInput, new_schedule, insert_schedules}
use quads.Api.Schedules.Batch.{
  BatchRequest, Batch, list_of, batch_checks, locked_assignment, locked_hosts, schedule_inputs,
  host_problems, batch_rows, commit_rows, create_schedules_batch,
}
use quads.Api.Schedules.Batch.Inputs.{host_problems-Bookable, inputs_step, inputs_nil}
use quads.Api.Schedules.Batch.Booking.{
  batch_rows-insert, locked_hosts-clear, batch_checks-proper, clear_pre_quietly-keeps,
}

-- The two last schedules of the table are both for the host of that name and for one proper time.
pub record IsDoubled (base : Db) (n : String) (rows : List Schedule) : Type 0 where
  pub host : Host
  pub earlier : List Schedule
  pub one : Schedule
  pub two : Schedule
  pub found : host_map_get (get_hosts_for_update base (n ∷ n ∷ [])) n ≡ some host
  pub stored : rows ≡ (earlier ++ one ∷ []) ++ two ∷ []
  pub keys : one.id < two.id
  pub booked : (one.host_id ≡ host.id) × (two.host_id ≡ host.id)
  pub same_time : (one.start ≡ two.start) × (one.end ≡ two.end)
  pub proper : one.start < one.end

-- Two rows for one host and one proper time.
insert_twice :
    (base db : Db) (n : String) (start end : ℕ) (a : Assignment) (h : Host)
    → host_map_get (get_hosts_for_update base (n ∷ n ∷ [])) n ≡ some h
    → start < end
    → IsDoubled base n
        (insert_schedules db ((start, end, a, h) ∷ (start, end, a, h) ∷ [])).schedules
unfolding insert_schedules new_schedule
insert_twice base db n start end a h found proper = record {
  host = h;
  earlier = db.schedules;
  one = new_schedule db.next_schedule start end a h;
  two = new_schedule (db.next_schedule + 1) start end a h;
  found = found;
  stored = refl;
  keys = omega arith;
  booked = (refl, refl);
  same_time = (refl, refl);
  proper = proper;
}

twice_inputs :
    (host_of : String → Option Host) (db : Db) (start end : ℕ) (a : Assignment) (n : String)
    (inputs : List ScheduleInput)
    → host_problems host_of db start end (n ∷ n ∷ []) ≡ []
    → schedule_inputs host_of start end a (n ∷ n ∷ []) ≡ pass inputs
    → (h : Host) × (host_of n ≡ some h) × (inputs ≡ (start, end, a, h) ∷ (start, end, a, h) ∷ [])
twice_inputs host_of db start end a n inputs clear h =
    let (host, found, free) = (host_problems-Bookable host_of db start end (n ∷ n ∷ []) clear).0 in
    let (rest, tail, same) = inputs_step host_of db start end a n host (n ∷ []) inputs found h in
    let (rest', tail', same') = inputs_step host_of db start end a n host [] rest found tail in
    (host, found, cc (same, same', inputs_nil host_of db start end a rest' tail'))

batch_rows_twice :
    (env : Env) (req : BatchRequest) (batch : Batch) (existing : Option Assignment) (db : Db)
    (n : String) {chosen : Assignment × Db}
    → batch.hostnames ≡ n ∷ n ∷ []
    → batch.start < batch.end
    → locked_hosts batch db ≡ pass tt
    → batch_rows env req batch existing db ≡ pass chosen
    → IsDoubled db n chosen.1.schedules
batch_rows_twice env req batch existing db n names proper clear h =
    let host_of = host_map_get (get_hosts_for_update db batch.hostnames) in
    let (picked, inputs, p, i, made) = batch_rows-insert env req batch existing db h in
    let (host, found, same) =
      twice_inputs host_of db batch.start batch.end picked.0 n inputs
        (subst (λ ns. host_problems host_of db batch.start batch.end ns ≡ []) names
          (locked_hosts-clear batch db clear))
        (subst (λ ns. schedule_inputs host_of batch.start batch.end picked.0 ns ≡ pass inputs) names
          i) in
    rw (made, same)
      (insert_twice db picked.1 n batch.start batch.end picked.0 host
        (subst (λ ns. host_map_get (get_hosts_for_update db ns) n ≡ some host) names found) proper)

commit_rows_stored :
    (env : Env) (a : Assignment) (rows db : Db) {b : Assignment}
    → (commit_rows env a rows db).0 ≡ pass b
    → (commit_rows env a rows db).1.schedules ≡ rows.schedules
unfolding commit_rows
commit_rows_stored env a rows db h = ground (arith, clear_pre_quietly-keeps env 1 a rows)

-- A batch whose list of hosts is one name, twice, and which is answered with success ends the table of the
-- schedules with two rows of different keys, both for the host of that name and for one proper time,
-- whatever the table held before and whatever the other requests do.
pub create_schedules_batch_twice :
    (env : Env) (req : BatchRequest) (n : String) (db : Db) {r : Assignment × List String}
    → req.hostnames ≡ list_of (n ∷ n ∷ [])
    → (create_schedules_batch env req db).0 ≡ pass r
    → IsDoubled (env.others 1 (env.others 0 db)) n (create_schedules_batch env req db).1.schedules
unfolding create_schedules_batch
create_schedules_batch_twice env req n db asked h =
    let P = λ (e : Db). IsDoubled (env.others 1 (env.others 0 db)) n e.schedules in
    continue_success P (batch_checks env db req) db _ h λ batch checked h₁.
      let d = env.others 0 db in
      let (proper, same) = batch_checks-proper env db req checked in
      let names : batch.hostnames ≡ n ∷ n ∷ [] = cc (asked, same) in
      continue_success P (locked_assignment batch d) d _ h₁ λ existing _ h₂.
        let d' = env.others 1 d in
        continue_success P (locked_hosts batch d') d' _ h₂ λ u clear h₃.
          continue_success P (batch_rows env req batch existing d') d' _ h₃ λ (a, rows) made h₄.
            let (b, stored, _) = >>=-eq-pass (commit_rows env a rows d').0 _ h₄ in
            subst (IsDoubled d' n) (sym (commit_rows_stored env a rows d' stored))
              (batch_rows_twice env req batch existing d' n names proper clear made)
