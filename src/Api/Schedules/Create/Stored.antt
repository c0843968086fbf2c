-- ===== src/Api/Schedules/Create/Stored.antt =====
-- What a POST of a schedule (src/quads/server/blueprints/schedules.py) that is answered with 201 has done.
use quads.Base.{
  ◌<◌, String, ◌≡◌, refl, ap, ◌∙◌, Option, some, argument, require_some, cloud_not_found,
  host_not_found, >>=-eq-pass, true, none, [], ◌∷◌, ◌++◌, arith, ltb, pass, continue_success,
  Bool-cases, inl, inr, if◌then◌else◌,
}
use quads.Models.{Assignment, Host, Schedule, Db}
use quads.Dao.Cloud.{get_cloud}
use quads.Dao.Host.{get_host, get_hosts_for_update, host_map_get}
use quads.Session.{Env, Session, safe_commit}
use quads.Dao.Schedule.{is_host_available, new_schedule, insert_schedule}
use quads.Api.Schedules.Create.{
  User, ScheduleRequest, Plan, request_checks, cloud_checks, host_checks, create_schedule_row,
  store_schedule, create_schedule,
}
use quads.Api.Schedules.Create.Booking.{IsPlanned, host_checks-IsPlanned, clear_pre-schedules}

-- `base` is the database under the locks. The row that is answered is for the host that the request names
-- and a proper time in which it was free, and it is stored exactly if the commit went through.
pub record HasStored (env : Env) (req : ScheduleRequest) (base : Db) (row : Schedule) (d : Db)
    : Type 0 where
  pub hostname : String
  pub host : Host
  pub asked : req.hostname ≡ some hostname
  pub found : host_map_get (get_hosts_for_update base (hostname ∷ [])) hostname ≡ some host
  pub booked : row.host_id ≡ host.id
  pub proper : row.start < row.end
  pub free : is_host_available base hostname row.start row.end none ≡ true
  pub stored : d.schedules ≡ (if env.commits 0 then base.schedules ++ row ∷ [] else base.schedules)

store_schedule-answer :
    (env : Env) (plan : Plan) (db : Db) {row : Schedule}
    → (store_schedule env plan db).0 ≡ pass row
    → (row ≡ new_schedule db.next_schedule plan.start plan.end plan.assignment plan.host)
      × ((store_schedule env plan db).1.schedules
          ≡ (if env.commits 0 then db.schedules ++ row ∷ [] else db.schedules))
unfolding store_schedule create_schedule_row safe_commit insert_schedule
store_schedule-answer env plan db {row} h =
    let s : Session = record {
      saved = db;
      work = insert_schedule db plan.start plan.end plan.assignment plan.host;
    } in
    let tail = clear_pre-schedules env 1 plan.assignment (safe_commit env 0 s).1 in
    elim (Bool-cases (ltb plan.start plan.end)) [
      | inr bad ↦ ground arith
      | inl good ↦ elim (Bool-cases (env.commits 0)) [
        | inl done ↦ (ground arith, ground (arith, tail))
        | inr failed ↦ (ground arith, ground (arith, tail))
      ]
    ]

store_schedule-HasStored :
    (env : Env) (req : ScheduleRequest) (hostname : String) (a : Assignment) (db : Db) (plan : Plan)
    {row : Schedule}
    → req.hostname ≡ some hostname
    → IsPlanned env hostname a db plan
    → (store_schedule env plan db).0 ≡ pass row
    → HasStored env req db row (store_schedule env plan db).1
unfolding new_schedule
store_schedule-HasStored env req hostname a db plan {row} asked p h =
    let (same, stored) = store_schedule-answer env plan db h in
    record {
      hostname = hostname;
      host = plan.host;
      asked = asked;
      found = p.locked;
      booked = rw same refl;
      proper = rw same p.proper;
      free = rw same p.free;
      stored = stored;
    }

argument-text :
    (o : Option String) (name : String) {t : String} → argument o name ≡ pass t → o ≡ some t
argument-text none name h = cc
argument-text (some String.[]) name h = cc
argument-text (some (String.◌∷◌ c t)) name h = ground arith

request_checks-hostname :
    (db : Db) (req : ScheduleRequest) (cloud hostname : String)
    → request_checks db req ≡ pass (cloud, hostname)
    → req.hostname ≡ some hostname
unfolding request_checks
request_checks-hostname db req cloud hostname h =
    let (c, _, h₁) = >>=-eq-pass (argument req.cloud "cloud") _ h in
    let (_, _, h₂) = >>=-eq-pass (require_some (get_cloud db c) 400 (cloud_not_found c)) _ h₁ in
    let (n, given, h₃) = >>=-eq-pass (argument req.hostname "hostname") _ h₂ in
    let (_, _, h₄) = >>=-eq-pass (require_some (get_host db n) 400 (host_not_found n)) _ h₃ in
    let same : n ≡ hostname = ground arith in
    argument-text req.hostname "hostname" given ∙ ap some same

-- A request for a schedule that is answered with 201 gives a row for the host that it names and for a proper
-- time in which that host was free, both under the locks; the row is stored at the end of the table if the commit went through, and if it
-- failed the answer is the same and nothing is stored.
pub create_schedule-HasStored :
    (env : Env) (user : User) (req : ScheduleRequest) (db : Db) {row : Schedule}
    → (create_schedule env user req db).0 ≡ pass row
    → HasStored env req (env.others 1 (env.others 0 db)) row (create_schedule env user req db).1
unfolding create_schedule
create_schedule-HasStored env user req db {row} h =
    let d = env.others 0 db in
    let d' = env.others 1 d in
    let P = HasStored env req d' row in
    continue_success P (request_checks db req) db _ h λ (cloud, hostname) named h₁.
      continue_success P (cloud_checks env user cloud d) d _ h₁ λ a _ h₂.
        continue_success P (host_checks env hostname req a d') d' _ h₂ λ plan checked h₃.
          store_schedule-HasStored env req hostname a d' plan
            (request_checks-hostname db req cloud hostname named)
            (host_checks-IsPlanned env hostname req a d' checked) h₃
