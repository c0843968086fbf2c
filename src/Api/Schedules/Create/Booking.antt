-- ===== src/Api/Schedules/Create/Booking.antt =====
-- A request that creates a schedule (src/quads/server/blueprints/schedules.py) keeps the bookings sound,
-- whatever other transactions commit while it waits for its locks.
use text.Mathlib.TextPositions.{eq_refl}
use quads.Base.{
  ℕ, ◌<◌, String, ◌≡◌, refl, ap, ◌⊎◌, inl, inr, true, none, some, [], ◌∷◌, ◌++◌, arith, All,
  All-map, pass, continue_inv, sym, ◌∙◌, ltb, Bool-cases,
}
use quads.Models.{Assignment, Db}
use quads.Session.{Env, Session, safe_commit}
use quads.Dao.Host.{get_hosts_for_update, host_map_get}
use quads.Dao.Host.Names.{host_map_get-get_host}
use quads.Dao.Notification.{update_notification}
use quads.Dao.Schedule.{new_schedule, insert_schedule, is_host_available}
use quads.Dao.Schedule.Availability.{Misses, is_host_available-IsFree}
use quads.Dao.Schedule.Bookings.{IsBooked, insert-IsBooked, same-IsBooked}
use quads.Api.Schedules.Create.{
  User, ScheduleRequest, Plan, request_checks, cloud_checks, host_checks, create_schedule_row,
  clear_pre, store_schedule, create_schedule,
}

pub clear_pre-schedules :
    (env : Env) (i : ℕ) (a : Assignment) (s : Session)
    → s.work.schedules ≡ s.saved.schedules
    → (clear_pre env i a s).1.schedules ≡ s.saved.schedules
unfolding clear_pre update_notification
clear_pre-schedules env i a s same = ground arith

-- The stores of a checked request leave the schedules as they were, or add the planned one at the end.
pub store_schedule-schedules :
    (env : Env) (plan : Plan) (db : Db)
    → let d = (store_schedule env plan db).1 in
      (d.schedules ≡ db.schedules)
      ⊎ ((plan.start < plan.end)
          × (d.schedules
              ≡ db.schedules
                ++ new_schedule db.next_schedule plan.start plan.end plan.assignment plan.host
                  ∷ []))
unfolding store_schedule create_schedule_row safe_commit insert_schedule
store_schedule-schedules env plan db =
    let s : Session = record {
      saved = db;
      work = insert_schedule db plan.start plan.end plan.assignment plan.host;
    } in
    let tail = clear_pre-schedules env 1 plan.assignment (safe_commit env 0 s).1 in
    elim (Bool-cases (ltb plan.start plan.end)) [
      | inr bad ↦ inl (ground arith)
      | inl good ↦ elim (Bool-cases (env.commits 0)) [
        | inl done ↦ inr (ground arith, ground (arith, tail))
        | inr failed ↦ inl (ground (arith, tail))
      ]
    ]

store_schedule-hosts :
    (env : Env) (plan : Plan) (db : Db) → (store_schedule env plan db).1.hosts ≡ db.hosts
unfolding store_schedule create_schedule_row clear_pre safe_commit insert_schedule
    update_notification
store_schedule-hosts env plan db = ground arith

-- What a plan that passed the checks under the host's lock satisfies.
pub record IsPlanned (env : Env) (hostname : String) (assignment : Assignment) (db : Db)
    (plan : Plan) : Type 0 where
  pub proper : plan.start < plan.end
  pub locked : host_map_get (get_hosts_for_update db (hostname ∷ [])) hostname ≡ some plan.host
  pub free : is_host_available db hostname plan.start plan.end none ≡ true
  pub under : plan.assignment ≡ assignment

pub host_checks-IsPlanned :
    (env : Env) (hostname : String) (req : ScheduleRequest) (a : Assignment) (db : Db) {plan : Plan}
    → host_checks env hostname req a db ≡ pass plan
    → IsPlanned env hostname a db plan
unfolding host_checks
host_checks-IsPlanned env hostname req a db h = ground arith

plan-Misses :
    (env : Env) (hostname : String) (a : Assignment) (db : Db) (plan : Plan)
    → IsBooked db
    → IsPlanned env hostname a db plan
    → All (λ r. r.host_id ≡ plan.host.id → Misses plan.start plan.end r) db.schedules
plan-Misses env hostname a db plan booked p =
    let f = is_host_available-IsFree db hostname plan.start plan.end none p.proper p.free in
    let unique =
      host_map_get-get_host db (hostname ∷ []) hostname booked.names (rw (eq_refl hostname)) in
    let same : f.host ≡ plan.host = cc (f.found, unique, p.locked) in
    All-map db.schedules (λ r m k. m (k ∙ ap (λ h. h.id) (sym same)) refl) f.misses

store_schedule-IsBooked :
    (env : Env) (hostname : String) (a : Assignment) (db : Db) (plan : Plan)
    → IsBooked db
    → IsPlanned env hostname a db plan
    → IsBooked (store_schedule env plan db).1
unfolding new_schedule
store_schedule-IsBooked env hostname a db plan booked p =
    elim (store_schedule-schedules env plan db) [
      | inl same ↦ same-IsBooked _ booked same (store_schedule-hosts env plan db)
      | inr (proper, added) ↦
          insert-IsBooked _
            (new_schedule db.next_schedule plan.start plan.end plan.assignment plan.host) booked
            proper (plan-Misses env hostname a db plan booked p) added
            (store_schedule-hosts env plan db)
    ]

-- However the request ends, the bookings stay sound: no host is promised to two schedules at one
-- time, no row ends before it starts, and host names stay unique; provided that they were sound and
-- that the transactions which commit while the request waits for its locks keep them so.
pub create_schedule-IsBooked :
    (env : Env) (user : User) (req : ScheduleRequest) (db : Db)
    → ((i : ℕ) (d : Db) → IsBooked d → IsBooked (env.others i d))
    → IsBooked db
    → IsBooked (create_schedule env user req db).1
unfolding create_schedule
create_schedule-IsBooked env user req db others booked =
    continue_inv IsBooked (request_checks db req) db _ booked λ (cloud, hostname) _.
      let d = env.others 0 db in
      let booked' = others 0 db booked in
      continue_inv IsBooked (cloud_checks env user cloud d) d _ booked' λ a _.
        let d' = env.others 1 d in
        let booked'' = others 1 d booked' in
        continue_inv IsBooked (host_checks env hostname req a d') d' _ booked'' λ plan h.
          store_schedule-IsBooked env hostname a d' plan booked''
            (host_checks-IsPlanned env hostname req a d' h)
