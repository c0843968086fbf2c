-- ===== src/Api/Serving/Bookings.antt =====
-- The bookings over any sequence of requests (src/quads/server/blueprints).
use quads.Base.{
  ℕ, ◌≤◌, refl, Bool, Option, none, some, List, [], ◌∷◌, All-remove, remove, ◌==◌, continue_inv,
  require_some, Bool-cases, inl, inr, schedule_not_found, assignment_not_found,
}
use quads.Models.{Assignment, Schedule, Db}
use quads.Session.{Env}
use quads.Dao.Assignment.{NewAssignment, create_assignment, delete_assignment_row, get_assignment}
use quads.Dao.Schedule.{get_schedule, delete_schedule_row}
use quads.Dao.Schedule.Bookings.{Apart, AllApart, IsBooked, same-IsBooked}
use quads.Api.Schedules.Create.{User}
use quads.Api.Schedules.Create.Booking.{create_schedule-IsBooked}
use quads.Api.Schedules.Batch.Booking.{create_schedules_batch-IsBooked}
use quads.Api.Schedules.Delete.{delete_schedule}
use quads.Api.Assignments.Create.{
  AssignmentRequest, assignment_checks, committed_assignment, raised, create_assignment_request,
}
use quads.Api.Assignments.Self.{SelfRequest, self_checks, refused, create_self_assignment}
use quads.Api.Assignments.Terminate.{delete_assignment}
use quads.Api.Assignments.Terminate.Bookings.{terminate_assignment-IsBooked}
use quads.Api.Moves.Progress.Bookings.{update_move_status-IsBooked, start_move_batch-IsBooked}
use quads.Api.Notifications.{patch_notification-same}
use quads.Cli.Extend.Bookings.{action_extend-IsBooked}
use quads.Cli.Shrink.Bookings.{action_shrink-IsBooked}
use quads.Api.Serving.{
  Serves, Reaches, posts, batches, unbooks, assigns, self_assigns, terminates, deletes, reports,
  moves, idle, next, notifies, extends, shrinks,
}

remove-AllApart :
    (p : Schedule → Bool) (rows : List Schedule) → AllApart rows → AllApart (remove p rows)
remove-AllApart p [] h = tt
remove-AllApart p (r ∷ rows) h = elim (Bool-cases (p r)) [
  | inl e ↦ rw e (remove-AllApart p rows h.1)
  | inr e ↦ rw e (All-remove (Apart r) p rows h.0, remove-AllApart p rows h.1)
]

delete_schedule-IsBooked :
    (env : Env) (id : ℕ) (db : Db) → IsBooked db → IsBooked (delete_schedule env id db).1
unfolding delete_schedule delete_schedule_row
delete_schedule-IsBooked env id db h =
    continue_inv IsBooked (require_some (get_schedule db id) 400 (schedule_not_found id)) db _ h
      λ r _. elim (Bool-cases (env.commits 0)) [
        | inl e ↦ rw e (record {
          apart = remove-AllApart (λ x. x.id == r.id) db.schedules h.apart;
          ordered = All-remove (λ x. x.start ≤ x.end) (λ x. x.id == r.id) db.schedules h.ordered;
          names = h.names;
        })
        | inr e ↦ rw e h
      ]

committed_assignment-IsBooked :
    (env : Env) (a : NewAssignment) (db : Db)
    → IsBooked db
    → IsBooked (committed_assignment env 0 a db).1
unfolding committed_assignment create_assignment
committed_assignment-IsBooked env a db h = elim (Bool-cases (env.commits 0)) [
  | inl e ↦ rw e (same-IsBooked _ h refl refl)
  | inr e ↦ rw e h
]

raised-IsBooked : (r : Option Assignment × Db) → IsBooked r.1 → IsBooked (raised r).1
raised-IsBooked (some a, d) h = h
raised-IsBooked (none, d) h = h

refused-IsBooked : (r : Option Assignment × Db) → IsBooked r.1 → IsBooked (refused r).1
refused-IsBooked (some a, d) h = h
refused-IsBooked (none, d) h = h

create_assignment_request-IsBooked :
    (env : Env) (req : AssignmentRequest) (db : Db)
    → IsBooked db
    → IsBooked (create_assignment_request env req db).1
unfolding create_assignment_request
create_assignment_request-IsBooked env req db h =
    continue_inv IsBooked (assignment_checks env req db) db _ h λ a _.
      raised-IsBooked (committed_assignment env 0 a db) (committed_assignment-IsBooked env a db h)

create_self_assignment-IsBooked :
    (env : Env) (user : User) (req : SelfRequest) (db : Db)
    → IsBooked db
    → IsBooked (create_self_assignment env user req db).1
unfolding create_self_assignment
create_self_assignment-IsBooked env user req db h =
    continue_inv IsBooked (self_checks env user req db) db _ h λ a _.
      refused-IsBooked (committed_assignment env 0 a db) (committed_assignment-IsBooked env a db h)

delete_assignment-IsBooked :
    (env : Env) (id : ℕ) (db : Db) → IsBooked db → IsBooked (delete_assignment env id db).1
unfolding delete_assignment delete_assignment_row
delete_assignment-IsBooked env id db h =
    continue_inv IsBooked (require_some (get_assignment db id) 400 (assignment_not_found id)) db _ h
      λ a _. elim (Bool-cases (env.commits 0)) [
        | inl e ↦ rw e (same-IsBooked _ h refl refl)
        | inr e ↦ rw e h
      ]

Serves-IsBooked : {a b : Db} → Serves a b → IsBooked a → IsBooked b
Serves-IsBooked (posts env user req db fair) h = create_schedule-IsBooked env user req db fair h
Serves-IsBooked (batches env req names db fair asked distinct) h =
    create_schedules_batch-IsBooked env req names db asked distinct fair h
Serves-IsBooked (unbooks env id db) h = delete_schedule-IsBooked env id db h
Serves-IsBooked (assigns env req db) h = create_assignment_request-IsBooked env req db h
Serves-IsBooked (self_assigns env user req db) h = create_self_assignment-IsBooked env user req db h
Serves-IsBooked (terminates env user id db within) h =
    terminate_assignment-IsBooked env user id db within h
Serves-IsBooked (deletes env id db) h = delete_assignment-IsBooked env id db h
Serves-IsBooked (reports env id req db) h = update_move_status-IsBooked env id req db h
Serves-IsBooked (moves env hostnames db) h = start_move_batch-IsBooked env hostnames db h
Serves-IsBooked (notifies env id flags db) h =
    let k = patch_notification-same env id flags db in same-IsBooked _ h k.0 k.1
Serves-IsBooked (extends c args db texts proper silent) h =
    (action_extend-IsBooked c args db texts proper silent h).0
Serves-IsBooked (shrinks c args db texts proper lasts) h =
    (action_shrink-IsBooked c args db texts proper lasts h).1

-- From a database whose bookings are sound, every sequence of the modelled requests, the extensions and
-- the shrinkings of the command line included and the PATCH of a schedule by itself not, leads to one whose
-- bookings are sound. Batches name no host twice, no schedule that a termination ends runs out meanwhile,
-- what commits while a request waits for a lock keeps the bookings sound, a request that takes no lock runs
-- alone, and so does an action of the command line. Where such an action begins, every schedule starts
-- before it ends and is found by its key, a schedule lasts a minute before a shrinking, no host's name holds
-- the word true before an extension, and the server reads the dates that are sent to their minute.
pub Reaches-IsBooked : {a b : Db} → Reaches a b → IsBooked a → IsBooked b
Reaches-IsBooked (idle db) h = h
Reaches-IsBooked (next before step) h = Serves-IsBooked step (Reaches-IsBooked before h)
