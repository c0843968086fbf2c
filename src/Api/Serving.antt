-- ===== src/Api/Serving.antt =====
-- Sequences of requests: the routes of src/quads/server/blueprints/schedules.py,
-- src/quads/server/blueprints/assignments.py and src/quads/server/blueprints/moves.py as steps on the
-- database, with PATCH /notifications and the actions of src/quads/cli/cli.py that extend and shrink. A
-- PATCH of a schedule by itself is no step here: its code does not ask whether the host is free.
pub mod Bookings
use quads.Base.{ℕ, String, ◌≡◌, List}
use quads.Models.{Db}
use quads.Session.{Env}
use quads.Dao.Schedule.Bookings.{IsBooked}
use quads.Api.Schedules.Create.{User, ScheduleRequest, create_schedule}
use quads.Api.Schedules.Batch.{BatchRequest, list_of, create_schedules_batch}
use quads.Api.Schedules.Batch.Inputs.{Distinct}
use quads.Api.Schedules.Delete.{delete_schedule}
use quads.Api.Assignments.Create.{AssignmentRequest, create_assignment_request}
use quads.Api.Assignments.Self.{SelfRequest, create_self_assignment}
use quads.Api.Assignments.Terminate.{terminate_assignment, delete_assignment}
use quads.Api.Assignments.Terminate.Bookings.{NoneRunsOut}
use quads.Api.Moves.Progress.{ProgressRequest, update_move_status, start_move_batch}
use quads.Dao.Notification.{Flags}
use quads.Api.Notifications.{patch_notification}
use quads.Cli.{Client, Arguments}
use quads.Cli.Resized.{AreProper}
use quads.Cli.Resized.Writes.{AreRead}
use quads.Cli.Extend.{action_extend}
use quads.Cli.Extend.Bookings.{SayNothing}
use quads.Cli.Shrink.{action_shrink}
use quads.Cli.Shrink.Bookings.{LastAMinute}

-- What commits while a request waits for its locks leaves the bookings sound.
abbrev pub IsFair : Env → Type 0
IsFair env = (i : ℕ) (d : Db) → IsBooked d → IsBooked (env.others i d)

-- One request, with whatever it meets.
pub data Serves : Db → Db → Type 0 where
  posts :
      (env : Env) (user : User) (req : ScheduleRequest) (db : Db)
      → IsFair env
      → Serves db (create_schedule env user req db).1
  batches :
      (env : Env) (req : BatchRequest) (names : List String) (db : Db)
      → IsFair env
      → req.hostnames ≡ list_of names
      → Distinct names
      → Serves db (create_schedules_batch env req db).1
  unbooks : (env : Env) (id : ℕ) (db : Db) → Serves db (delete_schedule env id db).1
  assigns :
      (env : Env) (req : AssignmentRequest) (db : Db)
      → Serves db (create_assignment_request env req db).1
  self_assigns :
      (env : Env) (user : User) (req : SelfRequest) (db : Db)
      → Serves db (create_self_assignment env user req db).1
  terminates :
      (env : Env) (user : User) (id : ℕ) (db : Db)
      → NoneRunsOut env id db
      → Serves db (terminate_assignment env user id db).1
  deletes : (env : Env) (id : ℕ) (db : Db) → Serves db (delete_assignment env id db).1
  reports :
      (env : Env) (id : ℕ) (req : ProgressRequest) (db : Db)
      → Serves db (update_move_status env id req db).1
  moves :
      (env : Env) (hostnames : List String) (db : Db)
      → Serves db (start_move_batch env hostnames db).1
  notifies :
      (env : Env) (id : ℕ) (flags : Flags) (db : Db)
      → Serves db (patch_notification env id flags db).1
  extends :
      (c : Client) (args : Arguments) (db : Db)
      → AreRead c
      → AreProper db
      → SayNothing c db
      → Serves db (action_extend c args db).1
  shrinks :
      (c : Client) (args : Arguments) (db : Db)
      → AreRead c
      → AreProper db
      → LastAMinute db
      → Serves db (action_shrink c args db).1

pub data Reaches : Db → Db → Type 0 where
  idle : (db : Db) → Reaches db db
  next : {a b c : Db} → Reaches a b → Serves b c → Reaches a c
