-- ===== src/Api/Assignments/Terminate.antt =====
-- `terminate_assignment` and `delete_assignment` of src/quads/server/blueprints/assignments.py. The SSH keys
-- that a thread removes from the hosts after a termination are outside the tables and left out.
pub mod Bookings
pub mod Release
use quads.Base.{
  ℕ, suc, String, Bool, true, false, not, ◌||◌, Option, none, some, List, [], ◌∷◌, str_eq, ◌==◌,
  amend, Outcome, pass, ◌>>=◌, ◌>>◌, require, require_some, continue, assignment_not_found,
  no_permission, if◌then◌else◌,
}
use quads.Models.{Assignment, Schedule, Db}
use quads.Session.{Env, safe_commit}
use quads.Dao.Assignment.{get_assignment, delete_assignment_row}
use quads.Dao.Schedule.{CurrentQuery, every_current, is_current}
use quads.Api.Schedules.Create.{User, is_admin}
use quads.Api.Assignments.Self.{username}

unfoldable pub terminate_checks : User → ℕ → Db → Outcome Assignment
terminate_checks user id db = do
  assignment ← require_some (get_assignment db id) 400 (assignment_not_found id)
  require (is_admin user || str_eq (username user.email) assignment.owner) 403
      (no_permission assignment.owner)
  pass assignment

-- `for sched in _schedules: sched.end = datetime.now()`; `i` numbers the calls.
unfoldable pub end_current : Env → (Schedule → Bool) → ℕ → List Schedule → List Schedule
end_current env current i [] = []
end_current env current i (r ∷ rows) =
    let kept = r ∷ end_current env current i rows in
    let ended = record r { end = env.clock i } ∷ end_current env current (suc i) rows in
    if current r then ended else kept

abbrev pub of_assignment : ℕ → CurrentQuery
of_assignment id = record every_current { assignment_id = some id }

-- The assignment is made inactive, and its current schedules end now.
unfoldable pub terminated : Env → ℕ → Db → Db
unfolding end_current
terminated env id db = record db {
  assignments = amend (λ a. a.id == id) (λ a. record a { active = false }) db.assignments;
  schedules = end_current env (is_current db (of_assignment id) (env.clock 0)) 1 db.schedules;
}

-- The result of `safe_commit` is not looked at; `pass` is a 200.
unfoldable pub terminate_assignment : Env → User → ℕ → Db → Outcome (Unit {0}) × Db
unfolding safe_commit
terminate_assignment env user id db =
    continue (terminate_checks user id db) db λ _.
      (pass tt, (safe_commit env 0 (record { saved = db; work = terminated env id db })).1.saved)

unfoldable pub delete_assignment : Env → ℕ → Db → Outcome (Unit {0}) × Db
unfolding safe_commit
delete_assignment env id db =
    continue (require_some (get_assignment db id) 400 (assignment_not_found id)) db λ _. (
      pass tt,
      (safe_commit env 0 (record { saved = db; work = delete_assignment_row db id })).1.saved,
    )
