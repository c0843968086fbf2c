-- ===== src/Plugins/Release/Delivered.antt =====
-- The reports of a move (src/quads/plugins/builtin/release/standard.py) as the API stores them
-- (src/quads/server/blueprints/moves.py): the progress of a schedule only goes forward.
use quads.Base.{ℕ, ◌<◌, String, ◌≡◌, Option, none, some, List, [], ◌∷◌, pass}
use quads.Models.{MoveStatus, failed, Schedule, Db}
use quads.Models.Stages.{value, stage_of}
use quads.Session.{Env}
use quads.Dao.Schedule.{get_schedule}
use quads.Api.Moves.Progress.{ProgressRequest, update_move_status}

-- The message of a report, or the error message of a report of a failure.
abbrev message_of : String × String → MoveStatus → Option String
message_of texts failed = none
message_of texts _ = some texts.0

abbrev error_of : String × String → MoveStatus → Option String
error_of texts failed = some texts.1
error_of texts _ = none

-- The data of a report.
abbrev progress_request : String × String → MoveStatus → ProgressRequest
progress_request texts status = record {
  status = some (value status);
  message = message_of texts status;
  error_message = error_of texts status;
}

-- PATCH /moves/progress/<id>, once for each of the reports, which stand the newest first.
unfoldable pub deliver : Env → ℕ → String × String → List MoveStatus → Db → Db
deliver env id texts [] db = db
deliver env id texts (status ∷ reports) db =
    (update_move_status env id (progress_request texts status) (deliver env id texts reports db)).1

abbrev status_stage : Option MoveStatus → ℕ
status_stage none = 0
status_stage (some status) = stage_of (value status)

abbrev stage_at : Option Schedule → ℕ
stage_at none = 0
stage_at (some r) = status_stage r.move_status

-- The stage of the schedule, as GET shows it.
unfoldable pub stored_stage : Db → ℕ → ℕ
stored_stage db id = stage_at (get_schedule db id)

-- Each report is accepted, and takes the schedule to a later stage than it was in.
unfoldable pub Advances : Env → ℕ → String × String → List MoveStatus → Db → Type 0
Advances env id texts [] db = Unit
Advances env id texts (status ∷ reports) db =
    let before = deliver env id texts reports db in
    let answer = update_move_status env id (progress_request texts status) before in
    (answer.0 ≡ pass tt)
    × (stored_stage before id < stored_stage answer.1 id)
    × Advances env id texts reports db
