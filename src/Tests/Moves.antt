-- ===== src/Tests/Moves.antt =====
-- Runs of the code of moves.
use quads.Base.{◌+◌, ◌*◌, ◌≡◌, ◌↔◌, refl, none, some, [], ◌∷◌, All, pass}
use quads.Models.{Schedule, pending, Db}
use quads.Api.Schedules.Window.{day}
use quads.Api.Moves.Needed.{get_moves, moves_of, new_cloud}
use quads.Api.Moves.Needed.Home.{IsHome, get_moves_empty_iff}
use quads.Api.Moves.Progress.{
  ProgressRequest, start_move_batch, get_active_move_by_hostname, start_moves,
}
use quads.Api.Moves.Progress.Newest.{IsNewest, get_active_move_by_hostname-IsNewest}
use quads.Dao.Schedule.{get_current_schedule}
use quads.Dao.Assignment.{get_assignment}
use quads.Dao.Cloud.{cloud_by_id}
use quads.Dao.Host.{get_host}
use quads.Tests.{monday, env, db, schedule}

-- The first Monday, when the second host is to go to the second cloud.
get_moves_one :
    get_moves db monday
    ≡ pass (record { host = "host02"; new = "cloud02"; current = "cloud01" } ∷ [])
unfolding get_moves moves_of new_cloud get_current_schedule get_assignment cloud_by_id
get_moves_one = refl

get_moves_empty_iff_example :
    (get_moves db (monday + 7 * day) ≡ pass []) ↔ All (IsHome db (monday + 7 * day)) db.hosts
get_moves_empty_iff_example = get_moves_empty_iff db (monday + 7 * day)

abbrev powered : ProgressRequest
powered = record { status = some "power_on"; message = none; error_message = none }

start_move_batch_one : (start_move_batch env ("host02" ∷ []) db).0 ≡ pass (("host02", 1) ∷ [])
unfolding start_move_batch start_moves get_host get_current_schedule get_assignment cloud_by_id
start_move_batch_one = refl

-- The schedule of the move that has begun.
abbrev begun : Schedule
begun = record schedule {
  move_status = some pending;
  move_source_cloud = some "cloud01";
  build_start = some monday;
}

abbrev moving : Db
moving = record db { schedules = begun ∷ [] }

get_active_move_by_hostname-IsNewest_example : IsNewest moving "host02" monday (some begun)
unfolding get_active_move_by_hostname
get_active_move_by_hostname-IsNewest_example =
    get_active_move_by_hostname-IsNewest moving "host02" monday
