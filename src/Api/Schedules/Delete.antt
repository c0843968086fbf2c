-- ===== src/Api/Schedules/Delete.antt =====
-- `delete_schedule` of src/quads/server/blueprints/schedules.py (DELETE /schedules/<id>).
use quads.Base.{ℕ, Outcome, pass, require_some, continue, schedule_not_found}
use quads.Models.{Db}
use quads.Session.{Env, safe_commit}
use quads.Dao.Schedule.{get_schedule, delete_schedule_row}

-- The result of `safe_commit` is not looked at.
unfoldable pub delete_schedule : Env → ℕ → Db → Outcome (Unit {0}) × Db
unfolding safe_commit
delete_schedule env id db =
    continue (require_some (get_schedule db id) 400 (schedule_not_found id)) db λ r. (
      pass tt,
      (safe_commit env 0 (record { saved = db; work = delete_schedule_row db r.id })).1.saved,
    )
