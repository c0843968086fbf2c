-- ===== src/Api/Notifications.antt =====
-- PATCH /notifications/<id> of src/quads/server/blueprints/notifications.py, for a body of flags.
use quads.Base.{◌≡◌, arith, ℕ, Outcome, require_some, continue, notification_not_found}
use quads.Models.{Notification, Db}
use quads.Session.{Env, safe_commit}
use quads.Dao.Notification.{Flags, get_notification, update_notification}

-- What `safe_commit` answers is not asked; the response shows the row that is stored.
unfoldable pub patch_notification : Env → ℕ → Flags → Db → Outcome Notification × Db
patch_notification env id flags db =
    continue (require_some (get_notification db id) 400 (notification_not_found id)) db λ n.
      let (_, s) =
        safe_commit env 0 (record { saved = db; work = update_notification db n.id flags }) in
      (require_some (get_notification s.saved n.id) 400 (notification_not_found id), s.saved)

pub patch_notification-same :
    (env : Env) (id : ℕ) (flags : Flags) (db : Db)
    → ((patch_notification env id flags db).1.schedules ≡ db.schedules)
      × ((patch_notification env id flags db).1.hosts ≡ db.hosts)
unfolding patch_notification update_notification safe_commit
patch_notification-same env id flags db = (ground arith, ground arith)
