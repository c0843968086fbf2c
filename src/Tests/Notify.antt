-- ===== src/Tests/Notify.antt =====
-- Runs of src/quads/tools/notify.py on the small database.
use quads.Base.{◌+◌, ◌*◌, ◌≡◌, refl, true, some, []}
use quads.Session.{rollback, safe_commit}
use quads.Dao.Notification.{
  get_notification, get_assignment_notification, set_flags, update_notification,
}
use quads.Api.Schedules.Window.{day, hour}
use quads.Tools.Notify.{
  Sent, Notifier, all_fetched, fetched, ask_current, flag, leaving, announce, setting, leaving,
}
use quads.Tools.Notify.Parts.{
  main, notify_assignments, notify_assignment, initially, expirations, ask_active, future_messages,
  notify_cloud, notify_clouds,
}
use quads.Tools.Notify.Announced.{IsOnce}
use quads.Tools.Notify.Once.{main-IsOnce}
use quads.Dao.Cloud.{cloud_by_id, get_cloud}
use quads.Api.Schedules.Current.{current_schedules}
use quads.Cli.Chosen.{all_listed, listed}
use quads.Dao.Schedule.{get_current_schedule, is_current}
use quads.Dao.Assignment.{get_assignment, get_active_cloud_assignment}
use quads.Api.Notifications.{patch_notification}
use quads.Dao.Host.{get_host}
use quads.Tests.{monday, env, db}

-- On the Monday of the booking's first week; every date that is asked for is ten days later.
abbrev notifier : Notifier
notifier = record {
  env = λ _. record env { strptime = λ _ _. some (monday + 10 * day) };
  now = λ _. monday + 8 * hour;
  delivers = λ _. true;
  posts = λ _. true;
  first_day = λ _. true;
  text_of = λ _. "2000-01-13T22:00";
  email = true;
}

abbrev start : Sent
start = record { db = db; messages = []; requests = 0 }

start-IsOnce : IsOnce start
unfolding get_notification
start-IsOnce = record { keys = (refl, tt); once = tt; flagged = tt }

-- The booking ends in less than seven days, and the second run has nothing to add.
announced_once :
    (main notifier "cloud01" start).1.messages
    ≡ (main notifier "cloud01" (main notifier "cloud01" start).1).1.messages
unfolding main all_fetched fetched get_assignment_notification notify_assignments notify_assignment
    cloud_by_id ask_current current_schedules all_listed get_current_schedule get_assignment
    get_cloud listed initially flag expirations leaving patch_notification
    get_active_cloud_assignment get_host get_notification set_flags update_notification is_current
    rollback safe_commit announce ask_active future_messages notify_cloud notify_clouds setting
announced_once = refl

main-IsOnce_example : IsOnce (main notifier "cloud01" start).1
main-IsOnce_example = main-IsOnce notifier "cloud01" start (λ _. (refl, refl)) (tt, tt) start-IsOnce
