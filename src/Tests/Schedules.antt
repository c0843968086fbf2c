-- ===== src/Tests/Schedules.antt =====
-- Runs of the code of schedules.
use quads.Base.{
  ◌+◌, ◌*◌, ◌/◌, ◌≤◌, String, ◌≡◌, ◌↔◌, refl, true, none, some, List, [], ◌∷◌, arith, length,
  refuse, deadline_passed, is_pass,
}
use quads.Dao.Cloud.{get_cloud}
use quads.Dao.Host.{get_host, get_hosts_for_update}
use quads.Dao.Assignment.{get_active_cloud_assignment}
use quads.Dao.Notification.{get_assignment_notification, update_notification}
use quads.Dao.Schedule.{is_host_available, ScheduleChange, new_schedule, create_schedules}
use quads.Dao.Schedule.Availability.{IsFree, Misses, is_host_available_iff}
use quads.Dao.Schedule.Bookings.{IsBooked}
use quads.Api.Schedules.Window.{
  day, hour, weekday, day_number, parse_datetime_with_now, self_end, days_until, next_deadline,
  self_window,
}
use quads.Api.Schedules.Window.Bounds.{IsGranted, self_window-IsGranted, self_window-refused_iff}
use quads.Api.Schedules.Create.{
  ScheduleRequest, request_checks, cloud_checks, parsed_dates, host_checks, create_schedule_row,
  clear_pre, store_schedule, create_schedule,
}
use quads.Api.Schedules.Create.Booking.{create_schedule-IsBooked}
use quads.Api.Schedules.Create.Stored.{HasStored, create_schedule-HasStored}
use quads.Api.Schedules.Batch.{
  BatchRequest, list_of, batch_checks, assignment_details, assignment_rule, host_problems,
  locked_assignment, locked_hosts, batch_rows, chosen_assignment, schedule_inputs, commit_rows,
  clear_pre_quietly, create_schedules_batch,
}
use quads.Api.Schedules.Batch.Booking.{create_schedules_batch-IsBooked}
use quads.Api.Schedules.Batch.Atomic.{IsAllOrNothing, create_schedules_batch-IsAllOrNothing}
use quads.Api.Schedules.Batch.Duplicates.{IsDoubled, create_schedules_batch_twice}
use quads.Api.Schedules.Update.{UpdateRequest}
use quads.Tests.{assignment, host, monday, config, env, db, admin, db-IsBooked, str_differs}

abbrev request : ScheduleRequest
request = record {
  hostname = some "host02";
  cloud = some "cloud02";
  start = some "2000-01-10 00:00";
  end = some "2000-01-12 00:00";
}

-- The host is free from the end of its first booking on.
create_schedule_stores : length ((create_schedule env admin request db).1.schedules) ≡ 2
unfolding create_schedule request_checks get_cloud get_host cloud_checks get_active_cloud_assignment
    host_checks get_hosts_for_update parsed_dates parse_datetime_with_now is_host_available
    store_schedule create_schedule_row clear_pre get_assignment_notification update_notification
create_schedule_stores = refl

create_schedule-IsBooked_example : IsBooked (create_schedule env admin request db).1
create_schedule-IsBooked_example =
    create_schedule-IsBooked env admin request db (λ _ _ h. h) db-IsBooked

abbrev batch : List String → BatchRequest
batch names = record {
  cloud = some "cloud02";
  hostnames = list_of names;
  start = some "2000-01-10 00:00";
  end = some "2000-01-12 00:00";
  description = none;
  owner = none;
  ticket = none;
  vlan = none;
  qinq = none;
  wipe = none;
  ccuser = none;
}

abbrev both : List String
both = "host01" ∷ "host02" ∷ []

create_schedules_batch_stores :
    length ((create_schedules_batch env (batch both) db).1.schedules) ≡ 3
unfolding create_schedules_batch batch_checks get_cloud assignment_details assignment_rule
    get_active_cloud_assignment host_problems get_host is_host_available parse_datetime_with_now
    locked_assignment locked_hosts get_hosts_for_update batch_rows chosen_assignment schedule_inputs
    create_schedules commit_rows clear_pre_quietly get_assignment_notification update_notification
create_schedules_batch_stores = refl

create_schedules_batch-IsBooked_example : IsBooked (create_schedules_batch env (batch both) db).1
create_schedules_batch-IsBooked_example =
    create_schedules_batch-IsBooked env (batch both) both db refl
      ((str_differs "host02" "host01" refl, tt), (tt, tt)) (λ _ _ h. h) db-IsBooked

create_schedules_batch-IsAllOrNothing_example :
    IsAllOrNothing 2 env db (create_schedules_batch env (batch both) db).1
create_schedules_batch-IsAllOrNothing_example =
    create_schedules_batch-IsAllOrNothing env (batch both) both db refl

twice_accepted :
    is_pass ((create_schedules_batch env (batch ("host01" ∷ "host01" ∷ [])) db).0) ≡ true
unfolding create_schedules_batch batch_checks get_cloud assignment_details assignment_rule
    get_active_cloud_assignment host_problems get_host is_host_available parse_datetime_with_now
    locked_assignment locked_hosts get_hosts_for_update batch_rows chosen_assignment schedule_inputs
    create_schedules commit_rows clear_pre_quietly get_assignment_notification update_notification
twice_accepted = refl

is_host_available_iff_example :
    (is_host_available db "host02" monday (monday + day) none ≡ true)
    ↔ IsFree (Misses monday (monday + day)) db "host02" none
is_host_available_iff_example =
    is_host_available_iff db "host02" monday (monday + day) none (omega arith) (omega arith, tt)

self_window-IsGranted_example :
    IsGranted config (monday + 8 * hour) (monday + 8 * hour, monday + 5 * day + 8 * hour)
unfolding self_window day_number self_end days_until next_deadline
self_window-IsGranted_example = self_window-IsGranted config (monday + 8 * hour) refl

self_window-refused_iff_example :
    (self_window config (monday + 6 * day + 22 * hour) ≡ refuse 400 deadline_passed) ↔ (
      (weekday (monday + 6 * day + 22 * hour) ≡ 6)
      × ((monday + 6 * day + 22 * hour) / day * day + 21 * hour ≤ monday + 6 * day + 22 * hour))
unfolding day_number
self_window-refused_iff_example =
    self_window-refused_iff config (monday + 6 * day + 22 * hour) 6 refl (omega arith) (omega arith)

-- The end is moved.
abbrev longer : ScheduleChange
longer = record {
  start = none;
  end = some (monday + 9 * day);
  build_start = none;
  build_end = none;
}

abbrev patch : UpdateRequest
patch = record {
  hostname = none;
  cloud = none;
  start = none;
  end = some "2000-01-12T00:00";
  build_start = none;
  build_end = none;
}

create_schedules_batch_twice_example :
    IsDoubled db "host01"
      (create_schedules_batch env (batch ("host01" ∷ "host01" ∷ [])) db).1.schedules
unfolding create_schedules_batch batch_checks get_cloud assignment_details assignment_rule
    get_active_cloud_assignment host_problems get_host is_host_available parse_datetime_with_now
    locked_assignment locked_hosts get_hosts_for_update batch_rows chosen_assignment schedule_inputs
    create_schedules commit_rows clear_pre_quietly get_assignment_notification update_notification
create_schedules_batch_twice_example =
    create_schedules_batch_twice env (batch ("host01" ∷ "host01" ∷ [])) "host01" db refl refl

create_schedule-HasStored_example :
    HasStored env request db
      (new_schedule 2 (monday + 7 * day) (monday + 9 * day) assignment (host 2 "host02" 1))
      (create_schedule env admin request db).1
unfolding create_schedule request_checks get_cloud get_host cloud_checks get_active_cloud_assignment
    host_checks get_hosts_for_update parsed_dates parse_datetime_with_now is_host_available
    store_schedule create_schedule_row clear_pre get_assignment_notification update_notification
create_schedule-HasStored_example = create_schedule-HasStored env admin request db refl
