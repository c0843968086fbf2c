-- ===== src/Tests.antt =====
-- A small database, configuration and requests on which the other modules here run the code.
mod Schedules
mod Assignments
mod Moves
mod Access
mod Serving
mod Release
mod Validation
mod Login
mod Available
mod Cli
mod Notify
mod Helpers
mod Dispatch
use quads.Base.{
  eq_iff, refl, ◌≢◌, ℕ, ◌+◌, ◌*◌, String, ◌≡◌, Bool, true, false, ◌||◌, Option, none, some, List,
  [], ◌∷◌, arith, All, str_eq, if◌then◌else◌,
}
use quads.Models.{Cloud, Vlan, Notification, Assignment, Host, Schedule, Db}
use quads.Session.{Config, Env}
use quads.Dao.Schedule.Bookings.{IsBooked}
use quads.Api.Schedules.Window.{day, hour}
use quads.Api.Schedules.Create.{User}

-- Monday, the 3rd of January 2000
abbrev pub monday : ℕ
monday = 730121 * day

abbrev pub config : Config
config = record {
  spare_pool_name = "cloud01";
  ssm_enable = true;
  ssm_host_limit = 10;
  ssm_user_cloud_limit = 1;
  ssm_deadline_day = "sunday";
  ssm_deadline_hour = 21;
  ssm_default_lifetime = 5 * day;
  ssm_jira_create_ticket = false;
  ssm_description_max = some 8;
  ssm_description_prefix = "self";
  default_os = "RHEL 9";
  default_boot_order = "director";
}

-- The day of the month that a date names, as a number of days since that Monday.
abbrev day_of : String → Option ℕ
day_of text =
    if str_eq text "2000-01-10 00:00"
    then some 7
    else if str_eq text "2000-01-12 00:00" || str_eq text "2000-01-12T00:00"
    then some 9
    else none

abbrev dated : Option ℕ → Option ℕ
dated none = none
dated (some n) = some (monday + n * day)

-- A request on that Monday at eight, alone, whose commits succeed.
abbrev pub env : Env
env = record {
  config = config;
  clock = λ _. monday + 8 * hour;
  commits = λ _. true;
  others = λ _ d. d;
  integrity = λ _. false;
  strptime = λ _ text. dated (day_of text);
  lower = λ t. t;
  split = λ _ t. t ∷ [];
  strip = λ t. t;
  ticket_created = none;
}

abbrev pub host : ℕ → String → ℕ → Host
host id name cloud_id = record {
  id = id;
  name = name;
  model = "r640";
  host_type = "scalelab";
  build = false;
  validated = true;
  switch_config_applied = true;
  broken = false;
  retired = false;
  can_self_schedule = true;
  cloud_id = cloud_id;
  default_cloud_id = 1;
}

abbrev pub assignment : Assignment
assignment = record {
  id = 1;
  active = true;
  provisioned = true;
  validated = true;
  description = "storage";
  owner = "ann";
  ticket = "10";
  qinq = some 0;
  wipe = true;
  ccuser = [];
  is_self_schedule = false;
  ostype = "RHEL 9";
  boot_order = "director";
  cloud_id = some 2;
  vlan_id = none;
}

-- The second host is booked for the first week.
abbrev pub schedule : Schedule
schedule = record {
  id = 1;
  start = monday;
  end = monday + 7 * day;
  build_start = none;
  build_end = none;
  move_status = none;
  move_message = none;
  move_error = none;
  move_source_cloud = none;
  assignment_id = 1;
  host_id = 2;
}

abbrev notification : Notification
notification = record {
  id = 1;
  fail = false;
  success = false;
  initial = true;
  pre_initial = false;
  pre = true;
  one_day = false;
  three_days = false;
  five_days = false;
  seven_days = false;
  assignment_id = 1;
}

abbrev pub cloud : ℕ → String → Cloud
cloud id name = record { id = id; name = name; last_redefined = 0 }

abbrev pub db : Db
db = record {
  clouds = cloud 1 "cloud01" ∷ cloud 2 "cloud02" ∷ cloud 3 "cloud03" ∷ [];
  vlans = [];
  notifications = notification ∷ [];
  assignments = assignment ∷ [];
  hosts = host 1 "host01" 1 ∷ host 2 "host02" 1 ∷ [];
  schedules = schedule ∷ [];
  next_cloud = 4;
  next_notification = 2;
  next_assignment = 2;
  next_host = 3;
  next_schedule = 2;
}

abbrev pub admin : User
admin = record { email = "root@lab"; roles = "admin" ∷ [] }

abbrev pub user : User
user = record { email = "ann@lab"; roles = "user" ∷ [] }

pub str_differs : (s t : String) → str_eq s t ≡ false → s ≢ t
str_differs s t unequal e = let yes = (eq_iff s t).1 e in cc

pub db-IsBooked : IsBooked db
db-IsBooked = record {
  apart = (tt, tt);
  ordered = (omega arith, tt);
  names = (((str_differs "host02" "host01" refl, ground arith), tt), (tt, tt));
}
