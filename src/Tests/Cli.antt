-- ===== src/Tests/Cli.antt =====
-- Runs of the code of src/quads/cli/cli.py, with a text for each date: the digits of its minute in base two.
use Prim.Native.Char.{code}
use quads.Base.{
  ℕ, zero, suc, ◌+◌, ◌-◌, ◌*◌, ◌/◌, ◌%◌, ◌≤◌, String, ◌≡◌, refl, ap, inl, inr, true, false, none,
  some, [], ◌∷◌, arith, ◌==◌, present, Bool-cases,
}
use quads.Session.{rollback, safe_commit}
use quads.Api.Available.{minute, is_available, asked_interval}
use quads.Api.Schedules.Window.{day, hour}
use quads.Cli.{pos, Client, Arguments, weeks_of, weeks_after, date_of, write_ends, weeks_before}
use quads.Cli.Extend.{
  extension, action_extend, all_extendable, extendable, extended_end, clear_notification,
  write_extension,
}
use quads.Cli.Shrink.{shrinkage, action_shrink, target_of, all_shrinkable, shrunk_end, sent_end}
use quads.Dao.Schedule.{
  get_schedule, get_current_schedule, is_host_available, change_schedule, get_future_schedules,
  is_current, write_schedule,
}
use quads.Dao.Schedule.Bookings.{IsBooked}
use quads.Cli.Chosen.{chosen_schedules, all_listed, listed, current_or_future, agreed}
use quads.Cli.Resized.{AreProper, HasResized}
use quads.Cli.Resized.Writes.{AreRead}
use quads.Cli.Extend.Bookings.{action_extend-IsBooked}
use quads.Cli.Shrink.Bookings.{NotLater, action_shrink-IsBooked}
use quads.Dao.Host.{get_host}
use quads.Dao.Assignment.{get_assignment}
use quads.Dao.Notification.{
  get_assignment_notification, get_notification, set_flags, update_notification,
}
use quads.Api.Notifications.{patch_notification}
use quads.Api.Schedules.Create.{clear_pre}
use quads.Api.Schedules.Update.{change_checks, parsed, update_checks, update_row, update_schedule}
use quads.Dao.Cloud.{get_cloud}
use quads.Api.Schedules.Current.{current_schedules}
use quads.Tests.{monday, env, db, db-IsBooked, schedule}

pub digits : ℕ → ℕ → String
digits zero n = "0"
digits (suc k) n = elim (n == 0) [
  | true ↦ "0"
  | false ↦ elim (n % 2 == 0) [
    | true ↦ String.◌∷◌ "0" (digits k (n / 2))
    | false ↦ String.◌∷◌ "1" (digits k (n / 2))
  ]
]

pub number : String → ℕ
number String.[] = 0
number (String.◌∷◌ c t) = code c - 48 + 2 * number t

number-digits : (k n : ℕ) → n ≤ k → number (digits k n) ≡ n
unfolding digits number
number-digits zero n h = omega arith
number-digits (suc k) n h = elim (Bool-cases (n == 0)) [
  | inl t ↦ rw (digits, t) (ground arith)
  | inr f ↦
      let rest = number-digits k (n / 2) (ground arith) in
      elim (Bool-cases (n % 2 == 0)) [
        | inl even ↦ rw (digits, f, even) (ground (arith, rest))
        | inr odd ↦ rw (digits, f, odd) (ground (arith, rest))
      ]
]

digits_given : (k n : ℕ) → present (some (digits k n)) ≡ true
unfolding digits
digits_given zero n = refl
digits_given (suc k) n = elim (Bool-cases (n == 0)) [
  | inl t ↦ rw (digits, t) refl
  | inr f ↦ elim (Bool-cases (n % 2 == 0)) [
    | inl even ↦ rw (digits, f, even) refl
    | inr odd ↦ rw (digits, f, odd) refl
  ]
]

-- The second host has one more week of its booking left, on a Monday at eight.
abbrev pub client : Client
client = record {
  env = λ _. record env { strptime = λ _ text. some (number text * minute) };
  now = λ _. monday + 8 * hour;
  confirms = λ _. true;
  int = λ _. some (pos 1);
  strptime = λ _ _. some (monday + 2 * day);
  iso = λ d. digits (d / minute) (d / minute);
  mentions_true = λ _. false;
}

abbrev pub one_week : Arguments
one_week = record {
  weeks = some "1";
  date = none;
  now = false;
  cloud = none;
  host = some "host02";
  check = false;
}

pub client-AreRead : AreRead client
client-AreRead = record {
  given = λ d. digits_given (d / minute) (d / minute);
  read = λ _ d. ap (λ n. some (n * minute)) (number-digits (d / minute) (d / minute) (omega arith));
}

pub db-AreProper : AreProper db
unfolding get_schedule
db-AreProper = ((refl, omega arith), tt)

-- The booking ends a week later.
extended :
    (action_extend client one_week db).1.schedules
    ≡ record schedule { end = monday + 14 * day } ∷ []
unfolding action_extend extension chosen_schedules weeks_of get_host all_listed get_current_schedule
    get_assignment listed get_assignment_notification current_or_future all_extendable extendable
    extended_end weeks_after is_available asked_interval digits is_host_available number
    patch_notification clear_pre change_checks parsed update_checks update_row update_schedule
    agreed clear_notification write_extension date_of write_ends get_cloud get_notification
    set_flags update_notification change_schedule get_future_schedules get_schedule is_current
    write_schedule rollback safe_commit current_schedules
extended = refl

action_extend-IsBooked_example :
    (let d = (action_extend client one_week db).1 in IsBooked d × AreProper d)
action_extend-IsBooked_example =
    action_extend-IsBooked client one_week db client-AreRead db-AreProper (refl, (refl, tt))
      db-IsBooked

-- To Wednesday.
abbrev to_wednesday : Arguments
to_wednesday = record one_week { weeks = none; date = some "2000-01-05 00:00" }

shrunk :
    (action_shrink client to_wednesday db).1.schedules
    ≡ record schedule { end = monday + 2 * day } ∷ []
unfolding action_shrink shrinkage target_of date_of chosen_schedules get_host all_listed
    get_current_schedule get_assignment listed get_assignment_notification current_or_future
    all_shrinkable shrunk_end write_ends sent_end update_schedule update_checks get_schedule
    clear_pre change_checks parsed update_row agreed weeks_before weeks_of get_cloud set_flags
    update_notification change_schedule get_future_schedules is_current write_schedule rollback
    safe_commit digits number current_schedules
shrunk = refl

action_shrink-IsBooked_example :
    (let d = (action_shrink client to_wednesday db).1 in
      HasResized NotLater db d.schedules d.hosts × IsBooked d × AreProper d)
action_shrink-IsBooked_example =
    action_shrink-IsBooked client to_wednesday db client-AreRead db-AreProper (omega arith, tt)
      db-IsBooked
