-- ===== src/Cli/Extend.antt =====
-- `action_extend` of src/quads/cli/cli.py
pub mod Free
pub mod Bookings
use quads.Base.{
  ℕ, suc, ◌+◌, String, Bool, true, false, not, ◌&&◌, ◌||◌, Option, none, some, List, [], ◌∷◌, ltb,
  length, map, any, is_some, present, Outcome, pass, refuse, crash, if◌then◌else◌,
}
use quads.Models.{Schedule, Db}
use quads.Dao.Notification.{Flags, no_flags}
use quads.Api.Available.{is_available}
use quads.Api.Notifications.{patch_notification}
use quads.Cli.{
  ℤ, Client, Arguments, Step, goes, ends, Ended, ◌>>=◌, ◌>>◌, within, demand, demand_some, asked,
  returned, cli_exception, uncaught, weeks_of, date_of, weeks_after, write_ends,
}
use quads.Cli.Chosen.{ScheduleView, chosen_schedules}

-- `schedule.end + timedelta(weeks=weeks) if weeks else datetime.strptime(date_arg, ...)`
unfoldable pub extended_end : Client → Option ℤ → Option String → Schedule → Step ℕ
extended_end c none date s = date_of c date
extended_end c (some w) date s = weeks_after s.end w

-- `QuadsApi.is_available` looks for "true" in the text of the whole response, which holds the host's name.
abbrev pub says_true : Client → String → Bool → Bool
says_true c hostname answer = answer || c.mentions_true hostname

-- One turn of the first loop: whether the schedule can be extended.
unfoldable pub extendable : Client → ℕ → Option ℤ → Option String → ScheduleView → Db → Step Bool
extendable c i weeks date x db = do
  end ← extended_end c weeks date x.row
  free ← asked (is_available (c.env i) x.host.name (some (c.iso x.row.end)) (some (c.iso end)) db)
  goes (says_true c x.host.name free && not (ltb end x.row.end))

-- The first loop: whether all can be.
unfoldable pub all_extendable :
    Client → ℕ → Option ℤ → Option String → List ScheduleView → Db → Step Bool
all_extendable c i weeks date [] db = goes true
all_extendable c i weeks date (x ∷ xs) db = extendable c i weeks date x db >>= λ one.
    all_extendable c (suc i) weeks date xs db >>= λ others. goes (one && others)

-- What the first part of the action comes to: the schedules to extend, and the number of weeks.
unfoldable pub extension : Client → Arguments → Db → Step (Option ℤ × List ScheduleView)
extension c args db = do
  demand (present args.weeks || present args.date) cli_exception
  demand (present args.cloud || present args.host) cli_exception
  weeks ← weeks_of c args.weeks
  schedules ← chosen_schedules c args db
  possible ← all_extendable c 2 weeks args.date schedules db
  demand possible returned
  goes (weeks, schedules)

abbrev pub cleared : Flags
cleared = record no_flags {
  one_day = some false;
  three_days = some false;
  five_days = some false;
  seven_days = some false;
}

-- `self.quads.update_notification(schedules[0].assignment.notification.id, data)`
unfoldable pub clear_notification : Client → ℕ → List ScheduleView → Db → Step (Unit {0}) × Db
clear_notification c i [] db = (ends uncaught, db)
clear_notification c i (x ∷ xs) db = elim x.notification [
  | none ↦ (ends uncaught, db)
  | some n ↦
      let (answer, d) = patch_notification (c.env i) n.id cleared db in
      (asked answer >>= (λ _. goes tt), d)
]

-- The second part, without `--check`.
unfoldable pub write_extension :
    Client → Arguments → Option ℤ → List ScheduleView → Db → Step (Unit {0}) × Db
write_extension c args weeks schedules db =
    let i = 2 + length schedules in
    let (answer, d) = clear_notification c i schedules db in
    within answer d λ _.
      write_ends c cli_exception (extended_end c weeks args.date) (suc i)
        (map (λ x. x.row) schedules) d

-- How the action ends, and the database after it.
unfoldable pub action_extend : Client → Arguments → Db → Step (Unit {0}) × Db
action_extend c args db = within (extension c args db) db λ (weeks, schedules).
    if args.check then (goes tt, db) else write_extension c args weeks schedules db
