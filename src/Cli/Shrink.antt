-- ===== src/Cli/Shrink.antt =====
-- `action_shrink` of src/quads/cli/cli.py
pub mod Bookings
use quads.Base.{
  ℕ, suc, ◌+◌, String, Bool, true, false, not, ◌&&◌, ◌||◌, Option, none, some, List, [], ◌∷◌, ltb,
  map, any, present, if◌then◌else◌,
}
use quads.Models.{Schedule, Db}
use quads.Api.Available.{minute}
use quads.Api.Schedules.Window.{hour}
use quads.Cli.{
  ℤ, Client, Arguments, Step, goes, ends, ◌>>=◌, ◌>>◌, within, demand, returned, cli_exception,
  uncaught, weeks_of, date_of, weeks_before, write_ends,
}
use quads.Cli.Chosen.{ScheduleView, chosen_schedules}

-- The target: a number of weeks less, or one date for all.
pub data Target : Type 0 where
  by_weeks : ℤ → Target
  to_date : ℕ → Target

-- `_date` after the options; a number of weeks that is 0 leaves it `None`, on which the comparison or
-- the rendering below raises.
unfoldable pub target_of : Client → Arguments → Step (Option Target)
target_of c args =
    if present args.weeks
    then (weeks_of c args.weeks >>= λ w. elim w [
      | none ↦ goes none
      | some n ↦ goes (some (by_weeks n))
    ])
    else if present args.date
    then (date_of c args.date >>= λ d. goes (some (to_date d)))
    else goes (some (to_date (c.now 0)))

unfoldable pub shrunk_end : Option Target → Schedule → Step ℕ
shrunk_end none s = ends uncaught
shrunk_end (some (by_weeks n)) s = weeks_before s.end n
shrunk_end (some (to_date d)) s = goes d

-- One turn of the first loop: whether the schedule can be shrunk.
abbrev pub shrinkable : Arguments → ℕ → Schedule → ℕ → Bool
shrinkable args threshold s end =
    not (ltb end s.start || ltb s.end end || (not args.now && ltb end threshold))

unfoldable pub all_shrinkable : Arguments → ℕ → Option Target → List ScheduleView → Step Bool
all_shrinkable args threshold target [] = goes true
all_shrinkable args threshold target (x ∷ xs) = shrunk_end target x.row >>= λ end.
    all_shrinkable args threshold target xs >>= λ others.
    goes (shrinkable args threshold x.row end && others)

-- What the first part of the action comes to: the target, and the schedules to shrink.
unfoldable pub shrinkage : Client → Arguments → Db → Step (Option Target × List ScheduleView)
shrinkage c args db = do
  demand (present args.weeks || args.now || present args.date) cli_exception
  demand (present args.cloud || present args.host) cli_exception
  target ← target_of c args
  schedules ← chosen_schedules c args db
  possible ← all_shrinkable args (c.now 1 + hour) target schedules
  demand possible returned
  goes (target, schedules)

-- `max(end_date, schedule.start + timedelta(minutes=1))`
unfoldable pub sent_end : Option Target → Schedule → Step ℕ
sent_end target s = shrunk_end target s >>= λ end.
    goes (if ltb end (s.start + minute) then s.start + minute else end)

-- How the action ends, and the database after it.
unfoldable pub action_shrink : Client → Arguments → Db → Step (Unit {0}) × Db
action_shrink c args db = within (shrinkage c args db) db λ (target, schedules).
    if args.check
    then (goes tt, db)
    else if c.confirms 1
    then write_ends c uncaught (sent_end target) 2 (map (λ x. x.row) schedules) db
    else (ends returned, db)
