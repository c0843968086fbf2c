-- ===== src/Plugins/Release/Seen.antt =====
-- What is seen of a move (src/quads/plugins/builtin/release/standard.py) outside: the statuses that it
-- reports, what it makes of its host's record, and whether the tenant's user is enabled. The work on the
-- hardware leaves all of it as it is.
use quads.Base.{ℕ, ◌<◌, String, Bool, true, false, Option, none, some, List, [], ◌∷◌}
use quads.Models.{MoveStatus, pending, failed}
use quads.Models.Stages.{value, stage_of}
use quads.Plugins.Release.Calls.{
  HostChange, Call, enable_user, disable_user, update_move_status, report_failed, update_host,
}
use quads.Plugins.Switch.{affirmed, other}
use quads.Programs.{Event, called}

-- `host` is the last update of the host's record that went through, `reports` the statuses reported, the
-- newest first and `failed` among them, `failures` the error messages reported, and `gate` the last command
-- that was sent about the tenant's user, whatever it was answered: true to enable it, false to disable it.
pub record Seen : Type 0 where
  pub host : Option HostChange
  pub reports : List MoveStatus
  pub failures : List String
  pub gate : Option Bool

abbrev pub unseen : Seen
unseen = record { host = none; reports = []; failures = []; gate = none }

unfoldable pub see : Seen → Event Call → Seen
see s (called (update_host c) affirmed) = record s { host = some c }
see s (called (update_host c) other) = record s { host = some c }
see s (called (update_move_status status) v) = record s { reports = status ∷ s.reports }
see s (called (report_failed error_message) v) = record s {
  reports = failed ∷ s.reports;
  failures = error_message ∷ s.failures;
}
see s (called enable_user v) = record s { gate = some true }
see s (called disable_user v) = record s { gate = some false }
see s _ = s

-- The stage of a move that has been started.
abbrev pub begun : ℕ
begun = stage_of (value pending)

-- The stage of the newest report, or of the start.
abbrev pub top : List MoveStatus → ℕ
top [] = begun
top (status ∷ _) = stage_of (value status)

-- Each report is of a later stage than the one before it, the first of a later one than the start.
unfoldable pub IsClimbing : List MoveStatus → Type 0
IsClimbing [] = Unit
IsClimbing (status ∷ reports) = (top reports < stage_of (value status)) × IsClimbing reports
