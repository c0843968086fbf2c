-- ===== src/Tests/Serving.antt =====
-- Runs of several requests, and of the switch plugins.
use quads.Base.{◌≡◌, refl, if◌then◌else◌, Bool, true, false, some, List, [], ◌∷◌}
use quads.Models.{Db}
use quads.Dao.Schedule.Bookings.{IsBooked}
use quads.Api.Schedules.Create.{ScheduleRequest, create_schedule}
use quads.Api.Moves.Progress.{start_move_batch}
use quads.Api.Serving.{Reaches, idle, next, posts, moves, extends}
use quads.Api.Serving.Bookings.{Reaches-IsBooked}
use quads.Plugins.Switch.{Answer, affirmed, raised, until_failure, configure}
use quads.Cli.Extend.{action_extend}
use quads.Tests.Cli.{client, one_week, client-AreRead, db-AreProper}
use quads.Tests.{env, db, admin, db-IsBooked}

abbrev request : ScheduleRequest
request = record {
  hostname = some "host01";
  cloud = some "cloud02";
  start = some "2000-01-10 00:00";
  end = some "2000-01-12 00:00";
}

-- The booking of a host becomes a week longer.
abbrev extended : Db
extended = (action_extend client one_week db).1

abbrev booked : Db
booked = (create_schedule env admin request extended).1

-- Then another host is booked, and the move of the first begins.
abbrev requests : Reaches db (start_move_batch env ("host02" ∷ []) booked).1
requests =
    next
      (next
        (next (idle db) (extends client one_week db client-AreRead db-AreProper (refl, (refl, tt))))
        (posts env admin request extended (λ _ _ h. h)))
      (moves env ("host02" ∷ []) booked)

Reaches-IsBooked_example : IsBooked (start_move_batch env ("host02" ∷ []) booked).1
Reaches-IsBooked_example = Reaches-IsBooked requests db-IsBooked

-- The second plugin raises: the third is not configured.
abbrev answer : Bool → Answer
answer b = if b then affirmed else raised

abbrev switches : List Bool
switches = false ∷ true ∷ []

configure_stops : configure answer (true ∷ switches) ≡ (false, true ∷ false ∷ [])
unfolding configure until_failure
configure_stops = refl
