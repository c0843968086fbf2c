-- ===== src/Tests/Available.antt =====
-- GET /available (src/quads/server/blueprints/available.py) on the small database.
use quads.Base.{◌+◌, ◌*◌, ◌≡◌, ◌↔◌, refl, true, none, some, [], ◌∷◌, arith, pass}
use quads.Dao.Schedule.Availability.{Misses, IsFree}
use quads.Api.Available.{AvailableRequest, asked_interval, available_names, get_available}
use quads.Api.Available.Free.{is_listed, get_available_iff}
use quads.Api.Schedules.Window.{day, hour}
use quads.Dao.Host.{get_host}
use quads.Dao.Schedule.{is_host_available}
use quads.Tests.{monday, env, db}

-- From now to the Wednesday of the next week.
abbrev request : AvailableRequest
request = record { cloud = none; start = none; end = some "2000-01-12T00:00" }

listed : get_available env request db ≡ pass ("host01" ∷ [])
unfolding get_available asked_interval available_names is_host_available get_host
listed = refl

get_available_iff_example :
    (is_listed "host02" ("host01" ∷ []) ≡ true)
    ↔ IsFree (Misses (monday + 8 * hour) (monday + 9 * day)) db "host02" none
unfolding asked_interval
get_available_iff_example =
    get_available_iff env request db ("host01" ∷ []) (monday + 8 * hour) (monday + 9 * day) "host02"
      refl refl (omega arith) (omega arith, tt) listed
