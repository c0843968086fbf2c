-- ===== src/Api/Moves/Needed.antt =====
-- `get_moves` of src/quads/server/blueprints/moves.py: the hosts that are not in the cloud where the
-- schedule of a date has them. The hosts come in the order of the table, for the query's order by name.
pub mod Home
use quads.Base.{
  ℕ, String, ◌≡◌, ◌≢◌, ◌↔◌, refl, Bool, true, false, Option, none, some, List, [], ◌∷◌, arith, ◌==◌,
  ==_iff, All, Outcome, pass, refuse, crash, ◌>>=◌, ◌>>◌, >>=-eq-pass, require_some,
  something_wrong, if◌then◌else◌, Bool-cases, inl, inr,
}
use quads.Models.{Cloud, Assignment, Host, Schedule, Db}
use quads.Dao.Cloud.{cloud_by_id}
use quads.Dao.Assignment.{get_assignment}
use quads.Dao.Schedule.{every_current, get_current_schedule}

pub record Move : Type 0 where
  pub host : String
  pub new : String
  pub current : String

-- The key of the cloud of a schedule's assignment; an attribute of `None` raises.
abbrev assigned_cloud : Option Assignment → Outcome (Option ℕ)
assigned_cloud none = crash
assigned_cloud (some a) = pass a.cloud_id

abbrev first_cloud : Db → Host → List Schedule → Outcome (Option ℕ)
first_cloud db host [] = pass (some host.default_cloud_id)
first_cloud db host (r ∷ _) = assigned_cloud (get_assignment db r.assignment_id)

-- `_new_cloud`: that of the current schedule, or the host's default.
unfoldable pub new_cloud : Db → ℕ → Host → Outcome (Option ℕ)
new_cloud db date host =
    first_cloud db host (get_current_schedule db (record every_current { host = some host }) date)

abbrev pub same_cloud : Option ℕ → ℕ → Bool
same_cloud none id = false
same_cloud (some i) id = i == id

abbrev name_of : Option Cloud → Outcome String
name_of none = crash
name_of (some c) = pass c.name

abbrev name_of_key : Db → Option ℕ → Outcome String
name_of_key db none = crash
name_of_key db (some id) = name_of (cloud_by_id db id)

unfoldable pub moves_of : Db → ℕ → List Host → Outcome (List Move)
moves_of db date [] = pass []
moves_of db date (host ∷ hosts) = do
  target ← new_cloud db date host
  let rest = moves_of db date hosts
  if same_cloud target host.cloud_id then rest else do
    new ← name_of_key db target
    current ← name_of (cloud_by_id db host.cloud_id)
    others ← rest
    pass (record { host = host.name; new = new; current = current } ∷ others)

-- `except (IndexError, AttributeError)` answers with 500.
abbrev guarded {ℓ} : {A : Type ℓ} → Outcome A → Outcome A
guarded (pass a) = pass a
guarded (refuse status m) = refuse status m
guarded crash = refuse 500 something_wrong

unfoldable pub get_moves : Db → ℕ → Outcome (List Move)
get_moves db date = guarded (moves_of db date db.hosts)
