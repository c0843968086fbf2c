-- ===== src/Dao/Cloud.antt =====
-- src/quads/server/dao/cloud.py
pub mod Names
use quads.Base.{
  ℕ, ◌+◌, String, Bool, true, false, not, ◌&&◌, Option, none, some, List, [], ◌∷◌, ◌++◌, Outcome,
  pass, refuse, already_exists, cloud_not_found, str_eq, ◌==◌, first, select, remove, any, amend,
  if◌then◌else◌,
}
use quads.Models.{Cloud, Assignment, Db}

abbrev pub refers_to : ℕ → Option ℕ → Bool
refers_to id none = false
refers_to id (some i) = i == id

unfoldable pub get_cloud : Db → String → Option Cloud
get_cloud db name = first (λ c. str_eq c.name name) db.clouds

unfoldable pub cloud_by_id : Db → ℕ → Option Cloud
cloud_by_id db id = first (λ c. c.id == id) db.clouds

-- The clouds with no active assignment, without the spare pool, in the table's order for the query's
-- order by name.
unfoldable pub get_free_clouds : String → Db → List Cloud
get_free_clouds spare db =
    select
      (λ c.
        not (any (λ a. a.active && refers_to c.id a.cloud_id) db.assignments)
        && not (str_eq c.name spare))
      db.clouds
