-- ===== src/Api/Moves/Needed/Home.antt =====
-- When `get_moves` (src/quads/server/blueprints/moves.py) has nothing to move.
use quads.Base.{
  ℕ, ◌≡◌, ◌↔◌, refl, ap, ◌∙◌, true, Option, none, some, List, [], ◌∷◌, arith, ==_iff, All, pass,
  >>=-eq-pass, Bool-cases, Option-cases, List-cases, inl, inr,
}
use quads.Models.{Assignment, Host, Schedule, Db}
use quads.Dao.Assignment.{get_assignment}
use quads.Dao.Schedule.{every_current, get_current_schedule}
use quads.Api.Moves.Needed.{new_cloud, same_cloud, moves_of, get_moves}

-- The schedules of a host that are current at the date.
abbrev pub current_of : Db → ℕ → Host → List Schedule
current_of db date host = get_current_schedule db (record every_current { host = some host }) date

-- The host is in its default cloud and has no current schedule, or it is in the cloud of the assignment of
-- its first current schedule.
pub data IsHome (db : Db) (date : ℕ) (host : Host) : Type 0 where
  unscheduled :
      current_of db date host ≡ [] → host.cloud_id ≡ host.default_cloud_id → IsHome db date host
  scheduled :
      (r : Schedule) (rest : List Schedule) (a : Assignment)
      → current_of db date host ≡ r ∷ rest
      → get_assignment db r.assignment_id ≡ some a
      → a.cloud_id ≡ some host.cloud_id
      → IsHome db date host

new_cloud-IsHome :
    (db : Db) (date : ℕ) (host : Host)
    → new_cloud db date host ≡ pass (some host.cloud_id)
    → IsHome db date host
unfolding new_cloud
new_cloud-IsHome db date host h = elim (List-cases (current_of db date host)) [
  | inl e ↦ unscheduled e (ground arith)
  | inr (r, rest, e) ↦ elim (Option-cases (get_assignment db r.assignment_id)) [
    | inl missing ↦ ground arith
    | inr (a, found) ↦ scheduled r rest a e found (ground arith)
  ]
]

IsHome-new_cloud :
    (db : Db) (date : ℕ) (host : Host)
    → IsHome db date host
    → new_cloud db date host ≡ pass (some host.cloud_id)
unfolding new_cloud
IsHome-new_cloud db date host (unscheduled e h) = rw (e, h) refl
IsHome-new_cloud db date host (scheduled r rest a e found h) = rw (e, found, h) refl

same_cloud-key : (o : Option ℕ) (id : ℕ) → same_cloud o id ≡ true → o ≡ some id
same_cloud-key none id h = ground arith
same_cloud-key (some i) id h = ap some ((==_iff i id).0 h)

module _ (db : Db) (date : ℕ) where
  moves_of-IsHome :
      (hosts : List Host) → moves_of db date hosts ≡ pass [] → All (IsHome db date) hosts
  unfolding moves_of
  moves_of-IsHome [] h = tt
  moves_of-IsHome (host ∷ hosts) h =
      let (target, found, rest) = >>=-eq-pass (new_cloud db date host) _ h in
      elim (Bool-cases (same_cloud target host.cloud_id)) [
        | inl home ↦ (
          new_cloud-IsHome db date host
              (found ∙ ap pass (same_cloud-key target host.cloud_id home)),
          moves_of-IsHome hosts (rw home at rest),
        )
        | inr away ↦ ground arith
      ]

  IsHome-moves_of :
      (hosts : List Host) → All (IsHome db date) hosts → moves_of db date hosts ≡ pass []
  unfolding moves_of
  IsHome-moves_of [] h = refl
  IsHome-moves_of (host ∷ hosts) h =
      rw (IsHome-new_cloud db date host h.0, (==_iff host.cloud_id host.cloud_id).1 refl)
        (IsHome-moves_of hosts h.1)

-- Nothing is to be moved at a date exactly when every host is in the cloud of the assignment of its
-- first current schedule, or in its default cloud where it has no current schedule.
pub get_moves_empty_iff :
    (db : Db) (date : ℕ) → (get_moves db date ≡ pass []) ↔ All (IsHome db date) db.hosts
unfolding get_moves
get_moves_empty_iff db date = (
  λ h. moves_of-IsHome db date db.hosts (ground arith),
  λ h. rw (IsHome-moves_of db date db.hosts h) refl,
)
