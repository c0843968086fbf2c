-- ===== src/Api/Moves/Progress/Bookings.antt =====
-- The progress of moves (src/quads/server/dao/schedule.py) leaves the bookings as they are.
use quads.Base.{
  if◌then◌else◌, ℕ, ◌+◌, ◌≤◌, String, ◌≡◌, refl, Bool, Option, none, some, List, [], ◌∷◌, arith,
  All, amend, ◌==◌, pass, >>=-eq-pass, attribute_of, require_some, continue_inv, Bool-cases, inl,
  inr,
}
use quads.Models.{Host, MoveStatus, Schedule, Db}
use quads.Session.{Env, safe_commit}
use quads.Dao.Cloud.{cloud_by_id}
use quads.Dao.Host.{get_host}
use quads.Dao.Schedule.{get_schedule, every_current, get_current_schedule}
use quads.Dao.Schedule.Bookings.{Apart, AllApart, IsBooked}
use quads.Api.Moves.Progress.{
  ProgressRequest, parsed_status, set_progress, update_move_status, begin_move, moved, start_moves,
  some_names, start_move_batch,
}

-- The host and the times of the two rows are the same.
SameTimes : Schedule → Schedule → Type 0
SameTimes s r = (s.host_id ≡ r.host_id) × (s.start ≡ r.start) × (s.end ≡ r.end)

set_progress-SameTimes :
    (now : ℕ) (status : Option MoveStatus) (req : ProgressRequest) (r : Schedule)
    → SameTimes (set_progress now status req r) r
unfolding set_progress SameTimes
set_progress-SameTimes now none req r = (refl, refl, refl)
set_progress-SameTimes now (some s) req r = (refl, refl, refl)

begin_move-SameTimes :
    (now : ℕ) (source : String) (r : Schedule) → SameTimes (begin_move now source r) r
unfolding begin_move SameTimes
begin_move-SameTimes now source r = (refl, refl, refl)

module _ (p : Schedule → Bool) (f : Schedule → Schedule)
    (same : (r : Schedule) → SameTimes (f r) r) where
  amended : (r : Schedule) → SameTimes (if p r then f r else r) r
  unfolding SameTimes
  amended r = elim (Bool-cases (p r)) [ inl e ↦ rw e (same r) | inr e ↦ rw e (refl, refl, refl) ]

  amend-Apart :
      (s r : Schedule) (rows : List Schedule)
      → SameTimes s r
      → All (Apart r) rows
      → All (Apart s) (amend p f rows)
  unfolding SameTimes
  amend-Apart s r [] k h = tt
  amend-Apart s r (x ∷ rows) k h =
      let m = amended x in (λ e. ground (arith, h.0), amend-Apart s r rows k h.1)

  amend-AllApart : (rows : List Schedule) → AllApart rows → AllApart (amend p f rows)
  amend-AllApart [] h = tt
  amend-AllApart (r ∷ rows) h = (amend-Apart _ r rows (amended r) h.0, amend-AllApart rows h.1)

  amend-ordered :
      (rows : List Schedule)
      → All (λ r. r.start ≤ r.end) rows
      → All (λ r. r.start ≤ r.end) (amend p f rows)
  unfolding SameTimes
  amend-ordered [] h = tt
  amend-ordered (r ∷ rows) h = let m = amended r in (omega (arith, h.0), amend-ordered rows h.1)

  amend-IsBooked :
      (db : Db) → IsBooked db → IsBooked (record db { schedules = amend p f db.schedules })
  amend-IsBooked db h = record {
    apart = amend-AllApart db.schedules h.apart;
    ordered = amend-ordered db.schedules h.ordered;
    names = h.names;
  }

-- A PATCH of a move's progress, however it ends, leaves the bookings sound.
pub update_move_status-IsBooked :
    (env : Env) (id : ℕ) (req : ProgressRequest) (db : Db)
    → IsBooked db
    → IsBooked (update_move_status env id req db).1
unfolding update_move_status safe_commit
update_move_status-IsBooked env id req db h =
    continue_inv IsBooked (parsed_status req.status) db _ h λ status _.
      continue_inv IsBooked (require_some (get_schedule db id) 404 _) db _ h λ r _.
        elim (Bool-cases (env.commits 0)) [
          | inl e ↦ rw e (
              amend-IsBooked (λ x. x.id == r.id) (set_progress (env.clock 0) status req)
                (set_progress-SameTimes (env.clock 0) status req) db h)
          | inr e ↦ rw e h
        ]

moved-IsBooked :
    (env : Env) (now : ℕ) (db : Db) (result : List (String × ℕ)) (n : String) (host : Host)
    (rows : List Schedule) {step : List (String × ℕ) × Db}
    → IsBooked db
    → moved env now db result n host rows ≡ pass step
    → IsBooked step.1
moved-IsBooked env now db result n host [] {step} h e =
    let same : db ≡ step.1 = ground arith in rw same at h
moved-IsBooked env now db result n host (r ∷ rows) {step} h e =
    let (source, found, made) = >>=-eq-pass (attribute_of (cloud_by_id db host.cloud_id)) _ e in
    let same : record db {
      schedules = amend (λ x. x.id == r.id) (begin_move now source.name) db.schedules;
    }
        ≡ step.1 =
      ground arith in
    rw same at (
      amend-IsBooked (λ x. x.id == r.id) (begin_move now source.name)
        (begin_move-SameTimes now source.name) db h)

start_moves-IsBooked :
    (env : Env) (i : ℕ) (names : List String) (result : List (String × ℕ)) (db : Db)
    {done : List (String × ℕ) × Db}
    → IsBooked db
    → start_moves env i names result db ≡ pass done
    → IsBooked done.1
unfolding start_moves
start_moves-IsBooked env i [] result db {done} h e =
    let same : db ≡ done.1 = ground arith in rw same at h
start_moves-IsBooked env i (n ∷ names) result db h e =
    let (host, _, e₁) = >>=-eq-pass (attribute_of (get_host db n)) _ e in
    let current =
      get_current_schedule db (record every_current { host = some host }) (env.clock i) in
    let (step, made, rest) = >>=-eq-pass (moved env (env.clock 0) db result n host current) _ e₁ in
    start_moves-IsBooked env (i + 1) names step.0 step.1
      (moved-IsBooked env (env.clock 0) db result n host current h made) rest

-- Starting the moves of a list of hosts, however it ends, leaves the bookings sound.
pub start_move_batch-IsBooked :
    (env : Env) (hostnames : List String) (db : Db)
    → IsBooked db
    → IsBooked (start_move_batch env hostnames db).1
unfolding start_move_batch safe_commit
start_move_batch-IsBooked env hostnames db h =
    continue_inv IsBooked (some_names hostnames) db _ h λ names _.
      continue_inv IsBooked (start_moves env 1 names [] db) db _ h λ (result, work) made.
        elim (Bool-cases (env.commits 0)) [
          | inl e ↦ rw e (start_moves-IsBooked env 1 names [] db h made)
          | inr e ↦ rw e h
        ]
