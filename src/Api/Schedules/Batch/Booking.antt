-- ===== src/Api/Schedules/Batch/Booking.antt =====
-- A batch of schedules (src/quads/server/blueprints/schedules.py) keeps the bookings sound if it names no
-- host twice.
use text.Mathlib.TextPositions.{eq_refl}
use quads.Base.{
  ℕ, ◌<◌, String, ◌≡◌, refl, inl, inr, true, Option, none, some, List, [], ◌∷◌, arith, All, All-map,
  pass, >>=-eq-pass, continue_inv, Bool-cases, HostProblem, attribute_of,
}
use quads.Models.{Assignment, Db}
use quads.Session.{Env, safe_commit}
use quads.Dao.Host.{get_host, get_hosts_for_update, host_map_get, contains}
use quads.Dao.Host.Names.{HaveNames, host_map_get-get_host}
use quads.Dao.Assignment.{create_assignment}
use quads.Dao.Notification.{update_notification}
use quads.Dao.Schedule.{ScheduleInput, insert_schedules, create_schedules}
use quads.Dao.Schedule.Bookings.{IsBooked, same-IsBooked}
use quads.Api.Schedules.Batch.{
  BatchRequest, Batch, list_of, host_problems, no_problems, batch_checks, locked_assignment,
  locked_hosts, schedule_inputs, chosen_assignment, batch_rows, clear_pre_quietly, commit_rows,
  create_schedules_batch,
}
use quads.Api.Schedules.Batch.Inputs.{
  Distinct, insert_schedules-IsBooked, host_problems-Bookable, inputs-Fits,
}

contains_self : (names : List String) → All (λ n. contains names n ≡ true) names
contains_self [] = tt
contains_self (n ∷ names) =
    (rw (eq_refl n), All-map names (λ m k. ground (arith, k)) (contains_self names))

pub no_problems-nil : (ps : List HostProblem) → no_problems ps ≡ pass tt → ps ≡ []
no_problems-nil [] h = refl
no_problems-nil (p ∷ ps) h = cc

pub chosen_assignment-keeps :
    (env : Env) (req : BatchRequest) (batch : Batch) (existing : Option Assignment) (db : Db)
    {chosen : Assignment × Db}
    → chosen_assignment env req batch existing db ≡ pass chosen
    → (chosen.1.schedules ≡ db.schedules) × (chosen.1.hosts ≡ db.hosts)
unfolding chosen_assignment create_assignment
chosen_assignment-keeps env req batch existing db h = ground arith

pub create_schedules-insert :
    (db : Db) (inputs : List ScheduleInput) {rows : Db}
    → create_schedules db inputs ≡ some rows
    → rows ≡ insert_schedules db inputs
unfolding create_schedules
create_schedules-insert db inputs h = ground arith

pub attribute_of-some {ℓ} :
    {A : Type ℓ} (o : Option A) {a : A} → attribute_of o ≡ pass a → o ≡ some a
attribute_of-some none h = cc
attribute_of-some (some a) h = cc

-- Where the hosts' names are unique, the locked hosts are those of their names.
locked-agree :
    (db : Db) (names : List String)
    → HaveNames db.hosts
    → All (λ n. host_map_get (get_hosts_for_update db names) n ≡ get_host db n) names
locked-agree db names u =
    All-map names (λ n c. host_map_get-get_host db names n u c) (contains_self names)

-- What the session has taken when it holds the rows of the batch.
pub batch_rows-insert :
    (env : Env) (req : BatchRequest) (batch : Batch) (existing : Option Assignment) (db : Db)
    {chosen : Assignment × Db}
    → batch_rows env req batch existing db ≡ pass chosen
    → (picked : Assignment × Db) × (inputs : List ScheduleInput) × (chosen_assignment env req batch
          existing db
        ≡ pass picked)
      × (schedule_inputs
            (host_map_get (get_hosts_for_update db batch.hostnames))
            batch.start
            batch.end
            picked.0
            batch.hostnames
          ≡ pass inputs)
      × (chosen.1 ≡ insert_schedules picked.1 inputs)
unfolding batch_rows
batch_rows-insert env req batch existing db {chosen} h =
    let host_of = host_map_get (get_hosts_for_update db batch.hostnames) in
    let (picked, p, h₁) = >>=-eq-pass (chosen_assignment env req batch existing db) _ h in
    let (inputs, i, h₂) =
      >>=-eq-pass (schedule_inputs host_of batch.start batch.end picked.0 batch.hostnames) _ h₁ in
    let (rows, r, h₃) = >>=-eq-pass (attribute_of (create_schedules picked.1 inputs)) _ h₂ in
    let made = create_schedules-insert picked.1 inputs (attribute_of-some _ r) in
    (picked, inputs, p, i, cc (h₃, made))

pub locked_hosts-clear :
    (batch : Batch) (db : Db)
    → locked_hosts batch db ≡ pass tt
    → host_problems
        (host_map_get (get_hosts_for_update db batch.hostnames))
        db
        batch.start
        batch.end
        batch.hostnames
      ≡ []
unfolding locked_hosts
locked_hosts-clear batch db h = no_problems-nil _ h

batch_rows-IsBooked :
    (env : Env) (req : BatchRequest) (batch : Batch) (existing : Option Assignment) (db : Db)
    {chosen : Assignment × Db}
    → IsBooked db
    → batch.start < batch.end
    → Distinct batch.hostnames
    → locked_hosts batch db ≡ pass tt
    → batch_rows env req batch existing db ≡ pass chosen
    → IsBooked chosen.1
batch_rows-IsBooked env req batch existing db booked proper distinct clear h =
    let host_of = host_map_get (get_hosts_for_update db batch.hostnames) in
    let (picked, inputs, p, i, made) = batch_rows-insert env req batch existing db h in
    let keeps = chosen_assignment-keeps env req batch existing db p in
    let fits =
      inputs-Fits host_of db batch.start batch.end picked.0 batch.hostnames inputs proper
        booked.names (locked-agree db batch.hostnames booked.names)
        (host_problems-Bookable host_of db batch.start batch.end batch.hostnames
          (locked_hosts-clear batch db clear))
        distinct i in
    let base = same-IsBooked picked.1 booked keeps.0 keeps.1 in
    rw made (insert_schedules-IsBooked picked.1 inputs base (rw keeps.0 fits.0) fits.1)

pub clear_pre_quietly-keeps :
    (env : Env) (i : ℕ) (a : Assignment) (db : Db)
    → let d = (clear_pre_quietly env i a db).1 in
      (d.schedules ≡ db.schedules) × (d.hosts ≡ db.hosts)
unfolding clear_pre_quietly safe_commit update_notification
clear_pre_quietly-keeps env i a db = ground arith

commit_rows-IsBooked :
    (env : Env) (a : Assignment) (rows db : Db)
    → IsBooked rows
    → IsBooked db
    → IsBooked (commit_rows env a rows db).1
unfolding commit_rows
commit_rows-IsBooked env a rows db made old =
    let keeps = clear_pre_quietly-keeps env 1 a rows in
    elim (Bool-cases (env.commits 0)) [
      | inl done ↦ rw done (same-IsBooked _ made keeps.0 keeps.1)
      | inr failed ↦ rw failed old
    ]

-- What the checks before the locks settle.
pub batch_checks-proper :
    (env : Env) (db : Db) (req : BatchRequest) {batch : Batch}
    → batch_checks env db req ≡ pass batch
    → (batch.start < batch.end) × (req.hostnames ≡ list_of batch.hostnames)
unfolding batch_checks
batch_checks-proper env db req h = ground arith

-- However a batch ends that names no host twice, the bookings stay sound, provided that they were
-- sound and that the transactions which commit while it waits for its locks keep them so.
pub create_schedules_batch-IsBooked :
    (env : Env) (req : BatchRequest) (names : List String) (db : Db)
    → req.hostnames ≡ list_of names
    → Distinct names
    → ((i : ℕ) (d : Db) → IsBooked d → IsBooked (env.others i d))
    → IsBooked db
    → IsBooked (create_schedules_batch env req db).1
unfolding create_schedules_batch
create_schedules_batch-IsBooked env req names db asked distinct others booked =
    continue_inv IsBooked (batch_checks env db req) db _ booked λ batch h.
      let d = env.others 0 db in
      let booked' = others 0 db booked in
      let checked = batch_checks-proper env db req h in
      let same : batch.hostnames ≡ names = cc (asked, checked.1) in
      continue_inv IsBooked (locked_assignment batch d) d _ booked' λ existing _.
        let d' = env.others 1 d in
        let booked'' = others 1 d booked' in
        continue_inv IsBooked (locked_hosts batch d') d' _ booked'' λ u clear.
          continue_inv IsBooked (batch_rows env req batch existing d') d' _ booked''
            λ (a, rows) made.
              commit_rows-IsBooked env a rows d'
                (batch_rows-IsBooked env req batch existing d' booked'' checked.0 (rw same distinct)
                  clear made)
                booked''
