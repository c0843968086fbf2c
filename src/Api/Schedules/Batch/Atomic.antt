-- ===== src/Api/Schedules/Batch/Atomic.antt =====
-- A batch (src/quads/server/blueprints/schedules.py) is stored as a whole or not at all.
use quads.Base.{
  append_assoc, append_nil, ℕ, String, ◌≡◌, refl, ◌∙◌, ap, ◌⊎◌, inl, inr, Option, List, [], ◌∷◌,
  ◌++◌, arith, length, pass, >>=-eq-pass, continue_inv, attribute_of, Bool-cases,
}
use quads.Models.{Assignment, Host, Schedule, Db}
use quads.Session.{Env}
use quads.Dao.Schedule.{ScheduleInput, new_schedule, insert_schedule, insert_schedules}
use quads.Api.Schedules.Batch.{
  BatchRequest, Batch, list_of, batch_checks, locked_assignment, locked_hosts, schedule_inputs,
  batch_rows, commit_rows, create_schedules_batch,
}
use quads.Api.Schedules.Batch.Booking.{
  batch_rows-insert, chosen_assignment-keeps, batch_checks-proper, clear_pre_quietly-keeps,
}

-- The table is the old one and `n` more rows.
abbrev HasGrown : ℕ → List Schedule → List Schedule → Type 0
HasGrown n old new = (rows : List Schedule) × (new ≡ old ++ rows) × (length rows ≡ n)

-- What a batch of `n` hosts leaves, with the commits of others that come before it: their schedules,
-- or those and one row for each host.
abbrev pub IsAllOrNothing : ℕ → Env → Db → Db → Type 0
IsAllOrNothing n env db d =
    (d.schedules ≡ db.schedules)
    ⊎ (d.schedules ≡ (env.others 0 db).schedules)
    ⊎ (d.schedules ≡ (env.others 1 (env.others 0 db)).schedules)
    ⊎ HasGrown n (env.others 1 (env.others 0 db)).schedules d.schedules

insert_schedules-HasGrown :
    (db : Db) (inputs : List ScheduleInput)
    → HasGrown (length inputs) db.schedules (insert_schedules db inputs).schedules
unfolding insert_schedules insert_schedule
insert_schedules-HasGrown db [] = ([], append_nil db.schedules, omega arith)
insert_schedules-HasGrown db ((start, end, a, h) ∷ rest) =
    let row = new_schedule db.next_schedule start end a h in
    let (rows, same, count) = insert_schedules-HasGrown (insert_schedule db start end a h) rest in
    (row ∷ rows, same ∙ append_assoc db.schedules (row ∷ []) rows, omega (arith, count))

schedule_inputs-length :
    (host_of : String → Option Host) (start end : ℕ) (a : Assignment) (names : List String)
    (inputs : List ScheduleInput)
    → schedule_inputs host_of start end a names ≡ pass inputs
    → length inputs ≡ length names
unfolding schedule_inputs
schedule_inputs-length host_of start end a [] inputs h =
    let same : inputs ≡ [] = ground arith in rw same (omega arith)
schedule_inputs-length host_of start end a (n ∷ names) inputs h =
    let (host, _, h₁) = >>=-eq-pass (attribute_of (host_of n)) _ h in
    let (rest, tail, h₂) = >>=-eq-pass (schedule_inputs host_of start end a names) _ h₁ in
    let same : inputs ≡ (start, end, a, host) ∷ rest = ground arith in
    let count = schedule_inputs-length host_of start end a names rest tail in
    rw same (omega (arith, count))

batch_rows-HasGrown :
    (env : Env) (req : BatchRequest) (batch : Batch) (existing : Option Assignment) (db : Db)
    {chosen : Assignment × Db}
    → batch_rows env req batch existing db ≡ pass chosen
    → HasGrown (length batch.hostnames) db.schedules chosen.1.schedules
batch_rows-HasGrown env req batch existing db h =
    let (picked, inputs, p, i, made) = batch_rows-insert env req batch existing db h in
    let keeps = chosen_assignment-keeps env req batch existing db p in
    let (rows, same, count) = insert_schedules-HasGrown picked.1 inputs in
    let names = schedule_inputs-length _ batch.start batch.end picked.0 batch.hostnames inputs i in
    (
      rows,
      ap (λ (d : Db). d.schedules) made ∙ same ∙ ap (λ l. l ++ rows) keeps.0,
      omega (arith, count, names),
    )

commit_rows-either :
    (env : Env) (a : Assignment) (rows db : Db)
    → ((commit_rows env a rows db).1.schedules ≡ db.schedules)
      ⊎ ((commit_rows env a rows db).1.schedules ≡ rows.schedules)
unfolding commit_rows
commit_rows-either env a rows db = elim (Bool-cases (env.commits 0)) [
  | inl done ↦ inr (rw done (clear_pre_quietly-keeps env 1 a rows).0)
  | inr failed ↦ inl (rw failed refl)
]

-- However a batch ends, the schedules are those that the others committed, or those and exactly one
-- more row for each name in its list.
pub create_schedules_batch-IsAllOrNothing :
    (env : Env) (req : BatchRequest) (names : List String) (db : Db)
    → req.hostnames ≡ list_of names
    → IsAllOrNothing (length names) env db (create_schedules_batch env req db).1
unfolding create_schedules_batch
create_schedules_batch-IsAllOrNothing env req names db asked =
    let P = IsAllOrNothing (length names) env db in
    continue_inv P (batch_checks env db req) db _ (inl refl) λ batch h.
      let d = env.others 0 db in
      let same : batch.hostnames ≡ names =
        let checked = batch_checks-proper env db req h in cc (asked, checked.1) in
      continue_inv P (locked_assignment batch d) d _ (inr (inl refl)) λ existing _.
        let d' = env.others 1 d in
        continue_inv P (locked_hosts batch d') d' _ (inr (inr (inl refl))) λ u clear.
          continue_inv P (batch_rows env req batch existing d') d' _ (inr (inr (inl refl)))
            λ (a, rows) made. elim (commit_rows-either env a rows d') [
              | inl kept ↦ inr (inr (inl kept))
              | inr stored ↦
                  let (new, grown, count) = batch_rows-HasGrown env req batch existing d' made in
                  inr (inr (inr (new, stored ∙ grown, count ∙ ap length same)))
            ]
