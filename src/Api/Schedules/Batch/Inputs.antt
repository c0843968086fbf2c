-- ===== src/Api/Schedules/Batch/Inputs.antt =====
-- The inputs that a batch (src/quads/server/blueprints/schedules.py) hands to
-- `ScheduleDao.create_schedules`, and what their insertion keeps.
use quads.Base.{
  ℕ, ◌<◌, String, ◌≡◌, ◌≢◌, refl, sym, ap, ◌∙◌, inl, inr, true, Option, none, some, List, [], ◌∷◌,
  arith, All, All-append, All-map, All-both, pass, >>=-eq-pass, Option-cases,
}
use quads.Models.{Assignment, Host, Schedule, Db}
use quads.Dao.Host.{get_host}
use quads.Dao.Host.Names.{HaveNames, get_host_ne}
use quads.Dao.Schedule.{
  ScheduleInput, new_schedule, insert_schedule, insert_schedules, is_host_available,
}
use quads.Dao.Schedule.Availability.{Misses, is_host_available-IsFree}
use quads.Dao.Schedule.Bookings.{IsBooked, insert-IsBooked}
use quads.Api.Schedules.Batch.{host_problems, schedule_inputs}

-- The input is proper, and misses the rows of its host.
abbrev pub Fits : List Schedule → ScheduleInput → Type 0
Fits rows i = (i.0 < i.1) × All (λ r. r.host_id ≡ i.3.id → Misses i.0 i.1 r) rows

abbrev pub DistinctHosts : List ScheduleInput → Type 0
DistinctHosts [] = Unit
DistinctHosts (i ∷ rest) = All (λ j. j.3.id ≢ i.3.id) rest × DistinctHosts rest

-- No name stands twice in the list.
abbrev pub Distinct : List String → Type 0
Distinct [] = Unit
Distinct (n ∷ names) = All (λ m. m ≢ n) names × Distinct names

pub insert_schedules-IsBooked :
    (db : Db) (inputs : List ScheduleInput)
    → IsBooked db
    → All (Fits db.schedules) inputs
    → DistinctHosts inputs
    → IsBooked (insert_schedules db inputs)
unfolding insert_schedules
insert_schedules-IsBooked db [] h f d = h
insert_schedules-IsBooked db ((start, end, a, host) ∷ rest) h f d =
    let row = new_schedule db.next_schedule start end a host in
    insert_schedules-IsBooked (insert_schedule db start end a host) rest
      (insert-IsBooked _ row h f.0.0 f.0.1 refl refl)
      (All-map rest
        (λ j k. (
          k.0.0,
          All-append (λ r. r.host_id ≡ j.3.id → Misses j.0 j.1 r) db.schedules (row ∷ []) k.0.1
              ((λ e. absurd (k.1 (sym e))), tt),
        ))
        (All-both (Fits db.schedules) _ rest f.1 d.0))
      d.1

-- What the loop over the hosts has found of a name without a problem.
abbrev pub Bookable : (String → Option Host) → Db → ℕ → ℕ → String → Type 0
Bookable host_of db start end n =
    (h : Host) × (host_of n ≡ some h) × (is_host_available db n start end none ≡ true)

module _ (host_of : String → Option Host) (db : Db) (start end : ℕ) where
  pub host_problems-Bookable :
      (names : List String)
      → host_problems host_of db start end names ≡ []
      → All (Bookable host_of db start end) names
  unfolding host_problems
  host_problems-Bookable [] h = tt
  host_problems-Bookable (n ∷ names) h = elim (Option-cases (host_of n)) [
    | inl unknown ↦ ground arith
    | inr (host, e) ↦ ((host, e, ground arith), host_problems-Bookable names (ground arith))
  ]

  pub inputs_step :
      (a : Assignment) (n : String) (host : Host) (names : List String)
      (inputs : List ScheduleInput)
      → host_of n ≡ some host
      → schedule_inputs host_of start end a (n ∷ names) ≡ pass inputs
      → (rest : List ScheduleInput) × (schedule_inputs host_of start end a names ≡ pass rest)
        × (inputs ≡ (start, end, a, host) ∷ rest)
  unfolding schedule_inputs
  inputs_step a n host names inputs e h =
      let (rest, tail, same) =
        >>=-eq-pass (schedule_inputs host_of start end a names)
          (λ rest. pass ((start, end, a, host) ∷ rest)) (rw e at h) in
      (rest, tail, cc)

  pub inputs_nil :
      (a : Assignment) (inputs : List ScheduleInput)
      → schedule_inputs host_of start end a [] ≡ pass inputs
      → inputs ≡ []
  unfolding schedule_inputs
  inputs_nil a inputs h = cc

  -- The hosts of later inputs have other names, and so other keys.
  inputs_ne :
      (a : Assignment) (n : String) (host : Host) (names : List String)
      (inputs : List ScheduleInput)
      → HaveNames db.hosts
      → get_host db n ≡ some host
      → All (λ m. host_of m ≡ get_host db m) names
      → All (Bookable host_of db start end) names
      → All (λ m. m ≢ n) names
      → schedule_inputs host_of start end a names ≡ pass inputs
      → All (λ j. j.3.id ≢ host.id) inputs
  inputs_ne a n host [] inputs u e g b d h = rw (inputs_nil a inputs h) tt
  inputs_ne a n host (m ∷ names) inputs u e g b d h =
      let (other, found, free) = b.0 in
      let (rest, tail, same) = inputs_step a m other names inputs found h in
      rw same (
        get_host_ne db m n other host u (sym g.0 ∙ found) e d.0,
        inputs_ne a n host names rest u e g.1 b.1 d.1 tail,
      )

  -- A name without a problem gives an input that fits.
  bookable-Fits :
      (a : Assignment) (n : String) (host : Host)
      → start < end
      → get_host db n ≡ some host
      → is_host_available db n start end none ≡ true
      → Fits db.schedules (start, end, a, host)
  bookable-Fits a n host proper found free =
      let f = is_host_available-IsFree db n start end none proper free in
      let same : f.host ≡ host = cc (f.found) in
      (proper, All-map db.schedules (λ r m k. m (k ∙ ap (λ h. h.id) (sym same)) refl) f.misses)

  pub inputs-Fits :
      (a : Assignment) (names : List String) (inputs : List ScheduleInput)
      → start < end
      → HaveNames db.hosts
      → All (λ m. host_of m ≡ get_host db m) names
      → All (Bookable host_of db start end) names
      → Distinct names
      → schedule_inputs host_of start end a names ≡ pass inputs
      → All (Fits db.schedules) inputs × DistinctHosts inputs
  inputs-Fits a [] inputs proper u g b d h = rw (inputs_nil a inputs h) (tt, tt)
  inputs-Fits a (n ∷ names) inputs proper u g b d h =
      let (host, found, free) = b.0 in
      let (rest, tail, same) = inputs_step a n host names inputs found h in
      let later = inputs-Fits a names rest proper u g.1 b.1 d.1 tail in
      let known = sym g.0 ∙ found in
      rw same (
        (bookable-Fits a n host proper known free, later.0),
        (inputs_ne a n host names rest u known g.1 b.1 d.0 tail, later.1),
      )
