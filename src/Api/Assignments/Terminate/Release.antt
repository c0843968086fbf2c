-- ===== src/Api/Assignments/Terminate/Release.antt =====
-- A termination (src/quads/server/blueprints/assignments.py) frees the hosts of its assignment.
use mathlib.Core.Path.{subst}
use quads.Base.{
  first_sound, sym, ◌∙◌, ap, some_same, Option-cases, ◌↔◌, suc, ℕ, ◌≤◌, ◌<◌, ◌≡◌, refl, Bool, true,
  false, ◌||◌, Option, none, some, List, [], ◌∷◌, arith, select, amend, first, ◌==◌, ==_iff,
  Bool-cases, inl, inr, str_eq, pass, continue_success,
}
use quads.Models.{Assignment, Schedule, Db}
use quads.Session.{Env}
use quads.Dao.Assignment.{get_assignment}
use quads.Dao.Schedule.{joined, is_current, get_current_schedule}
use quads.Api.Schedules.Create.{User, is_admin}
use quads.Api.Assignments.Self.{username}
use quads.Api.Assignments.Terminate.{
  end_current, terminate_checks, of_assignment, terminated, terminate_assignment,
}

-- The row of the key, after it was made inactive.
first-inactive :
    (id : ℕ) (rows : List Assignment) (a : Assignment)
    → first (λ x. x.id == id) (amend (λ x. x.id == id) (λ x. record x { active = false }) rows)
      ≡ some a
    → a.active ≡ false
first-inactive id [] a h = cc
first-inactive id (x ∷ rows) a h = ground (arith, first-inactive id rows a)

get_assignment-inactive :
    (env : Env) (id : ℕ) (db : Db) (a : Assignment)
    → get_assignment (terminated env id db) id ≡ some a
    → a.active ≡ false
unfolding get_assignment terminated
get_assignment-inactive env id db a h = first-inactive id db.assignments a h

select-none {ℓ} :
    {A : Type ℓ} (p : A → Bool) (rows : List A) → ((a : A) → p a ≡ false) → select p rows ≡ []
select-none p [] h = refl
select-none p (a ∷ rows) h = rw (h a) (select-none p rows h)

get_assignment-id : (db : Db) (id : ℕ) (a : Assignment) → get_assignment db id ≡ some a → a.id ≡ id
unfolding get_assignment
get_assignment-id db id a h = (==_iff a.id id).0 (first_sound (λ x. x.id == id) db.assignments a h)

not-joined :
    (env : Env) (id : ℕ) (db : Db) (key : ℕ) (o : Option Assignment)
    → (id == 0) ≡ false
    → get_assignment (terminated env id db) key ≡ o
    → joined (of_assignment id) o ≡ false
not-joined env id db key none positive e = refl
not-joined env id db key (some a) positive e = elim (Bool-cases (a.id == id)) [
  | inl same ↦
      let own : key ≡ id = sym (get_assignment-id _ key a e) ∙ (==_iff a.id id).0 same in
      let off =
        get_assignment-inactive env id db a
          (subst (λ k. get_assignment (terminated env id db) k ≡ some a) own e) in
      rw off
  | inr other ↦ ground arith
]

not-current :
    (env : Env) (id date : ℕ) (db : Db) (r : Schedule)
    → (id == 0) ≡ false
    → is_current (terminated env id db) (of_assignment id) date r ≡ false
unfolding is_current
not-current env id date db r positive = rw (
    not-joined env id db r.assignment_id (get_assignment (terminated env id db) r.assignment_id)
      positive refl)

-- The schedule is of the active assignment and current.
pub record IsRunning (a : Assignment) (now : ℕ) (r : Schedule) : Type 0 where
  pub active : a.active ≡ true
  pub own : r.assignment_id ≡ a.id
  pub begun : r.start ≤ now
  pub lasting : now < r.end

-- Row by row: a running schedule ends at a time that the clock showed, and any other is as it was.
abbrev pub AreEnded : Env → Assignment → List Schedule → List Schedule → Type 0
AreEnded env a [] [] = Unit
AreEnded env a [] (s ∷ new) = ⊥
AreEnded env a (r ∷ old) [] = ⊥
AreEnded env a (r ∷ old) (s ∷ new) =
    (IsRunning a (env.clock 0) r → (i : ℕ) × (s ≡ record r { end = env.clock i }))
    × (¬ IsRunning a (env.clock 0) r → s ≡ r)
    × AreEnded env a old new

IsRunning-iff :
    (db : Db) (id now : ℕ) (a : Assignment) (r : Schedule)
    → (id == 0) ≡ false
    → get_assignment db id ≡ some a
    → (is_current db (of_assignment id) now r ≡ true) ↔ IsRunning a now r
unfolding is_current
IsRunning-iff db id now a r positive found =
    let key : a.id ≡ id = get_assignment-id db id a found in
    (
      λ h. elim (Option-cases (get_assignment db r.assignment_id)) [
        | inl missing ↦ ground arith
        | inr (b, there) ↦
            let own : b.id ≡ id = ground (arith, ==_iff b.id id) in
            let named : r.assignment_id ≡ id =
              sym (get_assignment-id db r.assignment_id b there) ∙ own in
            let same : b ≡ a = some_same (sym there ∙ ap (get_assignment db) named ∙ found) in
            let on : b.active ≡ true = ground arith in
            record {
              active = ap (λ x. x.active) (sym same) ∙ on;
              own = named ∙ sym key;
              begun = ground arith;
              lasting = ground arith;
            }
      ],
      λ h.
          let there : get_assignment db r.assignment_id ≡ some a =
            ap (get_assignment db) (h.own ∙ key) ∙ found in
          let on = h.active in
          let begun = h.begun in
          let lasting = h.lasting in rw there (ground (arith, (==_iff a.id id).1 key)),
    )

end_current-AreEnded :
    (env : Env) (a : Assignment) (current : Schedule → Bool)
    → ((r : Schedule) → (current r ≡ true) ↔ IsRunning a (env.clock 0) r)
    → (i : ℕ) (rows : List Schedule) → AreEnded env a rows (end_current env current i rows)
unfolding end_current
end_current-AreEnded env a current iff i [] = tt
end_current-AreEnded env a current iff i (r ∷ rows) =
    let kept = end_current-AreEnded env a current iff i rows in
    let ended = end_current-AreEnded env a current iff (suc i) rows in
    elim (Bool-cases (current r)) [
      | inl e ↦ rw e (λ h. (i, refl), λ off. absurd (off ((iff r).0 e)), ended)
      | inr e ↦ rw e (λ h. (let on = (iff r).1 h in cc), λ off. refl, kept)
    ]

-- What a termination that was answered with success and whose commit went through has done.
pub record IsReleased (env : Env) (user : User) (id : ℕ) (db d : Db) : Type 0 where
  pub assignment : Assignment
  pub found : get_assignment db id ≡ some assignment
  pub allowed : (is_admin user || str_eq (username user.email) assignment.owner) ≡ true
  pub inactive : (a : Assignment) → get_assignment d id ≡ some a → a.active ≡ false
  pub ended : AreEnded env assignment db.schedules d.schedules
  pub free : (date : ℕ) → get_current_schedule d (of_assignment id) date ≡ []

terminate_checks-allowed :
    (user : User) (id : ℕ) (db : Db) (a : Assignment)
    → terminate_checks user id db ≡ pass a
    → (get_assignment db id ≡ some a)
      × ((is_admin user || str_eq (username user.email) a.owner) ≡ true)
unfolding terminate_checks
terminate_checks-allowed user id db a h = ground arith

-- A termination that is answered with success, and whose commit goes through, was asked for by an
-- administrator or the owner, and leaves the assignment inactive and without a current schedule at
-- any date; each of its schedules that was current ends at a time of the clock, and every other schedule is
-- as it was. The keys start at 1.
pub terminate_assignment-IsReleased :
    (env : Env) (user : User) (id : ℕ) (db : Db)
    → (id == 0) ≡ false
    → env.commits 0 ≡ true
    → (terminate_assignment env user id db).0 ≡ pass tt
    → IsReleased env user id db (terminate_assignment env user id db).1
unfolding terminate_assignment get_current_schedule terminated
terminate_assignment-IsReleased env user id db positive stored h =
    continue_success (IsReleased env user id db) (terminate_checks user id db) db _ h λ a checked _.
      let (found, allowed) = terminate_checks-allowed user id db a checked in
      rw stored (record {
        assignment = a;
        found = found;
        allowed = allowed;
        inactive = get_assignment-inactive env id db;
        ended =
            end_current-AreEnded env a (is_current db (of_assignment id) (env.clock 0))
              (λ r. IsRunning-iff db id (env.clock 0) a r positive found) 1 db.schedules;
        free = λ date. select-none _ _ (λ r. not-current env id date db r positive);
      })
