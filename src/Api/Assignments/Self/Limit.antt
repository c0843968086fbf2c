-- ===== src/Api/Assignments/Self/Limit.antt =====
-- The limit on a user's own assignments (src/quads/server/blueprints/assignments.py).
use mathlib.Core.Path.{subst}
use quads.Base.{
  sym, ◌∙◌, eq_iff, ℕ, ◌+◌, ◌≤◌, ◌<◌, String, ◌≡◌, Bool, true, ◌&&◌, Option, none, some, List, [],
  ◌∷◌, ◌++◌, arith, if◌then◌else◌, length, select, str_eq, pass, continue_inv, Bool-cases, inl, inr,
}
use quads.Models.{Assignment, Db}
use quads.Session.{Env}
use quads.Dao.Notification.{insert_notification}
use quads.Dao.Assignment.{NewAssignment, new_assignment, create_assignment}
use quads.Api.Schedules.Create.{User}
use quads.Api.Assignments.Create.{committed_assignment}
use quads.Api.Assignments.Self.{
  SelfRequest, username, owned_self_assignments, self_checks, refused, create_self_assignment,
}

abbrev pub WithinLimit : ℕ → String → Db → Type 0
WithinLimit limit owner db = length (owned_self_assignments db owner) ≤ limit

length-select-append_one {ℓ} :
    {A : Type ℓ} (p : A → Bool) (xs : List A) (x : A)
    → length (select p (xs ++ x ∷ [])) ≡ length (select p xs) + (if p x then 1 else 0)
length-select-append_one p [] x = ground arith
length-select-append_one p (y ∷ xs) x = ground (arith, length-select-append_one p xs x)

self_checks-allowed :
    (env : Env) (user : User) (req : SelfRequest) (db : Db) (a : NewAssignment)
    → self_checks env user req db ≡ pass a
    → (length (owned_self_assignments db (username user.email)) < env.config.ssm_user_cloud_limit)
      × (a.owner ≡ username user.email)
unfolding self_checks
self_checks-allowed env user req db a h = ground arith

committed_assignment-WithinLimit :
    (env : Env) (limit : ℕ) (owner : String) (a : NewAssignment) (db : Db)
    → WithinLimit limit owner db
    → (str_eq a.owner owner ≡ true → length (owned_self_assignments db owner) < limit)
    → WithinLimit limit owner (committed_assignment env 0 a db).1
unfolding committed_assignment create_assignment new_assignment insert_notification
    owned_self_assignments
committed_assignment-WithinLimit env limit owner a db within room =
    elim (Bool-cases (env.commits 0)) [
      | inl e ↦
          let one_more =
            length-select-append_one
              (λ (x : Assignment). x.active && x.is_self_schedule && str_eq x.owner owner)
              db.assignments (new_assignment env.config db a) in
          rw e (ground arith)
      | inr e ↦ rw e within
    ]

refused-keeps :
    (limit : ℕ) (owner : String) (r : Option Assignment × Db)
    → WithinLimit limit owner r.1
    → WithinLimit limit owner (refused r).1
refused-keeps limit owner (some a, d) h = h
refused-keeps limit owner (none, d) h = h

-- However a self-assignment ends, a user has no more active self-assignments than the limit allows, if
-- that held before and nothing else commits meanwhile.
pub create_self_assignment-WithinLimit :
    (env : Env) (user : User) (req : SelfRequest) (db : Db) (owner : String)
    → WithinLimit env.config.ssm_user_cloud_limit owner db
    → WithinLimit env.config.ssm_user_cloud_limit owner (create_self_assignment env user req db).1
unfolding create_self_assignment
create_self_assignment-WithinLimit env user req db owner within =
    let limit = env.config.ssm_user_cloud_limit in
    continue_inv (WithinLimit limit owner) (self_checks env user req db) db _ within λ a checked.
      let (room, own) = self_checks-allowed env user req db a checked in
      refused-keeps limit owner (committed_assignment env 0 a db) (
        committed_assignment-WithinLimit env limit owner a db within λ same.
          subst (λ name. length (owned_self_assignments db name) < limit)
            (sym own ∙ (eq_iff a.owner owner).0 same) room)
