-- ===== src/Api/Assignments/Create/Exclusive.antt =====
-- The route that creates an assignment (src/quads/server/blueprints/assignments.py) gives no cloud a second
-- active one.
use mathlib.Core.Path.{subst}
use quads.Base.{
  sym, ℕ, ◌≡◌, false, not, Option, none, some, arith, is_some, pass, >>=-eq-pass, argument, require,
  require_some, require-eq-pass, require_some-eq-pass, cloud_not_found, already_active_assignment,
  continue_inv, Bool-cases, inl, inr,
}
use quads.Models.{Cloud, Assignment, Db}
use quads.Session.{Env}
use quads.Dao.Cloud.{get_cloud}
use quads.Dao.Assignment.{NewAssignment, get_active_cloud_assignment}
use quads.Dao.Assignment.Exclusive.{AllExclusive, create_assignment-AllExclusive}
use quads.Api.Schedules.Batch.{vlan_known}
use quads.Api.Assignments.Create.{
  AssignmentRequest, raised, assignment_checks, committed_assignment, create_assignment_request,
}

-- What the checks settle of the cloud.
pub record IsIdle (db : Db) (a : NewAssignment) : Type 0 where
  pub cloud : Cloud
  pub found : get_cloud db a.cloud ≡ some cloud
  pub idle : is_some (get_active_cloud_assignment db cloud) ≡ false

pub committed_assignment-AllExclusive :
    (env : Env) (i : ℕ) (a : NewAssignment) (db : Db)
    → IsIdle db a
    → AllExclusive db.assignments
    → AllExclusive (committed_assignment env i a db).1.assignments
unfolding committed_assignment
committed_assignment-AllExclusive env i a db idle h = elim (Bool-cases (env.commits i)) [
  | inl e ↦ rw e (create_assignment-AllExclusive env.config db a idle.cloud idle.found idle.idle h)
  | inr e ↦ rw e h
]

raised-keeps :
    (r : Option Assignment × Db)
    → AllExclusive r.1.assignments
    → AllExclusive (raised r).1.assignments
raised-keeps (some a, d) h = h
raised-keeps (none, d) h = h

assignment_checks-IsIdle :
    (env : Env) (req : AssignmentRequest) (db : Db) {a : NewAssignment}
    → assignment_checks env req db ≡ pass a
    → IsIdle db a
unfolding assignment_checks
assignment_checks-IsIdle env req db {a} h =
    let (description, _, h₁) = >>=-eq-pass (argument req.description "description") _ h in
    let (owner, _, h₂) = >>=-eq-pass (argument req.owner "owner") _ h₁ in
    let (ticket, _, h₃) = >>=-eq-pass (argument req.ticket "ticket") _ h₂ in
    let (name, _, h₄) = >>=-eq-pass (argument req.cloud "cloud") _ h₃ in
    let (cloud, found, h₅) =
      >>=-eq-pass (require_some (get_cloud db name) 400 (cloud_not_found name)) _ h₄ in
    let (_, idle, h₆) =
      >>=-eq-pass
        (require (not (is_some (get_active_cloud_assignment db cloud))) 400
          (already_active_assignment name))
        _ h₅ in
    let (_, _, h₇) = >>=-eq-pass (vlan_known db req.vlan) _ h₆ in
    let same : a.cloud ≡ name = ground arith in
    record {
      cloud = cloud;
      found =
          subst (λ n. get_cloud db n ≡ some cloud) (sym same)
            (require_some-eq-pass (get_cloud db name) 400 (cloud_not_found name) found);
      idle = ground (arith, require-eq-pass _ 400 (already_active_assignment name) idle);
    }

-- However the route that creates an assignment ends, no cloud has two active assignments, if none had
-- before and nothing else commits meanwhile.
pub create_assignment_request-AllExclusive :
    (env : Env) (req : AssignmentRequest) (db : Db)
    → AllExclusive db.assignments
    → AllExclusive (create_assignment_request env req db).1.assignments
unfolding create_assignment_request
create_assignment_request-AllExclusive env req db h =
    continue_inv (λ (d : Db). AllExclusive d.assignments) (assignment_checks env req db) db _ h
      λ a checked. raised-keeps (committed_assignment env 0 a db) (
        committed_assignment-AllExclusive env 0 a db (assignment_checks-IsIdle env req db checked)
          h)
