-- ===== src/Api/Assignments/Self/Exclusive.antt =====
-- The cloud of a self-assignment (src/quads/server/blueprints/assignments.py): one that is not in use.
use mathlib.Core.Path.{subst}
use quads.Base.{
  String, ◌≡◌, ◌≢◌, refl, sym, ◌∙◌, Bool, true, false, not, ◌&&◌, Option, none, some, List, [], ◌∷◌,
  arith, any, first, first_sound, select, is_some, present, str_eq, eq_iff, pass, >>=-eq-pass,
  require, require-eq-pass, require_some, require_some-eq-pass, argument, continue_inv, Bool-cases,
  inl, inr, cloud_reserved, cloud_not_found, already_active_assignment, no_free_clouds,
}
use quads.Models.{Cloud, Assignment, Db}
use quads.Session.{Config, Env}
use quads.Dao.Cloud.{get_cloud, get_free_clouds, refers_to}
use quads.Dao.Cloud.Names.{HaveCloudNames, get_cloud-first}
use quads.Dao.Assignment.{NewAssignment, is_active_on, get_active_cloud_assignment}
use quads.Dao.Assignment.Exclusive.{AllExclusive}
use quads.Api.Schedules.Create.{User}
use quads.Api.Assignments.Create.{committed_assignment}
use quads.Api.Assignments.Create.Exclusive.{IsIdle, committed_assignment-AllExclusive}
use quads.Api.Assignments.Self.{
  SelfRequest, first_cloud, self_cloud, self_checks, refused, create_self_assignment,
}

-- A cloud to give away: not the spare pool, the one of its name, and without an active assignment.
pub record IsVacant (config : Config) (db : Db) (cloud : Cloud) : Type 0 where
  pub not_spare : cloud.name ≢ config.spare_pool_name
  pub named : get_cloud db cloud.name ≡ some cloud
  pub idle : is_some (get_active_cloud_assignment db cloud) ≡ false

first-none_iff {ℓ} :
    {A : Type ℓ} (p q : A → Bool) (rows : List A)
    → ((a : A) → p a ≡ q a)
    → any p rows ≡ false
    → is_some (first q rows) ≡ false
first-none_iff p q [] same h = refl
first-none_iff p q (a ∷ rows) same h =
    let e = same a in ground (arith, first-none_iff p q rows same)

first_cloud-select :
    (p : Cloud → Bool) (clouds : List Cloud) (c : Cloud)
    → first_cloud (select p clouds) ≡ some c
    → first p clouds ≡ some c
first_cloud-select p [] c h = cc
first_cloud-select p (x ∷ clouds) c h = ground (arith, first_cloud-select p clouds c)

first_free-IsVacant :
    (config : Config) (db : Db) (cloud : Cloud)
    → HaveCloudNames db.clouds
    → first_cloud (get_free_clouds config.spare_pool_name db) ≡ some cloud
    → IsVacant config db cloud
unfolding get_free_clouds get_active_cloud_assignment
first_free-IsVacant config db cloud unique h =
    let free = λ (c : Cloud).
      not (any (λ (a : Assignment). a.active && refers_to c.id a.cloud_id) db.assignments)
      && not (str_eq c.name config.spare_pool_name) in
    let found = first_cloud-select free db.clouds cloud h in
    let test : free cloud ≡ true = first_sound free db.clouds cloud found in
    record {
      not_spare = λ same. let e = (eq_iff cloud.name config.spare_pool_name).1 same in ground arith;
      named = get_cloud-first db free cloud unique found;
      idle =
          first-none_iff (λ (a : Assignment). a.active && refers_to cloud.id a.cloud_id)
            (is_active_on cloud.id) db.assignments (λ a. ground arith) (ground arith);
    }

asked-IsVacant :
    (config : Config) (db : Db) (name : String) (cloud : Cloud)
    → HaveCloudNames db.clouds
    → not (str_eq name config.spare_pool_name) ≡ true
    → get_cloud db name ≡ some cloud
    → not (is_some (get_active_cloud_assignment db cloud)) ≡ true
    → IsVacant config db cloud
unfolding get_cloud
asked-IsVacant config db name cloud unique other found idle =
    let same : cloud.name ≡ name =
      (eq_iff cloud.name name).0 (first_sound (λ c. str_eq c.name name) db.clouds cloud found) in
    record {
      not_spare =
          λ e. let t = (eq_iff name config.spare_pool_name).1 (sym same ∙ e) in ground arith;
      named = get_cloud-first db (λ c. str_eq c.name name) cloud unique found;
      idle = ground arith;
    }

-- The cloud that a self-assignment gets is not the spare pool and has no active assignment, where no
-- two clouds share a name.
pub self_cloud-IsVacant :
    (config : Config) (db : Db) (asked : Option String) {cloud : Cloud}
    → HaveCloudNames db.clouds
    → self_cloud config db asked ≡ pass cloud
    → IsVacant config db cloud
unfolding self_cloud
self_cloud-IsVacant config db asked {cloud} unique h = elim (Bool-cases (present asked)) [
  | inl given ↦
      let (name, _, h₁) = >>=-eq-pass (argument asked "cloud") _ (rw given at h) in
      let (_, other, h₂) =
        >>=-eq-pass (require (not (str_eq name config.spare_pool_name)) 400 (cloud_reserved name)) _
          h₁ in
      let (c, found, h₃) =
        >>=-eq-pass (require_some (get_cloud db name) 400 (cloud_not_found name)) _ h₂ in
      let (_, idle, h₄) =
        >>=-eq-pass
          (require (not (is_some (get_active_cloud_assignment db c))) 400
            (already_active_assignment name))
          _ h₃ in
      let same : c ≡ cloud = ground arith in
      subst (IsVacant config db) same (
        asked-IsVacant config db name c unique (require-eq-pass _ 400 (cloud_reserved name) other)
          (require_some-eq-pass _ 400 (cloud_not_found name) found)
          (require-eq-pass _ 400 (already_active_assignment name) idle))
  | inr free ↦
      let first_free : require_some (first_cloud (get_free_clouds config.spare_pool_name db)) 400
            no_free_clouds
          ≡ pass cloud =
        rw free at h in
      first_free-IsVacant config db cloud unique
        (require_some-eq-pass _ 400 no_free_clouds first_free)
]

self_checks-cloud :
    (env : Env) (user : User) (req : SelfRequest) (db : Db) (a : NewAssignment)
    → self_checks env user req db ≡ pass a
    → (cloud : Cloud) × (self_cloud env.config db req.cloud ≡ pass cloud) × (a.cloud ≡ cloud.name)
unfolding self_checks
self_checks-cloud env user req db a h = ground arith

self_checks-IsIdle :
    (env : Env) (user : User) (req : SelfRequest) (db : Db) (a : NewAssignment)
    → HaveCloudNames db.clouds
    → self_checks env user req db ≡ pass a
    → IsIdle db a
self_checks-IsIdle env user req db a unique h =
    let (cloud, picked, name) = self_checks-cloud env user req db a h in
    let vacant = self_cloud-IsVacant env.config db req.cloud unique picked in
    record {
      cloud = cloud;
      found = subst (λ n. get_cloud db n ≡ some cloud) (sym name) vacant.named;
      idle = vacant.idle;
    }

refused-keeps_exclusive :
    (r : Option Assignment × Db)
    → AllExclusive r.1.assignments
    → AllExclusive (refused r).1.assignments
refused-keeps_exclusive (some a, d) h = h
refused-keeps_exclusive (none, d) h = h

-- However a self-assignment ends, no cloud has two active assignments, if none had before, no two
-- clouds share a name and nothing else commits meanwhile.
pub create_self_assignment-AllExclusive :
    (env : Env) (user : User) (req : SelfRequest) (db : Db)
    → HaveCloudNames db.clouds
    → AllExclusive db.assignments
    → AllExclusive (create_self_assignment env user req db).1.assignments
unfolding create_self_assignment
create_self_assignment-AllExclusive env user req db unique h =
    continue_inv (λ (d : Db). AllExclusive d.assignments) (self_checks env user req db) db _ h
      λ a checked. refused-keeps_exclusive (committed_assignment env 0 a db) (
        committed_assignment-AllExclusive env 0 a db
          (self_checks-IsIdle env user req db a unique checked) h)
