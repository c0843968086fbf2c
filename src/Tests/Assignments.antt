-- ===== src/Tests/Assignments.antt =====
-- Runs of the code of assignments.
use quads.Base.{◌≡◌, refl, none, some, arith, length}
use quads.Dao.Cloud.{get_free_clouds, get_cloud}
use quads.Dao.Cloud.Names.{HaveCloudNames}
use quads.Dao.Assignment.{
  get_assignment, get_active_assignments, get_active_cloud_assignment, create_assignment,
}
use quads.Dao.Assignment.Exclusive.{AllExclusive}
use quads.Api.Assignments.Create.{
  AssignmentRequest, create_assignment_request, assignment_checks, committed_assignment,
}
use quads.Api.Assignments.Create.Exclusive.{create_assignment_request-AllExclusive}
use quads.Api.Assignments.Self.{
  SelfRequest, username, owned_self_assignments, self_cloud, create_self_assignment, self_checks,
  self_ticket,
}
use quads.Api.Assignments.Self.Limit.{WithinLimit, create_self_assignment-WithinLimit}
use quads.Api.Assignments.Self.Exclusive.{create_self_assignment-AllExclusive}
use quads.Api.Assignments.Terminate.{terminate_checks, terminate_assignment, terminated}
use quads.Api.Assignments.Terminate.Bookings.{NoneRunsOut, Within}
use quads.Api.Assignments.Terminate.Release.{IsReleased, terminate_assignment-IsReleased}
use quads.Tests.{env, db, user, str_differs}

abbrev request : AssignmentRequest
request = record {
  cloud = some "cloud03";
  vlan = none;
  description = some "network";
  owner = some "ann";
  ticket = some "11";
  qinq = none;
  wipe = "yes";
  ccuser = none;
  is_self_schedule = "no";
  ostype = none;
  boot_order = none;
}

create_assignment_request_stores :
    length (get_active_assignments (create_assignment_request env request db).1) ≡ 2
unfolding create_assignment_request get_active_assignments assignment_checks get_cloud
    get_active_cloud_assignment committed_assignment create_assignment
create_assignment_request_stores = refl

create_assignment_request-AllExclusive_example :
    AllExclusive (create_assignment_request env request db).1.assignments
create_assignment_request-AllExclusive_example =
    create_assignment_request-AllExclusive env request db (tt, tt)

abbrev own : SelfRequest
own = record {
  cloud = none;
  vlan = none;
  description = some "a long description";
  ticket = some "12";
  qinq = none;
  wipe = "yes";
  cc_user = none;
  ostype = none;
  boot_order = none;
}

db-HaveCloudNames : HaveCloudNames db.clouds
db-HaveCloudNames = (
  (str_differs "cloud02" "cloud01" refl, (str_differs "cloud03" "cloud01" refl, tt)),
  ((str_differs "cloud03" "cloud02" refl, tt), (tt, tt)),
)

create_self_assignment_stores :
    length (get_active_assignments (create_self_assignment env user own db).1) ≡ 2
unfolding create_self_assignment get_active_assignments self_checks owned_self_assignments
    self_cloud get_free_clouds self_ticket committed_assignment create_assignment
create_self_assignment_stores = refl

create_self_assignment-AllExclusive_example :
    AllExclusive (create_self_assignment env user own db).1.assignments
create_self_assignment-AllExclusive_example =
    create_self_assignment-AllExclusive env user own db db-HaveCloudNames (tt, tt)

create_self_assignment-WithinLimit_example :
    WithinLimit 1 "ann" (create_self_assignment env user own db).1
unfolding owned_self_assignments
create_self_assignment-WithinLimit_example =
    create_self_assignment-WithinLimit env user own db "ann" (omega arith)

terminate_assignment_ends :
    length (get_active_assignments (terminate_assignment env user 1 db).1) ≡ 0
unfolding terminate_assignment get_active_assignments terminate_checks get_assignment username
    terminated
terminate_assignment_ends = refl

none_runs_out : NoneRunsOut env 1 db
unfolding NoneRunsOut Within
none_runs_out = ((λ _ _. (omega arith, omega arith)), tt)

terminate_assignment-IsReleased_example :
    IsReleased env user 1 db (terminate_assignment env user 1 db).1
unfolding terminate_assignment terminate_checks get_assignment username
terminate_assignment-IsReleased_example =
    terminate_assignment-IsReleased env user 1 db refl refl refl
