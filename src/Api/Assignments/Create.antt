-- ===== src/Api/Assignments/Create.antt =====
-- `create_assignment` of src/quads/server/blueprints/assignments.py (POST /assignments), with the commit of
-- `AssignmentDao.create_assignment`.
pub mod Exclusive
use quads.Base.{
  ℕ, String, Bool, not, Option, none, some, List, is_some, Outcome, pass, crash, ◌>>=◌, ◌>>◌,
  require, require_some, argument, continue, cloud_not_found, already_active_assignment,
  if◌then◌else◌,
}
use quads.Models.{Assignment, Db}
use quads.Session.{Env}
use quads.Dao.Cloud.{get_cloud}
use quads.Dao.Assignment.{NewAssignment, get_active_cloud_assignment, create_assignment}
use quads.Api.Schedules.Batch.{vlan_known, split_users, says_yes}

-- The JSON body. `vlan` is the number that `int(...)` reads; `wipe` and `is_self_schedule` are what
-- `str(...)` makes of the value. A list of users that is `None` is read as the empty one.
pub record AssignmentRequest : Type 0 where
  pub cloud : Option String
  pub vlan : Option ℕ
  pub description : Option String
  pub owner : Option String
  pub ticket : Option String
  pub qinq : Option ℕ
  pub wipe : String
  pub ccuser : Option String
  pub is_self_schedule : String
  pub ostype : Option String
  pub boot_order : Option String

unfoldable pub assignment_checks : Env → AssignmentRequest → Db → Outcome NewAssignment
assignment_checks env req db = do
  description ← argument req.description "description"
  owner ← argument req.owner "owner"
  ticket ← argument req.ticket "ticket"
  name ← argument req.cloud "cloud"
  cloud ← require_some (get_cloud db name) 400 (cloud_not_found name)
  require (not (is_some (get_active_cloud_assignment db cloud))) 400
      (already_active_assignment name)
  vlan_known db req.vlan
  pass (record {
    description = description;
    owner = owner;
    ticket = ticket;
    qinq = req.qinq;
    wipe = says_yes env req.wipe;
    ccuser = split_users env req.ccuser;
    cloud = name;
    vlan_id = req.vlan;
    ostype = req.ostype;
    boot_order = req.boot_order;
    is_self_schedule = says_yes env req.is_self_schedule;
  })

-- `AssignmentDao.create_assignment` with its commit; `none` is `SQLError`.
unfoldable pub committed_assignment : Env → ℕ → NewAssignment → Db → Option Assignment × Db
committed_assignment env i a db =
    let (row, d) = create_assignment env.config db a in
    if env.commits i then (some row, d) else (none, db)

abbrev pub raised : Option Assignment × Db → Outcome Assignment × Db
raised (some row, d) = (pass row, d)
raised (none, d) = (crash, d)

-- The response and the database after it; `pass` is a 201, and `SQLError` is not caught.
unfoldable pub create_assignment_request : Env → AssignmentRequest → Db → Outcome Assignment × Db
create_assignment_request env req db =
    continue (assignment_checks env req db) db λ a. raised (committed_assignment env 0 a db)
