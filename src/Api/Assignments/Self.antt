-- ===== src/Api/Assignments/Self.antt =====
-- `create_self_assignment` of src/quads/server/blueprints/assignments.py (POST /assignments/self).
use Prim.Native.Char.{code}
use Prim.Native.String.{◌++◌ as text_append}
pub mod Limit
pub mod Exclusive
use quads.Base.{
  ℕ, zero, suc, ◌+◌, String, Bool, true, false, not, ◌&&◌, ◌||◌, Option, none, some, List, [], ◌∷◌,
  length, select, ltb, leb, ◌==◌, str_eq, present, is_some, Outcome, pass, refuse, crash, ◌>>=◌,
  ◌>>◌, require, require_some, argument, continue, cloud_not_found, already_active_assignment,
  service_disabled, self_limit_reached, cloud_reserved, no_free_clouds, ticketing_unconfigured,
  ticket_failed, missing_argument, commit_failed, if◌then◌else◌,
}
use quads.Models.{Cloud, Assignment, Db}
use quads.Session.{Config, Env}
use quads.Dao.Cloud.{get_cloud, get_free_clouds}
use quads.Dao.Assignment.{NewAssignment, get_active_cloud_assignment}
use quads.Api.Schedules.Create.{User}
use quads.Api.Schedules.Batch.{vlan_known, split_users, says_yes}
use quads.Api.Assignments.Create.{committed_assignment}

-- The JSON body, where the description is a string; `wipe` is what `str(...)` makes of the value.
pub record SelfRequest : Type 0 where
  pub cloud : Option String
  pub vlan : Option ℕ
  pub description : Option String
  pub ticket : Option String
  pub qinq : Option ℕ
  pub wipe : String
  pub cc_user : Option String
  pub ostype : Option String
  pub boot_order : Option String

-- `email.split("@")[0]`
unfoldable pub username : String → String
username String.[] = String.[]
username (String.◌∷◌ c t) =
    let rest = username t in if code c == b'@' then String.[] else String.◌∷◌ c rest

-- `description[:n]`
unfoldable pub truncated : ℕ → String → String
truncated zero t = String.[]
truncated (suc n) String.[] = String.[]
truncated (suc n) (String.◌∷◌ c t) = String.◌∷◌ c (truncated n t)

-- The number of characters of a text.
abbrev pub characters : String → ℕ
characters String.[] = 0
characters (String.◌∷◌ _ t) = suc (characters t)

-- `ssm_description_max`, or 48 where it is no positive integer
abbrev pub description_max : Option ℕ → ℕ
description_max none = 48
description_max (some n) = if n == 0 then 48 else n

-- The active self-scheduled assignments of the owner.
unfoldable pub owned_self_assignments : Db → String → List Assignment
owned_self_assignments db owner =
    select (λ a. a.active && a.is_self_schedule && str_eq a.owner owner) db.assignments

abbrev pub first_cloud : List Cloud → Option Cloud
first_cloud [] = none
first_cloud (c ∷ _) = some c

-- The cloud that is asked for, or the first free one.
unfoldable pub self_cloud : Config → Db → Option String → Outcome Cloud
self_cloud config db asked =
    if present asked
    then (do
      name ← argument asked "cloud"
      require (not (str_eq name config.spare_pool_name)) 400 (cloud_reserved name)
      cloud ← require_some (get_cloud db name) 400 (cloud_not_found name)
      require (not (is_some (get_active_cloud_assignment db cloud))) 400
          (already_active_assignment name)
      pass cloud)
    else require_some (first_cloud (get_free_clouds config.spare_pool_name db)) 400 no_free_clouds

abbrev created_key : Option (Option String) → Outcome String
created_key none = refuse 400 ticketing_unconfigured
created_key (some key) =
    if present key then require_some key 400 ticket_failed else refuse 400 ticket_failed

-- The key of the ticket, created or given.
unfoldable pub self_ticket : Env → Option String → Outcome String
self_ticket env given =
    if env.config.ssm_jira_create_ticket
    then created_key env.ticket_created
    else argument given "ticket"

abbrev number_or : Option ℕ → ℕ → ℕ
number_or none d = d
number_or (some n) d = n

unfoldable pub self_checks : Env → User → SelfRequest → Db → Outcome NewAssignment
self_checks env user req db = do
  require env.config.ssm_enable 403 service_disabled
  let owner = username user.email
  require (ltb (length (owned_self_assignments db owner)) env.config.ssm_user_cloud_limit) 403
      self_limit_reached
  given ← argument req.description "description"
  description ← argument (some (env.strip given)) "description"
  let short = truncated (description_max env.config.ssm_description_max) description
  cloud ← self_cloud env.config db req.cloud
  vlan_known db req.vlan
  ticket ← self_ticket env req.ticket
  pass (record {
    description = text_append env.config.ssm_description_prefix (text_append " " short);
    owner = owner;
    ticket = ticket;
    qinq = some (number_or req.qinq 0);
    wipe = says_yes env req.wipe;
    ccuser = split_users env req.cc_user;
    cloud = cloud.name;
    vlan_id = req.vlan;
    ostype = req.ostype;
    boot_order = req.boot_order;
    is_self_schedule = true;
  })

abbrev pub refused : Option Assignment × Db → Outcome Assignment × Db
refused (some row, d) = (pass row, d)
refused (none, d) = (refuse 400 commit_failed, d)

-- The response and the database after it; `pass` is a 201.
unfoldable pub create_self_assignment : Env → User → SelfRequest → Db → Outcome Assignment × Db
create_self_assignment env user req db =
    continue (self_checks env user req db) db λ a. refused (committed_assignment env 0 a db)
