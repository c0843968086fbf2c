-- ===== src/Api/Schedules/Batch.antt =====
-- `create_schedules_batch` of src/quads/server/blueprints/schedules.py (POST /schedules/batch). The ticket
-- comment that `_trigger_jira_notification` posts at the end touches no table and is left out.
pub mod Inputs
pub mod Booking
pub mod Duplicates
pub mod Atomic
use quads.Base.{
  ℕ, String, ◌≡◌, Bool, true, false, not, ◌&&◌, ◌||◌, Option, none, some, List, [], ◌∷◌, map, ltb,
  ◌==◌, str_eq, present, is_some, Outcome, pass, refuse, crash, ◌>>=◌, ◌>>◌, require, require_some,
  argument, continue, HostProblem, not_found, not_available, cloud_not_found, no_active_assignment,
  already_active_assignment, invalid_argument, invalid_date_format, invalid_date_range,
  assignment_incomplete, vlan_not_found, hosts_unavailable, commit_failed, attribute_of,
  if◌then◌else◌,
}
use quads.Models.{Cloud, Assignment, Host, Db}
use quads.Session.{Env, Session, safe_commit}
use quads.Dao.Cloud.{get_cloud}
use quads.Dao.Vlan.{get_vlan}
use quads.Dao.Host.{get_host, get_hosts_for_update, host_map_get, contains}
use quads.Dao.Assignment.{NewAssignment, get_active_cloud_assignment, create_assignment}
use quads.Dao.Notification.{no_flags, get_assignment_notification, update_notification}
use quads.Dao.Schedule.{ScheduleInput, create_schedules, is_host_available}
use quads.Api.Schedules.Window.{parse_datetime_with_now}

-- `data.get("hostnames")`
pub data Hostnames : Type 0 where
  absent not_list : Hostnames
  list_of : List String → Hostnames

-- The JSON body. `vlan` is the number that `int(...)` reads, and `wipe` what `str(...)` makes of it.
pub record BatchRequest : Type 0 where
  pub cloud : Option String
  pub hostnames : Hostnames
  pub start : Option String
  pub end : Option String
  pub description : Option String
  pub owner : Option String
  pub ticket : Option String
  pub vlan : Option ℕ
  pub qinq : Option ℕ
  pub wipe : Option String
  pub ccuser : Option String

-- `not hostnames or not isinstance(hostnames, list)`
abbrev pub host_list : Hostnames → Outcome (List String)
host_list (list_of (n ∷ rest)) = pass (n ∷ rest)
host_list (list_of []) = refuse 400 (invalid_argument "hostnames")
host_list absent = refuse 400 (invalid_argument "hostnames")
host_list not_list = refuse 400 (invalid_argument "hostnames")

-- The description, the owner and the ticket of an assignment that is to be created.
pub record Details : Type 0 where
  pub description : String
  pub owner : String
  pub ticket : String

-- What the checks before the locks settle.
pub record Batch : Type 0 where
  pub cloud : String
  pub hostnames : List String
  pub start : ℕ
  pub end : ℕ
  pub details : Option Details

-- `bool(description or owner or ticket)`
abbrev pub creates_assignment : BatchRequest → Bool
creates_assignment req = present req.description || present req.owner || present req.ticket

abbrev incomplete : Option String → Outcome String
incomplete o =
    if present o then require_some o 400 assignment_incomplete else refuse 400 assignment_incomplete

-- `if vlan_id:` holds for a number other than 0.
abbrev pub vlan_known : Db → Option ℕ → Outcome (Unit {0})
vlan_known db none = pass tt
vlan_known db (some n) =
    if n == 0 then pass tt else require (is_some (get_vlan db n)) 400 (vlan_not_found n)

-- The two rules on the active assignment of the cloud, before and after the lock.
unfoldable pub assignment_rule : Bool → String → Option Assignment → Outcome (Unit {0})
assignment_rule true cloud existing =
    require (not (is_some existing)) 400 (already_active_assignment cloud)
assignment_rule false cloud existing = require (is_some existing) 400 (no_active_assignment cloud)

unfoldable pub assignment_details : Db → Cloud → BatchRequest → Outcome (Option Details)
unfolding assignment_rule
assignment_details db cloud req =
    if creates_assignment req
    then (do
      description ← incomplete req.description
      owner ← incomplete req.owner
      ticket ← incomplete req.ticket
      assignment_rule true cloud.name (get_active_cloud_assignment db cloud)
      vlan_known db req.vlan
      pass (some (record { description = description; owner = owner; ticket = ticket })))
    else (do assignment_rule false cloud.name (get_active_cloud_assignment db cloud); pass none)

-- The loop that collects the hosts which cannot be booked.
unfoldable pub host_problems : (String → Option Host) → Db → ℕ → ℕ → List String → List HostProblem
host_problems host_of db start end [] = []
host_problems host_of db start end (n ∷ rest) =
    let others = host_problems host_of db start end rest in
    if is_some (host_of n)
    then (if is_host_available db n start end none then others else not_available n ∷ others)
    else not_found n ∷ others

abbrev pub no_problems : List HostProblem → Outcome (Unit {0})
no_problems [] = pass tt
no_problems (p ∷ ps) = refuse 400 (hosts_unavailable (p ∷ ps))

-- Before any lock.
unfoldable pub batch_checks : Env → Db → BatchRequest → Outcome Batch
batch_checks env db req = do
  name ← argument req.cloud "cloud"
  hostnames ← host_list req.hostnames
  start ← argument req.start "start or end"
  end ← argument req.end "start or end"
  cloud ← require_some (get_cloud db name) 400 (cloud_not_found name)
  _start ← require_some (parse_datetime_with_now env 0 start) 400 invalid_date_format
  _end ← require_some (parse_datetime_with_now env 1 end) 400 invalid_date_format
  require (ltb _start _end) 400 invalid_date_range
  details ← assignment_details db cloud req
  no_problems (host_problems (get_host db) db _start _end hostnames)
  pass (record {
    cloud = name;
    hostnames = hostnames;
    start = _start;
    end = _end;
    details = details;
  })

-- With the cloud's row locked: the active assignment, which must be there or must not.
unfoldable pub locked_assignment : Batch → Db → Outcome (Option Assignment)
unfolding assignment_rule
locked_assignment batch db = do
  locked ← require_some (get_cloud db batch.cloud) 400 (cloud_not_found batch.cloud)
  assignment_rule (is_some batch.details) batch.cloud (get_active_cloud_assignment db locked)
  pass (get_active_cloud_assignment db locked)

-- With the hosts' rows locked too.
unfoldable pub locked_hosts : Batch → Db → Outcome (Unit {0})
locked_hosts batch db = no_problems (
    host_problems (host_map_get (get_hosts_for_update db batch.hostnames)) db batch.start batch.end
      batch.hostnames)

-- `if ccuser and isinstance(ccuser, str): ccuser = re.split(r"[, ]+", ccuser)`
abbrev pub split_users : Env → Option String → List String
split_users env none = []
split_users env (some t) = if present (some t) then env.split "[, ]+" t else []

abbrev number_or : Option ℕ → ℕ → ℕ
number_or none d = d
number_or (some n) d = n

abbrev text_or : Option String → String → String
text_or none d = d
text_or (some t) d = t

-- `str(value).lower() in ["true", "y", 1, "yes"]`
abbrev pub says_yes : Env → String → Bool
says_yes env t = contains ("true" ∷ "y" ∷ "yes" ∷ []) (env.lower t)

abbrev pub batch_assignment : Env → BatchRequest → String → Details → NewAssignment
batch_assignment env req cloud details = record {
  description = details.description;
  owner = details.owner;
  ticket = details.ticket;
  qinq = some (number_or req.qinq 0);
  wipe = says_yes env (text_or req.wipe "True");
  ccuser = split_users env req.ccuser;
  cloud = cloud;
  vlan_id = req.vlan;
  ostype = none;
  boot_order = none;
  is_self_schedule = false;
}

-- The assignment of the batch, which is created here if the request asks for that.
unfoldable pub chosen_assignment :
    Env → BatchRequest → Batch → Option Assignment → Db → Outcome (Assignment × Db)
chosen_assignment env req batch existing db = elim batch.details [
  | none ↦ (do a ← attribute_of existing; pass (a, db))
  | some details ↦
      pass (create_assignment env.config db (batch_assignment env req batch.cloud details))
]

-- `[(_start, _end, _assignment, _host_map[hostname]) for hostname in hostnames]`; a missing name raises
-- `KeyError`.
unfoldable pub schedule_inputs :
    (String → Option Host) → ℕ → ℕ → Assignment → List String → Outcome (List ScheduleInput)
schedule_inputs host_of start end a [] = pass []
schedule_inputs host_of start end a (n ∷ names) = do
  host ← attribute_of (host_of n)
  rest ← schedule_inputs host_of start end a names
  pass ((start, end, a, host) ∷ rest)

-- The rows of the batch, in the session.
unfoldable pub batch_rows :
    Env → BatchRequest → Batch → Option Assignment → Db → Outcome (Assignment × Db)
batch_rows env req batch existing db = do
  chosen ← chosen_assignment env req batch existing db
  inputs ←
      schedule_inputs (host_map_get (get_hosts_for_update db batch.hostnames)) batch.start batch.end
        chosen.0 batch.hostnames
  rows ← attribute_of (create_schedules chosen.1 inputs)
  pass (chosen.0, rows)

-- `pre=False` of the notification; a failed commit of that is passed over.
unfoldable pub clear_pre_quietly : Env → ℕ → Assignment → Db → Outcome (Unit {0}) × Db
unfolding safe_commit
clear_pre_quietly env i assignment db = elim (get_assignment_notification db assignment.id) [
  | none ↦ (crash, db)
  | some n ↦
      if n.pre
      then (
        pass tt,
        (safe_commit env i (record {
          saved = db;
          work = update_notification db n.id (record no_flags { pre = some false });
        })).1.saved,
      )
      else (pass tt, db)
]

-- `db.session.commit()` of the rows, with the handlers of its exceptions.
unfoldable pub commit_rows : Env → Assignment → Db → Db → Outcome Assignment × Db
commit_rows env assignment rows db =
    if env.commits 0
    then (let (answer, d) = clear_pre_quietly env 1 assignment rows in
        (answer >>= (λ _. pass assignment), d))
    else (if env.integrity 0 then refuse 400 commit_failed else crash, db)

-- The response and the database after it; `pass` is a 201 with the assignment and the hosts' names.
unfoldable pub create_schedules_batch :
    Env → BatchRequest → Db → Outcome (Assignment × List String) × Db
create_schedules_batch env req db = continue (batch_checks env db req) db λ batch.
    let d = env.others 0 db in
    continue (locked_assignment batch d) d λ existing.
      let d' = env.others 1 d in
      continue (locked_hosts batch d') d' λ _.
        continue (batch_rows env req batch existing d') d' λ (assignment, rows).
          let (answer, saved) = commit_rows env assignment rows d' in
          (answer >>= (λ a. pass (a, batch.hostnames)), saved)
