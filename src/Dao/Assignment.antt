-- ===== src/Dao/Assignment.antt =====
-- src/quads/server/dao/assignment.py
pub mod Exclusive
use quads.Base.{
  ℕ, ◌+◌, String, Bool, true, false, ◌&&◌, Option, none, some, List, [], ◌∷◌, ◌++◌, str_eq, ◌==◌,
  present, first, select, remove, if◌then◌else◌,
}
use quads.Models.{Cloud, Assignment, Vlan, Db}
use quads.Session.{Config}
use quads.Dao.Cloud.{get_cloud, refers_to}
use quads.Dao.Vlan.{get_vlan}
use quads.Dao.Notification.{insert_notification}

unfoldable pub get_assignment : Db → ℕ → Option Assignment
get_assignment db id = first (λ a. a.id == id) db.assignments

abbrev pub is_active_on : ℕ → Assignment → Bool
is_active_on cloud_id a = refers_to cloud_id a.cloud_id && a.active

unfoldable pub get_active_cloud_assignment : Db → Cloud → Option Assignment
get_active_cloud_assignment db cloud = first (is_active_on cloud.id) db.assignments

unfoldable pub get_all_cloud_assignments : Db → Cloud → List Assignment
get_all_cloud_assignments db cloud = select (λ a. refers_to cloud.id a.cloud_id) db.assignments

unfoldable pub get_active_assignments : Db → List Assignment
get_active_assignments db = select (λ a. a.active) db.assignments

-- The arguments of `create_assignment`, without `commit`.
pub record NewAssignment : Type 0 where
  pub description : String
  pub owner : String
  pub ticket : String
  pub qinq : Option ℕ
  pub wipe : Bool
  pub ccuser : List String
  pub cloud : String
  pub vlan_id : Option ℕ
  pub ostype : Option String
  pub boot_order : Option String
  pub is_self_schedule : Bool

abbrev or_default : Option String → String → String
or_default none d = d
or_default (some t) d = if present (some t) then t else d

abbrev id_of_cloud : Option Cloud → Option ℕ
id_of_cloud none = none
id_of_cloud (some c) = some c.id

abbrev id_of_vlan : Option Vlan → Option ℕ
id_of_vlan none = none
id_of_vlan (some v) = some v.id

-- `if vlan_id:` holds for a number other than 0.
abbrev find_vlan : Db → Option ℕ → Option Vlan
find_vlan db none = none
find_vlan db (some n) = if n == 0 then none else get_vlan db n

-- The row that `create_assignment` adds. An unknown cloud or VLAN leaves the key NULL.
unfoldable pub new_assignment : Config → Db → NewAssignment → Assignment
new_assignment config db a = record {
  id = db.next_assignment;
  active = true;
  provisioned = false;
  validated = false;
  description = a.description;
  owner = a.owner;
  ticket = a.ticket;
  qinq = a.qinq;
  wipe = a.wipe;
  ccuser = a.ccuser;
  is_self_schedule = a.is_self_schedule;
  ostype = or_default a.ostype config.default_os;
  boot_order = or_default a.boot_order config.default_boot_order;
  cloud_id = id_of_cloud (get_cloud db a.cloud);
  vlan_id = id_of_vlan (find_vlan db a.vlan_id);
}

-- `create_assignment` with `commit=False`: the row and its notification are added.
unfoldable pub create_assignment : Config → Db → NewAssignment → Assignment × Db
unfolding new_assignment insert_notification
create_assignment config db a =
    let row = new_assignment config db a in
    (
      row,
      insert_notification
          (record db {
            assignments = db.assignments ++ row ∷ [];
            next_assignment = db.next_assignment + 1;
          })
          row.id,
    )

-- `delete_assignment`, with the notification that the cascade deletes.
unfoldable pub delete_assignment_row : Db → ℕ → Db
delete_assignment_row db id = record db {
  assignments = remove (λ a. a.id == id) db.assignments;
  notifications = remove (λ n. n.assignment_id == id) db.notifications;
}
