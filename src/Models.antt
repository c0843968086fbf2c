-- ===== src/Models.antt =====
-- src/quads/server/models.py: the tables of the database, one record for each row, without the columns
-- that nothing in the modelled code reads or decides by. Timestamps are numbers of microseconds.
pub mod Stages
use quads.Base.{ℕ, String, Bool, Option, List}

pub record Cloud : Type 0 where
  pub id : ℕ
  pub name : String
  pub last_redefined : ℕ

pub record Vlan : Type 0 where
  pub id : ℕ
  pub vlan_id : ℕ
  pub ip_free : ℕ

pub record Notification : Type 0 where
  pub id : ℕ
  pub fail : Bool
  pub success : Bool
  pub initial : Bool
  pub pre_initial : Bool
  pub pre : Bool
  pub one_day : Bool
  pub three_days : Bool
  pub five_days : Bool
  pub seven_days : Bool
  pub assignment_id : ℕ

pub record Assignment : Type 0 where
  pub id : ℕ
  pub active : Bool
  pub provisioned : Bool
  pub validated : Bool
  pub description : String
  pub owner : String
  pub ticket : String
  pub qinq : Option ℕ
  pub wipe : Bool
  pub ccuser : List String
  pub is_self_schedule : Bool
  pub ostype : String
  pub boot_order : String
  pub cloud_id : Option ℕ
  pub vlan_id : Option ℕ

pub record Host : Type 0 where
  pub id : ℕ
  pub name : String
  pub model : String
  pub host_type : String
  pub build : Bool
  pub validated : Bool
  pub switch_config_applied : Bool
  pub broken : Bool
  pub retired : Bool
  pub can_self_schedule : Bool
  pub cloud_id : ℕ
  pub default_cloud_id : ℕ

pub data MoveStatus : Type 0 where
  pending switch_config ipmi_config hardware_prep power_on provisioning cleanup reboot : MoveStatus
  post_install foreman_rbac validation released completed failed : MoveStatus

pub record Schedule : Type 0 where
  pub id : ℕ
  pub start : ℕ
  pub end : ℕ
  pub build_start : Option ℕ
  pub build_end : Option ℕ
  pub move_status : Option MoveStatus
  pub move_message : Option String
  pub move_error : Option String
  pub move_source_cloud : Option String
  pub assignment_id : ℕ
  pub host_id : ℕ

-- The tables; each counter is the next key that its sequence gives.
pub record Db : Type 0 where
  pub clouds : List Cloud
  pub vlans : List Vlan
  pub notifications : List Notification
  pub assignments : List Assignment
  pub hosts : List Host
  pub schedules : List Schedule
  pub next_cloud : ℕ
  pub next_notification : ℕ
  pub next_assignment : ℕ
  pub next_host : ℕ
  pub next_schedule : ℕ
