-- ===== src/Plugins/Validation/Calls.antt =====
-- The calls of the validation of an environment (src/quads/plugins/builtin/validators/environment.py) and
-- its reports of progress. The text of the failure report, the logging and the waits are left out.
use quads.Base.{
  ℕ, ◌-◌, ◌/◌, String, Bool, false, Option, none, some, List, [], ◌∷◌, ltb, str_eq, any,
}
use quads.Models.{MoveStatus}
use quads.Programs.{Program, done, call, ◌>>=◌, ◌>>◌, on, perform, ignoring, when}

-- A host of the environment, with the names of its interfaces.
pub record Machine : Type 0 where
  pub name : String
  pub supermicro : Bool
  pub switch_config_applied : Bool
  pub interfaces : List String

-- The assignment with its notification, and what the configuration and the clock say: `first_start` is the
-- start of the first current schedule of the cloud, and times are in microseconds.
pub record Environment : Type 0 where
  pub hosts : List Machine
  pub has_vlan : Bool
  pub notified_success : Bool
  pub notified_fail : Bool
  pub skip_system : Bool
  pub skip_network : Bool
  pub first_start : Option ℕ
  pub now : ℕ
  pub validation_grace_period : ℕ
  -- `Config.INTERFACES`: each interface, with the octets of its networks
  pub interfaces : List (String × List String)

-- The calls; `is_build_host` stands for the host's place in the answer of `get_build_hosts`, an address to
-- `fping_derived` is a host with the octets that replace the first two of its own.
pub data Call : Type 0 where
  get_move_status : String → Call
  update_move_status : String → MoveStatus → Call
  get_current_schedules foreman_credentials : Call
  is_build_host health_check pxe_persistent : String → Call
  init_hardware get_vendor : String → Call
  boot_to_foreman set_next_boot_pxe reboot_server has_plugins : String → Call
  verify_switch connect : String → Call
  -- `socket.gethostbyname`
  resolve : String → Call
  set_switch_config_applied : String → Call
  fping_hosts : List String → Call
  fping_derived : List (String × String) → Call
  diagnose : Call
  enable_user : String → Call
  notify_success notify_failure : Call
  notification_success notification_fail : Call
  set_validated : String → Call
  assignment_validated : Call
  distribute_ssh_keys : Call

-- `_get_progress_map`: the hosts with a move to report to
unfoldable pub get_progress_map : List Machine → Program Call (List String)
get_progress_map [] = done []
get_progress_map (h ∷ hosts) =
    let rest = get_progress_map hosts in
    call (get_move_status h.name) (λ v. on v (rest >>= λ names. done (h.name ∷ names)) rest rest)

-- `_update_progress`
unfoldable pub update_progress : List String → String → MoveStatus → Program Call (Unit {0})
update_progress moves host status =
    when (any (λ n. str_eq n host) moves) (ignoring (update_move_status host status))

unfoldable pub update_each : List String → String → List MoveStatus → Program Call (Unit {0})
update_each moves host [] = done tt
update_each moves host (status ∷ statuses) =
    update_progress moves host status >> update_each moves host statuses

-- `for host in hosts: self._update_progress(...)`, with each of the statuses
unfoldable pub update_all : List String → List MoveStatus → List Machine → Program Call (Unit {0})
update_all moves statuses [] = done tt
update_all moves statuses (h ∷ hosts) =
    update_each moves h.name statuses >> update_all moves statuses hosts

-- `env_allocation_time_exceeded`, with the minutes since the first current schedule began
abbrev pub is_over : Environment → Option ℕ → Bool
is_over e none = false
is_over e (some start) = ltb e.validation_grace_period ((e.now - start) / 60000000)

unfoldable pub env_allocation_time_exceeded : Environment → Program Call Bool
env_allocation_time_exceeded e = perform get_current_schedules >> done (is_over e e.first_start)
