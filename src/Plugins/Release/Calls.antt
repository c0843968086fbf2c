-- ===== src/Plugins/Release/Calls.antt =====
-- The calls of `StandardReleasePlugin` of src/quads/plugins/builtin/release/standard.py, its reports and
-- the credentials of the tenant.
use quads.Base.{
  ℕ, zero, suc, String, Bool, true, false, not, Option, none, some, List, ◌==◌, str_eq, any,
  if◌then◌else◌,
}
use quads.Models.{MoveStatus}
use quads.Programs.{Program, done, fault, ◌>>=◌, ◌>>◌, check, perform, ignoring, both, when}

-- What a PATCH of a host sets here; `none` leaves a field as it is.
pub record HostChange : Type 0 where
  pub cloud : Option String
  pub build : Bool
  pub validated : Bool
  pub overcloud : Option Bool
  pub switch_config_applied : Option Bool

-- The calls of a move, all about its own host.
pub data Call : Type 0 where
  get_host get_cloud get_active_cloud_assignment : Call
  enable_user disable_user verify_credentials pxe_persistent chassis_power_off : Call
  configure_user : String → Call
  update_move_status : MoveStatus → Call
  -- the status `failed`, with its error message
  report_failed : String → Call
  prepare_host_provisioning : String → String → Call
  init_hardware get_vendor unmount_virtual_media detach_remote_image reboot_server : Call
  change_boot boot_to_type : String → Call
  set_power_state : String → Call
  -- the request for the attributes, which may raise, and what it says of one
  request_bios : Call
  get_bios_attribute : String → Call
  set_boot_mode : String → Call
  get_current_schedules update_first_schedule : Call
  update_host : HostChange → Call

-- The configuration, and Python's `str.lower` and `x in y` for texts.
pub record Settings : Type 0 where
  pub untouchable_hosts : List String
  pub supermicro : List String
  pub default_boot_order : String
  pub default_os : String
  pub infra_location : String
  pub ipmi_password : String
  pub ipmi_credential_retries : ℕ
  pub lower : String → String
  pub contains : String → String → Bool

pub record Lease : Type 0 where
  pub ticket : Option String
  pub boot_order : Option String
  pub ostype : Option String

-- The arguments of a move, with what the API has on its host, its target and the target's assignment.
pub record HostMove : Type 0 where
  pub host : String
  pub default_cloud : String
  pub bootmode : Option String
  pub new_cloud : String
  pub target_cloud : String
  pub assignment : Option Lease
  pub rebuild : Bool
  pub schedule_id : Option ℕ

-- `text or default`
abbrev pub text_or_default : Option String → String → String
text_or_default none default = default
text_or_default (some t) default = if str_eq t "" then default else t

abbrev pub has_id : Option ℕ → Bool
has_id none = false
has_id (some id) = not (id == 0)

-- `_report_progress`
unfoldable pub report_progress : HostMove → MoveStatus → Program Call (Unit {0})
report_progress m status = when (has_id m.schedule_id) (ignoring (update_move_status status))

abbrev pub failure : HostChange
failure = record {
  cloud = none;
  build = false;
  validated = false;
  overcloud = none;
  switch_config_applied = some false;
}

abbrev pub success_data : HostMove → HostChange
success_data m = record {
  cloud = some m.target_cloud;
  build = true;
  validated = false;
  overcloud = some true;
  switch_config_applied = none;
}

-- `_update_host_on_failure` and the `return False` after it
unfoldable pub fail_move : HostMove → String → Program Call Bool
fail_move m error_message = do
  perform (update_host failure)
  when (has_id m.schedule_id) (ignoring (report_failed error_message))
  done false

-- `if not p(): fail; return False`, else `rest`
unfoldable pub or_fail :
    HostMove → Program Call Bool → String → Program Call Bool → Program Call Bool
or_fail m p error_message rest = p >>= λ ok. if ok then rest else fail_move m error_message

-- The attempts that are left to enable, set and verify the tenant's credentials.
unfoldable pub try_credentials : String → ℕ → Program Call Bool
try_credentials password zero = done false
try_credentials password (suc n) =
    let rest = try_credentials password n in
    do
      ok ←
          both (check enable_user)
            (both (check (configure_user password)) (check verify_credentials))
      if ok then done true else rest

-- `if rebuild: ... disable_user ...; return None`; without an attempt, `ipmi` is not bound.
unfoldable pub restore_gate : Settings → Bool → Program Call Bool
restore_gate s false = done false
restore_gate s true =
    if s.ipmi_credential_retries == 0 then fault else (check disable_user >>= λ _. done false)

-- `_configure_and_verify_ipmi`
unfoldable pub configure_and_verify_ipmi : Settings → String → Bool → Program Call Bool
configure_and_verify_ipmi s password rebuild = do
  ok ← try_credentials password s.ipmi_credential_retries
  if ok then done true else restore_gate s rebuild

-- `is_supermicro` of src/quads/helpers/utils.py
unfoldable pub is_supermicro : Settings → String → Bool
is_supermicro s host = any (λ t. s.contains (s.lower t) (s.lower host)) s.supermicro
