-- ===== src/Plugins/Release/Rebuild.antt =====
-- `move_and_rebuild` of `StandardReleasePlugin`. Each part says whether the move goes on; where it does
-- not, the failure has been recorded.
use Prim.Native.String.{◌++◌}
use quads.Base.{
  String, Bool, true, false, not, ◌&&◌, Option, none, some, str_eq, any, if◌then◌else◌,
}
use quads.Models.{ipmi_config, hardware_prep, power_on, provisioning, cleanup, reboot, post_install}
use quads.Plugins.Release.Calls.{
  Call, get_host, get_cloud, get_active_cloud_assignment, disable_user, pxe_persistent,
  chassis_power_off, prepare_host_provisioning, get_vendor, get_current_schedules,
  update_first_schedule, update_host, Settings, Lease, HostMove, text_or_default, report_progress,
  success_data, fail_move, or_fail, configure_and_verify_ipmi, is_supermicro,
}
use quads.Plugins.Release.Hardware.{
  is_text, prepare_host_hardware, set_power, cleanup_virtual_media, reboot_for_rebuild,
}
use quads.Programs.{Program, done, ◌>>=◌, ◌>>◌, check, perform, attempt, read_text, both, when}

abbrev pub boot_order_of : Settings → Option Lease → String
boot_order_of s none = s.default_boot_order
boot_order_of s (some lease) = text_or_default lease.boot_order s.default_boot_order

abbrev pub os_of : Settings → Option Lease → String
os_of s none = s.default_os
os_of s (some lease) = text_or_default lease.ostype s.default_os

abbrev pub ticket_password : Settings → Option String → String
ticket_password s none = s.ipmi_password
ticket_password s (some ticket) =
    if str_eq ticket "" then s.ipmi_password else s.infra_location ++ "@" ++ ticket

-- `ipmi_new_pass`
abbrev pub password_of : Settings → Option Lease → String
password_of s none = s.ipmi_password
password_of s (some lease) = ticket_password s lease.ticket

-- The rebuild of a Supermicro host.
unfoldable pub rebuild_supermicro : Settings → HostMove → Program Call Bool
rebuild_supermicro s m = do
  report_progress m provisioning
  or_fail m (check (prepare_host_provisioning m.new_cloud (os_of s m.assignment)))
      "Failed at provisioning"
      (do
        report_progress m reboot
        or_fail m (check pxe_persistent) "Failed at power_on" (done true))

-- `if vendor is None: vendor = self.hardware_dispatcher.get_vendor()`
unfoldable pub known_vendor : Option String → Program Call (Option String)
known_vendor none = read_text get_vendor
known_vendor (some vendor) = done (some vendor)

-- The last part of the rebuild of another host: it boots.
unfoldable pub boot_for_rebuild : Settings → HostMove → Option String → Bool → Program Call Bool
boot_for_rebuild s m vendor initialized =
    or_fail m
      (if is_text vendor "Dell" then reboot_for_rebuild s m initialized else check pxe_persistent)
      "Failed at reboot" (do report_progress m reboot; done true)

unfoldable pub provision : Settings → HostMove → Option String → Bool → Program Call Bool
provision s m vendor initialized =
    or_fail m (check (prepare_host_provisioning m.new_cloud (os_of s m.assignment)))
      "Failed at provisioning"
      (do
        report_progress m provisioning
        cleaned ← cleanup_virtual_media initialized
        report_progress m cleanup
        boot_for_rebuild s m vendor cleaned.1)

-- The rebuild of another host.
unfoldable pub rebuild_other : Settings → HostMove → Program Call Bool
rebuild_other s m = do
  prepared ← prepare_host_hardware s (boot_order_of s m.assignment) false
  or_fail m (done prepared.0) "Failed at hardware_prep" (do
    report_progress m hardware_prep
    powered ← set_power "on" prepared.2
    or_fail m (done powered.0) "Failed at power_on" (do
      report_progress m power_on
      vendor ← known_vendor prepared.1
      provision s m vendor powered.1))

abbrev pub goes_home : HostMove → Bool
goes_home m = str_eq m.target_cloud m.default_cloud

-- `if rebuild and target_cloud.name != host_obj.default_cloud.name: ...`
unfoldable pub rebuild_host : Settings → HostMove → Program Call Bool
rebuild_host s m =
    if m.rebuild && not (goes_home m)
    then (if is_supermicro s m.host then rebuild_supermicro s m else rebuild_other s m)
    else done true

-- `if target_cloud.name == host_obj.default_cloud.name: ...`
unfoldable pub power_off_home : Settings → HostMove → Program Call Bool
power_off_home s m =
    if goes_home m
    then (if is_supermicro s m.host
        then or_fail m (attempt chassis_power_off) "Failed at power_on" (done true)
        else set_power "off" false >>= λ off.
            or_fail m (done off.0) "Failed at power_on" (done true))
    else done true

-- The updates of the schedule and of the host.
unfoldable pub update_records : HostMove → Program Call Bool
update_records m = do
  has_schedule ← check get_current_schedules
  when has_schedule (perform update_first_schedule)
  perform (update_host (success_data m))
  report_progress m post_install
  done true

-- What comes after the credentials.
unfoldable pub move_host : Settings → HostMove → Program Call Bool
move_host s m = do
  report_progress m ipmi_config
  when m.rebuild (check disable_user >>= λ _. done tt)
  both (rebuild_host s m) (both (power_off_home s m) (update_records m))

unfoldable pub move_and_rebuild : Settings → HostMove → Program Call Bool
move_and_rebuild s m = if any (λ h. str_eq h m.host) s.untouchable_hosts then done false else (do
  perform get_host
  perform get_cloud
  perform get_active_cloud_assignment
  ok ← configure_and_verify_ipmi s (password_of s m.assignment) m.rebuild
  if ok then move_host s m else fail_move m "Failed at ipmi_config")
