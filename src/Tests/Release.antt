-- ===== src/Tests/Release.antt =====
-- Moves of one host (src/quads/plugins/builtin/release/standard.py), in a world that answers everything and
-- in one whose provisioner fails.
use quads.Base.{◌≡◌, ◌⊎◌, ◌↔◌, refl, true, false, some, none, [], ◌∷◌, arith}
use quads.Tests.{schedule, db}
use quads.Models.{
  Schedule, Db, pending, ipmi_config, hardware_prep, power_on, provisioning, cleanup, reboot,
  post_install,
}
use quads.Models.Stages.{value, stage_of}
use quads.Plugins.Release.Calls.{
  Call, prepare_host_provisioning, Settings, HostMove, configure_and_verify_ipmi, try_credentials,
  report_progress, is_supermicro, or_fail, fail_move, restore_gate,
}
use quads.Plugins.Release.Going.{is_one}
use quads.Plugins.Release.Seen.{IsClimbing, top, see}
use quads.Plugins.Release.Ends.{IsGated}
use quads.Plugins.Release.Moved.{
  IsPlaced, IsUnbuilt, Recorded, returned, seen, move_and_rebuild-IsClimbing, move_and_rebuild-host,
  move_and_rebuild-failure, move_and_rebuild-success, move_and_rebuild-returned,
}
use quads.Plugins.Release.Hardware.{
  prepare_host_hardware, set_power, apply_bootmode, cleanup_virtual_media, init_caught, init_once,
  is_one_time_boot_set, try_attribute, reboot_for_rebuild,
}
use quads.Plugins.Release.Rebuild.{
  move_and_rebuild, move_host, rebuild_host, rebuild_other, boot_for_rebuild, known_vendor,
  power_off_home, provision, rebuild_supermicro, update_records,
}
use quads.Plugins.Switch.{Answer, affirmed, other}
use quads.Programs.{World, run, ◌>>=◌, perform, both, check, ignoring, attempt, read_text}
use quads.Programs.Triples.{after}

abbrev settings : Settings
settings = record {
  untouchable_hosts = "host9" ∷ [];
  supermicro = "1029u" ∷ [];
  default_boot_order = "director";
  default_os = "RHEL 9";
  infra_location = "lab";
  ipmi_password = "calvin";
  ipmi_credential_retries = 3;
  lower = λ t. t;
  contains = λ word t. false;
}

abbrev wipe : HostMove
wipe = record {
  host = "host1";
  default_cloud = "cloud01";
  bootmode = some "Uefi";
  new_cloud = "cloud02";
  target_cloud = "cloud02";
  assignment = none;
  rebuild = true;
  schedule_id = some 7;
}

abbrev willing : World Call
willing = record { answer = λ events c. affirmed; text = λ events c. some "Dell" }

abbrev unprovisioned : Call → Answer
unprovisioned (prepare_host_provisioning cloud os) = other
unprovisioned _ = affirmed

abbrev failing : World Call
failing = record { answer = λ events c. unprovisioned c; text = λ events c. some "Dell" }

wiped : returned willing settings wipe ≡ some true
unfolding run ◌>>=◌ perform both check ignoring attempt read_text after see
    configure_and_verify_ipmi try_credentials report_progress is_supermicro or_fail fail_move
    restore_gate prepare_host_hardware set_power apply_bootmode cleanup_virtual_media init_caught
    init_once is_one_time_boot_set try_attribute reboot_for_rebuild move_and_rebuild move_host
    rebuild_host rebuild_other boot_for_rebuild known_vendor power_off_home provision
    rebuild_supermicro update_records
wiped = refl

reported :
    (seen willing settings wipe).reports
    ≡ post_install ∷ reboot ∷ cleanup ∷ provisioning ∷ power_on ∷ hardware_prep ∷ ipmi_config ∷ []
unfolding run ◌>>=◌ perform both check ignoring attempt read_text after see
    configure_and_verify_ipmi try_credentials report_progress is_supermicro or_fail fail_move
    restore_gate prepare_host_hardware set_power apply_bootmode cleanup_virtual_media init_caught
    init_once is_one_time_boot_set try_attribute reboot_for_rebuild move_and_rebuild move_host
    rebuild_host rebuild_other boot_for_rebuild known_vendor power_off_home provision
    rebuild_supermicro update_records
reported = refl

not_provisioned :
    (returned failing settings wipe ≡ some false)
    × ((seen failing settings wipe).failures ≡ "Failed at provisioning" ∷ [])
unfolding run ◌>>=◌ perform both check ignoring attempt read_text after see
    configure_and_verify_ipmi try_credentials report_progress is_supermicro or_fail fail_move
    restore_gate prepare_host_hardware set_power apply_bootmode cleanup_virtual_media init_caught
    init_once is_one_time_boot_set try_attribute reboot_for_rebuild move_and_rebuild move_host
    rebuild_host rebuild_other boot_for_rebuild known_vendor power_off_home provision
    rebuild_supermicro update_records
not_provisioned = (refl, refl)

move_and_rebuild-IsClimbing_example : IsClimbing (seen failing settings wipe).reports
move_and_rebuild-IsClimbing_example = move_and_rebuild-IsClimbing failing settings wipe

move_and_rebuild-host_example :
    (returned willing settings wipe ≡ some true)
    ↔ Recorded (IsPlaced wipe) (seen willing settings wipe).host
move_and_rebuild-host_example = move_and_rebuild-host willing settings wipe

move_and_rebuild-failure_example :
    Recorded IsUnbuilt (seen failing settings wipe).host
    × (is_one (seen failing settings wipe).failures ≡ true)
    × IsGated wipe (seen failing settings wipe)
move_and_rebuild-failure_example =
    move_and_rebuild-failure failing settings wipe refl not_provisioned.0

move_and_rebuild-success_example :
    ((seen willing settings wipe).failures ≡ [])
    × ((seen willing settings wipe).gate ≡ some false)
    × ((true ≡ false) ⊎ (top (seen willing settings wipe).reports ≡ stage_of (value post_install)))
move_and_rebuild-success_example = move_and_rebuild-success willing settings wipe wiped

move_and_rebuild-returned_example : returned willing settings wipe ≡ some true
move_and_rebuild-returned_example =
    move_and_rebuild-returned willing settings wipe refl (omega arith) (λ events c. refl)
      (λ events c. ("Dell", refl))

-- The schedule of the move, which has been started.
abbrev started : Schedule
started = record schedule { move_status = some pending }

abbrev started_db : Db
started_db = record db { schedules = started ∷ [] }
