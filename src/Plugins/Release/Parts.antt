-- ===== src/Plugins/Release/Parts.antt =====
-- Each part of a move (src/quads/plugins/builtin/release/standard.py) goes on to a later stage or fails.
use quads.Base.{
  ℕ, ◌≤◌, ◌<◌, refl, String, Bool, true, false, not, ◌&&◌, Option, none, some, if◌then◌else◌, arith,
}
use quads.Models.{
  MoveStatus, ipmi_config, hardware_prep, power_on, provisioning, cleanup, reboot, post_install,
  failed,
}
use quads.Models.Stages.{value, stage_of}
use quads.Plugins.Release.Calls.{
  Call, pxe_persistent, chassis_power_off, prepare_host_provisioning, Settings, HostMove,
  report_progress, or_fail, is_supermicro,
}
use quads.Plugins.Release.Hardware.{
  is_text, prepare_host_hardware, set_power, cleanup_virtual_media, reboot_for_rebuild,
}
use quads.Plugins.Release.Rebuild.{
  os_of, rebuild_supermicro, known_vendor, boot_for_rebuild, provision, rebuild_other, goes_home,
  rebuild_host, power_off_home,
}
use quads.Plugins.Release.Going.{IsGoing, Part, after_report, or_fail-Part, hidden_then-Part}
use quads.Plugins.Release.Seen.{begun, Seen, see}
use quads.Plugins.Release.Hidden.{
  IsHidden, get_vendor-IsHidden, prepare_host_hardware-IsHidden, set_power-IsHidden,
  cleanup_virtual_media-IsHidden, reboot_for_rebuild-IsHidden,
}
use quads.Programs.{Program, done, ◌>>◌, check, attempt}
use quads.Programs.Triples.{Leads, Same, Leads-if, check-Same, attempt-Same}

pub stages_climb :
    (begun < stage_of (value ipmi_config))
    × (stage_of (value ipmi_config) < stage_of (value hardware_prep))
    × (stage_of (value hardware_prep) < stage_of (value power_on))
    × (stage_of (value power_on) < stage_of (value provisioning))
    × (stage_of (value provisioning) < stage_of (value cleanup))
    × (stage_of (value cleanup) < stage_of (value reboot))
    × (stage_of (value reboot) < stage_of (value post_install))
    × (stage_of (value post_install) < stage_of (value failed))
unfolding stage_of value
stages_climb = (
  omega arith,
  omega arith,
  omega arith,
  omega arith,
  omega arith,
  omega arith,
  omega arith,
  omega arith,
)

-- A part that may do nothing.
weaken-IsGoing : (g : Option Bool) (n n₁ : ℕ) (s : Seen) → n ≤ n₁ → IsGoing g n s → IsGoing g n₁ s
unfolding IsGoing
weaken-IsGoing g n n₁ s below going = (going.0, going.1, going.2, going.3, omega arith)

going_on :
    (m : HostMove) (g : Option Bool) (n : ℕ) (s : Seen)
    → IsGoing g n s
    → Leads see s (done true) (Part m g n)
unfolding Leads Part
going_on m g n s going = going

-- The facts of `Part` at an exception.
at_fault :
    (m : HostMove) (g : Option Bool) (n n₁ : ℕ) (s : Seen) → IsGoing g n s → Part m g n₁ s none
unfolding Part IsGoing
at_fault m g n n₁ s going = (going.0, going.3)

module _ (s : Settings) (m : HostMove) (g : Option Bool) where
  abbrev prepared : ℕ
  prepared = stage_of (value ipmi_config)

  abbrev rebooting : ℕ
  rebooting = stage_of (value reboot)

  step-Part :
      (n : ℕ) (status : MoveStatus) (p : Program Call Bool) (x : Seen)
      → IsGoing g n x
      → n < stage_of (value status)
      → stage_of (value status) < stage_of (value failed)
      → ((y : Seen) → IsGoing g (stage_of (value status)) y → Leads see y p (Part m g rebooting))
      → Leads see x (report_progress m status >> p) (Part m g rebooting)
  step-Part n status p x going later early follows =
      after_report m g n status x (Part m g rebooting) p going later early follows
        (λ y h. at_fault m g (stage_of (value status)) rebooting y h)

  provisioned :
      (x : Seen) (n : ℕ)
      → IsGoing g n x
      → (rest : Program Call Bool) → Leads see x rest (Part m g rebooting)
      → Leads see x
          (or_fail m
            (check (prepare_host_provisioning m.new_cloud (os_of s m.assignment)))
            "Failed at provisioning"
            rest)
          (Part m g rebooting)
  unfolding see
  provisioned x n going rest follows =
      or_fail-Part m g n rebooting _ _ rest x (λ y. check-Same see _ y (λ z v. refl)) going follows

  rebuild_supermicro-Part :
      (x : Seen) → IsGoing g prepared x → Leads see x (rebuild_supermicro s m) (Part m g rebooting)
  unfolding rebuild_supermicro see
  rebuild_supermicro-Part x going =
      let order = stages_climb in
      step-Part prepared provisioning _ x going (omega arith) (omega arith) (λ y h.
        provisioned y (stage_of (value provisioning)) h _ (
          step-Part (stage_of (value provisioning)) reboot _ y h (omega arith) (omega arith) (λ z k.
            or_fail-Part m g rebooting rebooting (check pxe_persistent) _ _ z
              (λ y. check-Same see pxe_persistent y (λ z v. refl)) k (going_on m g rebooting z k))))

  boot_call-IsHidden :
      (vendor : Option String) (b : Bool)
      → IsHidden (if is_text vendor "Dell" then reboot_for_rebuild s m b else check pxe_persistent)
  unfolding see
  boot_call-IsHidden vendor b y =
      Leads-if see (Same see y) (is_text vendor "Dell") _ _ y
        (λ e. reboot_for_rebuild-IsHidden s m b y)
        (λ e. check-Same see pxe_persistent y (λ z v. refl))

  boot_for_rebuild-Part :
      (vendor : Option String) (b : Bool) (x : Seen)
      → IsGoing g (stage_of (value cleanup)) x
      → Leads see x (boot_for_rebuild s m vendor b) (Part m g rebooting)
  unfolding boot_for_rebuild
  boot_for_rebuild-Part vendor b x going =
      let order = stages_climb in
      or_fail-Part m g (stage_of (value cleanup)) rebooting _ _ _ x (boot_call-IsHidden vendor b)
        going
        (step-Part (stage_of (value cleanup)) reboot _ x going (omega arith) (omega arith)
          (λ y h. going_on m g rebooting y h))

  provision-Part :
      (vendor : Option String) (b : Bool) (x : Seen)
      → IsGoing g (stage_of (value power_on)) x
      → Leads see x (provision s m vendor b) (Part m g rebooting)
  unfolding provision
  provision-Part vendor b x going =
      let order = stages_climb in
      provisioned x (stage_of (value power_on)) going _ (
        step-Part (stage_of (value power_on)) provisioning _ x going (omega arith) (omega arith)
          (λ y h.
            hidden_then-Part m g (stage_of (value provisioning)) rebooting (cleanup_virtual_media b)
              _ y (cleanup_virtual_media-IsHidden b) h
              (λ cleaned.
                step-Part (stage_of (value provisioning)) cleanup _ y h (omega arith) (omega arith)
                  (boot_for_rebuild-Part vendor cleaned.1))))

  known_vendor-IsHidden : (vendor : Option String) → IsHidden (known_vendor vendor)
  unfolding known_vendor Leads
  known_vendor-IsHidden none = get_vendor-IsHidden
  known_vendor-IsHidden (some vendor) = λ y. refl

  done-IsHidden : (b : Bool) → IsHidden (done b)
  unfolding Leads
  done-IsHidden b y = refl

  rebuild_other-Part :
      (x : Seen) → IsGoing g prepared x → Leads see x (rebuild_other s m) (Part m g rebooting)
  unfolding rebuild_other
  rebuild_other-Part x going =
      let order = stages_climb in
      hidden_then-Part m g prepared rebooting (prepare_host_hardware s _ false) _ x
        (prepare_host_hardware-IsHidden s _ false) going
        (λ hardware.
          or_fail-Part m g prepared rebooting (done hardware.0) _ _ x (done-IsHidden hardware.0)
            going
            (step-Part prepared hardware_prep _ x going (omega arith) (omega arith) (λ y h.
              hidden_then-Part m g (stage_of (value hardware_prep)) rebooting
                (set_power "on" hardware.2) _ y (set_power-IsHidden "on" hardware.2) h
                (λ powered.
                  or_fail-Part m g (stage_of (value hardware_prep)) rebooting (done powered.0) _ _ y
                    (done-IsHidden powered.0) h
                    (step-Part (stage_of (value hardware_prep)) power_on _ y h (omega arith)
                      (omega arith)
                      (λ z k.
                        hidden_then-Part m g (stage_of (value power_on)) rebooting
                          (known_vendor hardware.1) _ z (known_vendor-IsHidden hardware.1) k
                          (λ vendor. provision-Part vendor powered.1 z k)))))))

  pub rebuild_host-Part :
      (x : Seen) → IsGoing g prepared x → Leads see x (rebuild_host s m) (Part m g rebooting)
  unfolding rebuild_host
  rebuild_host-Part x going =
      let order = stages_climb in
      Leads-if see (Part m g rebooting) (m.rebuild && not (goes_home m)) _ _ x
        (λ e.
          Leads-if see (Part m g rebooting) (is_supermicro s m.host) _ _ x
            (λ f. rebuild_supermicro-Part x going) (λ f. rebuild_other-Part x going))
        (λ e. going_on m g rebooting x (weaken-IsGoing g prepared rebooting x (omega arith) going))

  pub power_off_home-Part :
      (x : Seen) → IsGoing g rebooting x → Leads see x (power_off_home s m) (Part m g rebooting)
  unfolding power_off_home see
  power_off_home-Part x going =
      Leads-if see (Part m g rebooting) (goes_home m) _ _ x
        (λ e.
          Leads-if see (Part m g rebooting) (is_supermicro s m.host) _ _ x
            (λ f.
              or_fail-Part m g rebooting rebooting (attempt chassis_power_off) _ _ x
                (λ y. attempt-Same see chassis_power_off y (λ z v. refl)) going
                (going_on m g rebooting x going))
            (λ f.
              hidden_then-Part m g rebooting rebooting (set_power "off" false) _ x
                (set_power-IsHidden "off" false) going
                (λ off.
                  or_fail-Part m g rebooting rebooting (done off.0) _ _ x (done-IsHidden off.0)
                    going (going_on m g rebooting x going))))
        (λ e. going_on m g rebooting x going)
