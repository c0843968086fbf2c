-- ===== src/Plugins/Release/Hardware.antt =====
-- How `StandardReleasePlugin` prepares, switches and reboots a host. The flag `hardware_initialized` is
-- passed on as a Boolean.
use Prim.Native.String.{◌++◌}
use quads.Base.{String, Bool, true, false, ◌&&◌, Option, none, some, str_eq, present, if◌then◌else◌}
use quads.Plugins.Release.Calls.{
  Call, init_hardware, get_vendor, unmount_virtual_media, detach_remote_image, reboot_server,
  change_boot, boot_to_type, set_power_state, request_bios, get_bios_attribute, set_boot_mode,
  Settings, HostMove,
}
use quads.Programs.{Program, done, call, ◌>>=◌, ◌>>◌, on, check, perform, attempt, read_text, both}

-- `text == word`, which None does not equal
abbrev pub is_text : Option String → String → Bool
is_text none word = false
is_text (some t) word = str_eq t word

-- The `try` of `prepare_host_hardware`, which catches what `init` raises.
unfoldable pub init_caught : Bool → Program Call Bool
init_caught true = done true
init_caught false = call init_hardware (λ v. on v (done true) (done false) (done false))

-- `if vendor == "Dell": ...`
abbrev pub set_boot_order : String → Option String → Program Call (Bool × Option String × Bool)
set_boot_order boot_order vendor =
    if is_text vendor "Dell"
    then call (change_boot boot_order) (λ v.
      on v (done (true, vendor, true)) (done (false, vendor, true)) (done (false, none, true)))
    else done (true, vendor, true)

-- `prepare_host_hardware`: whether it succeeded, the vendor, and the flag
unfoldable pub prepare_host_hardware :
    Settings → String → Bool → Program Call (Bool × Option String × Bool)
prepare_host_hardware s boot_order initialized =
    if str_eq boot_order s.default_boot_order
    then done (true, none, initialized)
    else init_caught initialized >>= λ ready.
        if ready
        then read_text get_vendor >>= set_boot_order boot_order
        else done (false, none, false)

-- `if not self.hardware_initialized: self.hardware_initialized = await ...init(...)`
unfoldable pub init_once : Bool → Program Call Bool
init_once true = done true
init_once false = check init_hardware

-- `power_on_host` and `power_off_host`
unfoldable pub set_power : String → Bool → Program Call (Bool × Bool)
set_power state initialized = do
  ready ← init_once initialized
  ok ← check (set_power_state state)
  done (ok, ready)

unfoldable pub cleanup_virtual_media : Bool → Program Call (Bool × Bool)
cleanup_virtual_media initialized = do
  ready ← init_once initialized
  unmounted ← check unmount_virtual_media
  detached ← check detach_remote_image
  done (unmounted && detached, ready)

abbrev pub boot_seq : Option String → String
boot_seq mode = if is_text mode "Uefi" then "UefiBootSeq" else "BootSeq"

-- An attribute, inside a `try` whose `except` leads to `return False`.
unfoldable pub try_attribute : String → (Option String → Program Call Bool) → Program Call Bool
try_attribute name rest = attempt request_bios >>= λ ok.
    if ok then read_text (get_bios_attribute name) >>= rest else done false

-- `_is_one_time_boot_set`
unfoldable pub is_one_time_boot_set : Program Call Bool
is_one_time_boot_set = try_attribute "BootMode" λ boot_mode.
    try_attribute "OneTimeBootMode" λ current_mode.
      try_attribute ("OneTime" ++ boot_seq boot_mode ++ "Dev") λ current_device.
        done (is_text current_mode ("OneTime" ++ boot_seq boot_mode) && present current_device)

abbrev pub set_if_other : Settings → String → Option String → Program Call Bool
set_if_other s bootmode none = done false
set_if_other s bootmode (some current) =
    if str_eq (s.lower bootmode) (s.lower current)
    then done true
    else check (set_boot_mode bootmode)

-- What the request raises ends the move.
abbrev pub apply_given : Settings → Option String → Program Call Bool
apply_given s none = done true
apply_given s (some bootmode) =
    if str_eq bootmode ""
    then done true
    else (perform request_bios >> read_text (get_bios_attribute "BootMode"))
      >>= set_if_other s bootmode

-- `_apply_bootmode`
unfoldable pub apply_bootmode : Settings → HostMove → Program Call Bool
apply_bootmode s m = apply_given s m.bootmode

-- `reboot_for_rebuild`
unfoldable pub reboot_for_rebuild : Settings → HostMove → Bool → Program Call Bool
reboot_for_rebuild s m initialized = both (init_once initialized) (do
  already_set ← is_one_time_boot_set
  both (if already_set then done true else check (boot_to_type s.default_boot_order))
      (both (apply_bootmode s m) (check reboot_server)))
