-- ===== src/Plugins/Release/Hidden.antt =====
-- The work on the hardware (src/quads/plugins/builtin/release/standard.py) leaves all that is seen of a move
-- as it is.
use mathlib.Core.Path.{subst}
use Prim.Native.String.{◌++◌}
use quads.Base.{◌≡◌, refl, String, Bool, true, false, Option, none, some, str_eq, if◌then◌else◌}
use quads.Plugins.Release.Calls.{
  Call, init_hardware, get_vendor, unmount_virtual_media, detach_remote_image, reboot_server,
  change_boot, boot_to_type, set_power_state, request_bios, get_bios_attribute, set_boot_mode,
  Settings, HostMove,
}
use quads.Plugins.Release.Seen.{Seen, see}
use quads.Plugins.Release.Hardware.{
  is_text, init_caught, set_boot_order, prepare_host_hardware, init_once, set_power,
  cleanup_virtual_media, boot_seq, try_attribute, is_one_time_boot_set, set_if_other, apply_given,
  apply_bootmode, reboot_for_rebuild,
}
use quads.Plugins.Switch.{affirmed, other, raised}
use quads.Programs.{
  Program, done, call, ◌>>=◌, ◌>>◌, on, check, perform, attempt, read_text, both, told,
}
use quads.Programs.Triples.{
  Leads, Same, Leads-quiet, Leads-both, Leads-call, check-Same, perform-Same, attempt-Same, IsQuiet,
}

-- A program that does not change what is seen.
abbrev pub IsHidden {ℓ} : {A : Type ℓ} → Program Call A → Type 0
IsHidden p = (s : Seen) → Leads see s p (Same see s)

IsHidden-then {ℓ κ} :
    {A : Type ℓ} {B : Type κ} (p : Program Call A) (f : A → Program Call B)
    → IsHidden p
    → ((a : A) → IsHidden (f a))
    → IsHidden (p >>= f)
IsHidden-then p f first_part rest s =
    Leads-quiet see (Same see s) p f s (first_part s) (λ a. rest a s) refl

IsHidden-both : (p q : Program Call Bool) → IsHidden p → IsHidden q → IsHidden (both p q)
IsHidden-both p q first_part rest s =
    Leads-both see (Same see s) p q s (first_part s) (rest s) refl refl

IsHidden-done {ℓ} : {A : Type ℓ} (a : A) → IsHidden (done a)
unfolding Leads
IsHidden-done a s = refl

IsHidden-if {ℓ} :
    {A : Type ℓ} (b : Bool) (p q : Program Call A)
    → IsHidden p
    → IsHidden q
    → IsHidden (if b then p else q)
IsHidden-if true p q of_p of_q = of_p
IsHidden-if false p q of_p of_q = of_q

IsHidden-read :
    (c : Call) → ((s : Seen) (t : Option String) → see s (told c t) ≡ s) → IsHidden (read_text c)
unfolding Leads read_text
IsHidden-read c quiet s = λ t. quiet s t

IsHidden-check : (c : Call) → IsQuiet see c → IsHidden (check c)
IsHidden-check c quiet s = check-Same see c s quiet

hidden_after {ℓ} :
    {A : Type ℓ} (p : Program Call A) (s s₁ : Seen)
    → s₁ ≡ s
    → IsHidden p
    → Leads see s₁ p (Same see s)
hidden_after p s s₁ e hidden = subst (λ t. Leads see s₁ p (Same see t)) e (hidden s₁)

IsHidden-call {ℓ} :
    {A : Type ℓ} (c : Call) (x y z : Program Call A)
    → IsQuiet see c
    → IsHidden x
    → IsHidden y
    → IsHidden z
    → IsHidden (call c (λ v. on v x y z))
IsHidden-call c x y z quiet of_x of_y of_z s =
    Leads-call see (Same see s) c x y z s (hidden_after x s _ (quiet s affirmed) of_x)
      (hidden_after y s _ (quiet s other) of_y) (hidden_after z s _ (quiet s raised) of_z)

pub init_once-IsHidden : (b : Bool) → IsHidden (init_once b)
unfolding init_once see
init_once-IsHidden true = IsHidden-done true
init_once-IsHidden false = IsHidden-check init_hardware (λ s v. refl)

init_caught-IsHidden : (b : Bool) → IsHidden (init_caught b)
unfolding init_caught see
init_caught-IsHidden true = IsHidden-done true
init_caught-IsHidden false =
    IsHidden-call init_hardware _ _ _ (λ s v. refl) (IsHidden-done true) (IsHidden-done false)
      (IsHidden-done false)

set_boot_order-IsHidden : (b : String) (vendor : Option String) → IsHidden (set_boot_order b vendor)
unfolding see
set_boot_order-IsHidden b vendor =
    IsHidden-if (is_text vendor "Dell") _ _
      (IsHidden-call (change_boot b) _ _ _ (λ s v. refl) (IsHidden-done _) (IsHidden-done _)
        (IsHidden-done _))
      (IsHidden-done _)

pub get_vendor-IsHidden : IsHidden (read_text get_vendor)
unfolding see
get_vendor-IsHidden = IsHidden-read get_vendor (λ s t. refl)

pub prepare_host_hardware-IsHidden :
    (s : Settings) (boot_order : String) (b : Bool)
    → IsHidden (prepare_host_hardware s boot_order b)
unfolding prepare_host_hardware
prepare_host_hardware-IsHidden s boot_order b =
    IsHidden-if (str_eq boot_order s.default_boot_order) _ _ (IsHidden-done _) (
      IsHidden-then (init_caught b) _ (init_caught-IsHidden b) (λ ready.
        IsHidden-if ready _ _
          (IsHidden-then (read_text get_vendor) _ get_vendor-IsHidden
            (set_boot_order-IsHidden boot_order))
          (IsHidden-done _)))

pub set_power-IsHidden : (state : String) (b : Bool) → IsHidden (set_power state b)
unfolding set_power see
set_power-IsHidden state b = IsHidden-then (init_once b) _ (init_once-IsHidden b) (λ ready.
    IsHidden-then (check (set_power_state state)) _
      (IsHidden-check (set_power_state state) (λ s v. refl)) (λ ok. IsHidden-done _))

pub cleanup_virtual_media-IsHidden : (b : Bool) → IsHidden (cleanup_virtual_media b)
unfolding cleanup_virtual_media see
cleanup_virtual_media-IsHidden b = IsHidden-then (init_once b) _ (init_once-IsHidden b) (λ ready.
    IsHidden-then (check unmount_virtual_media) _
      (IsHidden-check unmount_virtual_media (λ s v. refl))
      (λ unmounted.
        IsHidden-then (check detach_remote_image) _
          (IsHidden-check detach_remote_image (λ s v. refl)) (λ detached. IsHidden-done _)))

attribute-IsHidden : (name : String) → IsHidden (read_text (get_bios_attribute name))
unfolding see
attribute-IsHidden name = IsHidden-read (get_bios_attribute name) (λ s t. refl)

try_attribute-IsHidden :
    (name : String) (rest : Option String → Program Call Bool)
    → ((t : Option String) → IsHidden (rest t))
    → IsHidden (try_attribute name rest)
unfolding try_attribute see
try_attribute-IsHidden name rest h =
    IsHidden-then (attempt request_bios) _ (λ s. attempt-Same see request_bios s (λ s v. refl))
      (λ ok.
        IsHidden-if ok _ _
          (IsHidden-then (read_text (get_bios_attribute name)) rest (attribute-IsHidden name) h)
          (IsHidden-done false))

required-IsHidden :
    (name : String) → IsHidden (perform request_bios >> read_text (get_bios_attribute name))
unfolding see
required-IsHidden name =
    IsHidden-then (perform request_bios) _ (λ s. perform-Same see request_bios s (λ s v. refl))
      (λ u. attribute-IsHidden name)

is_one_time_boot_set-IsHidden : IsHidden is_one_time_boot_set
unfolding is_one_time_boot_set
is_one_time_boot_set-IsHidden = try_attribute-IsHidden "BootMode" _ (λ mode.
    try_attribute-IsHidden "OneTimeBootMode" _ (λ current.
      try_attribute-IsHidden ("OneTime" ++ boot_seq mode ++ "Dev") _ (λ device. IsHidden-done _)))

set_if_other-IsHidden :
    (s : Settings) (bootmode : String) (current : Option String)
    → IsHidden (set_if_other s bootmode current)
unfolding see
set_if_other-IsHidden s bootmode none = IsHidden-done false
set_if_other-IsHidden s bootmode (some current) =
    IsHidden-if (str_eq (s.lower bootmode) (s.lower current)) _ _ (IsHidden-done true)
      (IsHidden-check (set_boot_mode bootmode) (λ s v. refl))

apply_given-IsHidden : (s : Settings) (bootmode : Option String) → IsHidden (apply_given s bootmode)
apply_given-IsHidden s none = IsHidden-done true
apply_given-IsHidden s (some bootmode) = IsHidden-if (str_eq bootmode "") _ _ (IsHidden-done true) (
    IsHidden-then (perform request_bios >> read_text (get_bios_attribute "BootMode")) _
      (required-IsHidden "BootMode") (set_if_other-IsHidden s bootmode))

pub reboot_for_rebuild-IsHidden :
    (s : Settings) (m : HostMove) (b : Bool) → IsHidden (reboot_for_rebuild s m b)
unfolding reboot_for_rebuild apply_bootmode see
reboot_for_rebuild-IsHidden s m b = IsHidden-both (init_once b) _ (init_once-IsHidden b) (
    IsHidden-then is_one_time_boot_set _ is_one_time_boot_set-IsHidden (λ already_set.
      IsHidden-both (if already_set then done true else check (boot_to_type s.default_boot_order)) _
        (IsHidden-if already_set _ _ (IsHidden-done true)
          (IsHidden-check (boot_to_type _) (λ s v. refl)))
        (IsHidden-both (apply_given s m.bootmode) _ (apply_given-IsHidden s m.bootmode)
          (IsHidden-check reboot_server (λ s v. refl)))))
