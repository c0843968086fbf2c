-- ===== src/Plugins/Release/Completion.antt =====
-- A move whose calls are all answered (src/quads/plugins/builtin/release/standard.py) is brought to its end.
use quads.Base.{
  ℕ, zero, suc, ◌≤◌, ◌≡◌, refl, String, Bool, true, false, not, ◌&&◌, Option, none, some, str_eq,
  any, if◌then◌else◌, arith,
}
use quads.Models.{
  MoveStatus, provisioning, reboot, hardware_prep, power_on, cleanup, post_install, ipmi_config,
}
use quads.Plugins.Release.Calls.{
  Call, Settings, HostMove, has_id, report_progress, or_fail, try_credentials,
  configure_and_verify_ipmi, is_supermicro,
}
use quads.Plugins.Release.Hardware.{
  is_text, init_caught, set_boot_order, prepare_host_hardware, init_once, set_power,
  cleanup_virtual_media, try_attribute, is_one_time_boot_set, apply_given, apply_bootmode,
  reboot_for_rebuild,
}
use quads.Plugins.Release.Rebuild.{
  password_of, rebuild_supermicro, known_vendor, boot_for_rebuild, provision, rebuild_other,
  goes_home, rebuild_host, power_off_home, update_records, move_host, move_and_rebuild,
}
use quads.Programs.{Program, done, ◌>>=◌, check, perform, ignoring, attempt, read_text, both, when}
use quads.Programs.Completion.{Completes, Completes-bind, Completes-both}

abbrev IsTrue : Bool → Type 0
IsTrue b = b ≡ true

abbrev Any {ℓ} : {A : Type ℓ} → A → Type 0
Any a = Unit

Any-then {ℓ} :
    {A : Type ℓ} (p : Program Call A) (f : A → Program Call Bool)
    → Completes p Any
    → ((a : A) → Completes (f a) IsTrue)
    → Completes (p >>= f) IsTrue
Any-then p f h follows = Completes-bind Any IsTrue p f h (λ a u. follows a)

completes_if {ℓ} :
    {A : Type ℓ} (Q : A → Type 0) (b : Bool) (p q : Program Call A)
    → Completes p Q
    → Completes q Q
    → Completes (if b then p else q) Q
completes_if Q true p q of_p of_q = of_p
completes_if Q false p q of_p of_q = of_q

report_lem : (m : HostMove) (status : MoveStatus) → Completes (report_progress m status) Any
unfolding Completes report_progress ignoring
report_lem m status = completes_if Any (has_id m.schedule_id) _ (done tt) tt tt

or_fail_lem :
    (m : HostMove) (p : Program Call Bool) (text : String) (rest : Program Call Bool)
    → Completes p IsTrue
    → Completes rest IsTrue
    → Completes (or_fail m p text rest) IsTrue
unfolding or_fail
or_fail_lem m p text rest h follows = Completes-bind IsTrue IsTrue p _ h (λ b e. rw e follows)

init_once_lem : (b : Bool) → Completes (init_once b) IsTrue
unfolding Completes init_once check
init_once_lem true = refl
init_once_lem false = refl

init_caught_lem : (b : Bool) → Completes (init_caught b) IsTrue
unfolding Completes init_caught
init_caught_lem true = refl
init_caught_lem false = refl

set_boot_order_lem :
    (boot_order : String) (vendor : Option String)
    → Completes (set_boot_order boot_order vendor) (λ r. r.0 ≡ true)
unfolding Completes
set_boot_order_lem boot_order vendor = completes_if _ (is_text vendor "Dell") _ _ refl refl

prepare_lem :
    (s : Settings) (boot_order : String) (b : Bool)
    → Completes (prepare_host_hardware s boot_order b) (λ r. r.0 ≡ true)
unfolding Completes prepare_host_hardware read_text ◌>>=◌
prepare_lem s boot_order b = completes_if _ (str_eq boot_order s.default_boot_order) _ _ refl (
    Completes-bind IsTrue (λ r. r.0 ≡ true) (init_caught b) _ (init_caught_lem b)
      (λ ready e. rw e (λ t. set_boot_order_lem boot_order (some t))))

set_power_lem : (state : String) (b : Bool) → Completes (set_power state b) (λ r. r.0 ≡ true)
unfolding Completes set_power check ◌>>=◌
set_power_lem state b =
    Completes-bind IsTrue (λ r. r.0 ≡ true) (init_once b) _ (init_once_lem b) (λ ready e. refl)

cleanup_lem : (b : Bool) → Completes (cleanup_virtual_media b) Any
unfolding Completes cleanup_virtual_media check ◌>>=◌
cleanup_lem b = Completes-bind IsTrue Any (init_once b) _ (init_once_lem b) (λ ready e. tt)

apply_given_lem :
    (s : Settings) (bootmode : Option String) → Completes (apply_given s bootmode) IsTrue
unfolding Completes check perform read_text ◌>>=◌
apply_given_lem s none = refl
apply_given_lem s (some bootmode) =
    completes_if IsTrue (str_eq bootmode "") _ _ refl
      (λ t. completes_if IsTrue (str_eq (s.lower bootmode) (s.lower t)) _ _ refl refl)

one_time_lem : Completes is_one_time_boot_set Any
unfolding Completes is_one_time_boot_set try_attribute attempt read_text ◌>>=◌
one_time_lem = λ a b c. tt

reboot_lem : (s : Settings) (m : HostMove) (b : Bool) → Completes (reboot_for_rebuild s m b) IsTrue
unfolding reboot_for_rebuild apply_bootmode Completes check
reboot_lem s m b = Completes-both (init_once b) _ (init_once_lem b) (
    Any-then is_one_time_boot_set _ one_time_lem (λ already_set.
      Completes-both (if already_set then done true else check _) _
        (completes_if IsTrue already_set _ _ refl refl)
        (Completes-both (apply_given s m.bootmode) _ (apply_given_lem s m.bootmode) refl)))

rebuild_supermicro_lem : (s : Settings) (m : HostMove) → Completes (rebuild_supermicro s m) IsTrue
unfolding rebuild_supermicro Completes check
rebuild_supermicro_lem s m =
    Any-then (report_progress m provisioning) _ (report_lem m provisioning) (λ u.
      or_fail_lem m (check _) _ _ refl (
        Any-then (report_progress m reboot) _ (report_lem m reboot)
          (λ u. or_fail_lem m (check _) _ _ refl refl)))

boot_lem :
    (s : Settings) (m : HostMove) (vendor : Option String) (b : Bool)
    → Completes (boot_for_rebuild s m vendor b) IsTrue
unfolding boot_for_rebuild Completes check
boot_lem s m vendor b =
    or_fail_lem m (if is_text vendor "Dell" then reboot_for_rebuild s m b else check _) _ _
      (completes_if IsTrue (is_text vendor "Dell") _ _ (reboot_lem s m b) refl)
      (Any-then (report_progress m reboot) _ (report_lem m reboot) (λ u. refl))

provision_lem :
    (s : Settings) (m : HostMove) (vendor : Option String) (b : Bool)
    → Completes (provision s m vendor b) IsTrue
unfolding provision Completes check
provision_lem s m vendor b = or_fail_lem m (check _) _ _ refl (
    Any-then (report_progress m provisioning) _ (report_lem m provisioning) (λ u.
      Any-then (cleanup_virtual_media b) _ (cleanup_lem b) (λ cleaned.
        Any-then (report_progress m cleanup) _ (report_lem m cleanup)
          (λ v. boot_lem s m vendor cleaned.1))))

known_vendor_lem : (vendor : Option String) → Completes (known_vendor vendor) Any
unfolding known_vendor Completes read_text
known_vendor_lem none = λ t. tt
known_vendor_lem (some vendor) = tt

rebuild_other_lem : (s : Settings) (m : HostMove) → Completes (rebuild_other s m) IsTrue
unfolding rebuild_other Completes
rebuild_other_lem s m =
    Completes-bind (λ r. r.0 ≡ true) IsTrue (prepare_host_hardware s _ false) _
      (prepare_lem s _ false)
      (λ r e. or_fail_lem m (done r.0) _ _ e (
        Any-then (report_progress m hardware_prep) _ (report_lem m hardware_prep) (λ u.
          Completes-bind (λ p. p.0 ≡ true) IsTrue (set_power "on" r.2) _ (set_power_lem "on" r.2)
            (λ p f. or_fail_lem m (done p.0) _ _ f (
              Any-then (report_progress m power_on) _ (report_lem m power_on) (λ v.
                Any-then (known_vendor r.1) _ (known_vendor_lem r.1)
                  (λ vendor. provision_lem s m vendor p.1)))))))

rebuild_host_lem : (s : Settings) (m : HostMove) → Completes (rebuild_host s m) IsTrue
unfolding rebuild_host Completes
rebuild_host_lem s m =
    completes_if IsTrue (m.rebuild && not (goes_home m)) _ _
      (completes_if IsTrue (is_supermicro s m.host) _ _ (rebuild_supermicro_lem s m)
        (rebuild_other_lem s m))
      refl

power_off_home_lem : (s : Settings) (m : HostMove) → Completes (power_off_home s m) IsTrue
unfolding power_off_home Completes attempt
power_off_home_lem s m =
    completes_if IsTrue (goes_home m) _ _
      (completes_if IsTrue (is_supermicro s m.host) _ _ (or_fail_lem m (attempt _) _ _ refl refl) (
        Completes-bind (λ p. p.0 ≡ true) IsTrue (set_power "off" false) _
          (set_power_lem "off" false) (λ off e. or_fail_lem m (done off.0) _ _ e refl)))
      refl

update_records_lem : (m : HostMove) → Completes (update_records m) IsTrue
unfolding update_records Completes check perform ◌>>=◌
update_records_lem m =
    Any-then (report_progress m post_install) _ (report_lem m post_install) (λ u. refl)

move_host_lem : (s : Settings) (m : HostMove) → Completes (move_host s m) IsTrue
unfolding move_host Completes check ◌>>=◌
move_host_lem s m = Any-then (report_progress m ipmi_config) _ (report_lem m ipmi_config) (λ u.
    Any-then (when m.rebuild _) _ (completes_if Any m.rebuild _ _ tt tt) (λ v.
      Completes-both (rebuild_host s m) _ (rebuild_host_lem s m)
        (Completes-both (power_off_home s m) _ (power_off_home_lem s m) (update_records_lem m))))

retries_lem : (password : String) (n : ℕ) → 1 ≤ n → Completes (try_credentials password n) IsTrue
unfolding try_credentials Completes both check ◌>>=◌
retries_lem password zero positive = absurd (omega arith)
retries_lem password (suc n) positive = refl

credentials_lem :
    (s : Settings) (password : String) (rebuild : Bool)
    → 1 ≤ s.ipmi_credential_retries
    → Completes (configure_and_verify_ipmi s password rebuild) IsTrue
unfolding configure_and_verify_ipmi Completes
credentials_lem s password rebuild positive =
    Completes-bind IsTrue IsTrue (try_credentials password s.ipmi_credential_retries) _
      (retries_lem password s.ipmi_credential_retries positive) (λ ok e. rw e refl)

pub move_and_rebuild-Completes :
    (s : Settings) (m : HostMove)
    → any (λ h. str_eq h m.host) s.untouchable_hosts ≡ false
    → 1 ≤ s.ipmi_credential_retries
    → Completes (move_and_rebuild s m) IsTrue
unfolding move_and_rebuild Completes perform ◌>>=◌
move_and_rebuild-Completes s m touchable positive =
    let credentials = credentials_lem s (password_of s m.assignment) m.rebuild positive in
    rw touchable (
      Completes-bind IsTrue IsTrue (configure_and_verify_ipmi s _ m.rebuild) _ credentials
        (λ ok e. rw e (move_host_lem s m)))
