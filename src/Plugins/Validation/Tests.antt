-- ===== src/Plugins/Validation/Tests.antt =====
-- The tests of an environment: `post_system_test` and `post_network_test` of `EnvironmentValidator`
-- (src/quads/plugins/builtin/validators/environment.py). Each says whether it passed.
use quads.Base.{
  ℕ, suc, String, Bool, true, false, not, ◌&&◌, Option, none, some, List, [], ◌∷◌, ◌++◌, map, ltb,
  ◌==◌, str_eq, any, length, if◌then◌else◌,
}
use quads.Programs.{Program, done, fault, call, ◌>>=◌, ◌>>◌, on, check, perform, both, when}
use quads.Plugins.Validation.Calls.{
  Machine, Environment, Call, foreman_credentials, is_build_host, health_check, pxe_persistent,
  init_hardware, get_vendor, boot_to_foreman, set_next_boot_pxe, reboot_server, has_plugins,
  verify_switch, connect, resolve, set_switch_config_applied, fping_hosts, fping_derived, diagnose,
}

-- `try: healthy = await nc.health_check() except OSError: healthy = False`
unfoldable pub is_healthy : String → Program Call Bool
is_healthy host = call (health_check host) (λ v. on v (done true) (done false) (done false))

-- The boot of a pending host; `get_vendor` answers with True for Dell. What raises is caught, and the host
-- is rebooted where there is a plugin.
unfoldable pub reboot_on_error : String → Program Call (Unit {0})
reboot_on_error host = check (has_plugins host) >>= λ b. when b (perform (reboot_server host))

unfoldable pub reboot_or : String → Program Call (Unit {0}) → Program Call (Unit {0})
reboot_or host on_error = call (reboot_server host) (λ v. on v (done tt) (done tt) on_error)

unfoldable pub boot_target : String → Program Call (Unit {0}) → Program Call (Unit {0})
boot_target host on_error = call (get_vendor host) (λ v.
    on v (call (boot_to_foreman host) (λ u. on u (reboot_or host on_error) (done tt) on_error))
      (call (set_next_boot_pxe host) (λ u. on u (reboot_or host on_error) (done tt) on_error))
      on_error)

unfoldable pub boot_pending : Machine → Program Call (Unit {0})
boot_pending h =
    if h.supermicro
    then perform (pxe_persistent h.name)
    else call (init_hardware h.name)
        (λ v. on v (boot_target h.name (reboot_on_error h.name)) (done tt) (reboot_on_error h.name))

-- The loop over the pending hosts.
unfoldable pub boot_all : List Machine → Program Call (Unit {0})
boot_all [] = done tt
boot_all (h ∷ hosts) =
    (is_healthy h.name >>= λ healthy. when healthy (boot_pending h)) >> boot_all hosts

unfoldable pub pending_hosts : List Machine → Program Call (List Machine)
pending_hosts [] = done []
pending_hosts (h ∷ hosts) = check (is_build_host h.name) >>= λ pending.
    pending_hosts hosts >>= λ rest. done (if pending then h ∷ rest else rest)

abbrev pub boot_some : List Machine → Program Call Bool
boot_some [] = done true
boot_some (h ∷ hosts) = boot_all (h ∷ hosts) >> done false

unfoldable pub post_system_test : List Machine → Program Call Bool
post_system_test hosts = both (check foreman_credentials) (pending_hosts hosts >>= boot_some)

-- What the loop over the hosts of the network test comes to: no host is down, no host misses its switch
-- configuration, and the records could be updated.
unfoldable pub switch_configured : Machine → Program Call (Option Bool)
switch_configured h =
    if h.switch_config_applied
    then done (some true)
    else check (verify_switch h.name) >>= λ ok.
        if ok
        then call (set_switch_config_applied h.name)
            (λ v. on v (done (some true)) (done (some true)) (done none))
        else done (some false)

abbrev pub and_healthy : Machine → Program Call Bool → Option Bool → Program Call Bool
and_healthy h rest none = done false
and_healthy h rest (some configured) =
    is_healthy h.name >>= λ healthy. rest >>= λ others_ok. done (healthy && configured && others_ok)

unfoldable pub check_hosts : List Machine → Program Call Bool
check_hosts [] = done true
check_hosts (h ∷ hosts) = let rest = check_hosts hosts in switch_configured h >>= and_healthy h rest

-- The host with the most interfaces, the first of these.
unfoldable pub test_host : Machine → List Machine → Machine
test_host best [] = best
test_host best (h ∷ hosts) =
    let next = if ltb (length best.interfaces) (length h.interfaces) then h else best in
    test_host next hosts

-- The addresses of the hosts on the `i`-th interface; the last one of a host is left out under a VLAN.
unfoldable pub new_ips : Bool → ℕ → String → List String → List Machine → List (String × String)
new_ips has_vlan i interface octets [] = []
new_ips has_vlan i interface octets (h ∷ hosts) =
    let rest = new_ips has_vlan i interface octets hosts in
    if any (λ n. str_eq n interface) h.interfaces
      && not ((suc i == length h.interfaces) && has_vlan)
    then map (λ o. (h.name, o)) octets ++ rest
    else rest

abbrev pub ping_some : List (String × String) → Program Call Bool
ping_some [] = done true
ping_some (ip ∷ ips) = check (fping_derived (ip ∷ ips)) >>= λ ok.
    if ok then done true else (perform diagnose >> done false)

unfoldable pub ping_interfaces :
    Bool → ℕ → List Machine → List (String × List String) → Program Call Bool
ping_interfaces has_vlan i hosts [] = done true
ping_interfaces has_vlan i hosts ((interface, octets) ∷ interfaces) =
    both (ping_some (new_ips has_vlan i interface octets hosts))
      (ping_interfaces has_vlan (suc i) hosts interfaces)

-- `SSHHelper(test_host.name)`, whose errors are caught
unfoldable pub connected : String → Program Call Bool
connected host = call (connect host) (λ v. on v (done true) (done true) (done false))

-- The addresses of the hosts; an error of a resolution is not caught.
unfoldable pub resolve_hosts : List Machine → Program Call Bool
resolve_hosts [] = done true
resolve_hosts (h ∷ hosts) =
    let rest = resolve_hosts hosts in call (resolve h.name) (λ v. on v rest rest fault)

unfoldable pub post_network_test : Environment → Machine → List Machine → Program Call Bool
post_network_test e h hosts = both (check_hosts (h ∷ hosts)) (
    both (connected (test_host h hosts).name) (
      both (check (fping_hosts (map (λ x. x.name) (h ∷ hosts))))
        (both (resolve_hosts (h ∷ hosts)) (ping_interfaces e.has_vlan 0 (h ∷ hosts) e.interfaces))))
