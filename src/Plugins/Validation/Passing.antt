-- ===== src/Plugins/Validation/Passing.antt =====
-- The system test and the network test of an environment
-- (src/quads/plugins/builtin/validators/environment.py) pass only where they meet no problem.
use quads.Base.{
  ℕ, suc, ◌≡◌, refl, ◌∙◌, String, Bool, true, false, ◌&&◌, Option, none, some, List, [], ◌∷◌, map,
  if◌then◌else◌,
}
use quads.Programs.{Program, done, fault, call, ◌>>◌, on, check, perform}
use quads.Programs.Triples.{Leads, Leads-bind, Leads-call, Leads-if}
use quads.Plugins.Validation.Calls.{
  Machine, Environment, Call, foreman_credentials, is_build_host, verify_switch,
  set_switch_config_applied, resolve, fping_hosts, fping_derived, diagnose,
}
use quads.Plugins.Validation.Noted.{Noted, note, IsUngranted, Tested, IsTest, Harmless}
use quads.Plugins.Validation.Testing.{
  both-IsTest, check-IsTest, done-IsTest, IsHarmless-perform, is_healthy-IsTest, connected-IsTest,
  boot_all-IsHarmless, Tested-harmless,
}
use quads.Plugins.Validation.Tests.{
  is_healthy, boot_all, pending_hosts, boot_some, post_system_test, switch_configured, and_healthy,
  check_hosts, test_host, new_ips, ping_some, ping_interfaces, connected, resolve_hosts,
  post_network_test,
}

-- The pending hosts: there are none where there is no problem.
unfoldable Listed : Noted → Noted → Option (List Machine) → Type 0
Listed s s₁ (some []) = IsUngranted s₁ × (s₁.problem ≡ s.problem)
Listed s s₁ (some (_ ∷ _)) = IsUngranted s₁
Listed s s₁ none = IsUngranted s₁

Listed-harmless : (s s₁ : Noted) (r : Option (List Machine)) → Listed s s₁ r → IsUngranted s₁
unfolding Listed
Listed-harmless s s₁ (some []) h = h.0
Listed-harmless s s₁ (some (_ ∷ _)) h = h
Listed-harmless s s₁ none h = h

-- Whether a host is pending: where it is not, no problem is met.
unfoldable Asked : Noted → Noted → Option Bool → Type 0
Asked s s₁ (some false) = IsUngranted s₁ × (s₁.problem ≡ s.problem)
Asked s s₁ (some true) = IsUngranted s₁
Asked s s₁ none = IsUngranted s₁

is_build_host-Asked :
    (host : String) (s : Noted)
    → IsUngranted s
    → Leads note s (check (is_build_host host)) (Asked s)
unfolding Asked Leads check note
is_build_host-Asked host s h =
    Leads-call note (Asked s) (is_build_host host) (done true) (done false) fault s h (h, refl) h

-- The list of pending hosts once the first host and the others have been asked for.
joined-Listed :
    (m : Machine) (s s₁ s₂ : Noted) (pending : Bool) (rest : List Machine)
    → Asked s s₁ (some pending)
    → Listed s₁ s₂ (some rest)
    → Listed s s₂ (some (if pending then m ∷ rest else rest))
unfolding Asked Listed
joined-Listed m s s₁ s₂ true [] asked h = h.0
joined-Listed m s s₁ s₂ true (x ∷ rest) asked h = h
joined-Listed m s s₁ s₂ false [] asked h = (h.0, h.1 ∙ asked.1)
joined-Listed m s s₁ s₂ false (x ∷ rest) asked h = h

Asked-harmless : (s s₁ : Noted) (r : Option Bool) → Asked s s₁ r → IsUngranted s₁
unfolding Asked
Asked-harmless s s₁ (some true) h = h
Asked-harmless s s₁ (some false) h = h.0
Asked-harmless s s₁ none h = h

pending_hosts-Listed :
    (hosts : List Machine) (s : Noted)
    → IsUngranted s
    → Leads note s (pending_hosts hosts) (Listed s)
unfolding pending_hosts Listed Leads
pending_hosts-Listed [] s h = (h, refl)
pending_hosts-Listed (m ∷ hosts) s h =
    Leads-bind note (Asked s) (Listed s) (check (is_build_host m.name)) _ s
      (is_build_host-Asked m.name s h)
      (λ s₁ pending asked.
        Leads-bind note (Listed s₁) (Listed s) (pending_hosts hosts) _ s₁
          (pending_hosts-Listed hosts s₁ (Asked-harmless s s₁ (some pending) asked))
          (λ s₂ rest listed. joined-Listed m s s₁ s₂ pending rest asked listed)
          (λ s₂ k. Listed-harmless s₁ s₂ none k))
      (λ s₁ k. Asked-harmless s s₁ none k)

boot_some-Tested :
    (hosts : List Machine) (s s₁ : Noted)
    → Listed s s₁ (some hosts)
    → Leads note s₁ (boot_some hosts) (Tested s)
unfolding Listed Leads Tested Harmless
boot_some-Tested [] s s₁ h = h
boot_some-Tested (m ∷ hosts) s s₁ h =
    Leads-bind note Harmless (Tested s) (boot_all (m ∷ hosts)) _ s₁
      (boot_all-IsHarmless (m ∷ hosts) s₁ h) (λ s₂ a k. k) (λ s₂ k. k)

pub post_system_test-IsTest : (hosts : List Machine) → IsTest (post_system_test hosts)
unfolding post_system_test note Tested
post_system_test-IsTest hosts =
    both-IsTest (check foreman_credentials) _
      (check-IsTest foreman_credentials (λ s. refl) (λ s h. h) (λ s h. h))
      (λ s h.
        Leads-bind note (Listed s) (Tested s) (pending_hosts hosts) _ s
          (pending_hosts-Listed hosts s h) (λ s₁ pending k. boot_some-Tested pending s s₁ k)
          (λ s₁ k. Listed-harmless s s₁ none k))

-- The switch of a host: it is configured where there is no problem.
unfoldable Configured : Noted → Noted → Option (Option Bool) → Type 0
Configured s s₁ (some (some true)) = IsUngranted s₁ × (s₁.problem ≡ s.problem)
Configured s s₁ _ = IsUngranted s₁

verify_switch-IsTest : (host : String) → IsTest (check (verify_switch host))
unfolding note
verify_switch-IsTest host = check-IsTest (verify_switch host) (λ s. refl) (λ s h. h) (λ s h. h)

-- What follows the check of the switch.
applied-Configured :
    (m : Machine) (s s₁ : Noted) (ok : Bool)
    → Tested s s₁ (some ok)
    → Leads note s₁
        (if ok
          then call
              (set_switch_config_applied m.name)
              (λ v. on v (done (some true)) (done (some true)) (done none))
          else done (some false))
        (Configured s)
unfolding Configured Tested Leads note
applied-Configured m s s₁ true t =
    Leads-call note (Configured s) (set_switch_config_applied m.name) (done (some true))
      (done (some true)) (done none) s₁ t t t.0
applied-Configured m s s₁ false t = t

Configured-harmless :
    (s s₁ : Noted) (configured : Bool) → Configured s s₁ (some (some configured)) → IsUngranted s₁
unfolding Configured
Configured-harmless s s₁ true h = h.0
Configured-harmless s s₁ false h = h

Configured-fault : (s s₁ : Noted) → Configured s s₁ none → Tested s s₁ none
unfolding Configured Tested
Configured-fault s s₁ h = h

switch_configured-Configured :
    (m : Machine) (s : Noted) → IsUngranted s → Leads note s (switch_configured m) (Configured s)
unfolding switch_configured Configured Leads
switch_configured-Configured m s h =
    Leads-if note (Configured s) m.switch_config_applied _ _ s (λ e. (h, refl))
      (λ e.
        Leads-bind note (Tested s) (Configured s) (check (verify_switch m.name)) _ s
          (verify_switch-IsTest m.name s h) (applied-Configured m s)
          (λ s₁ k. Tested-harmless s s₁ none k))

-- The end of the loop over the hosts.
combined-Tested :
    (s s₁ s₂ s₃ : Noted) (healthy configured others_ok : Bool)
    → Configured s s₁ (some (some configured))
    → Tested s₁ s₂ (some healthy)
    → Tested s₂ s₃ (some others_ok)
    → Tested s s₃ (some (healthy && configured && others_ok))
unfolding Configured Tested
combined-Tested s s₁ s₂ s₃ true true true c t u = (u.0, u.1 ∙ t.1 ∙ c.1)
combined-Tested s s₁ s₂ s₃ true true false c t u = u
combined-Tested s s₁ s₂ s₃ true false true c t u = u.0
combined-Tested s s₁ s₂ s₃ true false false c t u = u
combined-Tested s s₁ s₂ s₃ false true true c t u = u.0
combined-Tested s s₁ s₂ s₃ false true false c t u = u
combined-Tested s s₁ s₂ s₃ false false true c t u = u.0
combined-Tested s s₁ s₂ s₃ false false false c t u = u

and_healthy-Tested :
    (m : Machine) (rest : Program Call Bool) (s s₁ : Noted) (configured : Option Bool)
    → IsTest rest
    → Configured s s₁ (some configured)
    → Leads note s₁ (and_healthy m rest configured) (Tested s)
unfolding Leads Tested Configured
and_healthy-Tested m rest s s₁ none of_rest h = h
and_healthy-Tested m rest s s₁ (some configured) of_rest h =
    Leads-bind note (Tested s₁) (Tested s) (is_healthy m.name) _ s₁
      (is_healthy-IsTest m.name s₁ (Configured-harmless s s₁ configured h))
      (λ s₂ healthy t.
        Leads-bind note (Tested s₂) (Tested s) rest _ s₂
          (of_rest s₂ (Tested-harmless s₁ s₂ (some healthy) t))
          (λ s₃ others_ok u. combined-Tested s s₁ s₂ s₃ healthy configured others_ok h t u)
          (λ s₃ u. u))
      (λ s₂ t. t)

check_hosts-IsTest : (hosts : List Machine) → IsTest (check_hosts hosts)
unfolding check_hosts
check_hosts-IsTest [] = done-IsTest true
check_hosts-IsTest (m ∷ hosts) = λ s h.
    Leads-bind note (Configured s) (Tested s) (switch_configured m) _ s
      (switch_configured-Configured m s h)
      (λ s₁ configured k.
        and_healthy-Tested m (check_hosts hosts) s s₁ configured (check_hosts-IsTest hosts) k)
      (λ s₁ k. Configured-fault s s₁ k)

-- What follows the ping of an interface.
pinged-Tested :
    (s s₁ : Noted) (ok : Bool)
    → Tested s s₁ (some ok)
    → Leads note s₁ (if ok then done true else (perform diagnose >> done false)) (Tested s)
unfolding note Tested Leads Harmless
pinged-Tested s s₁ true t = t
pinged-Tested s s₁ false t =
    Leads-bind note Harmless (Tested s) (perform diagnose) _ s₁
      (IsHarmless-perform diagnose (λ s v h. h) s₁ t) (λ s₂ a k. k) (λ s₂ k. k)

ping_some-IsTest : (ips : List (String × String)) → IsTest (ping_some ips)
unfolding note Tested
ping_some-IsTest [] = done-IsTest true
ping_some-IsTest (ip ∷ ips) = λ s h.
    Leads-bind note (Tested s) (Tested s) (check (fping_derived (ip ∷ ips))) _ s
      (check-IsTest (fping_derived (ip ∷ ips)) (λ s. refl) (λ s h. h) (λ s h. h) s h)
      (pinged-Tested s) (λ s₁ t. t)

ping_interfaces-IsTest :
    (has_vlan : Bool) (i : ℕ) (hosts : List Machine) (interfaces : List (String × List String))
    → IsTest (ping_interfaces has_vlan i hosts interfaces)
unfolding ping_interfaces
ping_interfaces-IsTest has_vlan i hosts [] = done-IsTest true
ping_interfaces-IsTest has_vlan i hosts ((interface, octets) ∷ interfaces) =
    both-IsTest _ _ (ping_some-IsTest (new_ips has_vlan i interface octets hosts))
      (ping_interfaces-IsTest has_vlan (suc i) hosts interfaces)

resolve_hosts-IsTest : (hosts : List Machine) → IsTest (resolve_hosts hosts)
unfolding resolve_hosts Leads note Tested
resolve_hosts-IsTest [] s h = (h, refl)
resolve_hosts-IsTest (m ∷ hosts) s h =
    let rest = resolve_hosts-IsTest hosts s h in
    Leads-call note (Tested s) (resolve m.name) (resolve_hosts hosts) (resolve_hosts hosts) fault s
      rest rest h

pub post_network_test-IsTest :
    (e : Environment) (m : Machine) (hosts : List Machine) → IsTest (post_network_test e m hosts)
unfolding post_network_test note
post_network_test-IsTest e m hosts =
    both-IsTest (check_hosts (m ∷ hosts)) _ (check_hosts-IsTest (m ∷ hosts)) (
      both-IsTest (connected (test_host m hosts).name) _ (connected-IsTest (test_host m hosts).name)
        (both-IsTest (check (fping_hosts (map (λ x. x.name) (m ∷ hosts)))) _
          (check-IsTest (fping_hosts (map (λ x. x.name) (m ∷ hosts))) (λ s. refl) (λ s h. h)
            (λ s h. h))
          (both-IsTest (resolve_hosts (m ∷ hosts)) _ (resolve_hosts-IsTest (m ∷ hosts))
            (ping_interfaces-IsTest e.has_vlan 0 (m ∷ hosts) e.interfaces))))
