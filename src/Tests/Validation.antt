-- ===== src/Tests/Validation.antt =====
-- Validations of an environment of two hosts (src/quads/plugins/builtin/validators/environment.py), in order
-- and with a host that is down.
use quads.Base.{
  ◌*◌, ◌≡◌, ◌⊎◌, refl, String, true, false, some, none, [], ◌∷◌, str_eq, if◌then◌else◌,
}
use quads.Programs.{World, run, ◌>>=◌, check, perform, ignoring, attempt, both}
use quads.Programs.Triples.{after}
use quads.Plugins.Switch.{Answer, affirmed, other}
use quads.Plugins.Validation.Calls.{
  Machine, Environment, Call, is_build_host, health_check, get_progress_map, update_progress,
  update_each, update_all, env_allocation_time_exceeded,
}
use quads.Plugins.Validation.Noted.{note, IsUngranted}
use quads.Plugins.Validation.Tests.{
  is_healthy, pending_hosts, post_system_test, switch_configured, check_hosts, test_host, new_ips,
  ping_interfaces, connected, resolve_hosts, post_network_test,
}
use quads.Plugins.Validation.Validate.{
  run_tests, ungate_ipmi_users, tell_success, mark_hosts, grant, test_and_grant, tell_failure,
  validate,
}
use quads.Plugins.Validation.Validated.{answered, noted, validate-IsUngranted}

abbrev machine : String → Machine
machine name = record {
  name = name;
  supermicro = false;
  switch_config_applied = false;
  interfaces = "em1" ∷ "em2" ∷ [];
}

abbrev environment : Environment
environment = record {
  hosts = machine "host1" ∷ machine "host2" ∷ [];
  has_vlan = false;
  notified_success = false;
  notified_fail = false;
  skip_system = false;
  skip_network = false;
  first_start = some 0;
  now = 60 * 60000000;
  validation_grace_period = 15;
  interfaces = ("em1", "172.16" ∷ []) ∷ ("em2", "172.17" ∷ []) ∷ [];
}

abbrev in_order : Call → Answer
in_order (is_build_host host) = other
in_order _ = affirmed

abbrev one_down : Call → Answer
one_down (is_build_host host) = other
one_down (health_check host) = if str_eq host "host2" then other else affirmed
one_down _ = affirmed

abbrev orderly : World Call
orderly = record { answer = λ events c. in_order c; text = λ events c. none }

abbrev broken : World Call
broken = record { answer = λ events c. one_down c; text = λ events c. none }

problem_met :
    (answered broken environment ≡ some false) × ((noted broken environment).problem ≡ true)
unfolding run ◌>>=◌ check perform ignoring attempt both after get_progress_map update_progress
    update_each update_all env_allocation_time_exceeded note is_healthy pending_hosts
    post_system_test switch_configured check_hosts test_host new_ips ping_interfaces connected
    post_network_test resolve_hosts run_tests ungate_ipmi_users tell_success mark_hosts grant
    test_and_grant tell_failure validate
problem_met = (refl, refl)

validate-IsUngranted_example :
    ((noted broken environment).problem ≡ false) ⊎ IsUngranted (noted broken environment)
validate-IsUngranted_example = validate-IsUngranted broken environment
