-- ===== src/Plugins/Validation/Validate.antt =====
-- `validate` of `EnvironmentValidator` (src/quads/plugins/builtin/validators/environment.py). Its parts give
-- the variable `failed`.
use quads.Base.{Bool, true, false, not, ◌&&◌, ◌||◌, String, List, [], ◌∷◌, if◌then◌else◌}
use quads.Models.{validation, released, completed}
use quads.Programs.{Program, done, ◌>>=◌, ◌>>◌, perform, ignoring, attempt, when}
use quads.Plugins.Validation.Calls.{
  Machine, Environment, Call, enable_user, notify_success, notify_failure, notification_success,
  notification_fail, set_validated, assignment_validated, distribute_ssh_keys, get_progress_map,
  update_all, env_allocation_time_exceeded,
}
use quads.Plugins.Validation.Tests.{post_system_test, post_network_test}

-- The tests that are not skipped; the network test runs also where the system test has failed.
unfoldable pub run_tests : Environment → List Machine → Program Call Bool
run_tests e [] = done false
run_tests e (h ∷ hosts) = do
  system ← if e.skip_system then done true else post_system_test (h ∷ hosts)
  network ← if e.skip_network then done true else post_network_test e h hosts
  done (not (system && network))

-- `_ungate_ipmi_users`: what a host answers is only logged
unfoldable pub ungate_ipmi_users : List Machine → Program Call (Unit {0})
ungate_ipmi_users [] = done tt
ungate_ipmi_users (h ∷ hosts) = ignoring (enable_user h.name) >> ungate_ipmi_users hosts

-- `if not assignment.notification.success: ...`
unfoldable pub tell_success : Environment → Program Call Bool
tell_success e =
    if e.notified_success
    then done false
    else (perform notify_success >> (attempt notification_success >>= λ ok. done (not ok)))

unfoldable pub mark_hosts : List Machine → Bool → Program Call Bool
mark_hosts [] failed = done failed
mark_hosts (h ∷ hosts) failed =
    attempt (set_validated h.name) >>= λ ok. mark_hosts hosts (failed || not ok)

-- What follows tests that have passed.
unfoldable pub grant : Environment → List String → Program Call Bool
grant e moves = do
  ungate_ipmi_users e.hosts
  told ← tell_success e
  marked ← mark_hosts e.hosts told
  assigned ← attempt assignment_validated
  ignoring distribute_ssh_keys
  when (not marked && assigned) (update_all moves (released ∷ completed ∷ []) e.hosts)
  done (marked || not assigned)

unfoldable pub test_and_grant : Environment → List String → Program Call Bool
test_and_grant e moves =
    run_tests e e.hosts >>= λ failed. if failed then done true else grant e moves

-- `if failed and not assignment.notification.fail: ...`
unfoldable pub tell_failure : Environment → Bool → Program Call (Unit {0})
tell_failure e failed =
    when (failed && not e.notified_fail) (perform notify_failure >> ignoring notification_fail)

unfoldable pub validate : Environment → Program Call Bool
validate e = do
  moves ← get_progress_map e.hosts
  update_all moves (validation ∷ []) e.hosts
  over ← env_allocation_time_exceeded e
  failed ← if over then test_and_grant e moves else done false
  tell_failure e failed
  done (not failed)
