-- ===== src/Plugins/Validation/Noted.antt =====
-- What is noted of a validation (src/quads/plugins/builtin/validators/environment.py): the problems that its
-- tests meet, and what it grants.
use quads.Base.{◌≡◌, Bool, true, false, String, Option, some, none, List, [], ◌∷◌, if◌then◌else◌}
use quads.Models.{MoveStatus, released, completed}
use quads.Plugins.Switch.{Answer, affirmed, other, raised}
use quads.Programs.{Program, Event, called}
use quads.Programs.Triples.{Leads}
use quads.Plugins.Validation.Calls.{
  Call, update_move_status, foreman_credentials, is_build_host, health_check, verify_switch,
  connect, resolve, set_switch_config_applied, fping_hosts, fping_derived, enable_user,
  notify_success, notification_success, set_validated, assignment_validated,
}

-- `problem`: some test call was not answered as an environment in order answers it. `granted`: the tenant
-- was let in or told so. `validated`: the hosts marked as validated, the newest first. `assigned`: so is
-- the assignment.
pub record Noted : Type 0 where
  pub problem : Bool
  pub granted : Bool
  pub validated : List String
  pub assigned : Bool

abbrev pub nothing : Noted
nothing = record { problem = false; granted = false; validated = []; assigned = false }

abbrev not_affirmed : Answer → Bool
not_affirmed affirmed = false
not_affirmed other = true
not_affirmed raised = true

abbrev is_affirmed : Answer → Bool
is_affirmed affirmed = true
is_affirmed other = false
is_affirmed raised = false

abbrev has_raised : Answer → Bool
has_raised affirmed = false
has_raised other = false
has_raised raised = true

abbrev with_problem : Noted → Bool → Noted
with_problem s b = if b then record s { problem = true } else s

abbrev with_grant : Noted → Noted
with_grant s = record s { granted = true }

abbrev grants_move : Noted → MoveStatus → Noted
grants_move s released = with_grant s
grants_move s completed = with_grant s
grants_move s _ = s

abbrev pub marked : Noted → String → Answer → Noted
marked s host affirmed = record s { granted = true; validated = host ∷ s.validated }
marked s host other = record s { granted = true; validated = host ∷ s.validated }
marked s host raised = record s { granted = true }

abbrev pub assigned_by : Noted → Answer → Noted
assigned_by s affirmed = record s { granted = true; assigned = true }
assigned_by s other = record s { granted = true; assigned = true }
assigned_by s raised = record s { granted = true }

unfoldable pub note : Noted → Event Call → Noted
note s (called foreman_credentials v) = with_problem s (not_affirmed v)
note s (called (is_build_host host) v) = with_problem s (is_affirmed v)
note s (called (health_check host) v) = with_problem s (not_affirmed v)
note s (called (verify_switch host) v) = with_problem s (not_affirmed v)
note s (called (set_switch_config_applied host) v) = with_problem s (has_raised v)
note s (called (connect host) v) = with_problem s (has_raised v)
note s (called (resolve host) v) = with_problem s (has_raised v)
note s (called (fping_hosts hosts) v) = with_problem s (not_affirmed v)
note s (called (fping_derived ips) v) = with_problem s (not_affirmed v)
note s (called (update_move_status host status) v) = grants_move s status
note s (called (enable_user host) v) = with_grant s
note s (called notify_success v) = with_grant s
note s (called notification_success v) = with_grant s
note s (called (set_validated host) v) = marked s host v
note s (called assignment_validated v) = assigned_by s v
note s _ = s

-- Nothing is granted.
abbrev pub IsUngranted : Noted → Type 0
IsUngranted s = (s.granted ≡ false) × (s.validated ≡ []) × (s.assigned ≡ false)

-- How a test ends that is begun in the state `s`: a test that passes has met no problem.
unfoldable pub Tested : Noted → Noted → Option Bool → Type 0
Tested s s₁ (some true) = IsUngranted s₁ × (s₁.problem ≡ s.problem)
Tested s s₁ (some false) = IsUngranted s₁
Tested s s₁ none = IsUngranted s₁

abbrev pub IsTest : Program Call Bool → Type 0
IsTest p = (s : Noted) → IsUngranted s → Leads note s p (Tested s)

-- A program that neither grants anything nor meets a problem that counts.
unfoldable pub Harmless {ℓ} : {A : Type ℓ} → Noted → Option A → Type 0
Harmless s r = IsUngranted s

abbrev pub IsHarmless {ℓ} : {A : Type ℓ} → Program Call A → Type 0
IsHarmless p = (s : Noted) → IsUngranted s → Leads note s p Harmless
