-- ===== src/Plugins/Validation/Validated.antt =====
-- What a validation promises (src/quads/plugins/builtin/validators/environment.py): no tenant is let into an
-- environment in which a test met a problem, and True means that every host is marked or the environment
-- is too young.
use quads.Base.{
  ℕ, ◌+◌, ◌*◌, ◌<◌, ◌≤◌, arith, ltb, ◌≡◌, ◌⊎◌, inl, inr, refl, String, Bool, true, false, not, ◌&&◌,
  Option, none, some, List, [], ◌∷◌, str_eq, any, if◌then◌else◌,
}
use quads.Models.{validation}
use quads.Programs.{Program, World, run, called, done, call, ◌>>=◌, ◌>>◌, on, perform, ignoring}
use quads.Programs.Triples.{
  Leads, Leads-weaken, Leads-bind, Leads-call, Leads-if, Leads-quiet, Same, perform-Same, after,
  Leads-run,
}
use quads.Plugins.Switch.{Answer, affirmed, other, raised}
use quads.Plugins.Validation.Calls.{
  Machine, Environment, Call, notify_failure, get_move_status, get_current_schedules,
  get_progress_map, update_progress, update_each, update_all, is_over, env_allocation_time_exceeded,
}
use quads.Plugins.Validation.Granted.{marks}
use quads.Plugins.Validation.Ending.{Settled, test_and_grant-Settled}
use quads.Plugins.Validation.Noted.{Noted, nothing, note, IsUngranted}
use quads.Plugins.Validation.Validate.{test_and_grant, tell_failure, validate}

-- A program after which all that is noted is as it was.
unmoved_call {ℓ} :
    {A : Type ℓ} (c : Call) (x y z : Program Call A) (s : Noted)
    → ((w : Answer) → note s (called c w) ≡ s)
    → Leads note s x (Same note s)
    → Leads note s y (Same note s)
    → Leads note s z (Same note s)
    → Leads note s (call c (λ w. on w x y z)) (Same note s)
unmoved_call c x y z s quiet of_x of_y of_z =
    Leads-call note (Same note s) c x y z s (rw (quiet affirmed) of_x) (rw (quiet other) of_y)
      (rw (quiet raised) of_z)

get_progress_map-Same :
    (hosts : List Machine) (s : Noted) → Leads note s (get_progress_map hosts) (Same note s)
unfolding get_progress_map Leads note
get_progress_map-Same [] s = refl
get_progress_map-Same (m ∷ hosts) s =
    let rest = get_progress_map-Same hosts s in
    unmoved_call (get_move_status m.name) _ _ _ s (λ w. refl)
      (Leads-quiet note (Same note s) (get_progress_map hosts) _ s rest (λ names. refl) refl) rest
      rest

validation_report-Same :
    (moves : List String) (hosts : List Machine) (s : Noted)
    → Leads note s (update_all moves (validation ∷ []) hosts) (Same note s)
unfolding update_all update_each update_progress ignoring Leads note
validation_report-Same moves [] s = refl
validation_report-Same moves (m ∷ hosts) s =
    Leads-quiet note (Same note s) _ _ s
      (Leads-quiet note (Same note s) _ _ s
        (Leads-if note (Same note s) (any (λ n. str_eq n m.name) moves) _ (done tt) s (λ e w. refl)
          (λ e. refl))
        (λ u. refl) refl)
      (λ u. validation_report-Same moves hosts s) refl

tell_failure-Same :
    (e : Environment) (failed : Bool) (s : Noted)
    → Leads note s (tell_failure e failed) (Same note s)
unfolding tell_failure ignoring Leads note
tell_failure-Same e failed s =
    Leads-if note (Same note s) (failed && not e.notified_fail) _ (done tt) s
      (λ f.
        Leads-quiet note (Same note s) (perform notify_failure) _ s
          (perform-Same note notify_failure s (λ s w. refl)) (λ u w. refl) refl)
      (λ f. refl)

-- No schedule is current, or the first began less than a minute more than the grace period ago.
abbrev pub IsYoung : Environment → Option ℕ → Type 0
IsYoung e none = Unit
IsYoung e (some start) = e.now < start + (e.validation_grace_period + 1) * 60000000

ltb-false : (a b : ℕ) → ltb a b ≡ false → b ≤ a
ltb-false a b h = ground arith

is_over-IsYoung : (e : Environment) (start : Option ℕ) → is_over e start ≡ false → IsYoung e start
is_over-IsYoung e none h = tt
is_over-IsYoung e (some start) h = omega (arith, ltb-false _ _ h)

-- How a validation ends, by what it returns.
unfoldable pub Validated : Environment → Noted → Option Bool → Type 0
Validated e s (some true) =
    ((s.problem ≡ false) ⊎ IsUngranted s)
    × ((IsYoung e e.first_start × IsUngranted s)
        ⊎ ((s.validated ≡ marks e.hosts []) × (s.assigned ≡ true)))
Validated e s _ = (s.problem ≡ false) ⊎ IsUngranted s

-- The value of `failed` before the failure is told.
unfoldable Judged : Environment → Noted → Option Bool → Type 0
Judged e s (some failed) =
    ((s.problem ≡ false) ⊎ IsUngranted s)
    × ((failed ≡ true)
        ⊎ ((IsYoung e e.first_start × IsUngranted s)
            ⊎ ((s.validated ≡ marks e.hosts []) × (s.assigned ≡ true))))
Judged e s none = (s.problem ≡ false) ⊎ IsUngranted s

Settled-Judged : (e : Environment) (s : Noted) (r : Option Bool) → Settled e s r → Judged e s r
unfolding Settled Judged
Settled-Judged e s (some failed) (p, inl f) = (p, inl f)
Settled-Judged e s (some failed) (p, inr f) = (p, inr (inr f))
Settled-Judged e s none h = h

judged-Validated :
    (e : Environment) (s : Noted) (failed : Bool)
    → Judged e s (some failed)
    → Validated e s (some (not failed))
unfolding Judged Validated
judged-Validated e s true h = h.0
judged-Validated e s false (p, inl f) = cc
judged-Validated e s false (p, inr f) = (p, f)

judge-Judged :
    (e : Environment) (moves : List String)
    → Leads note nothing
        (if is_over e e.first_start then test_and_grant e moves else done false)
        (Judged e)
unfolding Judged Leads
judge-Judged e moves =
    Leads-if note (Judged e) (is_over e e.first_start) _ (done false) nothing
      (λ f.
        Leads-weaken note (test_and_grant e moves) nothing
          (test_and_grant-Settled e moves nothing (refl, refl, refl) refl) (Settled-Judged e))
      (λ f. (inl refl, inr (inl (is_over-IsYoung e e.first_start f, (refl, refl, refl)))))

-- The failure is told, and the value returned.
told-Validated :
    (e : Environment) (s : Noted) (failed : Bool)
    → Judged e s (some failed)
    → Leads note s (tell_failure e failed >> done (not failed)) (Validated e)
unfolding Leads Validated Judged
told-Validated e s failed h =
    Leads-quiet note (Validated e) (tell_failure e failed) _ s (tell_failure-Same e failed s)
      (λ u. judged-Validated e s failed h) h.0

-- The clock of the environment.
unfoldable Timed : Environment → Noted → Option Bool → Type 0
Timed e s (some over) = (s ≡ nothing) × (over ≡ is_over e e.first_start)
Timed e s none = s ≡ nothing

env_allocation_time_exceeded-Timed :
    (e : Environment) → Leads note nothing (env_allocation_time_exceeded e) (Timed e)
unfolding env_allocation_time_exceeded Timed Leads note
env_allocation_time_exceeded-Timed e =
    Leads-quiet note (Timed e) (perform get_current_schedules) _ nothing
      (perform-Same note get_current_schedules nothing (λ s w. refl)) (λ u. (refl, refl)) refl

-- What follows the reading of the clock.
judged_rest :
    (e : Environment) (moves : List String) (s : Noted) (over : Bool)
    → Timed e s (some over)
    → Leads note s
        ((if over then test_and_grant e moves else done false) >>= λ failed.
          tell_failure e failed >> done (not failed))
        (Validated e)
unfolding Timed Judged Validated
judged_rest e moves s over (same, told) = rw same (
    rw told (
      Leads-bind note (Judged e) (Validated e)
        (if is_over e e.first_start then test_and_grant e moves else done false) _ nothing
        (judge-Judged e moves) (λ s₁ failed h. told-Validated e s₁ failed h) (λ s₁ h. h)))

timed_fault : (e : Environment) (s : Noted) → Timed e s none → Validated e s none
unfolding Timed Validated
timed_fault e s h = rw h (inl refl)

validate-Leads : (e : Environment) → Leads note nothing (validate e) (Validated e)
unfolding validate Validated
validate-Leads e =
    Leads-quiet note (Validated e) (get_progress_map e.hosts) _ nothing
      (get_progress_map-Same e.hosts nothing)
      (λ moves.
        Leads-quiet note (Validated e) (update_all moves (validation ∷ []) e.hosts) _ nothing
          (validation_report-Same moves e.hosts nothing)
          (λ u.
            Leads-bind note (Timed e) (Validated e) (env_allocation_time_exceeded e) _ nothing
              (env_allocation_time_exceeded-Timed e) (judged_rest e moves) (timed_fault e))
          (inl refl))
      (inl refl)

-- A validation in a world: what it returns, `none` where it raises, and what is noted of it.
abbrev pub answered : World Call → Environment → Option Bool
answered w e = (run w (validate e) []).0

abbrev pub noted : World Call → Environment → Noted
noted w e = after note nothing (run w (validate e) []).1

validated : (w : World Call) (e : Environment) → Validated e (noted w e) (answered w e)
unfolding after
validated w e = Leads-run note (Validated e) w (validate e) nothing [] (validate-Leads e)

Validated-IsUngranted :
    (e : Environment) (s : Noted) (r : Option Bool)
    → Validated e s r
    → (s.problem ≡ false) ⊎ IsUngranted s
unfolding Validated
Validated-IsUngranted e s (some true) h = h.0
Validated-IsUngranted e s (some false) h = h
Validated-IsUngranted e s none h = h

-- However a validation is answered: if one of its test calls meets a problem, then no tenant's user is
-- enabled, no host and no assignment is marked as validated, and no success is told.
pub validate-IsUngranted :
    (w : World Call) (e : Environment) → ((noted w e).problem ≡ false) ⊎ IsUngranted (noted w e)
validate-IsUngranted w e = Validated-IsUngranted e (noted w e) (answered w e) (validated w e)
