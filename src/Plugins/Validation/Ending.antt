-- ===== src/Plugins/Validation/Ending.antt =====
-- How a validation ends (src/quads/plugins/builtin/validators/environment.py).
use quads.Base.{
  ◌≡◌, ◌⊎◌, inl, inr, refl, ◌∙◌, String, Bool, true, false, not, ◌&&◌, ◌||◌, Option, none, some,
  List, [], ◌∷◌, if◌then◌else◌,
}
use quads.Models.{released, completed}
use quads.Programs.{Program, done, ◌>>=◌, ◌>>◌, ignoring, attempt, when}
use quads.Programs.Triples.{Leads, Leads-weaken, Leads-bind, Leads-call}
use quads.Plugins.Validation.Calls.{
  Machine, Environment, Call, assignment_validated, distribute_ssh_keys, update_all,
}
use quads.Plugins.Validation.Granted.{
  Granting, IsGranting-done, IsGranting-if, IsGranting-ignoring, marks,
  ungate_ipmi_users-IsGranting, tell_success-IsGranting, update_all-IsGranting, Marking,
  mark_hosts-Marking, Granted,
}
use quads.Plugins.Validation.Noted.{Noted, note, IsUngranted, Tested, IsTest}
use quads.Plugins.Validation.Passing.{post_system_test-IsTest, post_network_test-IsTest}
use quads.Plugins.Validation.Testing.{done-IsTest, Tested-harmless}
use quads.Plugins.Validation.Tests.{post_system_test, post_network_test}
use quads.Plugins.Validation.Validate.{
  run_tests, ungate_ipmi_users, tell_success, mark_hosts, grant, test_and_grant,
}

-- The mark of the assignment.
unfoldable Assigned : List String → Noted → Option Bool → Type 0
Assigned v s (some assigned) =
    (s.problem ≡ false) × (s.validated ≡ v) × ((assigned ≡ false) ⊎ (s.assigned ≡ true))
Assigned v s none = s.problem ≡ false

assignment_validated-Assigned :
    (s : Noted)
    → s.problem ≡ false
    → Leads note s (attempt assignment_validated) (Assigned s.validated)
unfolding Assigned Leads attempt note
assignment_validated-Assigned s h =
    Leads-call note (Assigned s.validated) assignment_validated (done true) (done true) (done false)
      s (h, refl, inr refl) (h, refl, inr refl) (h, refl, inl refl)

-- The value of `failed` at the end of what is granted.
all-Granted :
    (hosts : List Machine) (s s₁ : Noted) (failed assigned : Bool)
    → (failed ≡ true) ⊎ (s.validated ≡ marks hosts [])
    → Assigned s.validated s₁ (some assigned)
    → Granted hosts s₁ (some (failed || not assigned))
unfolding Assigned Granted
all-Granted hosts s s₁ true assigned h k = (k.0, inl refl)
all-Granted hosts s s₁ false false h k = (k.0, inl refl)
all-Granted hosts s s₁ false true (inl e) k = cc
all-Granted hosts s s₁ false true (inr e) (p, q, inl f) = cc
all-Granted hosts s s₁ false true (inr e) (p, q, inr f) = (p, inr (q ∙ e, f))

-- What is granted stays so while the progress is reported.
still-Granted :
    (hosts : List Machine) (s s₁ : Noted) (failed : Bool)
    → Granted hosts s (some failed)
    → (s₁.problem ≡ false) × (s₁.validated ≡ s.validated) × (s₁.assigned ≡ s.assigned)
    → Granted hosts s₁ (some failed)
unfolding Granted
still-Granted hosts s s₁ failed (p, inl e) k = (k.0, inl e)
still-Granted hosts s s₁ failed (p, inr e) k = (k.0, inr (k.1 ∙ e.0, k.2 ∙ e.1))

released-Granted :
    (e : Environment) (moves : List String) (failed assigned : Bool) (s : Noted)
    → Granted e.hosts s (some (failed || not assigned))
    → Leads note s
        (ignoring distribute_ssh_keys
          >> (when (not failed && assigned) (update_all moves (released ∷ completed ∷ []) e.hosts)
              >> done (failed || not assigned)))
        (Granted e.hosts)
unfolding Granted Granting Leads note
released-Granted e moves failed assigned s h =
    Leads-bind note (Granting s.validated s.assigned) (Granted e.hosts)
      (ignoring distribute_ssh_keys) _ s
      (IsGranting-ignoring distribute_ssh_keys (λ s w. refl) (λ s w. refl) (λ s w. refl) s.validated
        s.assigned s (h.0, refl, refl))
      (λ s₁ u k.
        Leads-bind note (Granting s.validated s.assigned) (Granted e.hosts) _ _ s₁
          (IsGranting-if (not failed && assigned) _ _
            (update_all-IsGranting moves (released ∷ completed ∷ []) e.hosts)
            (IsGranting-done {A = Unit {0}} tt) s.validated s.assigned s₁ k)
          (λ s₂ u l. still-Granted e.hosts s s₂ (failed || not assigned) h l) (λ s₂ l. l.0))
      (λ s₁ k. k.0)

assign-Granted :
    (e : Environment) (moves : List String) (failed : Bool) (s : Noted)
    → (s.problem ≡ false)
      × ((failed ≡ true) ⊎ (s.validated ≡ marks e.hosts []))
      × (s.assigned ≡ false)
    → Leads note s
        (attempt assignment_validated >>= λ assigned.
          ignoring distribute_ssh_keys
          >> (when (not failed && assigned) (update_all moves (released ∷ completed ∷ []) e.hosts)
              >> done (failed || not assigned)))
        (Granted e.hosts)
unfolding Assigned Granted
assign-Granted e moves failed s h =
    Leads-bind note (Assigned s.validated) (Granted e.hosts) (attempt assignment_validated) _ s
      (assignment_validated-Assigned s h.0)
      (λ s₁ assigned k.
        released-Granted e moves failed assigned s₁
          (all-Granted e.hosts s s₁ failed assigned h.1 k))
      (λ s₁ k. k)

grant-Granted :
    (e : Environment) (moves : List String) (s : Noted)
    → (s.problem ≡ false) × (s.validated ≡ []) × (s.assigned ≡ false)
    → Leads note s (grant e moves) (Granted e.hosts)
unfolding grant Granting Marking Granted Leads
grant-Granted e moves s h =
    Leads-bind note (Granting [] false) (Granted e.hosts) (ungate_ipmi_users e.hosts) _ s
      (ungate_ipmi_users-IsGranting e.hosts [] false s h)
      (λ s₁ u k.
        Leads-bind note (Granting [] false) (Granted e.hosts) (tell_success e) _ s₁
          (tell_success-IsGranting e [] false s₁ k)
          (λ s₂ told l.
            Leads-bind note (Marking (marks e.hosts []) false) (Granted e.hosts)
              (mark_hosts e.hosts told) _ s₂
              (mark_hosts-Marking e.hosts told [] false s₂ (l.0, inr l.1, l.2))
              (λ s₃ failed m. assign-Granted e moves failed s₃ m) (λ s₃ m. m))
          (λ s₂ l. l.0))
      (λ s₁ k. k.0)

-- The tests of an environment in the state `s`: a value that is False has met no problem.
unfoldable Tried : Noted → Option Bool → Type 0
Tried s (some true) = IsUngranted s
Tried s (some false) = IsUngranted s × (s.problem ≡ false)
Tried s none = IsUngranted s

tried :
    (s s₁ s₂ : Noted) (system network : Bool)
    → s.problem ≡ false
    → Tested s s₁ (some system)
    → Tested s₁ s₂ (some network)
    → Tried s₂ (some (not (system && network)))
unfolding Tested Tried
tried s s₁ s₂ true true h t u = (u.0, u.1 ∙ t.1 ∙ h)
tried s s₁ s₂ true false h t u = u
tried s s₁ s₂ false true h t u = u.0
tried s s₁ s₂ false false h t u = u

Tested-Tried : (s s₁ : Noted) → Tested s s₁ none → Tried s₁ none
unfolding Tested Tried
Tested-Tried s s₁ h = h

-- A test that may be skipped.
skipped-IsTest :
    (skip : Bool) (p : Program Call Bool) → IsTest p → IsTest (if skip then done true else p)
skipped-IsTest true p of_p = done-IsTest true
skipped-IsTest false p of_p = of_p

Tried-nothing : (s : Noted) → IsUngranted s → s.problem ≡ false → Tried s (some false)
unfolding Tried
Tried-nothing s h p = (h, p)

run_tests-Tried :
    (e : Environment) (hosts : List Machine) (s : Noted)
    → IsUngranted s
    → s.problem ≡ false
    → Leads note s (run_tests e hosts) Tried
unfolding run_tests Leads
run_tests-Tried e [] s h p = Tried-nothing s h p
run_tests-Tried e (m ∷ hosts) s h p =
    Leads-bind note (Tested s) Tried _ _ s
      (skipped-IsTest e.skip_system (post_system_test (m ∷ hosts))
        (post_system_test-IsTest (m ∷ hosts)) s h)
      (λ s₁ system t.
        Leads-bind note (Tested s₁) Tried _ _ s₁
          (skipped-IsTest e.skip_network (post_network_test e m hosts)
            (post_network_test-IsTest e m hosts) s₁ (Tested-harmless s s₁ (some system) t))
          (λ s₂ network u. tried s s₁ s₂ system network p t u) (λ s₂ u. Tested-Tried s₁ s₂ u))
      (λ s₁ t. Tested-Tried s s₁ t)

-- Nothing is granted where a problem was met; what is marked where the value of `failed` is False.
unfoldable pub Settled : Environment → Noted → Option Bool → Type 0
Settled e s (some failed) =
    ((s.problem ≡ false) ⊎ IsUngranted s)
    × ((failed ≡ true) ⊎ ((s.validated ≡ marks e.hosts []) × (s.assigned ≡ true)))
Settled e s none = (s.problem ≡ false) ⊎ IsUngranted s

Granted-Settled :
    (e : Environment) (s : Noted) (r : Option Bool) → Granted e.hosts s r → Settled e s r
unfolding Granted Settled
Granted-Settled e s (some failed) h = (inl h.0, h.1)
Granted-Settled e s none h = inl h

settled :
    (e : Environment) (moves : List String) (s : Noted) (failed : Bool)
    → Tried s (some failed)
    → Leads note s (if failed then done true else grant e moves) (Settled e)
unfolding Tried Settled Leads
settled e moves s true t = (inr t, inl refl)
settled e moves s false t =
    Leads-weaken note (grant e moves) s (grant-Granted e moves s (t.1, t.0.1, t.0.2))
      (Granted-Settled e)

pub test_and_grant-Settled :
    (e : Environment) (moves : List String) (s : Noted)
    → IsUngranted s
    → s.problem ≡ false
    → Leads note s (test_and_grant e moves) (Settled e)
unfolding test_and_grant Settled Tried Leads
test_and_grant-Settled e moves s h p =
    Leads-bind note Tried (Settled e) (run_tests e e.hosts) _ s (run_tests-Tried e e.hosts s h p)
      (λ s₁ failed t. settled e moves s₁ failed t) (λ s₁ t. inr t)
