-- ===== src/Plugins/Validation/Testing.antt =====
-- The tests of an environment (src/quads/plugins/builtin/validators/environment.py) grant nothing, and pass
-- only where they meet no problem.
use quads.Base.{
  ◌≡◌, refl, ◌∙◌, String, Bool, true, false, Option, none, some, List, [], ◌∷◌, if◌then◌else◌,
}
use quads.Programs.{Program, called, done, fault, call, ◌>>=◌, ◌>>◌, on, check, perform, both, when}
use quads.Programs.Triples.{Leads, Leads-weaken, Leads-bind, Leads-call}
use quads.Plugins.Switch.{Answer, affirmed, other, raised}
use quads.Plugins.Validation.Calls.{
  Machine, Call, health_check, pxe_persistent, init_hardware, get_vendor, boot_to_foreman,
  set_next_boot_pxe, reboot_server, has_plugins, connect,
}
use quads.Plugins.Validation.Noted.{Noted, note, IsUngranted, Tested, IsTest, Harmless, IsHarmless}
use quads.Plugins.Validation.Tests.{
  is_healthy, reboot_on_error, reboot_or, boot_target, boot_pending, boot_all, connected,
}

-- The failing end of a test.
Tested-fault : (s s₁ : Noted) → IsUngranted s₁ → Tested s s₁ none
unfolding Tested
Tested-fault s s₁ h = h

pub Tested-trans :
    (s s₁ s₂ : Noted) (r : Option Bool) → s₁.problem ≡ s.problem → Tested s₁ s₂ r → Tested s s₂ r
unfolding Tested
Tested-trans s s₁ s₂ (some true) e h = (h.0, h.1 ∙ e)
Tested-trans s s₁ s₂ (some false) e h = h
Tested-trans s s₁ s₂ none e h = h

pub continued :
    (q : Program Call Bool) (s s₁ : Noted)
    → s₁.problem ≡ s.problem
    → Leads note s₁ q (Tested s₁)
    → Leads note s₁ q (Tested s)
continued q s s₁ e h = Leads-weaken note q s₁ h (λ s₂ r. Tested-trans s s₁ s₂ r e)

pub both-IsTest : (p q : Program Call Bool) → IsTest p → IsTest q → IsTest (both p q)
unfolding both Tested Leads
both-IsTest p q of_p of_q s h =
    Leads-bind note (Tested s) (Tested s) p _ s (of_p s h)
      (λ s₁ ok.
        elim ok
          as (λ k. Tested s s₁ (some k) → Leads note s₁ (if k then q else done false) (Tested s)) [
            | true ↦ λ t. continued q s s₁ t.1 (of_q s₁ t.0)
            | false ↦ λ t. t
          ])
      (λ s₁ t. t)

-- A call that is affirmed where there is no problem.
pub check-IsTest :
    (c : Call)
    → ((s : Noted) → note s (called c affirmed) ≡ s)
    → ((s : Noted) → IsUngranted s → IsUngranted (note s (called c other)))
    → ((s : Noted) → IsUngranted s → IsUngranted (note s (called c raised)))
    → IsTest (check c)
unfolding Tested Leads check
check-IsTest c kept at_other at_raised s h =
    Leads-call note (Tested s) c (done true) (done false) _ s (rw (kept s) (h, refl)) (at_other s h)
      (at_raised s h)

pub done-IsTest : (b : Bool) → IsTest (done b)
unfolding Tested Leads
done-IsTest true s h = (h, refl)
done-IsTest false s h = h

pub IsHarmless-then {ℓ κ} :
    {A : Type ℓ} {B : Type κ} (p : Program Call A) (f : A → Program Call B)
    → IsHarmless p
    → ((a : A) → IsHarmless (f a))
    → IsHarmless (p >>= f)
unfolding Harmless
IsHarmless-then p f of_p of_f s h =
    Leads-bind note Harmless Harmless p f s (of_p s h) (λ s₁ a k. of_f a s₁ k) (λ s₁ k. k)

pub IsHarmless-call {ℓ} :
    {A : Type ℓ} (c : Call) (x y z : Program Call A)
    → ((s : Noted) (v : Answer) → IsUngranted s → IsUngranted (note s (called c v)))
    → IsHarmless x
    → IsHarmless y
    → IsHarmless z
    → IsHarmless (call c (λ v. on v x y z))
IsHarmless-call c x y z quiet of_x of_y of_z s h =
    Leads-call note Harmless c x y z s (of_x _ (quiet s affirmed h)) (of_y _ (quiet s other h))
      (of_z _ (quiet s raised h))

pub IsHarmless-done {ℓ} : {A : Type ℓ} (a : A) → IsHarmless (done a)
unfolding Harmless Leads
IsHarmless-done a s h = h

IsHarmless-fault {ℓ} : (A : Type ℓ) → IsHarmless {A = A} fault
unfolding Harmless Leads
IsHarmless-fault A s h = h

pub IsHarmless-perform :
    (c : Call)
    → ((s : Noted) (v : Answer) → IsUngranted s → IsUngranted (note s (called c v)))
    → IsHarmless (perform c)
unfolding perform
IsHarmless-perform c quiet =
    IsHarmless-call c _ _ _ quiet (IsHarmless-done tt) (IsHarmless-done tt) (IsHarmless-fault _)

pub IsHarmless-check :
    (c : Call)
    → ((s : Noted) (v : Answer) → IsUngranted s → IsUngranted (note s (called c v)))
    → IsHarmless (check c)
unfolding check
IsHarmless-check c quiet =
    IsHarmless-call c _ _ _ quiet (IsHarmless-done true) (IsHarmless-done false)
      (IsHarmless-fault _)

pub IsHarmless-when :
    (b : Bool) (p : Program Call (Unit {0})) → IsHarmless p → IsHarmless (when b p)
IsHarmless-when true p of_p = of_p
IsHarmless-when false p of_p = IsHarmless-done tt

pub is_healthy-IsTest : (host : String) → IsTest (is_healthy host)
unfolding is_healthy Tested Leads note
is_healthy-IsTest host s h =
    Leads-call note (Tested s) (health_check host) (done true) (done false) (done false) s (h, refl)
      h h

pub connected-IsTest : (host : String) → IsTest (connected host)
unfolding connected Tested Leads note
connected-IsTest host s h =
    Leads-call note (Tested s) (connect host) (done true) (done true) (done false) s (h, refl)
      (h, refl) h

-- A test is harmless.
pub Tested-harmless : (s s₁ : Noted) (r : Option Bool) → Tested s s₁ r → IsUngranted s₁
unfolding Tested
Tested-harmless s s₁ (some true) h = h.0
Tested-harmless s s₁ (some false) h = h
Tested-harmless s s₁ none h = h

pub test-IsHarmless : (p : Program Call Bool) → IsTest p → IsHarmless p
unfolding Tested Harmless
test-IsHarmless p of_p s h = Leads-weaken note p s (of_p s h) (Tested-harmless s)

pub IsHarmless-if {ℓ} :
    {A : Type ℓ} (b : Bool) (p q : Program Call A)
    → IsHarmless p
    → IsHarmless q
    → IsHarmless (if b then p else q)
IsHarmless-if true p q of_p of_q = of_p
IsHarmless-if false p q of_p of_q = of_q

-- A test whose value is False in the end.
pub failing-IsTest : (p : Program Call (Unit {0})) → IsHarmless p → IsTest (p >> done false)
unfolding Harmless Tested Leads
failing-IsTest p of_p s h =
    Leads-bind note Harmless (Tested s) p _ s (of_p s h) (λ s₁ a k. k) (λ s₁ k. k)

reboot_on_error-IsHarmless : (host : String) → IsHarmless (reboot_on_error host)
unfolding reboot_on_error note
reboot_on_error-IsHarmless host =
    IsHarmless-then (check (has_plugins host)) _ (IsHarmless-check (has_plugins host) (λ s v h. h))
      (λ b. IsHarmless-when b _ (IsHarmless-perform (reboot_server host) (λ s v h. h)))

reboot_or-IsHarmless :
    (host : String) (p : Program Call (Unit {0})) → IsHarmless p → IsHarmless (reboot_or host p)
unfolding reboot_or note
reboot_or-IsHarmless host p of_p =
    IsHarmless-call (reboot_server host) _ _ _ (λ s v h. h) (IsHarmless-done tt)
      (IsHarmless-done tt) of_p

boot_target-IsHarmless :
    (host : String) (p : Program Call (Unit {0})) → IsHarmless p → IsHarmless (boot_target host p)
unfolding boot_target note
boot_target-IsHarmless host p of_p =
    let rebooted = reboot_or-IsHarmless host p of_p in
    IsHarmless-call (get_vendor host) _ _ _ (λ s v h. h)
      (IsHarmless-call (boot_to_foreman host) _ _ _ (λ s v h. h) rebooted (IsHarmless-done tt) of_p)
      (IsHarmless-call (set_next_boot_pxe host) _ _ _ (λ s v h. h) rebooted (IsHarmless-done tt)
        of_p)
      of_p

boot_pending-IsHarmless : (h : Machine) → IsHarmless (boot_pending h)
unfolding boot_pending note
boot_pending-IsHarmless m =
    IsHarmless-if m.supermicro _ _ (IsHarmless-perform (pxe_persistent m.name) (λ s v h. h)) (
      IsHarmless-call (init_hardware m.name) _ _ _ (λ s v h. h)
        (boot_target-IsHarmless m.name _ (reboot_on_error-IsHarmless m.name)) (IsHarmless-done tt)
        (reboot_on_error-IsHarmless m.name))

pub boot_all-IsHarmless : (hosts : List Machine) → IsHarmless (boot_all hosts)
unfolding boot_all
boot_all-IsHarmless [] = IsHarmless-done tt
boot_all-IsHarmless (m ∷ hosts) =
    IsHarmless-then _ _
      (IsHarmless-then (is_healthy m.name) _
        (test-IsHarmless (is_healthy m.name) (is_healthy-IsTest m.name))
        (λ healthy. IsHarmless-when healthy (boot_pending m) (boot_pending-IsHarmless m)))
      (λ u. boot_all-IsHarmless hosts)
