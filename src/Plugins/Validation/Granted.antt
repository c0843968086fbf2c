-- ===== src/Plugins/Validation/Granted.antt =====
-- What a validation grants (src/quads/plugins/builtin/validators/environment.py): the tenant is let in only
-- where no test has met a problem, and a validation that returns True has marked every host.
use quads.Base.{
  ◌≡◌, ◌⊎◌, inl, inr, refl, ap, ◌∙◌, String, Bool, true, false, not, ◌||◌, Option, none, some, List,
  [], ◌∷◌, str_eq, any, if◌then◌else◌,
}
use quads.Models.{MoveStatus, released, completed}
use quads.Programs.{Program, called, done, fault, call, ◌>>=◌, on, perform, ignoring, attempt}
use quads.Programs.Triples.{Leads, Leads-bind, Leads-call}
use quads.Plugins.Switch.{Answer, affirmed, other, raised}
use quads.Plugins.Validation.Calls.{
  Machine, Environment, Call, enable_user, notify_success, notification_success, set_validated,
  update_move_status, update_progress, update_each, update_all,
}
use quads.Plugins.Validation.Noted.{Noted, note}
use quads.Plugins.Validation.Validate.{ungate_ipmi_users, tell_success, mark_hosts}

-- While the tenant is let in: no problem, and so many hosts marked.
unfoldable pub Granting {ℓ} : {A : Type ℓ} → List String → Bool → Noted → Option A → Type 0
Granting v a s r = (s.problem ≡ false) × (s.validated ≡ v) × (s.assigned ≡ a)

abbrev pub IsGranting {ℓ} : {A : Type ℓ} → Program Call A → Type 0
IsGranting p =
    (v : List String) (a : Bool) (s : Noted)
    → (s.problem ≡ false) × (s.validated ≡ v) × (s.assigned ≡ a)
    → Leads note s p (Granting v a)

pub IsGranting-then {ℓ κ} :
    {A : Type ℓ} {B : Type κ} (p : Program Call A) (f : A → Program Call B)
    → IsGranting p
    → ((x : A) → IsGranting (f x))
    → IsGranting (p >>= f)
unfolding Granting
IsGranting-then p f of_p of_f v a s h =
    Leads-bind note (Granting v a) (Granting v a) p f s (of_p v a s h) (λ s₁ x k. of_f x v a s₁ k)
      (λ s₁ k. k)

pub IsGranting-done {ℓ} : {A : Type ℓ} (x : A) → IsGranting (done x)
unfolding Granting Leads
IsGranting-done x v a s h = h

IsGranting-call {ℓ} :
    {A : Type ℓ} (c : Call) (x y z : Program Call A)
    → ((s : Noted) (w : Answer) → (note s (called c w)).problem ≡ s.problem)
    → ((s : Noted) (w : Answer) → (note s (called c w)).validated ≡ s.validated)
    → ((s : Noted) (w : Answer) → (note s (called c w)).assigned ≡ s.assigned)
    → IsGranting x
    → IsGranting y
    → IsGranting z
    → IsGranting (call c (λ w. on w x y z))
IsGranting-call c x y z keeps_problem keeps_hosts keeps_assignment of_x of_y of_z v a s h =
    let there : (w : Answer)
        → ((note s (called c w)).problem ≡ false)
          × ((note s (called c w)).validated ≡ v)
          × ((note s (called c w)).assigned ≡ a) =
      λ w. (keeps_problem s w ∙ h.0, keeps_hosts s w ∙ h.1, keeps_assignment s w ∙ h.2) in
    Leads-call note (Granting v a) c x y z s (of_x v a _ (there affirmed))
      (of_y v a _ (there other)) (of_z v a _ (there raised))

-- The hosts that are marked, the newest first.
unfoldable pub marks : List Machine → List String → List String
marks [] v = v
marks (h ∷ hosts) v = marks hosts (h.name ∷ v)

pub IsGranting-if {ℓ} :
    {A : Type ℓ} (b : Bool) (p q : Program Call A)
    → IsGranting p
    → IsGranting q
    → IsGranting (if b then p else q)
IsGranting-if true p q of_p of_q = of_p
IsGranting-if false p q of_p of_q = of_q

IsGranting-fault {ℓ} : (A : Type ℓ) → IsGranting {A = A} fault
unfolding Granting Leads
IsGranting-fault A v a s h = h

pub tell_success-IsGranting : (e : Environment) → IsGranting (tell_success e)
unfolding tell_success note attempt perform Leads
tell_success-IsGranting e = IsGranting-if e.notified_success _ _ (IsGranting-done false) (
    IsGranting-then (perform notify_success) _
      (IsGranting-call notify_success _ _ _ (λ s w. refl) (λ s w. refl) (λ s w. refl)
        (IsGranting-done tt) (IsGranting-done tt) (IsGranting-fault _))
      (λ u.
        IsGranting-then (attempt notification_success) _
          (IsGranting-call notification_success _ _ _ (λ s w. refl) (λ s w. refl) (λ s w. refl)
            (IsGranting-done true) (IsGranting-done true) (IsGranting-done false))
          (λ ok. IsGranting-done (not ok))))

pub IsGranting-ignoring :
    (c : Call)
    → ((s : Noted) (w : Answer) → (note s (called c w)).problem ≡ s.problem)
    → ((s : Noted) (w : Answer) → (note s (called c w)).validated ≡ s.validated)
    → ((s : Noted) (w : Answer) → (note s (called c w)).assigned ≡ s.assigned)
    → IsGranting (ignoring c)
unfolding ignoring Leads Granting
IsGranting-ignoring c keeps_problem keeps_hosts keeps_assignment v a s h =
    λ w. (keeps_problem s w ∙ h.0, keeps_hosts s w ∙ h.1, keeps_assignment s w ∙ h.2)

pub ungate_ipmi_users-IsGranting : (hosts : List Machine) → IsGranting (ungate_ipmi_users hosts)
unfolding ungate_ipmi_users note
ungate_ipmi_users-IsGranting [] = IsGranting-done tt
ungate_ipmi_users-IsGranting (m ∷ hosts) =
    IsGranting-then (ignoring (enable_user m.name)) _
      (IsGranting-ignoring (enable_user m.name) (λ s w. refl) (λ s w. refl) (λ s w. refl))
      (λ u. ungate_ipmi_users-IsGranting hosts)

update_move_status-IsGranting :
    (host : String) (status : MoveStatus) → IsGranting (ignoring (update_move_status host status))
unfolding note
update_move_status-IsGranting host released =
    IsGranting-ignoring (update_move_status host released) (λ s w. refl) (λ s w. refl) (λ s w. refl)
update_move_status-IsGranting host completed =
    IsGranting-ignoring (update_move_status host completed) (λ s w. refl) (λ s w. refl)
      (λ s w. refl)
update_move_status-IsGranting host status =
    IsGranting-ignoring (update_move_status host status) (λ s w. refl) (λ s w. refl) (λ s w. refl)

update_each-IsGranting :
    (moves : List String) (host : String) (statuses : List MoveStatus)
    → IsGranting (update_each moves host statuses)
unfolding update_each update_progress
update_each-IsGranting moves host [] = IsGranting-done tt
update_each-IsGranting moves host (status ∷ statuses) =
    IsGranting-then _ _
      (IsGranting-if (any (λ n. str_eq n host) moves) _ _
        (update_move_status-IsGranting host status) (IsGranting-done tt))
      (λ u. update_each-IsGranting moves host statuses)

pub update_all-IsGranting :
    (moves : List String) (statuses : List MoveStatus) (hosts : List Machine)
    → IsGranting (update_all moves statuses hosts)
unfolding update_all
update_all-IsGranting moves statuses [] = IsGranting-done tt
update_all-IsGranting moves statuses (m ∷ hosts) =
    IsGranting-then _ _ (update_each-IsGranting moves m.name statuses)
      (λ u. update_all-IsGranting moves statuses hosts)

-- The marks: all of the hosts, unless an update failed.
unfoldable pub Marking : List String → Bool → Noted → Option Bool → Type 0
Marking v a s (some failed) =
    (s.problem ≡ false) × ((failed ≡ true) ⊎ (s.validated ≡ v)) × (s.assigned ≡ a)
Marking v a s none = s.problem ≡ false

-- The mark of one host.
unfoldable Marked : String → Noted → Noted → Option Bool → Type 0
Marked host s s₁ (some ok) =
    (s₁.problem ≡ s.problem)
    × ((ok ≡ false) ⊎ (s₁.validated ≡ host ∷ s.validated))
    × (s₁.assigned ≡ s.assigned)
Marked host s s₁ none = s₁.problem ≡ s.problem

set_validated-Marked :
    (host : String) (s : Noted) → Leads note s (attempt (set_validated host)) (Marked host s)
unfolding Marked Leads attempt note
set_validated-Marked host s =
    Leads-call note (Marked host s) (set_validated host) (done true) (done true) (done false) s
      (refl, inr refl, refl) (refl, inr refl, refl) (refl, inl refl, refl)

one_more :
    (host : String) (v : List String) (s s₁ : Noted) (failed ok : Bool)
    → (failed ≡ true) ⊎ (s.validated ≡ v)
    → (ok ≡ false) ⊎ (s₁.validated ≡ host ∷ s.validated)
    → ((failed || not ok) ≡ true) ⊎ (s₁.validated ≡ host ∷ v)
one_more host v s s₁ true ok h k = inl refl
one_more host v s s₁ false false h k = inl refl
one_more host v s s₁ false true (inl e) k = cc
one_more host v s s₁ false true (inr e) (inl f) = cc
one_more host v s s₁ false true (inr e) (inr f) = inr (f ∙ ap (λ names. host ∷ names) e)

pub mark_hosts-Marking :
    (hosts : List Machine) (failed : Bool) (v : List String) (a : Bool) (s : Noted)
    → (s.problem ≡ false) × ((failed ≡ true) ⊎ (s.validated ≡ v)) × (s.assigned ≡ a)
    → Leads note s (mark_hosts hosts failed) (Marking (marks hosts v) a)
unfolding mark_hosts Marking marks Leads Marked
mark_hosts-Marking [] failed v a s h = h
mark_hosts-Marking (m ∷ hosts) failed v a s h =
    Leads-bind note (Marked m.name s) (Marking (marks hosts (m.name ∷ v)) a)
      (attempt (set_validated m.name)) _ s (set_validated-Marked m.name s)
      (λ s₁ ok k.
        mark_hosts-Marking hosts (failed || not ok) (m.name ∷ v) a s₁
          (k.0 ∙ h.0, one_more m.name v s s₁ failed ok h.1 k.1, k.2 ∙ h.2))
      (λ s₁ k. k ∙ h.0)

-- The assignment is marked, and the tenants are told.
unfoldable pub Granted : List Machine → Noted → Option Bool → Type 0
Granted hosts s (some failed) =
    (s.problem ≡ false) × ((failed ≡ true) ⊎ ((s.validated ≡ marks hosts []) × (s.assigned ≡ true)))
Granted hosts s none = s.problem ≡ false
