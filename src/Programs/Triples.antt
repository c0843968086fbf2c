-- ===== src/Programs/Triples.antt =====
-- How a property of what the calls of a program leave behind is shown, part by part.
use mathlib.Core.Path.{subst}
use quads.Base.{◌≡◌, refl, sym, Bool, true, false, Option, some, none, List, [], ◌∷◌, if◌then◌else◌}
use quads.Plugins.Switch.{Answer, affirmed, other, raised}
use quads.Programs.{
  Program, done, fault, call, read, ◌>>=◌, on, both, check, perform, attempt, Event, called, told,
  World, run,
}

module _ {ℓ σ} {C : Type ℓ} {S : Type σ} (move : S → Event C → S) where
  -- What a list of events, the newest first, leaves of a first state.
  unfoldable pub after : S → List (Event C) → S
  after s [] = s
  after s (e ∷ past) = move (after s past) e

  module _ {κ ρ} {A : Type κ} where
    -- From the state `s`, however its calls are answered, the program ends with `Q`.
    unfoldable pub Leads : S → Program C A → (S → Option A → Type ρ) → Type ρ
    Leads s (done a) Q = Q s (some a)
    Leads s fault Q = Q s none
    Leads s (call c k) Q = (v : Answer) → Leads (move s (called c v)) (k v) Q
    Leads s (read c k) Q = (t : Option _) → Leads (move s (told c t)) (k t) Q

    -- So does every run of it.
    pub Leads-run :
        (Q : S → Option A → Type ρ) (w : World C) (p : Program C A) (s : S) (past : List (Event C))
        → Leads (after s past) p Q
        → Q (after s (run w p past).1) (run w p past).0
    unfolding after Leads run
    Leads-run Q w (done a) s past h = h
    Leads-run Q w fault s past h = h
    Leads-run Q w (call c k) s past h =
        let v = w.answer past c in Leads-run Q w (k v) s (called c v ∷ past) (h v)
    Leads-run Q w (read c k) s past h =
        let t = w.text past c in Leads-run Q w (k t) s (told c t ∷ past) (h t)

    pub Leads-weaken :
        (p : Program C A) (s : S) {P Q : S → Option A → Type ρ}
        → Leads s p P
        → ((s₁ : S) (r : Option A) → P s₁ r → Q s₁ r)
        → Leads s p Q
    unfolding Leads
    Leads-weaken (done a) s h weaken = weaken s (some a) h
    Leads-weaken fault s h weaken = weaken s none h
    Leads-weaken (call c k) s h weaken = λ v. Leads-weaken (k v) (move s (called c v)) (h v) weaken
    Leads-weaken (read c k) s h weaken = λ t. Leads-weaken (k t) (move s (told c t)) (h t) weaken

  -- A program and what follows it: `P` of the state and the value between them.
  pub Leads-bind {κ μ π ρ} :
      {A : Type κ} {B : Type μ} (P : S → Option A → Type π) (Q : S → Option B → Type ρ)
      (p : Program C A) (f : A → Program C B) (s : S)
      → Leads s p P
      → ((s₁ : S) (a : A) → P s₁ (some a) → Leads s₁ (f a) Q)
      → ((s₁ : S) → P s₁ none → Q s₁ none)
      → Leads s (p >>= f) Q
  unfolding Leads ◌>>=◌
  Leads-bind P Q (done a) f s h on_value on_fault = on_value s a h
  Leads-bind P Q fault f s h on_value on_fault = on_fault s h
  Leads-bind P Q (call c k) f s h on_value on_fault =
      λ v. Leads-bind P Q (k v) f (move s (called c v)) (h v) on_value on_fault
  Leads-bind P Q (read c k) f s h on_value on_fault =
      λ t. Leads-bind P Q (k t) f (move s (told c t)) (h t) on_value on_fault

  -- The program leaves the state as it is.
  abbrev pub Same {κ} : {A : Type κ} → S → S → Option A → Type σ
  Same s s₁ r = s₁ ≡ s

  -- A program that leaves the state as it is, and what follows it.
  pub Leads-quiet {κ μ ρ} :
      {A : Type κ} {B : Type μ} (Q : S → Option B → Type ρ) (p : Program C A) (f : A → Program C B)
      (s : S)
      → Leads s p (Same s)
      → ((a : A) → Leads s (f a) Q)
      → Q s none
      → Leads s (p >>= f) Q
  Leads-quiet Q p f s quiet on_value on_fault =
      Leads-bind (Same s) Q p f s quiet
        (λ s₁ a e. subst (λ x. Leads x (f a) Q) (sym e) (on_value a))
        (λ s₁ e. subst (λ x. Q x none) (sym e) on_fault)

  pub Leads-both {ρ} :
      (Q : S → Option Bool → Type ρ) (p q : Program C Bool) (s : S)
      → Leads s p (Same s)
      → Leads s q Q
      → Q s (some false)
      → Q s none
      → Leads s (both p q) Q
  unfolding Leads both
  Leads-both Q p q s quiet follows on_false on_fault =
      Leads-quiet Q p _ s quiet
        (λ b. elim b as (λ k. Leads s (if k then q else done false) Q) [
          | true ↦ follows
          | false ↦ on_false
        ])
        on_fault

  -- The three ways to go on from a call.
  pub Leads-call {κ ρ} :
      {A : Type κ} (Q : S → Option A → Type ρ) (c : C) (x y z : Program C A) (s : S)
      → Leads (move s (called c affirmed)) x Q
      → Leads (move s (called c other)) y Q
      → Leads (move s (called c raised)) z Q
      → Leads s (call c (λ v. on v x y z)) Q
  unfolding Leads
  Leads-call Q c x y z s at_affirmed at_other at_raised = λ v.
      elim v as (λ k. Leads (move s (called c k)) (on k x y z) Q) [
        | affirmed ↦ at_affirmed
        | other ↦ at_other
        | raised ↦ at_raised
      ]

  pub Leads-if {κ ρ} :
      {A : Type κ} (Q : S → Option A → Type ρ) (b : Bool) (p q : Program C A) (s : S)
      → (b ≡ true → Leads s p Q)
      → (b ≡ false → Leads s q Q)
      → Leads s (if b then p else q) Q
  Leads-if Q true p q s on_true on_false = on_true refl
  Leads-if Q false p q s on_true on_false = on_false refl

  -- A call that leaves the state as it is, however it is answered.
  abbrev pub IsQuiet : C → Type σ
  IsQuiet c = (s : S) (v : Answer) → move s (called c v) ≡ s

  pub check-Same : (c : C) (s : S) → IsQuiet c → Leads s (check c) (Same s)
  unfolding Leads check
  check-Same c s quiet =
      Leads-call (Same s) c (done true) (done false) fault s (quiet s affirmed) (quiet s other)
        (quiet s raised)

  pub perform-Same : (c : C) (s : S) → IsQuiet c → Leads s (perform c) (Same s)
  unfolding Leads perform
  perform-Same c s quiet =
      Leads-call (Same s) c (done tt) (done tt) fault s (quiet s affirmed) (quiet s other)
        (quiet s raised)

  pub attempt-Same : (c : C) (s : S) → IsQuiet c → Leads s (attempt c) (Same s)
  unfolding Leads attempt
  attempt-Same c s quiet =
      Leads-call (Same s) c (done true) (done true) (done false) s (quiet s affirmed)
        (quiet s other) (quiet s raised)
