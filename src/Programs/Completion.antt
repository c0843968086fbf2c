-- ===== src/Programs/Completion.antt =====
-- Programs whose calls are all answered with True, and with a text where one is asked for.
use mathlib.Core.Path.{subst}
use quads.Base.{◌≡◌, refl, sym, String, Bool, true, some, List, ◌∷◌}
use quads.Plugins.Switch.{affirmed}
use quads.Programs.{Program, done, fault, call, read, ◌>>=◌, both, Event, called, told, World, run}

module _ {ℓ κ} {C : Type ℓ} {A : Type κ} where
  -- With such answers, the program comes to a value that satisfies `Q`.
  unfoldable pub Completes : Program C A → (A → Type 0) → Type 0
  Completes (done a) Q = Q a
  Completes fault Q = ⊥
  Completes (call c k) Q = Completes (k affirmed) Q
  Completes (read c k) Q = (t : String) → Completes (k (some t)) Q

  pub Completes-run :
      (Q : A → Type 0) (w : World C) (p : Program C A) (past : List (Event C))
      → ((events : List (Event C)) (c : C) → w.answer events c ≡ affirmed)
      → ((events : List (Event C)) (c : C) → (t : String) × (w.text events c ≡ some t))
      → Completes p Q
      → (a : A) × ((run w p past).0 ≡ some a) × Q a
  unfolding Completes run
  Completes-run Q w (done a) past affirms tells h = (a, refl, h)
  Completes-run Q w fault past affirms tells h = absurd h
  Completes-run Q w (call c k) past affirms tells h =
      Completes-run Q w (k (w.answer past c)) (called c (w.answer past c) ∷ past) affirms tells
        (subst (λ v. Completes (k v) Q) (sym (affirms past c)) h)
  Completes-run Q w (read c k) past affirms tells h =
      let answered = tells past c in
      Completes-run Q w (k (w.text past c)) (told c (w.text past c) ∷ past) affirms tells
        (subst (λ t. Completes (k t) Q) (sym answered.1) (h answered.0))

pub Completes-bind {ℓ κ μ} :
    {C : Type ℓ} {A : Type κ} {B : Type μ} (P : A → Type 0) (Q : B → Type 0) (p : Program C A)
    (f : A → Program C B)
    → Completes p P
    → ((a : A) → P a → Completes (f a) Q)
    → Completes (p >>= f) Q
unfolding Completes ◌>>=◌
Completes-bind P Q (done a) f h follows = follows a h
Completes-bind P Q fault f h follows = absurd h
Completes-bind P Q (call c k) f h follows = Completes-bind P Q (k affirmed) f h follows
Completes-bind P Q (read c k) f h follows = λ t. Completes-bind P Q (k (some t)) f (h t) follows

-- A program that comes to True, and what follows it.
pub Completes-both {ℓ} :
    {C : Type ℓ} (p q : Program C Bool)
    → Completes p (λ b. b ≡ true)
    → Completes q (λ b. b ≡ true)
    → Completes (both p q) (λ b. b ≡ true)
unfolding both
Completes-both p q first_part rest =
    Completes-bind (λ b. b ≡ true) (λ b. b ≡ true) p _ first_part (λ b e. rw e rest)
