-- ===== src/Programs.antt =====
-- The orchestration code of src/quads/plugins/builtin and src/quads/tools: programs that call devices,
-- plugins and the API, and go on as these answer. A program is the tree of its calls; what answers is a
-- world, which may answer the same call in another way the next time.
pub mod Triples
pub mod Completion
use quads.Base.{Bool, true, false, String, Option, some, none, List, [], ◌∷◌, if◌then◌else◌}
use quads.Plugins.Switch.{Answer, affirmed, other, raised}

pub data Program {ℓ κ} (C : Type ℓ) (A : Type κ) : Type (ℓ ⊔ κ) where
  done : A → Program C A
  -- an exception that nothing here catches
  fault : Program C A
  call : C → (Answer → Program C A) → Program C A
  -- a call whose answer is a text or None
  read : C → (Option String → Program C A) → Program C A

infixl 5 ◌>>=◌ ◌>>◌
unfoldable pub ◌>>=◌ {ℓ κ μ} :
    {C : Type ℓ} {A : Type κ} {B : Type μ} → Program C A → (A → Program C B) → Program C B
done a >>= f = f a
fault >>= f = fault
call c k >>= f = call c (λ v. k v >>= f)
read c k >>= f = read c (λ t. k t >>= f)

abbrev pub ◌>>◌ {ℓ κ} : {C : Type ℓ} {B : Type κ} → Program C (Unit {0}) → Program C B → Program C B
p >> q = p >>= λ _. q

-- The way on from a call: it answered with a true value, with another one, or it raised.
abbrev pub on {ℓ} : {A : Type ℓ} → Answer → A → A → A → A
on affirmed a b c = a
on other a b c = b
on raised a b c = c

module _ {ℓ} {C : Type ℓ} where
  -- `if await call(): ...`, where nothing catches an exception
  unfoldable pub check : C → Program C Bool
  check c = call c (λ v. on v (done true) (done false) fault)

  -- a call whose value is not used, where nothing catches an exception
  unfoldable pub perform : C → Program C (Unit {0})
  perform c = call c (λ v. on v (done tt) (done tt) fault)

  -- `try: call() ... except Exception: ...`: whether it went through
  unfoldable pub attempt : C → Program C Bool
  attempt c = call c (λ v. on v (done true) (done true) (done false))

  -- `try: call() ... except Exception: pass`, where the value is not used
  unfoldable pub ignoring : C → Program C (Unit {0})
  ignoring c = call c (λ v. done tt)

  unfoldable pub read_text : C → Program C (Option String)
  read_text c = read c (λ t. done t)

-- What happened at a call.
pub data Event {ℓ} (C : Type ℓ) : Type ℓ where
  called : C → Answer → Event C
  told : C → Option String → Event C

-- What a call is answered after the events so far, the newest first.
pub record World {ℓ} (C : Type ℓ) : Type ℓ where
  pub answer : List (Event C) → C → Answer
  pub text : List (Event C) → C → Option String

-- The value that a program comes to, unless it raises, and the events, the newest first.
unfoldable pub run {ℓ κ} :
    {C : Type ℓ} {A : Type κ} → World C → Program C A → List (Event C) → Option A × List (Event C)
run w (done a) past = (some a, past)
run w fault past = (none, past)
run w (call c k) past = let v = w.answer past c in run w (k v) (called c v ∷ past)
run w (read c k) past = let t = w.text past c in run w (k t) (told c t ∷ past)

-- `p and q`, where `q` is not called unless `p` is true
unfoldable pub both {ℓ} : {C : Type ℓ} → Program C Bool → Program C Bool → Program C Bool
both p q = p >>= λ b. if b then q else done false

-- `if b: p()`
abbrev pub when {ℓ} : {C : Type ℓ} → Bool → Program C (Unit {0}) → Program C (Unit {0})
when b p = if b then p else done tt
