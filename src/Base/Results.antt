-- ===== src/Base/Results.antt =====
-- What a chain of checks comes to: it goes on with a value, answers the client with an error
-- response, or raises an exception that nothing catches.
use Prim.Native.Nat.{ℕ}
use Prim.Native.String.{String}
use mathlib.Core.Path.{◌≡◌, refl}
use mathlib.Core.Bool.{Bool, true, false}
use mathlib.Core.Option.{Option, none, some}
use mathlib.Core.List.{List}

-- Why a host of a batch cannot be booked.
pub data HostProblem : Type 0 where
  not_found not_available : String → HostProblem

-- The `message` of an error response, with the words that the source puts into it.
pub data Message : Type 0 where
  missing_argument : String → Message
  invalid_argument : String → Message
  cloud_not_found : String → Message
  host_not_found : String → Message
  vlan_not_found : ℕ → Message
  assignment_not_found : ℕ → Message
  schedule_not_found : ℕ → Message
  notification_not_found : ℕ → Message
  no_active_assignment : String → Message
  already_active_assignment : String → Message
  already_exists : String → Message
  no_permission : String → Message
  host_limit_reached : String → Message
  not_self_schedulable : String → Message
  deadline_passed : Message
  invalid_date_format : Message
  invalid_date_range : Message
  host_unavailable : Message
  hosts_unavailable : List HostProblem → Message
  assignment_incomplete : Message
  commit_failed : Message
  service_disabled : Message
  self_limit_reached : Message
  cloud_reserved : String → Message
  no_free_clouds : Message
  ticketing_unconfigured : Message
  ticket_failed : Message
  invalid_status : String → Message
  no_active_move : String → Message
  something_wrong : Message
  header_malformed : Message
  invalid_token : Message
  invalid_credentials : Message
  account_disabled : Message
  no_role : Message
  user_not_found : String → Message
  token_not_found : ℕ → Message
  no_authentication : Message
  registration_disabled : Message
  missing_credentials : Message
  invalid_email : Message
  domain_restricted : String → Message
  user_exists : Message
  try_again : Message
  no_token : Message
  token_error : String → Message

pub data Outcome {ℓ} (A : Type ℓ) : Type ℓ where
  pass : A → Outcome A
  refuse : ℕ → Message → Outcome A
  crash : Outcome A

infixl 5 ◌>>=◌ ◌>>◌
abbrev pub ◌>>=◌ {ℓ κ} : {A : Type ℓ} {B : Type κ} → Outcome A → (A → Outcome B) → Outcome B
pass a >>= f = f a
refuse status m >>= f = refuse status m
crash >>= f = crash

abbrev pub ◌>>◌ {ℓ} : {B : Type ℓ} → Outcome (Unit {0}) → Outcome B → Outcome B
m >> k = m >>= λ _. k

-- `if not b: return make_response(..., status)`
abbrev pub require : Bool → ℕ → Message → Outcome (Unit {0})
require true status m = pass tt
require false status m = refuse status m

-- `if not o: return make_response(..., status)`, else the value
abbrev pub require_some {ℓ} : {A : Type ℓ} → Option A → ℕ → Message → Outcome A
require_some (some a) status m = pass a
require_some none status m = refuse status m

-- A call that raises unless `b` holds.
abbrev pub raise_unless : Bool → Outcome (Unit {0})
raise_unless true = pass tt
raise_unless false = crash

-- An attribute of `None` raises `AttributeError`.
abbrev pub attribute_of {ℓ} : {A : Type ℓ} → Option A → Outcome A
attribute_of (some a) = pass a
attribute_of none = crash

-- Inversion of a chain that went through.
pub >>=-eq-pass {ℓ κ} :
    {A : Type ℓ} {B : Type κ} (m : Outcome A) (f : A → Outcome B) {b : B}
    → (m >>= f) ≡ pass b
    → (a : A) × (m ≡ pass a) × (f a ≡ pass b)
>>=-eq-pass (pass a) f h = (a, refl, h)
>>=-eq-pass (refuse status m) f h = cc
>>=-eq-pass crash f h = cc

pub require-eq-pass :
    (b : Bool) (status : ℕ) (m : Message) {u : Unit {0}} → require b status m ≡ pass u → b ≡ true
require-eq-pass true status m h = refl
require-eq-pass false status m h = cc

pub require_some-eq-pass {ℓ} :
    {A : Type ℓ} (o : Option A) (status : ℕ) (m : Message) {a : A}
    → require_some o status m ≡ pass a
    → o ≡ some a
require_some-eq-pass (some a) status m h = cc
require_some-eq-pass none status m h = cc

pub attribute_of-eq-pass {ℓ} :
    {A : Type ℓ} (o : Option A) (a : A) → attribute_of o ≡ pass a → o ≡ some a
attribute_of-eq-pass (some b) a h = cc
attribute_of-eq-pass none a h = cc

-- A handler's answer and the state that it leaves: it goes on with the value, or ends in that state.
abbrev pub continue {ℓ κ μ} :
    {A : Type ℓ} {B : Type κ} {S : Type μ} → Outcome A → S → (A → Outcome B × S) → Outcome B × S
continue (pass a) s k = k a
continue (refuse status m) s k = (refuse status m, s)
continue crash s k = (crash, s)

-- `if not text: return make_response(missing argument, 400)`, else the text
abbrev pub argument : Option String → String → Outcome String
argument none name = refuse 400 (missing_argument name)
argument (some String.[]) name = refuse 400 (missing_argument name)
argument (some (String.◌∷◌ c t)) name = pass (String.◌∷◌ c t)

-- A property of the state after a handler: it holds where the checks end, and after what follows them.
pub continue_inv {ℓ κ μ ν} :
    {A : Type ℓ} {B : Type κ} {S : Type μ} (P : S → Type ν) (m : Outcome A) (s : S)
    (k : A → Outcome B × S)
    → P s
    → ((a : A) → m ≡ pass a → P (k a).1)
    → P (continue m s k).1
continue_inv P (pass a) s k here after = after a refl
continue_inv P (refuse status m) s k here after = here
continue_inv P crash s k here after = here

-- The same for a handler that answers with success: it has passed its checks.
pub continue_success {ℓ κ μ ν} :
    {A : Type ℓ} {B : Type κ} {S : Type μ} (P : S → Type ν) (m : Outcome A) (s : S)
    (k : A → Outcome B × S) {b : B}
    → (continue m s k).0 ≡ pass b
    → ((a : A) → m ≡ pass a → (k a).0 ≡ pass b → P (k a).1)
    → P (continue m s k).1
continue_success P (pass a) s k h after = after a refl h
continue_success P (refuse status m) s k h after = cc
continue_success P crash s k h after = cc

abbrev pub is_pass {ℓ} : {A : Type ℓ} → Outcome A → Bool
is_pass (pass a) = true
is_pass (refuse status m) = false
is_pass crash = false
