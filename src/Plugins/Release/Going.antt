-- ===== src/Plugins/Release/Going.antt =====
-- What is seen of a move (src/quads/plugins/builtin/release/standard.py) while it goes on, and how it ends.
use quads.Base.{
  ℕ, ◌≤◌, ◌<◌, ◌≡◌, refl, String, Bool, true, false, Option, none, some, List, [], ◌∷◌,
  if◌then◌else◌, arith, Bool-cases, inl, inr,
}
use quads.Models.{MoveStatus, failed}
use quads.Models.Stages.{value, stage_of}
use quads.Plugins.Release.Calls.{
  HostChange, Call, update_move_status, report_failed, update_host, HostMove, has_id,
  report_progress, failure, fail_move, or_fail,
}
use quads.Plugins.Release.Seen.{Seen, see, top, IsClimbing}
use quads.Plugins.Release.Hidden.{IsHidden}
use quads.Programs.{Program, done, fault, ◌>>=◌, ◌>>◌, perform, ignoring, both, when}
use quads.Programs.Triples.{Leads, Leads-weaken, Leads-bind, Leads-quiet, Leads-call, Leads-if}

-- The move goes on: no record is changed, no failure is reported, the reports climb to at most the stage
-- `n`, and the last command on the tenant's user is `g`.
unfoldable pub IsGoing : Option Bool → ℕ → Seen → Type 0
IsGoing g n s =
    (s.host ≡ none)
    × ((s.failures ≡ []) × (top s.reports < stage_of (value failed)))
    × (s.gate ≡ g)
    × IsClimbing s.reports
    × (top s.reports ≤ n)

-- The error messages of a move that failed.
abbrev pub is_one : List String → Bool
is_one (_ ∷ []) = true
is_one _ = false

-- The move has failed: the host's record says so, and one error message is reported.
unfoldable pub HasFailed : HostMove → Option Bool → Seen → Type 0
HasFailed m g s =
    (s.host ≡ some failure)
    × (is_one s.failures ≡ has_id m.schedule_id)
    × (s.gate ≡ g)
    × IsClimbing s.reports

-- How a part of a move ends.
unfoldable pub Part : HostMove → Option Bool → ℕ → Seen → Option Bool → Type 0
Part m g n s (some true) = IsGoing g n s
Part m g n s (some false) = HasFailed m g s
Part m g n s none = (s.host ≡ none) × IsClimbing s.reports

-- A report of a later stage.
pub report_progress-IsGoing :
    (m : HostMove) (g : Option Bool) (n : ℕ) (status : MoveStatus) (s : Seen)
    → IsGoing g n s
    → n < stage_of (value status)
    → stage_of (value status) < stage_of (value failed)
    → Leads see s (report_progress m status) (λ s₁ r. IsGoing g (stage_of (value status)) s₁)
unfolding Leads report_progress see ignoring IsGoing IsClimbing
report_progress-IsGoing m g n status s going later early =
    Leads-if see _ (has_id m.schedule_id) (ignoring (update_move_status status)) (done tt) s
      (λ e v. (going.0, (going.1.0, early), going.2, (omega arith, going.3), omega arith))
      (λ e. (going.0, going.1, going.2, going.3, omega arith))

-- A part of a move after a report.
pub after_report :
    (m : HostMove) (g : Option Bool) (n : ℕ) (status : MoveStatus) (s : Seen)
    (Q : Seen → Option Bool → Type 0) (p : Program Call Bool)
    → IsGoing g n s
    → n < stage_of (value status)
    → stage_of (value status) < stage_of (value failed)
    → ((s₁ : Seen) → IsGoing g (stage_of (value status)) s₁ → Leads see s₁ p Q)
    → ((s₁ : Seen) → IsGoing g (stage_of (value status)) s₁ → Q s₁ none)
    → Leads see s (report_progress m status >> p) Q
after_report m g n status s Q p going later early follows on_fault =
    Leads-bind see (λ s₁ r. IsGoing g (stage_of (value status)) s₁) Q (report_progress m status) _ s
      (report_progress-IsGoing m g n status s going later early) (λ s₁ a h. follows s₁ h) on_fault

-- An update of the host's record: it is made unless it raises.
abbrev pub Updates : Seen → HostChange → Seen → Option (Unit {0}) → Type 0
Updates s c s₁ (some _) = s₁ ≡ record s { host = some c }
Updates s c s₁ none = s₁ ≡ s

pub update_host-Updates :
    (c : HostChange) (s : Seen) → Leads see s (perform (update_host c)) (Updates s c)
unfolding Leads perform see
update_host-Updates c s =
    Leads-call see (Updates s c) (update_host c) (done tt) (done tt) fault s refl refl refl

-- How `fail_move` ends.
unfoldable pub Failing : HostMove → Option Bool → Seen → Option Bool → Type 0
Failing m g s (some ok) = (ok ≡ false) × HasFailed m g s
Failing m g s none = (s.host ≡ none) × IsClimbing s.reports

-- What is left of `fail_move` once the host's record is updated.
report_failed-HasFailed :
    (m : HostMove) (g : Option Bool) (n : ℕ) (text : String) (s : Seen)
    → IsGoing g n s
    → Leads see
        (record s { host = some failure })
        (when (has_id m.schedule_id) (ignoring (report_failed text)) >> done false)
        (Failing m g)
unfolding Leads ◌>>=◌ ignoring see Failing HasFailed IsGoing IsClimbing
report_failed-HasFailed m g n text s going =
    let clear = going.1.0 in
    elim (Bool-cases (has_id m.schedule_id)) [
      | inl e ↦ rw e (λ v. (refl, (refl, ground arith, going.2, (going.1.1, going.3))))
      | inr e ↦ rw e (refl, (refl, ground arith, going.2, going.3))
    ]

pub fail_move-Failing :
    (m : HostMove) (g : Option Bool) (n : ℕ) (text : String) (s : Seen)
    → IsGoing g n s
    → Leads see s (fail_move m text) (Failing m g)
unfolding fail_move Failing IsGoing
fail_move-Failing m g n text s going =
    Leads-bind see (Updates s failure) (Failing m g) (perform (update_host failure)) _ s
      (update_host-Updates failure s) (λ s₁ a e. rw e (report_failed-HasFailed m g n text s going))
      (λ s₁ e. rw e (going.0, going.3))

Failing-Part :
    (m : HostMove) (g : Option Bool) (n : ℕ) (s : Seen) (r : Option Bool)
    → Failing m g s r
    → Part m g n s r
unfolding Failing Part
Failing-Part m g n s (some true) h = cc
Failing-Part m g n s (some false) h = h.1
Failing-Part m g n s none h = h

-- A guarded call of the hardware, and what follows it.
pub or_fail-Part :
    (m : HostMove) (g : Option Bool) (n n₁ : ℕ) (p : Program Call Bool) (text : String)
    (rest : Program Call Bool) (s : Seen)
    → IsHidden p
    → IsGoing g n s
    → Leads see s rest (Part m g n₁)
    → Leads see s (or_fail m p text rest) (Part m g n₁)
unfolding or_fail Part IsGoing
or_fail-Part m g n n₁ p text rest s hidden going follows =
    Leads-quiet see (Part m g n₁) p _ s (hidden s)
      (λ ok.
        Leads-if see (Part m g n₁) ok rest (fail_move m text) s (λ e. follows)
          (λ e.
            Leads-weaken see (fail_move m text) s (fail_move-Failing m g n text s going)
              (Failing-Part m g n₁)))
      (going.0, going.3)

-- A call of a move that is seen in nothing, and what follows it.
pub hidden_then-Part {ℓ} :
    {A : Type ℓ} (m : HostMove) (g : Option Bool) (n n₁ : ℕ) (p : Program Call A)
    (f : A → Program Call Bool) (s : Seen)
    → IsHidden p
    → IsGoing g n s
    → ((a : A) → Leads see s (f a) (Part m g n₁))
    → Leads see s (p >>= f) (Part m g n₁)
unfolding Part IsGoing
hidden_then-Part m g n n₁ p f s hidden going follows =
    Leads-quiet see (Part m g n₁) p f s (hidden s) follows (going.0, going.3)

-- The two stages of a part, one after the other.
pub both-Part :
    (m : HostMove) (g : Option Bool) (n : ℕ) (p q : Program Call Bool) (s : Seen)
    (Q : Seen → Option Bool → Type 0)
    → Leads see s p (Part m g n)
    → ((s₁ : Seen) → IsGoing g n s₁ → Leads see s₁ q Q)
    → ((s₁ : Seen) → HasFailed m g s₁ → Q s₁ (some false))
    → ((s₁ : Seen) → (s₁.host ≡ none) × IsClimbing s₁.reports → Q s₁ none)
    → Leads see s (both p q) Q
unfolding both Part Leads
both-Part m g n p q s Q first_part follows on_failure on_fault =
    Leads-bind see (Part m g n) Q p _ s first_part
      (λ s₁ ok.
        elim ok as (λ k. Part m g n s₁ (some k) → Leads see s₁ (if k then q else done false) Q) [
          | true ↦ λ h. follows s₁ h
          | false ↦ λ h. on_failure s₁ h
        ])
      on_fault
