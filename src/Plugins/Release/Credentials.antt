-- ===== src/Plugins/Release/Credentials.antt =====
-- The credentials of a move (src/quads/plugins/builtin/release/standard.py): what the attempts, and the
-- gate that a failure restores, leave to be seen.
use quads.Base.{
  ℕ, zero, suc, ◌≡◌, ◌⊎◌, refl, String, Bool, true, false, Option, none, some, ◌==◌, if◌then◌else◌,
  inl, inr,
}
use quads.Plugins.Release.Calls.{
  enable_user, disable_user, verify_credentials, configure_user, Settings, try_credentials,
  restore_gate, configure_and_verify_ipmi,
}
use quads.Plugins.Release.Going.{IsGoing}
use quads.Plugins.Release.Seen.{begun, Seen, see, IsClimbing}
use quads.Programs.{done, fault, check, both}
use quads.Programs.Triples.{Leads, Leads-bind, Leads-both, Leads-call, Leads-if, check-Same}

enable_then :
    (password : String) (x : Seen) (g : Option Bool)
    → IsGoing g begun x
    → Leads see x
        (both
          (check enable_user)
          (both (check (configure_user password)) (check verify_credentials)))
        (λ y r. IsGoing (some true) begun y)
unfolding both check see IsGoing Leads
enable_then password x g going =
    let enabled : Seen = record x { gate = some true } in
    let opened : IsGoing (some true) begun enabled = (going.0, going.1, refl, going.3, going.4) in
    Leads-bind see (λ y r. y ≡ enabled) _ (check enable_user) _ x
      (Leads-call see (λ y r. y ≡ enabled) enable_user (done true) (done false) fault x refl refl
        refl)
      (λ y b e. rw e (
        Leads-if see (λ y r. IsGoing (some true) begun y) b _ (done false) enabled
          (λ f.
            Leads-both see (λ y r. IsGoing (some true) begun y) (check (configure_user password)) _
              enabled (check-Same see (configure_user password) enabled (λ z v. refl))
              (Leads-call see (λ y r. IsGoing (some true) begun y) verify_credentials (done true)
                (done false) fault enabled opened opened opened)
              opened opened)
          (λ f. opened)))
      (λ y e. rw e opened)

-- After the credentials: where they are not set, the gate is as it was last commanded.
unfoldable pub Credentials : Bool → Seen → Option Bool → Type 0
Credentials rebuild y (some true) = IsGoing (some true) begun y
Credentials rebuild y (some false) =
    (g : Option Bool) × IsGoing g begun y × ((rebuild ≡ false) ⊎ (g ≡ some false))
Credentials rebuild y none = (y.host ≡ none) × IsClimbing y.reports

pub going-Credentials :
    (rebuild : Bool) (y : Seen) (g : Option Bool) → IsGoing g begun y → Credentials rebuild y none
unfolding Credentials IsGoing
going-Credentials rebuild y g h = (h.0, h.3)

try_credentials-Credentials :
    (password : String) (n : ℕ) (x : Seen) (g : Option Bool)
    → IsGoing g begun x
    → Leads see x (try_credentials password n) (Credentials false)
unfolding try_credentials Leads Credentials
try_credentials-Credentials password zero x g going = (g, going, inl refl)
try_credentials-Credentials password (suc n) x g going =
    Leads-bind see (λ y r. IsGoing (some true) begun y) (Credentials false) _ _ x
      (enable_then password x g going)
      (λ y b h.
        Leads-if see (Credentials false) b (done true) (try_credentials password n) y (λ e. h)
          (λ e. try_credentials-Credentials password n y (some true) h))
      (λ y h. going-Credentials false y (some true) h)

-- The command that disables the tenant's user.
abbrev pub closed : Seen → Seen
closed x = record x { gate = some false }

pub disable_lem : (x : Seen) → Leads see x (check disable_user) (λ y r. y ≡ closed x)
unfolding Leads check see
disable_lem x =
    Leads-call see (λ y r. y ≡ closed x) disable_user (done true) (done false) fault x refl refl
      refl

pub closed-IsGoing :
    (x : Seen) (g : Option Bool) (n : ℕ) → IsGoing g n x → IsGoing (some false) n (closed x)
unfolding IsGoing
closed-IsGoing x g n going = (going.0, going.1, refl, going.3, going.4)

restore_gate-Credentials :
    (s : Settings) (rebuild : Bool) (x : Seen) (g : Option Bool)
    → IsGoing g begun x
    → Leads see x (restore_gate s rebuild) (Credentials rebuild)
unfolding restore_gate Leads Credentials IsGoing
restore_gate-Credentials s false x g going = (g, going, inl refl)
restore_gate-Credentials s true x g going =
    let shut = closed-IsGoing x g begun going in
    Leads-if see (Credentials true) (s.ipmi_credential_retries == 0) fault _ x
      (λ e. (going.0, going.3))
      (λ e.
        Leads-bind see (λ y r. y ≡ closed x) (Credentials true) (check disable_user) _ x
          (disable_lem x) (λ y b f. rw f (some false, shut, inr refl))
          (λ y f. rw f (going-Credentials true (closed x) (some false) shut)))

pub configure_and_verify_ipmi-Credentials :
    (s : Settings) (password : String) (rebuild : Bool) (x : Seen)
    → IsGoing none begun x
    → Leads see x (configure_and_verify_ipmi s password rebuild) (Credentials rebuild)
unfolding configure_and_verify_ipmi Leads Credentials
configure_and_verify_ipmi-Credentials s password rebuild x going =
    Leads-bind see (Credentials false) (Credentials rebuild) _ _ x
      (try_credentials-Credentials password s.ipmi_credential_retries x none going)
      (λ y ok.
        elim ok
          as (λ k.
            Credentials false y (some k)
            → Leads see y (if k then done true else restore_gate s rebuild) (Credentials rebuild)) [
              | true ↦ λ h. h
              | false ↦ λ h. restore_gate-Credentials s rebuild y h.0 h.1
            ])
      (λ y h. h)
