-- ===== src/Plugins/Release/Moved.antt =====
-- What a move of a host (src/quads/plugins/builtin/release/standard.py) promises to those who read its
-- progress and the record of its host, and to the tenants.
use quads.Base.{
  ◌≤◌, ◌≡◌, ◌∙◌, ◌⊎◌, ◌↔◌, refl, ap, Bool, true, false, Option, some, none, List, [], str_eq, any,
  inl, inr, if◌then◌else◌,
}
use quads.Models.{post_install}
use quads.Models.Stages.{value, stage_of}
use quads.Plugins.Release.Calls.{
  Call, HostChange, Settings, HostMove, has_id, failure, success_data,
}
use quads.Plugins.Release.Going.{is_one}
use quads.Plugins.Release.Rebuild.{move_and_rebuild}
use quads.Plugins.Release.Seen.{Seen, unseen, see, top, IsClimbing}
use quads.Plugins.Release.Ends.{IsGated, Ending, move_and_rebuild-Leads}
use quads.Plugins.Release.Completion.{move_and_rebuild-Completes}
use quads.Plugins.Switch.{affirmed}
use quads.Programs.{Event, World, run}
use quads.Programs.Triples.{after, Leads-run}
use quads.Programs.Completion.{Completes-run}
use Prim.Native.String.{String}

-- A move in a world: what it returns, `none` where it raises, and what is seen of it.
abbrev pub returned : World Call → Settings → HostMove → Option Bool
returned w s m = (run w (move_and_rebuild s m) []).0

abbrev pub seen : World Call → Settings → HostMove → Seen
seen w s m = after see unseen (run w (move_and_rebuild s m) []).1

ended : (w : World Call) (s : Settings) (m : HostMove) → Ending s m (seen w s m) (returned w s m)
unfolding after
ended w s m =
    Leads-run see (Ending s m) w (move_and_rebuild s m) unseen [] (move_and_rebuild-Leads s m)

Ending-IsClimbing :
    (s : Settings) (m : HostMove) (x : Seen) (r : Option Bool)
    → Ending s m x r
    → IsClimbing x.reports
unfolding Ending IsClimbing
Ending-IsClimbing s m x (some true) h = h.3
Ending-IsClimbing s m x (some false) (inl h) = rw (h.1) tt
Ending-IsClimbing s m x (some false) (inr h) = h.3
Ending-IsClimbing s m x none h = h.1

-- However the devices, the plugins and the API answer a move, each status that it reports, the
-- status of a failure included, is of a later stage than the one reported before, and the first of a later
-- one than that of a move which was started.
pub move_and_rebuild-IsClimbing :
    (w : World Call) (s : Settings) (m : HostMove) → IsClimbing (seen w s m).reports
move_and_rebuild-IsClimbing w s m =
    Ending-IsClimbing s m (seen w s m) (returned w s m) (ended w s m)

-- The record of a host that is moved.
pub record IsPlaced (m : HostMove) (c : HostChange) : Type 0 where
  pub cloud : c.cloud ≡ some m.target_cloud
  pub build : c.build ≡ true
  pub validated : c.validated ≡ false

-- The record of a host whose move failed.
pub record IsUnbuilt (c : HostChange) : Type 0 where
  pub cloud : c.cloud ≡ none
  pub build : c.build ≡ false
  pub validated : c.validated ≡ false
  pub switch_config_applied : c.switch_config_applied ≡ some false

success_data-IsPlaced : (m : HostMove) → IsPlaced m (success_data m)
success_data-IsPlaced m = record { cloud = refl; build = refl; validated = refl }

failure-IsUnbuilt : IsUnbuilt failure
failure-IsUnbuilt = record {
  cloud = refl;
  build = refl;
  validated = refl;
  switch_config_applied = refl;
}

-- The last update of the host's record has the property.
abbrev pub Recorded : (HostChange → Type 0) → Option HostChange → Type 0
Recorded P host = (c : HostChange) × (host ≡ some c) × P c

unplaced :
    (m : HostMove) (host : Option HostChange) → host ≡ some failure → ¬ Recorded (IsPlaced m) host
unplaced m host e (c, f, placed) =
    let built : c.build ≡ true = placed.build in
    let same : failure ≡ c = cc in
    let off : failure.build ≡ true = ap (λ x. x.build) same ∙ built in cc

Ending-host :
    (s : Settings) (m : HostMove) (x : Seen) (r : Option Bool)
    → Ending s m x r
    → (r ≡ some true) ↔ Recorded (IsPlaced m) x.host
unfolding Ending
Ending-host s m x (some true) h = (λ e. (success_data m, h.0, success_data-IsPlaced m), λ e. refl)
Ending-host s m x (some false) (inl h) =
    let untouched = ap (λ y. y.host) h.1 in (λ e. cc, λ (c, f, p). cc)
Ending-host s m x (some false) (inr h) = (λ e. cc, λ e. absurd (unplaced m x.host h.0 e))
Ending-host s m x none h = (λ e. cc, λ (c, f, p). let none_made = h.0 in cc)

-- A move returns True exactly when the last update of its host's record puts the host in the target cloud,
-- as one that is to be built and is not validated.
pub move_and_rebuild-host :
    (w : World Call) (s : Settings) (m : HostMove)
    → (returned w s m ≡ some true) ↔ Recorded (IsPlaced m) (seen w s m).host
move_and_rebuild-host w s m = Ending-host s m (seen w s m) (returned w s m) (ended w s m)

Ending-failure :
    (s : Settings) (m : HostMove) (x : Seen) (r : Option Bool)
    → any (λ h. str_eq h m.host) s.untouchable_hosts ≡ false
    → r ≡ some false
    → Ending s m x r
    → Recorded IsUnbuilt x.host × (is_one x.failures ≡ has_id m.schedule_id) × IsGated m x
unfolding Ending
Ending-failure s m x (some true) touchable e h = cc
Ending-failure s m x (some false) touchable e (inl h) = cc
Ending-failure s m x (some false) touchable e (inr h) =
    ((failure, h.0, failure-IsUnbuilt), h.1, h.2)
Ending-failure s m x none touchable e h = cc

-- A move of a host that may be touched which returns False has last updated the host's record as
-- neither built nor validated nor configured at its switch, without a change of its cloud, has reported
-- exactly one error message where it has a schedule to report to, and, if it is a wipe move, the last command that it sent about the tenant's user, whatever came of it, is to disable it.
pub move_and_rebuild-failure :
    (w : World Call) (s : Settings) (m : HostMove)
    → any (λ h. str_eq h m.host) s.untouchable_hosts ≡ false
    → returned w s m ≡ some false
    → Recorded IsUnbuilt (seen w s m).host
      × (is_one (seen w s m).failures ≡ has_id m.schedule_id)
      × IsGated m (seen w s m)
move_and_rebuild-failure w s m touchable failed =
    Ending-failure s m (seen w s m) (returned w s m) touchable failed (ended w s m)

Ending-success :
    (s : Settings) (m : HostMove) (x : Seen) (r : Option Bool)
    → r ≡ some true
    → Ending s m x r
    → (x.failures ≡ [])
      × (x.gate ≡ (if m.rebuild then some false else some true))
      × ((has_id m.schedule_id ≡ false) ⊎ (top x.reports ≡ stage_of (value post_install)))
unfolding Ending
Ending-success s m x (some true) e h = (h.1, h.2, h.4)
Ending-success s m x (some false) e h = cc
Ending-success s m x none e h = cc

-- A move that returns True has reported no error message, and the stage post_install last where it has a
-- schedule to report to; the last command that it sent about the tenant's user, whatever came of it, is to
-- disable it if it is a wipe move and to enable it if not.
pub move_and_rebuild-success :
    (w : World Call) (s : Settings) (m : HostMove)
    → returned w s m ≡ some true
    → ((seen w s m).failures ≡ [])
      × ((seen w s m).gate ≡ (if m.rebuild then some false else some true))
      × ((has_id m.schedule_id ≡ false)
          ⊎ (top (seen w s m).reports ≡ stage_of (value post_install)))
move_and_rebuild-success w s m moved =
    Ending-success s m (seen w s m) (returned w s m) moved (ended w s m)

returned_true : (r : Option Bool) → ((b : Bool) × (r ≡ some b) × (b ≡ true)) → r ≡ some true
returned_true r (b, e, f) = cc

-- A move of a host that may be touched, with at least one attempt at the credentials, returns True where
-- every call is answered with True and every text that is asked for is there.
pub move_and_rebuild-returned :
    (w : World Call) (s : Settings) (m : HostMove)
    → any (λ h. str_eq h m.host) s.untouchable_hosts ≡ false
    → 1 ≤ s.ipmi_credential_retries
    → ((events : List (Event Call)) (c : Call) → w.answer events c ≡ affirmed)
    → ((events : List (Event Call)) (c : Call) → (t : String) × (w.text events c ≡ some t))
    → returned w s m ≡ some true
move_and_rebuild-returned w s m touchable positive affirms tells = returned_true (returned w s m) (
    Completes-run (λ b. b ≡ true) w (move_and_rebuild s m) [] affirms tells
      (move_and_rebuild-Completes s m touchable positive))
