-- ===== src/Plugins/Release/Ends.antt =====
-- How a move (src/quads/plugins/builtin/release/standard.py) ends: what it reports, what it makes of the
-- record of its host, and where it leaves the tenant's user.
use quads.Base.{
  ℕ, ◌<◌, ◌≡◌, ◌⊎◌, ◌∙◌, refl, Bool, true, false, Option, none, some, [], str_eq, any,
  if◌then◌else◌, arith, Bool-cases, inl, inr,
}
use quads.Models.{ipmi_config, reboot, post_install}
use quads.Models.Stages.{value, stage_of}
use quads.Plugins.Release.Calls.{
  Call, disable_user, get_host, get_cloud, get_active_cloud_assignment, get_current_schedules,
  update_first_schedule, update_host, Settings, HostMove, has_id, report_progress, failure,
  success_data, fail_move,
}
use quads.Plugins.Release.Rebuild.{
  password_of, rebuild_host, power_off_home, update_records, move_host, move_and_rebuild,
}
use quads.Plugins.Release.Going.{
  IsGoing, HasFailed, Updates, update_host-Updates, is_one, after_report, both-Part, Failing,
  fail_move-Failing,
}
use quads.Plugins.Release.Parts.{rebuild_host-Part, power_off_home-Part, stages_climb}
use quads.Plugins.Release.Credentials.{
  Credentials, configure_and_verify_ipmi-Credentials, closed, disable_lem, closed-IsGoing,
}
use quads.Plugins.Release.Seen.{begun, Seen, unseen, see, top, IsClimbing}
use quads.Programs.{Program, done, ◌>>=◌, ◌>>◌, check, perform, ignoring, both, when}
use quads.Programs.Triples.{
  Leads, Leads-weaken, Leads-bind, Same, Leads-quiet, Leads-if, IsQuiet, check-Same, perform-Same,
}

-- The last command on the tenant's user of a wipe move disables it.
abbrev pub IsGated : HostMove → Seen → Type 0
IsGated m x = (m.rebuild ≡ false) ⊎ (x.gate ≡ some false)

abbrev gate_of : HostMove → Option Bool
gate_of m = if m.rebuild then some false else some true

-- What a move leaves, by what it returns.
unfoldable pub Ending : Settings → HostMove → Seen → Option Bool → Type 0
Ending s m x (some true) =
    (x.host ≡ some (success_data m))
    × (x.failures ≡ [])
    × (x.gate ≡ gate_of m)
    × IsClimbing x.reports
    × ((has_id m.schedule_id ≡ false) ⊎ (top x.reports ≡ stage_of (value post_install)))
Ending s m x (some false) =
    ((any (λ h. str_eq h m.host) s.untouchable_hosts ≡ true) × (x ≡ unseen))
    ⊎ ((x.host ≡ some failure)
        × (is_one x.failures ≡ has_id m.schedule_id)
        × IsGated m x
        × IsClimbing x.reports)
Ending s m x none = (x.host ≡ none) × IsClimbing x.reports

-- The failures and exceptions of a part are those of the move.
failed-Ending :
    (s : Settings) (m : HostMove) (g : Option Bool) (x : Seen)
    → (m.rebuild ≡ false) ⊎ (g ≡ some false)
    → HasFailed m g x
    → Ending s m x (some false)
unfolding Ending HasFailed
failed-Ending s m g x (inl e) h = inr (h.0, h.1, inl e, h.3)
failed-Ending s m g x (inr e) h = inr (h.0, h.1, inr (h.2 ∙ e), h.3)

fault-Ending :
    (s : Settings) (m : HostMove) (x : Seen)
    → (x.host ≡ none) × IsClimbing x.reports
    → Ending s m x none
unfolding Ending
fault-Ending s m x h = h

-- The last report, with the host's record updated.
reported-Ending :
    (s : Settings) (m : HostMove) (n : ℕ) (x : Seen)
    → n < stage_of (value post_install)
    → IsGoing (gate_of m) n x
    → Leads see
        (record x { host = some (success_data m) })
        (report_progress m post_install >> done true)
        (Ending s m)
unfolding see Leads IsGoing Ending IsClimbing report_progress ignoring ◌>>=◌
reported-Ending s m n x below going = elim (Bool-cases (has_id m.schedule_id)) [
  | inl e ↦ rw e (λ v. (refl, going.1.0, going.2, (omega arith, going.3), inr refl))
  | inr e ↦ rw e (refl, going.1.0, going.2, going.3, inl e)
]

update_records-Ending :
    (s : Settings) (m : HostMove) (n : ℕ) (x : Seen)
    → n < stage_of (value post_install)
    → IsGoing (gate_of m) n x
    → Leads see x (update_records m) (Ending s m)
unfolding update_records see Leads IsGoing Ending report_progress ignoring
update_records-Ending s m n x below going =
    let moved : Seen = record x { host = some (success_data m) } in
    Leads-quiet see (Ending s m) (check get_current_schedules) _ x
      (check-Same see get_current_schedules x (λ z v. refl))
      (λ has_schedule.
        Leads-quiet see (Ending s m) (when has_schedule (perform update_first_schedule)) _ x
          (Leads-if see (Same see x) has_schedule _ (done tt) x
            (λ e. perform-Same see update_first_schedule x (λ z v. refl)) (λ e. refl))
          (λ u.
            Leads-bind see (Updates x (success_data m)) (Ending s m)
              (perform (update_host (success_data m))) _ x (update_host-Updates (success_data m) x)
              (λ y a e. rw e (reported-Ending s m n x below going))
              (λ y e. rw e (going.0, going.3)))
          (going.0, going.3))
      (going.0, going.3)

gate_of-cases : (m : HostMove) → (m.rebuild ≡ false) ⊎ (gate_of m ≡ some false)
gate_of-cases m = elim (Bool-cases m.rebuild) [ inl e ↦ inr (rw e refl) | inr e ↦ inl e ]

-- What follows the report of the credentials and the gate.
moved-Ending :
    (s : Settings) (m : HostMove) (x : Seen)
    → IsGoing (gate_of m) (stage_of (value ipmi_config)) x
    → Leads see x
        (both (rebuild_host s m) (both (power_off_home s m) (update_records m)))
        (Ending s m)
moved-Ending s m x going =
    let order = stages_climb in
    let rebooting = stage_of (value reboot) in
    let gated = gate_of-cases m in
    both-Part m (gate_of m) rebooting _ _ x (Ending s m) (rebuild_host-Part s m (gate_of m) x going)
      (λ y h.
        both-Part m (gate_of m) rebooting _ _ y (Ending s m)
          (power_off_home-Part s m (gate_of m) y h)
          (λ z k. update_records-Ending s m rebooting z (omega arith) k)
          (λ z k. failed-Ending s m (gate_of m) z gated k) (λ z k. fault-Ending s m z k))
      (λ y h. failed-Ending s m (gate_of m) y gated h) (λ y h. fault-Ending s m y h)

-- The gate before the rebuild.
gate-IsGoing :
    (m : HostMove) (n : ℕ) (x : Seen)
    → IsGoing (some true) n x
    → Leads see x
        (when m.rebuild (check disable_user >>= λ _. done tt))
        (λ y r. IsGoing (gate_of m) n y)
unfolding Leads
gate-IsGoing m n x going = elim (Bool-cases m.rebuild) [
  | inl e ↦ rw e (
      Leads-bind see (λ y r. y ≡ closed x) (λ y r. IsGoing (some false) n y) (check disable_user) _
        x (disable_lem x) (λ y b f. rw f (closed-IsGoing x (some true) n going))
        (λ y f. rw f (closed-IsGoing x (some true) n going)))
  | inr e ↦ rw e going
]

move_host-Ending :
    (s : Settings) (m : HostMove) (x : Seen)
    → IsGoing (some true) begun x
    → Leads see x (move_host s m) (Ending s m)
unfolding move_host IsGoing Ending
move_host-Ending s m x going =
    let order = stages_climb in
    let n = stage_of (value ipmi_config) in
    after_report m (some true) begun ipmi_config x (Ending s m) _ going (omega arith) (omega arith)
      (λ y h.
        Leads-bind see (λ z r. IsGoing (gate_of m) n z) (Ending s m) _ _ y (gate-IsGoing m n y h)
          (λ z a k. moved-Ending s m z k) (λ z k. (k.0, k.3)))
      (λ y h. (h.0, h.3))

unseen-IsGoing : IsGoing none begun unseen
unfolding IsGoing IsClimbing stage_of
unseen-IsGoing = (refl, (refl, omega arith), refl, tt, omega arith)

-- A call at the start, before anything is seen.
fetch-Ending :
    (s : Settings) (m : HostMove) (c : Call) (p : Program Call Bool)
    → IsQuiet see c
    → Leads see unseen p (Ending s m)
    → Leads see unseen (perform c >> p) (Ending s m)
unfolding Ending IsClimbing
fetch-Ending s m c p quiet h =
    Leads-quiet see (Ending s m) (perform c) _ unseen (perform-Same see c unseen quiet) (λ a. h)
      (refl, tt)

untouchable-Ending :
    (s : Settings) (m : HostMove)
    → any (λ h. str_eq h m.host) s.untouchable_hosts ≡ true
    → Leads see unseen (done false) (Ending s m)
unfolding Leads Ending
untouchable-Ending s m e = inl (e, refl)

Credentials-fault :
    (s : Settings) (m : HostMove) (x : Seen) → Credentials m.rebuild x none → Ending s m x none
unfolding Credentials Ending
Credentials-fault s m x h = h

-- A failure before the move proper.
part-Ending :
    (s : Settings) (m : HostMove) (g : Option Bool)
    → (m.rebuild ≡ false) ⊎ (g ≡ some false)
    → (x : Seen) (r : Option Bool) → Failing m g x r
    → Ending s m x r
unfolding Failing
part-Ending s m g gated x (some true) h = cc
part-Ending s m g gated x (some false) h = failed-Ending s m g x gated h.1
part-Ending s m g gated x none h = fault-Ending s m x h

-- What a move does with the answer of the credentials.
Credentials-Ending :
    (s : Settings) (m : HostMove) (x : Seen) (ok : Bool)
    → Credentials m.rebuild x (some ok)
    → Leads see x (if ok then move_host s m else fail_move m "Failed at ipmi_config") (Ending s m)
unfolding Credentials
Credentials-Ending s m x true h = move_host-Ending s m x h
Credentials-Ending s m x false (g, going, gated) =
    Leads-weaken see (fail_move m "Failed at ipmi_config") x
      (fail_move-Failing m g begun "Failed at ipmi_config" x going) (part-Ending s m g gated)

-- However the calls are answered, a move ends so.
pub move_and_rebuild-Leads :
    (s : Settings) (m : HostMove) → Leads see unseen (move_and_rebuild s m) (Ending s m)
unfolding move_and_rebuild see
move_and_rebuild-Leads s m =
    Leads-if see (Ending s m) (any (λ h. str_eq h m.host) s.untouchable_hosts) (done false) _ unseen
      (untouchable-Ending s m)
      (λ e.
        fetch-Ending s m get_host _ (λ z v. refl)
          (fetch-Ending s m get_cloud _ (λ z v. refl)
            (fetch-Ending s m get_active_cloud_assignment _ (λ z v. refl)
              (Leads-bind see (Credentials m.rebuild) (Ending s m) _ _ unseen
                (configure_and_verify_ipmi-Credentials s (password_of s m.assignment) m.rebuild
                  unseen unseen-IsGoing)
                (Credentials-Ending s m) (Credentials-fault s m)))))
