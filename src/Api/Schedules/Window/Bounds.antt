-- ===== src/Api/Schedules/Window/Bounds.antt =====
-- The bounds on the window of a self-schedule (src/quads/server/blueprints/schedules.py).
use quads.Base.{
  refl, ℕ, ◌+◌, ◌*◌, ◌/◌, ◌≤◌, ◌<◌, String, ◌≡◌, ◌↔◌, inl, inr, some, arith, pass, refuse,
  deadline_passed, Option-cases,
}
use quads.Session.{Config}
use quads.Api.Schedules.Window.{
  day, hour, weekday, day_number, days_until, next_deadline, self_end, self_window,
}

day_number-lt : (name : String) {n : ℕ} → day_number name ≡ some n → n < 7
unfolding day_number
day_number-lt name h = ground arith

module _ (config : Config) (target start : ℕ) (in_week : target < 7)
    (in_day : config.ssm_deadline_hour < 24) where
  days_until-lt : days_until target start < 7
  unfolding days_until
  days_until-lt = omega arith

  weekday-next_deadline :
      weekday (next_deadline start config.ssm_deadline_hour (days_until target start)) ≡ target
  unfolding next_deadline days_until
  weekday-next_deadline = omega arith

  self_end-le_deadline :
      self_end config target start
      ≤ next_deadline start config.ssm_deadline_hour (days_until target start)
  unfolding self_end
  self_end-le_deadline = ground arith

  self_end-lt : self_end config target start < start + config.ssm_default_lifetime + day
  unfolding self_end
  self_end-lt = ground arith

  self_end-le_start_iff :
      0 < config.ssm_default_lifetime
      → (self_end config target start ≤ start)
        ↔ ((weekday start ≡ target) × (start / day * day + config.ssm_deadline_hour * hour ≤ start))
  unfolding self_end
  self_end-le_start_iff pos = (λ h. (ground arith, ground arith), λ h. ground arith)

-- What a window that was granted satisfies.
pub record IsGranted (config : Config) (start : ℕ) (window : ℕ × ℕ) : Type 0 where
  pub target : ℕ
  pub named : day_number config.ssm_deadline_day ≡ some target
  pub begins : window.0 ≡ start
  pub proper : window.0 < window.1
  pub on_time : window.1 ≤ next_deadline start config.ssm_deadline_hour (days_until target start)
  pub deadline_day :
      weekday (next_deadline start config.ssm_deadline_hour (days_until target start)) ≡ target
  pub short : window.1 < start + config.ssm_default_lifetime + day

-- A self-schedule that is granted starts now and ends later, at or before the next deadline, which
-- lies on the configured day of the week, and less than a day past the default lifetime.
pub self_window-IsGranted :
    (config : Config) (start : ℕ) {window : ℕ × ℕ}
    → self_window config start ≡ pass window
    → IsGranted config start window
unfolding self_window
self_window-IsGranted config start {window} h =
    elim (Option-cases (day_number config.ssm_deadline_day)) [
      | inl unknown ↦ ground arith
      | inr (target, named) ↦
          let in_week : target < 7 = day_number-lt config.ssm_deadline_day named in
          let in_day : config.ssm_deadline_hour < 24 = ground arith in
          let same : window ≡ (start, self_end config target start) = ground arith in
          rw same (record {
            target = target;
            named = named;
            begins = refl;
            proper = ground arith;
            on_time = self_end-le_deadline config target start in_week in_day;
            deadline_day = weekday-next_deadline config target start in_week in_day;
            short = self_end-lt config target start in_week in_day;
          })
    ]

-- Where the day is known, the hour below 24 and the lifetime positive, a self-schedule is refused
-- exactly on the day of the deadline from the hour of the deadline on.
pub self_window-refused_iff :
    (config : Config) (start target : ℕ)
    → day_number config.ssm_deadline_day ≡ some target
    → config.ssm_deadline_hour < 24
    → 0 < config.ssm_default_lifetime
    → (self_window config start ≡ refuse 400 deadline_passed)
      ↔ ((weekday start ≡ target) × (start / day * day + config.ssm_deadline_hour * hour ≤ start))
unfolding self_window
self_window-refused_iff config start target named in_day pos =
    let iff =
      self_end-le_start_iff config target start (day_number-lt config.ssm_deadline_day named) in_day
        pos in
    rw named (λ h. iff.0 (ground arith), λ h. ground (arith, iff.1 h))
