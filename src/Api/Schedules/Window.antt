-- ===== src/Api/Schedules/Window.antt =====
-- The dates of a new schedule in src/quads/server/blueprints/schedules.py: `_parse_datetime_with_now`,
-- and the window that a self-schedule gets. A date is the number of microseconds since the start of
-- the year 1, which was a Monday, as in Python's proleptic calendar; Python's bound at the year 9999
-- is left out.
pub mod Bounds
use quads.Base.{
  ℕ, ◌+◌, ◌-◌, ◌*◌, ◌/◌, ◌%◌, ◌≤◌, ◌<◌, String, ◌≡◌, Bool, Option, none, some, List, [], ◌∷◌, ltb,
  leb, ◌==◌, str_eq, Outcome, pass, refuse, crash, ◌>>=◌, ◌>>◌, require, attribute_of, raise_unless,
  deadline_passed, if◌then◌else◌,
}
use quads.Session.{Config, Env}
use quads.Dao.Host.{contains}

abbrev pub day : ℕ
day = 86400000000

abbrev pub hour : ℕ
hour = 3600000000

-- `datetime.weekday()`: Monday is 0.
abbrev pub weekday : ℕ → ℕ
weekday t = t / day % 7

-- `_parse_datetime_with_now`; `i` numbers its call of `datetime.now()`, and `none` is `ValueError`.
unfoldable pub parse_datetime_with_now : Env → ℕ → String → Option ℕ
parse_datetime_with_now env i text =
    if str_eq (env.lower text) "now" then some (env.clock i) else env.strptime "%Y-%m-%d %H:%M" text

-- `day_mapping.get(...)`, over `calendar.day_name`
unfoldable pub day_number : String → Option ℕ
day_number name =
    if str_eq name "monday"
    then some 0
    else if str_eq name "tuesday"
    then some 1
    else if str_eq name "wednesday"
    then some 2
    else if str_eq name "thursday"
    then some 3
    else if str_eq name "friday"
    then some 4
    else if str_eq name "saturday"
    then some 5
    else if str_eq name "sunday"
    then some 6
    else none

-- `(target_day - current_day) % 7`
unfoldable pub days_until : ℕ → ℕ → ℕ
days_until target start = (target + 7 - weekday start) % 7

-- `start.replace(hour=h, minute=0, second=0, microsecond=0) + timedelta(days=days_ahead)`
unfoldable pub next_deadline : ℕ → ℕ → ℕ → ℕ
next_deadline start h days_ahead = start / day * day + h * hour + days_ahead * day

abbrev earlier : ℕ → ℕ → ℕ
earlier a b = if ltb b a then b else a

-- The end of a self-schedule that starts now.
unfoldable pub self_end : Config → ℕ → ℕ → ℕ
unfolding days_until next_deadline
self_end config target start =
    let ahead = days_until target start in
    let deadline = next_deadline start config.ssm_deadline_hour ahead in
    if ltb (ahead * day) config.ssm_default_lifetime
    then deadline
    else earlier (start + config.ssm_default_lifetime) deadline

-- The window, or the response of a deadline that is over. A day that is no day's name raises
-- `TypeError`, an hour past 23 `ValueError`.
unfoldable pub self_window : Config → ℕ → Outcome (ℕ × ℕ)
self_window config start = do
  target ← attribute_of (day_number config.ssm_deadline_day)
  raise_unless (ltb config.ssm_deadline_hour 24)
  let end = self_end config target start
  require (ltb start end) 400 deadline_passed
  pass (start, end)
