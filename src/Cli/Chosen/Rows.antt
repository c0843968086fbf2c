-- ===== src/Cli/Chosen/Rows.antt =====
-- Where the schedules that `--extend` and `--shrink` of src/quads/cli/cli.py take come from.
use quads.Base.{
  ◌<◌, ◌≡◌, sym, ap, ◌∙◌, some, List, [], ◌∷◌, arith, All, All-select, first, select, ◌==◌, Outcome,
  pass, refuse, crash, attribute_of-eq-pass, >>=-eq-pass, attribute_of,
}
use quads.Models.{Schedule, Db}
use quads.Dao.Assignment.{get_assignment}
use quads.Dao.Schedule.{get_schedule, get_current_schedule, get_future_schedules}
use quads.Api.Schedules.Current.{current_schedules, future_schedules}
use quads.Cli.{Client, Arguments, goes, asked, >>=-eq-goes, demand, cli_exception}
use quads.Cli.Resized.{AreProper}
use quads.Cli.Chosen.{
  ScheduleView, whole_seconds, notified, listed, all_listed, is_usable, dispatched, current_request,
  future_request, agreed, current_or_future, chosen_schedules,
}

-- The row that a schedule was read from.
pub record Comes (db : Db) (x : ScheduleView) : Type 0 where
  pub origin : Schedule
  pub found : get_schedule db origin.id ≡ some origin
  pub proper : origin.start < origin.end
  pub seen : x.row ≡ whole_seconds origin
  pub host : first (λ h. h.id == origin.host_id) db.hosts ≡ some x.host

listed-row :
    (db : Db) (r : Schedule) (x : ScheduleView)
    → listed db r ≡ pass x
    → (x.row ≡ whole_seconds r) × (first (λ h. h.id == r.host_id) db.hosts ≡ some x.host)
unfolding listed
listed-row db r x e =
    let (h, found, rest) =
      >>=-eq-pass (attribute_of (first (λ h. h.id == r.host_id) db.hosts)) _ e in
    let (n, known, made) = >>=-eq-pass (notified db (get_assignment db r.assignment_id)) _ rest in
    let same : record { row = whole_seconds r; host = h; notification = n } ≡ x = cc in
    (ap (λ y. y.row) (sym same), attribute_of-eq-pass _ h found ∙ ap (λ y. some y.host) same)

all_listed-Comes :
    (db : Db) (rows : List Schedule) (xs : List ScheduleView)
    → All (λ r. (get_schedule db r.id ≡ some r) × (r.start < r.end)) rows
    → all_listed db rows ≡ pass xs
    → All (Comes db) xs
unfolding all_listed
all_listed-Comes db [] xs h e = let same : [] ≡ xs = cc in rw (sym same) tt
all_listed-Comes db (r ∷ rows) xs h e =
    let (x, one, rest) = >>=-eq-pass (listed db r) _ e in
    let (others, all, made) = >>=-eq-pass (all_listed db rows) _ rest in
    let same : x ∷ others ≡ xs = cc in
    let (seen, host) = listed-row db r x one in
    rw (sym same) (
      record { origin = r; found = h.0.0; proper = h.0.1; seen = seen; host = host },
      all_listed-Comes db rows others h.1 all,
    )

pub asked-eq-goes {ℓ} : {A : Type ℓ} (m : Outcome A) (a : A) → asked m ≡ goes a → m ≡ pass a
asked-eq-goes (pass b) a h = cc
asked-eq-goes (refuse status m) a h = cc
asked-eq-goes crash a h = cc

agreed-same : (c : Client) (future xs : List ScheduleView) → agreed c future ≡ goes xs → future ≡ xs
unfolding agreed
agreed-same c [] xs h = cc
agreed-same c (y ∷ ys) xs h = ground arith

module _ (c : Client) (args : Arguments) (db : Db) (proper : AreProper db) where
  future-Comes : (xs : List ScheduleView) → future_request c args db ≡ pass xs → All (Comes db) xs
  unfolding future_schedules get_future_schedules
  future-Comes xs h = all_listed-Comes db _ xs (All-select _ _ db.schedules proper) h

  current-Comes : (xs : List ScheduleView) → current_request c args db ≡ pass xs → All (Comes db) xs
  unfolding current_schedules get_current_schedule
  current-Comes xs h = all_listed-Comes db _ xs (All-select _ _ db.schedules proper) h

  either-Comes :
      (current xs : List ScheduleView)
      → All (Comes db) current
      → current_or_future c args db current ≡ goes xs
      → All (Comes db) xs
  unfolding current_or_future
  either-Comes (x ∷ rest) xs h e = let same : x ∷ rest ≡ xs = cc in rw (sym same) h
  either-Comes [] xs h e =
      let (future, answer, agree) = >>=-eq-goes (asked (future_request c args db)) _ e in
      rw (sym (agreed-same c future xs agree))
        (future-Comes future (asked-eq-goes (future_request c args db) future answer))

  pub chosen_schedules-Comes :
      (xs : List ScheduleView) → chosen_schedules c args db ≡ goes xs → All (Comes db) xs
  unfolding chosen_schedules
  chosen_schedules-Comes xs e =
      let (_, _, rest) = >>=-eq-goes (demand (dispatched args db) cli_exception) _ e in
      let (current, answer, chosen) = >>=-eq-goes (asked (current_request c args db)) _ rest in
      either-Comes (select is_usable current) xs
        (All-select (Comes db) is_usable current
          (current-Comes current (asked-eq-goes (current_request c args db) current answer)))
        chosen
