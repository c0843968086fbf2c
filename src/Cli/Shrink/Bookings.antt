-- ===== src/Cli/Shrink/Bookings.antt =====
-- `action_shrink` of src/quads/cli/cli.py shortens, and promises no host twice.
use quads.Base.{
  ℕ, ◌+◌, ◌≤◌, ◌≡◌, sym, ap, ◌∙◌, inl, inr, true, ◌||◌, Option, List, [], ◌∷◌, arith, All, All-map,
  All-first, map, ltb, present, Bool-cases, if◌then◌else◌,
}
use mathlib.Core.Path.{subst}
use quads.Models.{Schedule, Db}
use quads.Dao.Schedule.{get_schedule}
use quads.Dao.Schedule.Bookings.{IsBooked}
use quads.Api.Available.{minute}
use quads.Api.Schedules.Window.{hour}
use quads.Cli.{
  Client, Arguments, goes, goes_and, goes_same, >>=-eq-goes, demand, demand-eq-goes, returned,
  cli_exception, uncaught, floor_minute, floor_minute_le, within_inv,
}
use quads.Cli.Chosen.{ScheduleView, chosen_schedules}
use quads.Cli.Chosen.Rows.{Comes, chosen_schedules-Comes}
use quads.Cli.Resized.{
  AreProper, Fits, HasResized, HasResized-refl, HasResized-map, HasResized-IsBooked,
  HasResized-AreProper,
}
use quads.Cli.Resized.Writes.{AreRead, CanTake, write_ends-HasResized}
use quads.Cli.Shrink.{
  Target, target_of, shrunk_end, shrinkable, all_shrinkable, shrinkage, sent_end, action_shrink,
}

-- No later than the end that the schedule has.
abbrev pub NotLater : Schedule → ℕ → Type 0
NotLater r n = n ≤ r.end

-- Every row lasts a minute.
abbrev pub LastAMinute : Db → Type 0
LastAMinute db = All (λ r. r.start + minute ≤ r.end) db.schedules

shrinkable-le :
    (args : Arguments) (threshold : ℕ) (s : Schedule) (end : ℕ)
    → shrinkable args threshold s end ≡ true
    → end ≤ s.end
shrinkable-le args threshold s end h = ground arith

largest :
    (end lower sent n : ℕ)
    → goes (if ltb end lower then lower else end) ≡ goes sent
    → end ≤ n
    → lower ≤ n
    → sent ≤ n
largest end lower sent n e h k = let same = goes_same _ _ e in ground arith

-- What is sent for a schedule that can be shrunk is no later than its end.
sent-NotLater :
    (db : Db) (target : Option Target) (x : ScheduleView) (from : Comes db x) (end : ℕ)
    → from.origin.start + minute ≤ from.origin.end
    → shrunk_end target x.row ≡ goes end
    → end ≤ x.row.end
    → (sent : ℕ) → sent_end target x.row ≡ goes sent
    → NotLater from.origin (floor_minute sent)
unfolding sent_end
sent-NotLater db target x from end lasts is le sent e =
    let (to, found, made) = >>=-eq-goes (shrunk_end target x.row) _ e in
    let same : to ≡ end = goes_same to end (sym found ∙ is) in
    let start = ap (λ r. r.start) from.seen in
    let ends_at = ap (λ r. r.end) from.seen in
    floor_minute_le sent from.origin.end (
      largest to (x.row.start + minute) sent from.origin.end made (omega (arith, same, le, ends_at))
        (omega (arith, start, lasts)))

origin-lasts :
    (db : Db) (x : ScheduleView) (from : Comes db x)
    → LastAMinute db
    → from.origin.start + minute ≤ from.origin.end
unfolding get_schedule
origin-lasts db x from lasts = All-first _ _ db.schedules from.origin lasts from.found

module _ (db : Db) (lasts : LastAMinute db) (threshold : ℕ) (args : Arguments) where
  all_shrinkable-CanTake :
      (target : Option Target) (xs : List ScheduleView)
      → All (Comes db) xs
      → all_shrinkable args threshold target xs ≡ goes true
      → All (CanTake NotLater db (sent_end target)) (map (λ x. x.row) xs)
  unfolding all_shrinkable
  all_shrinkable-CanTake target [] from e = tt
  all_shrinkable-CanTake target (x ∷ xs) from e =
      let (end, is, rest) = >>=-eq-goes (shrunk_end target x.row) _ e in
      let (others, remaining, both) =
        >>=-eq-goes (all_shrinkable args threshold target xs) _ rest in
      let (t, ts) = goes_and (shrinkable args threshold x.row end) others both in
      (
        record {
          row = from.0.origin;
          key = sym (ap (λ r. r.id) from.0.seen);
          found = from.0.found;
          fits =
              sent-NotLater db target x from.0 end (origin-lasts db x from.0 lasts) is
                (shrinkable-le args threshold x.row end t);
        },
        all_shrinkable-CanTake target xs from.1 (remaining ∙ ap goes ts),
      )

shrinkage-CanTake :
    (c : Client) (args : Arguments) (db : Db) (target : Option Target) (xs : List ScheduleView)
    → AreProper db
    → LastAMinute db
    → shrinkage c args db ≡ goes (target, xs)
    → All (CanTake NotLater db (sent_end target)) (map (λ x. x.row) xs)
unfolding shrinkage
shrinkage-CanTake c args db target xs proper lasts e =
    let (_, _, e₁) =
      >>=-eq-goes (demand (present args.weeks || args.now || present args.date) cli_exception) _
        e in
    let (_, _, e₂) =
      >>=-eq-goes (demand (present args.cloud || present args.host) cli_exception) _ e₁ in
    let (to, _, e₃) = >>=-eq-goes (target_of c args) _ e₂ in
    let (ys, chosen, e₄) = >>=-eq-goes (chosen_schedules c args db) _ e₃ in
    let (possible, answer, e₅) = >>=-eq-goes (all_shrinkable args (c.now 1 + hour) to ys) _ e₄ in
    let (_, agreed, e₆) = >>=-eq-goes (demand possible returned) _ e₅ in
    let same : (to, ys) ≡ (target, xs) = goes_same _ _ e₆ in
    subst (λ p. All (CanTake NotLater db (sent_end p.0)) (map (λ x. x.row) p.1)) same
      (all_shrinkable-CanTake db lasts (c.now 1 + hour) args to ys
        (chosen_schedules-Comes c args db proper ys chosen)
        (answer ∙ ap goes (demand-eq-goes possible returned agreed)))

action_shrink-shortens :
    (c : Client) (args : Arguments) (db : Db)
    → AreRead c
    → AreProper db
    → LastAMinute db
    → (let d = (action_shrink c args db).1 in HasResized NotLater db d.schedules d.hosts)
unfolding action_shrink
action_shrink-shortens c args db texts proper lasts =
    let P : Db → Type 0 = λ d. HasResized NotLater db d.schedules d.hosts in
    let untouched : P db =
      HasResized-refl NotLater db proper (All-map db.schedules (λ r _. omega arith) proper) in
    within_inv P (shrinkage c args db) db _ untouched λ (target, xs) e.
      elim (Bool-cases args.check) [
        | inl t ↦ rw t untouched
        | inr f ↦ rw f (elim (Bool-cases (c.confirms 1)) [
          | inr refused ↦ rw refused untouched
          | inl agrees ↦ rw agrees (
              write_ends-HasResized NotLater c db texts proper uncaught (sent_end target) 2
                (map (λ x. x.row) xs) db (shrinkage-CanTake c args db target xs proper lasts e)
                untouched)
        ])
      ]

later_fit :
    (r : Schedule) (n : ℕ)
    → NotLater r n
    → (rows : List Schedule) → All (λ t. t.host_id ≡ r.host_id → r.end ≤ t.start → n ≤ t.start) rows
later_fit r n le [] = tt
later_fit r n le (t ∷ rows) = (λ _ k. omega (arith, le, k), later_fit r n le rows)

-- Where every schedule lasts a minute, starts before it ends and is found by its key, and the server
-- reads a date that is sent to its minute, shrinking, however it ends, keeps every schedule's key, host
-- and start, ends none later than before and none at its start, and leaves the bookings sound. Every
-- schedule still starts before it ends and is found by its key.
pub action_shrink-IsBooked :
    (c : Client) (args : Arguments) (db : Db)
    → AreRead c
    → AreProper db
    → LastAMinute db
    → IsBooked db
    → (let d = (action_shrink c args db).1 in
        HasResized NotLater db d.schedules d.hosts × IsBooked d × AreProper d)
action_shrink-IsBooked c args db texts proper lasts h =
    let shorter = action_shrink-shortens c args db texts proper lasts in
    let d = (action_shrink c args db).1 in
    (
      shorter,
      HasResized-IsBooked db d h (
          HasResized-map NotLater (Fits db) db d.schedules d.hosts
            (λ r n le. later_fit r n le db.schedules) shorter),
      HasResized-AreProper NotLater db d proper shorter,
    )
