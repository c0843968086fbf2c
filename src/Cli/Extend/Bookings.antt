-- ===== src/Cli/Extend/Bookings.antt =====
-- `action_extend` of src/quads/cli/cli.py promises no host twice.
use mathlib.Core.Path.{subst}
use quads.Base.{
  ℕ, suc, ◌+◌, ◌≤◌, ◌≡◌, refl, sym, ap, ◌∙◌, inl, inr, String, Bool, true, false, not, ◌&&◌, ◌||◌,
  Option, none, some, List, [], ◌∷◌, arith, All, All-map, All-first, map, ltb, present, Bool-cases,
  length,
}
use quads.Models.{Db}
use quads.Dao.Schedule.Bookings.{IsBooked}
use quads.Api.Notifications.{patch_notification-same}
use quads.Api.Available.{is_available}
use quads.Cli.{
  ℤ, Client, Arguments, goes, asked, goes_and, goes_same, demand, demand-eq-goes, returned,
  cli_exception, weeks_of, >>=-eq-goes, floor_minute, within_inv,
}
use quads.Cli.Chosen.{ScheduleView, chosen_schedules}
use quads.Cli.Chosen.Rows.{Comes, asked-eq-goes, chosen_schedules-Comes}
use quads.Cli.Resized.{
  AreProper, Fits, HasResized, always_fits, HasResized-refl, HasResized-IsBooked,
  HasResized-AreProper,
}
use quads.Cli.Resized.Writes.{AreRead, CanTake, write_ends-HasResized}
use quads.Cli.Extend.Free.{free-Fits}
use quads.Cli.Extend.{
  extended_end, extendable, all_extendable, cleared, extension, clear_notification, write_extension,
  action_extend,
}

-- No host's name holds the word that the answer is searched for.
abbrev pub SayNothing : Client → Db → Type 0
SayNothing c db = All (λ h. c.mentions_true h.name ≡ false) db.hosts

both_hold :
    (b m : Bool) (end to : ℕ)
    → m ≡ false
    → goes ((b || m) && not (ltb to end)) ≡ goes true
    → (b ≡ true) × (end ≤ to)
both_hold true m end to k h = (refl, ground arith)
both_hold false true end to k h = cc
both_hold false false end to k h = cc

-- A schedule that can be extended has room for its new end.
module _ (c : Client) (db : Db) (texts : AreRead c) (h : IsBooked db) (proper : AreProper db)
    (silent : SayNothing c db) where
  extendable-Fits :
      (i : ℕ) (weeks : Option ℤ) (date : Option String) (x : ScheduleView) (from : Comes db x)
      → extendable c i weeks date x db ≡ goes true
      → (end : ℕ) → extended_end c weeks date x.row ≡ goes end
      → Fits db from.origin (floor_minute end)
  unfolding extendable
  extendable-Fits i weeks date x from e end target =
      let (to, found, rest) = >>=-eq-goes (extended_end c weeks date x.row) _ e in
      let (free, answer, test) =
        >>=-eq-goes
          (asked (is_available (c.env i) x.host.name (some (c.iso x.row.end)) (some (c.iso to)) db))
          _ rest in
      let unsaid : c.mentions_true x.host.name ≡ false =
        All-first (λ y. c.mentions_true y.name ≡ false) _ db.hosts x.host silent from.host in
      let (is_free, le) = both_hold free (c.mentions_true x.host.name) x.row.end to unsaid test in
      let same : to ≡ end = goes_same to end (sym found ∙ target) in
      rw (sym same) (
        free-Fits c db texts h proper i x from to le (
          asked-eq-goes
            (is_available (c.env i) x.host.name (some (c.iso x.row.end)) (some (c.iso to)) db) true
            (answer ∙ ap goes is_free)))

  all_extendable-CanTake :
      (i : ℕ) (weeks : Option ℤ) (date : Option String) (xs : List ScheduleView)
      → All (Comes db) xs
      → all_extendable c i weeks date xs db ≡ goes true
      → All (CanTake (Fits db) db (extended_end c weeks date)) (map (λ x. x.row) xs)
  unfolding all_extendable
  all_extendable-CanTake i weeks date [] from e = tt
  all_extendable-CanTake i weeks date (x ∷ xs) from e =
      let (one, first_one, rest) = >>=-eq-goes (extendable c i weeks date x db) _ e in
      let (others, remaining, both) =
        >>=-eq-goes (all_extendable c (suc i) weeks date xs db) _ rest in
      let (t, ts) = goes_and one others both in
      (
        record {
          row = from.0.origin;
          key = sym (ap (λ r. r.id) from.0.seen);
          found = from.0.found;
          fits = extendable-Fits i weeks date x from.0 (first_one ∙ ap goes t);
        },
        all_extendable-CanTake (suc i) weeks date xs from.1 (remaining ∙ ap goes ts),
      )

  extension-CanTake :
      (args : Arguments) (weeks : Option ℤ) (xs : List ScheduleView)
      → extension c args db ≡ goes (weeks, xs)
      → All (CanTake (Fits db) db (extended_end c weeks args.date)) (map (λ x. x.row) xs)
  unfolding extension
  extension-CanTake args weeks xs e =
      let (_, _, e₁) =
        >>=-eq-goes (demand (present args.weeks || present args.date) cli_exception) _ e in
      let (_, _, e₂) =
        >>=-eq-goes (demand (present args.cloud || present args.host) cli_exception) _ e₁ in
      let (w, weeks_are, e₃) = >>=-eq-goes (weeks_of c args.weeks) _ e₂ in
      let (ys, chosen, e₄) = >>=-eq-goes (chosen_schedules c args db) _ e₃ in
      let (possible, answer, e₅) = >>=-eq-goes (all_extendable c 2 w args.date ys db) _ e₄ in
      let (_, agreed, e₆) = >>=-eq-goes (demand possible returned) _ e₅ in
      let same : (w, ys) ≡ (weeks, xs) = goes_same _ _ e₆ in
      subst (λ p. All (CanTake (Fits db) db (extended_end c p.0 args.date)) (map (λ x. x.row) p.1))
        same
        (all_extendable-CanTake 2 w args.date ys (chosen_schedules-Comes c args db proper ys chosen)
          (answer ∙ ap goes (demand-eq-goes possible returned agreed)))

clear_notification-same :
    (c : Client) (i : ℕ) (xs : List ScheduleView) (db : Db)
    → ((clear_notification c i xs db).1.schedules ≡ db.schedules)
      × ((clear_notification c i xs db).1.hosts ≡ db.hosts)
unfolding clear_notification
clear_notification-same c i [] db = (refl, refl)
clear_notification-same c i (x ∷ xs) db =
    elim x.notification
      as (λ n.
        ((clear_notification c i (record x { notification = n } ∷ xs) db).1.schedules
          ≡ db.schedules)
        × ((clear_notification c i (record x { notification = n } ∷ xs) db).1.hosts ≡ db.hosts)) [
          | none ↦ (refl, refl)
          | some n ↦ patch_notification-same (c.env i) n.id cleared db
        ]

action_extend-HasResized :
    (c : Client) (args : Arguments) (db : Db)
    → AreRead c
    → AreProper db
    → SayNothing c db
    → IsBooked db
    → (let d = (action_extend c args db).1 in HasResized (Fits db) db d.schedules d.hosts)
unfolding action_extend write_extension
action_extend-HasResized c args db texts proper silent h =
    let untouched =
      HasResized-refl (Fits db) db proper
        (All-map db.schedules (λ r _. always_fits r db.schedules) proper) in
    let P : Db → Type 0 = λ d. HasResized (Fits db) db d.schedules d.hosts in
    within_inv P (extension c args db) db _ untouched λ (weeks, xs) e.
      elim (Bool-cases args.check) [
        | inl t ↦ rw t untouched
        | inr f ↦
            rw f
              let still : P (clear_notification c (2 + length xs) xs db).1 =
                  let k = clear_notification-same c (2 + length xs) xs db in
                  rw (k.0, k.1) untouched in
                (within_inv P (clear_notification c (2 + length xs) xs db).0
                  (clear_notification c (2 + length xs) xs db).1 _ still
                  λ _ _.
                    write_ends-HasResized (Fits db) c db texts proper cli_exception
                      (extended_end c weeks args.date) (suc (2 + length xs)) (map (λ x. x.row) xs)
                      (clear_notification c (2 + length xs) xs db).1
                      (extension-CanTake c db texts h proper silent args weeks xs e) still)
      ]

-- Where every schedule starts before it ends and is found by its key, the server reads a date that is sent
-- to its minute, and no host's name holds the word true, extending, however it ends, leaves the bookings
-- sound: no host is in two schedules at one time, also where several schedules are extended or a request
-- fails half way. Every schedule still starts before it ends and is found by its key.
pub action_extend-IsBooked :
    (c : Client) (args : Arguments) (db : Db)
    → AreRead c
    → AreProper db
    → SayNothing c db
    → IsBooked db
    → (let d = (action_extend c args db).1 in IsBooked d × AreProper d)
action_extend-IsBooked c args db texts proper silent h =
    let resized = action_extend-HasResized c args db texts proper silent h in
    let d = (action_extend c args db).1 in
    (HasResized-IsBooked db d h resized, HasResized-AreProper (Fits db) db d proper resized)
