-- ===== src/Cli/Resized/Writes.antt =====
-- The loops of `--extend` and `--shrink` in src/quads/cli/cli.py that send new ends.
use quads.Base.{
  ℕ, suc, ◌≡◌, refl, sym, ap, ◌∙◌, inl, inr, if◌then◌else◌, Bool, true, some, List, [], ◌∷◌, arith,
  map, amend, All, All-map, All-both, All-first, ◌==◌, ==_iff, first_sound, present, Bool-cases,
}
use quads.Models.{Schedule, Db}
use quads.Dao.Schedule.{ScheduleChange, get_schedule, change_schedule}
use quads.Api.Schedules.Update.{only_end, update_schedule}
use quads.Cli.{Client, Step, goes, Ended, floor_minute, asked_or, within_inv, write_ends}
use quads.Cli.Resized.{AreProper, IsRefit, HasResized, map-All}
use quads.Api.Schedules.Update.Ending.{IsEnding, update_schedule-inv, update_checks-IsEnding}

amend-map {ℓ} :
    {A : Type ℓ} (p : A → Bool) (g f : A → A) (xs : List A)
    → amend p g (map f xs) ≡ map (λ x. if p (f x) then g (f x) else f x) xs
amend-map p g f [] = refl
amend-map p g f (x ∷ xs) = ap (λ ys. (if p (f x) then g (f x) else f x) ∷ ys) (amend-map p g f xs)

-- Of the rows that have been resized, the ones of a key come from the row of that key.
row_of_key :
    (P : Schedule → ℕ → Type 0) (db : Db) (s r x : Schedule)
    → get_schedule db s.id ≡ some s
    → get_schedule db r.id ≡ some r
    → IsRefit P r x
    → x.id ≡ s.id
    → r ≡ s
row_of_key P db s r x hs hr u e =
    let same : r.id ≡ s.id = omega (arith, u.key, e) in
    let both : some r ≡ some s = sym hr ∙ ap (get_schedule db) same ∙ hs in cc

-- One more end that satisfies `P`.
module _ (P : Schedule → ℕ → Type 0) (db d : Db) (s : Schedule) (n : ℕ) (c : ScheduleChange)
    (r : Schedule) (proper : AreProper db) (found : get_schedule db s.id ≡ some s) (fits : P s n)
    (change : IsEnding n d s.id r c) where
  key_of : r.id ≡ s.id
  unfolding get_schedule
  key_of = (==_iff r.id s.id).0 (first_sound _ d.schedules r change.found)

  started :
      (f : Schedule → Schedule)
      → d.schedules ≡ map f db.schedules
      → All (λ x. IsRefit P x (f x)) db.schedules
      → r.start ≡ s.start
  unfolding get_schedule
  started f e u =
      let starts : All (λ x. x.id ≡ s.id → x.start ≡ s.start) d.schedules = rw e (
        map-All (λ x. x.id ≡ s.id → x.start ≡ s.start) f db.schedules
          (All-map db.schedules
            (λ x k same.
              k.0.start ∙ ap (λ y. y.start) (row_of_key P db s x (f x) found k.1.0 k.0 same))
            (All-both _ _ db.schedules u proper))) in
      All-first _ _ d.schedules r starts change.found key_of

  IsRefit-resized_one :
      (x y : Schedule)
      → r.start ≡ s.start
      → get_schedule db x.id ≡ some x
      → IsRefit P x y
      → IsRefit P x (if y.id == r.id then change_schedule c y else y)
  IsRefit-resized_one x y e k u = elim (Bool-cases (y.id == r.id)) [
    | inr other ↦ rw other u
    | inl t ↦
        let at_key : y.id ≡ s.id = (==_iff y.id r.id).0 t ∙ key_of in
        let same : x ≡ s = row_of_key P db s x y found k u at_key in
        let started_there : x.start ≡ s.start = ap (λ z. z.start) same in
        rw (t, change.change y)
          record {
            key = u.key;
            host = u.host;
            start = u.start;
            ordered = omega (arith, u.start, started_there, e, change.range);
            fits = rw same fits;
          }
  ]

  refit_by_change :
      HasResized P db d.schedules d.hosts
      → HasResized P db (amend (λ x. x.id == r.id) (change_schedule c) d.schedules) d.hosts
  refit_by_change h =
      let e = started h.resize h.resized h.refit in
      record {
        resize =
            λ x. if (h.resize x).id == r.id then change_schedule c (h.resize x) else h.resize x;
        resized = rw h.resized (amend-map _ (change_schedule c) h.resize db.schedules);
        refit =
            All-map db.schedules (λ x k. IsRefit-resized_one x (h.resize x) e k.1.0 k.0)
              (All-both _ _ db.schedules h.refit proper);
        same = h.same;
      }

-- The texts of dates that a client sends: none is empty, and the server reads a date to the minute.
pub record AreRead (c : Client) : Type 0 where
  pub given : (d : ℕ) → present (some (c.iso d)) ≡ true
  pub read : (i d : ℕ) → (c.env i).strptime "%Y-%m-%dT%H:%M" (c.iso d) ≡ some (floor_minute d)

-- What the loop needs of a schedule: its key finds the row it comes from, which may take the new end.
pub record CanTake (P : Schedule → ℕ → Type 0) (db : Db) (target : Schedule → Step ℕ) (s : Schedule)
    : Type 0 where
  pub row : Schedule
  pub key : row.id ≡ s.id
  pub found : get_schedule db row.id ≡ some row
  pub fits : (end : ℕ) → target s ≡ goes end → P row (floor_minute end)

module _ (P : Schedule → ℕ → Type 0) (c : Client) (db : Db) (texts : AreRead c)
    (proper : AreProper db) where
  update_end-HasResized :
      (i : ℕ) (s : Schedule) (end : ℕ) (d : Db)
      → get_schedule db s.id ≡ some s
      → P s (floor_minute end)
      → HasResized P db d.schedules d.hosts
      → (let d' = (update_schedule (c.env i) s.id (only_end (c.iso end)) d).1 in
          HasResized P db d'.schedules d'.hosts)
  update_end-HasResized i s end d found fits h =
      update_schedule-inv (HasResized P db) (c.env i) d s.id (only_end (c.iso end)) h
        λ r change checked.
          refit_by_change P db d s (floor_minute end) change r proper found fits
            (update_checks-IsEnding (c.env i) d s.id (c.iso end) (floor_minute end) r change
              (texts.given end) (texts.read i end) checked)
            h

  pub write_ends-HasResized :
      (failed : Ended) (target : Schedule → Step ℕ) (i : ℕ) (schedules : List Schedule) (d : Db)
      → All (CanTake P db target) schedules
      → HasResized P db d.schedules d.hosts
      → (let d' = (write_ends c failed target i schedules d).1 in
          HasResized P db d'.schedules d'.hosts)
  unfolding write_ends
  write_ends-HasResized failed target i [] d can h = h
  write_ends-HasResized failed target i (s ∷ rest) d can h =
      let Q : Db → Type 0 = λ x. HasResized P db x.schedules x.hosts in
      within_inv Q (target s) d _ h λ end e.
        let to = can.0 in
        let d' = (update_schedule (c.env i) s.id (only_end (c.iso end)) d).1 in
        let sent : Q d' =
          rw (sym to.key) (update_end-HasResized i to.row end d to.found (to.fits end e) h) in
        within_inv Q (asked_or failed (update_schedule (c.env i) s.id (only_end (c.iso end)) d).0)
          d' _ sent λ _ _. write_ends-HasResized failed target (suc i) rest d' can.1 sent
