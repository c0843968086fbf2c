-- ===== src/Cli/Resized.antt =====
-- What a client of PATCH /schedules/<id> (src/quads/server/blueprints/schedules.py) does to the bookings
-- when it gives a schedule another end.
pub mod Writes
use quads.Base.{
  ℕ, suc, ◌+◌, ◌*◌, ◌/◌, ◌≤◌, ◌<◌, String, ◌≡◌, refl, sym, ap, ◌∙◌, ◌⊎◌, inl, inr, if◌then◌else◌,
  Bool, true, false, Option, none, some, List, [], ◌∷◌, arith, map, amend, first, All, All-map,
  All-both, All-first, ◌==◌, ==_iff, first_sound, present, is_some, Bool-cases, Outcome,
  attribute_of, pass, refuse, crash, continue, continue_inv, str_eq,
}
use quads.Models.{Assignment, Host, Schedule, Db}
use quads.Session.{Env, Session, safe_commit}
use quads.Dao.Assignment.{get_assignment}
use quads.Dao.Notification.{update_notification}
use quads.Dao.Schedule.{ScheduleChange, chosen, get_schedule, change_schedule, write_schedule}
use quads.Dao.Schedule.Bookings.{Apart, AllApart, IsBooked}
use quads.Api.Schedules.Create.{clear_pre}
use quads.Api.Schedules.Update.{
  UpdateRequest, change_checks, update_checks, only_end, update_row, update_schedule, parsed,
}
use quads.Cli.{Client, Step, goes, ends, Ended, floor_minute, asked_or, within_inv, write_ends}

-- Every row starts before it ends, and its key finds it.
abbrev pub AreProper : Db → Type 0
AreProper db = All (λ r. (get_schedule db r.id ≡ some r) × (r.start < r.end)) db.schedules

-- An end that leaves the later schedules of the same host alone.
abbrev pub Fits : Db → Schedule → ℕ → Type 0
Fits db r n = All (λ t. t.host_id ≡ r.host_id → r.end ≤ t.start → n ≤ t.start) db.schedules

-- The row with another end, which satisfies `P`.
pub record IsRefit (P : Schedule → ℕ → Type 0) (r s : Schedule) : Type 0 where
  pub key : s.id ≡ r.id
  pub host : s.host_id ≡ r.host_id
  pub start : s.start ≡ r.start
  pub ordered : s.start < s.end
  pub fits : P r s.end

-- The same hosts, and the same rows but for ends that satisfy `P`.
pub record HasResized (P : Schedule → ℕ → Type 0) (db : Db) (rows : List Schedule)
    (hosts : List Host) : Type 0 where
  pub resize : Schedule → Schedule
  pub resized : rows ≡ map resize db.schedules
  pub refit : All (λ r. IsRefit P r (resize r)) db.schedules
  pub same : hosts ≡ db.hosts

map-same {ℓ} : {A : Type ℓ} (xs : List A) → xs ≡ map (λ x. x) xs
map-same [] = refl
map-same (x ∷ xs) = ap (λ ys. x ∷ ys) (map-same xs)

pub map-All {ℓ κ} :
    {A : Type ℓ} (P : A → Type κ) (f : A → A) (xs : List A)
    → All (λ x. P (f x)) xs
    → All P (map f xs)
map-All P f [] h = tt
map-All P f (x ∷ xs) h = (h.0, map-All P f xs h.1)

pub always_fits :
    (r : Schedule) (rows : List Schedule)
    → All (λ t. t.host_id ≡ r.host_id → r.end ≤ t.start → r.end ≤ t.start) rows
always_fits r [] = tt
always_fits r (t ∷ rows) = (λ _ h. h, always_fits r rows)

pub HasResized-refl :
    (P : Schedule → ℕ → Type 0) (db : Db)
    → AreProper db
    → All (λ r. P r r.end) db.schedules
    → HasResized P db db.schedules db.hosts
HasResized-refl P db proper fits = record {
  resize = λ r. r;
  resized = map-same db.schedules;
  refit =
      All-map db.schedules
        (λ r k. record { key = refl; host = refl; start = refl; ordered = k.0.1; fits = k.1 })
        (All-both _ _ db.schedules proper fits);
  same = refl;
}

-- A weaker condition on the ends.
pub HasResized-map :
    (P Q : Schedule → ℕ → Type 0) (db : Db) (rows : List Schedule) (hosts : List Host)
    → ((r : Schedule) (n : ℕ) → P r n → Q r n)
    → HasResized P db rows hosts
    → HasResized Q db rows hosts
HasResized-map P Q db rows hosts f h = record {
  resize = h.resize;
  resized = h.resized;
  refit =
      All-map db.schedules
        (λ r u. record {
          key = u.key;
          host = u.host;
          start = u.start;
          ordered = u.ordered;
          fits = f r (h.resize r).end u.fits;
        })
        h.refit;
  same = h.same;
}

-- The other pairs keep apart when both rows are refit.
refit-Apart :
    (db : Db) (r s r' s' : Schedule)
    → IsRefit (Fits db) r r'
    → IsRefit (Fits db) s s'
    → (s.host_id ≡ r.host_id → r.end ≤ s.start → r'.end ≤ s.start)
    → (r.host_id ≡ s.host_id → s.end ≤ r.start → s'.end ≤ r.start)
    → Apart r s
    → Apart r' s'
refit-Apart db r s r' s' a b hr hs apart e =
    let same : r.host_id ≡ s.host_id = omega (arith, a.host, b.host, e) in
    elim (apart same) [
      | inl h ↦ inl (omega (arith, hr (sym same) h, b.start))
      | inr h ↦ inr (omega (arith, hs same h, a.start))
    ]

-- The rows of a list that are refit, each with room among them.
refit-AllApart :
    (db : Db) (f : Schedule → Schedule) (rows : List Schedule)
    → All
        (λ r.
          IsRefit (Fits db) r (f r)
          × All (λ t. t.host_id ≡ r.host_id → r.end ≤ t.start → (f r).end ≤ t.start) rows)
        rows
    → AllApart rows
    → AllApart (map f rows)
refit-AllApart db f [] h apart = tt
refit-AllApart db f (r ∷ rows) h apart = (
  map-All (Apart (f r)) f rows (
      All-map rows (λ s k. refit-Apart db r s (f r) (f s) h.0.0 k.0.0.0 k.1 k.0.0.1.0 k.0.1)
        (All-both _ _ rows (All-both _ _ rows h.1 apart.0) h.0.1.1)),
  refit-AllApart db f rows (All-map rows (λ s k. (k.0, k.1.1)) h.1) apart.1,
)

pub HasResized-IsBooked :
    (db d : Db) → IsBooked db → HasResized (Fits db) db d.schedules d.hosts → IsBooked d
HasResized-IsBooked db d h k = record {
  apart = rw k.resized (
      refit-AllApart db k.resize db.schedules (All-map db.schedules (λ r u. (u, u.fits)) k.refit)
        h.apart);
  ordered = rw k.resized (
      map-All (λ r. r.start ≤ r.end) k.resize db.schedules
        (All-map db.schedules (λ r u. ground (arith, u.ordered)) k.refit));
  names = rw k.same h.names;
}

-- A row that a key finds is found by it after the change of ends.
first-map :
    (f : Schedule → Schedule) (id : ℕ) (rows : List Schedule) (r : Schedule)
    → All (λ x. (f x).id ≡ x.id) rows
    → first (λ x. x.id == id) rows ≡ some r
    → first (λ x. x.id == id) (map f rows) ≡ some (f r)
first-map f id [] r h e = cc
first-map f id (x ∷ rows) r h e =
    let kept : ((f x).id == id) ≡ (x.id == id) = ap (λ k. k == id) h.0 in
    elim (Bool-cases (x.id == id)) [
      | inl t ↦ let same : x ≡ r = ground arith in rw (kept, t) (ap (λ y. some (f y)) same)
      | inr other ↦ rw (kept, other) (first-map f id rows r h.1 (ground arith))
    ]

pub HasResized-AreProper :
    (P : Schedule → ℕ → Type 0) (db d : Db)
    → AreProper db
    → HasResized P db d.schedules d.hosts
    → AreProper d
unfolding get_schedule
HasResized-AreProper P db d proper k =
    let keys : All (λ x. (k.resize x).id ≡ x.id) db.schedules =
      All-map db.schedules (λ x u. u.key) k.refit in
    rw k.resized (
      map-All
        (λ r. (first (λ x. x.id == r.id) (map k.resize db.schedules) ≡ some r) × (r.start < r.end))
        k.resize db.schedules
        (All-map db.schedules
          (λ r u. (
            ap (λ j. first (λ x. x.id == j) (map k.resize db.schedules)) u.0.key
                ∙ first-map k.resize r.id db.schedules r keys u.1.0,
            u.0.ordered,
          ))
          (All-both _ _ db.schedules k.refit proper)))
