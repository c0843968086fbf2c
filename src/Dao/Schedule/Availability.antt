-- ===== src/Dao/Schedule/Availability.antt =====
-- What `is_host_available` of src/quads/server/dao/schedule.py answers, against the overlap of intervals.
use quads.Base.{
  refl, ℕ, ◌≤◌, ◌<◌, String, ◌≡◌, ◌↔◌, ◌⊎◌, Bool, true, false, ◌&&◌, Option, none, some, arith,
  ◌==◌, ==_iff, All, All-map, All-both, All-of_select, All-select_of, All-always, any-false-All,
  All-any-false, any,
}
use quads.Models.{Host, Schedule, Db}
use quads.Dao.Host.{get_host}
use quads.Dao.Schedule.{blocks, covers, kept, bookings, free_host?, is_host_available}

-- The half-open interval of the row does not meet start..end.
abbrev pub Misses : ℕ → ℕ → Schedule → Type 0
Misses start end r = (end ≤ r.start) ⊎ (r.end ≤ start)

-- The row does not hold the instant.
abbrev pub IsOff : ℕ → Schedule → Type 0
IsOff t r = (t < r.start) ⊎ (r.end ≤ t)

-- The host that is named is there, in use, and all of its schedules but the excluded one satisfy `P`.
pub record IsFree (P : Schedule → Type 0) (db : Db) (hostname : String) (exclude : Option ℕ)
    : Type 0 where
  pub host : Host
  pub found : get_host db hostname ≡ some host
  pub works : host.broken ≡ false
  pub in_use : host.retired ≡ false
  pub misses : All (λ r. r.host_id ≡ host.id → kept exclude r ≡ true → P r) db.schedules

covers-IsOff : (t : ℕ) (r : Schedule) → (covers t r ≡ false) ↔ IsOff t r
covers-IsOff t r = (λ h. ground arith, λ h. ground arith)

blocks-Misses :
    (start end : ℕ) (r : Schedule) → start < end → blocks start end r ≡ false → Misses start end r
blocks-Misses start end r lt h = ground arith

Misses-blocks :
    (start end : ℕ) (r : Schedule)
    → start < end
    → r.start ≤ r.end
    → Misses start end r
    → blocks start end r ≡ false
Misses-blocks start end r lt ordered m = ground arith

-- The loop over the bookings of a host finds nothing exactly when all of them satisfy `P`.
module _ (test : Schedule → Bool) (P : Schedule → Type 0) (db : Db) (exclude : Option ℕ)
    (host : Host) where
  All-of_none :
      ((r : Schedule) → test r ≡ false → P r)
      → any test (bookings db host exclude) ≡ false
      → All (λ r. r.host_id ≡ host.id → kept exclude r ≡ true → P r) db.schedules
  All-of_none sound h =
      All-map db.schedules (λ r f e k. f (rw (k, (==_iff r.host_id host.id).1 e)))
        (All-of_select P _ db.schedules (
          All-map (bookings db host exclude) sound
            (any-false-All test (bookings db host exclude) h)))

  none-of_All :
      {R : Schedule → Type 0}
      → ((r : Schedule) → R r → P r → test r ≡ false)
      → All R db.schedules
      → All (λ r. r.host_id ≡ host.id → kept exclude r ≡ true → P r) db.schedules
      → any test (bookings db host exclude) ≡ false
  none-of_All {R} complete ordered h = All-any-false test (bookings db host exclude) (
      All-select_of (λ r. test r ≡ false) _ db.schedules
        (All-map db.schedules (λ r k e. complete r k.0 (k.1 (on_host_of r e) (kept_of r e)))
          (All-both R _ db.schedules ordered h)))
    where
      on_host_of :
          (r : Schedule) → (r.host_id == host.id && kept exclude r) ≡ true → r.host_id ≡ host.id
      on_host_of r e = ground arith

      kept_of :
          (r : Schedule) → (r.host_id == host.id && kept exclude r) ≡ true → kept exclude r ≡ true
      kept_of r e = ground arith

module _ (db : Db) (hostname : String) (start end : ℕ) (exclude : Option ℕ)
    (proper : start < end) where
  unbooked-IsFree :
      (o : Option Host)
      → get_host db hostname ≡ o
      → free_host? db o start end exclude ≡ true
      → IsFree (Misses start end) db hostname exclude
  unbooked-IsFree none found h = cc
  unbooked-IsFree (some host) found h = record {
    host = host;
    found = found;
    works = ground arith;
    in_use = ground arith;
    misses =
        All-of_none (blocks start end) (Misses start end) db exclude host
          (λ r. blocks-Misses start end r proper) (ground arith);
  }

  -- A host that is reported available for a proper interval is there, neither broken nor retired,
  -- and no schedule of it, but the excluded one, meets start..end.
  pub is_host_available-IsFree :
      is_host_available db hostname start end exclude ≡ true
      → IsFree (Misses start end) db hostname exclude
  unfolding is_host_available
  is_host_available-IsFree h = unbooked-IsFree (get_host db hostname) refl h

  IsFree-is_host_available :
      All (λ r. r.start ≤ r.end) db.schedules
      → IsFree (Misses start end) db hostname exclude
      → is_host_available db hostname start end exclude ≡ true
  unfolding is_host_available
  IsFree-is_host_available ordered f =
      let none_blocks =
        none-of_All (blocks start end) (Misses start end) db exclude f.host
          (λ r. Misses-blocks start end r proper) ordered f.misses in
      rw f.found (ground (arith, none_blocks, f.works, f.in_use))

-- For a proper interval, and where no row ends before it starts, a host is reported available exactly
-- when it is there, neither broken nor retired, and no schedule of it, but the excluded one, meets
-- start..end.
pub is_host_available_iff :
    (db : Db) (hostname : String) (start end : ℕ) (exclude : Option ℕ)
    → start < end
    → All (λ r. r.start ≤ r.end) db.schedules
    → (is_host_available db hostname start end exclude ≡ true)
      ↔ IsFree (Misses start end) db hostname exclude
is_host_available_iff db hostname start end exclude proper ordered = (
  is_host_available-IsFree db hostname start end exclude proper,
  IsFree-is_host_available db hostname start end exclude proper ordered,
)

module _ (db : Db) (hostname : String) (t : ℕ) (exclude : Option ℕ) where
  unbooked-IsFree_at :
      (o : Option Host)
      → get_host db hostname ≡ o
      → free_host? db o t t exclude ≡ true
      → IsFree (IsOff t) db hostname exclude
  unbooked-IsFree_at none found h = cc
  unbooked-IsFree_at (some host) found h = record {
    host = host;
    found = found;
    works = ground arith;
    in_use = ground arith;
    misses =
        All-of_none (covers t) (IsOff t) db exclude host (λ r. (covers-IsOff t r).0) (ground arith);
  }

  IsFree-free_at :
      (f : IsFree (IsOff t) db hostname exclude) → free_host? db (some f.host) t t exclude ≡ true
  IsFree-free_at f =
      let none_covers =
        none-of_All (covers t) (IsOff t) db exclude f.host {R = λ _. Unit {0}}
          (λ r _. (covers-IsOff t r).1) (All-always db.schedules) f.misses in
      ground (arith, none_covers, f.works, f.in_use)

-- At an instant a host is reported available exactly when it is there, neither broken nor retired,
-- and no schedule of it, but the excluded one, covers the instant: the end of a schedule is free.
pub is_host_available_at_iff :
    (db : Db) (hostname : String) (t : ℕ) (exclude : Option ℕ)
    → (is_host_available db hostname t t exclude ≡ true) ↔ IsFree (IsOff t) db hostname exclude
unfolding is_host_available
is_host_available_at_iff db hostname t exclude = (
  unbooked-IsFree_at db hostname t exclude (get_host db hostname) refl,
  λ f. rw f.found (IsFree-free_at db hostname t exclude f),
)
