-- ===== src/Dao/Schedule/Bookings.antt =====
-- The booking invariant of the table of schedules: no host is promised to two schedules at one time.
use quads.Base.{All-map, ◌≤◌, ◌<◌, ◌≡◌, ◌⊎◌, inl, inr, List, [], ◌∷◌, ◌++◌, arith, All, All-append}
use quads.Dao.Schedule.Availability.{Misses}
use quads.Models.{Schedule, Db}
use quads.Dao.Host.Names.{HaveNames}

-- Two schedules of one host do not meet.
abbrev pub Apart : Schedule → Schedule → Type 0
Apart r s = r.host_id ≡ s.host_id → (r.end ≤ s.start) ⊎ (s.end ≤ r.start)

-- Each row is apart from all later ones.
abbrev pub AllApart : List Schedule → Type 0
AllApart [] = Unit
AllApart (r ∷ rows) = All (Apart r) rows × AllApart rows

-- No double booking, no row that ends before it starts, and no two hosts of one name.
pub record IsBooked (db : Db) : Type 0 where
  pub apart : AllApart db.schedules
  pub ordered : All (λ r. r.start ≤ r.end) db.schedules
  pub names : HaveNames db.hosts

pub AllApart-append_one :
    (rows : List Schedule) (s : Schedule)
    → AllApart rows
    → All (λ r. Apart r s) rows
    → AllApart (rows ++ s ∷ [])
AllApart-append_one [] s h k = (tt, tt)
AllApart-append_one (r ∷ rows) s h k =
    (All-append (Apart r) rows (s ∷ []) h.0 (k.0, tt), AllApart-append_one rows s h.1 k.1)

swap {ℓ} : {A B : Type ℓ} → A ⊎ B → B ⊎ A
swap (inl x) = inr x
swap (inr x) = inl x

-- One more schedule that is proper and misses the others of its host.
pub insert-IsBooked :
    {db : Db} (d : Db) (r : Schedule)
    → IsBooked db
    → r.start < r.end
    → All (λ s. s.host_id ≡ r.host_id → Misses r.start r.end s) db.schedules
    → d.schedules ≡ db.schedules ++ r ∷ []
    → d.hosts ≡ db.hosts
    → IsBooked d
unfolding swap
insert-IsBooked {db} d r h proper free e f = record {
  apart = rw e (
      AllApart-append_one db.schedules r h.apart (All-map db.schedules (λ s m k. swap (m k)) free));
  ordered =
      rw e (All-append (λ r. r.start ≤ r.end) db.schedules (r ∷ []) h.ordered (omega arith, tt));
  names = rw f h.names;
}

-- The same rows and hosts.
pub same-IsBooked :
    {db : Db} (d : Db) → IsBooked db → d.schedules ≡ db.schedules → d.hosts ≡ db.hosts → IsBooked d
same-IsBooked d h e f = record {
  apart = rw e h.apart;
  ordered = rw e h.ordered;
  names = rw f h.names;
}
