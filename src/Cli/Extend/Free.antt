-- ===== src/Cli/Extend/Free.antt =====
-- What `action_extend` of src/quads/cli/cli.py learns from GET /available: room for a schedule's new end.
use quads.Base.{
  ℕ, ◌≤◌, ◌<◌, ◌≡◌, ◌≢◌, refl, sym, ap, ◌∙◌, ◌⊎◌, inl, inr, String, Bool, true, false, none, some,
  List, [], ◌∷◌, arith, All-map, All-both, All-first, first, first_sound, ==_iff, ltb, present,
  str_eq, eq_iff, Bool-cases, pass,
}
use quads.Models.{Host, Schedule, Db}
use quads.Session.{Env}
use quads.Dao.Host.{get_host}
use quads.Dao.Host.Names.{HaveNames}
use quads.Dao.Schedule.{is_host_available}
use quads.Dao.Schedule.Availability.{Misses, is_host_available_iff}
use quads.Dao.Schedule.Bookings.{IsBooked}
use quads.Api.Available.{asked_interval, is_available}
use quads.Cli.{Client, floor_minute, floor_minute_le}
use quads.Cli.Chosen.{ScheduleView}
use quads.Cli.Chosen.Rows.{Comes}
use quads.Cli.Resized.{AreProper, Fits}
use quads.Cli.Resized.Writes.{AreRead}

-- A host that some test finds is the one that its name finds.
named_host :
    (p : Host → Bool) (hosts : List Host) (h : Host)
    → HaveNames hosts
    → first p hosts ≡ some h
    → first (λ k. str_eq k.name h.name) hosts ≡ some h
named_host p [] h u e = cc
named_host p (k ∷ hosts) h u e = elim (Bool-cases (p k)) [
  | inl t ↦
      let same : k ≡ h = ground arith in
      let named : str_eq k.name h.name ≡ true = (eq_iff k.name h.name).1 (ap (λ x. x.name) same) in
      rw named (ap some same)
  | inr f ↦
      let later : first p hosts ≡ some h = ground arith in
      let other : h.name ≢ k.name =
        (All-first (λ x. (x.name ≢ k.name) × (x.id ≢ k.id)) p hosts h u.0 later).0 in
      let rest = named_host p hosts h u.1 later in ground (arith, eq_iff k.name h.name)
]

not_empty : (t : String) → present (some t) ≡ true → str_eq t "" ≡ false
not_empty t p = elim (Bool-cases (str_eq t "")) [
  | inl e ↦ let q : present (some "") ≡ true = rw ((eq_iff t "").0 e) at p in cc
  | inr e ↦ e
]

-- GET /available/<hostname> with two dates that are in order.
is_available-reads :
    (env : Env) (n : String) (from to : String) (a b : ℕ) (db : Db)
    → present (some from) ≡ true
    → present (some to) ≡ true
    → env.strptime "%Y-%m-%dT%H:%M" from ≡ some a
    → env.strptime "%Y-%m-%dT%H:%M" to ≡ some b
    → a ≤ b
    → is_available env n (some from) (some to) db ≡ pass (is_host_available db n a b none)
unfolding is_available asked_interval
is_available-reads env n from to a b db p q e f h =
    let in_order : ltb b a ≡ false = ground arith in
    rw (not_empty from p, not_empty to q, e, f, in_order) refl

floor_le : (a b : ℕ) → a ≤ b → floor_minute a ≤ floor_minute b
floor_le a b h = omega arith

order : (a b : ℕ) → a ≤ b → (a ≡ b) ⊎ (a < b)
order a b h = ground arith

clear :
    (a b : ℕ) (o t : Schedule) {end : ℕ}
    → a ≤ end
    → end ≤ o.end
    → t.start < t.end
    → o.end ≤ t.start
    → Misses a b t
    → b ≤ t.start
clear a b o t below ends_at proper le (inl m) = m
clear a b o t below ends_at proper le (inr m) = absurd (omega arith)

-- A schedule that can be extended has room for its new end.
module _ (c : Client) (db : Db) (texts : AreRead c) (h : IsBooked db) (proper : AreProper db) where
  pub free-Fits :
      (i : ℕ) (x : ScheduleView) (from : Comes db x) (end : ℕ)
      → x.row.end ≤ end
      → is_available (c.env i) x.host.name (some (c.iso x.row.end)) (some (c.iso end)) db
        ≡ pass true
      → Fits db from.origin (floor_minute end)
  unfolding get_host
  free-Fits i x from end le free =
      let o = from.origin in
      let a = floor_minute x.row.end in
      let b = floor_minute end in
      let below : a ≤ x.row.end = floor_minute_le x.row.end x.row.end (omega arith) in
      let ends_at : x.row.end ≤ o.end = omega (arith, ap (λ r. r.end) from.seen) in
      let available : is_host_available db x.host.name a b none ≡ true =
        let reads =
          is_available-reads (c.env i) x.host.name (c.iso x.row.end) (c.iso end) a b db
            (texts.given x.row.end) (texts.given end) (texts.read i x.row.end) (texts.read i end)
            (floor_le x.row.end end le) in
        cc in
      let known = named_host _ db.hosts x.host h.names from.host in
      let at_host : x.host.id ≡ o.host_id =
        (==_iff x.host.id o.host_id).0 (first_sound _ db.hosts x.host from.host) in
      elim (order a b (floor_le x.row.end end le)) [
        | inl e ↦ All-map db.schedules (λ t _ _ le. omega (arith, e, below, ends_at, le)) h.ordered
        | inr lt ↦
            let f = (is_host_available_iff db x.host.name a b none lt h.ordered).0 available in
            let host_same : some x.host ≡ some f.host = sym known ∙ f.found in
            let id_same : f.host.id ≡ o.host_id = cc in
            All-map db.schedules
              (λ t k same le. clear a b o t below ends_at k.1.1 le (k.0 (same ∙ sym id_same) refl))
              (All-both _ _ db.schedules f.misses proper)
      ]
