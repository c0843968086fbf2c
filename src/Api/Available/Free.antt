-- ===== src/Api/Available/Free.antt =====
-- GET /available (src/quads/server/blueprints/available.py) against the overlap of intervals.
use mathlib.Core.Path.{subst}
use quads.Base.{
  ◌||◌, ℕ, suc, ◌≤◌, ◌<◌, String, ◌≡◌, ◌↔◌, refl, sym, ap, ◌∙◌, Bool, true, false, none, some, List,
  [], ◌∷◌, arith, All, any, first, str_eq, eq_iff, pass, >>=-eq-pass, Bool-cases, inl, inr,
}
use quads.Models.{Host, Db}
use quads.Session.{Env}
use quads.Dao.Host.{get_host}
use quads.Dao.Schedule.{is_host_available}
use quads.Dao.Schedule.Availability.{Misses, IsFree, is_host_available_iff}
use quads.Api.Available.{AvailableRequest, asked_interval, available_names, get_available}

-- The text is in the list.
abbrev pub is_listed : String → List String → Bool
is_listed n names = any (λ m. str_eq m n) names

abbrev named : String → List Host → Bool
named n hosts = any (λ h. str_eq h.name n) hosts

first-any :
    (n : String) (hosts : List Host) (h : Host)
    → first (λ x. str_eq x.name n) hosts ≡ some h
    → named n hosts ≡ true
first-any n [] h e = cc
first-any n (x ∷ hosts) h e = ground (arith, first-any n hosts h)

-- One more host, which is listed if it is available.
listed_step :
    (same on available listed : Bool)
    → (same ≡ true → available ≡ true)
    → (listed ≡ true) ↔ ((on ≡ true) × (available ≡ true))
    → ((same || listed) ≡ true) ↔ (((same || on) ≡ true) × (available ≡ true))
listed_step true on available listed h k = (λ e. (refl, h refl), λ e. refl)
listed_step false on available listed h k = k

-- One more host that is not available.
passed_step :
    (same on available listed : Bool)
    → (same ≡ true → available ≡ false)
    → (listed ≡ true) ↔ ((on ≡ true) × (available ≡ true))
    → (listed ≡ true) ↔ (((same || on) ≡ true) × (available ≡ true))
passed_step true on available listed h k =
    (λ e. (refl, (k.0 e).1), λ e. let unavailable = h refl in cc)
passed_step false on available listed h k = k

passed_same : {a b : List String} → pass a ≡ pass b → a ≡ b
passed_same h = cc

none_listed :
    (names : List String) (n : String) {available : Type 0}
    → pass [] ≡ pass names
    → (is_listed n names ≡ true) ↔ ((false ≡ true) × available)
none_listed [] n h = (λ e. cc, λ e. let x = e.0 in cc)
none_listed (m ∷ names) n h = cc

found_host :
    (n : String) (db : Db) (h : Host)
    → get_host db n ≡ some h
    → first (λ x. str_eq x.name n) db.hosts ≡ some h
unfolding get_host
found_host n db h e = e

-- Without a cloud the loop lists the names of the hosts that are available.
available_names_iff :
    (env : Env) (i : ℕ) (db : Db) (start end : ℕ) (hosts : List Host) (names : List String)
    (n : String)
    → available_names env i db none start end hosts ≡ pass names
    → (is_listed n names ≡ true)
      ↔ ((named n hosts ≡ true) × (is_host_available db n start end none ≡ true))
unfolding available_names
available_names_iff env i db start end [] names n h = none_listed names n h
available_names_iff env i db start end (x ∷ hosts) names n h =
    let at_name : str_eq x.name n ≡ true
        → is_host_available db x.name start end none ≡ is_host_available db n start end none =
      λ e. ap (λ t. is_host_available db t start end none) ((eq_iff x.name n).0 e) in
    elim (Bool-cases (is_host_available db x.name start end none)) [
      | inl free ↦
          let (others, found, joined) =
            >>=-eq-pass (available_names env (suc i) db none start end hosts) _ (rw free at h) in
          let same : x.name ∷ others ≡ names = passed_same joined in
          subst
            (λ l.
              (is_listed n l ≡ true)
              ↔ ((named n (x ∷ hosts) ≡ true) × (is_host_available db n start end none ≡ true)))
            same
            (listed_step (str_eq x.name n) (named n hosts) (is_host_available db n start end none)
              (is_listed n others) (λ e. sym (at_name e) ∙ free)
              (available_names_iff env (suc i) db start end hosts others n found))
      | inr booked ↦
          passed_step (str_eq x.name n) (named n hosts) (is_host_available db n start end none)
            (is_listed n names) (λ e. sym (at_name e) ∙ booked)
            (available_names_iff env (suc i) db start end hosts names n (rw booked at h))
    ]

-- For a proper interval, and where no row ends before it starts, GET /available without a cloud lists
-- exactly the names of the hosts that are there, neither broken nor retired, and have no schedule that
-- meets the interval.
pub get_available_iff :
    (env : Env) (req : AvailableRequest) (db : Db) (names : List String) (start end : ℕ)
    (n : String)
    → req.cloud ≡ none
    → asked_interval env req.start req.end ≡ pass (start, end)
    → start < end
    → All (λ r. r.start ≤ r.end) db.schedules
    → get_available env req db ≡ pass names
    → (is_listed n names ≡ true) ↔ IsFree (Misses start end) db n none
unfolding get_available
get_available_iff env req db names start end n any_cloud asked proper ordered h =
    let answered : available_names env 1 db none start end db.hosts ≡ pass names =
      rw (asked, any_cloud) at h in
    let free = is_host_available_iff db n start end none proper ordered in
    let listed = available_names_iff env 1 db start end db.hosts names n answered in
    (
      λ e. free.0 (listed.0 e).1,
      λ f. listed.1 (first-any n db.hosts f.host (found_host n db f.host f.found), free.1 f),
    )
