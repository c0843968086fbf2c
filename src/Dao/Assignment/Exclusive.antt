-- ===== src/Dao/Assignment/Exclusive.antt =====
-- At most one active assignment for each cloud (src/quads/server/dao/assignment.py).
use quads.Base.{
  ℕ, ◌≡◌, Bool, true, false, some, List, [], ◌∷◌, ◌++◌, arith, All, All-append, All-map, first,
  is_some, Bool-cases, inl, inr,
}
use quads.Models.{Cloud, Assignment, Db}
use quads.Session.{Config}
use quads.Dao.Cloud.{get_cloud}
use quads.Dao.Assignment.{
  NewAssignment, is_active_on, get_active_cloud_assignment, new_assignment, create_assignment,
}

-- The two are not both active on one cloud.
abbrev pub Excludes : Assignment → Assignment → Type 0
Excludes a b = (cloud_id : ℕ) → is_active_on cloud_id a ≡ true → is_active_on cloud_id b ≡ false

-- No cloud has two active assignments.
abbrev pub AllExclusive : List Assignment → Type 0
AllExclusive [] = Unit
AllExclusive (a ∷ rows) = All (Excludes a) rows × AllExclusive rows

AllExclusive-append_one :
    (rows : List Assignment) (b : Assignment)
    → AllExclusive rows
    → All (λ a. Excludes a b) rows
    → AllExclusive (rows ++ b ∷ [])
AllExclusive-append_one [] b h k = (tt, tt)
AllExclusive-append_one (a ∷ rows) b h k =
    (All-append (Excludes a) rows (b ∷ []) h.0 (k.0, tt), AllExclusive-append_one rows b h.1 k.1)

first-none {ℓ} :
    {A : Type ℓ} (p : A → Bool) (rows : List A)
    → is_some (first p rows) ≡ false
    → All (λ a. p a ≡ false) rows
first-none p [] h = tt
first-none p (a ∷ rows) h = elim (Bool-cases (p a)) [
  | inl e ↦ ground arith
  | inr e ↦ (e, first-none p rows (ground arith))
]

new_assignment-cloud :
    (config : Config) (db : Db) (a : NewAssignment) (cloud : Cloud) (id : ℕ)
    → get_cloud db a.cloud ≡ some cloud
    → is_active_on id (new_assignment config db a) ≡ true
    → id ≡ cloud.id
unfolding new_assignment
new_assignment-cloud config db a cloud id found h = ground arith

other_cloud :
    (config : Config) (db : Db) (a : NewAssignment) (cloud : Cloud) (b : Assignment) (id : ℕ)
    → get_cloud db a.cloud ≡ some cloud
    → is_active_on cloud.id b ≡ false
    → is_active_on id b ≡ true
    → is_active_on id (new_assignment config db a) ≡ false
other_cloud config db a cloud b id found off on =
    elim (Bool-cases (is_active_on id (new_assignment config db a))) [
      | inl e ↦ let same = new_assignment-cloud config db a cloud id found e in cc (off, on, same)
      | inr e ↦ e
    ]

-- A new assignment on a cloud without an active one.
pub create_assignment-AllExclusive :
    (config : Config) (db : Db) (a : NewAssignment) (cloud : Cloud)
    → get_cloud db a.cloud ≡ some cloud
    → is_some (get_active_cloud_assignment db cloud) ≡ false
    → AllExclusive db.assignments
    → AllExclusive (create_assignment config db a).1.assignments
unfolding create_assignment get_active_cloud_assignment
create_assignment-AllExclusive config db a cloud found idle h =
    let row = new_assignment config db a in
    AllExclusive-append_one db.assignments row h (
      All-map db.assignments (λ b off id on. other_cloud config db a cloud b id found off on)
        (first-none (is_active_on cloud.id) db.assignments idle))
