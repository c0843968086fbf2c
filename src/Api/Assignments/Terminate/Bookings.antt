-- ===== src/Api/Assignments/Terminate/Bookings.antt =====
-- What a termination (src/quads/server/blueprints/assignments.py) does to the bookings.
use quads.Base.{
  ℕ, suc, ◌≤◌, ◌<◌, ◌≡◌, refl, inl, inr, Bool, true, List, [], ◌∷◌, arith, All, Bool-cases,
  continue_inv,
}
use quads.Models.{Schedule, Db}
use quads.Session.{Env}
use quads.Dao.Schedule.{CurrentQuery, is_current}
use quads.Dao.Schedule.Bookings.{Apart, AllApart, IsBooked}
use quads.Api.Schedules.Create.{User}
use quads.Api.Assignments.Terminate.{
  terminate_checks, end_current, of_assignment, terminated, terminate_assignment,
}

is_current-covers :
    (db : Db) (q : CurrentQuery) (date : ℕ) (r : Schedule)
    → is_current db q date r ≡ true
    → (r.start ≤ date) × (date < r.end)
unfolding is_current
is_current-covers db q date r h = ground arith

-- A row that ends no later than it did, and no earlier than it starts.
abbrev Shorter : Schedule → Schedule → Type 0
Shorter s r = (s.host_id ≡ r.host_id) × (s.start ≡ r.start) × (s.end ≤ r.end) × (s.start ≤ s.end)

abbrev AllShorter : List Schedule → List Schedule → Type 0
AllShorter [] [] = Unit
AllShorter (s ∷ new) (r ∷ old) = Shorter s r × AllShorter new old
AllShorter [] (r ∷ old) = ⊥
AllShorter (s ∷ new) [] = ⊥

-- The dates that the loop writes lie in the rows that it writes to.
unfoldable pub Within : Env → (Schedule → Bool) → Schedule → Type 0
Within env current r = current r ≡ true → (i : ℕ) → (r.start ≤ env.clock i) × (env.clock i ≤ r.end)

end_current-AllShorter :
    (env : Env) (current : Schedule → Bool) (i : ℕ) (rows : List Schedule)
    → All (Within env current) rows
    → All (λ r. r.start ≤ r.end) rows
    → AllShorter (end_current env current i rows) rows
unfolding end_current Within
end_current-AllShorter env current i [] w o = tt
end_current-AllShorter env current i (r ∷ rows) w o = elim (Bool-cases (current r)) [
  | inl e ↦ rw e (
    (refl, refl, (w.0 e i).1, (w.0 e i).0),
    end_current-AllShorter env current (suc i) rows w.1 o.1,
  )
  | inr e ↦ rw e ((refl, refl, omega arith, o.0), end_current-AllShorter env current i rows w.1 o.1)
]

All-Shorter-Apart :
    (s r : Schedule) (new old : List Schedule)
    → Shorter s r
    → AllShorter new old
    → All (Apart r) old
    → All (Apart s) new
All-Shorter-Apart s r [] [] k h a = tt
All-Shorter-Apart s r (x ∷ new) (y ∷ old) k h a =
    (λ e. ground (arith, a.0), All-Shorter-Apart s r new old k h.1 a.1)
All-Shorter-Apart s r [] (y ∷ old) k h a = absurd h
All-Shorter-Apart s r (x ∷ new) [] k h a = absurd h

AllShorter-AllApart : (new old : List Schedule) → AllShorter new old → AllApart old → AllApart new
AllShorter-AllApart [] [] h a = tt
AllShorter-AllApart (s ∷ new) (r ∷ old) h a =
    (All-Shorter-Apart s r new old h.0 h.1 a.0, AllShorter-AllApart new old h.1 a.1)
AllShorter-AllApart [] (r ∷ old) h a = absurd h
AllShorter-AllApart (s ∷ new) [] h a = absurd h

AllShorter-ordered : (new old : List Schedule) → AllShorter new old → All (λ r. r.start ≤ r.end) new
AllShorter-ordered [] [] h = tt
AllShorter-ordered (s ∷ new) (r ∷ old) h = (h.0.3, AllShorter-ordered new old h.1)
AllShorter-ordered [] (r ∷ old) h = absurd h
AllShorter-ordered (s ∷ new) [] h = absurd h

-- Each date that the request reads after its query lies in every schedule that the query found: none
-- of them runs out while the request runs.
unfoldable pub NoneRunsOut : Env → ℕ → Db → Type 0
NoneRunsOut env id db =
    All (Within env (is_current db (of_assignment id) (env.clock 0))) db.schedules

terminated-IsBooked :
    (env : Env) (id : ℕ) (db : Db)
    → NoneRunsOut env id db
    → IsBooked db
    → IsBooked (terminated env id db)
unfolding terminated NoneRunsOut
terminated-IsBooked env id db within h =
    let current = is_current db (of_assignment id) (env.clock 0) in
    let shorter = end_current-AllShorter env current 1 db.schedules within h.ordered in
    record {
      apart = AllShorter-AllApart _ db.schedules shorter h.apart;
      ordered = AllShorter-ordered _ db.schedules shorter;
      names = h.names;
    }

-- A termination, however it ends, keeps the bookings sound, if no schedule that it ends runs out
-- while the request runs.
pub terminate_assignment-IsBooked :
    (env : Env) (user : User) (id : ℕ) (db : Db)
    → NoneRunsOut env id db
    → IsBooked db
    → IsBooked (terminate_assignment env user id db).1
unfolding terminate_assignment
terminate_assignment-IsBooked env user id db within h =
    continue_inv IsBooked (terminate_checks user id db) db _ h λ a _.
      elim (Bool-cases (env.commits 0)) [
        | inl e ↦ rw e (terminated-IsBooked env id db within h)
        | inr e ↦ rw e h
      ]
