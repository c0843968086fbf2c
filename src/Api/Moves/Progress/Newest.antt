-- ===== src/Api/Moves/Progress/Newest.antt =====
-- Which move `get_active_move_by_hostname` (src/quads/server/dao/schedule.py) gives.
use mathlib.Core.Path.{subst}
use mathlib.Core.List.Memᴰ.{head, tail, cases_cons}
use quads.Base.{
  ℕ, ◌≤◌, String, ◌≡◌, ◌≢◌, ◌↔◌, refl, ap, sym, ◌∙◌, Bool, true, false, ◌&&◌, Option, none, some,
  List, [], ◌∷◌, arith, All, select, Bool-cases, Option-cases, inl, inr, All-of_select,
  All-select_of, All-map, Memᴰ, All-Memᴰ, any, ltb, ◌==◌, ==_iff, str_eq, eq_iff, some_same,
}
use quads.Models.{MoveStatus, completed, Host, Schedule, Db}
use quads.Models.Stages.{value, of_value}
use quads.Models.Stages.Order.{of_value-value}
use quads.Api.Moves.Progress.{newest, is_active_move, of_host_named, get_active_move_by_hostname}

newest-none : (rows : List Schedule) → newest rows ≡ none → rows ≡ []
unfolding newest
newest-none [] h = refl
newest-none (r ∷ rows) h = ground arith

newest-le :
    (rows : List Schedule) (r : Schedule) → newest rows ≡ some r → All (λ s. s.id ≤ r.id) rows
unfolding newest
newest-le [] r h = tt
newest-le (x ∷ rows) r h = elim (Option-cases (newest rows)) [
  | inl last ↦ rw (newest-none rows last) (ground arith)
  | inr (s, found) ↦
      let bound : s.id ≤ r.id = ground arith in
      (ground arith, All-map rows (λ t le. omega arith) (newest-le rows s found))
]

newest-All :
    (P : Schedule → Type 0) (rows : List Schedule) (r : Schedule)
    → All P rows
    → newest rows ≡ some r
    → P r
unfolding newest
newest-All P [] r all h = cc
newest-All P (x ∷ rows) r all h = elim (Option-cases (newest rows)) [
  | inl last ↦ let same : x ≡ r = ground arith in subst P same all.0
  | inr (s, found) ↦ elim (Bool-cases (ltb s.id x.id)) [
    | inl e ↦ let same : x ≡ r = ground arith in subst P same all.0
    | inr e ↦ let same : s ≡ r = ground arith in newest-All P rows r all.1 (found ∙ ap some same)
  ]
]

-- A move is in flight: it has begun, is not completed, and its schedule does not end before now.
pub record IsInFlight (now : ℕ) (r : Schedule) : Type 0 where
  pub status : MoveStatus
  pub begun : r.move_status ≡ some status
  pub unfinished : status ≢ completed
  pub lasting : now ≤ r.end

-- The schedule is of a host of that name.
pub record IsOfHost (db : Db) (hostname : String) (r : Schedule) : Type 0 where
  pub host : Host
  pub there : Memᴰ host db.hosts
  pub key : host.id ≡ r.host_id
  pub name : host.name ≡ hostname

value_same :
    (status : MoveStatus) → str_eq (value status) (value completed) ≡ true → status ≡ completed
value_same status h = some_same (
    sym (of_value-value status)
    ∙ ap of_value ((eq_iff (value status) (value completed)).0 h)
    ∙ of_value-value completed)

is_active_move_iff : (now : ℕ) (r : Schedule) → (is_active_move now r ≡ true) ↔ IsInFlight now r
unfolding is_active_move
is_active_move_iff now r = elim (Option-cases r.move_status) [
  | inl e ↦ (λ h. ground arith, λ h. let began = h.begun in cc)
  | inr (status, e) ↦ (
    λ h. record {
      status = status;
      begun = e;
      unfinished =
          λ same. ground (arith, (eq_iff (value status) (value completed)).1 (ap value same));
      lasting = ground arith;
    },
    λ h.
        let began = h.begun in
        let same : status ≡ h.status = ground arith in
        let going : str_eq (value status) (value completed) ≡ false =
          elim (Bool-cases (str_eq (value status) (value completed))) [
            | inl t ↦ absurd (h.unfinished (sym same ∙ value_same status t))
            | inr f ↦ f
          ] in
        let in_time = h.lasting in ground arith,
  )
]

any_host_iff :
    (hosts : List Host) (hostname : String) (id : ℕ)
    → (any (λ h. h.id == id && str_eq h.name hostname) hosts ≡ true)
      ↔ ((h : Host) × Memᴰ h hosts × (h.id ≡ id) × (h.name ≡ hostname))
any_host_iff [] hostname id = (λ e. cc, λ k. elim k.1 [ ])
any_host_iff (x ∷ hosts) hostname id = (
  λ e. elim (Bool-cases (x.id == id && str_eq x.name hostname)) [
    | inl own ↦
        (x, head refl, (==_iff x.id id).0 (ground arith), (eq_iff x.name hostname).0 (ground arith))
    | inr f ↦
        let more : any (λ h. h.id == id && str_eq h.name hostname) hosts ≡ true = rw f at e in
        let (h, m, key, name) = (any_host_iff hosts hostname id).0 more in (h, tail m, key, name)
  ],
  λ (h, m, key, name). elim (cases_cons m) [
    | inl same ↦
        let a : x.id ≡ id = ap (λ y. y.id) (sym same) ∙ key in
        let b : x.name ≡ hostname = ap (λ y. y.name) (sym same) ∙ name in
        rw ((==_iff x.id id).1 a, (eq_iff x.name hostname).1 b) refl
    | inr rest ↦ let more = (any_host_iff hosts hostname id).1 (h, rest, key, name) in ground arith
  ],
)

of_host_named_iff :
    (db : Db) (hostname : String) (r : Schedule)
    → (of_host_named db hostname r ≡ true) ↔ IsOfHost db hostname r
of_host_named_iff db hostname r = (
  λ e.
      let (h, m, key, name) = (any_host_iff db.hosts hostname r.host_id).0 e in
      record { host = h; there = m; key = key; name = name },
  λ h. (any_host_iff db.hosts hostname r.host_id).1 (h.host, h.there, h.key, h.name),
)

-- The schedule is the move of a host that is in flight, and none of that host's in flight has a greater key.
pub record IsMove (db : Db) (hostname : String) (now : ℕ) (r : Schedule) : Type 0 where
  pub there : Memᴰ r db.schedules
  pub of_host : IsOfHost db hostname r
  pub active : IsInFlight now r
  pub greatest : All (λ s. IsOfHost db hostname s → IsInFlight now s → s.id ≤ r.id) db.schedules

-- The newest move of a host that is in flight, or that there is none.
abbrev pub IsNewest : Db → String → ℕ → Option Schedule → Type 0
IsNewest db hostname now (some r) = IsMove db hostname now r
IsNewest db hostname now none = All (λ s. IsOfHost db hostname s → ¬ IsInFlight now s) db.schedules

module _ (db : Db) (hostname : String) (now : ℕ) where
  abbrev asked : Schedule → Bool
  asked s = of_host_named db hostname s && is_active_move now s

  asked_iff : (s : Schedule) → (asked s ≡ true) ↔ (IsOfHost db hostname s × IsInFlight now s)
  asked_iff s = (
    λ e. (
      (of_host_named_iff db hostname s).0 (ground arith),
      (is_active_move_iff now s).0 (ground arith),
    ),
    λ h. rw ((of_host_named_iff db hostname s).1 h.0, (is_active_move_iff now s).1 h.1) refl,
  )

  found-IsMove :
      (r : Schedule) → newest (select asked db.schedules) ≡ some r → IsMove db hostname now r
  found-IsMove r h =
      let of_row =
        newest-All (λ s. Memᴰ s db.schedules × (asked s ≡ true)) (select asked db.schedules) r
          (All-select_of _ asked db.schedules
            (All-map db.schedules (λ s m e. (m, e)) (All-Memᴰ db.schedules)))
          h in
      let both = (asked_iff r).0 of_row.1 in
      record {
        there = of_row.0;
        of_host = both.0;
        active = both.1;
        greatest =
            All-map db.schedules (λ s le of_host active. le ((asked_iff s).1 (of_host, active)))
              (All-of_select (λ s. s.id ≤ r.id) asked db.schedules
                (newest-le (select asked db.schedules) r h));
      }

  nothing_found :
      newest (select asked db.schedules) ≡ none
      → All (λ s. IsOfHost db hostname s → ¬ IsInFlight now s) db.schedules
  nothing_found h =
      let empty : All (λ _. ⊥) (select asked db.schedules) =
        subst (λ rows. All (λ _. ⊥) rows) (sym (newest-none (select asked db.schedules) h)) tt in
      All-map db.schedules (λ s never of_host active. never ((asked_iff s).1 (of_host, active)))
        (All-of_select (λ _. ⊥) asked db.schedules empty)

-- The move that is found for a host has begun, is not completed and does not end before now, belongs to a
-- host of that name, and has the greatest key of those; none is found exactly where there is no such move.
pub get_active_move_by_hostname-IsNewest :
    (db : Db) (hostname : String) (now : ℕ)
    → IsNewest db hostname now (get_active_move_by_hostname db hostname now)
unfolding get_active_move_by_hostname
get_active_move_by_hostname-IsNewest db hostname now =
    elim (Option-cases (newest (select (asked db hostname now) db.schedules))) [
      | inl h ↦ rw h (nothing_found db hostname now h)
      | inr (r, h) ↦ rw h (found-IsMove db hostname now r h)
    ]
