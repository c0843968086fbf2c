-- ===== src/Tools/Notify/Expirations.antt =====
-- One assignment in the first part of src/quads/tools/notify.py: no message goes out twice.
use quads.Base.{
  ℕ, suc, String, ◌≡◌, ◌≢◌, refl, ◌∙◌, inl, inr, Bool, true, false, not, ◌&&◌, Option, none, some,
  List, [], ◌∷◌, arith, Bool-cases,
}
use quads.Models.{Notification, Db}
use quads.Dao.Notification.{set_flags, get_notification}
use quads.Tools.Notify.{
  Days, Kind, initial, expires, flag, setting, Sent, Notifier, Ran, proceed, announce, ask_current,
  leaving, expiring, Fetched, all_days,
}
use quads.Tools.Notify.Parts.{
  expiration, expirations, initially, expirations_of, work_on, notify_assignment,
}
use quads.Cli.Chosen.{ScheduleView}
use quads.Tools.Notify.Announced.{
  IsOnce, IsFresh, announce-IsOnce, announce-others, announce-IsFresh,
}

-- Each message went out once, and no other notification has changed.
abbrev pub Leaves : ℕ → Db → Sent → Type 0
Leaves id db s = IsOnce s × ((j : ℕ) → j ≢ id → get_notification s.db j ≡ get_notification db j)

pub proceed_inv :
    (Q : Sent → Type 0) (m : Ran) (k : Sent → Ran) → Q m.1 → Q (k m.1).1 → Q (proceed m k).1
proceed_inv Q (true, s) k here after = after
proceed_inv Q (false, s) k here after = here

pub asked-IsOnce : (s : Sent) (requests : ℕ) → IsOnce s → IsOnce (record s { requests = requests })
asked-IsOnce s requests h = record { keys = h.keys; once = h.once; flagged = h.flagged }

Leaves-trans :
    (id : ℕ) (db : Db) (s s' : Sent) → Leaves id db s → Leaves id s.db s' → Leaves id db s'
Leaves-trans id db s s' h k = (k.0, λ j other. k.1 j other ∙ h.1 j other)

-- The flag of the first message is none of the days'.
initial_keeps :
    (d : Days) (x : Notification)
    → flag (expires d) (set_flags (setting initial) x) ≡ flag (expires d) x
unfolding flag setting set_flags
initial_keeps d x = ground arith

unset : (b f : Bool) → (b && not f) ≡ true → f ≡ false
unset true true h = cc
unset true false h = refl
unset false f h = cc

module _ (c : Notifier) (goes : (i : ℕ) → ((c.env i).commits 0 ≡ true) × (c.posts i ≡ true)) where
  announced :
      (kind : Kind) (n : Notification) (cloud : String) (hosts : List String) (s : Sent)
      → IsFresh s.db n kind
      → flag kind n ≡ false
      → IsOnce s
      → Leaves n.id s.db (announce c kind n cloud hosts s).1
  announced kind n cloud hosts s fresh off h = (
    announce-IsOnce c goes kind n cloud hosts s fresh off h,
    announce-others c goes kind n cloud hosts s fresh,
  )

  expiration-IsOnce :
      (n : Notification) (cloud : String) (d : Days) (future : ℕ) (now : List ScheduleView)
      (answer : Option (List ScheduleView)) (s : Sent) (rest : Ran)
      → IsFresh s.db n (expires d)
      → IsOnce s
      → Leaves n.id s.db rest.1
      → Leaves n.id s.db (expiration c n cloud d future now answer s rest).1
  expiration-IsOnce n cloud d future now none s rest fresh h k = k
  expiration-IsOnce n cloud d future now (some later) s rest fresh h k =
      elim (Bool-cases (expiring (leaving now later) future now && not (flag (expires d) n))) [
        | inr f ↦ rw f k
        | inl t ↦ rw t (
            announced (expires d) n cloud (leaving now later) s fresh
              (unset (expiring (leaving now later) future now) (flag (expires d) n) t) h)
      ]

  expirations-IsOnce :
      (n : Notification) (cloud : String) (now : List ScheduleView) (days : List Days) (s : Sent)
      → ((d : Days) → IsFresh s.db n (expires d))
      → IsOnce s
      → Leaves n.id s.db (expirations c n cloud now days s).1
  unfolding expirations ask_current
  expirations-IsOnce n cloud now [] s fresh h = (h, λ j other. refl)
  expirations-IsOnce n cloud now (d ∷ days) s fresh h =
      let s' = record s { requests = suc s.requests } in
      let h' = asked-IsOnce s (suc s.requests) h in
      expiration-IsOnce n cloud d _ now _ s' _ (fresh d) h'
        (expirations-IsOnce n cloud now days s' fresh h')

  -- The first part keeps no flag but that of the first message from being fresh.
  initially-IsOnce :
      (n : Notification) (cloud : String) (s : Sent)
      → ((k : Kind) → IsFresh s.db n k)
      → IsOnce s
      → (let s' = (initially c n cloud s).1 in
          Leaves n.id s.db s' × ((d : Days) → IsFresh s'.db n (expires d)))
  unfolding initially
  initially-IsOnce n cloud s fresh h = elim (Bool-cases (flag initial n)) [
    | inl t ↦ rw t ((h, λ j other. refl), λ d. fresh (expires d))
    | inr off ↦ rw off (
        let after : (let s' = (announce c initial n cloud [] s).1 in
            Leaves n.id s.db s' × ((d : Days) → IsFresh s'.db n (expires d))) =
          (
            announced initial n cloud [] s (fresh initial) off h,
            λ d.
                announce-IsFresh c goes initial n cloud [] s (fresh initial) (expires d)
                  (initial_keeps d) (fresh (expires d)),
          ) in
        proceed_inv (λ s'. Leaves n.id s.db s' × ((d : Days) → IsFresh s'.db n (expires d)))
          (announce c initial n cloud [] s) _ after after)
  ]

  expirations_of-IsOnce :
      (x : Fetched) (cloud : String) (now : List ScheduleView) (s : Sent)
      → ((d : Days) → IsFresh s.db x.notification (expires d))
      → IsOnce s
      → Leaves x.notification.id s.db (expirations_of c x cloud now s).1
  expirations_of-IsOnce x cloud now s fresh h =
      elim (Bool-cases (c.email && not x.assignment.is_self_schedule)) [
        | inl t ↦ rw t (expirations-IsOnce x.notification cloud now all_days s fresh h)
        | inr f ↦ rw f (h, λ j other. refl)
      ]

  work_on-IsOnce :
      (x : Fetched) (cloud : String) (now : Option (List ScheduleView)) (s : Sent)
      → ((k : Kind) → IsFresh s.db x.notification k)
      → IsOnce s
      → Leaves x.notification.id s.db (work_on c x cloud (now, s)).1
  work_on-IsOnce x cloud none s fresh h = (h, λ j other. refl)
  work_on-IsOnce x cloud (some now) s fresh h =
      let (first, days) = initially-IsOnce x.notification cloud s fresh h in
      let m = initially c x.notification cloud s in
      proceed_inv (Leaves x.notification.id s.db) m (expirations_of c x cloud now) first (
        Leaves-trans x.notification.id s.db m.1 _ first
          (expirations_of-IsOnce x cloud now m.1 days first.0))

  pub notify_assignment-IsOnce :
      (x : Fetched) (s : Sent)
      → ((k : Kind) → IsFresh s.db x.notification k)
      → IsOnce s
      → Leaves x.notification.id s.db (notify_assignment c x s).1
  unfolding notify_assignment ask_current
  notify_assignment-IsOnce x s fresh h =
      elim x.cloud
        as (λ o. Leaves x.notification.id s.db (notify_assignment c (record x { cloud = o }) s).1) [
          | none ↦ (h, λ j other. refl)
          | some cloud ↦
              work_on-IsOnce x cloud.name _ (record s { requests = suc s.requests }) fresh
                (asked-IsOnce s (suc s.requests) h)
        ]
