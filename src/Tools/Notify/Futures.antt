-- ===== src/Tools/Notify/Futures.antt =====
-- One cloud in the second part of src/quads/tools/notify.py: no message goes out twice.
use mathlib.Core.Path.{subst}
use quads.Base.{
  ℕ, suc, String, ◌≡◌, refl, ap, ◌∙◌, inl, inr, Bool, true, false, not, ◌&&◌, Option, none, some,
  List, [], ◌∷◌, All-first, attribute_of, attribute_of-eq-pass, >>=-eq-pass, Bool-cases, Outcome,
  pass, refuse, crash, str_eq,
}
use quads.Models.{Cloud, Notification, Assignment}
use quads.Dao.Assignment.{get_active_cloud_assignment}
use quads.Dao.Notification.{set_flags, get_notification, get_assignment_notification}
use quads.Tools.Notify.{
  Days, Kind, pre_initial, pre, flag, setting, Sent, Notifier, Ran, announce, ask_current, leaving,
  Fetched, all_days, fetched, cloud_of,
}
use quads.Tools.Notify.Parts.{
  future_message, future_day, future_messages, plan_for, fetched_if, ask_active, plan_or_end,
  notify_cloud, notify_clouds,
}
use quads.Cli.Chosen.{ScheduleView}
use quads.Tools.Notify.Announced.{IsOnce, IsFresh, announce-IsOnce, announce-IsFresh}
use quads.Tools.Notify.Expirations.{proceed_inv, asked-IsOnce}

pre_initial_keeps : (x : Notification) → flag pre (set_flags (setting pre_initial) x) ≡ flag pre x
unfolding flag setting set_flags
pre_initial_keeps x = refl

unset_first : (f b : Bool) → (not f && b) ≡ true → f ≡ false
unset_first true b h = cc
unset_first false b h = refl

module _ (c : Notifier) (goes : (i : ℕ) → ((c.env i).commits 0 ≡ true) × (c.posts i ≡ true)) where
  future_message-IsOnce :
      (x : Fetched) (cloud : String) (hosts : List String) (later : List ScheduleView) (s : Sent)
      (rest : Ran)
      → IsFresh s.db x.notification pre
      → flag pre x.notification ≡ false
      → IsOnce s
      → IsOnce rest.1
      → IsOnce (future_message c x cloud hosts later s rest).1
  future_message-IsOnce x cloud hosts [] s rest fresh off h k = k
  future_message-IsOnce x cloud [] (y ∷ ys) s rest fresh off h k = k
  future_message-IsOnce x cloud (n ∷ hosts) (y ∷ ys) s rest fresh off h k =
      announce-IsOnce c goes pre x.notification cloud (n ∷ hosts) s fresh off h

  future_day-IsOnce :
      (x : Fetched) (cloud : String) (now : List ScheduleView) (answer : Option (List ScheduleView))
      (s : Sent) (rest : Ran)
      → IsFresh s.db x.notification pre
      → flag pre x.notification ≡ false
      → IsOnce s
      → IsOnce rest.1
      → IsOnce (future_day c x cloud now answer s rest).1
  future_day-IsOnce x cloud now none s rest fresh off h k = k
  future_day-IsOnce x cloud now (some later) s rest fresh off h k =
      future_message-IsOnce x cloud (leaving now later) later s rest fresh off h k

  future_messages-IsOnce :
      (x : Fetched) (cloud : String) (now : List ScheduleView) (days : List Days) (s : Sent)
      → IsFresh s.db x.notification pre
      → IsOnce s
      → IsOnce (future_messages c x cloud now days s).1
  unfolding future_messages ask_current
  future_messages-IsOnce x cloud now [] s fresh h = h
  future_messages-IsOnce x cloud now (d ∷ days) s fresh h =
      let s' = record s { requests = suc s.requests } in
      let h' = asked-IsOnce s (suc s.requests) h in
      elim (Bool-cases (not (flag pre x.notification) && x.assignment.validated)) [
        | inr f ↦ rw f (future_messages-IsOnce x cloud now days s fresh h)
        | inl t ↦ rw t (
            future_day-IsOnce x cloud now _ s' _ fresh (unset_first (flag pre x.notification) _ t)
              h' (future_messages-IsOnce x cloud now days s' fresh h'))
      ]

  plan_for-IsOnce :
      (x : Fetched) (cloud : String) (now : Option (List ScheduleView)) (s : Sent)
      → ((k : Kind) → IsFresh s.db x.notification k)
      → IsOnce s
      → IsOnce (plan_for c x cloud (now, s)).1
  plan_for-IsOnce x cloud none s fresh h = h
  plan_for-IsOnce x cloud (some now) s fresh h =
      elim (Bool-cases (not (flag pre_initial x.notification) && c.email)) [
        | inr f ↦ rw f (future_messages-IsOnce x cloud now all_days s (fresh pre) h)
        | inl t ↦ rw t (
            let once =
              announce-IsOnce c goes pre_initial x.notification cloud [] s (fresh pre_initial)
                (unset_first (flag pre_initial x.notification) c.email t) h in
            let still =
              announce-IsFresh c goes pre_initial x.notification cloud [] s (fresh pre_initial) pre
                pre_initial_keeps (fresh pre) in
            proceed_inv IsOnce (announce c pre_initial x.notification cloud [] s) _ once
              (future_messages-IsOnce x cloud now all_days _ still once))
      ]

  pub fetched-IsFresh :
      (s : Sent) (a : Assignment) (x : Fetched)
      → IsOnce s
      → fetched s.db a ≡ pass x
      → (k : Kind) → IsFresh s.db x.notification k
  unfolding fetched get_assignment_notification
  fetched-IsFresh s a x h e k =
      let (n, found, made) =
        >>=-eq-pass (attribute_of (get_assignment_notification s.db a.id)) _ e in
      let same : record { assignment = a; notification = n; cloud = cloud_of s.db a } ≡ x = cc in
      let row : get_notification s.db n.id ≡ some n =
        All-first _ _ s.db.notifications n h.keys (attribute_of-eq-pass _ n found) in
      subst (λ y. IsFresh s.db y.notification k) same (n, row, refl)

  fetched_if-IsFresh :
      (s : Sent) (o : Option Assignment)
      → IsOnce s
      → (x : Fetched) → fetched_if s.db o ≡ pass (some x)
      → (k : Kind) → IsFresh s.db x.notification k
  fetched_if-IsFresh s none h x e k = cc
  fetched_if-IsFresh s (some a) h x e k =
      let (y, found, made) = >>=-eq-pass (fetched s.db a) _ e in
      let same : y ≡ x = cc in fetched-IsFresh s a x h (found ∙ ap pass same) k

  ask_active-IsFresh :
      (s : Sent) (cloud : Cloud)
      → IsOnce s
      → (x : Fetched) → ask_active s.db cloud ≡ pass (some x)
      → (k : Kind) → IsFresh s.db x.notification k
  unfolding ask_active
  ask_active-IsFresh s cloud h x e =
      fetched_if-IsFresh s (get_active_cloud_assignment s.db cloud) h x e

  active-IsOnce :
      (cloud : Cloud) (answer : Outcome (Option Fetched)) (s : Sent)
      → ((x : Fetched) → answer ≡ pass (some x) → (k : Kind) → IsFresh s.db x.notification k)
      → IsOnce s
      → IsOnce (plan_or_end c cloud answer s).1
  unfolding ask_current
  active-IsOnce cloud (refuse status m) s fresh h = h
  active-IsOnce cloud crash s fresh h = h
  active-IsOnce cloud (pass none) s fresh h = h
  active-IsOnce cloud (pass (some x)) s fresh h =
      elim (Bool-cases (str_eq x.assignment.owner "quads")) [
        | inl t ↦ rw t h
        | inr f ↦ rw f (
            plan_for-IsOnce x cloud.name _ (record s { requests = suc s.requests }) (fresh x refl)
              (asked-IsOnce s (suc s.requests) h))
      ]

  pub notify_clouds-IsOnce :
      (clouds : List Cloud) (s : Sent) → IsOnce s → IsOnce (notify_clouds c clouds s).1
  unfolding notify_clouds notify_cloud
  notify_clouds-IsOnce [] s h = h
  notify_clouds-IsOnce (x ∷ xs) s h =
      let s' = record s { requests = suc s.requests } in
      let h' = asked-IsOnce s (suc s.requests) h in
      let m = notify_cloud c x s in
      let once : IsOnce m.1 =
        active-IsOnce x (ask_active s.db x) s' (ask_active-IsFresh s x h) h' in
      proceed_inv IsOnce m (notify_clouds c xs) once (notify_clouds-IsOnce xs m.1 once)
