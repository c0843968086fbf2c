-- ===== src/Tools/Notify/Once.antt =====
-- No message of src/quads/tools/notify.py goes out twice.
use mathlib.Core.Path.{subst}
use quads.Base.{
  ℕ, ◌+◌, String, ◌≡◌, ◌≢◌, refl, sym, ap, ◌∙◌, inl, inr, Bool, true, some, List, [], ◌∷◌, All,
  All-map, All-both, All-first, All-select, select, first_sound, ==_iff, Bool-cases, Outcome, pass,
  refuse, crash, attribute_of, attribute_of-eq-pass, >>=-eq-pass,
}
use quads.Models.{Cloud, Assignment, Db}
use quads.Dao.Notification.{get_notification, get_assignment_notification}
use quads.Dao.Notification.Flagged.{HaveKeys}
use quads.Tools.Notify.{Kind, Sent, Notifier, Fetched, cloud_of, fetched, all_fetched}
use quads.Tools.Notify.Parts.{
  notify_assignment, notify_assignments, notify_clouds, both_parts, main,
}
use quads.Tools.Notify.Announced.{IsOnce, IsFresh}
use quads.Tools.Notify.Expirations.{proceed_inv, asked-IsOnce, notify_assignment-IsOnce}
use quads.Tools.Notify.Futures.{notify_clouds-IsOnce}

-- No two assignments have one key.
abbrev pub HaveIds : List Assignment → Type 0
HaveIds [] = Unit
HaveIds (a ∷ rows) = All (λ b. b.id ≢ a.id) rows × HaveIds rows

HaveIds-select :
    (p : Assignment → Bool) (rows : List Assignment) → HaveIds rows → HaveIds (select p rows)
HaveIds-select p [] h = tt
HaveIds-select p (a ∷ rows) h = elim (Bool-cases (p a)) [
  | inl t ↦ rw t (All-select (λ b. b.id ≢ a.id) p rows h.0, HaveIds-select p rows h.1)
  | inr f ↦ rw f (HaveIds-select p rows h.1)
]

-- The notification is a row of the table, and the assignment's own.
record IsOwn (db : Db) (x : Fetched) : Type 0 where
  row : get_notification db x.notification.id ≡ some x.notification
  own : x.notification.assignment_id ≡ x.assignment.id

-- No two have one notification.
abbrev AreApart : List Fetched → Type 0
AreApart [] = Unit
AreApart (x ∷ xs) = All (λ y. y.notification.id ≢ x.notification.id) xs × AreApart xs

module _ (db : Db) (keys : HaveKeys db) where
  fetched-IsOwn :
      (a : Assignment) (x : Fetched) → fetched db a ≡ pass x → (x.assignment ≡ a) × IsOwn db x
  unfolding fetched get_assignment_notification
  fetched-IsOwn a x e =
      let (n, found, made) = >>=-eq-pass (attribute_of (get_assignment_notification db a.id)) _ e in
      let first_row = attribute_of-eq-pass _ n found in
      let same : record { assignment = a; notification = n; cloud = cloud_of db a } ≡ x = cc in
      (
        ap (λ y. y.assignment) (sym same),
        subst (IsOwn db) same (record {
          row = All-first _ _ db.notifications n keys first_row;
          own = (==_iff n.assignment_id a.id).0 (first_sound _ db.notifications n first_row);
        }),
      )

  own-apart :
      (x y : Fetched)
      → IsOwn db x
      → IsOwn db y
      → y.assignment.id ≢ x.assignment.id
      → y.notification.id ≢ x.notification.id
  own-apart x y hx hy other e =
      let both : some y.notification ≡ some x.notification =
        sym hy.row ∙ ap (get_notification db) e ∙ hx.row in
      let same : y.notification ≡ x.notification = cc in
      other (sym hy.own ∙ ap (λ n. n.assignment_id) same ∙ hx.own)

  all_fetched-All :
      (P : Assignment → Type 0) (rows : List Assignment) (xs : List Fetched)
      → All P rows
      → all_fetched db rows ≡ pass xs
      → All (λ x. P x.assignment × IsOwn db x) xs
  unfolding all_fetched
  all_fetched-All P [] xs h e = let same : [] ≡ xs = cc in rw (sym same) tt
  all_fetched-All P (a ∷ rows) xs h e =
      let (x, one, rest) = >>=-eq-pass (fetched db a) _ e in
      let (others, all, made) = >>=-eq-pass (all_fetched db rows) _ rest in
      let same : x ∷ others ≡ xs = cc in
      let (is, own) = fetched-IsOwn a x one in
      rw (sym same) ((subst P (sym is) h.0, own), all_fetched-All P rows others h.1 all)

  all_fetched-AreApart :
      (rows : List Assignment) (xs : List Fetched)
      → HaveIds rows
      → all_fetched db rows ≡ pass xs
      → AreApart xs × All (IsOwn db) xs
  unfolding all_fetched
  all_fetched-AreApart [] xs h e = let same : [] ≡ xs = cc in rw (sym same) (tt, tt)
  all_fetched-AreApart (a ∷ rows) xs h e =
      let (x, one, rest) = >>=-eq-pass (fetched db a) _ e in
      let (others, all, made) = >>=-eq-pass (all_fetched db rows) _ rest in
      let same : x ∷ others ≡ xs = cc in
      let (is, own) = fetched-IsOwn a x one in
      let (apart, owns) = all_fetched-AreApart rows others h.1 all in
      rw (sym same) (
        (
          All-map others (λ y k. own-apart x y own k.1 (λ e'. k.0 (e' ∙ ap (λ b. b.id) is)))
              (all_fetched-All (λ b. b.id ≢ a.id) rows others h.0 all),
          apart,
        ),
        (own, owns),
      )

module _ (c : Notifier) (goes : (i : ℕ) → ((c.env i).commits 0 ≡ true) × (c.posts i ≡ true)) where
  notify_assignments-IsOnce :
      (xs : List Fetched) (s : Sent)
      → AreApart xs
      → All (λ x. (k : Kind) → IsFresh s.db x.notification k) xs
      → IsOnce s
      → IsOnce (notify_assignments c xs s).1
  unfolding notify_assignments
  notify_assignments-IsOnce [] s apart fresh h = h
  notify_assignments-IsOnce (x ∷ xs) s apart fresh h =
      let m = notify_assignment c x s in
      let (once, others) = notify_assignment-IsOnce c goes x s fresh.0 h in
      proceed_inv IsOnce m (notify_assignments c xs) once (
        notify_assignments-IsOnce xs m.1 apart.1
          (All-map xs
            (λ y k kind.
              let (r, found, same) = k.1 kind in (r, others y.notification.id k.0 ∙ found, same))
            (All-both _ _ xs apart.0 fresh.1))
          once)

  both_parts-IsOnce :
      (clouds : List Cloud) (answer : Outcome (List Fetched)) (s : Sent)
      → ((xs : List Fetched) → answer ≡ pass xs → AreApart xs × All (IsOwn s.db) xs)
      → IsOnce s
      → IsOnce (both_parts c clouds answer s).1
  both_parts-IsOnce clouds (refuse status m) s facts h = h
  both_parts-IsOnce clouds crash s facts h = h
  both_parts-IsOnce clouds (pass xs) s facts h =
      let (apart, owns) = facts xs refl in
      let m = notify_assignments c xs s in
      let once =
        notify_assignments-IsOnce xs s apart
          (All-map xs (λ x own kind. (x.notification, own.row, refl)) owns) h in
      proceed_inv IsOnce m (notify_clouds c clouds) once
        (notify_clouds-IsOnce c goes clouds m.1 once)

-- Where the commits of the flags succeed, nothing raises in an initial message after its e-mail, no two assignments have one key, and each notification is found
-- by its key, a run of the tool keeps this: of each kind at most one message has gone out about a
-- notification, in this run and those before, and the flag of each that has is set.
pub main-IsOnce :
    (c : Notifier) (spare : String) (s : Sent)
    → ((i : ℕ) → ((c.env i).commits 0 ≡ true) × (c.posts i ≡ true))
    → HaveIds s.db.assignments
    → IsOnce s
    → IsOnce (main c spare s).1
unfolding main
main-IsOnce c spare s goes ids h =
    both_parts-IsOnce c goes _ (all_fetched s.db _) (record s { requests = s.requests + 2 })
      (λ xs e. all_fetched-AreApart s.db h.keys _ xs (HaveIds-select _ s.db.assignments ids) e)
      (asked-IsOnce s (s.requests + 2) h)
