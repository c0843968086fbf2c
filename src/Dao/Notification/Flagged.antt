-- ===== src/Dao/Notification/Flagged.antt =====
-- What PATCH /notifications/<id> (src/quads/server/blueprints/notifications.py) leaves in the table.
use quads.Base.{
  ℕ, ◌≡◌, ◌≢◌, refl, ap, ◌∙◌, inl, inr, true, false, some, List, [], ◌∷◌, arith, All, All-map,
  amend, first, ◌==◌, Bool-cases, if◌then◌else◌,
}
use quads.Models.{Notification, Db}
use quads.Dao.Notification.{Flags, set_flags, get_notification, update_notification}

-- The key of a row finds it.
abbrev pub HaveKeys : Db → Type 0
HaveKeys db = All (λ n. get_notification db n.id ≡ some n) db.notifications

-- One row of the table after the update.
abbrev pub updated : ℕ → Flags → Notification → Notification
updated id f n = if n.id == id then set_flags f n else n

updated_key : (id : ℕ) (f : Flags) (n : Notification) → (updated id f n).id ≡ n.id
unfolding set_flags
updated_key id f n = ground arith

first-updated :
    (id j : ℕ) (f : Flags) (rows : List Notification) (r : Notification)
    → first (λ n. n.id == j) rows ≡ some r
    → first (λ n. n.id == j) (amend (λ n. n.id == id) (set_flags f) rows) ≡ some (updated id f r)
unfolding set_flags
first-updated id j f [] r h = cc
first-updated id j f (n ∷ rows) r h =
    let kept : ((updated id f n).id == j) ≡ (n.id == j) = ap (λ k. k == j) (updated_key id f n) in
    elim (Bool-cases (n.id == j)) [
      | inl t ↦
          let same : n ≡ r = ground arith in
          let found : ((updated id f n).id == j) ≡ true = kept ∙ t in
          rw found (ap (λ x. some (updated id f x)) same)
      | inr e ↦
          let missed : ((updated id f n).id == j) ≡ false = kept ∙ e in
          rw missed (first-updated id j f rows r (ground arith))
    ]

first_other :
    (id j : ℕ) (f : Flags) (rows : List Notification)
    → j ≢ id
    → first (λ n. n.id == j) (amend (λ n. n.id == id) (set_flags f) rows)
      ≡ first (λ n. n.id == j) rows
unfolding set_flags
first_other id j f [] other = refl
first_other id j f (n ∷ rows) other =
    let rest = first_other id j f rows other in
    let kept : ((updated id f n).id == j) ≡ (n.id == j) = ap (λ k. k == j) (updated_key id f n) in
    elim (Bool-cases (n.id == j)) [
      | inl t ↦ let apart : (n.id == id) ≡ false = ground arith in rw (apart, t) refl
      | inr e ↦ let missed : ((updated id f n).id == j) ≡ false = kept ∙ e in rw (missed, e) rest
    ]

module _ (db : Db) (id : ℕ) (f : Flags) where
  pub get_notification-updated :
      (j : ℕ) (r : Notification)
      → get_notification db j ≡ some r
      → get_notification (update_notification db id f) j ≡ some (updated id f r)
  unfolding get_notification update_notification
  get_notification-updated j r h = first-updated id j f db.notifications r h

  pub get_notification-other :
      (j : ℕ) → j ≢ id → get_notification (update_notification db id f) j ≡ get_notification db j
  unfolding get_notification update_notification
  get_notification-other j other = first_other id j f db.notifications other

  All-updated :
      (P : Notification → Type 0) (rows : List Notification)
      → All (λ n. P (updated id f n)) rows
      → All P (amend (λ n. n.id == id) (set_flags f) rows)
  All-updated P [] h = tt
  All-updated P (n ∷ rows) h = (h.0, All-updated P rows h.1)

  pub HaveKeys-updated : HaveKeys db → HaveKeys (update_notification db id f)
  unfolding update_notification
  HaveKeys-updated h =
      All-updated (λ n. get_notification (update_notification db id f) n.id ≡ some n)
        db.notifications
        (All-map db.notifications
          (λ n k.
            ap (get_notification (update_notification db id f)) (updated_key id f n)
            ∙ get_notification-updated n.id n k)
          h)
