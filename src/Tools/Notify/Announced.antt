-- ===== src/Tools/Notify/Announced.antt =====
-- One message of src/quads/tools/notify.py and the flag that tells that it went out.
use mathlib.Core.Path.{subst}
use quads.Base.{
  ℕ, suc, String, ◌≡◌, ◌≢◌, ◌⊎◌, refl, sym, ap, ◌∙◌, inl, inr, true, false, some, List, [], ◌∷◌,
  arith, All, All-map, ◌==◌, ==_iff, Bool-cases, first_sound,
}
use quads.Models.{Notification, Db}
use quads.Session.{Env, safe_commit}
use quads.Dao.Notification.{Flags, set_flags, get_notification, update_notification}
use quads.Dao.Notification.Flagged.{
  HaveKeys, updated, get_notification-updated, get_notification-other, HaveKeys-updated,
}
use quads.Api.Notifications.{patch_notification}
use quads.Tools.Notify.{
  one_day, three_days, five_days, seven_days, Kind, initial, pre_initial, pre, expires, flag,
  setting, Announcement, Sent, Notifier, finishes, announce,
}

-- A message went out, and the flag of its kind is set.
abbrev pub IsFlagged : Db → Announcement → Type 0
IsFlagged db m =
    (n : Notification) × (get_notification db m.notification ≡ some n) × (flag m.kind n ≡ true)

-- No two messages are of one kind for one assignment's notification.
abbrev pub AllOnce : List Announcement → Type 0
AllOnce [] = Unit
AllOnce (m ∷ rest) =
    All (λ k. (k.notification ≢ m.notification) ⊎ (k.kind ≢ m.kind)) rest × AllOnce rest

-- Each message went out once and has its flag.
pub record IsOnce (s : Sent) : Type 0 where
  pub keys : HaveKeys s.db
  pub once : AllOnce s.messages
  pub flagged : All (IsFlagged s.db) s.messages

-- What was fetched of the notification still holds for the kind.
abbrev pub IsFresh : Db → Notification → Kind → Type 0
IsFresh db n k = (r : Notification) × (get_notification db n.id ≡ some r) × (flag k r ≡ flag k n)

-- A flag that is set stays set, and one's own flag is set.
flag_stays :
    (kind k : Kind) (n : Notification)
    → flag k n ≡ true
    → flag k (set_flags (setting kind) n) ≡ true
unfolding flag setting set_flags
flag_stays kind k n h = ground arith

flag_set : (kind : Kind) (n : Notification) → flag kind (set_flags (setting kind) n) ≡ true
unfolding flag setting set_flags
flag_set initial n = refl
flag_set pre_initial n = refl
flag_set pre n = refl
flag_set (expires one_day) n = refl
flag_set (expires three_days) n = refl
flag_set (expires five_days) n = refl
flag_set (expires seven_days) n = refl

patched :
    (env : Env) (id : ℕ) (f : Flags) (db : Db) (r : Notification)
    → env.commits 0 ≡ true
    → get_notification db id ≡ some r
    → r.id ≡ id
    → (patch_notification env id f db).1 ≡ update_notification db id f
unfolding patch_notification safe_commit
patched env id f db r ok found key = rw (found, ok, key) refl

found_key : (db : Db) (j : ℕ) (r : Notification) → get_notification db j ≡ some r → r.id ≡ j
unfolding get_notification
found_key db j r h = (==_iff r.id j).0 (first_sound _ db.notifications r h)

-- The flags of the other kinds hold after the update of one.
updated-IsFlagged :
    (db : Db) (id : ℕ) (kind : Kind) (m : Announcement)
    → IsFlagged db m
    → IsFlagged (update_notification db id (setting kind)) m
updated-IsFlagged db id kind m (n, found, set) = (
  updated id (setting kind) n,
  get_notification-updated db id (setting kind) m.notification n found,
  updated_stays n set,
)
  where
    updated_stays :
        (n : Notification) → flag m.kind n ≡ true → flag m.kind (updated id (setting kind) n) ≡ true
    updated_stays n set = elim (Bool-cases (n.id == id)) [
      | inl t ↦ rw t (flag_stays kind m.kind n set)
      | inr f ↦ rw f set
    ]

module _ (c : Notifier) (goes : (i : ℕ) → ((c.env i).commits 0 ≡ true) × (c.posts i ≡ true)) where
  -- The state after a message of one kind about a notification.
  module _ (kind : Kind) (n : Notification) (cloud : String) (hosts : List String) (s : Sent)
      (fresh : IsFresh s.db n kind) where
    abbrev sent_db : Db
    sent_db = (patch_notification (c.env s.requests) n.id (setting kind) s.db).1

    sent_db-updated : sent_db ≡ update_notification s.db n.id (setting kind)
    sent_db-updated =
        patched (c.env s.requests) n.id (setting kind) s.db fresh.0 (goes s.requests).0 fresh.1
          (found_key s.db n.id fresh.0 fresh.1)

    no_other :
        flag kind n ≡ false
        → (m : Announcement) → IsFlagged s.db m
        → (m.notification ≢ n.id) ⊎ (m.kind ≢ kind)
    no_other unset m (r, found, set) = elim (Bool-cases (m.notification == n.id)) [
      | inr f ↦ inl (λ e. ground arith)
      | inl t ↦ inr (λ e.
          let there : m.notification ≡ n.id = (==_iff m.notification n.id).0 t in
          let both : some r ≡ some fresh.0 =
            sym found ∙ ap (get_notification s.db) there ∙ fresh.1 in
          let same : r ≡ fresh.0 = cc in
          let on : flag kind fresh.0 ≡ true =
            sym (ap (λ k. flag k fresh.0) e) ∙ sym (ap (flag m.kind) same) ∙ set in
          let off : flag kind fresh.0 ≡ false = fresh.2 ∙ unset in cc)
    ]

    abbrev message : Announcement
    message = record { kind = kind; notification = n.id; cloud = cloud; hosts = hosts }

    message-IsFlagged : IsFlagged (update_notification s.db n.id (setting kind)) message
    message-IsFlagged =
        let at_row : (fresh.0.id == n.id) ≡ true =
          (==_iff fresh.0.id n.id).1 (found_key s.db n.id fresh.0 fresh.1) in
        (
          updated n.id (setting kind) fresh.0,
          get_notification-updated s.db n.id (setting kind) n.id fresh.0 fresh.1,
          rw at_row (flag_set kind fresh.0),
        )

    sent-IsOnce :
        (requests : ℕ)
        → flag kind n ≡ false
        → IsOnce s
        → IsOnce (record {
          db = update_notification s.db n.id (setting kind);
          messages = message ∷ s.messages;
          requests = requests;
        })
    sent-IsOnce requests unset h = record {
      keys = HaveKeys-updated s.db n.id (setting kind) h.keys;
      once = (All-map s.messages (no_other unset) h.flagged, h.once);
      flagged =
          (message-IsFlagged, All-map s.messages (updated-IsFlagged s.db n.id kind) h.flagged);
    }

    finishes-true : (i : ℕ) → finishes c kind i ≡ true
    finishes-true i = elim kind as (λ k. finishes c k i ≡ true) [
      | initial ↦ (goes i).1
      | pre_initial ↦ refl
      | pre ↦ refl
      | expires day ↦ refl
    ]

    pub announce-IsOnce :
        flag kind n ≡ false → IsOnce s → IsOnce (announce c kind n cloud hosts s).1
    unfolding announce
    announce-IsOnce unset h = elim (Bool-cases (c.delivers s.requests)) [
      | inr f ↦ rw f h
      | inl t ↦
          rw (t, finishes-true s.requests)
            (subst
              (λ d.
                IsOnce
                  (record { db = d; messages = message ∷ s.messages; requests = suc s.requests }))
              (sym sent_db-updated) (sent-IsOnce (suc s.requests) unset h))
    ]

    pub announce-others :
        (j : ℕ)
        → j ≢ n.id
        → get_notification (announce c kind n cloud hosts s).1.db j ≡ get_notification s.db j
    unfolding announce
    announce-others j other = elim (Bool-cases (c.delivers s.requests)) [
      | inr f ↦ rw f refl
      | inl t ↦
          rw (t, finishes-true s.requests, sent_db-updated)
            (get_notification-other s.db n.id (setting kind) j other)
    ]

    updated_keeps :
        (k : Kind)
        → ((x : Notification) → flag k (set_flags (setting kind) x) ≡ flag k x)
        → (r : Notification) → flag k (updated n.id (setting kind) r) ≡ flag k r
    updated_keeps k keeps r = elim (Bool-cases (r.id == n.id)) [
      | inl t ↦ rw t (keeps r)
      | inr f ↦ rw f refl
    ]

    pub announce-IsFresh :
        (k : Kind)
        → ((x : Notification) → flag k (set_flags (setting kind) x) ≡ flag k x)
        → IsFresh s.db n k
        → IsFresh (announce c kind n cloud hosts s).1.db n k
    unfolding announce
    announce-IsFresh k keeps (r, found, same) = elim (Bool-cases (c.delivers s.requests)) [
      | inr f ↦ rw f (r, found, same)
      | inl t ↦
          rw (t, finishes-true s.requests, sent_db-updated)
            (
              updated n.id (setting kind) r,
              get_notification-updated s.db n.id (setting kind) n.id r found,
              updated_keeps k keeps r ∙ same,
            )
    ]
