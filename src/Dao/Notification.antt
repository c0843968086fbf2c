-- ===== src/Dao/Notification.antt =====
-- src/quads/server/dao/notification.py
pub mod Flagged
use quads.Base.{ℕ, ◌+◌, Bool, false, Option, none, some, [], ◌∷◌, ◌++◌, ◌==◌, first, amend}
use quads.Models.{Notification, Db}

unfoldable pub get_notification : Db → ℕ → Option Notification
get_notification db id = first (λ n. n.id == id) db.notifications

-- `assignment.notification`
unfoldable pub get_assignment_notification : Db → ℕ → Option Notification
get_assignment_notification db assignment_id =
    first (λ n. n.assignment_id == assignment_id) db.notifications

-- The keyword arguments of `update_notification`; `none` leaves the flag as it is.
pub record Flags : Type 0 where
  pub fail : Option Bool
  pub success : Option Bool
  pub initial : Option Bool
  pub pre_initial : Option Bool
  pub pre : Option Bool
  pub one_day : Option Bool
  pub three_days : Option Bool
  pub five_days : Option Bool
  pub seven_days : Option Bool

abbrev pub no_flags : Flags
no_flags = record {
  fail = none;
  success = none;
  initial = none;
  pre_initial = none;
  pre = none;
  one_day = none;
  three_days = none;
  five_days = none;
  seven_days = none;
}

abbrev given : Option Bool → Bool → Bool
given none old = old
given (some b) old = b

unfoldable pub set_flags : Flags → Notification → Notification
set_flags f n = record n {
  fail = given f.fail n.fail;
  success = given f.success n.success;
  initial = given f.initial n.initial;
  pre_initial = given f.pre_initial n.pre_initial;
  pre = given f.pre n.pre;
  one_day = given f.one_day n.one_day;
  three_days = given f.three_days n.three_days;
  five_days = given f.five_days n.five_days;
  seven_days = given f.seven_days n.seven_days;
}

-- The write of `update_notification`; its commit is the caller's step.
unfoldable pub update_notification : Db → ℕ → Flags → Db
unfolding set_flags
update_notification db id f = record db {
  notifications = amend (λ n. n.id == id) (set_flags f) db.notifications;
}

-- A new row with the defaults of its columns.
unfoldable pub insert_notification : Db → ℕ → Db
insert_notification db assignment_id = record db {
  notifications =
      db.notifications
      ++ record {
        id = db.next_notification;
        fail = false;
        success = false;
        initial = false;
        pre_initial = false;
        pre = false;
        one_day = false;
        three_days = false;
        five_days = false;
        seven_days = false;
        assignment_id = assignment_id;
      }
        ∷ [];
  next_notification = db.next_notification + 1;
}
