-- ===== src/Notifier/Calls.antt =====
-- What the calls of the handler read and write.
use pingerus.Base.{
  ◌≡◌, refl, ◌⊎◌, inl, inr, some, ◌∷◌, find?, exists, ◌&&◌, arith, Bool-cases, Option-cases,
}
use pingerus.Base.Int.{ℤ, int_eq}
use pingerus.World.{World}
use pingerus.World.Errors.{ok}
use pingerus.World.Laws.{db-statement, db-interact, mails-interact}
use pingerus.World.Rows.{Time, User, Notification, Tables}
use pingerus.Postgres.Checks
use pingerus.Postgres.Checks.{has_id, scan_full}
use pingerus.Postgres.Users
use pingerus.Postgres.Notifications
use pingerus.Notifier.Sending.{IsReading}

-- The tables agree but for the notifications, of which there may be one more, with these owners.
pub record OneNote (check_id user_id : ℤ) (t u : Tables) : Type 0 where
  pub checks : u.checks ≡ t.checks
  pub users : u.users ≡ t.users
  pub outbox : u.outbox ≡ t.outbox
  pub notes :
      (u.notifications ≡ t.notifications)
      ⊎ ((n : Notification) × (u.notifications ≡ n ∷ t.notifications)
          × (n.check_id ≡ check_id)
          × (n.user_id ≡ user_id))

insert_row-OneNote :
    (n : Notification) (at : Time) (t : Tables)
    → OneNote n.check_id n.user_id t (Notifications.insert_row n at t).1
unfolding Notifications.insert_row
insert_row-OneNote n at t =
    elim (Bool-cases (
      exists (λ c. int_eq c.id n.check_id) t.checks
      && exists (λ u. int_eq u.id n.user_id) t.users)) [
        | inl known ↦ rw known (record {
          checks = refl;
          users = refl;
          outbox = refl;
          notes = inr (_, refl, refl, refl);
        })
        | inr unknown ↦
            rw unknown (record { checks = refl; users = refl; outbox = refl; notes = inl refl })
      ]

pub create-OneNote :
    (n : Notification) (w : World)
    → OneNote n.check_id n.user_id w.db (Notifications.create n w).1.db
unfolding Notifications.create
create-OneNote n w = elim (db-statement (Notifications.insert_row n) w) [
  | inl same ↦ rw same (record { checks = refl; users = refl; outbox = refl; notes = inl refl })
  | inr (at, wrote) ↦ rw wrote (insert_row-OneNote n at w.db)
]

pub mails-create : (n : Notification) (w : World) → (Notifications.create n w).1.mails ≡ w.mails
unfolding Notifications.create
mails-create n w = ground (arith, mails-interact w)

pub mails-get_check : (id : ℤ) (w : World) → (Checks.get_by_id id w).1.mails ≡ w.mails
unfolding Checks.get_by_id
mails-get_check id w = ground (arith, mails-interact w)

pub get_user-IsReading : (id : ℤ) → IsReading (Users.get_by_id id)
unfolding Users.get_by_id
get_user-IsReading id w = ground (arith, db-interact w, mails-interact w)

pub get_user-found :
    (id : ℤ) (w : World) (u : User)
    → (Users.get_by_id id w).0 ≡ ok u
    → find? (λ x. int_eq x.id id) w.db.users ≡ some u
unfolding Users.get_by_id
get_user-found id w u e = elim (Option-cases (find? (λ x. int_eq x.id id) w.db.users)) [
  | inl missing ↦ ground (arith, db-interact w)
  | inr (user, stored) ↦ ground (arith, db-interact w)
]
